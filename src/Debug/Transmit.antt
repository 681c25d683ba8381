-- ===== src/Debug/Transmit.antt =====
-- A serial port that gets ready again and again, and `serial_output` of kernel/src/debug.c on it.
use cardinal.Base.{
  ℕ, zero, suc, ◌==◌, ◌≡◌, ◌<◌, ◌≤◌, refl, ◌∙◌, ap, Bool-cases, inl, inr, true, false, List, [],
  ◌∷◌, ◌++◌, bit_and, ok, arith,
}
use cardinal.Debug.Serial.{Ports, serial_a, serial_a_status, serial_output}
use cardinal.Debug.{Console, print_str}
use cardinal.Debug.Printing.{Sends, Ready, print_str-Printed}

-- The documented behaviour of the port's transmitter, which is ready when no read of its status is left: bit 5 of the
-- status is clear for at most `most` reads of it after a byte, bit 5 is set on a transmitter that is ready only, and a
-- byte is sent that is written to one that is ready. Of a byte that is written to another one nothing is known.
pub record Transmits (P : Ports) (most : ℕ) : Type 0 where
  pub sent : P.State → List ℕ
  pub busy : P.State → ℕ
  pub bounded : (s : P.State) → busy s ≤ most
  pub ready : (s : P.State) → busy s ≡ 0 → (bit_and (P.inb serial_a_status s).0 0x20 == 0) ≡ false
  pub tells :
      (s : P.State)
      → (bit_and (P.inb serial_a_status s).0 0x20 == 0) ≡ false
      → busy (P.inb serial_a_status s).1 ≡ 0
  pub read : (s : P.State) → sent (P.inb serial_a_status s).1 ≡ sent s
  pub counts : (s : P.State) (n : ℕ) → busy s ≡ suc n → busy (P.inb serial_a_status s).1 ≤ n
  pub written :
      (ch : ℕ) (s : P.State) → busy s ≡ 0 → sent (P.outb serial_a ch s) ≡ sent s ++ ch ∷ []

module _ (P : Ports) {most : ℕ} (T : Transmits P most) where
  serial_output-sent :
      (rounds ch : ℕ) (s : P.State)
      → T.busy s < rounds
      → (s' : P.State) × (serial_output P rounds ch s ≡ ok s') × (T.sent s' ≡ T.sent s ++ ch ∷ [])
  unfolding serial_output
  serial_output-sent zero ch s h = absurd (omega arith)
  serial_output-sent (suc rounds) ch s h =
      elim (Bool-cases (bit_and (P.inb serial_a_status s).0 0x20 == 0)) [
        | inr is_ready ↦ (
          P.outb serial_a ch (P.inb serial_a_status s).1,
          rw (serial_output, is_ready) refl,
          T.written ch _ (T.tells s is_ready) ∙ ap (λ xs. xs ++ ch ∷ []) (T.read s),
        )
        | inl waits ↦
            let (s', run, e) =
              serial_output-sent rounds ch (P.inb serial_a_status s).1
                (fewer (T.busy s) refl waits) in
            (s', rw (serial_output, waits) run, e ∙ ap (λ xs. xs ++ ch ∷ []) (T.read s))
      ]
    where
      fewer :
          (n : ℕ)
          → T.busy s ≡ n
          → (bit_and (P.inb serial_a_status s).0 0x20 == 0) ≡ true
          → T.busy (P.inb serial_a_status s).1 < rounds
      fewer zero e waits = let r = T.ready s e in cc
      fewer (suc n) e waits = omega (arith, T.counts s n e)

  -- `serial_output`, with one round more than the reads that a byte may take.
  pub serial-Sends : Sends (serial_output P (suc most))
  serial-Sends = record {
    sent = T.sent;
    typed = λ s. [];
    sends = λ ch s.
        let (s', run, e) = serial_output-sent (suc most) ch s (omega (arith, T.bounded s)) in
        (s', run, e, refl);
  }

  -- On a port that gets ready after at most `most` reads of its status for each byte, and with a display that
  -- is ready, `print_str` returns, and the port has sent the string's characters in their order.
  pub print_str-serial_output :
      (font : ℕ → ℕ → ℕ) (str : List ℕ) (c : Console P.State)
      → Ready c.display
      → (c' : Console P.State) × (print_str font (serial_output P (suc most)) str c ≡ ok c')
        × (T.sent c'.device ≡ T.sent c.device ++ str)
  unfolding serial-Sends
  print_str-serial_output font str c r =
      let (c', run, p) = print_str-Printed font serial-Sends str c r in (c', run, p.sent)
