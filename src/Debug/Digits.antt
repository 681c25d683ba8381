-- ===== src/Debug/Digits.antt =====
-- Numbers and bytes of kernel/src/debug.c in base 16. `output` is `serial_output`; numbers are bit patterns,
-- of which a negative one shows the same digits as an unsigned one.
use mathlib.Core.List.{append-nil, append_assoc}
use native.Mathlib.Nat.{pow-suc}
use cardinal.Base.{
  ℕ, zero, suc, ◌+◌, ◌-◌, ◌*◌, ◌/◌, ◌%◌, ◌^◌, ◌<◌, ◌≤◌, ◌≡◌, ◌⊎◌, ◌↔◌, refl, sym, ◌∙◌, ap, length,
  ◌==◌, ltb, true, false, if◌then◌else◌, some, List, [], ◌∷◌, ◌++◌, get_or, bit_and, u8, u64, ◌>>◌,
  Outcome, ok, ok->>=, ◌>>=◌, arith,
}
use cardinal.Base.Bits.{and_mask}
use cardinal.Stdlib.{atoi, hex_value}
use cardinal.Stdlib.Hex.{Alphabet, hex_digits, atoi-digits}
use cardinal.Debug.{Console, print_str}
use cardinal.Debug.Printing.{Sends}

-- `BASE_HEX`
abbrev pub base_hex : ℕ
base_hex = 16

-- "0123456789ABCDEF"
abbrev pub hex_str : List ℕ
hex_str = 48 ∷ 49 ∷ 50 ∷ 51 ∷ 52 ∷ 53 ∷ 54 ∷ 55 ∷ 56 ∷ 57 ∷ 65 ∷ 66 ∷ 67 ∷ 68 ∷ 69 ∷ 70 ∷ []

module _ {S : Type 0} (output : ℕ → S → Outcome S) where
  -- The loop of `PRINT_BITCNT` from `i = 4 * (left - 1)` down to 0.
  unfoldable pub print_loop : ℕ → ℕ → S → Outcome S
  print_loop zero num s = ok s
  print_loop (suc left) num s =
      output (get_or hex_str (bit_and (num >> (4 * left)) 0xf) 0) s >>= λ s1. print_loop left num s1

  -- `PRINT_BITCNT`, and the functions that consist of it.
  unfoldable pub print_bits : ℕ → ℕ → ℕ → S → Outcome S
  unfolding print_loop
  print_bits bitcnt num base s = if base == base_hex then print_loop (bitcnt / 4) num s else ok s

  abbrev pub print_int8 : ℕ → ℕ → S → Outcome S
  print_int8 = print_bits 8

  abbrev pub print_int16 : ℕ → ℕ → S → Outcome S
  print_int16 = print_bits 16

  abbrev pub print_int32 : ℕ → ℕ → S → Outcome S
  print_int32 = print_bits 32

  abbrev pub print_int64 : ℕ → ℕ → S → Outcome S
  print_int64 = print_bits 64

  abbrev pub print_uint8 : ℕ → ℕ → S → Outcome S
  print_uint8 = print_bits 8

  abbrev pub print_uint16 : ℕ → ℕ → S → Outcome S
  print_uint16 = print_bits 16

  abbrev pub print_uint32 : ℕ → ℕ → S → Outcome S
  print_uint32 = print_bits 32

  abbrev pub print_uint64 : ℕ → ℕ → S → Outcome S
  print_uint64 = print_bits 64

  -- A number that is printed between strings.
  unfoldable pub on_device : (S → Outcome S) → Console S → Outcome (Console S)
  on_device print c = print c.device >>= λ device. ok (record c { device = device })

  module _ (font : ℕ → ℕ → ℕ) (datap len : ℕ) where
    -- What stands behind a byte: a wider space after 8 of them, a line end after 16.
    unfoldable pub separator : ℕ → List ℕ
    separator l_off =
        if l_off == 7 then 32 ∷ 32 ∷ [] else if ltb l_off 15 then 32 ∷ [] else 13 ∷ 10 ∷ []

    -- The inner loop, from `l_off` on, with `left` of 16 rounds.
    unfoldable pub hexdump_row : ℕ → ℕ → ℕ → Console S → Outcome (Console S)
    unfolding print_bits on_device separator print_str
    hexdump_row zero off l_off c = ok c
    hexdump_row (suc left) off l_off c = elim (ltb (off + l_off) len) [
      | false ↦ ok c
      | true ↦
          (if l_off == 0
            then (on_device (print_uint64 (u64 (datap + (off + l_off))) base_hex) c >>= λ c1.
                print_str font output (32 ∷ 32 ∷ []) c1)
            else ok c)
          >>= λ c2.
              on_device (print_uint8 (u8 (c2.mem (datap + (off + l_off)))) base_hex) c2 >>= λ c3.
              print_str font output (separator l_off) c3 >>= λ c4.
              hexdump_row left off (l_off + 1) c4
    ]

    -- The outer loop, with as many rounds as there are rows left.
    unfoldable pub hexdump_loop : ℕ → ℕ → Console S → Outcome (Console S)
    unfolding hexdump_row
    hexdump_loop zero off c = ok c
    hexdump_loop (suc rows) off c = hexdump_row 16 off 0 c >>= λ c1. hexdump_loop rows (off + 16) c1

    -- `len` is not negative.
    unfoldable pub print_hexdump : Console S → Outcome (Console S)
    unfolding hexdump_loop print_str
    print_hexdump c =
        hexdump_loop ((len + 15) / 16) 0 c >>= λ c1. print_str font output (13 ∷ 10 ∷ []) c1

-- The digits that are printed.
abbrev pub upper_digit : ℕ → ℕ
upper_digit d = get_or hex_str d 0

-- A relation of each place of a list and what stands there.
abbrev Numbered : (ℕ → ℕ → Type 0) → List ℕ → Type 0
Numbered R [] = Unit {0}
Numbered R (x ∷ xs) = R 0 x × Numbered (λ i. R (suc i)) xs

get_or-numbered :
    (R : ℕ → ℕ → Type 0) (xs : List ℕ) (i : ℕ) → Numbered R xs → i < length xs → R i (get_or xs i 0)
get_or-numbered R [] i h lt = absurd (omega arith)
get_or-numbered R (x ∷ xs) zero h lt = h.0
get_or-numbered R (x ∷ xs) (suc i) h lt = get_or-numbered (λ j. R (suc j)) xs i h.1 (omega arith)

infixr 4 ◌also◌
abbrev ◌also◌ : {A B : Type 0} → A → B → A × B
a also b = (a, b)

upper-Alphabet : Alphabet upper_digit
unfolding hex_value
upper-Alphabet = record {
  read = λ d lt. get_or-numbered (λ v c. hex_value c ≡ some v) hex_str d each_digit lt;
}
  where
    each_digit : Numbered (λ v c. hex_value c ≡ some v) hex_str
    each_digit =
        refl also refl also refl also refl also refl also refl also refl also refl also refl
        also refl also refl also refl also refl also refl also refl also refl also tt

power_of_16 : (k : ℕ) → 2 ^ (4 * k) ≡ 16 ^ k
power_of_16 zero = refl
power_of_16 (suc k) =
    let next : 4 * suc k ≡ suc (suc (suc (suc (4 * k)))) = omega arith in
    ap (λ (t : ℕ). 2 ^ t) next
    ∙ omega (
      arith,
      pow-suc 2 (suc (suc (suc (4 * k)))),
      pow-suc 2 (suc (suc (4 * k))),
      pow-suc 2 (suc (4 * k)),
      pow-suc 2 (4 * k),
      pow-suc 16 k,
      power_of_16 k,
    )

length-hex_digits : (left num : ℕ) → length (hex_digits upper_digit left num) ≡ left
unfolding hex_digits
length-hex_digits zero num = refl
length-hex_digits (suc left) num = ap suc (length-hex_digits left num)

-- Each place has the value of its digit.
get_or-hex_digits :
    (left num i : ℕ)
    → i < left
    → hex_value (get_or (hex_digits upper_digit left num) i 0)
      ≡ some (num / 16 ^ (left - 1 - i) % 16)
unfolding hex_digits
get_or-hex_digits zero num i lt = absurd (omega arith)
get_or-hex_digits (suc left) num zero lt =
    upper-Alphabet.read (num / 16 ^ left % 16) (omega arith)
    ∙ ap (λ (k : ℕ). some (num / 16 ^ k % 16)) (omega arith)
get_or-hex_digits (suc left) num (suc i) lt =
    get_or-hex_digits left num i (omega arith)
    ∙ ap (λ (k : ℕ). some (num / 16 ^ k % 16)) (omega arith)

module _ {S : Type 0} {output : ℕ → S → Outcome S} (O : Sends output) where
  print_loop-digits :
      (left num : ℕ) (s : S)
      → (s' : S) × (print_loop output left num s ≡ ok s')
        × (O.sent s' ≡ O.sent s ++ hex_digits upper_digit left num)
  unfolding print_loop hex_digits
  print_loop-digits zero num s = (s, refl, sym (append-nil (O.sent s)))
  print_loop-digits (suc left) num s =
      let digit : bit_and (num >> (4 * left)) 0xf ≡ num / 16 ^ left % 16 =
        and_mask 4 (num >> (4 * left)) ∙ ap (λ (t : ℕ). num / t % 16) (power_of_16 left) in
      let (s1, run, sent, typed) = O.sends (get_or hex_str (bit_and (num >> (4 * left)) 0xf) 0) s in
      let (s2, rest, more) = print_loop-digits left num s1 in
      (
        s2,
        ok->>= _ run ∙ rest,
        more
            ∙ ap (λ xs. xs ++ hex_digits upper_digit left num) sent
            ∙ append_assoc (O.sent s) _ _
            ∙ ap (λ (t : ℕ). O.sent s ++ upper_digit t ∷ hex_digits upper_digit left num) digit,
      )

  -- `print_uint32` sends 8 characters, the digits of the number in base 16 from the highest to the lowest. `atoi` reads the number back from them just where its value as a
  -- signed number fits 28 bits.
  pub print_uint32-atoi :
      (num : ℕ) (s : S)
      → num < 2 ^ 32
      → (text : List ℕ) × (s' : S) × (print_uint32 output num base_hex s ≡ ok s')
        × (O.sent s' ≡ O.sent s ++ text)
        × (length text ≡ 8)
        × ((i : ℕ) → i < 8 → hex_value (get_or text i 0) ≡ some (num / 16 ^ (7 - i) % 16))
        × ((atoi text 16 ≡ num) ↔ ((num < 2 ^ 27) ⊎ (2 ^ 32 - 2 ^ 27 ≤ num)))
  unfolding print_bits
  print_uint32-atoi num s small =
      let (s', run, sent) = print_loop-digits 8 num s in
      (
        hex_digits upper_digit 8 num,
        s',
        run,
        sent,
        length-hex_digits 8 num,
        λ i lt. get_or-hex_digits 8 num i lt,
        atoi-digits upper-Alphabet num small,
      )
