-- ===== src/Ioapic/Entry.antt =====
-- The bits of the redirection entries that kernel/src/interrupts/ioapic.c writes.
use cardinal.Base.{
  ℕ, ◌+◌, ◌*◌, ◌/◌, ◌%◌, ◌^◌, ◌≤◌, ◌<◌, ◌≡◌, refl, ◌∙◌, ap, Bool, true, false, if◌then◌else◌, min,
  max, bit_and, bit_or, u32, not32, ◌<<◌, arith,
}
use cardinal.Base.Bits.{bit, bit-and, bit-or, and_mask, or_comm, or_field}
use cardinal.Ioapic.{flag_at, map_low, map_high}

-- A bit after the bits of `clear` are cleared and those of `put` are set.
put-bit :
    (i word clear put : ℕ)
    → bit i (bit_or (bit_and word clear) put) ≡ max (min (bit i word) (bit i clear)) (bit i put)
put-bit i word clear put =
    bit-or i (bit_and word clear) put ∙ ap (λ (b : ℕ). max b (bit i put)) (bit-and i word clear)

module _ (irq : ℕ) (active_low level_trigger : Bool) (low : ℕ) where
  low_bit :
      (i : ℕ)
      → bit i (map_low irq active_low level_trigger low)
        ≡ min
            (max
              (min
                (max
                  (min
                    (max
                      (min
                        (max
                          (min
                            (max
                              (min (bit i low) (bit i (not32 (1 << 13))))
                              (bit i (flag_at active_low 13)))
                            (bit i (not32 (1 << 15))))
                          (bit i (flag_at level_trigger 15)))
                        (bit i (not32 0xff)))
                      (min (bit i irq) (bit i 0xff)))
                    (bit i (not32 (1 << 11))))
                  (bit i (0 << 11)))
                (bit i (not32 0x700)))
              (bit i (0 << 8)))
            (bit i (not32 (1 << 16)))
  unfolding map_low
  low_bit i =
      let l1 = bit_or (bit_and low (not32 (1 << 13))) (flag_at active_low 13) in
      let l2 = bit_or (bit_and l1 (not32 (1 << 15))) (flag_at level_trigger 15) in
      let l3 = bit_or (bit_and l2 (not32 0xff)) (bit_and irq 0xff) in
      let l4 = bit_or (bit_and l3 (not32 (1 << 11))) (0 << 11) in
      let l5 = bit_or (bit_and l4 (not32 0x700)) (0 << 8) in
      rw
        (
          map_low,
          bit-and i l5 (not32 (1 << 16)),
          put-bit i l4 (not32 0x700) (0 << 8),
          put-bit i l3 (not32 (1 << 11)) (0 << 11),
          put-bit i l2 (not32 0xff) (bit_and irq 0xff),
          put-bit i l1 (not32 (1 << 15)) (flag_at level_trigger 15),
          put-bit i low (not32 (1 << 13)) (flag_at active_low 13),
          bit-and i irq 0xff,
        )
        refl

  flags_off :
      (i : ℕ)
      → bit i (1 << 13) ≡ 0
      → bit i (1 << 15) ≡ 0
      → bit i 0 ≡ 0
      → (bit i (flag_at active_low 13) ≡ 0) × (bit i (flag_at level_trigger 15) ≡ 0)
  flags_off i a b z = (off (1 << 13) active_low a, off (1 << 15) level_trigger b)
    where
      off : (x : ℕ) (f : Bool) → bit i x ≡ 0 → bit i (if f then x else 0) ≡ 0
      off x true e = e
      off x false e = z

  -- What the fields of the entry are.
  abbrev word : ℕ
  word = map_low irq active_low level_trigger low

  pub record Routed (w : ℕ) : Type 0 where
    pub vector : w % 2 ^ 8 ≡ irq % 2 ^ 8
    pub delivery : w / 2 ^ 8 % 2 ^ 4 ≡ 0
    pub polarity : bit 13 w ≡ (if active_low then 1 else 0)
    pub trigger : bit 15 w ≡ (if level_trigger then 1 else 0)
    pub unmasked : bit 16 w ≡ 0
    pub status : (bit 12 w ≡ bit 12 low) × (bit 14 w ≡ bit 14 low)

  vector_bits :
      (bit 0 word ≡ bit 0 irq)
      × (bit 1 word ≡ bit 1 irq)
      × (bit 2 word ≡ bit 2 irq)
      × (bit 3 word ≡ bit 3 irq)
      × (bit 4 word ≡ bit 4 irq)
      × (bit 5 word ≡ bit 5 irq)
      × (bit 6 word ≡ bit 6 irq)
      × (bit 7 word ≡ bit 7 irq)
  vector_bits = (
    omega (arith, low_bit 0, flags_off 0 refl refl refl),
    omega (arith, low_bit 1, flags_off 1 refl refl refl),
    omega (arith, low_bit 2, flags_off 2 refl refl refl),
    omega (arith, low_bit 3, flags_off 3 refl refl refl),
    omega (arith, low_bit 4, flags_off 4 refl refl refl),
    omega (arith, low_bit 5, flags_off 5 refl refl refl),
    omega (arith, low_bit 6, flags_off 6 refl refl refl),
    omega (arith, low_bit 7, flags_off 7 refl refl refl),
  )

  low_byte :
      (a b : ℕ)
      → (bit 0 a ≡ bit 0 b)
        × (bit 1 a ≡ bit 1 b)
        × (bit 2 a ≡ bit 2 b)
        × (bit 3 a ≡ bit 3 b)
        × (bit 4 a ≡ bit 4 b)
        × (bit 5 a ≡ bit 5 b)
        × (bit 6 a ≡ bit 6 b)
        × (bit 7 a ≡ bit 7 b)
      → a % 2 ^ 8 ≡ b % 2 ^ 8
  low_byte a b e = omega (arith, e)

  delivery_bits : (bit 8 word ≡ 0) × (bit 9 word ≡ 0) × (bit 10 word ≡ 0) × (bit 11 word ≡ 0)
  delivery_bits = (
    omega (arith, low_bit 8, flags_off 8 refl refl refl),
    omega (arith, low_bit 9, flags_off 9 refl refl refl),
    omega (arith, low_bit 10, flags_off 10 refl refl refl),
    omega (arith, low_bit 11, flags_off 11 refl refl refl),
  )

  flag_bits :
      (bit 13 (flag_at active_low 13) ≡ (if active_low then 1 else 0))
      × (bit 13 (flag_at level_trigger 15) ≡ 0)
      × (bit 15 (flag_at active_low 13) ≡ 0)
      × (bit 15 (flag_at level_trigger 15) ≡ (if level_trigger then 1 else 0))
  flag_bits = both active_low level_trigger
    where
      both :
          (a l : Bool)
          → (bit 13 (flag_at a 13) ≡ (if a then 1 else 0))
            × (bit 13 (flag_at l 15) ≡ 0)
            × (bit 15 (flag_at a 13) ≡ 0)
            × (bit 15 (flag_at l 15) ≡ (if l then 1 else 0))
      both true true = (refl, refl, refl, refl)
      both true false = (refl, refl, refl, refl)
      both false true = (refl, refl, refl, refl)
      both false false = (refl, refl, refl, refl)

  if_bit : (b : Bool) → (if b then 1 else 0) ≤ 1
  if_bit true = omega arith
  if_bit false = omega arith

  pub map_low-Routed : Routed word
  map_low-Routed = record {
    vector = low_byte word irq vector_bits;
    delivery = omega (arith, delivery_bits);
    polarity = omega (arith, low_bit 13, flag_bits, if_bit active_low);
    trigger = omega (arith, low_bit 15, flag_bits, if_bit level_trigger);
    unmasked = omega (arith, low_bit 16);
    status = (
      omega (arith, low_bit 12, flags_off 12 refl refl refl),
      omega (arith, low_bit 14, flags_off 14 refl refl refl),
    );
  }

-- The destination of the entry.
pub map_high-value :
    (cpu high : ℕ) → high < 2 ^ 32 → map_high cpu high ≡ cpu % 2 ^ 8 * 2 ^ 24 + high % 2 ^ 24
unfolding map_high
map_high-value cpu high lt =
    let kept : bit_and high (not32 0xff000000) ≡ high % 2 ^ 24 = and_mask 24 high in
    let dest : u32 (cpu << 24) ≡ cpu % 2 ^ 8 * 2 ^ 24 = omega arith in
    rw (kept, dest)
      (or_comm (high % 2 ^ 24) (cpu % 2 ^ 8 * 2 ^ 24)
        ∙ or_field 24 (cpu % 2 ^ 8) (high % 2 ^ 24) (omega arith))
