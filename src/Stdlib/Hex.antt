-- ===== src/Stdlib/Hex.antt =====
-- `atoi` of kernel/src/stdlib.c on the digits of a number.
use native.Mathlib.Nat.{div-div-eq-div-mul, pow-suc, div-one}
use cardinal.Base.{
  ℕ, zero, suc, ◌+◌, ◌-◌, ◌*◌, ◌/◌, ◌%◌, ◌^◌, ◌≤◌, ◌<◌, ◌≡◌, ◌⊎◌, ◌↔◌, refl, ◌∙◌, ap, leb,
  if◌then◌else◌, some, List, [], ◌∷◌, u32, bit_or, ◌<<◌, arith,
}
use cardinal.Base.Bits.{or_field}
use cardinal.Stdlib.{hex_value, shift_back, atoi_loop, atoi, is_negative}

-- Characters for the 16 digits.
pub record Alphabet (digit : ℕ → ℕ) : Type 0 where
  pub read : (d : ℕ) → d < 16 → hex_value (digit d) ≡ some d

-- The last `left` digits of a number, the highest first.
unfoldable pub hex_digits : (ℕ → ℕ) → ℕ → ℕ → List ℕ
hex_digits digit zero n = []
hex_digits digit (suc left) n = digit (n / 16 ^ left % 16) ∷ hex_digits digit left n

-- The next digit goes behind those that were read.
next_digit :
    (v n left : ℕ)
    → v ≡ u32 (n / 16 ^ suc left * 16)
    → u32 (bit_or v (n / 16 ^ left % 16) << 4) ≡ u32 (n / 16 ^ left * 16)
next_digit v n left e =
    let down : n / 16 ^ suc left ≡ n / 16 ^ left / 16 =
      rw (pow-suc 16 left, ← div-div-eq-div-mul n (16 ^ left) 16) refl in
    let q = n / 16 ^ left in
    let field = or_field 4 (q / 16 % 2 ^ 28) (q % 16) (omega arith) in
    let v_eq : v ≡ q / 16 % 2 ^ 28 * 2 ^ 4 = omega (arith, e, down) in
    ap (λ (t : ℕ). u32 (bit_or t (q % 16) << 4)) v_eq
    ∙ ap (λ (t : ℕ). u32 (t << 4)) field
    ∙ omega arith

module _ {digit : ℕ → ℕ} (A : Alphabet digit) where
  atoi_loop-digits :
      (left n v : ℕ)
      → v ≡ u32 (n / 16 ^ left * 16)
      → atoi_loop (hex_digits digit left n) v ≡ shift_back (u32 (n * 16))
  unfolding atoi_loop hex_digits
  atoi_loop-digits zero n v e = ap shift_back (e ∙ ap (λ (t : ℕ). u32 (t * 16)) (div-one n))
  atoi_loop-digits (suc left) n v e =
      let d = A.read (n / 16 ^ left % 16) (omega arith) in
      rw (hex_digits, atoi_loop, d) (atoi_loop-digits left n _ (next_digit v n left e))

  -- `atoi` reads back the 8 digits of a 32-bit pattern just where its value as a signed number fits 28 bits:
  -- the last of its shifts to the left drops the highest digit.
  pub atoi-digits :
      (n : ℕ)
      → n < 2 ^ 32
      → (atoi (hex_digits digit 8 n) 16 ≡ n) ↔ ((n < 2 ^ 27) ⊎ (2 ^ 32 - 2 ^ 27 ≤ n))
  unfolding atoi shift_back is_negative
  atoi-digits n small =
      let start : 0 ≡ u32 (n / 16 ^ 8 * 16) = omega arith in
      let e = atoi_loop-digits 8 n 0 start in
      let value : shift_back (u32 (n * 16))
          ≡ (if leb (2 ^ 27) (n % 2 ^ 28) then n % 2 ^ 28 + 0xf0000000 else n % 2 ^ 28) =
        ground arith in
      (λ same. ground (arith, e, value), λ fits. e ∙ value ∙ ground arith)
