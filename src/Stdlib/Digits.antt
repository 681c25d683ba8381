-- ===== src/Stdlib/Digits.antt =====
-- The digits of a number in a base, as the loop of `itoa` and `ltoa` in kernel/src/stdlib.c finds them.
use cardinal.Base.{
  All, ℕ, zero, suc, ◌+◌, ◌-◌, ◌*◌, ◌/◌, ◌%◌, ◌^◌, ◌≤◌, ◌<◌, ◌≡◌, ◌≢◌, refl, ◌∙◌, sym, ap, ◌==◌,
  ltb, if◌then◌else◌, List, [], ◌∷◌, get_or, length, ok, ok->>=, arith, Bool-cases, inl, inr,
}
use native.Mathlib.Nat.{pow-suc, mul-le-mul_right, mul_comm, div-lt_iff_lt-mul, mod-lt, mod-add-div}
use cardinal.Stdlib.{digit_char, digits_loop}

-- The value of a digit's character.
abbrev pub char_value : ℕ → ℕ
char_value c = if ltb c 97 then c - 48 else c - 87

-- The number of a list of digits, the lowest first.
abbrev pub value : ℕ → List ℕ → ℕ
value base [] = 0
value base (c ∷ cs) = char_value c + base * value base cs

-- The characters of the digits of a base.
abbrev pub IsDigit : ℕ → ℕ → Type 0
IsDigit base c = (v : ℕ) × (v < base) × (c ≡ (if ltb v 10 then 48 + v else 87 + v))

-- The last character, which is the highest digit.
abbrev pub highest : List ℕ → ℕ
highest [] = 0
highest (c ∷ []) = c
highest (c ∷ (c' ∷ cs)) = highest (c' ∷ cs)

pub highest-get_or : (cs : List ℕ) → get_or cs (length cs - 1) 0 ≡ highest cs
highest-get_or [] = refl
highest-get_or (c ∷ []) = refl
highest-get_or (c ∷ (c' ∷ cs)) =
    let next : length (c ∷ (c' ∷ cs)) - 1 ≡ suc (length (c' ∷ cs) - 1) = omega arith in
    ap (λ (k : ℕ). get_or (c ∷ (c' ∷ cs)) k 0) next ∙ highest-get_or (c' ∷ cs)

digit_char-IsDigit : (v base : ℕ) → v < base → base ≤ 36 → IsDigit base (digit_char v)
unfolding digit_char
digit_char-IsDigit v base lt hi = (v, lt, ground arith)

digit_char-zero : (v : ℕ) → v < 36 → v ≢ 0 → digit_char v ≢ 48
unfolding digit_char
digit_char-zero v lt ne e = ground arith

-- The highest digit of what is left, or the lowest one if nothing is left.
highest-step :
    (n base : ℕ) (cs : List ℕ)
    → n ≢ 0
    → 2 ≤ base
    → base ≤ 36
    → value base cs ≡ n / base
    → highest cs ≢ 48
    → highest (digit_char (n % base) ∷ cs) ≢ 48
highest-step n base [] ne lo hi eq top =
    let base_positive : 0 < base = omega arith in
    let whole : n % base + base * (n / base) ≡ n = mod-add-div n base in
    let none_left : base * (n / base) ≡ 0 = ap (λ (t : ℕ). base * t) (sym eq) ∙ omega arith in
    digit_char-zero (n % base) (omega (arith, mod-lt n base_positive))
      (λ e. ne (omega (arith, whole, none_left, e)))
highest-step n base (c ∷ cs) ne lo hi eq top = top

digit_char-value : (v : ℕ) → v < 36 → char_value (digit_char v) ≡ v
unfolding digit_char
digit_char-value v lt = ground arith

quotient : (fuel n base : ℕ) → 2 ≤ base → n < 2 ^ suc fuel → n / base < 2 ^ fuel
quotient fuel n base lo small =
    (div-lt_iff_lt-mul {k = base} {x = n} {y = 2 ^ fuel} (omega arith)).1
      (omega (arith, pow-suc 2 fuel, mul-le-mul_right (2 ^ fuel) lo, mul_comm (2 ^ fuel) base))

-- In a base from 2 to 36 the loop ends within as many rounds as the number has bits, and its digits are the number.
pub digits_loop-value :
    (fuel n base : ℕ)
    → 2 ≤ base
    → base ≤ 36
    → n < 2 ^ fuel
    → (cs : List ℕ) × (digits_loop fuel n base ≡ ok cs)
      × (value base cs ≡ n)
      × (length cs ≤ fuel)
      × All (IsDigit base) cs
      × (highest cs ≢ 48)
unfolding digits_loop
digits_loop-value zero n base lo hi small =
    ([], ground arith, omega arith, omega arith, tt, omega arith)
digits_loop-value (suc fuel) n base lo hi small = elim (Bool-cases (n == 0)) [
  | inl none_left ↦
      ([], rw (digits_loop, none_left) refl, ground arith, omega arith, tt, omega arith)
  | inr more ↦
      let (cs, run, eq, short, digits, top) =
        digits_loop-value fuel (n / base) base lo hi (quotient fuel n base lo small) in
      let base_positive : 0 < base = omega arith in
      (
        digit_char (n % base) ∷ cs,
        rw (digits_loop, more) (ok->>= _ run),
        ap (λ (t : ℕ). t + base * value base cs)
              (digit_char-value (n % base) (omega (arith, mod-lt n base_positive)))
            ∙ ap (λ (t : ℕ). n % base + base * t) eq
            ∙ mod-add-div n base,
        omega arith,
        (digit_char-IsDigit (n % base) base (mod-lt n base_positive) hi, digits),
        highest-step n base cs (ground arith) lo hi eq top,
      )
]

pub not_empty : (base : ℕ) (cs : List ℕ) → 0 < value base cs → 0 < length cs
not_empty base [] lt = absurd (omega arith)
not_empty base (c ∷ cs) lt = omega arith
