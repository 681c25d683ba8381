-- ===== src/Stdlib/Number.antt =====
-- The text that `itoa` and `ltoa` of kernel/src/stdlib.c make of the digits, and their order.
use cardinal.Base.{
  All, ℕ, zero, suc, ◌+◌, ◌-◌, ◌^◌, ◌≤◌, ◌<◌, ◌≡◌, ◌≢◌, refl, ◌∙◌, sym, ap, ◌==◌, leb, ltb, true,
  false, ◌&&◌, if◌then◌else◌, some, List, [], ◌∷◌, ◌++◌, get_or, set, length, ok, ok->>=, arith,
  Bool-cases, inl, inr, get_or-set_self, get_or-set_ne, length-set, ltb→lt,
}
use cardinal.Stdlib.{digits_loop, swap_loop, is_negative, to_text}
use cardinal.Stdlib.Digits.{IsDigit, value, highest-get_or, digits_loop-value, not_empty}

-- What one exchange leaves at each place.
exchanged :
    (dst : List ℕ) (a b j : ℕ)
    → a < length dst
    → b < length dst
    → get_or (set (set dst a (get_or dst b 0)) b (get_or dst a 0)) j 0
      ≡ (if j == b then get_or dst a 0 else if j == a then get_or dst b 0 else get_or dst j 0)
exchanged dst a b j ha hb = elim (Bool-cases (j == b)) [
  | inl at_b ↦
      let e : b ≡ j = ground arith in
      rw at_b (
        ap (λ (k : ℕ). get_or (set (set dst a (get_or dst b 0)) b (get_or dst a 0)) k 0) (sym e)
        ∙ get_or-set_self (set dst a (get_or dst b 0)) b (get_or dst a 0) 0 (rw length-set hb))
  | inr off_b ↦
      let other : b ≢ j = ground arith in
      rw off_b (
        get_or-set_ne (set dst a (get_or dst b 0)) b j (get_or dst a 0) 0 other
        ∙ elim (Bool-cases (j == a)) [
          | inl at_a ↦
              let e : a ≡ j = ground arith in
              rw at_a (
                ap (λ (k : ℕ). get_or (set dst a (get_or dst b 0)) k 0) (sym e)
                ∙ get_or-set_self dst a (get_or dst b 0) 0 ha)
          | inr off_a ↦
              let other_a : a ≢ j = ground arith in
              rw off_a (get_or-set_ne dst a j (get_or dst b 0) 0 other_a)
        ])
]

abbrev exchange : ℕ → ℕ → List ℕ → List ℕ
exchange a b dst = set (set dst a (get_or dst b 0)) b (get_or dst a 0)

-- The loop turns the places from `start` to `len` round.
swap_loop-each :
    (rounds start len : ℕ) (dst : List ℕ) (i : ℕ)
    → len ≤ length dst
    → len ≤ start + rounds + rounds
    → get_or (swap_loop rounds start len dst) i 0
      ≡ get_or dst (if leb start i && ltb i len then start + len - 1 - i else i) 0
unfolding swap_loop
swap_loop-each zero start len dst i fits enough = ap (λ (k : ℕ). get_or dst k 0) (ground arith)
swap_loop-each (suc rounds) start len dst i fits enough = elim (Bool-cases (ltb start len)) [
  | inr finished ↦ rw (swap_loop, finished) (ap (λ (k : ℕ). get_or dst k 0) (ground arith))
  | inl open_range ↦
      let lt : start < len = ltb→lt _ _ open_range in
      let rest =
        swap_loop-each rounds (start + 1) (len - 1) (exchange start (len - 1) dst) i (room lt)
          (omega arith) in
      rw (swap_loop, open_range)
        (rest ∙ exchanged dst start (len - 1) _ (omega arith) (omega arith) ∙ place lt)
]
  where
    room : start < len → len - 1 ≤ length (exchange start (len - 1) dst)
    room lt = rw (length-set, length-set) (omega arith)

    -- Where the place `i` reads from.
    place :
        start < len
        → (let j =
              if leb (start + 1) i && ltb i (len - 1) then start + 1 + (len - 1) - 1 - i else i in
            if j == len - 1
            then get_or dst start 0
            else if j == start
            then get_or dst (len - 1) 0
            else get_or dst j 0)
          ≡ get_or dst (if leb start i && ltb i len then start + len - 1 - i else i) 0
    place lt = ground arith

length-swap_loop :
    (rounds start len : ℕ) (dst : List ℕ) → length (swap_loop rounds start len dst) ≡ length dst
unfolding swap_loop
length-swap_loop zero start len dst = refl
length-swap_loop (suc rounds) start len dst = elim (Bool-cases (ltb start len)) [
  | inr finished ↦ rw (swap_loop, finished) refl
  | inl open_range ↦
      rw (swap_loop, open_range)
        (length-swap_loop rounds (start + 1) (len - 1) (exchange start (len - 1) dst)
          ∙ rw (length-set, length-set) refl)
]

-- Two texts of the same length, one the other from its end.
pub record Turned (text digits : List ℕ) : Type 0 where
  pub same_length : length text ≡ length digits
  pub each : (i : ℕ) → i < length digits → get_or text i 0 ≡ get_or digits (length digits - 1 - i) 0

turned : (digits : List ℕ) → Turned (swap_loop (length digits) 0 (length digits) digits) digits
turned digits = record {
  same_length = length-swap_loop (length digits) 0 (length digits) digits;
  each = λ i lt.
      swap_loop-each (length digits) 0 (length digits) digits i (omega arith) (omega arith)
      ∙ ap (λ (k : ℕ). get_or digits k 0) (ground arith);
}

unsigned_text :
    (width val base : ℕ) (digits : List ℕ)
    → 0 < val
    → 0 < base
    → (is_negative width val && base == 10) ≡ false
    → digits_loop width val base ≡ ok digits
    → to_text width val base ≡ ok (some (swap_loop (length digits) 0 (length digits) digits))
unfolding to_text
unsigned_text width val base digits pos base_pos unsigned run =
    let e1 : (base == 0) ≡ false = ground arith in
    let e2 : (val == 0) ≡ false = ground arith in rw (to_text, e1, e2, unsigned) (ok->>= _ run)

signed_text :
    (width val : ℕ) (digits : List ℕ)
    → 0 < val
    → is_negative width val ≡ true
    → digits_loop width (2 ^ width - val) 10 ≡ ok digits
    → to_text width val 10
      ≡ ok (
          some (
            swap_loop
              (length (digits ++ 45 ∷ []))
              0
              (length (digits ++ 45 ∷ []))
              (digits ++ 45 ∷ [])))
unfolding to_text
signed_text width val digits pos negative run =
    let e2 : (val == 0) ≡ false = ground arith in rw (to_text, e2, negative) (ok->>= _ run)

-- For a base from 2 to 36 and a positive pattern that is not written as a negative number,
-- `itoa` and `ltoa` return a text: the digits of the number, 0 to 9 and a to z below the base, from the highest, which is not
-- 0, to the lowest.
pub to_text-value :
    (width val base : ℕ)
    → 2 ≤ base
    → base ≤ 36
    → 0 < val
    → val < 2 ^ width
    → (is_negative width val && base == 10) ≡ false
    → (text : List ℕ) × (digits : List ℕ) × (to_text width val base ≡ ok (some text))
      × (value base digits ≡ val)
      × Turned text digits
      × All (IsDigit base) digits
      × (get_or text 0 0 ≢ 48)
to_text-value width val base lo hi pos small unsigned =
    let (digits, run, eq, short, all, top) = digits_loop-value width val base lo hi small in
    let some_digit : 0 < length digits = not_empty base digits (omega (arith, eq)) in
    let last : length digits - 1 - 0 ≡ length digits - 1 = omega arith in
    let first = (turned digits).each 0 some_digit ∙ ap (λ (k : ℕ). get_or digits k 0) last in
    (
      swap_loop (length digits) 0 (length digits) digits,
      digits,
      unsigned_text width val base digits pos (omega arith) unsigned run,
      eq,
      turned digits,
      all,
      λ e. top (sym (highest-get_or digits) ∙ sym first ∙ e),
    )

-- In base 10 a pattern of a negative number gives a text: the sign and then the digits of the
-- magnitude from the highest to the lowest.
to_text-negative :
    (width val : ℕ)
    → 0 < val
    → val < 2 ^ width
    → is_negative width val ≡ true
    → (text : List ℕ) × (digits : List ℕ) × (to_text width val 10 ≡ ok (some text))
      × (value 10 digits ≡ 2 ^ width - val)
      × Turned text (digits ++ 45 ∷ [])
to_text-negative width val pos small negative =
    let (digits, run, eq, short, all, top) =
      digits_loop-value width (2 ^ width - val) 10 (omega arith) (omega arith) (omega arith) in
    (
      swap_loop (length (digits ++ 45 ∷ [])) 0 (length (digits ++ 45 ∷ [])) (digits ++ 45 ∷ []),
      digits,
      signed_text width val digits pos negative run,
      eq,
      turned (digits ++ 45 ∷ []),
    )
