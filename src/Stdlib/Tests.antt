-- ===== src/Stdlib/Tests.antt =====
-- Numbers as text at concrete values.
use cardinal.Base.{
  All, get_or, ◌≢◌, ℕ, ◌-◌, ◌^◌, ◌≡◌, refl, true, false, some, List, [], ◌∷◌, ok, arith,
}
use cardinal.Stdlib.{to_text, is_negative, digits_loop, digit_char, swap_loop, itoa}
use cardinal.Stdlib.Digits.{IsDigit, value}
use cardinal.Stdlib.Number.{Turned, to_text-value}

not_signed : is_negative 32 0xbeef ≡ false
unfolding is_negative
not_signed = refl

minus_five : is_negative 32 (2 ^ 32 - 5) ≡ true
unfolding is_negative
minus_five = refl

to_text-value_example :
    (text : List ℕ) × (digits : List ℕ) × (to_text 32 0xbeef 16 ≡ ok (some text))
    × (value 16 digits ≡ 0xbeef)
    × Turned text digits
    × All (IsDigit 16) digits
    × (get_or text 0 0 ≢ 48)
to_text-value_example =
    to_text-value 32 0xbeef 16 (omega arith) (omega arith) (omega arith) (omega arith)
      (rw not_signed refl)

beef : itoa 0xbeef 16 ≡ ok (some (98 ∷ 101 ∷ 101 ∷ 102 ∷ []))
unfolding to_text is_negative digits_loop digit_char swap_loop
beef = refl

minus_42 : itoa (2 ^ 32 - 42) 10 ≡ ok (some (45 ∷ 52 ∷ 50 ∷ []))
unfolding to_text is_negative digits_loop digit_char swap_loop
minus_42 = refl
