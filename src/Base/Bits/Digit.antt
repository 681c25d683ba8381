-- ===== src/Base/Bits/Digit.antt =====
-- The equation of each bit operation for the lowest digit, with no fuel.
use Prim.Native.Nat.{ℕ, zero, suc, ◌+◌, ◌*◌, ◌/◌, ◌%◌, ◌≤◌, min, max}
use Prim.Native.Nat.{bit_and, bit_or, bit_xor, digits, bitwise, differ}
use Prim.Native.Nat.{bit_and-bitwise, bit_or-bitwise, bit_xor-bitwise}
use mathlib.Core.Path.{◌≡◌, refl, sym, ◌∙◌}
use native.Mathlib.Omega.{arith}

module _ (rest : ℕ → ℕ) (op : ℕ → ℕ → ℕ) where
  no_digits : (n b : ℕ) → digits rest op n 0 b ≡ rest b
  no_digits zero b = refl
  no_digits (suc n) b = refl

  -- Any fuel that bounds the first number gives the same digits.
  same_digits : (b n a m : ℕ) → (a ≤ m) × (a ≤ n) → digits rest op m a b ≡ digits rest op n a b
  same_digits b n zero m h = no_digits m b ∙ sym (no_digits n b)
  same_digits b zero (suc a) m h = absurd (omega (arith, h.1))
  same_digits b (suc n) (suc a) zero h = absurd (omega (arith, h.0))
  same_digits b (suc n) (suc a) (suc m) h =
      let enough = same_digits (b / 2) n (suc a / 2) m (omega (arith, h.0), omega (arith, h.1)) in
      omega (arith, enough)

  bitwise_unfolds :
      (b a : ℕ)
      → bitwise rest op (suc a) b ≡ bitwise rest op (suc a / 2) (b / 2) * 2 + op (suc a % 2) (b % 2)
  bitwise_unfolds b a =
      let half = same_digits (b / 2) (suc a / 2) (suc a / 2) a (omega arith, omega arith) in
      omega (arith, half)

pub bit_xor_step : (a b : ℕ) → bit_xor a b ≡ bit_xor (a / 2) (b / 2) * 2 + differ (a % 2) (b % 2)
bit_xor_step (suc a) b = simp bit_xor-bitwise (bitwise_unfolds (λ y. y) differ b a)
bit_xor_step zero b = simp bit_xor-bitwise (omega arith)

pub bit_and_step : (a b : ℕ) → bit_and a b ≡ bit_and (a / 2) (b / 2) * 2 + min (a % 2) (b % 2)
bit_and_step (suc a) b = simp bit_and-bitwise (bitwise_unfolds (λ y. 0) min b a)
bit_and_step zero b = simp bit_and-bitwise (omega arith)

pub bit_or_step : (a b : ℕ) → bit_or a b ≡ bit_or (a / 2) (b / 2) * 2 + max (a % 2) (b % 2)
bit_or_step (suc a) b = simp bit_or-bitwise (bitwise_unfolds (λ y. y) max b a)
bit_or_step zero b = simp bit_or-bitwise (omega arith)

pub zero_and : (b : ℕ) → bit_and 0 b ≡ 0
zero_and b = simp bit_and-bitwise refl
