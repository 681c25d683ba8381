-- ===== src/Base/Bits.antt =====
-- `&`, `|` and `^` at variables. The native operations mean a recursion on binary digits; here
-- are its equation for the lowest digit and what follows for masks, fields and single bits.
mod Digit
pub use Digit.{bit_and_step, bit_or_step, bit_xor_step, zero_and}
use Prim.Native.Nat.{ℕ, zero, suc, ◌+◌, ◌-◌, ◌*◌, ◌/◌, ◌%◌, ◌^◌, ◌≤◌, ◌<◌, min, max}
use Prim.Native.Nat.{bit_and, bit_or, bit_xor, differ}
use mathlib.Core.Path.{◌≡◌, refl, ap, ◌∙◌}
use native.Mathlib.Nat.{pow-suc, pow-succ', one-le-pow, div-div-eq-div-mul, div-one, mul-one}
use native.Mathlib.Omega.{arith}

-- Induction on a bound: all facts below go from `a / 2` to `a`.
and_zero_below : (n a : ℕ) → a ≤ n → bit_and a 0 ≡ 0
and_zero_below n zero h = refl
and_zero_below zero (suc a) h = absurd (omega arith)
and_zero_below (suc n) (suc a) h =
    omega (arith, bit_and_step (suc a) 0, and_zero_below n (suc a / 2) (omega arith))

pub and_zero : (a : ℕ) → bit_and a 0 ≡ 0
and_zero a = and_zero_below a a (omega arith)

or_zero_below : (n a : ℕ) → a ≤ n → bit_or a 0 ≡ a
or_zero_below n zero h = refl
or_zero_below zero (suc a) h = absurd (omega arith)
or_zero_below (suc n) (suc a) h =
    omega (arith, bit_or_step (suc a) 0, or_zero_below n (suc a / 2) (omega arith))

pub or_zero : (a : ℕ) → bit_or a 0 ≡ a
or_zero a = or_zero_below a a (omega arith)

times_pow_suc : (q k : ℕ) → q * 2 ^ suc k ≡ 2 * (q * 2 ^ k)
times_pow_suc q k = omega (arith, ap (λ (t : ℕ). q * t) (pow-suc 2 k))

-- Bit i of a word, as a number.
abbrev pub bit : ℕ → ℕ → ℕ
bit i a = a / 2 ^ i % 2

-- `x << k | y` is a sum where `y` fits `k` bits.
pub or_field : (k q r : ℕ) → r < 2 ^ k → bit_or (q * 2 ^ k) r ≡ q * 2 ^ k + r
or_field zero q r h = ground (arith, or_zero q)
or_field (suc k) q r h =
    ground
      (arith, bit_or_step (q * 2 ^ suc k) r, times_pow_suc q k, or_field k q (r / 2) (omega arith))

and_low : (k q r : ℕ) → r < 2 ^ k → bit_and (q * 2 ^ k + r) (2 ^ k - 1) ≡ r
and_low zero q r h = ground (arith, and_zero (q * 1 + r))
and_low (suc k) q r h = ground (
  arith,
  bit_and_step (q * 2 ^ suc k + r) (2 ^ suc k - 1),
  times_pow_suc q k,
  pow-suc 2 k,
  one-le-pow k 2,
  and_low k q (r / 2) (omega arith),
)

-- A mask of `k` ones keeps the remainder by `2 ^ k`.
pub and_mask : (k a : ℕ) → bit_and a (2 ^ k - 1) ≡ a % 2 ^ k
and_mask k a = ground (arith, one-le-pow k 2, and_low k (a / 2 ^ k) (a % 2 ^ k))

halve_shift : (k a : ℕ) → a / 2 ^ suc k ≡ a / 2 / 2 ^ k
halve_shift k a = rw (pow-succ' 2 k, ← div-div-eq-div-mul a 2 (2 ^ k))

-- A mask of whole places `k` and up reads only the places from `k` up.
pub and_shift : (k a m : ℕ) → bit_and a (m * 2 ^ k) ≡ bit_and (a / 2 ^ k) m * 2 ^ k
and_shift zero a m = ground (arith, ap (λ (t : ℕ). bit_and a t) (mul-one m), div-one a)
and_shift (suc k) a m = ground (
  arith,
  bit_and_step a (m * 2 ^ suc k),
  times_pow_suc m k,
  times_pow_suc (bit_and (a / 2 / 2 ^ k) m) k,
  halve_shift k a,
  and_shift k (a / 2) m,
)

-- `x & (((1 << j) - 1) << k)` is the field of `j` bits from place `k`, in its place.
pub and_field : (j k a : ℕ) → bit_and a ((2 ^ j - 1) * 2 ^ k) ≡ a / 2 ^ k % 2 ^ j * 2 ^ k
and_field j k a = and_shift k a (2 ^ j - 1) ∙ ap (λ (t : ℕ). t * 2 ^ k) (and_mask j (a / 2 ^ k))

-- Each operation acts on every bit alone.
pub bit-and : (i a b : ℕ) → bit i (bit_and a b) ≡ min (bit i a) (bit i b)
bit-and zero a b = omega (arith, bit_and_step a b)
bit-and (suc i) a b = ground (
  arith,
  bit-and i (a / 2) (b / 2),
  halve_shift i (bit_and a b),
  halve_shift i a,
  halve_shift i b,
  bit_and_step a b,
)

pub bit-or : (i a b : ℕ) → bit i (bit_or a b) ≡ max (bit i a) (bit i b)
bit-or zero a b = omega (arith, bit_or_step a b)
bit-or (suc i) a b = ground (
  arith,
  bit-or i (a / 2) (b / 2),
  halve_shift i (bit_or a b),
  halve_shift i a,
  halve_shift i b,
  bit_or_step a b,
)

or_comm_below : (n a b : ℕ) → a ≤ n → b ≤ n → bit_or a b ≡ bit_or b a
or_comm_below zero a b ha hb =
    let ea : a ≡ 0 = omega arith in let eb : b ≡ 0 = omega arith in rw (ea, eb) refl
or_comm_below (suc n) a b ha hb = omega (
  arith,
  bit_or_step a b,
  bit_or_step b a,
  or_comm_below n (a / 2) (b / 2) (omega arith) (omega arith),
)

pub or_comm : (a b : ℕ) → bit_or a b ≡ bit_or b a
or_comm a b = or_comm_below (a + b) a b (omega arith) (omega arith)

-- `|` stays within the width of its operands, and `&` below both.
pub or-lt : (k a b : ℕ) → a < 2 ^ k → b < 2 ^ k → bit_or a b < 2 ^ k
or-lt zero a b ha hb =
    let ea : a ≡ 0 = omega arith in let eb : b ≡ 0 = omega arith in rw (ea, eb) (omega arith)
or-lt (suc k) a b ha hb = omega (
  arith,
  bit_or_step a b,
  pow-suc 2 k,
  or-lt k (a / 2) (b / 2) (omega (arith, pow-suc 2 k)) (omega (arith, pow-suc 2 k)),
)

and_le_below : (n a b : ℕ) → b ≤ n → bit_and a b ≤ b
and_le_below n a zero h = omega (arith, and_zero a)
and_le_below zero a (suc b) h = absurd (omega arith)
and_le_below (suc n) a (suc b) h =
    omega (arith, bit_and_step a (suc b), and_le_below n (a / 2) (suc b / 2) (omega arith))

pub and-le : (a b : ℕ) → bit_and a b ≤ b
and-le a b = and_le_below b a b (omega arith)

-- One digit of the swap by three exclusive ors.
differ_facts :
    (p q : ℕ)
    → p < 2
    → q < 2
    → (differ q (differ p q) ≡ p) × (differ (differ p q) p ≡ q) × (differ p q < 2)
differ_facts zero zero hp hq = (refl, refl, omega arith)
differ_facts zero (suc zero) hp hq = (refl, refl, omega arith)
differ_facts zero (suc (suc q)) hp hq = absurd (omega arith)
differ_facts (suc zero) zero hp hq = (refl, refl, omega arith)
differ_facts (suc zero) (suc zero) hp hq = (refl, refl, omega arith)
differ_facts (suc zero) (suc (suc q)) hp hq = absurd (omega arith)
differ_facts (suc (suc p)) q hp hq = absurd (omega arith)

xor_cancel_below :
    (n a b : ℕ) → a ≤ n → b ≤ n → (bit_xor b (bit_xor a b) ≡ a) × (bit_xor (bit_xor a b) a ≡ b)
xor_cancel_below zero a b ha hb =
    let ea : a ≡ 0 = omega arith in let eb : b ≡ 0 = omega arith in rw (ea, eb) (refl, refl)
xor_cancel_below (suc n) a b ha hb = ground (
  arith,
  bit_xor_step a b,
  bit_xor_step b (bit_xor a b),
  bit_xor_step (bit_xor a b) a,
  differ_facts (a % 2) (b % 2) (omega arith) (omega arith),
  xor_cancel_below n (a / 2) (b / 2) (omega arith) (omega arith),
)

-- `x ^= y; y ^= x; x ^= y` exchanges x and y.
pub xor_swap : (a b : ℕ) → (bit_xor b (bit_xor a b) ≡ a) × (bit_xor (bit_xor a b) a ≡ b)
xor_swap a b = xor_cancel_below (a + b) a b (omega arith) (omega arith)

half_or : (a b : ℕ) → bit_or a b / 2 ≡ bit_or (a / 2) (b / 2)
half_or a b = omega (arith, bit_or_step a b)

half_and : (a b : ℕ) → bit_and a b / 2 ≡ bit_and (a / 2) (b / 2)
half_and a b = omega (arith, bit_and_step a b)

-- A mask distributes over `|`.
and_or_below :
    (n a b m : ℕ) → a ≤ n → b ≤ n → bit_and (bit_or a b) m ≡ bit_or (bit_and a m) (bit_and b m)
and_or_below zero a b m ha hb =
    let ea : a ≡ 0 = omega arith in let eb : b ≡ 0 = omega arith in rw (ea, eb, zero_and m) refl
and_or_below (suc n) a b m ha hb = omega (
  arith,
  bit_and_step (bit_or a b) m,
  bit_or_step a b,
  bit_and_step a m,
  bit_and_step b m,
  bit_or_step (bit_and a m) (bit_and b m),
  ap (λ (t : ℕ). bit_and t (m / 2)) (half_or a b),
  and_or_below n (a / 2) (b / 2) (m / 2) (omega arith) (omega arith),
  ap (λ (t : ℕ). bit_or t (bit_and b m / 2)) (half_and a m),
  ap (λ (t : ℕ). bit_or (bit_and (a / 2) (m / 2)) t) (half_and b m),
)

pub and_or : (a b m : ℕ) → bit_and (bit_or a b) m ≡ bit_or (bit_and a m) (bit_and b m)
and_or a b m = and_or_below (a + b) a b m (omega arith) (omega arith)
