-- ===== src/Base/Monad.antt =====
-- The result of code that may stop for good: PANIC enters the debug shell and never returns.
-- `stuck` is a loop that was given too few rounds; theorems show that it does not happen.
use mathlib.Core.Path.{◌≡◌, refl}

pub data Outcome {ℓ} (A : Type ℓ) : Type ℓ where
  ok : A → Outcome A
  panic : Outcome A
  stuck : Outcome A

infixl 5 ◌>>=◌
abbrev pub ◌>>=◌ {ℓ κ} : {A : Type ℓ} {B : Type κ} → Outcome A → (A → Outcome B) → Outcome B
ok a >>= f = f a
panic >>= f = panic
stuck >>= f = stuck

-- A chain of steps that succeed.
pub >>=-ok {ℓ κ} :
    {A : Type ℓ} {B : Type κ} (m : Outcome A) (f : A → Outcome B) {a : A} {b : B}
    → m ≡ ok a
    → f a ≡ ok b
    → (m >>= f) ≡ ok b
>>=-ok m f e g = rw e g

pub ok->>= {ℓ κ} :
    {A : Type ℓ} {B : Type κ} (f : A → Outcome B) {m : Outcome A} {a : A}
    → m ≡ ok a
    → (m >>= f) ≡ f a
ok->>= f e = rw e refl

pub stuck->>= {ℓ κ} :
    {A : Type ℓ} {B : Type κ} (f : A → Outcome B) {m : Outcome A} → m ≡ stuck → (m >>= f) ≡ stuck
stuck->>= f e = rw e refl

-- What holds of each result holds of the result that there is.
abbrev pub Each {ℓ} : {A : Type ℓ} → (A → Type 0) → Outcome A → Type 0
Each P (ok x) = P x
Each P panic = Unit {0}
Each P stuck = Unit {0}
