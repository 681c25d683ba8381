-- ===== src/Memory/Compare.antt =====
-- `strncmp` as the test whether the same bytes stand at two places.
use cardinal.Base.{
  ℕ, zero, suc, ◌+◌, ◌-◌, ◌<◌, ◌≡◌, ◌≢◌, ◌⊎◌, inl, inr, refl, sym, ◌∙◌, ap, ◌==◌, ltb, true, false,
  Bool-cases, arith,
}
use cardinal.Memory.{Memory, difference, is_zero, strncmp}

-- The `k` bytes at `needle` stand at `at`.
abbrev pub Occurs : Memory → ℕ → ℕ → ℕ → Type 0
Occurs mem needle k at = (j : ℕ) → j < k → mem (at + j) ≡ mem (needle + j)

difference-is_zero : (x y : ℕ) → x ≢ y → is_zero (difference x y) ≡ false
unfolding difference is_zero
difference-is_zero x y ne = elim (Bool-cases (ltb x y)) [
  | inl less ↦ rw (difference, less) refl
  | inr more ↦ let e : x - y ≡ suc (x - y - 1) = ground arith in rw (difference, more, e) refl
]

strncmp-step :
    (k : ℕ) (mem : Memory) (a b : ℕ)
    → mem a ≡ mem b
    → strncmp (suc k) mem a b ≡ strncmp k mem (a + 1) (b + 1)
unfolding strncmp
strncmp-step k mem a b same = let e : (mem a == mem b) ≡ true = ground arith in rw (strncmp, e) refl

strncmp-stop :
    (k : ℕ) (mem : Memory) (a b : ℕ) → mem a ≢ mem b → is_zero (strncmp (suc k) mem a b) ≡ false
unfolding strncmp
strncmp-stop k mem a b other =
    let e : (mem a == mem b) ≡ false = ground arith in
    rw (strncmp, e) (difference-is_zero (mem a) (mem b) other)

pub first_bytes : (x y : ℕ) → (x ≡ y) ⊎ (x ≢ y)
first_bytes x y = elim (Bool-cases (x == y)) [
  | inl e ↦ inl (ground arith)
  | inr e ↦ inr (ground arith)
]

-- `strncmp` finds no difference just where the bytes are the same.
pub strncmp-Occurs :
    (k : ℕ) (mem : Memory) (a b : ℕ) → is_zero (strncmp k mem a b) ≡ true → Occurs mem b k a
strncmp-Occurs zero mem a b e j lt = absurd (omega arith)
strncmp-Occurs (suc k) mem a b e j lt = elim (first_bytes (mem a) (mem b)) [
  | inr other ↦ absurd (let r = sym (strncmp-stop k mem a b other) ∙ e in cc)
  | inl same ↦
      later j lt same
        (strncmp-Occurs k mem (a + 1) (b + 1) (ap is_zero (sym (strncmp-step k mem a b same)) ∙ e))
]
  where
    later :
        (i : ℕ)
        → i < suc k
        → mem a ≡ mem b
        → Occurs mem (b + 1) k (a + 1)
        → mem (a + i) ≡ mem (b + i)
    later zero l same rest = ap mem (omega arith) ∙ same ∙ ap mem (omega arith)
    later (suc i) l same rest = ap mem (omega arith) ∙ rest i (omega arith) ∙ ap mem (omega arith)

pub strncmp_differs :
    (k : ℕ) (mem : Memory) (a b : ℕ) → is_zero (strncmp k mem a b) ≡ false → Occurs mem b k a → ⊥
unfolding strncmp is_zero
strncmp_differs zero mem a b e occ = let r = e in cc
strncmp_differs (suc k) mem a b e occ =
    let same : mem a ≡ mem b = ap mem (omega arith) ∙ occ 0 (omega arith) ∙ ap mem (omega arith) in
    strncmp_differs k mem (a + 1) (b + 1) (ap is_zero (sym (strncmp-step k mem a b same)) ∙ e)
      (λ j lt. ap mem (omega arith) ∙ occ (suc j) (omega arith) ∙ ap mem (omega arith))
