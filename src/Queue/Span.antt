-- ===== src/Queue/Span.antt =====
-- The entries of a ring from an index on, and how writes change them.
use mathlib.Core.Path.{ap₂}
use native.Mathlib.Nat.{mod-add-mod, mod-eq_of_lt, mod-eq-sub-mod, add-zero}
use cardinal.Base.{
  ℕ, zero, suc, ◌+◌, ◌-◌, ◌%◌, ◌<◌, ◌≤◌, ◌≡◌, ◌≢◌, refl, ap, ◌∙◌, sym, List, [], ◌∷◌, ◌++◌, arith,
  length, get_or, ltb, if◌then◌else◌, Bool-cases, ltb→lt, inl, inr, set, get_or-set_self,
  get_or-set_ne,
}

-- The `n` entries from index `h` on, going round at `size`.
abbrev pub span : List ℕ → ℕ → ℕ → ℕ → List ℕ
span buf size h zero = []
span buf size h (suc n) = get_or buf h 0 ∷ span buf size ((h + 1) % size) n

pub length-span : (buf : List ℕ) (size h n : ℕ) → length (span buf size h n) ≡ n
length-span buf size h zero = refl
length-span buf size h (suc n) = ap suc (length-span buf size ((h + 1) % size) n)

next_index : (size h k : ℕ) → ((h + 1) % size + k) % size ≡ (h + suc k) % size
next_index size h k = rw mod-add-mod (ap (λ (t : ℕ). t % size) (omega arith))

-- A write to an index that the entries do not use changes none of them.
pub span-set_outside :
    (buf : List ℕ) (size h n i v : ℕ)
    → h < size
    → ((k : ℕ) → k < n → i ≢ (h + k) % size)
    → span (set buf i v) size h n ≡ span buf size h n
span-set_outside buf size h zero i v hh out = refl
span-set_outside buf size h (suc n) i v hh out =
    ap₂ ◌∷◌ (get_or-set_ne buf i h v 0 (λ e. out 0 (omega arith) (e ∙ at_zero))) (
      span-set_outside buf size ((h + 1) % size) n i v (omega arith)
        (λ k below. rw (next_index size h k) (out (suc k) (omega arith))))
  where
    at_zero : h ≡ (h + 0) % size
    at_zero = rw (add-zero h) (sym (mod-eq_of_lt hh))

-- One turn of the ring at most.
pub mod_once : (x size : ℕ) → x < size + size → x % size ≡ (if ltb x size then x else x - size)
mod_once x size h = elim (Bool-cases (ltb x size)) [
  | inl below ↦ rw below (mod-eq_of_lt (ltb→lt x size below))
  | inr past ↦ rw past (wrapped (ground arith))
]
  where
    wrapped : size ≤ x → x % size ≡ x - size
    wrapped le = mod-eq-sub-mod le ∙ mod-eq_of_lt (omega arith)

-- Fewer than `size` steps forward do not come back to the same index.
pub steps_apart : (size h i j : ℕ) → h < size → i < j → j < size → (h + i) % size ≢ (h + j) % size
steps_apart size h i j hh hij hj = ground (arith, mod_once (h + i) size, mod_once (h + j) size)

-- A write just past the entries appends the value.
pub span-append :
    (buf : List ℕ) (size h n i v : ℕ)
    → h < size
    → size ≤ length buf
    → n < size
    → i ≡ (h + n) % size
    → span (set buf i v) size h (suc n) ≡ span buf size h n ++ v ∷ []
span-append buf size h zero i v hh fits hn e =
    rw (e, add-zero h, mod-eq_of_lt hh, get_or-set_self buf h v 0 (omega arith))
span-append buf size h (suc n) i v hh fits hn e =
    ap₂ ◌∷◌ (get_or-set_ne buf i h v 0 (ground (arith, mod_once (h + suc n) size))) (
      span-append buf size ((h + 1) % size) n i v (omega arith) fits (omega arith)
        (e ∙ sym (next_index size h n)))

-- A write just before the entries puts the value in front.
pub span-cons :
    (buf : List ℕ) (size h i n v : ℕ)
    → i < size
    → size ≤ length buf
    → n < size
    → (i + 1) % size ≡ h
    → span (set buf i v) size i (suc n) ≡ v ∷ span buf size h n
span-cons buf size h i n v hi fits hn e = ap₂ ◌∷◌ (get_or-set_self buf i v 0 (omega arith)) (
    rw e (
      span-set_outside buf size h n i v (omega arith)
        (λ k below. ground (arith, mod_once (i + 1) size, mod_once (h + k) size))))

-- Clearing the first entry leaves the others.
pub span-tail :
    (buf : List ℕ) (size h n v : ℕ)
    → h < size
    → n < size
    → span (set buf h v) size ((h + 1) % size) n ≡ span buf size ((h + 1) % size) n
span-tail buf size h n v hh hn =
    span-set_outside buf size ((h + 1) % size) n h v (omega arith)
      (λ k below. ground (arith, next_index size h k, mod_once (h + suc k) size))

-- The entry at place `k`, and a write to it.
pub get_or-span :
    (buf : List ℕ) (size h n k : ℕ)
    → h < size
    → k < n
    → get_or (span buf size h n) k 0 ≡ get_or buf ((h + k) % size) 0
get_or-span buf size h zero k hh lt = absurd (omega arith)
get_or-span buf size h (suc n) zero hh lt = rw (add-zero h, mod-eq_of_lt hh)
get_or-span buf size h (suc n) (suc k) hh lt =
    get_or-span buf size ((h + 1) % size) n k (omega arith) (omega arith)
    ∙ ap (λ (i : ℕ). get_or buf i 0) (next_index size h k)

pub span-set :
    (buf : List ℕ) (size h n k i v : ℕ)
    → h < size
    → size ≤ length buf
    → k < n
    → n ≤ size
    → i ≡ (h + k) % size
    → span (set buf i v) size h n ≡ set (span buf size h n) k v
span-set buf size h zero k i v hh fits lt le e = absurd (omega arith)
span-set buf size h (suc n) zero i v hh fits lt le e =
    let at_h : i ≡ h = ground (arith, mod_once (h + 0) size) in
    ap₂ ◌∷◌ (rw at_h (get_or-set_self buf h v 0 (omega arith))) (
      ap (λ (j : ℕ). span (set buf j v) size ((h + 1) % size) n) at_h
      ∙ span-tail buf size h n v hh (omega arith))
span-set buf size h (suc n) (suc k) i v hh fits lt le e =
    ap₂ ◌∷◌ (get_or-set_ne buf i h v 0 (ground (arith, mod_once (h + suc k) size))) (
      span-set buf size ((h + 1) % size) n k i v (omega arith) fits (omega arith) (omega arith)
        (e ∙ sym (next_index size h k)))
