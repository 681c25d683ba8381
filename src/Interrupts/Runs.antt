-- ===== src/Interrupts/Runs.antt =====
-- Runs of vectors: the loops of `interrupt_allocate` over `interrupt_blocked`.
use cardinal.Base.{
  ℕ, zero, suc, ◌+◌, ◌≤◌, ◌<◌, ◌≡◌, refl, ◌∙◌, sym, ap, leb, Bool, true, false, none, some, List,
  get_or, set, length, length-set, get_or-set_self, get_or-set_ne, arith, Bool-cases, inl, inr, ◌⊎◌,
}
use cardinal.Interrupts.{any_blocked, block_run, find_run}

abbrev pub is_blocked : List Bool → ℕ → Bool
is_blocked blocked v = get_or blocked v false

pub any_blocked-none :
    (blocked : List Bool) (base cnt : ℕ)
    → any_blocked blocked base cnt ≡ false
    → (v : ℕ) → base ≤ v
    → v < base + cnt
    → is_blocked blocked v ≡ false
unfolding any_blocked
any_blocked-none blocked base zero none_here v lo hi = absurd (omega arith)
any_blocked-none blocked base (suc cnt) none_here v lo hi =
    let rest : any_blocked blocked (base + 1) cnt ≡ false = ground arith in
    ground (arith, any_blocked-none blocked (base + 1) cnt rest v)

pub length-block_run :
    (blocked : List Bool) (base cnt : ℕ) → length (block_run blocked base cnt) ≡ length blocked
unfolding block_run
length-block_run blocked base zero = refl
length-block_run blocked base (suc cnt) =
    rw (length-block_run (set blocked base true) (base + 1) cnt) (length-set blocked base true)

-- What blocking a run does to each vector.
pub block_run-out :
    (blocked : List Bool) (base cnt v : ℕ)
    → (v < base) ⊎ (base + cnt ≤ v)
    → is_blocked (block_run blocked base cnt) v ≡ is_blocked blocked v
unfolding block_run
block_run-out blocked base zero v out = refl
block_run-out blocked base (suc cnt) v out =
    block_run-out (set blocked base true) (base + 1) cnt v (omega arith)
    ∙ get_or-set_ne blocked base v true false (omega arith)

pub block_run-in :
    (blocked : List Bool) (base cnt v : ℕ)
    → base + cnt ≤ length blocked
    → base ≤ v
    → v < base + cnt
    → is_blocked (block_run blocked base cnt) v ≡ true
unfolding block_run
block_run-in blocked base zero v room lo hi = absurd (omega arith)
block_run-in blocked base (suc cnt) v room lo hi = elim (Bool-cases (leb v base)) [
  | inl first ↦ at_base (ground arith)
  | inr later ↦
      block_run-in (set blocked base true) (base + 1) cnt v (rw length-set (omega arith))
        (ground arith) (omega arith)
]
  where
    at_base : base ≡ v → is_blocked (block_run (set blocked base true) (base + 1) cnt) v ≡ true
    at_base e =
        block_run-out (set blocked base true) (base + 1) cnt v (omega arith)
        ∙ ap (λ (i : ℕ). get_or (set blocked base true) i false) (sym e)
        ∙ get_or-set_self blocked base true false (omega arith)

-- A run of vectors that are not blocked.
abbrev pub IsFree : List Bool → ℕ → ℕ → Type 0
IsFree blocked base cnt = (v : ℕ) → base ≤ v → v < base + cnt → is_blocked blocked v ≡ false

-- The run that the search finds starts where it may and ends before the last vector.
pub find_run-IsFree :
    (left : ℕ) (blocked : List Bool) (cnt i off len b : ℕ)
    → off + len ≡ i
    → IsFree blocked off len
    → find_run left blocked cnt i off len ≡ some b
    → (off ≤ b) × (b + cnt < i + left) × IsFree blocked b cnt
unfolding find_run
find_run-IsFree zero blocked cnt i off len b e run found = absurd (ground arith)
find_run-IsFree (suc left) blocked cnt i off len b e run found = elim (Bool-cases (leb cnt len)) [
  | inl long ↦
      let same : off ≡ b = ground arith in
      (omega arith, ground arith, λ v lo hi. run v (omega arith) (ground arith))
  | inr short ↦ elim (Bool-cases (get_or blocked i false)) [
    | inl taken ↦
        let (later, ends, all_free) =
          find_run-IsFree left blocked cnt (i + 1) (i + 1) 0 b (omega arith)
            (λ v lo hi. absurd (omega arith)) (rw (find_run, short, taken) at found) in
        (omega arith, omega arith, all_free)
    | inr free ↦
        let (later, ends, all_free) =
          find_run-IsFree left blocked cnt (i + 1) off (len + 1) b (omega arith) (longer free)
            (rw (find_run, short, free) at found) in
        (later, omega arith, all_free)
  ]
]
  where
    longer : is_blocked blocked i ≡ false → IsFree blocked off (len + 1)
    longer free v lo hi = ground (arith, run v)

-- Where the search finds nothing, no run that ends before the last vector is free.
pub find_run-none :
    (left : ℕ) (blocked : List Bool) (cnt i off len b : ℕ)
    → off + len ≡ i
    → len ≤ cnt
    → find_run left blocked cnt i off len ≡ none
    → off ≤ b
    → b + cnt < i + left
    → ((v : ℕ) → b ≤ v → v < b + cnt → is_blocked blocked v ≡ false)
    → ⊥
unfolding find_run
find_run-none zero blocked cnt i off len b e le none_found lo hi run = absurd (omega arith)
find_run-none (suc left) blocked cnt i off len b e le none_found lo hi run =
    elim (Bool-cases (leb cnt len)) [
      | inl long ↦ absurd (ground arith)
      | inr short ↦ elim (Bool-cases (get_or blocked i false)) [
        | inl taken ↦
            find_run-none left blocked cnt (i + 1) (i + 1) 0 b (omega arith) (omega arith)
              (rw (find_run, short, taken) at none_found) (ground (arith, run i)) (omega arith) run
        | inr free ↦
            find_run-none left blocked cnt (i + 1) off (len + 1) b (omega arith) (ground arith)
              (rw (find_run, short, free) at none_found) lo (omega arith) run
      ]
    ]
