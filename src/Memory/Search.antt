-- ===== src/Memory/Search.antt =====
-- `strstr`: the first place of one string in another.
use cardinal.Base.{
  ℕ, zero, suc, ◌+◌, ◌-◌, ◌^◌, ◌<◌, ◌≤◌, ◌≡◌, ◌≢◌, inl, inr, refl, sym, ◌∙◌, ap, ◌==◌, ltb, true,
  false, Option, none, some, sub64, Outcome, ok, ok->>=, Bool-cases, arith,
}
use cardinal.Memory.{Memory, is_zero, strncmp, strstr_skip, strstr_loop, strstr}
use cardinal.Memory.Text.{IsText, strlen-length}
use cardinal.Memory.Compare.{Occurs, strncmp-Occurs, strncmp_differs}
use cardinal.Memory.Skip.{drop-IsText, strstr_skip-Skipped}

-- What a search in the `n` bytes at `h` finds: the first place, or none where there is none.
abbrev pub Search : Memory → ℕ → ℕ → ℕ → ℕ → Option ℕ → Type 0
Search mem h n needle k none = (i : ℕ) → i + k ≤ n → Occurs mem needle k (h + i) → ⊥
Search mem h n needle k (some at) =
    (i : ℕ) × (at ≡ h + i)
    × (i + k ≤ n)
    × Occurs mem needle k at
    × ((i' : ℕ) → i' < i → Occurs mem needle k (h + i') → ⊥)

-- What is found behind the first `d` bytes is found, where nothing starts in them.
later-Search :
    (mem : Memory) (h n needle k d : ℕ) (o : Option ℕ)
    → d ≤ n
    → ((i : ℕ) → i < d → Occurs mem needle k (h + i) → ⊥)
    → Search mem (h + d) (n - d) needle k o
    → Search mem h n needle k o
later-Search mem h n needle k d none le skip s = λ i fits occ. elim (Bool-cases (ltb i d)) [
  | inl l ↦ skip i (ground arith) occ
  | inr l ↦
      let ge : d ≤ i = ground arith in
      s (i - d) (omega arith) (λ j lt. ap mem (omega arith) ∙ occ j lt)
]
later-Search mem h n needle k d (some at) le skip (i, e, fits, occ, first) = (
  d + i,
  omega (arith, e),
  omega arith,
  occ,
  λ i' lt' occ'. elim (Bool-cases (ltb i' d)) [
    | inl l ↦ skip i' (ground arith) occ'
    | inr l ↦
        let ge : d ≤ i' = ground arith in
        first (i' - d) (omega arith) (λ j lt. ap mem (omega arith) ∙ occ' j lt)
  ],
)

-- A round of the outer loop, by what is at the place where the inner one stops.
module _ (rounds fuel : ℕ) (mem : Memory) (h needle len k at left : ℕ)
    (run : strstr_skip fuel mem h (mem needle) len ≡ ok (at, left)) where
  abbrev round : Outcome (Option ℕ)
  round = strstr_loop (suc rounds) fuel mem h needle len k

  at_end : mem at ≡ 0 → round ≡ ok none
  unfolding strstr_loop
  at_end e = let z : (mem at == 0) ≡ true = ground arith in ok->>= _ run ∙ rw z refl

  module _ (more : mem at ≢ 0) where
    too_short : left < k → round ≡ ok none
    unfolding strstr_loop
    too_short lt =
        let z : (mem at == 0) ≡ false = ground arith in
        let l : ltb left k ≡ true = ground arith in ok->>= _ run ∙ rw (z, l) refl

    module _ (long : k ≤ left) where
      found : is_zero (strncmp k mem at needle) ≡ true → round ≡ ok (some at)
      unfolding strstr_loop
      found e =
          let z : (mem at == 0) ≡ false = ground arith in
          let l : ltb left k ≡ false = ground arith in ok->>= _ run ∙ rw (z, l, e) refl

      not_here :
          is_zero (strncmp k mem at needle) ≡ false
          → round ≡ strstr_loop rounds fuel mem (at + 1) needle (sub64 left 1) k
      unfolding strstr_loop
      not_here e =
          let z : (mem at == 0) ≡ false = ground arith in
          let l : ltb left k ≡ false = ground arith in ok->>= _ run ∙ rw (z, l, e) refl

module _ (fuel : ℕ) (mem : Memory) (needle k : ℕ) (some_bytes : 0 < k)
    (text : IsText mem needle k) where
  abbrev Found : ℕ → ℕ → Outcome (Option ℕ) → Type 0
  Found h n run = (o : Option ℕ) × (run ≡ ok o) × Search mem h n needle k o

  -- No place where the needle's first character is not.
  elsewhere :
      (h d : ℕ)
      → ((i : ℕ) → i < d → mem (h + i) ≢ mem needle)
      → (i : ℕ) → i < d
      → Occurs mem needle k (h + i)
      → ⊥
  elsewhere h d before i lt occ =
      before i lt (ap mem (omega arith) ∙ occ 0 some_bytes ∙ ap mem (omega arith))

  up_to :
      (h d : ℕ)
      → ((i : ℕ) → i < d → Occurs mem needle k (h + i) → ⊥)
      → (Occurs mem needle k (h + d) → ⊥)
      → (i : ℕ) → i < d + 1
      → Occurs mem needle k (h + i)
      → ⊥
  up_to h d before here i lt occ = elim (Bool-cases (ltb i d)) [
    | inl l ↦ before i (ground arith) occ
    | inr l ↦ let e : i ≡ d = ground arith in here (λ j lt'. ap mem (omega (arith, e)) ∙ occ j lt')
  ]

  moved :
      (rounds : ℕ) {h h' len len' : ℕ}
      → h ≡ h'
      → len ≡ len'
      → strstr_loop rounds fuel mem h needle len k ≡ strstr_loop rounds fuel mem h' needle len' k
  moved rounds e f = rw (e, f) refl

  strstr_loop-Found :
      (rounds h n : ℕ)
      → n < rounds
      → n < fuel
      → n < 2 ^ 64
      → IsText mem h n
      → Found h n (strstr_loop rounds fuel mem h needle n k)
  strstr_loop-Found zero h n enough lt small t = absurd (omega arith)
  strstr_loop-Found (suc rounds) h n enough lt small t =
      let (d, run, s) = strstr_skip-Skipped fuel mem h (mem needle) n lt small t in
      let none_before = elsewhere h d s.before in
      elim (s.stops) [
        | inl e ↦ (
          none,
          at_end rounds fuel mem h needle n k (h + d) (n - d) run
              (ap mem (omega (arith, e)) ∙ t.ends),
          λ i fits occ. none_before i (omega (arith, e)) occ,
        )
        | inr (l, e) ↦
            let more : mem (h + d) ≢ 0 =
              λ z. text.bytes 0 some_bytes (ap mem (omega arith) ∙ sym e ∙ z) in
            elim (Bool-cases (ltb (n - d) k)) [
              | inl short ↦
                  let few : n - d < k = ground arith in
                  (
                    none,
                    too_short rounds fuel mem h needle n k (h + d) (n - d) run more few,
                    λ i fits occ. none_before i (omega arith) occ,
                  )
              | inr long ↦
                  let enough_left : k ≤ n - d = ground arith in
                  elim (Bool-cases (is_zero (strncmp k mem (h + d) needle))) [
                    | inl same ↦ (
                      some (h + d),
                      found rounds fuel mem h needle n k (h + d) (n - d) run more enough_left same,
                      (d, refl, omega arith, strncmp-Occurs k mem (h + d) needle same, none_before),
                    )
                    | inr differs ↦
                        let (o, rest, sr) =
                          strstr_loop-Found rounds (h + (d + 1)) (n - (d + 1)) (omega arith)
                            (omega arith) (omega arith)
                            (drop-IsText mem h n (d + 1) (omega arith) t) in
                        (
                          o,
                          not_here rounds fuel mem h needle n k (h + d) (n - d) run more enough_left
                                differs
                              ∙ moved rounds (omega arith) (omega arith)
                              ∙ rest,
                          later-Search mem h n needle k (d + 1) o (omega arith)
                              (up_to h d none_before (strncmp_differs k mem (h + d) needle differs))
                              sr,
                        )
                  ]
            ]
      ]

-- In a string of `n` bytes and for one of `k` bytes, not empty, `strstr` returns, with one round more than
-- the longer of them has bytes: the first place where the second stands in the first, or NULL where it stands at none.
pub strstr-Search :
    (fuel : ℕ) (mem : Memory) (h needle n k : ℕ)
    → h ≢ 0
    → needle ≢ 0
    → IsText mem h n
    → IsText mem needle k
    → 0 < k
    → n < fuel
    → k < fuel
    → n < 2 ^ 64
    → (o : Option ℕ) × (strstr fuel mem h needle ≡ ok o) × Search mem h n needle k o
unfolding strstr
strstr-Search fuel mem h needle n k hne nne t text some_bytes lt klt small =
    let (o, run, s) = strstr_loop-Found fuel mem needle k some_bytes text fuel h n lt lt small t in
    let e1 : (needle == 0) ≡ false = ground arith in
    let e2 : (h == 0) ≡ false = ground arith in
    let first : mem needle ≢ 0 = λ z. text.bytes 0 some_bytes (ap mem (omega arith) ∙ z) in
    let e3 : (mem needle == 0) ≡ false = ground arith in
    (
      o,
      rw (strstr, e1, e2, e3)
          (ok->>= _ (strlen-length fuel mem needle k nne text klt)
            ∙ ok->>= _ (strlen-length fuel mem h n hne t lt)
            ∙ run),
      s,
    )
