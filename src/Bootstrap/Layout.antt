-- ===== src/Bootstrap/Layout.antt =====
-- The blocks of a sequence of allocations, and what freeing the last one gives back.
use cardinal.Base.{
  ℕ, ◌+◌, ◌%◌, ◌^◌, ◌≤◌, ◌<◌, ◌≡◌, refl, ◌∙◌, ap, ◌==◌, ltb, if◌then◌else◌, Option, none, some,
  List, [], ◌∷◌, Outcome, ok, ◌>>=◌, ok->>=, arith, Bool-cases, inl, inr, u64, ltb→lt,
}
use cardinal.Bootstrap.{Area, area_size, round16, locked, bootstrap_malloc, bootstrap_free}

-- The position is aligned and inside the area, and the lock is free.
pub record IsArea (a : Area) : Type 0 where
  pub unlocked : a.lock ≡ 0
  pub aligned : a.pos % 16 ≡ 0
  pub inside : a.pos < area_size

round16-bounds :
    (s : ℕ) → s < 2 ^ 63 → (s ≤ round16 s) × (round16 s % 16 ≡ 0) × (round16 s < s + 16)
unfolding round16
round16-bounds s h = ground arith

locked_free : (a : Area) → a.lock ≡ 0 → locked a ≡ ok (record a { lock = 1 })
unfolding locked
locked_free a e = rw e refl

-- What one call returns and leaves.
abbrev served : ℕ → Area → Option ℕ × Area
served s a =
    if s == 0
    then (none, a)
    else if ltb (u64 (a.pos + round16 s)) area_size
    then (some a.pos, record { pos = u64 (a.pos + round16 s); lock = 0 })
    else (none, a)

bootstrap_malloc-served : (s : ℕ) (a : Area) → a.lock ≡ 0 → bootstrap_malloc s a ≡ ok (served s a)
unfolding bootstrap_malloc
bootstrap_malloc-served s a e = ground (arith, locked_free a e)

-- The calls one after the other.
pub allocate_all : List ℕ → Area → Outcome (List (Option ℕ) × Area)
allocate_all [] a = ok ([], a)
allocate_all (s ∷ sizes) a =
    bootstrap_malloc s a >>= λ (p, a1). allocate_all sizes a1 >>= λ (ps, a2). ok (p ∷ ps, a2)

-- The blocks lie one behind the other between two positions, each aligned to 16 bytes.
abbrev pub Layout : ℕ → List ℕ → List (Option ℕ) → ℕ → Type 0
Layout lo [] [] hi = lo ≤ hi
Layout lo [] (p ∷ ps) hi = ⊥
Layout lo (s ∷ sizes) [] hi = ⊥
Layout lo (s ∷ sizes) (none ∷ ps) hi = Layout lo sizes ps hi
Layout lo (s ∷ sizes) (some p ∷ ps) hi = (lo ≤ p) × (p % 16 ≡ 0) × Layout (p + s) sizes ps hi

abbrev pub Small : List ℕ → Type 0
Small [] = Unit {0}
Small (s ∷ sizes) = (s < 2 ^ 63) × Small sizes

Layout-lower :
    (lo lo' : ℕ) (sizes : List ℕ) (ps : List (Option ℕ)) (hi : ℕ)
    → lo ≤ lo'
    → Layout lo' sizes ps hi
    → Layout lo sizes ps hi
Layout-lower lo lo' [] [] hi le l = omega arith
Layout-lower lo lo' [] (p ∷ ps) hi le l = l
Layout-lower lo lo' (s ∷ sizes) [] hi le l = l
Layout-lower lo lo' (s ∷ sizes) (none ∷ ps) hi le l = Layout-lower lo lo' sizes ps hi le l
Layout-lower lo lo' (s ∷ sizes) (some p ∷ ps) hi le l = let (a, b, c) = l in (omega arith, b, c)

allocate_cons :
    (s : ℕ) (sizes : List ℕ) (a a1 a2 : Area) (p : Option ℕ) (ps : List (Option ℕ))
    → bootstrap_malloc s a ≡ ok (p, a1)
    → allocate_all sizes a1 ≡ ok (ps, a2)
    → allocate_all (s ∷ sizes) a ≡ ok (p ∷ ps, a2)
unfolding allocate_all
allocate_cons s sizes a a1 a2 p ps e r = ok->>= _ e ∙ ok->>= _ r

-- One call: a block at the position, or none.
one_call :
    (s : ℕ) (a : Area)
    → IsArea a
    → s < 2 ^ 63
    → (p : Option ℕ) × (a1 : Area) × (bootstrap_malloc s a ≡ ok (p, a1))
      × IsArea a1
      × ((sizes : List ℕ) (ps : List (Option ℕ)) (hi : ℕ)
          → Layout a1.pos sizes ps hi
          → Layout a.pos (s ∷ sizes) (p ∷ ps) hi)
one_call s a v h = elim (Bool-cases (s == 0)) [
  | inl empty ↦ (none, a, called (rw empty refl), v, λ sizes ps hi l. l)
  | inr some_bytes ↦ elim (Bool-cases (ltb (u64 (a.pos + round16 s)) area_size)) [
    | inl fits ↦ (
      some a.pos,
      record { pos = u64 (a.pos + round16 s); lock = 0 },
      called (rw (some_bytes, fits) refl),
      record {
        unlocked = refl;
        aligned = omega (arith, round16-bounds s h, v.aligned, v.inside);
        inside = ltb→lt _ _ fits;
      },
      λ sizes ps hi l. (
        omega arith,
        v.aligned,
        Layout-lower (a.pos + s) (u64 (a.pos + round16 s)) sizes ps hi
            (omega (arith, round16-bounds s h, v.inside)) l,
      ),
    )
    | inr full ↦ (none, a, called (rw (some_bytes, full) refl), v, λ sizes ps hi l. l)
  ]
]
  where
    called : {r : Option ℕ × Area} → served s a ≡ r → bootstrap_malloc s a ≡ ok r
    called e = bootstrap_malloc-served s a v.unlocked ∙ ap (λ (t : Option ℕ × Area). ok t) e

-- From a valid area, any sequence of requests below 2 ^ 63 bytes returns, with aligned blocks
-- inside the area that do not overlap.
pub allocate_all-Layout :
    (sizes : List ℕ) (a : Area)
    → IsArea a
    → Small sizes
    → (ps : List (Option ℕ)) × (a' : Area) × (allocate_all sizes a ≡ ok (ps, a'))
      × IsArea a'
      × Layout a.pos sizes ps a'.pos
unfolding allocate_all
allocate_all-Layout [] a v h = ([], a, refl, v, omega arith)
allocate_all-Layout (s ∷ sizes) a v (small, rest) =
    let (p, a1, call, v1, extends) = one_call s a v small in
    let (ps, a2, calls, v2, l) = allocate_all-Layout sizes a1 v1 rest in
    (p ∷ ps, a2, allocate_cons s sizes a a1 a2 p ps call calls, v2, extends sizes ps a2.pos l)

freed :
    (s : ℕ) (a : Area)
    → 0 < s
    → a.lock ≡ 0
    → 0 < round16 s
    → bootstrap_free (some a.pos) s (record { pos = a.pos + round16 s; lock = 0 })
      ≡ ok (if a.pos == 0 then record { pos = a.pos + round16 s; lock = 0 } else a)
unfolding bootstrap_free locked
freed s a p e r = ground arith

-- Where a request of some bytes below 2 ^ 63 fits, freeing its block at once gives the state
-- back, unless the block is the first of the area: then the position stays.
malloc-free :
    (s : ℕ) (a : Area)
    → IsArea a
    → 0 < s
    → s < 2 ^ 63
    → a.pos + round16 s < area_size
    → (a1 : Area) × (bootstrap_malloc s a ≡ ok (some a.pos, a1))
      × (bootstrap_free (some a.pos) s a1 ≡ ok (if a.pos == 0 then a1 else a))
malloc-free s a v pos small fits = (
  record { pos = a.pos + round16 s; lock = 0 },
  bootstrap_malloc-served s a v.unlocked ∙ ground arith,
  freed s a (omega arith) v.unlocked (omega (arith, round16-bounds s small)),
)
