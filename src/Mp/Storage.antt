-- ===== src/Mp/Storage.antt =====
-- The offsets that `mp_tls_alloc` gives out.
use cardinal.Base.{
  ℕ, ◌+◌, ◌≤◌, ◌<◌, ◌≡◌, refl, List, [], ◌∷◌, Outcome, ok, panic, ◌>>=◌, ok->>=, arith, ap, ◌∙◌,
}
use cardinal.Mp.{Cores, tls_size, mp_tls_alloc, mp_tls_get}

-- The sum of the sizes of a list of requests.
abbrev pub total : List ℕ → ℕ
total [] = 0
total (n ∷ sizes) = n + total sizes

pub allocate_all : List ℕ → Cores → Outcome (List ℕ × Cores)
allocate_all [] s = ok ([], s)
allocate_all (n ∷ sizes) s =
    mp_tls_alloc n s >>= λ (off, s1). allocate_all sizes s1 >>= λ (offs, s2). ok (off ∷ offs, s2)

-- Each block starts where the one before it ends.
abbrev pub Consecutive : ℕ → List ℕ → List ℕ → Type 0
Consecutive at [] [] = Unit {0}
Consecutive at [] (o ∷ offs) = ⊥
Consecutive at (n ∷ sizes) [] = ⊥
Consecutive at (n ∷ sizes) (o ∷ offs) =
    (o ≡ at) × (mp_tls_get o ≡ o) × Consecutive (at + n) sizes offs

one_alloc :
    (n : ℕ) (s : Cores)
    → s.mp_loc ≡ 0
    → s.pos + n < tls_size
    → mp_tls_alloc n s ≡ ok (s.pos, record s { pos = s.pos + n })
unfolding mp_tls_alloc
one_alloc n s e fits = ground arith

reachable : (off : ℕ) → off < tls_size → mp_tls_get off ≡ off
unfolding mp_tls_get
reachable off lt = ground arith

-- With the lock free, requests that together stay below the size of the storage all succeed,
-- one behind the other, and `mp_tls_get` takes each offset.
allocate_all-Consecutive :
    (sizes : List ℕ) (s : Cores)
    → s.mp_loc ≡ 0
    → s.pos + total sizes < tls_size
    → (offs : List ℕ) × (allocate_all sizes s ≡ ok (offs, record s { pos = s.pos + total sizes }))
      × Consecutive s.pos sizes offs
unfolding allocate_all
allocate_all-Consecutive [] s e fits =
    ([], ap (λ (p : ℕ). ok ([], record s { pos = p })) (omega arith), tt)
allocate_all-Consecutive (n ∷ sizes) s e fits =
    let (offs, run, rest) =
      allocate_all-Consecutive sizes (record s { pos = s.pos + n }) e (omega arith) in
    (
      s.pos ∷ offs,
      ok->>= _ (one_alloc n s e (omega arith))
          ∙ ok->>= _ run
          ∙ ap (λ (p : ℕ). ok (s.pos ∷ offs, record s { pos = p })) (omega arith),
      (refl, reachable s.pos (omega arith), rest),
    )

-- A request that does not fit stops the kernel.
pub mp_tls_alloc-panic :
    (n : ℕ) (s : Cores) → s.mp_loc ≡ 0 → tls_size ≤ s.pos + n → mp_tls_alloc n s ≡ panic
unfolding mp_tls_alloc
mp_tls_alloc-panic n s e full = ground arith
