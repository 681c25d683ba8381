-- ===== src/Pagealloc/Coverage.antt =====
-- Free memory page by page: an allocation takes its pages out of the queue and no others.
use cardinal.Base.{
  ℕ, ◌+◌, ◌-◌, ◌*◌, ◌/◌, ◌%◌, ◌^◌, ◌≤◌, ◌<◌, ◌≡◌, refl, ap, false, List, [], ◌∷◌, ◌++◌, ◌&&◌, ◌⊎◌,
  inl, inr, arith, ltb, leb, if◌then◌else◌, ok, Bool-cases, sub64, ltb→lt, leb→le,
}
use cardinal.Queue.Holds.{Holds}
use cardinal.Pagealloc.{Allocator, pagealloc_alloc}
use cardinal.Pagealloc.Entry.{
  get_addr, get_pg_cnt, build_entry, btm_level, get-build_entry, get_addr-eq, get_pg_cnt-eq,
}
use cardinal.Pagealloc.TakeEntry.{All, IsBlock, remainder}
use cardinal.Pagealloc.FirstFit.{pages_of, pagealloc_alloc-first}

-- Whether page `p` is one of the `n` pages from the address `addr`.
abbrev pub within : ℕ → ℕ → ℕ → ℕ
within addr n p = if leb (addr / 4096) p && ltb p (addr / 4096 + n) then 1 else 0

-- Two blocks side by side.
pub covers_both :
    (addr c rest p : ℕ)
    → addr % 4096 ≡ 0
    → within addr (c + rest) p ≡ within addr c p + within (addr + c * 4096) rest p
covers_both addr c rest p al = shared (addr / 4096) _ (omega arith)
  where
    shared :
        (a b : ℕ)
        → b ≡ a + c
        → (if leb a p && ltb p (a + (c + rest)) then 1 else 0)
          ≡ (if leb a p && ltb p (a + c) then 1 else 0)
            + (if leb b p && ltb p (b + rest) then 1 else 0)
    shared a b e = ground arith

-- How many blocks of the queue hold the page `p`.
abbrev pub free_at : List ℕ → ℕ → ℕ
free_at [] p = 0
free_at (e ∷ xs) p = within (get_addr e) (get_pg_cnt e) p + free_at xs p

pub free_at-append : (xs ys : List ℕ) (p : ℕ) → free_at (xs ++ ys) p ≡ free_at xs p + free_at ys p
free_at-append [] ys p = omega arith
free_at-append (x ∷ xs) ys p = omega (arith, free_at-append xs ys p)

pub All-append :
    (P : ℕ → Type 0) (xs ys : List ℕ)
    → (All P xs × All P ys → All P (xs ++ ys)) × (All P (xs ++ ys) → All P xs × All P ys)
All-append P [] ys = (λ h. h.1, λ h. (tt, h))
All-append P (x ∷ xs) ys = (
  λ h. (h.0.0, (All-append P xs ys).0 (h.0.1, h.1)),
  λ h. let r = (All-append P xs ys).1 h.1 in ((h.0, r.0), r.1),
)

pub aligned : (e : ℕ) → e < 2 ^ 64 → (get_addr e % 4096 ≡ 0) × (get_addr e < 2 ^ 56)
aligned e h = omega (arith, get_addr-eq e h)

-- The entry that is written back for the rest of a block.
pub rest_of :
    (n e : ℕ)
    → IsBlock e
    → n < get_pg_cnt e
    → (get_addr (build_entry (get_addr e + n * btm_level) (get_pg_cnt e - n))
        ≡ get_addr e + n * btm_level)
      × (get_pg_cnt (build_entry (get_addr e + n * btm_level) (get_pg_cnt e - n))
          ≡ get_pg_cnt e - n)
      × (build_entry (get_addr e + n * btm_level) (get_pg_cnt e - n) < 2 ^ 64)
rest_of n e b more =
    get-build_entry (get_addr e + n * btm_level) (get_pg_cnt e - n) (omega (arith, b.ends))
      (omega (arith, aligned e b.word)) (omega arith) (omega (arith, get_pg_cnt-eq e))

pub remainder-IsBlock : (n e : ℕ) → IsBlock e → All IsBlock (remainder n e)
remainder-IsBlock n e b = elim (Bool-cases (ltb n (get_pg_cnt e))) [
  | inl more ↦
      let r = rest_of n e b (ltb→lt n _ more) in
      rw more
        (record { word = r.2; ends = rw (r.0, r.1) (omega (arith, b.ends, ltb→lt n _ more)) }, tt)
  | inr all ↦ rw all tt
]

-- Splitting a block shares out its pages.
remainder-covers :
    (n e p : ℕ)
    → IsBlock e
    → n ≤ get_pg_cnt e
    → within (get_addr e) (get_pg_cnt e) p ≡ free_at (remainder n e) p + within (get_addr e) n p
remainder-covers n e p b fits = elim (Bool-cases (ltb n (get_pg_cnt e))) [
  | inl more ↦
      let r = rest_of n e b (ltb→lt n _ more) in
      rw more (rw (r.0, r.1) (shared (get_addr e / 4096) n (get_pg_cnt e) _ p fits (omega arith)))
  | inr all ↦ rw all (rw (whole all) (omega arith))
]
  where
    whole : ltb n (get_pg_cnt e) ≡ false → get_pg_cnt e ≡ n
    whole all = ground arith

    shared :
        (a m cnt b' q : ℕ)
        → m ≤ cnt
        → b' ≡ a + m
        → (if leb a q && ltb q (a + cnt) then 1 else 0)
          ≡ (if leb b' q && ltb q (b' + (cnt - m)) then 1 else 0)
            + 0
            + (if leb a q && ltb q (a + m) then 1 else 0)
    shared a m cnt b' q le eq = ground arith

-- The first block with `n` pages, if there is one.
record First (n : ℕ) (xs : List ℕ) : Type 0 where
  pre : List ℕ
  e : ℕ
  post : List ℕ
  parts : xs ≡ pre ++ e ∷ post
  short : All (λ x. get_pg_cnt x < n) pre
  fits : n ≤ get_pg_cnt e

-- Some block has `n` pages.
abbrev pub Fits : ℕ → List ℕ → Type 0
Fits n [] = ⊥
Fits n (x ∷ xs) = (n ≤ get_pg_cnt x) ⊎ Fits n xs

split_at_fit : (n : ℕ) (xs : List ℕ) → Fits n xs → First n xs
split_at_fit n [] h = absurd h
split_at_fit n (x ∷ xs) h = elim (Bool-cases (leb n (get_pg_cnt x))) [
  | inl yes_here ↦ record {
    pre = [];
    e = x;
    post = xs;
    parts = refl;
    short = tt;
    fits = leb→le n _ yes_here;
  }
  | inr not_here ↦
      let f = split_at_fit n xs (later not_here h) in
      record {
        pre = x ∷ f.pre;
        e = f.e;
        post = f.post;
        parts = ap (λ t. x ∷ t) f.parts;
        short = (ground arith, f.short);
        fits = f.fits;
      }
]
  where
    later : leb n (get_pg_cnt x) ≡ false → (n ≤ get_pg_cnt x) ⊎ Fits n xs → Fits n xs
    later none_here (inl le) = absurd (ground arith)
    later none_here (inr rest) = rest

-- What an allocation of `n` pages has done to a queue that held `xs`.
pub record Allocated (cap n : ℕ) (xs : List ℕ) (s : Allocator) (addr : ℕ) (s' : Allocator)
    : Type 0 where
  pub now : List ℕ
  pub holds : Holds cap s'.queue now
  pub blocks : All IsBlock now
  pub aligned_at : addr % 4096 ≡ 0
  pub ends : addr + n * 4096 ≤ 2 ^ 56
  pub pages : (p : ℕ) → free_at xs p ≡ free_at now p + within addr n p
  pub counted : s'.free_mem ≡ sub64 s.free_mem (n * 4096)

-- For at most 2 ^ 42 bytes, where the queue holds free blocks below 2 ^ 56 and one of them has
-- the pages that are asked for, `pagealloc_alloc` returns an aligned address: its pages leave
-- the queue, every other page stays free or taken as it was, and `free_mem` falls by the
-- rounded size.
pub pagealloc_alloc-Allocated :
    {cap : ℕ} (domain color flags size : ℕ) (s : Allocator) (xs : List ℕ)
    → Holds cap s.queue xs
    → All IsBlock xs
    → size ≤ 2 ^ 42
    → Fits (pages_of size) xs
    → (addr : ℕ) × (s' : Allocator) × (pagealloc_alloc domain color flags size s ≡ ok (addr, s'))
      × Allocated cap (pages_of size) xs s addr s'
pagealloc_alloc-Allocated {cap} domain color flags size s xs h blocks bound some_fits =
    let f = split_at_fit (pages_of size) xs some_fits in
    let parts = (All-append IsBlock f.pre (f.e ∷ f.post)).1 (rw f.parts at blocks) in
    let b = parts.1.0 in
    let (s', run, h', counted) =
      pagealloc_alloc-first domain color flags size s f.pre f.post f.e (rw f.parts at h) bound
        f.short b f.fits in
    (
      get_addr f.e,
      s',
      run,
      record {
        now = remainder (pages_of size) f.e ++ f.post ++ f.pre;
        holds = h';
        blocks = (All-append IsBlock (remainder (pages_of size) f.e ++ f.post) f.pre).0 (
          (All-append IsBlock (remainder (pages_of size) f.e) f.post).0
              (remainder-IsBlock (pages_of size) f.e b, parts.1.1),
          parts.0,
        );
        aligned_at = (aligned f.e b.word).0;
        ends = omega (arith, b.ends, f.fits);
        pages = λ p. shared p (f.e) f.pre f.post f.parts b f.fits;
        counted = counted;
      },
    )
  where
    shared :
        (p e : ℕ) (pre post : List ℕ)
        → xs ≡ pre ++ e ∷ post
        → IsBlock e
        → pages_of size ≤ get_pg_cnt e
        → free_at xs p
          ≡ free_at (remainder (pages_of size) e ++ post ++ pre) p
            + within (get_addr e) (pages_of size) p
    shared p e pre post parts b fits = rw parts (
        omega (
          arith,
          free_at-append pre (e ∷ post) p,
          free_at-append (remainder (pages_of size) e ++ post) pre p,
          free_at-append (remainder (pages_of size) e) post p,
          remainder-covers (pages_of size) e p b fits,
        ))
