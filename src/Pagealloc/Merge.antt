-- ===== src/Pagealloc/Merge.antt =====
-- One round of `compact_queue`, on the entries that the queue holds. Joining the first two is right;
-- joining a later pair drops the first entry, since `head` moves and the cleared cell does not.
use cardinal.Base.{
  ℕ, zero, suc, ◌+◌, ◌-◌, ◌*◌, ◌%◌, ◌^◌, ◌<◌, ◌≡◌, refl, ◌∙◌, sym, ap, Bool, true, List, [], ◌∷◌,
  ◌&&◌, inl, inr, arith, length, get_or, set, drop, length-set, ltb, Bool-cases, if◌then◌else◌,
  ◌==◌, u64,
}
use cardinal.Queue.{Queue}
use cardinal.Queue.Refine.{IsValid, contents, length-contents}
use cardinal.Queue.Span.{span, get_or-span, span-set, mod_once}
use cardinal.Pagealloc.{merge_at}
use cardinal.Pagealloc.Entry.{
  get_addr, get_pg_cnt, build_entry, btm_level, max_entries, get-build_entry, get_pg_cnt-eq,
}
use cardinal.Pagealloc.TakeEntry.{All, IsBlock}
use cardinal.Pagealloc.Coverage.{within, free_at, covers_both, aligned}

-- Two entries that describe adjacent blocks small enough to be one.
abbrev pub joins : ℕ → ℕ → Bool
joins e next =
    u64 (get_pg_cnt e * btm_level + get_addr e) == get_addr next
    && ltb (get_pg_cnt e + get_pg_cnt next) max_entries

abbrev pub joined : ℕ → ℕ → ℕ
joined e next = build_entry (get_addr e) (get_pg_cnt e + get_pg_cnt next)

-- What the round at place `k` does to the entries.
unfoldable pub merge_entries : ℕ → List ℕ → List ℕ
merge_entries k xs =
    if joins (get_or xs k 0) (get_or xs (suc k) 0)
    then drop 1 (set (set xs (suc k) (joined (get_or xs k 0) (get_or xs (suc k) 0))) k 0)
    else xs

drop-span :
    (buf : List ℕ) (size h n : ℕ)
    → drop 1 (span buf size h n) ≡ span buf size ((h + 1) % size) (n - 1)
drop-span buf size h zero = refl
drop-span buf size h (suc n) = ap (λ (m : ℕ). span buf size ((h + 1) % size) m) (omega arith)

-- The two writes and the step of `head`, on the entries.
contents-joined :
    (q : Queue) (k m : ℕ)
    → IsValid q
    → k + 1 < q.ent_cnt
    → span
        (set (set q.buf ((q.head + k + 1) % q.size) m) ((q.head + k) % q.size) 0)
        q.size
        ((q.head + 1) % q.size)
        (q.ent_cnt - 1)
      ≡ drop 1 (set (set (contents q) (suc k) m) k 0)
contents-joined q k m v lt =
    sym (drop-span buf2 q.size q.head q.ent_cnt)
    ∙ ap (drop 1) (
        span-set buf1 q.size q.head q.ent_cnt k ((q.head + k) % q.size) 0 v.head_in
          (rw length-set v.storage) (omega arith) (omega (arith, v.one_free)) refl
        ∙ ap (λ t. set t k 0)
            (span-set q.buf q.size q.head q.ent_cnt (suc k) ((q.head + k + 1) % q.size) m v.head_in
              v.storage (omega arith) (omega (arith, v.one_free))
              (ap (λ (t : ℕ). t % q.size) (omega arith))))
  where
    buf1 : List ℕ
    buf1 = set q.buf ((q.head + k + 1) % q.size) m

    buf2 : List ℕ
    buf2 = set buf1 ((q.head + k) % q.size) 0

-- `merge_at` reads the places `k` and `k + 1` of the entries.
module _ (q : Queue) (k : ℕ) (v : IsValid q) (lt : k + 1 < q.ent_cnt) where
  read_here : get_or q.buf ((q.head + k) % q.size) 0 ≡ get_or (contents q) k 0
  read_here = sym (get_or-span q.buf q.size q.head q.ent_cnt k v.head_in (omega arith))

  read_next : get_or q.buf ((q.head + k + 1) % q.size) 0 ≡ get_or (contents q) (suc k) 0
  read_next =
      ap (λ (i : ℕ). get_or q.buf (i % q.size) 0) (omega arith)
      ∙ sym (get_or-span q.buf q.size q.head q.ent_cnt (suc k) v.head_in (omega arith))

  -- A round of the loop at the index of place `k` acts on the entries as `merge_entries`.
  contents-merge_at : contents (merge_at (q.head + k) q) ≡ merge_entries k (contents q)
  unfolding merge_at merge_entries
  contents-merge_at =
      rw (read_here, read_next)
        (elim (Bool-cases (joins (get_or (contents q) k 0) (get_or (contents q) (suc k) 0))) [
          | inl yes_join ↦ rw yes_join (contents-joined q k _ v lt)
          | inr no_join ↦ rw no_join
        ])

  -- A round keeps the queue valid.
  pub merge_at-IsValid : IsValid (merge_at (q.head + k) q)
  unfolding merge_at
  merge_at-IsValid = ground (
    arith,
    length-set (set q.buf ((q.head + k + 1) % q.size) merged) ((q.head + k) % q.size) 0,
    length-set q.buf ((q.head + k + 1) % q.size) merged,
    mod_once (q.head + q.ent_cnt) q.size,
    mod_once (q.head + 1) q.size,
    mod_once ((q.head + 1) % q.size + (q.ent_cnt - 1)) q.size,
  )
    where
      merged : ℕ
      merged =
          joined (get_or q.buf ((q.head + k) % q.size) 0)
            (get_or q.buf ((q.head + k + 1) % q.size) 0)

-- The joined entry stands for the pages of both.
joined_facts :
    (e next : ℕ)
    → IsBlock e
    → IsBlock next
    → joins e next ≡ true
    → (get_addr (joined e next) ≡ get_addr e)
      × (get_pg_cnt (joined e next) ≡ get_pg_cnt e + get_pg_cnt next)
      × (joined e next < 2 ^ 64)
      × (get_addr next ≡ get_addr e + get_pg_cnt e * 4096)
joined_facts e next b c j =
    let adjacent : get_addr next ≡ get_addr e + get_pg_cnt e * 4096 = ground (arith, b.ends) in
    let few : get_pg_cnt e + get_pg_cnt next < max_entries = ground arith in
    let built =
      get-build_entry (get_addr e) (get_pg_cnt e + get_pg_cnt next)
        (omega (arith, (aligned e b.word).1)) (aligned e b.word).0 (omega (arith, get_pg_cnt-eq e))
        (omega (arith, few)) in
    (built.0, built.1, built.2, adjacent)

joined_covers :
    (e next p : ℕ)
    → IsBlock e
    → IsBlock next
    → joins e next ≡ true
    → within (get_addr (joined e next)) (get_pg_cnt (joined e next)) p
      ≡ within (get_addr e) (get_pg_cnt e) p + within (get_addr next) (get_pg_cnt next) p
joined_covers e next p b c j =
    let f = joined_facts e next b c j in
    rw (f.0, f.1, f.3)
      (covers_both (get_addr e) (get_pg_cnt e) (get_pg_cnt next) p (aligned e b.word).0)

-- The page 0, which the cleared cell stands for as an entry.
abbrev pub page_zero : ℕ → ℕ
page_zero p = within 0 1 p

zero_entry : (get_addr 0 ≡ 0) × (get_pg_cnt 0 ≡ 1)
unfolding get_addr get_pg_cnt
zero_entry = (refl, refl)

free_at-join :
    (k p : ℕ) (xs : List ℕ)
    → All IsBlock xs
    → k + 1 < length xs
    → joins (get_or xs k 0) (get_or xs (suc k) 0) ≡ true
    → free_at (set (set xs (suc k) (joined (get_or xs k 0) (get_or xs (suc k) 0))) k 0) p
      ≡ free_at xs p + page_zero p
free_at-join k p [] b lt j = absurd (omega arith)
free_at-join k p (x ∷ []) b lt j = absurd (omega arith)
free_at-join zero p (x ∷ y ∷ xs) b lt j =
    rw (zero_entry.0, zero_entry.1) (omega (arith, joined_covers x y p b.0 b.1.0 j))
free_at-join (suc k) p (x ∷ y ∷ xs) b lt j =
    omega (arith, free_at-join k p (y ∷ xs) b.1 (omega arith) j)

-- In a valid queue of at least two free blocks, the round of `compact_queue` at the head keeps
-- every page free as often as it was.
pub merge_first-covers :
    (q : Queue) (p : ℕ)
    → IsValid q
    → 1 < q.ent_cnt
    → All IsBlock (contents q)
    → free_at (contents (merge_at q.head q)) p ≡ free_at (contents q) p
unfolding merge_entries
merge_first-covers q p v lt b =
    ap (λ (i : ℕ). free_at (contents (merge_at i q)) p) (omega arith)
    ∙ ap (λ t. free_at t p) (contents-merge_at q 0 v (omega arith))
    ∙ on_entries (contents q) (rw length-contents lt) b
  where
    on_entries :
        (xs : List ℕ)
        → 1 < length xs
        → All IsBlock xs
        → free_at (merge_entries 0 xs) p ≡ free_at xs p
    on_entries [] lt' b' = absurd (omega arith)
    on_entries (x ∷ []) lt' b' = absurd (omega arith)
    on_entries (x ∷ y ∷ xs) lt' b' = elim (Bool-cases (joins x y)) [
      | inl yes_join ↦
          rw (yes_join, merge_entries) (omega (arith, joined_covers x y p b'.0 b'.1.0 yes_join))
      | inr no_join ↦ rw (no_join, merge_entries) refl
    ]

-- In a valid queue of free blocks, a round of `compact_queue` that joins a later pair loses the
-- pages of the first entry, and makes page 0 free.
pub merge_later-loses :
    (q : Queue) (k p : ℕ)
    → IsValid q
    → suc k + 1 < q.ent_cnt
    → All IsBlock (contents q)
    → joins (get_or (contents q) (suc k) 0) (get_or (contents q) (suc (suc k)) 0) ≡ true
    → free_at (contents (merge_at (q.head + suc k) q)) p
        + within (get_addr (get_or (contents q) 0 0)) (get_pg_cnt (get_or (contents q) 0 0)) p
      ≡ free_at (contents q) p + page_zero p
unfolding merge_entries
merge_later-loses q k p v lt b j =
    rw (contents-merge_at q (suc k) v lt) (on_entries (contents q) (rw length-contents lt) b j)
  where
    on_entries :
        (xs : List ℕ)
        → suc k + 1 < length xs
        → All IsBlock xs
        → joins (get_or xs (suc k) 0) (get_or xs (suc (suc k)) 0) ≡ true
        → free_at (merge_entries (suc k) xs) p
            + within (get_addr (get_or xs 0 0)) (get_pg_cnt (get_or xs 0 0)) p
          ≡ free_at xs p + page_zero p
    on_entries [] lt' b' j' = absurd (omega arith)
    on_entries (x ∷ xs) lt' b' j' =
        rw (j', merge_entries) (omega (arith, free_at-join k p xs b'.1 (omega arith) j'))
