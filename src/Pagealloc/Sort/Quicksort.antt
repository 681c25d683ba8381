-- ===== src/Pagealloc/Sort/Quicksort.antt =====
-- `quicksort_pgs` ends and sorts its window by address, moving entries inside it only.
use cardinal.Base.{
  ℕ, zero, suc, ◌+◌, ◌-◌, ◌%◌, ◌≤◌, ◌<◌, ◌≡◌, ◌∙◌, ap, List, arith, length, Bool-cases, ltb→lt, inl,
  inr, ltb, true, false, ok, ◌>>=◌, >>=-ok, ◌⊎◌,
}
use cardinal.Pagealloc.Entry.{get_addr}
use cardinal.Pagealloc.Sort.{key, partition_pgs, quicksort_loop, quicksort_pgs}
use cardinal.Pagealloc.Sort.Partition.{Split, partition_pgs-Split}
use cardinal.Pagealloc.Sort.Window.{Moved, Moved-refl, Moved-trans, Moved-widen, cells_apart}

module _ (sz : ℕ) where
  abbrev pub IsSorted : List ℕ → ℕ → ℕ → Type 0
  IsSorted buf lo hi = (j k : ℕ) → lo ≤ j → j ≤ k → k ≤ hi → key sz buf j ≤ key sz buf k

  -- What sorting the window gives.
  pub record Sorted (lo hi : ℕ) (old new : List ℕ) : Type 0 where
    pub moved : Moved sz lo hi old new
    pub sorted : IsSorted new lo hi

  -- Moving entries inside a window keeps what bounds them all, and spares what lies outside.
  Moved-le :
      (lo hi bound : ℕ) {old new : List ℕ}
      → Moved sz lo hi old new
      → ((k : ℕ) → lo ≤ k → k ≤ hi → key sz old k ≤ bound)
      → (k : ℕ) → lo ≤ k
      → k ≤ hi
      → key sz new k ≤ bound
  Moved-le lo hi bound m h k p q = let (k', p', q', e) = m.inside k p q in rw e (h k' p' q')

  Moved-ge :
      (lo hi bound : ℕ) {old new : List ℕ}
      → Moved sz lo hi old new
      → ((k : ℕ) → lo ≤ k → k ≤ hi → bound ≤ key sz old k)
      → (k : ℕ) → lo ≤ k
      → k ≤ hi
      → bound ≤ key sz new k
  Moved-ge lo hi bound m h k p q = let (k', p', q', e) = m.inside k p q in rw e (h k' p' q')

  module _ (lo hi : ℕ) (near : hi < lo + sz) where
    -- Moving entries of a smaller window spares the rest of the window.
    spared :
        (lo' hi' : ℕ) {old new : List ℕ}
        → lo ≤ lo'
        → hi' ≤ hi
        → Moved sz lo' hi' old new
        → (k : ℕ) → lo ≤ k
        → k ≤ hi
        → (k < lo') ⊎ (hi' < k)
        → key sz new k ≡ key sz old k
    spared lo' hi' pl ph m k p q side =
        ap get_addr
          (m.outside (k % sz) (λ j pj qj e. ground (arith, cells_apart sz k j, cells_apart sz j k)))

    -- Two sorted parts with a pivot between them.
    join :
        (new : List ℕ) (p pivot : ℕ)
        → IsSorted new lo p
        → IsSorted new (p + 1) hi
        → ((k : ℕ) → lo ≤ k → k ≤ p → key sz new k ≤ pivot)
        → ((k : ℕ) → p + 1 ≤ k → k ≤ hi → pivot ≤ key sz new k)
        → IsSorted new lo hi
    join new p pivot left right low high j k pj jk kh =
        ground (arith, left j k, right j k, low j, high k)

    -- The lower part sorted first.
    lower_first :
        {old mid buf2 new : List ℕ} {p : ℕ}
        → Split sz lo hi old p mid
        → Sorted lo p mid buf2
        → Sorted (p + 1) hi buf2 new
        → Sorted lo hi old new
    lower_first {old} {mid} {buf2} {new} {p} s l r = record {
      moved = Moved-trans sz lo hi s.moved (
          Moved-trans sz lo hi
            (Moved-widen sz lo hi lo p (omega arith) (omega (arith, s.before)) near l.moved)
            (Moved-widen sz lo hi (p + 1) hi (omega (arith, s.from)) (omega arith) near r.moved));
      sorted =
          join new p s.pivot (λ j k pj jk kp. ground (arith, l.sorted j k, keeps j, keeps k))
            r.sorted (λ k pk kp. ground (arith, keeps k, Moved-le lo p s.pivot l.moved s.low k))
            (Moved-ge (p + 1) hi s.pivot r.moved (λ k pk kh. ground (arith, before k, s.high k)));
    }
      where
        keeps : (k : ℕ) → lo ≤ k → k ≤ p → key sz new k ≡ key sz buf2 k
        keeps k pk kp =
            spared (p + 1) hi (omega (arith, s.from)) (omega arith) r.moved k pk
              (omega (arith, s.before)) (inl (omega arith))

        before : (k : ℕ) → p + 1 ≤ k → k ≤ hi → key sz buf2 k ≡ key sz mid k
        before k pk kh =
            spared lo p (omega arith) (omega (arith, s.before)) l.moved k (omega (arith, s.from)) kh
              (inr (omega arith))

    -- The upper part sorted first.
    upper_first :
        {old mid buf2 new : List ℕ} {p : ℕ}
        → Split sz lo hi old p mid
        → Sorted (p + 1) hi mid buf2
        → Sorted lo p buf2 new
        → Sorted lo hi old new
    upper_first {old} {mid} {buf2} {new} {p} s r l = record {
      moved = Moved-trans sz lo hi s.moved (
          Moved-trans sz lo hi
            (Moved-widen sz lo hi (p + 1) hi (omega (arith, s.from)) (omega arith) near r.moved)
            (Moved-widen sz lo hi lo p (omega arith) (omega (arith, s.before)) near l.moved));
      sorted =
          join new p s.pivot l.sorted
            (λ j k pj jk kh. ground (arith, r.sorted j k, keeps j, keeps k))
            (Moved-le lo p s.pivot l.moved (λ k pk kp. ground (arith, before k, s.low k)))
            (λ k pk kh. ground (arith, keeps k, Moved-ge (p + 1) hi s.pivot r.moved upper k));
    }
      where
        upper : (k : ℕ) → p + 1 ≤ k → k ≤ hi → s.pivot ≤ key sz mid k
        upper k pk kh = s.high k (omega arith) kh

        keeps : (k : ℕ) → p + 1 ≤ k → k ≤ hi → key sz new k ≡ key sz buf2 k
        keeps k pk kh =
            spared lo p (omega arith) (omega (arith, s.before)) l.moved k (omega (arith, s.from)) kh
              (inr (omega arith))

        before : (k : ℕ) → lo ≤ k → k ≤ p → key sz buf2 k ≡ key sz mid k
        before k pk kp =
            spared (p + 1) hi (omega (arith, s.from)) (omega arith) r.moved k pk
              (omega (arith, s.before)) (inl (omega arith))

  sort_stop :
      (fuel : ℕ) (buf : List ℕ) (lo hi : ℕ)
      → ltb lo hi ≡ false
      → quicksort_loop sz (suc fuel) buf lo hi ≡ ok buf
  unfolding quicksort_loop
  sort_stop fuel buf lo hi h = ground arith

  -- One round: the split, the shorter side, then the other.
  sort_lower :
      (fuel : ℕ) (buf : List ℕ) (lo hi p : ℕ) (mid : List ℕ)
      → ltb lo hi ≡ true
      → partition_pgs sz buf lo hi ≡ ok (p, mid)
      → ltb (hi - p) (p - lo) ≡ true
      → quicksort_loop sz (suc fuel) buf lo hi
        ≡ (quicksort_loop sz fuel mid lo p >>= λ buf2. quicksort_loop sz fuel buf2 (p + 1) hi)
  unfolding quicksort_loop
  sort_lower fuel buf lo hi p mid h split side = ground arith

  sort_upper :
      (fuel : ℕ) (buf : List ℕ) (lo hi p : ℕ) (mid : List ℕ)
      → ltb lo hi ≡ true
      → partition_pgs sz buf lo hi ≡ ok (p, mid)
      → ltb (hi - p) (p - lo) ≡ false
      → quicksort_loop sz (suc fuel) buf lo hi
        ≡ (quicksort_loop sz fuel mid (p + 1) hi >>= λ buf2. quicksort_loop sz fuel buf2 lo p)
  unfolding quicksort_loop
  sort_upper fuel buf lo hi p mid h split side = ground arith

  quicksort_loop-Sorted :
      (fuel : ℕ) (buf : List ℕ) (lo hi : ℕ)
      → 0 < sz
      → hi < lo + sz
      → hi < lo + fuel
      → 0 < fuel
      → sz ≤ length buf
      → (new : List ℕ) × (quicksort_loop sz fuel buf lo hi ≡ ok new) × Sorted lo hi buf new
  quicksort_loop-Sorted zero buf lo hi pos near room some_fuel fits = absurd (omega arith)
  quicksort_loop-Sorted (suc fuel) buf lo hi pos near room some_fuel fits =
      elim (Bool-cases (ltb lo hi)) [
        | inr done ↦ (
          buf,
          sort_stop fuel buf lo hi done,
          record {
            moved = Moved-refl sz lo hi buf;
            sorted = λ j k pj jk kh. let e : j ≡ k = ground arith in rw e (omega arith);
          },
        )
        | inl more ↦
            let (p, mid, split, s) =
              partition_pgs-Split sz lo hi pos near buf (ltb→lt lo hi more) fits in
            elim (Bool-cases (ltb (hi - p) (p - lo))) [
              | inl side ↦
                  let (buf2, run_low, l) =
                    quicksort_loop-Sorted fuel mid lo p pos (omega (arith, s.before))
                      (omega (arith, s.before)) (omega (arith, s.before, s.from))
                      (rw s.moved.same_length fits) in
                  let (new, run_high, r) =
                    quicksort_loop-Sorted fuel buf2 (p + 1) hi pos (omega (arith, s.from))
                      (omega (arith, s.from)) (omega (arith, s.before, s.from))
                      (rw l.moved.same_length (rw s.moved.same_length fits)) in
                  (
                    new,
                    sort_lower fuel buf lo hi p mid more split side ∙ >>=-ok _ _ run_low run_high,
                    lower_first lo hi near s l r,
                  )
              | inr side ↦
                  let (buf2, run_high, r) =
                    quicksort_loop-Sorted fuel mid (p + 1) hi pos (omega (arith, s.from))
                      (omega (arith, s.from)) (omega (arith, s.before, s.from))
                      (rw s.moved.same_length fits) in
                  let (new, run_low, l) =
                    quicksort_loop-Sorted fuel buf2 lo p pos (omega (arith, s.before))
                      (omega (arith, s.before)) (omega (arith, s.before, s.from))
                      (rw r.moved.same_length (rw s.moved.same_length fits)) in
                  (
                    new,
                    sort_upper fuel buf lo hi p mid more split side ∙ >>=-ok _ _ run_high run_low,
                    upper_first lo hi near s r l,
                  )
            ]
      ]

  -- On a window that is not longer than the ring, `quicksort_pgs` returns; the entries of the
  -- window are only moved inside it and are then in order of their addresses, and the other
  -- cells are as they were.
  pub quicksort_pgs-Sorted :
      (buf : List ℕ) (lo hi : ℕ)
      → 0 < sz
      → hi < lo + sz
      → sz ≤ length buf
      → (new : List ℕ) × (quicksort_pgs sz buf lo hi ≡ ok new) × Sorted lo hi buf new
  unfolding quicksort_pgs
  quicksort_pgs-Sorted buf lo hi pos near fits =
      quicksort_loop-Sorted (hi - lo + 2) buf lo hi pos near (omega arith) (omega arith) fits
