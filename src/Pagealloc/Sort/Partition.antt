-- ===== src/Pagealloc/Sort/Partition.antt =====
-- `partition_pgs` ends, splits the window at a place below its end, and only moves entries.
use cardinal.Base.{
  ℕ, zero, suc, ◌+◌, ◌-◌, ◌/◌, ◌%◌, ◌≤◌, ◌<◌, ◌≡◌, ◌∙◌, ap, List, arith, length, Bool-cases, ◌⊎◌,
  inl, inr, leb, true, false, ok, if◌then◌else◌, ◌==◌, leb→le,
}
use cardinal.Pagealloc.Sort.{key, scan_down, scan_up, xor_exchange, partition_loop, partition_pgs}
use cardinal.Pagealloc.Sort.Scan.{exchange-swapped, Down, Up, scan_down-Down, scan_up-Up}
use cardinal.Pagealloc.Sort.Window.{
  Moved, Moved-refl, Moved-trans, get-swapped, swapped-Moved, cells_apart,
}

module _ (sz lo hi : ℕ) where
  -- What a split leaves: nothing up to `p` lies above what follows.
  pub record Split (old : List ℕ) (p : ℕ) (new : List ℕ) : Type 0 where
    pub from : lo ≤ p
    pub before : p < hi
    pub moved : Moved sz lo hi old new
    pub pivot : ℕ
    pub low : (k : ℕ) → lo ≤ k → k ≤ p → key sz new k ≤ pivot
    pub high : (k : ℕ) → p < k → k ≤ hi → pivot ≤ key sz new k

  -- The loop keeps an entry `a` that stops the downward scan and a `b` that stops the upward one.
  record Between (buf : List ℕ) (pivot i j a b : ℕ) : Type 0 where
    i_from : lo ≤ i
    j_to : j ≤ hi + 1
    a_from : lo ≤ a
    a_below : a < j
    a_low : key sz buf a ≤ pivot
    b_above : i ≤ b
    b_to : b ≤ hi
    b_high : pivot ≤ key sz buf b
    inner : (j ≤ hi) ⊎ (b < hi)
    low : (k : ℕ) → lo ≤ k → k < i → key sz buf k ≤ pivot
    high : (k : ℕ) → j ≤ k → k ≤ hi → pivot ≤ key sz buf k

  module _ (pos : 0 < sz) (near : hi < lo + sz) where
    same_cell : (k j : ℕ) → lo ≤ k → k ≤ hi → lo ≤ j → j ≤ hi → (k % sz == j % sz) ≡ (k == j)
    same_cell k j lk kh lj jh =
        ground
          (arith, cells_apart sz k j, cells_apart sz j k, ap (λ (t : ℕ). t % sz) {x = k} {y = j})

    key-exchange :
        (buf : List ℕ) (i j k : ℕ)
        → sz ≤ length buf
        → lo ≤ i
        → i < j
        → j ≤ hi
        → lo ≤ k
        → k ≤ hi
        → key sz (xor_exchange sz buf i j) k
          ≡ (if k == j then key sz buf i else if k == i then key sz buf j else key sz buf k)
    key-exchange buf i j k fits li ij jh lk kh =
        rw
          (
            exchange-swapped sz buf i j (omega arith) (omega arith)
                (cells_apart sz i j ij (omega arith)),
            get-swapped buf (i % sz) (j % sz) (k % sz) (omega arith) (omega arith),
            same_cell k j lk kh (omega arith) jh,
            same_cell k i lk kh li (omega arith),
          )
          (elim (Bool-cases (k == j)) [
            | inl e ↦ rw e
            | inr off ↦ rw off (elim (Bool-cases (k == i)) [ inl e ↦ rw e | inr e ↦ rw e ])
          ])

    Between-exchange :
        (buf : List ℕ) (pivot i j a b i' j' : ℕ)
        → sz ≤ length buf
        → Between buf pivot i j a b
        → Down sz buf pivot j a j'
        → Up sz buf pivot i b i'
        → i' < j'
        → Between (xor_exchange sz buf i' j') pivot (i' + 1) j' i' j'
    Between-exchange buf pivot i j a b i' j' fits v d u lt = record {
      i_from = omega (arith, v.i_from, u.above);
      j_to = omega (arith, v.j_to, d.below);
      a_from = omega (arith, v.i_from, u.above);
      a_below = lt;
      a_low = ground (arith, exchanged i');
      b_above = omega arith;
      b_to = omega (arith, v.j_to, d.below);
      b_high = ground (arith, exchanged j');
      inner = inl (omega (arith, v.j_to, d.below));
      low = λ k p q. ground (arith, exchanged k, v.low k, u.passed k);
      high = λ k p q. ground (arith, exchanged k, v.high k, d.passed k);
    }
      where
        exchanged :
            (k : ℕ)
            → lo ≤ k
            → k ≤ hi
            → key sz (xor_exchange sz buf i' j') k
              ≡ (if k == j' then key sz buf i' else if k == i' then key sz buf j' else key sz buf k)
        exchanged k =
            key-exchange buf i' j' k fits (omega (arith, v.i_from, u.above)) lt
              (omega (arith, v.j_to, d.below))

    Split-here :
        (buf : List ℕ) (pivot i j a b i' j' : ℕ)
        → Between buf pivot i j a b
        → Down sz buf pivot j a j'
        → Up sz buf pivot i b i'
        → j' ≤ i'
        → Split buf j' buf
    Split-here buf pivot i j a b i' j' v d u le = record {
      from = omega (arith, v.a_from, d.above);
      before = ground arith;
      moved = Moved-refl sz lo hi buf;
      pivot = pivot;
      low = λ k p q. ground (arith, v.low k, u.passed k, same k);
      high = λ k p q. ground (arith, v.high k, d.passed k);
    }
      where
        same : (k : ℕ) → k ≡ j' → key sz buf k ≡ key sz buf j'
        same k e = ap (key sz buf) e

    Split-Moved :
        {old mid new : List ℕ} {p : ℕ} → Moved sz lo hi old mid → Split mid p new → Split old p new
    Split-Moved m s = record {
      from = s.from;
      before = s.before;
      moved = Moved-trans sz lo hi m s.moved;
      pivot = s.pivot;
      low = s.low;
      high = s.high;
    }

    loop_stop :
        (rounds fuel : ℕ) (buf : List ℕ) (pivot i j i' j' : ℕ)
        → scan_down sz rounds buf pivot j ≡ ok j'
        → scan_up sz rounds buf pivot i ≡ ok i'
        → leb j' i' ≡ true
        → partition_loop sz rounds (suc fuel) buf pivot i j ≡ ok (j', buf)
    unfolding partition_loop
    loop_stop rounds fuel buf pivot i j i' j' down up stop = ground arith

    loop_more :
        (rounds fuel : ℕ) (buf : List ℕ) (pivot i j i' j' : ℕ)
        → scan_down sz rounds buf pivot j ≡ ok j'
        → scan_up sz rounds buf pivot i ≡ ok i'
        → leb j' i' ≡ false
        → partition_loop sz rounds (suc fuel) buf pivot i j
          ≡ partition_loop sz rounds fuel (xor_exchange sz buf i' j') pivot (i' + 1) j'
    unfolding partition_loop
    loop_more rounds fuel buf pivot i j i' j' down up more = ground arith

    exchange-Moved :
        (buf : List ℕ) (i j : ℕ)
        → sz ≤ length buf
        → lo ≤ i
        → i < j
        → j ≤ hi
        → Moved sz lo hi buf (xor_exchange sz buf i j)
    exchange-Moved buf i j fits li ij jh =
        rw
          (exchange-swapped sz buf i j (omega arith) (omega arith)
            (cells_apart sz i j ij (omega arith)))
          (swapped-Moved sz lo hi buf i j pos fits near li ij jh)

    partition_loop-Split :
        (rounds fuel : ℕ) (buf : List ℕ) (pivot i j a b : ℕ)
        → hi - lo + 2 ≤ rounds
        → j < lo + fuel
        → sz ≤ length buf
        → Between buf pivot i j a b
        → (p : ℕ) × (new : List ℕ) × (partition_loop sz rounds fuel buf pivot i j ≡ ok (p, new))
          × Split buf p new
    partition_loop-Split rounds zero buf pivot i j a b enough room fits v =
        absurd (omega (arith, v.a_from, v.a_below))
    partition_loop-Split rounds (suc fuel) buf pivot i j a b enough room fits v =
        let (j', down, d) =
          scan_down-Down sz rounds buf pivot j a v.a_below v.a_low
            (omega (arith, v.j_to, v.a_from)) in
        let (i', up, u) =
          scan_up-Up sz rounds buf pivot i b v.b_above v.b_high (omega (arith, v.b_to, v.i_from)) in
        elim (Bool-cases (leb j' i')) [
          | inl stop ↦ (
            j',
            buf,
            loop_stop rounds fuel buf pivot i j i' j' down up stop,
            Split-here buf pivot i j a b i' j' v d u (leb→le j' i' stop),
          )
          | inr more ↦
              let lt : i' < j' = ground arith in
              let m =
                exchange-Moved buf i' j' fits (omega (arith, v.i_from, u.above)) lt
                  (omega (arith, v.j_to, d.below)) in
              let (p, new, run, s) =
                partition_loop-Split rounds fuel (xor_exchange sz buf i' j') pivot (i' + 1) j' i' j'
                  enough (omega (arith, d.below)) (rw m.same_length fits)
                  (Between-exchange buf pivot i j a b i' j' fits v d u lt) in
              (
                p,
                new,
                loop_more rounds fuel buf pivot i j i' j' down up more ∙ run,
                Split-Moved m s,
              )
        ]

    -- `partition_pgs` on a window of at least two entries returns a place and the window split there.
    pub partition_pgs-Split :
        (buf : List ℕ)
        → lo < hi
        → sz ≤ length buf
        → (p : ℕ) × (new : List ℕ) × (partition_pgs sz buf lo hi ≡ ok (p, new)) × Split buf p new
    unfolding partition_pgs
    partition_pgs-Split buf lt fits =
        partition_loop-Split (hi - lo + 2) (hi - lo + 2) buf (key sz buf mid) lo (hi + 1) mid mid
          (omega arith) (omega arith) fits
          (record {
            i_from = omega arith;
            j_to = omega arith;
            a_from = omega arith;
            a_below = omega arith;
            a_low = omega arith;
            b_above = omega arith;
            b_to = omega arith;
            b_high = omega arith;
            inner = inr (omega arith);
            low = λ k p q. absurd (omega arith);
            high = λ k p q. absurd (omega arith);
          })
      where
        mid : ℕ
        mid = (lo + hi) / 2
