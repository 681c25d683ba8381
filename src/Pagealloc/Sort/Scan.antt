-- ===== src/Pagealloc/Sort/Scan.antt =====
-- `partition_pgs` ends, splits the window round its pivot and only moves entries.
use cardinal.Base.Bits.{xor_swap}
use cardinal.Base.{
  ℕ, zero, suc, ◌+◌, ◌-◌, ◌%◌, ◌≤◌, ◌<◌, ◌≡◌, ◌≢◌, ◌∙◌, ap, List, arith, length, get_or, set,
  length-set, get_or-set_self, get_or-set_ne, Bool-cases, inl, inr, ltb, true, false, ok, bit_xor,
  ◌==◌, ==_iff, set-set,
}
use cardinal.Pagealloc.Sort.{key, scan_down, scan_up, xor_exchange}
use cardinal.Pagealloc.Sort.Window.{swapped}

module _ (sz : ℕ) where
  -- Three exclusive ors on different cells exchange them.
  pub exchange-swapped :
      (buf : List ℕ) (i j : ℕ)
      → i % sz < length buf
      → j % sz < length buf
      → i % sz ≢ j % sz
      → xor_exchange sz buf i j ≡ swapped buf (i % sz) (j % sz)
  unfolding xor_exchange swapped
  exchange-swapped buf i j hi hj ne = ground (
    arith,
    xor_swap x y,
    length-set buf a (bit_xor x y),
    get_or-set_self buf a (bit_xor x y) 0,
    get_or-set_ne buf a b (bit_xor x y) 0,
    get_or-set_self (set buf a (bit_xor x y)) b x 0,
    get_or-set_ne (set buf a (bit_xor x y)) b a x 0,
    set-set buf a b (bit_xor x y) x y,
  )
    where
      a : ℕ
      a = i % sz

      b : ℕ
      b = j % sz

      x : ℕ
      x = get_or buf a 0

      y : ℕ
      y = get_or buf b 0

  -- The downward scan stops at the first entry that is not above the pivot.
  pub record Down (buf : List ℕ) (pivot j a : ℕ) (j' : ℕ) : Type 0 where
    pub above : a ≤ j'
    pub below : j' < j
    pub at_most : key sz buf j' ≤ pivot
    pub passed : (k : ℕ) → j' < k → k < j → pivot ≤ key sz buf k

  down_stop :
      (fuel : ℕ) (buf : List ℕ) (pivot j : ℕ)
      → ltb pivot (key sz buf (j - 1)) ≡ false
      → scan_down sz (suc fuel) buf pivot j ≡ ok (j - 1)
  unfolding scan_down
  down_stop fuel buf pivot j h = ground arith

  down_more :
      (fuel : ℕ) (buf : List ℕ) (pivot j : ℕ)
      → ltb pivot (key sz buf (j - 1)) ≡ true
      → scan_down sz (suc fuel) buf pivot j ≡ scan_down sz fuel buf pivot (j - 1)
  unfolding scan_down
  down_more fuel buf pivot j h = ground arith

  -- One more entry passed.
  Down-pred :
      (buf : List ℕ) (pivot j a j' : ℕ)
      → pivot ≤ key sz buf (j - 1)
      → Down buf pivot (j - 1) a j'
      → Down buf pivot j a j'
  Down-pred buf pivot j a j' high d = record {
    above = d.above;
    below = omega (arith, d.below);
    at_most = d.at_most;
    passed = λ k p q. elim (Bool-cases (k == (j - 1))) [
      | inl e ↦ rw ((==_iff k (j - 1)).0 e) high
      | inr ne ↦ d.passed k p (ground arith)
    ];
  }

  pub scan_down-Down :
      (fuel : ℕ) (buf : List ℕ) (pivot j a : ℕ)
      → a < j
      → key sz buf a ≤ pivot
      → j ≤ a + fuel
      → (j' : ℕ) × (scan_down sz fuel buf pivot j ≡ ok j') × Down buf pivot j a j'
  scan_down-Down zero buf pivot j a lt le room = absurd (omega arith)
  scan_down-Down (suc fuel) buf pivot j a lt le room =
      elim (Bool-cases (ltb pivot (key sz buf (j - 1)))) [
        | inr stop ↦ (
          j - 1,
          down_stop fuel buf pivot j stop,
          record {
            above = omega arith;
            below = omega arith;
            at_most = ground arith;
            passed = λ k p q. absurd (omega arith);
          },
        )
        | inl more ↦
            let (j', run, d) =
              scan_down-Down fuel buf pivot (j - 1) a (further more) le (omega arith) in
            (j', down_more fuel buf pivot j more ∙ run, Down-pred buf pivot j a j' (ground arith) d)
      ]
    where
      further : ltb pivot (key sz buf (j - 1)) ≡ true → a < j - 1
      further more = ground (arith, ap (key sz buf) {x = a} {y = j - 1})

  -- The upward scan stops at the first entry that is not below the pivot.
  pub record Up (buf : List ℕ) (pivot i b : ℕ) (i' : ℕ) : Type 0 where
    pub above : i ≤ i'
    pub below : i' ≤ b
    pub at_least : pivot ≤ key sz buf i'
    pub passed : (k : ℕ) → i ≤ k → k < i' → key sz buf k ≤ pivot

  up_stop :
      (fuel : ℕ) (buf : List ℕ) (pivot i : ℕ)
      → ltb (key sz buf i) pivot ≡ false
      → scan_up sz (suc fuel) buf pivot i ≡ ok i
  unfolding scan_up
  up_stop fuel buf pivot i h = ground arith

  up_more :
      (fuel : ℕ) (buf : List ℕ) (pivot i : ℕ)
      → ltb (key sz buf i) pivot ≡ true
      → scan_up sz (suc fuel) buf pivot i ≡ scan_up sz fuel buf pivot (i + 1)
  unfolding scan_up
  up_more fuel buf pivot i h = ground arith

  Up-pred :
      (buf : List ℕ) (pivot i b i' : ℕ)
      → key sz buf i ≤ pivot
      → Up buf pivot (i + 1) b i'
      → Up buf pivot i b i'
  Up-pred buf pivot i b i' low u = record {
    above = omega (arith, u.above);
    below = u.below;
    at_least = u.at_least;
    passed = λ k p q. elim (Bool-cases (k == i)) [
      | inl e ↦ rw ((==_iff k i).0 e) low
      | inr ne ↦ u.passed k (ground arith) q
    ];
  }

  pub scan_up-Up :
      (fuel : ℕ) (buf : List ℕ) (pivot i b : ℕ)
      → i ≤ b
      → pivot ≤ key sz buf b
      → b < i + fuel
      → (i' : ℕ) × (scan_up sz fuel buf pivot i ≡ ok i') × Up buf pivot i b i'
  scan_up-Up zero buf pivot i b le high room = absurd (omega arith)
  scan_up-Up (suc fuel) buf pivot i b le high room = elim (Bool-cases (ltb (key sz buf i) pivot)) [
    | inr stop ↦ (
      i,
      up_stop fuel buf pivot i stop,
      record {
        above = omega arith;
        below = le;
        at_least = ground arith;
        passed = λ k p q. absurd (omega arith);
      },
    )
    | inl more ↦
        let (i', run, u) = scan_up-Up fuel buf pivot (i + 1) b (further more) high (omega arith) in
        (i', up_more fuel buf pivot i more ∙ run, Up-pred buf pivot i b i' (ground arith) u)
  ]
    where
      further : ltb (key sz buf i) pivot ≡ true → i + 1 ≤ b
      further more = ground (arith, ap (key sz buf) {x = b} {y = i})
