-- ===== src/Pagealloc/Sort.antt =====
-- `partition_pgs` and `quicksort_pgs` of kernel/src/pagealloc.c. Indices run on past `sz` and are
-- taken modulo `sz` at each access. `lo` and `hi` stay below `2 * sz`, so no `int32_t` overflows.
-- Every loop is given `hi - lo + 2` rounds.
pub mod Window
pub mod Scan
pub mod Partition
pub mod Quicksort
use cardinal.Base.{
  ℕ, zero, suc, ◌+◌, ◌-◌, ◌/◌, ◌%◌, true, false, List, ltb, leb, bit_xor, get_or, set, Outcome, ok,
  stuck, ◌>>=◌,
}
use cardinal.Pagealloc.Entry.{get_addr}

module _ (sz : ℕ) where
  -- `GET_ADDR(data[k % sz])`
  abbrev pub key : List ℕ → ℕ → ℕ
  key buf k = get_addr (get_or buf (k % sz) 0)

  -- `do j--; while (GET_ADDR(data[j % sz]) > pivot);`
  pub scan_down : ℕ → List ℕ → ℕ → ℕ → Outcome ℕ
  scan_down zero buf pivot j = stuck
  scan_down (suc fuel) buf pivot j = elim (ltb pivot (key buf (j - 1))) [
    | true ↦ scan_down fuel buf pivot (j - 1)
    | false ↦ ok (j - 1)
  ]

  -- `do i++; while (GET_ADDR(data[i % sz]) < pivot);`, given the first index to test: the `i` of
  -- the code starts one below.
  pub scan_up : ℕ → List ℕ → ℕ → ℕ → Outcome ℕ
  scan_up zero buf pivot i = stuck
  scan_up (suc fuel) buf pivot i = elim (ltb (key buf i) pivot) [
    | true ↦ scan_up fuel buf pivot (i + 1)
    | false ↦ ok i
  ]

  -- The three exclusive ors on `data[i % sz]` and `data[j % sz]`.
  pub xor_exchange : List ℕ → ℕ → ℕ → List ℕ
  xor_exchange buf i j =
      let a = i % sz in
      let b = j % sz in
      let buf1 = set buf a (bit_xor (get_or buf a 0) (get_or buf b 0)) in
      let buf2 = set buf1 b (bit_xor (get_or buf1 b 0) (get_or buf1 a 0)) in
      set buf2 a (bit_xor (get_or buf2 a 0) (get_or buf2 b 0))

  -- The outer loop, from the index that `i` tests next and from `j`.
  pub partition_loop : ℕ → ℕ → List ℕ → ℕ → ℕ → ℕ → Outcome (ℕ × List ℕ)
  unfolding scan_down scan_up xor_exchange
  partition_loop rounds zero buf pivot i j = stuck
  partition_loop rounds (suc fuel) buf pivot i j = do
    j' ← scan_down rounds buf pivot j
    i' ← scan_up rounds buf pivot i
    elim (leb j' i') [
      | true ↦ ok (j', buf)
      | false ↦ partition_loop rounds fuel (xor_exchange buf i' j') pivot (i' + 1) j'
    ]

  pub partition_pgs : List ℕ → ℕ → ℕ → Outcome (ℕ × List ℕ)
  unfolding partition_loop
  partition_pgs buf lo hi =
      partition_loop (hi - lo + 2) (hi - lo + 2) buf (key buf ((lo + hi) / 2)) lo (hi + 1)

  -- The second recursive call is the code's next round of `while (hi > lo)`.
  pub quicksort_loop : ℕ → List ℕ → ℕ → ℕ → Outcome (List ℕ)
  unfolding partition_pgs
  quicksort_loop zero buf lo hi = stuck
  quicksort_loop (suc fuel) buf lo hi = elim (ltb lo hi) [
    | false ↦ ok buf
    | true ↦ partition_pgs buf lo hi >>= λ (p, buf'). elim (ltb (hi - p) (p - lo)) [
      | true ↦ quicksort_loop fuel buf' lo p >>= λ buf2. quicksort_loop fuel buf2 (p + 1) hi
      | false ↦ quicksort_loop fuel buf' (p + 1) hi >>= λ buf2. quicksort_loop fuel buf2 lo p
    ]
  ]

  unfoldable pub quicksort_pgs : List ℕ → ℕ → ℕ → Outcome (List ℕ)
  unfolding quicksort_loop
  quicksort_pgs buf lo hi = quicksort_loop (hi - lo + 2) buf lo hi
