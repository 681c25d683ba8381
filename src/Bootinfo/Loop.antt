-- ===== src/Bootinfo/Loop.antt =====
-- The loop of kernel/src/bootinfo.c over the memory map of the boot loader.
use mathlib.Core.Option.{some-injective}
use cardinal.Base.{
  ℕ, zero, suc, ◌+◌, ◌*◌, ◌^◌, ◌≤◌, ◌<◌, ◌≡◌, ◌≢◌, inl, inr, refl, ap, ◌==◌, ltb, leb, true, false,
  Option, none, some, List, [], ◌++◌, if◌then◌else◌, All, All-append, length, length-append, u32,
  u64, sub64, mib, ok, ok->>=, Bool-cases, Option-cases, arith,
}
use cardinal.Memory.{Memory}
use cardinal.Bootinfo.{
  Region, available, reserve_low, reserve_to, trim, read_bytes, read64, read_region, mmap_loop,
}
use cardinal.Bootinfo.Map.{kernel_before, kernel_from, kept, trim-kept}

-- A region of memory that is not reserved by its start.
pub record Usable (start end : ℕ) (r : Region) : Type 0 where
  pub low : mib 2 ≤ r.addr
  pub outside : start ≤ r.addr → end ≤ r.addr
  pub some_bytes : r.len ≢ 0

pub read8-lt : (mem : Memory) (p : ℕ) → read64 mem p < 2 ^ 64
unfolding read_bytes
read8-lt mem p = omega arith

module _ (start end : ℕ) (high : mib 2 ≤ end) (small : end < 2 ^ 64) where
  -- Some entries, at most one, all usable.
  abbrev pub AtMostOne : List Region → Type 0
  AtMostOne rs = All (Usable start end) rs × (length rs ≤ 1)

  kept-Usable :
      (rest : Option Region)
      → ((r : Region) → rest ≡ some r → (mib 2 ≤ r.addr) × (start ≤ r.addr → end ≤ r.addr))
      → AtMostOne (kept start end rest)
  kept-Usable none h = (tt, omega arith)
  kept-Usable (some r) h = elim (Bool-cases (r.len == 0)) [
    | inl e ↦ rw e (tt, omega arith)
    | inr e ↦
        let (low, outside) = h r refl in
        let ne : r.len ≢ 0 = ground arith in
        rw e ((record { low = low; outside = outside; some_bytes = ne }, tt), omega arith)
  ]

  -- What is left behind the kernel starts at its end.
  reserve_to-at : (r r' : Region) → r.addr < 2 ^ 64 → reserve_to end r ≡ some r' → r'.addr ≡ end
  unfolding reserve_to
  reserve_to-at r r' word e =
      let at : u64 (r.addr + sub64 end r.addr) ≡ end = omega arith in ground (arith, at)

  reserve_low-at :
      (r r1 : Region)
      → r.addr < 2 ^ 64
      → reserve_low r ≡ some r1
      → (mib 2 ≤ r1.addr) × (r1.addr < 2 ^ 64)
  unfolding reserve_low
  reserve_low-at r r1 word e = ground arith

  pub trim-Usable : (r : Region) → r.addr < 2 ^ 64 → AtMostOne (trim start end r)
  unfolding trim
  trim-Usable r word = elim (Option-cases (reserve_low r)) [
    | inl e ↦ rw (trim_none e) (tt, omega arith)
    | inr (r1, e) ↦
        let (low, word1) = reserve_low-at r r1 word e in
        elim (Bool-cases (leb start r1.addr)) [
          | inl from ↦
              let le : start ≤ r1.addr = ground arith in
              rw (trim-kept start end r r1 (reserve_to end r1) e (kernel_from start end r1 le)) (
                kept-Usable (reserve_to end r1) (λ r' e'.
                  let at = reserve_to-at r1 r' word1 e' in
                  (omega (arith, at), λ h. omega (arith, at))))
          | inr before ↦
              let lt : r1.addr < start = ground arith in
              rw (trim-kept start end r r1 (some r1) e (kernel_before start end r1 lt)) (
                kept-Usable (some r1) (λ r' e'.
                  let same = ap (λ (q : Region). q.addr) (some-injective r1 r' e') in
                  (omega (arith, same), λ h. absurd (omega (arith, same)))))
        ]
  ]
    where
      trim_none : reserve_low r ≡ none → trim start end r ≡ []
      trim_none e = rw (trim, e) refl

  mmap_loop_done :
      (rounds : ℕ) (mem : Memory) (entries size entry_size j mem_sz : ℕ)
      → size ≤ j
      → mmap_loop rounds start end mem entries size entry_size j mem_sz ≡ ok (mem_sz, [])
  unfolding mmap_loop
  mmap_loop_done zero mem entries size entry_size j mem_sz le =
      let e : ltb j size ≡ false = ground arith in rw e refl
  mmap_loop_done (suc rounds) mem entries size entry_size j mem_sz le =
      let e : ltb j size ≡ false = ground arith in rw (mmap_loop, e) refl

  mmap_loop_step :
      (rounds : ℕ) (mem : Memory) (entries size entry_size j mem_sz sz : ℕ) (regions : List Region)
      → j < size
      → mmap_loop rounds start end mem entries size entry_size (u32 (j + entry_size)) (
          if (read_region mem (entries + j)).kind == available
          then u64 (mem_sz + (read_region mem (entries + j)).len)
          else mem_sz)
        ≡ ok (sz, regions)
      → mmap_loop (suc rounds) start end mem entries size entry_size j mem_sz
        ≡ ok (sz, trim start end (read_region mem (entries + j)) ++ regions)
  unfolding mmap_loop
  mmap_loop_step rounds mem entries size entry_size j mem_sz sz regions lt rest =
      let e : ltb j size ≡ true = ground arith in rw (mmap_loop, e) (ok->>= _ rest)

  -- For entries of at least one byte, in a map whose length leaves room in 32 bits for one more, as many
  -- rounds as there are entries are enough for the loop. It returns at most one region for each entry;
  -- none of them is empty or starts below 2 MiB, and those that start behind the start of the kernel
  -- start at its end or behind it, where the kernel ends above 2 MiB.
  pub mmap_loop-Usable :
      (n rounds : ℕ) (mem : Memory) (entries size entry_size j mem_sz : ℕ)
      → n ≤ rounds
      → 0 < entry_size
      → size + entry_size ≤ 2 ^ 32
      → size ≤ j + n * entry_size
      → (sz : ℕ) × (regions : List Region) × (mmap_loop rounds start end mem entries size entry_size
            j mem_sz
          ≡ ok (sz, regions))
        × All (Usable start end) regions
        × (length regions ≤ n)
  mmap_loop-Usable zero rounds mem entries size entry_size j mem_sz fuel pos fits enough = (
    mem_sz,
    [],
    mmap_loop_done rounds mem entries size entry_size j mem_sz (omega arith),
    tt,
    omega arith,
  )
  mmap_loop-Usable (suc n) zero mem entries size entry_size j mem_sz fuel pos fits enough =
      absurd (omega arith)
  mmap_loop-Usable (suc n) (suc rounds) mem entries size entry_size j mem_sz fuel pos fits enough =
      elim (Bool-cases (ltb j size)) [
        | inr past ↦
            let le : size ≤ j = ground arith in
            (
              mem_sz,
              [],
              mmap_loop_done (suc rounds) mem entries size entry_size j mem_sz le,
              tt,
              omega arith,
            )
        | inl here ↦
            let lt : j < size = ground arith in
            let r = read_region mem (entries + j) in
            let (usable, one) = trim-Usable r (read8-lt mem (entries + j)) in
            let mul : suc n * entry_size ≡ entry_size + n * entry_size = omega arith in
            let (sz, regions, rest, all, few) =
              mmap_loop-Usable n rounds mem entries size entry_size (u32 (j + entry_size))
                (if r.kind == available then u64 (mem_sz + r.len) else mem_sz) (omega arith) pos
                fits (omega (arith, mul)) in
            (
              sz,
              trim start end r ++ regions,
              mmap_loop_step rounds mem entries size entry_size j mem_sz sz regions lt rest,
              All-append (Usable start end) (trim start end r) regions usable all,
              omega (arith, length-append (trim start end r) regions, one, few),
            )
      ]
