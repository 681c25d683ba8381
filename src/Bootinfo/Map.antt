-- ===== src/Bootinfo/Map.antt =====
-- The memory map that kernel/src/bootinfo.c stores: what is left of each entry.
use cardinal.Base.{
  ℕ, ◌+◌, ◌-◌, ◌^◌, ◌≤◌, ◌<◌, ◌≡◌, ◌≢◌, inl, inr, refl, ◌∙◌, ap, ◌==◌, ltb, leb, true, false,
  Option, none, some, List, [], ◌∷◌, if◌then◌else◌, u64, sub64, mib, Bool-cases, arith,
}
use cardinal.Bootinfo.{Region, reserve_low, split_before, reserve_to, reserve_kernel, trim}

module _ (start end : ℕ) where
  -- An entry from 2 MiB on: before the start of the kernel, from there to its end, and after it.
  abbrev pub Cut : Region → Type 0
  Cut r =
      (r.addr < start → trim start end r ≡ r ∷ [])
      × (start ≤ r.addr
          → r.addr ≤ end
          → trim start end r ≡ (
              if leb r.len (end - r.addr)
              then []
              else record r { addr = end; len = r.len - (end - r.addr) } ∷ []))
      × (start ≤ r.addr → end < r.addr → trim start end r ≡ [])

  reserve_low-high : (r : Region) → mib 2 ≤ r.addr → reserve_low r ≡ some r
  unfolding reserve_low
  reserve_low-high r high = ground arith

  pub kernel_before : (r : Region) → r.addr < start → reserve_kernel start end r ≡ ([], some r)
  unfolding reserve_kernel
  kernel_before r lt =
      let e : leb start r.addr ≡ false = ground arith in rw (reserve_kernel, e) refl

  pub kernel_from :
      (r : Region) → start ≤ r.addr → reserve_kernel start end r ≡ ([], reserve_to end r)
  unfolding reserve_kernel split_before
  kernel_from r le =
      let e : leb start r.addr ≡ true = ground arith in
      let d : ltb r.addr start ≡ false = ground arith in
      rw (reserve_kernel, e, split_before, d) refl

  -- What `trim` makes of the rest of an entry.
  abbrev pub kept : Option Region → List Region
  kept none = []
  kept (some r) = if r.len == 0 then [] else r ∷ []

  pub trim-kept :
      (r r1 : Region) (rest : Option Region)
      → reserve_low r ≡ some r1
      → reserve_kernel start end r1 ≡ ([], rest)
      → trim start end r ≡ kept rest
  unfolding trim
  trim-kept r r1 none low kernel = rw (trim, low, kernel, kernel) refl
  trim-kept r r1 (some r2) low kernel = rw (trim, low, kernel, kernel) refl

  kept-some : (r : Region) → r.len ≢ 0 → kept (some r) ≡ r ∷ []
  kept-some r ne = let z : (r.len == 0) ≡ false = ground arith in rw z refl

  -- From inside the kernel on: what lies behind its end.
  reserve_to-inside :
      (r : Region)
      → r.addr ≤ end
      → end < 2 ^ 64
      → r.len < 2 ^ 64
      → kept (reserve_to end r) ≡ (
          if leb r.len (end - r.addr)
          then []
          else record r { addr = end; len = r.len - (end - r.addr) } ∷ [])
  unfolding reserve_to
  reserve_to-inside r le small word =
      let diff : sub64 end r.addr ≡ end - r.addr = omega arith in
      elim (Bool-cases (leb r.len (end - r.addr))) [
        | inl all ↦ rw (reserve_to, diff, all) refl
        | inr some_left ↦
            let lt : end - r.addr < r.len = ground arith in
            let at : u64 (r.addr + (end - r.addr)) ≡ end = omega arith in
            let rest : sub64 r.len (end - r.addr) ≡ r.len - (end - r.addr) = omega arith in
            rw (reserve_to, diff, some_left, at, rest)
              (kept-some (record r { addr = end; len = r.len - (end - r.addr) }) (omega arith))
      ]

  -- Above the kernel the difference wraps.
  reserve_to-above : (r : Region) → end < r.addr → r.addr + r.len ≤ 2 ^ 64 → reserve_to end r ≡ none
  unfolding reserve_to
  reserve_to-above r lt ends =
      let all : leb r.len (sub64 end r.addr) ≡ true = ground arith in rw (reserve_to, all) refl

  -- What becomes of an entry from 2 MiB on that does not wrap round: one that starts before the kernel
  -- is kept whole, even if it holds the kernel; one that starts in the kernel is kept from its end on;
  -- one that starts behind the kernel is dropped.
  pub trim-Cut :
      (r : Region) → mib 2 ≤ r.addr → r.len ≢ 0 → r.addr + r.len ≤ 2 ^ 64 → end < 2 ^ 64 → Cut r
  trim-Cut r high ne ends small = (
    λ lt. trim-kept r r (some r) (reserve_low-high r high) (kernel_before r lt) ∙ kept-some r ne,
    λ le inside.
        trim-kept r r (reserve_to end r) (reserve_low-high r high) (kernel_from r le)
        ∙ reserve_to-inside r inside small (omega arith),
    λ le above.
        trim-kept r r (reserve_to end r) (reserve_low-high r high) (kernel_from r le)
        ∙ ap kept (reserve_to-above r above ends),
  )
