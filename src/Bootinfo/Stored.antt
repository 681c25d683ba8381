-- ===== src/Bootinfo/Stored.antt =====
-- The memory map that `bootinfo_parse_and_store` of kernel/src/bootinfo.c stores, whatever tags there are.
use mathlib.Core.Path.{subst}
use cardinal.Base.{
  ℕ, zero, suc, ◌+◌, ◌-◌, ◌*◌, ◌/◌, ◌^◌, ◌≤◌, ◌<◌, ◌≡◌, ◌≢◌, inl, inr, refl, sym, ◌∙◌, ap, ◌==◌,
  ltb, Bool, true, false, ◌||◌, Option, none, some, List, [], ◌∷◌, if◌then◌else◌, All, All-append,
  u32, mib, Outcome, ok, panic, stuck, ◌>>=◌, Each, Bool-cases,
}
use cardinal.Memory.{Memory}
use cardinal.Bootstrap.{Area, bootstrap_malloc}
use cardinal.Bootinfo.{
  BootInfo, Region, no_info, trim, read_region, read32, mmap_loop, mmap_tag, framebuffer_tag,
  elf_tag, acpi_tag, module_tag, tag_body, tag_loop, bootinfo_parse_and_store, magic_value,
}
use cardinal.Bootinfo.Loop.{Usable, trim-Usable, read8-lt}

-- What holds of each result.
record Always {A : Type 0} (P : A → Type 0) (m : Outcome A) : Type 0 where
  each : Each P m

returned : {A : Type 0} (P : A → Type 0) {a : A} → P a → Always P (ok a)
returned P h = record { each = h }

no_result : {A : Type 0} (P : A → Type 0) → Always P stuck
no_result P = record { each = tt }

unknown : {A : Type 0} (m : Outcome A) → Always (λ (a : A). Unit {0}) m
unknown (ok a) = record { each = tt }
unknown panic = record { each = tt }
unknown stuck = record { each = tt }

-- A step, and then the next one.
and_then :
    {A B : Type 0} (P : A → Type 0) (Q : B → Type 0) (m : Outcome A) (f : A → Outcome B)
    → Always P m
    → ((a : A) → P a → Always Q (f a))
    → Always Q (m >>= f)
and_then P Q (ok a) f h g = g a h.each
and_then P Q panic f h g = record { each = tt }
and_then P Q stuck f h g = record { each = tt }

either_branch :
    {A : Type 0} (P : A → Type 0) (b : Bool) (x y : Outcome A)
    → Always P x
    → Always P y
    → Always P (if b then x else y)
either_branch P true x y h g = h
either_branch P false x y h g = g

module _ (start end : ℕ) (high : mib 2 ≤ end) (small : end < 2 ^ 64) where
  abbrev pub IsStored : BootInfo → Type 0
  IsStored bi = All (Usable start end) bi.mmap

  abbrev IsRegions : ℕ × List Region → Type 0
  IsRegions r = All (Usable start end) r.1

  mmap_loop-each :
      (rounds : ℕ) (mem : Memory) (entries size entry_size j mem_sz : ℕ)
      → Always IsRegions (mmap_loop rounds start end mem entries size entry_size j mem_sz)
  unfolding mmap_loop
  mmap_loop-each zero mem entries size entry_size j mem_sz = elim (Bool-cases (ltb j size)) [
    | inl more ↦ rw (mmap_loop, more) (no_result IsRegions)
    | inr past ↦ rw (mmap_loop, past) (returned IsRegions tt)
  ]
  mmap_loop-each (suc rounds) mem entries size entry_size j mem_sz =
      elim (Bool-cases (ltb j size)) [
        | inr past ↦ rw (mmap_loop, past) (returned IsRegions tt)
        | inl more ↦
            let r = read_region mem (entries + j) in
            rw (mmap_loop, more)
              (and_then IsRegions IsRegions _ _
                (mmap_loop-each rounds mem entries size entry_size _ _)
                (λ x all. returned IsRegions (
                  All-append (Usable start end) (trim start end r) x.1
                    (trim-Usable start end high small r (read8-lt mem (entries + j))).0 all)))
      ]

  abbrev StoredWith : {A : Type 0} → BootInfo × A → Type 0
  StoredWith r = IsStored r.0

  mmap_tag-each :
      (mem : Memory) (p : ℕ) (bi : BootInfo) (area : Area)
      → Always StoredWith (mmap_tag start end mem p bi area)
  unfolding mmap_tag
  mmap_tag-each mem p bi area =
      let size = u32 (read32 mem (p + 4) + (2 ^ 32 - 16)) in
      let entry_size = read32 mem (p + 8) in
      let entry_cnt = u32 (size / entry_size * 2) in
      elim (Bool-cases (entry_size == 0)) [
        | inl none_fits ↦ rw (mmap_tag, none_fits) (no_result StoredWith)
        | inr fits ↦
            rw (mmap_tag, fits)
              (and_then (λ (x : Option ℕ × Area). Unit {0}) StoredWith
                (bootstrap_malloc (24 * entry_cnt) area) _
                (unknown (bootstrap_malloc (24 * entry_cnt) area))
                (λ x any.
                  and_then IsRegions StoredWith
                    (mmap_loop (2 ^ 32) start end mem (p + 16) size entry_size 0 bi.mem_sz) _
                    (mmap_loop-each (2 ^ 32) mem (p + 16) size entry_size 0 bi.mem_sz)
                    (λ r all. stored x.0 r.1 r.0 entry_cnt x.1 all)))
      ]
    where
      stored :
          (o : Option ℕ) (regions : List Region) (sz cnt : ℕ) (area' : Area)
          → All (Usable start end) regions
          → Always StoredWith (elim o as (λ x. Outcome (BootInfo × Area)) [
            | none ↦ elim regions as (λ x. Outcome (BootInfo × Area)) [
              | [] ↦ ok (record bi { mem_sz = sz; mmap = []; mmap_cnt = cnt }, area')
              | r ∷ rs ↦ stuck
            ]
            | some at ↦ ok (record bi { mem_sz = sz; mmap = regions; mmap_cnt = cnt }, area')
          ])
      stored none [] sz cnt area' all = returned StoredWith tt
      stored none (r ∷ rs) sz cnt area' all = no_result StoredWith
      stored (some at) regions sz cnt area' all = returned StoredWith all

  tag_body-each :
      (mem : Memory) (src total i : ℕ) (bi : BootInfo) (area : Area)
      → IsStored bi
      → Always StoredWith (tag_body start end mem src total i bi area)
  unfolding tag_body framebuffer_tag elf_tag acpi_tag module_tag
  tag_body-each mem src total i bi area h =
      let kind = read32 mem (src + i) in
      either_branch StoredWith (kind == 6) _ _
        (and_then StoredWith StoredWith _ _ (mmap_tag-each mem (src + i) bi area)
          (λ x all. returned StoredWith all))
        (either_branch StoredWith (kind == 8) _ _ (returned StoredWith h) (
          either_branch StoredWith (kind == 9) _ _ (returned StoredWith h) (
            either_branch StoredWith (kind == 14 || kind == 15) _ _ (returned StoredWith h) (
              either_branch StoredWith (kind == 3) _ _ (returned StoredWith h) (
                either_branch StoredWith (kind == 0) _ _ (returned StoredWith h)
                  (returned StoredWith h))))))

  tag_loop-each :
      (rounds : ℕ) (mem : Memory) (src total i : ℕ) (bi : BootInfo) (area : Area)
      → IsStored bi
      → Always StoredWith (tag_loop rounds start end mem src total i bi area)
  unfolding tag_loop
  tag_loop-each zero mem src total i bi area h = elim (Bool-cases (ltb i total)) [
    | inl more ↦ rw (tag_loop, more) (no_result StoredWith)
    | inr past ↦ rw (tag_loop, past) (returned StoredWith h)
  ]
  tag_loop-each (suc rounds) mem src total i bi area h = elim (Bool-cases (ltb i total)) [
    | inr past ↦ rw (tag_loop, past) (returned StoredWith h)
    | inl more ↦
        rw (tag_loop, more)
          (and_then StoredWith StoredWith _ _ (tag_body-each mem src total i bi area h)
            (λ x all. tag_loop-each rounds mem src total _ x.0 x.1.0 all))
  ]

  -- Each region that is stored is usable.
  pub bootinfo_parse_and_store-IsStored :
      (mem : Memory) (src magic : ℕ) (area area' : Area) (bi : BootInfo)
      → bootinfo_parse_and_store start end mem src magic area ≡ ok (some (bi, area'))
      → IsStored bi
  unfolding bootinfo_parse_and_store
  bootinfo_parse_and_store-IsStored mem src magic area area' bi e =
      elim (Bool-cases (magic == magic_value)) [
        | inl right ↦
            let run : bootinfo_parse_and_store start end mem src magic area ≡ (
                tag_loop (2 ^ 32) start end mem src (read32 mem src) 8 no_info area >>= λ done.
                ok (some done)) =
              rw (bootinfo_parse_and_store, right) refl in
            from_loop _ (tag_loop-each (2 ^ 32) mem src (read32 mem src) 8 no_info area tt)
              (sym run ∙ e)
        | inr wrong ↦
            let run : bootinfo_parse_and_store start end mem src magic area ≡ ok none =
              rw (bootinfo_parse_and_store, wrong) refl in
            absurd (nothing (sym run ∙ e))
      ]
    where
      stored_info : Outcome (Option (BootInfo × Area)) → BootInfo
      stored_info (ok (some x)) = x.0
      stored_info (ok none) = no_info
      stored_info panic = no_info
      stored_info stuck = no_info

      nothing : {x : BootInfo × Area} → ok none ≢ ok (some x)
      nothing h = cc

      from_loop :
          (m : Outcome (BootInfo × Area))
          → Always StoredWith m
          → (m >>= λ done. ok (some done)) ≡ ok (some (bi, area'))
          → IsStored bi
      from_loop (ok x) h run = subst IsStored (ap stored_info run) h.each
      from_loop panic h run = absurd (let r = run in cc)
      from_loop stuck h run = absurd (let r = run in cc)
