-- ===== src/Vmem/Init.antt =====
-- `vmem_init` and `vmem_mp_init` of kernel/src/vmem.c, once `lcl` is allocated. The results of their
-- calls of `vmem_map` are not looked at.
use cardinal.Base.{
  ℕ, ◌-◌, ◌^◌, ◌≤◌, ◌<◌, ◌≡◌, refl, leb, arith, ◌∙◌, ◌==◌, Bool, true, false, not, if◌then◌else◌,
  none, bit_and, bit_or, ◌>>◌, ◌<<◌, gib, Outcome, ok, ok->>=, ◌>>=◌,
}
use cardinal.Cpuid.{CpuId}
use cardinal.Vmem.{
  Table, Entries, same_table, kernel_root, page, clear, Config, table_at, kern_top_base,
  kern_physmap_base, kern_physmap_base_uc, flag_write, flag_exec, flag_writeback, flag_uncached,
  flag_kernel,
}
use cardinal.Vmem.Walk.{PageSource, vmem_virttophys_st}
use cardinal.Vmem.Active.{walk-root, published, copy_half-upper, copy_half-other}
use cardinal.Vmem.Fill.{same_table_self}
use cardinal.Vmem.Calls.{Vmem, copy_half, with_lock, vmem_map}

-- The registers of the processor that are set.
pub record Control : Type 0 where
  pub efer : ℕ
  pub pat : ℕ
  pub cr3 : ℕ
  pub cr4 : ℕ

abbrev bit_of : ℕ → ℕ → Bool
bit_of word n = not (bit_and (word >> n) 1 == 0)

-- Write back, write through, uncached and write complete, in this order.
abbrev pub pat_value : ℕ
pat_value = bit_or (bit_or (bit_or 6 (4 << 8)) (0 << 16)) (1 << 24)

-- The part that both functions begin with; `cpuid` is the instruction.
unfoldable pub setup_control : (ℕ → ℕ → CpuId) → Control → Config → Control × Config
setup_control cpuid c cfg =
    let smep = bit_of (cpuid 7 0).ebx 7 in
    let smap = bit_of (cpuid 7 0).ebx 20 in
    let hugepage = bit_of (cpuid 0x80000001 0).edx 26 in
    let cr4 = if smep then bit_or c.cr4 (1 << 20) else c.cr4 in
    let cr4' = if smap then bit_or cr4 (1 << 21) else cr4 in
    (
      record c { efer = bit_or c.efer (1 << 11); pat = pat_value; cr4 = cr4' },
      record cfg { huge = if hugepage then true else cfg.huge },
    )

-- A copy of the upper half leaves the lower one.
copy_half-below :
    (es : Entries) (to from : Table) (i : ℕ) → i < 256 → copy_half true es to from to i ≡ es to i
unfolding copy_half
copy_half-below es to from i lt =
    let self = same_table_self to in let b : leb 256 i ≡ false = ground arith in rw (self, b) refl

module _ (P : PageSource) where
  -- The table of the processor: allocated and cleared.
  unfoldable pub new_ktable : Config → Vmem P → Outcome (Vmem P)
  unfolding clear
  new_ktable cfg s = P.alloc s.space.source >>= λ (ktable_phys, source).
      table_at cfg ktable_phys >>= λ ktable. ok (record s {
        space = record { entries = clear s.space.entries ktable; source = source };
        ktable = ktable_phys;
        cur_vmem = none;
      })

  unfoldable pub vmem_init :
      (ℕ → ℕ → CpuId) → Control → Config → Vmem P → Outcome (Control × (Config × Vmem P))
  unfolding setup_control new_ktable clear vmem_map
  vmem_init cpuid c cfg s =
      let (c1, cfg1) = setup_control cpuid c cfg in
      new_ktable cfg1 s >>= λ s1.
      let s2 = record s1 {
        kernel_flags = flag_kernel;
        kernel_lock = 0;
        space = record (s1.space) { entries = clear s1.space.entries kernel_root };
      } in
      table_at cfg1 c1.cr3 >>= λ cur_ptable_d.
      vmem_map P cfg1 0 kern_top_base 0 (gib 2)
        (bit_or (bit_or (bit_or flag_kernel flag_write) flag_exec) flag_writeback) s2
      >>= λ (r1, s3).
          let cfg2 = record cfg1 { phys_map_sz = gib 256 } in
          vmem_map P cfg2 0 kern_physmap_base 0 (gib 256)
            (bit_or (bit_or flag_kernel flag_write) flag_writeback) s3
          >>= λ (r2, s4).
              vmem_map P cfg2 0 kern_physmap_base_uc 0 (gib 256)
                (bit_or (bit_or flag_kernel flag_write) flag_uncached) s4
              >>= λ (r3, s5). ok (record c1 { cr3 = s5.ktable }, (cfg2, s5))

  unfoldable pub vmem_mp_init :
      (ℕ → ℕ → CpuId) → Control → Config → Vmem P → Outcome (Control × (Config × Vmem P))
  unfolding setup_control new_ktable copy_half
  vmem_mp_init cpuid c cfg s =
      let (c1, cfg1) = setup_control cpuid c cfg in
      new_ktable cfg1 s >>= λ s1. with_lock s1.kernel_lock (
        ok (
          record c1 { cr3 = s1.ktable },
          (
            cfg1,
            record s1 {
              space = record (s1.space) {
                entries = copy_half true s1.space.entries (page s1.ktable) kernel_root;
              };
            },
          ),
        ))

  -- Where the lock of the kernel's half is free and a page of mapped memory can be had for the
  -- table, `vmem_mp_init` succeeds; the table that the processor then uses translates each address
  -- of the last 2^47 bytes as the kernel's half does. Its upper half has the entries that the kernel's half had before
  -- the call and still has, and its lower half is empty.
  pub vmem_mp_init-translates :
      (cpuid : ℕ → ℕ → CpuId) (c : Control) (cfg : Config) (s : Vmem P) (a : ℕ) (source : P.State)
      → s.kernel_lock ≡ 0
      → P.alloc s.space.source ≡ ok (a, source)
      → table_at (setup_control cpuid c cfg).1 a ≡ ok (page a)
      → (c' : Control) × (cfg' : Config) × (s' : Vmem P) × (vmem_mp_init cpuid c cfg s
          ≡ ok (c', (cfg', s')))
        × (c'.cr3 ≡ s'.ktable)
        × ((v : ℕ)
            → 2 ^ 64 - 2 ^ 47 ≤ v
            → v < 2 ^ 64
            → vmem_virttophys_st cfg' 4 0 s'.space.entries (page c'.cr3) v
              ≡ vmem_virttophys_st cfg' 4 0 s'.space.entries kernel_root v)
        × ((i : ℕ) → i < 256 → s'.space.entries (page c'.cr3) i ≡ 0)
        × ((i : ℕ)
            → 256 ≤ i
            → i < 512
            → s'.space.entries (page c'.cr3) i ≡ s.space.entries kernel_root i)
        × ((i : ℕ) → s'.space.entries kernel_root i ≡ s.space.entries kernel_root i)
  unfolding vmem_mp_init new_ktable same_table clear
  vmem_mp_init-translates cpuid c cfg s a source free got at =
      let es = clear s.space.entries (page a) in
      let s1 = record s {
        space = record { entries = copy_half true es (page a) kernel_root; source = source };
        ktable = a;
        cur_vmem = none;
      } in
      let (c1, cfg1) = setup_control cpuid c cfg in
      (
        record c1 { cr3 = a },
        cfg1,
        s1,
        ok->>= _ (ok->>= _ got ∙ ok->>= _ at) ∙ rw free refl,
        refl,
        λ v le lt.
            walk-root cfg1 4 0 s1.space.entries (page a) kernel_root v (published es a v le lt),
        λ i lt.
            copy_half-below es (page a) kernel_root i lt
            ∙ rw (clear, same_table_self (page a)) refl,
        λ i le lt. copy_half-upper es (page a) kernel_root i le lt,
        λ i. copy_half-other true es (page a) kernel_root kernel_root i refl,
      )
