-- ===== src/Vmem/Tests.antt =====
-- The theorems about the page tables at concrete tables.
use mathlib.Core.Option.{some-injective}
use cardinal.Base.{
  ℕ, zero, suc, ◌+◌, ◌-◌, ◌*◌, ◌%◌, ◌^◌, ◌≤◌, ◌<◌, ◌≡◌, ◌≢◌, refl, ◌==◌, false, ◌&&◌, [], ◌∷◌, none,
  some, mib, ok, arith, ◌>>=◌,
}
use cardinal.Queue.Holds.{Holds}
use cardinal.Pagealloc.{Allocator}
use cardinal.Pagealloc.Entry.{get_addr, get_pg_cnt}
use cardinal.Pagealloc.TakeEntry.{IsBlock}
use cardinal.Vmem.{
  kernel_root, user_root, page, same_table, Config, Entries, table_at, vmem_phystovirt, index,
  level_size,
}
use cardinal.Vmem.Walk.{vmem_virttophys_st}
use cardinal.Vmem.Run.{InTable}
use cardinal.Vmem.Chain.{Gives, empty-Chain}
use cardinal.Vmem.Steps.{avail}
use cardinal.Vmem.Active.{Translated, vmem_map-kernel}
use cardinal.Vmem.Supply.{allocator, pages-apart, pages-Supply, vmem_create-map}
use cardinal.Vmem.Switch.{Unlocked, vmem_setactive-translates, vmem_setactive-twice}
use cardinal.Cpuid.{CpuId}
use cardinal.Vmem.Init.{Control, setup_control, vmem_mp_init, vmem_mp_init-translates}
use cardinal.Vmem.Calls.{Vmem, vmem_create, vmem_setactive, vmem_virttophys}

abbrev cfg : Config
cfg = record { huge = false; phys_map_sz = 2 ^ 38 }

-- 8 pages from page 16 on.
abbrev block : ℕ
block = 16 * 2 ^ 20 + 7

abbrev pages : Allocator
pages = record {
  queue = record {
    buf = block ∷ 0 ∷ 0 ∷ [];
    size = 3;
    ent_cnt = 1;
    head = 0;
    tail = 1;
    has_free = false;
  };
  mem_size = 0;
  free_mem = 32768;
  data_multiple = 1;
  instr_multiple = 1;
  pagetable_multiple = 1;
}

pages-Holds : Holds 2 pages.queue (block ∷ [])
pages-Holds = record { valid = omega arith; shows = refl; room = refl }

block-IsBlock : IsBlock block
unfolding get_addr get_pg_cnt
block-IsBlock = record { word = omega arith; ends = omega arith }

block_value : (get_addr block ≡ 65536) × (get_pg_cnt block ≡ 8)
unfolding get_addr get_pg_cnt
block_value = (refl, refl)

abbrev tables : Entries
tables kernel_root i = 0
tables (user_root v) i = 4096 * i + 1
tables (page a) i = 0

-- Space 1 is active; its table has entries, that of the processor has none.
abbrev state : Vmem allocator
state = record {
  space = record { entries = tables; source = pages };
  kernel_lock = 0;
  kernel_flags = 0;
  locks = λ v. 0;
  flags = λ v. 0;
  ktable = 4096;
  cur_vmem = some 1;
}

ktable-there : table_at cfg 4096 ≡ ok (page 4096)
unfolding table_at vmem_phystovirt
ktable-there = refl

two_pages : InTable 3 (mib 4) 2
unfolding index
two_pages = record { level = omega arith; aligned = refl; room = omega arith }

two_kernel_pages : InTable 3 (2 ^ 64 - mib 4) 2
unfolding index
two_kernel_pages = record { level = omega arith; aligned = refl; room = omega arith }

no_larger : (lv : ℕ) → lv < 3 → ((2 * level_size 3) % level_size lv == 0 && avail cfg lv) ≡ false
no_larger zero lt = refl
no_larger (suc zero) lt = refl
no_larger (suc (suc zero)) lt = refl
no_larger (suc (suc (suc lv))) lt = absurd (omega arith)

vmem_create-map_example :
    Translated allocator cfg 9
      (mib 4)
      2
      3
      (mib 2)
      two_pages
      (omega arith)
      refl
      (omega arith)
      refl
      no_larger
      (vmem_create allocator cfg (some 2) state).1
      2
      (some 2)
vmem_create-map_example =
    vmem_create-map cfg 9 (mib 4) 2 3 (mib 2) two_pages (omega arith) refl (omega arith) refl
      no_larger (omega arith) state 2 block [] pages-Holds block-IsBlock
      (omega (arith, block_value)) (omega (arith, block_value)) (omega (arith, block_value))

-- No page of the block is the table of the processor.
apart : (k : ℕ) → k < 3 → get_addr block + k * 4096 ≢ 4096
apart k lt e = omega (arith, block_value, e)

vmem_map-kernel_example :
    Translated allocator cfg 9
      (2 ^ 64 - mib 4)
      2
      3
      (mib 2)
      two_kernel_pages
      (omega arith)
      refl
      (omega arith)
      refl
      no_larger
      state
      1
      none
unfolding same_table
vmem_map-kernel_example =
    vmem_map-kernel allocator cfg 9 (2 ^ 64 - mib 4) 2 3 (mib 2) two_kernel_pages (omega arith) refl
      (omega arith) refl no_larger state 1 (omega arith) (omega arith) refl ktable-there
      (empty-Chain allocator cfg (2 ^ 64 - mib 4) 2 3 0 kernel_root (page 4096 ∷ []) tables pages
        (refl, tt) (λ i. refl)
        (pages-Supply cfg 3 (kernel_root ∷ page 4096 ∷ []) pages block [] pages-Holds block-IsBlock
          (omega (arith, block_value)) (omega (arith, block_value)) (omega (arith, block_value))
          (λ k lt. (refl, (pages-apart (apart k lt), tt)))))

unlocked : Unlocked allocator cfg state ktable-there
unlocked = (λ v e. refl, refl)

vmem_setactive-translates_example :
    (s' : Vmem allocator) × (vmem_setactive allocator cfg 2 state ≡ ok s')
    × (s'.cur_vmem ≡ some 2)
    × ((v : ℕ)
        → v < 2 ^ 47
        → (vmem_virttophys_st cfg 4 0 s'.space.entries (page s'.ktable) v >>= λ phys.
            ok (some phys))
          ≡ vmem_virttophys allocator cfg (some 2) v s')
    × ((i : ℕ)
        → i < 256
        → s'.space.entries (page s'.ktable) i ≡ state.space.entries (user_root 2) i)
    × ((i : ℕ)
        → 256 ≤ i
        → s'.space.entries (page s'.ktable) i ≡ state.space.entries (page state.ktable) i)
vmem_setactive-translates_example =
    vmem_setactive-translates allocator cfg state ktable-there 2 unlocked refl

vmem_setactive-twice_example :
    (s' : Vmem allocator) × ((vmem_setactive allocator cfg 2 state
        >>= vmem_setactive allocator cfg 3)
      ≡ ok s')
    × (s'.cur_vmem ≡ some 3)
    × ((i : ℕ) → i < 256 → s'.space.entries (user_root 2) i ≡ state.space.entries (user_root 2) i)
vmem_setactive-twice_example =
    vmem_setactive-twice allocator cfg state ktable-there 2 3 unlocked refl refl
      (λ e. let h = some-injective 1 2 e in omega (arith, h))

-- A processor without any of the features.
abbrev no_features : ℕ → ℕ → CpuId
no_features leaf subleaf = record { eax = 0; ebx = 0; ecx = 0; edx = 0 }

abbrev control : Control
control = record { efer = 0; pat = 0; cr3 = 0; cr4 = 0 }

taken : (a : ℕ) × (source : Allocator) × Gives allocator cfg [] pages a source
taken =
    let (a, source, g, rest) =
      pages-Supply cfg 1 [] pages block [] pages-Holds block-IsBlock (omega (arith, block_value))
        (omega (arith, block_value)) (omega (arith, block_value)) (λ k lt. tt) in
    (a, source, g)

vmem_mp_init-translates_example :
    (c' : Control) × (cfg' : Config) × (s' : Vmem allocator) × (vmem_mp_init allocator no_features
        control cfg state
      ≡ ok (c', (cfg', s')))
    × (c'.cr3 ≡ s'.ktable)
    × ((v : ℕ)
        → 2 ^ 64 - 2 ^ 47 ≤ v
        → v < 2 ^ 64
        → vmem_virttophys_st cfg' 4 0 s'.space.entries (page c'.cr3) v
          ≡ vmem_virttophys_st cfg' 4 0 s'.space.entries kernel_root v)
    × ((i : ℕ) → i < 256 → s'.space.entries (page c'.cr3) i ≡ 0)
    × ((i : ℕ)
        → 256 ≤ i
        → i < 512
        → s'.space.entries (page c'.cr3) i ≡ state.space.entries kernel_root i)
    × ((i : ℕ) → s'.space.entries kernel_root i ≡ state.space.entries kernel_root i)
unfolding setup_control
vmem_mp_init-translates_example =
    vmem_mp_init-translates allocator no_features control cfg state taken.0 taken.1 refl taken.2.run
      taken.2.mapped
