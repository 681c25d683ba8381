-- ===== src/Boot/Reserved.antt =====
-- The pages that are free once the page allocator is set up: none of the kernel's memory.
use cardinal.Base.{
  ℕ, zero, suc, ◌+◌, ◌*◌, ◌/◌, ◌^◌, ◌≤◌, ◌<◌, ◌≡◌, ◌≢◌, refl, sym, ◌∙◌, ap, ◌==◌, false,
  if◌then◌else◌, some, none, List, [], ◌∷◌, All, length, get_or, mib, ok, ok->>=, arith,
}
use cardinal.Bootstrap.{Area, bootstrap_malloc}
use cardinal.Stdlib.{update_malloc_free_hooks, no_hooks, malloc, get_free_hook}
use cardinal.Bootinfo.{BootInfo, Region, available, magic_value, bootinfo_parse_and_store}
use cardinal.Bootinfo.Loop.{Usable}
use cardinal.Bootinfo.Stored.{bootinfo_parse_and_store-IsStored}
use cardinal.Queue.Refine.{contents}
use cardinal.Pagealloc.{Allocator}
use cardinal.Pagealloc.Coverage.{free_at}
use cardinal.Pagealloc.Init.{
  map_entry, region_at, mapped_at, blocks, BelowEnd, entries_of, pagealloc_init,
  pagealloc_init-frees,
}
use cardinal.Boot.{Machine, Booted, bootstrap_hook, queue_bytes, setup_memory}

module _ (start end p : ℕ) (low : start ≤ mib 2) (below : p * 4096 < end) where
  region_at-Usable : (r : Region) → Usable start end r → region_at r p ≡ 0
  region_at-Usable r u =
      let behind : end ≤ r.addr = u.outside (omega (arith, u.low)) in ground (arith, behind)

  get_or-reserved :
      (rs : List Region) (i : ℕ) (d : Region)
      → All (Usable start end) rs
      → region_at d p ≡ 0
      → region_at (get_or rs i d) p ≡ 0
  get_or-reserved [] i d all e = e
  get_or-reserved (r ∷ rs) zero d all e = region_at-Usable r all.0
  get_or-reserved (r ∷ rs) (suc i) d all e = get_or-reserved rs i d all.1 e

  mapped_at-reserved :
      (left : ℕ) (bi : BootInfo) (stale : ℕ → Region) (i : ℕ)
      → All (Usable start end) bi.mmap
      → ((j : ℕ) → (stale j).kind ≢ available)
      → mapped_at left (map_entry bi stale) i p ≡ 0
  mapped_at-reserved zero bi stale i all unset = refl
  mapped_at-reserved (suc left) bi stale i all unset =
      let absent : ((stale i).kind == available) ≡ false = ground (arith, unset i) in
      let here = get_or-reserved bi.mmap i (stale i) all (rw absent refl) in
      omega (arith, here, mapped_at-reserved left bi stale (i + 1) all unset)

-- The calls, where each of them succeeds.
setup_memory-run :
    (m : Machine) (param : ℕ) (area area1 area2 : Area) (bi : BootInfo) (block : ℕ)
    (pages pages' : Allocator)
    → bootinfo_parse_and_store m.kernel_start m.kernel_end m.mem param magic_value area
      ≡ ok (some (bi, area1))
    → bootstrap_malloc (queue_bytes bi) area1 ≡ ok (some block, area2)
    → pagealloc_init
        (some (λ n. if m.base + block == 0 then none else some (m.contents (m.base + block) n)))
        false
        bi
        m.stale
        pages
      ≡ ok pages'
    → setup_memory m param magic_value area pages
      ≡ ok (record {
        hooks = update_malloc_free_hooks (some (bootstrap_hook m.base)) none no_hooks;
        info = bi;
        area = area2;
        pages = pages';
      })
unfolding setup_memory malloc update_malloc_free_hooks get_free_hook bootstrap_hook
setup_memory-run m param area area1 area2 bi block pages pages' parse got run =
    ok->>= _ parse ∙ ok->>= _ (ok->>= _ got) ∙ ok->>= _ run

queue_bytes_eq :
    (bi : BootInfo) → bi.mem_sz ≤ 2 ^ 42 → queue_bytes bi ≡ ((bi.mem_sz + 4095) / 4096 / 2 + 1) * 8
unfolding queue_bytes
queue_bytes_eq bi small = ap (λ (n : ℕ). n * 8) (entries_of bi.mem_sz small)

-- For a kernel that starts at 2 MiB or below and ends above, a header that is read to its end, and a memory map
-- below 2^56 whose unwritten entries are of no available kind: where the allocator of early boot has the memory
-- for the queue, and the queue room for the blocks of the entries, the calls up to `pagealloc_init` return. Then
-- no page that starts below the end of the kernel is free, and another one is free as many times as it lies
-- in an available entry of the stored map.
pub setup_memory-reserved :
    (m : Machine) (param : ℕ) (area area1 area2 : Area) (bi : BootInfo) (block : ℕ)
    (pages : Allocator)
    → m.kernel_start ≤ mib 2
    → mib 2 ≤ m.kernel_end
    → m.kernel_end < 2 ^ 64
    → 0 < m.base
    → ((i : ℕ) → (m.stale i).kind ≢ available)
    → bootinfo_parse_and_store m.kernel_start m.kernel_end m.mem param magic_value area
      ≡ ok (some (bi, area1))
    → bootstrap_malloc (queue_bytes bi) area1 ≡ ok (some block, area2)
    → bi.mem_sz ≤ 2 ^ 42
    → (bi.mem_sz + 4095) / 4096 / 2 + 1 ≤ length (m.contents (m.base + block) (queue_bytes bi))
    → BelowEnd (map_entry bi m.stale)
    → blocks bi.mmap_cnt (map_entry bi m.stale) 0 ≤ (bi.mem_sz + 4095) / 4096 / 2
    → (b : Booted) × (setup_memory m param magic_value area pages ≡ ok b)
      × ((p : ℕ) → p * 4096 < m.kernel_end → free_at (contents b.pages.queue) p ≡ 0)
      × ((p : ℕ)
          → free_at (contents b.pages.queue) p ≡ mapped_at bi.mmap_cnt (map_entry bi m.stale) 0 p)
setup_memory-reserved m param area area1 area2 bi block pages low high word placed unset parse got
      small room bound fits =
    let all =
      bootinfo_parse_and_store-IsStored m.kernel_start m.kernel_end high word m.mem param
        magic_value area area1 bi parse in
    let (pages', run, free) =
      pagealloc_init-frees
        (λ n. if m.base + block == 0 then none else some (m.contents (m.base + block) n)) false bi
        m.stale pages (m.contents (m.base + block) (queue_bytes bi)) small storage room bound
        fits in
    (
      _,
      setup_memory-run m param area area1 area2 bi block pages pages' parse got run,
      λ p below.
          free p
          ∙ mapped_at-reserved m.kernel_start m.kernel_end p low below bi.mmap_cnt bi m.stale 0 all
              unset,
      free,
    )
  where
    storage :
        (if m.base + block == 0
          then none
          else some (m.contents (m.base + block) (((bi.mem_sz + 4095) / 4096 / 2 + 1) * 8)))
        ≡ some (m.contents (m.base + block) (queue_bytes bi))
    storage =
        let at : (m.base + block == 0) ≡ false = ground arith in
        rw at (ap (λ (n : ℕ). some (m.contents (m.base + block) n)) (sym (queue_bytes_eq bi small)))
