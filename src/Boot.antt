-- ===== src/Boot.antt =====
-- kernel/src/main.c: the calls at the start of the kernel, each on what the others have left.
pub mod Reserved
mod Tests
use cardinal.Base.{
  ℕ, ◌+◌, ◌*◌, ◌/◌, ◌^◌, ◌==◌, true, false, if◌then◌else◌, Option, none, some, List, u32, Outcome,
  ok, ◌>>=◌,
}
use cardinal.Memory.{Memory}
use cardinal.Bootstrap.{Area, bootstrap_malloc}
use cardinal.Stdlib.{
  Hooks, no_hooks, update_malloc_free_hooks, get_malloc_hook, get_free_hook, malloc,
}
use cardinal.Bootinfo.{BootInfo, no_info, Region, magic_value, bootinfo_parse_and_store}
use cardinal.Pagealloc.{Allocator}
use cardinal.Pagealloc.Entry.{round_up_po2, btm_level}
use cardinal.Pagealloc.Init.{queue_entries, pagealloc_init}
use cardinal.Mp.{Cores, tls_size, mp_tls_setup, mp_tls_alloc, mp_tls_get}
use cardinal.Cpuid.{CpuId}
use cardinal.Vmem.{Config}
use cardinal.Vmem.Calls.{Vmem}
use cardinal.Vmem.Init.{Control, vmem_init}
use cardinal.Vmem.Supply.{allocator}

-- What the linker and the hardware give. `base` is the address of the area of early boot, `contents` what
-- the memory at an address holds, as 64-bit words of a number of bytes, and `stale` the entries of the memory
-- map that are not written.
pub record Machine : Type 0 where
  pub kernel_start : ℕ
  pub kernel_end : ℕ
  pub base : ℕ
  pub mem : Memory
  pub contents : ℕ → ℕ → List ℕ
  pub stale : ℕ → Region
  pub cpuid : ℕ → ℕ → CpuId

-- `bootstrap_malloc` as a hook: a block by its address.
unfoldable pub bootstrap_hook : ℕ → ℕ → Area → Outcome (ℕ × Area)
bootstrap_hook base size area = bootstrap_malloc size area >>= λ (block, area').
    ok (elim block [ none ↦ 0 | some at ↦ base + at ], area')

-- What the calls have set up when the page allocator is ready.
pub record Booted : Type 0 where
  pub hooks : Hooks Area
  pub info : BootInfo
  pub area : Area
  pub pages : Allocator

-- The bytes that `pagealloc_init` asks for its queue.
unfoldable pub queue_bytes : BootInfo → ℕ
queue_bytes bi = queue_entries (u32 (round_up_po2 bi.mem_sz btm_level / btm_level)) * 8

-- The calls up to `pagealloc_init`. The memory for its queue, which it gets from the hook, is taken before
-- the call here. What `bootinfo_parse_and_store` returns is not looked at.
unfoldable pub setup_memory : Machine → ℕ → ℕ → Area → Allocator → Outcome Booted
setup_memory m param magic area pages =
    let hooks = update_malloc_free_hooks (some (bootstrap_hook m.base)) none no_hooks in
    bootinfo_parse_and_store m.kernel_start m.kernel_end m.mem param (u32 magic) area >>= λ parsed.
    let (bi, area1) = elim parsed as (λ o. BootInfo × Area) [
      | none ↦ (no_info, area)
      | some stored ↦ stored
    ] in
    malloc hooks (queue_bytes bi) area1 >>= λ (at, area2).
    pagealloc_init (some (λ n. if at == 0 then none else some (m.contents at n)))
      (elim (get_free_hook hooks) [ none ↦ false | some hook ↦ true ]) bi m.stale pages
    >>= λ pages'. ok (record { hooks = hooks; info = bi; area = area2; pages = pages' })

-- The state at the `hlt`.
pub record Running : Type 0 where
  pub booted : Booted
  pub tls : Option ℕ
  pub cores : Cores
  pub control : Control
  pub config : Config
  pub vmem : Vmem allocator

-- The size of `struct lcl_data`.
abbrev pub lcl_size : ℕ
lcl_size = 16

-- none is returned for -1. `lcl` is allocated before the call of `vmem_init` here.
unfoldable pub main :
    Machine
    → ℕ
    → ℕ
    → Area
    → Allocator
    → Cores
    → Control
    → Config
    → Vmem allocator
    → Outcome (Option Running)
main m param magic area pages cores control cfg vm = elim (magic == magic_value) [
  | false ↦ ok none
  | true ↦ setup_memory m param magic area pages >>= λ b.
      malloc b.hooks tls_size b.area >>= λ (tls, area).
      mp_tls_alloc lcl_size cores >>= λ (off, cores').
      vmem_init allocator m.cpuid control cfg
        (record vm { space = record (vm.space) { source = b.pages } })
      >>= λ (control', (cfg', vm')). ok (
          some (record {
            booted = record b { area = area; pages = vm'.space.source };
            tls = mp_tls_setup (λ n. tls);
            cores = cores';
            control = control';
            config = cfg';
            vmem = vm';
          }))
]
