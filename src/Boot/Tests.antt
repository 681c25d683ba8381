-- ===== src/Boot/Tests.antt =====
-- The start of a kernel between 2 and 3 MiB, on a map of 8 MiB.
use cardinal.Base.{
  ℕ, zero, suc, ◌+◌, ◌*◌, ◌/◌, ◌<◌, ◌≤◌, ◌≡◌, refl, List, [], ◌∷◌, ◌++◌, some, false, get_or,
  replicate, length, length-replicate, mib, ok, arith,
}
use cardinal.Bootstrap.{Area, bootstrap_malloc, round16, locked}
use cardinal.Bootinfo.{
  BootInfo, no_info, Region, magic_value, mmap_loop, read_bytes, trim, bootinfo_parse_and_store,
  reserve_low, reserve_kernel, split_before, reserve_to, tag_loop, tag_body, next_tag, mmap_tag,
}
use cardinal.Queue.Refine.{contents}
use cardinal.Pagealloc.{Allocator}
use cardinal.Pagealloc.Entry.{round_up_po2}
use cardinal.Pagealloc.Coverage.{free_at}
use cardinal.Pagealloc.Init.{queue_entries, map_entry, mapped_at, BelowEnd}
use cardinal.Boot.{Machine, Booted, setup_memory, queue_bytes}
use cardinal.Boot.Reserved.{setup_memory-reserved}

-- A header of 56 bytes, the tag of the map with 8 MiB from 1 MiB on, and the tag of the end.
abbrev header_bytes : List ℕ
header_bytes =
    (56 ∷ 0 ∷ 0 ∷ 0 ∷ 0 ∷ 0 ∷ 0 ∷ 0 ∷ 6 ∷ 0 ∷ 0 ∷ 0 ∷ 40 ∷ 0 ∷ 0 ∷ 0 ∷ 24 ∷ 0 ∷ 0 ∷ 0 ∷ 0 ∷ 0 ∷ 0
      ∷ 0 ∷ [])
    ++ (0 ∷ 0 ∷ 16 ∷ 0 ∷ 0 ∷ 0 ∷ 0 ∷ 0 ∷ 0 ∷ 0 ∷ 128 ∷ 0 ∷ 0 ∷ 0 ∷ 0 ∷ 0 ∷ 1 ∷ 0 ∷ 0 ∷ 0 ∷ 0 ∷ 0 ∷ 0
        ∷ 0 ∷ [])
    ++ 0 ∷ 0 ∷ 0 ∷ 0 ∷ 8 ∷ 0 ∷ 0 ∷ 0 ∷ []

abbrev unwritten : Region
unwritten = record { addr = 0; len = 0; kind = 0 }

abbrev words : ℕ → List ℕ
words n = replicate n 0

abbrev machine : Machine
machine = record {
  kernel_start = mib 2;
  kernel_end = mib 3;
  base = mib 2;
  mem = λ a. get_or header_bytes a 0;
  contents = λ at n. words 1025;
  stale = λ i. unwritten;
  cpuid = λ page idx. record { eax = 0; ebx = 0; ecx = 0; edx = 0 };
}

abbrev empty_area : Area
empty_area = record { pos = 0; lock = 0 }

abbrev info : BootInfo
info = record no_info {
  mem_sz = mib 8;
  mmap = record { addr = mib 3; len = mib 6; kind = 1 } ∷ [];
  mmap_cnt = 2;
}

parsed :
    bootinfo_parse_and_store (mib 2) (mib 3) machine.mem 0 magic_value empty_area
    ≡ ok (some (info, record { pos = 48; lock = 0 }))
unfolding bootinfo_parse_and_store tag_loop tag_body next_tag mmap_tag mmap_loop read_bytes trim
    reserve_low reserve_kernel split_before reserve_to bootstrap_malloc round16 locked
parsed = refl

taken :
    bootstrap_malloc (queue_bytes info) (record { pos = 48; lock = 0 })
    ≡ ok (some 48, record { pos = 8256; lock = 0 })
unfolding bootstrap_malloc round16 locked queue_bytes queue_entries round_up_po2
taken = refl

info-BelowEnd : BelowEnd (map_entry info machine.stale)
info-BelowEnd zero = omega arith
info-BelowEnd (suc i) = omega arith

abbrev no_pages : Allocator
no_pages = record {
  queue = record { buf = []; size = 0; ent_cnt = 0; head = 0; tail = 0; has_free = false };
  mem_size = 0;
  free_mem = 0;
  data_multiple = 0;
  instr_multiple = 0;
  pagetable_multiple = 0;
}

setup_memory-reserved_example :
    (b : Booted) × (setup_memory machine 0 magic_value empty_area no_pages ≡ ok b)
    × ((p : ℕ) → p * 4096 < mib 3 → free_at (contents b.pages.queue) p ≡ 0)
    × ((p : ℕ)
        → free_at (contents b.pages.queue) p ≡ mapped_at 2 (map_entry info machine.stale) 0 p)
setup_memory-reserved_example =
    setup_memory-reserved machine 0 empty_area (record { pos = 48; lock = 0 })
      (record { pos = 8256; lock = 0 }) info 48 no_pages (omega arith) (omega arith) (omega arith)
      (omega arith) (λ i e. omega arith) parsed taken (omega arith) room info-BelowEnd (omega arith)
  where
    room : (mib 8 + 4095) / 4096 / 2 + 1 ≤ length (words 1025)
    room = rw (length-replicate {A = ℕ} 1025 0) (omega arith)
