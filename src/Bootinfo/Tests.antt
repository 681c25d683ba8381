-- ===== src/Bootinfo/Tests.antt =====
-- The memory map of a small boot loader.
use cardinal.Base.{
  ℕ, ◌≤◌, ◌≡◌, refl, List, [], ◌∷◌, ◌++◌, none, some, get_or, length, All, mib, gib, Outcome, ok,
  ◌>>=◌, arith,
}
use cardinal.Memory.{Memory}
use cardinal.Bootstrap.{bootstrap_malloc, round16, locked}
use cardinal.Bootinfo.{
  Region, trim, mmap_loop, read_bytes, bootinfo_parse_and_store, reserve_low, reserve_kernel,
  split_before, reserve_to, tag_loop, tag_body, next_tag, mmap_tag,
}
use cardinal.Bootinfo.Map.{Cut, trim-Cut}
use cardinal.Bootinfo.Loop.{Usable, mmap_loop-Usable}

-- 256 MiB from 1 MiB on.
abbrev entry_bytes : List ℕ
entry_bytes =
    0 ∷ 0 ∷ 16 ∷ 0 ∷ 0 ∷ 0 ∷ 0 ∷ 0 ∷ 0 ∷ 0 ∷ 0 ∷ 16 ∷ 0 ∷ 0 ∷ 0 ∷ 0 ∷ 1 ∷ 0 ∷ 0 ∷ 0 ∷ 0 ∷ 0 ∷ 0 ∷ 0
    ∷ []

-- A header of 56 bytes, the tag of the map and the tag of the end.
abbrev header_bytes : List ℕ
header_bytes =
    (56 ∷ 0 ∷ 0 ∷ 0 ∷ 0 ∷ 0 ∷ 0 ∷ 0 ∷ 6 ∷ 0 ∷ 0 ∷ 0 ∷ 40 ∷ 0 ∷ 0 ∷ 0 ∷ 24 ∷ 0 ∷ 0 ∷ 0 ∷ 0 ∷ 0 ∷ 0
      ∷ 0 ∷ [])
    ++ entry_bytes
    ++ 0 ∷ 0 ∷ 0 ∷ 0 ∷ 8 ∷ 0 ∷ 0 ∷ 0 ∷ []

abbrev header : Memory
header a = get_or header_bytes a 0

-- The kernel lies from 1 MiB to 3 MiB.
stored_map :
    (bootinfo_parse_and_store (mib 1) (mib 3) header 0 0x36d76289 (record { pos = 0; lock = 0 })
      >>= λ done. elim done as (λ x. Outcome (List Region)) [
        | none ↦ ok []
        | some (bi, area) ↦ ok bi.mmap
      ])
    ≡ ok (record { addr = mib 3; len = mib 254; kind = 1 } ∷ [])
unfolding bootinfo_parse_and_store tag_loop tag_body next_tag mmap_tag mmap_loop read_bytes trim
    reserve_low reserve_kernel split_before reserve_to bootstrap_malloc round16 locked
stored_map = refl

-- Memory above 4 GiB.
abbrev high_memory : Region
high_memory = record { addr = gib 4; len = gib 4; kind = 1 }

trim-Cut_example : Cut (mib 1) (mib 3) high_memory
trim-Cut_example =
    trim-Cut (mib 1) (mib 3) high_memory (omega arith) (omega arith) (omega arith) (omega arith)

mmap_loop-Usable_example :
    (sz : ℕ) × (regions : List Region) × (mmap_loop 7 (mib 1) (mib 3) header 24 24 24 0 0
      ≡ ok (sz, regions))
    × All (Usable (mib 1) (mib 3)) regions
    × (length regions ≤ 1)
mmap_loop-Usable_example =
    mmap_loop-Usable (mib 1) (mib 3) (omega arith) (omega arith) 1 7 header 24 24 24 0 0
      (omega arith) (omega arith) (omega arith) (omega arith)
