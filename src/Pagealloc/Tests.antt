-- ===== src/Pagealloc/Tests.antt =====
-- The theorems about the page allocator at concrete queues.
use cardinal.Base.{
  ◌↔◌, ◌⊎◌, ◌≢◌, ◌%◌, ℕ, ◌+◌, ◌*◌, ◌^◌, ◌≡◌, ◌<◌, refl, false, List, [], ◌∷◌, ◌++◌, arith, Outcome,
  ok, panic, stuck, sub64, u64,
}
use mathlib.Core.Option.{Option, some}
use cardinal.Base.{zero, suc, true, replicate}
use cardinal.Bootinfo.{Region, BootInfo, no_info}
use cardinal.Pagealloc.Init.{BelowEnd, map_entry, mapped_at, pagealloc_init, pagealloc_init-frees}
use cardinal.Queue.{Queue, enqueue, enqueue_front, front_of, dequeue, entcnt}
use cardinal.Queue.Refine.{contents}
use cardinal.Queue.Holds.{Holds}
use cardinal.Pagealloc.{
  Allocator, pagealloc_alloc, pagealloc_free, merge_at, merge_loop, compact_queue, last_index,
  insert_queue, insert_queue_front, take_entry, alloc_pass, alloc_tries, is_negative, extend,
  no_memory,
}
use cardinal.Pagealloc.Entry.{get_addr, get_pg_cnt, build_entry, round_up_po2, get-build_entry}
use cardinal.Pagealloc.Sort.{quicksort_pgs}
use cardinal.Pagealloc.Sort.Quicksort.{Sorted, quicksort_pgs-Sorted}
use cardinal.Pagealloc.TakeEntry.{IsBlock, remainder}
use cardinal.Pagealloc.FirstFit.{pagealloc_alloc-first}
use cardinal.Pagealloc.Coverage.{Allocated, within, free_at, pagealloc_alloc-Allocated}
use cardinal.Pagealloc.Free.{Freed, pagealloc_free-Freed, pagealloc_free-panic}
use cardinal.Pagealloc.Merge.{merge_first-covers, merge_later-loses, page_zero}

-- Blocks of 1 page at page 1, of 2 at page 4, of 3 at page 6.
abbrev one : ℕ
one = 1 * 2 ^ 20 + 0

abbrev two : ℕ
two = 4 * 2 ^ 20 + 1

abbrev three : ℕ
three = 6 * 2 ^ 20 + 2

abbrev ring : Queue
ring = record {
  buf = two ∷ three ∷ 0 ∷ 0 ∷ one ∷ [];
  size = 5;
  ent_cnt = 3;
  head = 4;
  tail = 2;
  has_free = false;
}

abbrev start : Allocator
start = record {
  queue = ring;
  mem_size = 0;
  free_mem = 24576;
  data_multiple = 1;
  instr_multiple = 1;
  pagetable_multiple = 1;
}

ring-Holds : Holds 4 ring (one ∷ two ∷ three ∷ [])
ring-Holds = record { valid = omega arith; shows = refl; room = refl }

one-IsBlock : IsBlock one
unfolding get_addr get_pg_cnt
one-IsBlock = record { word = omega arith; ends = omega arith }

two-IsBlock : IsBlock two
unfolding get_addr get_pg_cnt
two-IsBlock = record { word = omega arith; ends = omega arith }

three-IsBlock : IsBlock three
unfolding get_addr get_pg_cnt
three-IsBlock = record { word = omega arith; ends = omega arith }

get-build_entry_example :
    (get_addr (build_entry 0x5000 3) ≡ 0x5000)
    × (get_pg_cnt (build_entry 0x5000 3) ≡ 3)
    × (build_entry 0x5000 3 < 2 ^ 64)
get-build_entry_example =
    get-build_entry 0x5000 3 (omega arith) (omega arith) (omega arith) (omega arith)

quicksort_pgs-Sorted_example :
    (new : List ℕ) × (quicksort_pgs 3 (three ∷ one ∷ two ∷ []) 2 4 ≡ ok new)
    × Sorted 3 2 4 (three ∷ one ∷ two ∷ []) new
quicksort_pgs-Sorted_example =
    quicksort_pgs-Sorted 3 (three ∷ one ∷ two ∷ []) 2 4 (omega arith) (omega arith) (omega arith)

sorted_ring : quicksort_pgs 3 (three ∷ one ∷ two ∷ []) 2 4 ≡ ok (two ∷ three ∷ one ∷ [])
unfolding quicksort_pgs get_addr
sorted_ring = refl

pagealloc_alloc-first_example :
    (s' : Allocator) × (pagealloc_alloc 0 0 0 5000 start ≡ ok (get_addr two, s'))
    × Holds 4 s'.queue (remainder 2 two ++ (three ∷ []) ++ (one ∷ []))
    × (s'.free_mem ≡ sub64 24576 8192)
unfolding get_pg_cnt
pagealloc_alloc-first_example =
    pagealloc_alloc-first 0 0 0 5000 start (one ∷ []) (three ∷ []) two ring-Holds (omega arith)
      (omega arith, tt) two-IsBlock (omega arith)

pagealloc_alloc-Allocated_example :
    (addr : ℕ) × (s' : Allocator) × (pagealloc_alloc 0 0 0 5000 start ≡ ok (addr, s'))
    × Allocated 4 2 (one ∷ two ∷ three ∷ []) start addr s'
unfolding get_pg_cnt
pagealloc_alloc-Allocated_example =
    pagealloc_alloc-Allocated 0 0 0 5000 start (one ∷ two ∷ three ∷ []) ring-Holds
      (one-IsBlock, (two-IsBlock, (three-IsBlock, tt))) (omega arith) (omega arith)

pagealloc_free-Freed_example :
    (s' : Allocator) × (pagealloc_free 0x9000 8192 start ≡ ok s')
    × Freed 4 (one ∷ two ∷ three ∷ []) 0x9000 2 s'.queue
    × (s'.free_mem ≡ u64 (24576 + 8192))
pagealloc_free-Freed_example =
    pagealloc_free-Freed 0x9000 8192 start (one ∷ two ∷ three ∷ []) ring-Holds (omega arith)
      (omega arith) (omega arith) (omega arith)

pagealloc_free-panic_example :
    (pagealloc_free 0x9001 8192 start ≡ panic) ↔ ((0x9001 % 4096 ≢ 0) ⊎ (8192 % 4096 ≢ 0))
pagealloc_free-panic_example =
    pagealloc_free-panic 0x9001 8192 start (one ∷ two ∷ three ∷ []) ring-Holds (omega arith)
      (omega arith)

merge_first-covers_example :
    free_at (contents (merge_at 4 ring)) 4 ≡ free_at (one ∷ two ∷ three ∷ []) 4
merge_first-covers_example =
    merge_first-covers ring 4 (omega arith) (omega arith)
      (one-IsBlock, (two-IsBlock, (three-IsBlock, tt)))

merge_later-loses_example :
    free_at (contents (merge_at (4 + 1) ring)) 0 + within (get_addr one) (get_pg_cnt one) 0
    ≡ free_at (one ∷ two ∷ three ∷ []) 0 + page_zero 0
unfolding get_addr get_pg_cnt
merge_later-loses_example =
    merge_later-loses ring 0 0 (omega arith) (omega arith)
      (one-IsBlock, (two-IsBlock, (three-IsBlock, tt))) refl

-- The block at page 1 is gone, and page 0 is free.
lost_block : contents (merge_at 5 ring) ≡ 0 ∷ (4 * 2 ^ 20 + 4) ∷ []
unfolding merge_at get_addr get_pg_cnt build_entry
lost_block = refl

abbrev returned : Outcome (ℕ × Allocator) → ℕ
returned (ok (addr, s)) = addr
returned panic = 0
returned stuck = 0

out_of_memory : returned (pagealloc_alloc 0 0 0 (2 ^ 30) start) ≡ no_memory
unfolding pagealloc_alloc alloc_tries alloc_pass take_entry insert_queue insert_queue_front
    is_negative extend compact_queue merge_loop merge_at last_index quicksort_pgs get_addr
    get_pg_cnt build_entry round_up_po2 enqueue enqueue_front front_of dequeue entcnt
out_of_memory = refl

-- 15 pages, and an entry of the map that was not written.
abbrev info : BootInfo
info = record no_info {
  mem_sz = 65536;
  mmap = record { addr = 4000; len = 61440; kind = 1 } ∷ [];
  mmap_cnt = 2;
}

abbrev unwritten : ℕ → Region
unwritten i = record { addr = 0; len = 0; kind = 0 }

abbrev malloc_zeroes : ℕ → Option (List ℕ)
malloc_zeroes n = some (replicate 9 0)

info-BelowEnd : BelowEnd (map_entry info unwritten)
info-BelowEnd zero = omega arith
info-BelowEnd (suc i) = omega arith

pagealloc_init-frees_example :
    (s' : Allocator) × (pagealloc_init (some malloc_zeroes) true info unwritten start ≡ ok s')
    × ((p : ℕ) → free_at (contents s'.queue) p ≡ mapped_at 2 (map_entry info unwritten) 0 p)
pagealloc_init-frees_example =
    pagealloc_init-frees malloc_zeroes true info unwritten start (replicate 9 0) (omega arith) refl
      (omega arith) info-BelowEnd (omega arith)
