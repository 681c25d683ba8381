-- ===== src/Pagealloc.antt =====
-- kernel/src/pagealloc.c: free physical memory as a ring of blocks. `Allocator` holds the file's
-- static variables; every function takes it and returns it.
pub mod Entry
pub mod Sort
pub mod TakeEntry
pub mod FirstFit
pub mod Coverage
pub mod Free
pub mod Init
pub mod Merge
mod Tests
use cardinal.Base.{
  ℕ, zero, suc, ◌+◌, ◌-◌, ◌*◌, ◌/◌, ◌%◌, ◌^◌, Bool, true, false, ◌&&◌, ◌||◌, List, [], ◌∷◌, Option,
  none, some, ltb, leb, ◌==◌, if◌then◌else◌, bit_and, u32, u64, sub64, not64, get_or, set, Outcome,
  ok, panic, stuck, ◌>>=◌, not,
}
use cardinal.Queue.{Queue, enqueue, enqueue_front, dequeue, entcnt}
use cardinal.Queue
use cardinal.Pagealloc.Entry.{
  btm_level, max_entries, get_addr, get_pg_cnt, build_entry, round_up_po2,
}
use cardinal.Pagealloc.Sort.{quicksort_pgs}

pub record Allocator : Type 0 where
  pub queue : Queue
  pub mem_size : ℕ
  pub free_mem : ℕ
  pub data_multiple : ℕ
  pub instr_multiple : ℕ
  pub pagetable_multiple : ℕ

-- One round of the loop of `compact_queue`, at the index `lo`.
unfoldable pub merge_at : ℕ → Queue → Queue
merge_at lo q =
    let e = get_or q.buf (lo % q.size) 0 in
    let next = get_or q.buf ((lo + 1) % q.size) 0 in
    let pg_cnt = get_pg_cnt e in
    let n_pg_cnt = pg_cnt + get_pg_cnt next in
    if u64 (pg_cnt * btm_level + get_addr e) == get_addr next && ltb n_pg_cnt max_entries
    then record q {
      buf = set (set q.buf ((lo + 1) % q.size) (build_entry (get_addr e) n_pg_cnt)) (lo % q.size) 0;
      head = (q.head + 1) % q.size;
      ent_cnt = q.ent_cnt - 1;
    }
    else q

unfoldable pub merge_loop : ℕ → ℕ → Queue → Queue
unfolding merge_at
merge_loop zero lo q = q
merge_loop (suc rounds) lo q = merge_loop rounds (lo + 1) (merge_at lo q)

-- `hi`: one before the tail, past the end of the array where that lies before the head.
unfoldable pub last_index : Queue → ℕ
last_index q = if leb q.tail q.head then q.tail + q.size - 1 else q.tail - 1

unfoldable pub compact_queue : Queue → Outcome Queue
compact_queue q = do
  sorted ← quicksort_pgs q.size q.buf q.head (last_index q)
  ok (merge_loop (last_index q - 1 - q.head) q.head (record q { buf = sorted }))

-- The second try after a compaction, and the PANIC.
unfoldable pub insert_queue : ℕ → Queue → Outcome Queue
insert_queue val q =
    let (done, q1) = enqueue q val in
    elim done [
      | true ↦ ok q1
      | false ↦ compact_queue q >>= λ q2.
          let (again, q3) = enqueue q2 val in elim again [ true ↦ ok q3 | false ↦ panic ]
    ]

unfoldable pub insert_queue_front : ℕ → Queue → Outcome Queue
insert_queue_front val q =
    let (done, q1) = enqueue_front q val in
    elim done [
      | true ↦ ok q1
      | false ↦ compact_queue q >>= λ q2.
          let (again, q3) = enqueue_front q2 val in elim again [ true ↦ ok q3 | false ↦ panic ]
    ]

-- The chunks of `pagealloc_free`: `left` is `page_cnt - pg_0`.
unfoldable pub free_loop : ℕ → ℕ → ℕ → Queue → Outcome Queue
free_loop zero left addr q = elim (ltb 0 left) [ true ↦ stuck | false ↦ ok q ]
free_loop (suc fuel) left addr q = elim (ltb 0 left) [
  | false ↦ ok q
  | true ↦
      let cur_pg = if leb max_entries left then max_entries else left in
      insert_queue (build_entry addr cur_pg) q >>= λ q'.
      free_loop fuel (left - cur_pg) (u64 (addr + cur_pg * btm_level)) q'
]

unfoldable pub pagealloc_free : ℕ → ℕ → Allocator → Outcome Allocator
pagealloc_free addr size s =
    if not (addr % btm_level == 0) then panic else if not (size % btm_level == 0) then panic else do
      q ← free_loop (size / btm_level / max_entries + 1) (size / btm_level) addr s.queue
      ok (record s { queue = q; free_mem = u64 (s.free_mem + size) })

-- `int32_t` values are bit patterns below 2 ^ 32: their reading as a signed number.
unfoldable pub is_negative : ℕ → Bool
is_negative w = leb (2 ^ 31) w

-- An `int32_t` converted to `uint64_t`.
unfoldable pub extend : ℕ → ℕ
unfolding is_negative
extend w = if is_negative w then w + (2 ^ 64 - 2 ^ 32) else w

abbrev pub flag_32bit : ℕ
flag_32bit = 2 ^ 5

-- What taking one entry out of the queue leads to.
pub data Taken : Type 0 where
  took : ℕ → Queue → Taken
  went_on : Queue → Taken

-- The body of the inner loop of `pagealloc_alloc` on the entry `deq`.
unfoldable pub take_entry : ℕ → ℕ → ℕ → Queue → Outcome Taken
take_entry flags pg_cnt deq q =
    if not (bit_and flags flag_32bit == 0) && not (bit_and (get_addr deq) (not64 0xffffffff) == 0)
    then (insert_queue deq q >>= λ q'. ok (went_on q'))
    else if is_negative pg_cnt || leb pg_cnt (get_pg_cnt deq)
    then (let ret_addr = get_addr deq in
        let n_addr = u64 (ret_addr + extend pg_cnt * btm_level) in
        let n_pg_cnt = u32 (sub64 (get_pg_cnt deq) (extend pg_cnt)) in
        if not (is_negative n_pg_cnt) && ltb 0 n_pg_cnt
        then (insert_queue_front (build_entry n_addr n_pg_cnt) q >>= λ q'. ok (took ret_addr q'))
        else ok (took ret_addr q))
    else (insert_queue deq q >>= λ q'. ok (went_on q'))

-- The inner loop, with `max_iter - i` rounds left.
unfoldable pub alloc_pass : ℕ → ℕ → ℕ → Queue → Outcome Taken
alloc_pass flags pg_cnt zero q = ok (went_on q)
alloc_pass flags pg_cnt (suc left) q =
    let (out, q1) = dequeue q in
    elim out [
      | none ↦ panic
      | some deq ↦ take_entry flags pg_cnt deq q1 >>= λ t. elim t [
        | took addr q2 ↦ ok (took addr q2)
        | went_on q2 ↦ alloc_pass flags pg_cnt left q2
      ]
    ]

-- The outer loop: a pass over the queue and a compaction, `tries` times.
unfoldable pub alloc_tries : ℕ → ℕ → ℕ → Queue → Outcome Taken
alloc_tries flags pg_cnt zero q = ok (went_on q)
alloc_tries flags pg_cnt (suc tries) q = alloc_pass flags pg_cnt (entcnt (some q)) q >>= λ t.
    elim t [
      | took addr q1 ↦ ok (took addr q1)
      | went_on q1 ↦ compact_queue q1 >>= λ q2. alloc_tries flags pg_cnt tries q2
    ]

-- What `pagealloc_alloc` returns when no block is large enough.
abbrev pub no_memory : ℕ
no_memory = 2 ^ 64 - 1

-- `domain`, `color` and `flags` are set to 0 before they are read.
unfoldable pub pagealloc_alloc : ℕ → ℕ → ℕ → ℕ → Allocator → Outcome (ℕ × Allocator)
pagealloc_alloc domain color flags size s =
    let rounded = round_up_po2 size btm_level in
    alloc_tries 0 (u32 (rounded / btm_level)) 2 s.queue >>= λ t. elim t [
      | took addr q ↦ ok (addr, record s { queue = q; free_mem = sub64 s.free_mem rounded })
      | went_on q ↦ ok (no_memory, record s { queue = q })
    ]
