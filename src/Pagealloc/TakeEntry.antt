-- ===== src/Pagealloc/TakeEntry.antt =====
-- What `pagealloc_alloc` does with one entry of the queue, and the insertions where there is room.
use cardinal.Base.{
  ℕ, ◌+◌, ◌-◌, ◌*◌, ◌^◌, ◌≤◌, ◌<◌, ◌≡◌, false, List, [], ◌∷◌, arith, length, ltb, if◌then◌else◌, ok,
  ◌>>=◌, sub64, u32, u64,
}
use cardinal.Queue.{Queue, enqueue, enqueue_front}
use cardinal.Queue.Holds.{Holds, Holds-enqueue, Holds-enqueue_front}
use cardinal.Pagealloc.{
  is_negative, extend, insert_queue, insert_queue_front, take_entry, took, went_on,
}
use cardinal.Pagealloc.Entry.{get_addr, get_pg_cnt, build_entry, btm_level, get_pg_cnt-eq}
pub use cardinal.Base.{All}

-- With a free slot the insertions neither compact nor panic.
pub insert_queue-room :
    {cap : ℕ} {q : Queue} {xs : List ℕ} (v : ℕ)
    → Holds cap q xs
    → length xs < cap
    → insert_queue v q ≡ ok (enqueue q v).1
unfolding insert_queue
insert_queue-room v h lt = ground (arith, Holds-enqueue v h lt)

pub insert_queue_front-room :
    {cap : ℕ} {q : Queue} {xs : List ℕ} (v : ℕ)
    → Holds cap q xs
    → length xs < cap
    → insert_queue_front v q ≡ ok (enqueue_front q v).1
unfolding insert_queue_front
insert_queue_front-room v h lt = ground (arith, Holds-enqueue_front v h lt)

-- What stays of a block of which the first `n` pages are taken.
abbrev pub remainder : ℕ → ℕ → List ℕ
remainder n e =
    if ltb n (get_pg_cnt e)
    then build_entry (get_addr e + n * btm_level) (get_pg_cnt e - n) ∷ []
    else []

-- A free block: a 64-bit entry whose pages end below 2 ^ 56.
pub record IsBlock (e : ℕ) : Type 0 where
  pub word : e < 2 ^ 64
  pub ends : get_addr e + get_pg_cnt e * btm_level ≤ 2 ^ 56

-- A count below 2 ^ 31 is not negative as an `int32_t`.
pub small_count : (n : ℕ) → n < 2 ^ 31 → (is_negative n ≡ false) × (extend n ≡ n)
unfolding is_negative extend
small_count n h = ground arith

-- Without the 32-bit flag a large enough block is split.
pub take_entry-split :
    (n e : ℕ) (q : Queue)
    → IsBlock e
    → n < 2 ^ 31
    → n < get_pg_cnt e
    → take_entry 0 n e q ≡ (
        insert_queue_front (build_entry (get_addr e + n * btm_level) (get_pg_cnt e - n)) q >>= λ q'.
        ok (took (get_addr e) q'))
unfolding take_entry
take_entry-split n e q b small more =
    rw
      (
        (small_count n small).0,
        (small_count n small).1,
        address,
        count,
        (small_count (get_pg_cnt e - n) (omega (arith, get_pg_cnt-eq e))).0,
      )
      (ground arith)
  where
    address : u64 (get_addr e + n * btm_level) ≡ get_addr e + n * btm_level
    address = omega (arith, b.ends)

    count : u32 (sub64 (get_pg_cnt e) n) ≡ get_pg_cnt e - n
    count = omega (arith, get_pg_cnt-eq e)

pub take_entry-whole :
    (n e : ℕ) (q : Queue)
    → n < 2 ^ 31
    → n ≡ get_pg_cnt e
    → take_entry 0 n e q ≡ ok (took (get_addr e) q)
unfolding take_entry
take_entry-whole n e q small all = ground (arith, small_count n)

pub take_entry-short :
    (n e : ℕ) (q : Queue)
    → n < 2 ^ 31
    → get_pg_cnt e < n
    → take_entry 0 n e q ≡ (insert_queue e q >>= λ q'. ok (went_on q'))
unfolding take_entry
take_entry-short n e q small short = ground (arith, small_count n)
