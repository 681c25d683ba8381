-- ===== src/Queue.antt =====
-- kernel/src/containers/queue.c: a ring of 64-bit entries that grows at both ends.
-- The storage is a list; `size`, `ent_cnt`, `head` and `tail` are the `int32_t` fields, which are
-- never negative. A pointer argument that may be NULL is an `Option`.
pub mod Deque
pub mod Span
pub mod Refine
pub mod Holds
pub mod Run
mod Tests
use cardinal.Base.{
  ℕ, ◌+◌, ◌-◌, ◌*◌, ◌%◌, Bool, true, false, Option, none, some, List, ◌==◌, ltb, if◌then◌else◌,
  get_or, set,
}

-- `queue_t`. Of the two function pointers only whether `free` is set matters.
pub record Queue : Type 0 where
  pub buf : List ℕ
  pub size : ℕ
  pub ent_cnt : ℕ
  pub head : ℕ
  pub tail : ℕ
  pub has_free : Bool

-- The bodies behind the NULL guards.
unfoldable pub enqueue : Queue → ℕ → Bool × Queue
enqueue q val = if q.head == (q.tail + 1) % q.size then (false, q) else (
  true,
  record q { buf = set q.buf q.tail val; tail = (q.tail + 1) % q.size; ent_cnt = q.ent_cnt + 1 },
)

-- The index that `queue_tryenqueue_front` moves `head` to.
unfoldable pub front_of : Queue → ℕ
front_of q = if ltb 0 q.head then (q.head - 1) % q.size else q.size - 1

unfoldable pub enqueue_front : Queue → ℕ → Bool × Queue
enqueue_front q val = if q.head == (q.tail + 1) % q.size then (false, q) else (
  true,
  record q { buf = set q.buf (front_of q) val; head = front_of q; ent_cnt = q.ent_cnt + 1 },
)

-- What goes through `*val` is the option; the slot that is left is cleared.
unfoldable pub dequeue : Queue → Option ℕ × Queue
dequeue q = if q.head == q.tail then (none, q) else (
  some (get_or q.buf q.head 0),
  record q { buf = set q.buf q.head 0; head = (q.head + 1) % q.size; ent_cnt = q.ent_cnt - 1 },
)

unfoldable pub peek : Queue → Option ℕ
peek q = if q.head == q.tail then none else some (get_or q.buf q.head 0)

-- The functions of queue.h.
unfoldable pub try_enqueue : Option Queue → ℕ → Bool × Option Queue
try_enqueue none val = (false, none)
try_enqueue (some q) val = let (done, q') = enqueue q val in (done, some q')

unfoldable pub try_enqueue_front : Option Queue → ℕ → Bool × Option Queue
try_enqueue_front none val = (false, none)
try_enqueue_front (some q) val = let (done, q') = enqueue_front q val in (done, some q')

unfoldable pub try_dequeue : Option Queue → Option ℕ × Option Queue
try_dequeue none = (none, none)
try_dequeue (some q) = let (out, q') = dequeue q in (out, some q')

unfoldable pub try_peek : Option Queue → Option ℕ
try_peek none = none
try_peek (some q) = peek q

unfoldable pub size_of : Option Queue → ℕ
size_of none = 0
size_of (some q) = q.size

unfoldable pub entcnt : Option Queue → ℕ
entcnt none = 0
entcnt (some q) = q.ent_cnt

unfoldable pub full : Option Queue → Bool
unfolding size_of entcnt
full q = entcnt q == size_of q

-- `queue_init`: `alloc_fn` maps a number of bytes to the storage that it returns, or to NULL.
unfoldable pub init : Option (ℕ → Option (List ℕ)) → Bool → ℕ → Option Queue
init none has_free sz = none
init (some alloc_fn) has_free sz = elim (alloc_fn (sz * 8)) [
  | none ↦ none
  | some storage ↦
      some
        (record { buf = storage; size = sz; ent_cnt = 0; head = 0; tail = 0; has_free = has_free })
]

-- `queue_fini`: the storage that it hands to `free`, if any, and the closed queue.
unfoldable pub fini : Option Queue → Option (List ℕ) × Option Queue
fini none = (none, none)
fini (some q) = (if q.has_free then some q.buf else none, some (record q { size = 0 }))
