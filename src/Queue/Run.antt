-- ===== src/Queue/Run.antt =====
-- Sequences of calls on one queue, and the tests of the header's functions.
use cardinal.Base.{
  ℕ, ◌≡◌, refl, Bool, Option, some, List, [], ◌∷◌, arith, false, ◌<◌, length, ◌*◌, ◌-◌, ◌^◌, ◌≤◌,
}
use cardinal.Queue.{Queue, try_enqueue, try_enqueue_front, try_dequeue, try_peek, init, full}
use cardinal.Queue.Deque.{push_back, push_front, pop_front, front}
use cardinal.Queue.Refine.{
  IsValid, contents, capacity, enqueue-IsValid, enqueue_front-IsValid, dequeue-IsValid,
  enqueue_refines, enqueue_front_refines, dequeue_refines, peek_refines, size-enqueue,
  size-enqueue_front, size-dequeue,
}

pub data Call : Type 0 where
  back front_call : ℕ → Call
  take_call peek_call : Call

pub data Reply : Type 0 where
  did : Bool → Reply
  got : Option ℕ → Reply

-- What the functions of queue.h return, call after call.
pub run : Option Queue → List Call → List Reply
run q [] = []
run q (back x ∷ calls) = let (done, q') = try_enqueue q x in did done ∷ run q' calls
run q (front_call x ∷ calls) = let (done, q') = try_enqueue_front q x in did done ∷ run q' calls
run q (take_call ∷ calls) = let (out, q') = try_dequeue q in got out ∷ run q' calls
run q (peek_call ∷ calls) = got (try_peek q) ∷ run q calls

-- What a deque of at most `cap` entries returns.
pub run_deque : ℕ → List ℕ → List Call → List Reply
run_deque cap xs [] = []
run_deque cap xs (back x ∷ calls) =
    let (done, xs') = push_back cap xs x in did done ∷ run_deque cap xs' calls
run_deque cap xs (front_call x ∷ calls) =
    let (done, xs') = push_front cap xs x in did done ∷ run_deque cap xs' calls
run_deque cap xs (take_call ∷ calls) =
    let (out, xs') = pop_front xs in got out ∷ run_deque cap xs' calls
run_deque cap xs (peek_call ∷ calls) = got (front xs) ∷ run_deque cap xs calls

-- No sequence of calls tells a valid queue from the deque of its entries, of capacity `size - 1`.
pub run-run_deque :
    (calls : List Call) (q : Queue)
    → IsValid q
    → run (some q) calls ≡ run_deque (capacity q) (contents q) calls
unfolding run run_deque try_enqueue try_enqueue_front try_dequeue try_peek
run-run_deque [] q v = refl
run-run_deque (back x ∷ calls) q v =
    rw (run-run_deque calls _ (enqueue-IsValid q x v), ← enqueue_refines q x v, size-enqueue)
run-run_deque (front_call x ∷ calls) q v = rw (
  run-run_deque calls _ (enqueue_front-IsValid q x v),
  ← enqueue_front_refines q x v,
  size-enqueue_front,
)
run-run_deque (take_call ∷ calls) q v =
    rw (run-run_deque calls _ (dequeue-IsValid q v), ← dequeue_refines q v, size-dequeue)
run-run_deque (peek_call ∷ calls) q v = rw (run-run_deque calls q v, peek_refines q v)

-- `queue_init` gives a valid, empty queue with room for all entries but one where the allocator returns the room it was asked for.
pub init-IsValid :
    (alloc_fn : ℕ → Option (List ℕ)) (has_free : Bool) (sz : ℕ) (storage : List ℕ)
    → 0 < sz
    → sz < 2 ^ 31
    → alloc_fn (sz * 8) ≡ some storage
    → sz * 8 ≤ length storage * 8
    → (q : Queue) × (init (some alloc_fn) has_free sz ≡ some q)
      × IsValid q
      × (contents q ≡ [])
      × (capacity q ≡ sz - 1)
unfolding init
init-IsValid alloc_fn has_free sz storage pos small e room = (
  record { buf = storage; size = sz; ent_cnt = 0; head = 0; tail = 0; has_free = has_free },
  rw (e, init),
  omega arith,
  refl,
  refl,
)

-- `queue_full` is false for every valid queue.
full_never : (q : Queue) → IsValid q → full (some q) ≡ false
unfolding full
full_never q v = ground arith
