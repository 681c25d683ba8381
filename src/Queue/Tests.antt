-- ===== src/Queue/Tests.antt =====
-- The theorems about the queue at concrete rings.
use cardinal.Base.{◌≡◌, refl, false, none, some, List, [], ◌∷◌, arith}
use cardinal.Queue.{Queue, try_enqueue, try_dequeue, enqueue, enqueue_front, front_of, fini}
use cardinal.Queue.Refine.{IsValid}
use cardinal.Queue.Run.{Call, back, front_call, take_call, peek_call, run, run_deque, run-run_deque}

-- 7, then 9, round the end of a storage of four cells.
abbrev wrapped : Queue
wrapped = record {
  buf = 9 ∷ 0 ∷ 0 ∷ 7 ∷ [];
  size = 4;
  ent_cnt = 2;
  head = 3;
  tail = 1;
  has_free = false;
}

abbrev calls : List Call
calls = back 1 ∷ back 2 ∷ front_call 3 ∷ peek_call ∷ take_call ∷ front_call 4 ∷ take_call ∷ []

wrapped-IsValid : IsValid wrapped
wrapped-IsValid = omega arith

run-run_deque_example : run (some wrapped) calls ≡ run_deque 3 (7 ∷ 9 ∷ []) calls
run-run_deque_example = run-run_deque calls wrapped wrapped-IsValid

null_pointers : (try_enqueue none 1 ≡ (false, none)) × (try_dequeue none ≡ (none, none))
unfolding try_enqueue try_dequeue
null_pointers = (refl, refl)

full_refuses : (enqueue (enqueue wrapped 1).1 2).0 ≡ false
unfolding enqueue
full_refuses = refl

front_wraps : (enqueue_front (record wrapped { head = 0; ent_cnt = 1 }) 5).1.head ≡ 3
unfolding enqueue_front front_of
front_wraps = refl

closed_size : (fini (some wrapped)).1 ≡ some (record wrapped { size = 0 })
unfolding fini
closed_size = refl
