-- ===== src/Queue/Refine.antt =====
-- A valid queue is the deque of its entries.
use cardinal.Base.{
  ℕ, ◌+◌, ◌-◌, ◌%◌, ◌^◌, ◌≤◌, ◌<◌, ◌≡◌, ◌≢◌, suc, get_or, ap, true, false, List, [], ◌∷◌, arith,
  length, length-set, ◌==◌, ltb, if◌then◌else◌,
}
use cardinal.Queue.{Queue, enqueue, enqueue_front, front_of, dequeue, peek}
use cardinal.Queue.Deque.{push_back, push_front, pop_front, front}
use cardinal.Queue.Span.{span, length-span, span-append, span-cons, span-tail, mod_once}

pub record IsValid (q : Queue) : Type 0 where
  pub storage : q.size ≤ length q.buf
  pub small : q.size < 2 ^ 31
  pub head_in : q.head < q.size
  pub tail_at : q.tail ≡ (q.head + q.ent_cnt) % q.size
  pub one_free : q.ent_cnt < q.size

abbrev pub contents : Queue → List ℕ
contents q = span q.buf q.size q.head q.ent_cnt

-- One slot always stays empty.
abbrev pub capacity : Queue → ℕ
capacity q = q.size - 1

pub length-contents : (q : Queue) → length (contents q) ≡ q.ent_cnt
length-contents q = length-span q.buf q.size q.head q.ent_cnt

-- The test for room, which compares indices, counts entries.
full_test :
    (q : Queue)
    → IsValid q
    → (q.head == (q.tail + 1) % q.size) ≡ (if ltb q.ent_cnt (capacity q) then false else true)
full_test q v = ground (arith, mod_once (q.head + q.ent_cnt) q.size, mod_once (q.tail + 1) q.size)

empty_test : (q : Queue) → IsValid q → (q.head == q.tail) ≡ (q.ent_cnt == 0)
empty_test q v = ground (arith, mod_once (q.head + q.ent_cnt) q.size)

front_step : (q : Queue) → IsValid q → (front_of q < q.size) × ((front_of q + 1) % q.size ≡ q.head)
unfolding front_of
front_step q v = ground (
  arith,
  mod_once (q.head - 1) q.size,
  mod_once (q.head - 1 + 1) q.size,
  mod_once (q.size - 1 + 1) q.size,
)

pub enqueue-IsValid : (q : Queue) (val : ℕ) → IsValid q → IsValid (enqueue q val).1
unfolding enqueue
enqueue-IsValid q val v = ground (
  arith,
  full_test q v,
  length-set q.buf q.tail val,
  mod_once (q.head + q.ent_cnt) q.size,
  mod_once (q.tail + 1) q.size,
  mod_once (q.head + (q.ent_cnt + 1)) q.size,
)

pub enqueue_front-IsValid : (q : Queue) (val : ℕ) → IsValid q → IsValid (enqueue_front q val).1
unfolding enqueue_front
enqueue_front-IsValid q val v = ground (
  arith,
  full_test q v,
  front_step q v,
  length-set q.buf (front_of q) val,
  mod_once (q.head + q.ent_cnt) q.size,
  mod_once (front_of q + 1) q.size,
  mod_once (front_of q + (q.ent_cnt + 1)) q.size,
)

pub dequeue-IsValid : (q : Queue) → IsValid q → IsValid (dequeue q).1
unfolding dequeue
dequeue-IsValid q v = ground (
  arith,
  empty_test q v,
  length-set q.buf q.head 0,
  mod_once (q.head + q.ent_cnt) q.size,
  mod_once (q.head + 1) q.size,
  mod_once ((q.head + 1) % q.size + (q.ent_cnt - 1)) q.size,
)

-- With a free slot `queue_tryenqueue` appends the value; with none it refuses and changes nothing.
pub enqueue_refines :
    (q : Queue) (val : ℕ)
    → IsValid q
    → let (done, q') = enqueue q val in
      (done, contents q') ≡ push_back (capacity q) (contents q) val
unfolding enqueue push_back
enqueue_refines q val v =
    ground (
      arith,
      full_test q v,
      length-contents q,
      span-append q.buf q.size q.head q.ent_cnt q.tail val,
    )

-- With a free slot `queue_tryenqueue_front` puts the value first; with none it refuses and changes
-- nothing.
pub enqueue_front_refines :
    (q : Queue) (val : ℕ)
    → IsValid q
    → let (done, q') = enqueue_front q val in
      (done, contents q') ≡ push_front (capacity q) (contents q) val
unfolding enqueue_front push_front
enqueue_front_refines q val v = ground (
  arith,
  full_test q v,
  front_step q v,
  length-contents q,
  span-cons q.buf q.size q.head (front_of q) q.ent_cnt val,
)

-- `span` matches on the count, the code tests the indices.
contents_nonempty :
    (q : Queue)
    → q.ent_cnt ≢ 0
    → contents q ≡ get_or q.buf q.head 0 ∷ span q.buf q.size ((q.head + 1) % q.size) (q.ent_cnt - 1)
contents_nonempty q ne =
    let e : q.ent_cnt ≡ suc (q.ent_cnt - 1) = omega arith in
    ap (λ (n : ℕ). span q.buf q.size q.head n) e

contents_empty : (q : Queue) → q.ent_cnt ≡ 0 → contents q ≡ []
contents_empty q e = ap (λ (n : ℕ). span q.buf q.size q.head n) e

-- `queue_trydequeue` takes the first entry off; an empty queue gives nothing and stays.
pub dequeue_refines :
    (q : Queue)
    → IsValid q
    → let (out, q') = dequeue q in (out, contents q') ≡ pop_front (contents q)
unfolding dequeue pop_front
dequeue_refines q v = ground (
  arith,
  empty_test q v,
  contents_nonempty q,
  contents_empty q,
  span-tail q.buf q.size q.head (q.ent_cnt - 1) 0,
)

pub peek_refines : (q : Queue) → IsValid q → peek q ≡ front (contents q)
unfolding peek front
peek_refines q v = ground (arith, empty_test q v, contents_nonempty q, contents_empty q)

pub size-enqueue : (q : Queue) (val : ℕ) → (enqueue q val).1.size ≡ q.size
unfolding enqueue
size-enqueue q val = ground arith

pub size-enqueue_front : (q : Queue) (val : ℕ) → (enqueue_front q val).1.size ≡ q.size
unfolding enqueue_front
size-enqueue_front q val = ground arith

pub size-dequeue : (q : Queue) → (dequeue q).1.size ≡ q.size
unfolding dequeue
size-dequeue q = ground arith
