-- ===== src/Queue/Holds.antt =====
-- What a client of the queue reasons with: a valid queue of capacity `cap` that holds a list.
use cardinal.Base.{ℕ, ◌+◌, ◌<◌, ◌≡◌, ◌∙◌, sym, ap, true, some, List, [], ◌∷◌, ◌++◌, arith, length}
use cardinal.Queue.{Queue, enqueue, enqueue_front, dequeue}
use cardinal.Queue.Deque.{push_back, push_front, pop_front}
use cardinal.Queue.Refine.{
  IsValid, contents, capacity, length-contents, enqueue-IsValid, enqueue_front-IsValid,
  dequeue-IsValid, enqueue_refines, enqueue_front_refines, dequeue_refines, size-enqueue,
  size-enqueue_front, size-dequeue,
}

pub record Holds (cap : ℕ) (q : Queue) (xs : List ℕ) : Type 0 where
  pub valid : IsValid q
  pub shows : contents q ≡ xs
  pub room : capacity q ≡ cap

module _ {cap : ℕ} {q : Queue} where
  pub ent_cnt-length : {xs : List ℕ} → Holds cap q xs → q.ent_cnt ≡ length xs
  ent_cnt-length h = sym (length-contents q) ∙ ap length h.shows

  pub Holds-enqueue :
      {xs : List ℕ} (v : ℕ)
      → Holds cap q xs
      → length xs < cap
      → ((enqueue q v).0 ≡ true) × Holds cap (enqueue q v).1 (xs ++ v ∷ [])
  unfolding push_back
  Holds-enqueue {xs} v h lt = (
    ground (arith, enqueue_refines q v h.valid, ap length h.shows, h.room),
    record {
      valid = enqueue-IsValid q v h.valid;
      shows = ground (arith, enqueue_refines q v h.valid, h.shows, ap length h.shows, h.room);
      room = ground (arith, size-enqueue q v, h.room);
    },
  )

  pub Holds-enqueue_front :
      {xs : List ℕ} (v : ℕ)
      → Holds cap q xs
      → length xs < cap
      → ((enqueue_front q v).0 ≡ true) × Holds cap (enqueue_front q v).1 (v ∷ xs)
  unfolding push_front
  Holds-enqueue_front {xs} v h lt = (
    ground (arith, enqueue_front_refines q v h.valid, ap length h.shows, h.room),
    record {
      valid = enqueue_front-IsValid q v h.valid;
      shows = ground (arith, enqueue_front_refines q v h.valid, h.shows, ap length h.shows, h.room);
      room = ground (arith, size-enqueue_front q v, h.room);
    },
  )

  pub Holds-dequeue :
      {x : ℕ} {xs : List ℕ}
      → Holds cap q (x ∷ xs)
      → ((dequeue q).0 ≡ some x) × Holds cap (dequeue q).1 xs
  unfolding pop_front
  Holds-dequeue {x} {xs} h = (
    ground (arith, dequeue_refines q h.valid, h.shows),
    record {
      valid = dequeue-IsValid q h.valid;
      shows = ground (arith, dequeue_refines q h.valid, h.shows);
      room = ground (arith, size-dequeue q, h.room);
    },
  )

  pub length-le-cap : {xs : List ℕ} → Holds cap q xs → length xs < cap + 1
  length-le-cap h = ground (arith, ent_cnt-length h, h.valid.one_free, h.room)
