-- ===== src/Pagealloc/FirstFit.antt =====
-- `pagealloc_alloc` where some free block is large enough: the first one in the queue is taken.
use cardinal.Base.{
  ℕ, zero, suc, ◌+◌, ◌-◌, ◌*◌, ◌/◌, ◌^◌, ◌≤◌, ◌<◌, ◌≡◌, refl, ◌∙◌, some, List, [], ◌∷◌, ◌++◌, arith,
  length, length-append, ltb, ok, >>=-ok, Bool-cases, inl, inr, sub64, u32,
}
use mathlib.Core.List.{append-nil, append_assoc}
use cardinal.Queue.{Queue, enqueue, enqueue_front, dequeue, entcnt}
use cardinal.Queue.Holds.{
  Holds, ent_cnt-length, Holds-enqueue, Holds-enqueue_front, Holds-dequeue, length-le-cap,
}
use cardinal.Pagealloc.{
  Allocator, take_entry, took, went_on, alloc_pass, alloc_tries, pagealloc_alloc,
}
use cardinal.Pagealloc.Entry.{
  get_addr, get_pg_cnt, build_entry, round_up_po2, round_up_po2-eq, btm_level,
}
use cardinal.Pagealloc.TakeEntry.{
  All, insert_queue-room, insert_queue_front-room, remainder, take_entry-split, take_entry-whole,
  take_entry-short, IsBlock,
}

module _ (n : ℕ) where
  pass_more :
      (left e : ℕ) (q q1 q2 : Queue)
      → (dequeue q).0 ≡ some e
      → (dequeue q).1 ≡ q1
      → take_entry 0 n e q1 ≡ ok (went_on q2)
      → alloc_pass 0 n (suc left) q ≡ alloc_pass 0 n left q2
  unfolding alloc_pass
  pass_more left e q q1 q2 out rest step = ground arith

  pass_done :
      (left e : ℕ) (q q1 q2 : Queue)
      → (dequeue q).0 ≡ some e
      → (dequeue q).1 ≡ q1
      → take_entry 0 n e q1 ≡ ok (took (get_addr e) q2)
      → alloc_pass 0 n (suc left) q ≡ ok (took (get_addr e) q2)
  unfolding alloc_pass
  pass_done left e q q1 q2 out rest step = ground arith

module _ {cap : ℕ} (n : ℕ) (small : n < 2 ^ 31) where
  -- The entry was just dequeued, so there is a free slot for what is put back.
  take_entry-fits :
      {q : Queue} {xs : List ℕ} (e : ℕ)
      → Holds cap q xs
      → length xs < cap
      → IsBlock e
      → n ≤ get_pg_cnt e
      → (q' : Queue) × (take_entry 0 n e q ≡ ok (took (get_addr e) q'))
        × Holds cap q' (remainder n e ++ xs)
  take_entry-fits {q} {xs} e h lt b fits = elim (Bool-cases (ltb n (get_pg_cnt e))) [
    | inl more ↦ (
      (enqueue_front q rest).1,
      take_entry-split n e q b small (ground arith)
          ∙ >>=-ok _ _ (insert_queue_front-room rest h lt) refl,
      rw more (Holds-enqueue_front rest h lt).1,
    )
    | inr all ↦ (q, take_entry-whole n e q small (ground arith), rw all h)
  ]
    where
      rest : ℕ
      rest = build_entry (get_addr e + n * btm_level) (get_pg_cnt e - n)

  -- One entry of the pass that is too small goes to the end.
  alloc_pass-short :
      {q : Queue} {xs : List ℕ} (left e : ℕ)
      → Holds cap q (e ∷ xs)
      → get_pg_cnt e < n
      → (q' : Queue) × (alloc_pass 0 n (suc left) q ≡ alloc_pass 0 n left q')
        × Holds cap q' (xs ++ e ∷ [])
  unfolding alloc_pass
  alloc_pass-short {q} {xs} left e h short = (
    (enqueue (dequeue q).1 e).1,
    pass_more n left e q (dequeue q).1 (enqueue (dequeue q).1 e).1 (Holds-dequeue h).0 refl (
        take_entry-short n e (dequeue q).1 small short
        ∙ >>=-ok _ _ (insert_queue-room e (Holds-dequeue h).1 room) refl),
    (Holds-enqueue e (Holds-dequeue h).1 room).1,
  )
    where
      room : length xs < cap
      room = omega (arith, length-le-cap h)

  alloc_pass-fits :
      {q : Queue} {xs : List ℕ} (left e : ℕ)
      → Holds cap q (e ∷ xs)
      → IsBlock e
      → n ≤ get_pg_cnt e
      → (q' : Queue) × (alloc_pass 0 n (suc left) q ≡ ok (took (get_addr e) q'))
        × Holds cap q' (remainder n e ++ xs)
  unfolding alloc_pass
  alloc_pass-fits {q} {xs} left e h b fits =
      let (q', run, h') = take_entry-fits e (Holds-dequeue h).1 room b fits in
      (q', pass_done n left e q (dequeue q).1 q' (Holds-dequeue h).0 refl run, h')
    where
      room : length xs < cap
      room = omega (arith, length-le-cap h)

  -- The pass takes the first entry that is large enough and leaves those before it at the end.
  alloc_pass-first :
      (left : ℕ) (pre post : List ℕ) (e : ℕ) (q : Queue)
      → Holds cap q (pre ++ e ∷ post)
      → length pre < left
      → All (λ x. get_pg_cnt x < n) pre
      → IsBlock e
      → n ≤ get_pg_cnt e
      → (q' : Queue) × (alloc_pass 0 n left q ≡ ok (took (get_addr e) q'))
        × Holds cap q' (remainder n e ++ post ++ pre)
  alloc_pass-first zero pre post e q h room short b fits = absurd (omega arith)
  alloc_pass-first (suc left) [] post e q h room short b fits =
      rw append-nil (alloc_pass-fits left e h b fits)
  alloc_pass-first (suc left) (x ∷ pre) post e q h room short b fits =
      let (q1, run, h1) = alloc_pass-short left x h short.0 in
      let (q2, run2, h2) =
        alloc_pass-first left pre (post ++ x ∷ []) e q1 (rw regroup at h1) (omega arith) short.1 b
          fits in
      (q2, run ∙ run2, rw regroup2 at h2)
    where
      regroup : (pre ++ e ∷ post) ++ x ∷ [] ≡ pre ++ e ∷ (post ++ x ∷ [])
      regroup = append_assoc pre (e ∷ post) (x ∷ [])

      regroup2 : remainder n e ++ (post ++ x ∷ []) ++ pre ≡ remainder n e ++ post ++ x ∷ pre
      regroup2 = simp append_assoc

-- The pages that a request of `size` bytes needs.
abbrev pub pages_of : ℕ → ℕ
pages_of size = (size + 4095) / 4096

-- The first pass decides, without a compaction.
first_try :
    (domain color flags size : ℕ) (s : Allocator) (n addr : ℕ) (q : Queue)
    → round_up_po2 size btm_level ≡ n * 4096
    → u32 (n * 4096 / btm_level) ≡ n
    → alloc_pass 0 n s.queue.ent_cnt s.queue ≡ ok (took addr q)
    → pagealloc_alloc domain color flags size s
      ≡ ok (addr, record s { queue = q; free_mem = sub64 s.free_mem (n * 4096) })
unfolding pagealloc_alloc alloc_tries entcnt
first_try domain color flags size s n addr q rounded count run = ground arith

-- For at most 2 ^ 42 bytes, where a free block has enough pages and the entries before it have
-- too few, `pagealloc_alloc` returns the address of that block, keeps the rest of the block at
-- the head of the queue, and moves the entries before it to the end; whatever the flags are: a request for memory
-- below 4 GiB (`physmem_alloc_flags_32bit`) gets that block too, even if it lies above.
pub pagealloc_alloc-first :
    {cap : ℕ} (domain color flags size : ℕ) (s : Allocator) (pre post : List ℕ) (e : ℕ)
    → Holds cap s.queue (pre ++ e ∷ post)
    → size ≤ 2 ^ 42
    → All (λ x. get_pg_cnt x < pages_of size) pre
    → IsBlock e
    → pages_of size ≤ get_pg_cnt e
    → (s' : Allocator) × (pagealloc_alloc domain color flags size s ≡ ok (get_addr e, s'))
      × Holds cap s'.queue (remainder (pages_of size) e ++ post ++ pre)
      × (s'.free_mem ≡ sub64 s.free_mem (pages_of size * 4096))
pagealloc_alloc-first {cap} domain color flags size s pre post e h bound short b fits =
    let (q', run, h') =
      alloc_pass-first (pages_of size) (omega arith) s.queue.ent_cnt pre post e s.queue h enough
        short b fits in
    (
      record s { queue = q'; free_mem = sub64 s.free_mem (pages_of size * 4096) },
      first_try domain color flags size s (pages_of size) (get_addr e) q' rounded count run,
      h',
      refl,
    )
  where
    rounded : round_up_po2 size btm_level ≡ pages_of size * 4096
    rounded = round_up_po2-eq size (omega arith)

    count : u32 (pages_of size * 4096 / btm_level) ≡ pages_of size
    count = omega arith

    enough : length pre < s.queue.ent_cnt
    enough = omega (arith, ent_cnt-length h, length-append {0} pre (e ∷ post))
