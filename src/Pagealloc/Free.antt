-- ===== src/Pagealloc/Free.antt =====
-- `pagealloc_free` where the queue has room: exactly the given pages become free.
use mathlib.Core.List.{append-nil, append_assoc}
use cardinal.Base.{
  ℕ, zero, suc, ◌+◌, ◌-◌, ◌*◌, ◌/◌, ◌%◌, ◌^◌, ◌≤◌, ◌<◌, ◌≡◌, ◌≢◌, ◌⊎◌, ◌↔◌, ◌==◌, Bool-cases, inl,
  inr, panic, refl, ◌∙◌, sym, ap, List, [], ◌∷◌, ◌++◌, arith, length, length-append, leb,
  if◌then◌else◌, ok, u64,
}
use cardinal.Queue.{Queue, enqueue}
use cardinal.Queue.Holds.{Holds, Holds-enqueue}
use cardinal.Pagealloc.{Allocator, pagealloc_free, free_loop, insert_queue}
use cardinal.Pagealloc.Entry.{build_entry, btm_level, max_entries, get-build_entry}
use cardinal.Pagealloc.TakeEntry.{All, IsBlock, insert_queue-room}
use cardinal.Pagealloc.Coverage.{within, free_at, covers_both}

-- What the chunks added to a queue that held `xs` are.
pub record Freed (cap : ℕ) (xs : List ℕ) (addr pages : ℕ) (q : Queue) : Type 0 where
  pub added : List ℕ
  pub holds : Holds cap q (xs ++ added)
  pub blocks : All IsBlock added
  pub covers : (p : ℕ) → free_at added p ≡ within addr pages p
  pub few : length added ≤ (pages + (2 ^ 20 - 1)) / 2 ^ 20

-- The size of the chunk that the loop frees next.
abbrev chunk : ℕ → ℕ
chunk left = if leb max_entries left then max_entries else left

chunk_facts : (left : ℕ) → 0 < left → (1 ≤ chunk left) × (chunk left ≤ left) × (chunk left ≤ 2 ^ 20)
chunk_facts left pos = ground arith

chunk_cases : (left : ℕ) → (chunk left ≡ 2 ^ 20) ⊎ (chunk left ≡ left)
chunk_cases left = ground arith

free_loop-done : (fuel addr : ℕ) (q : Queue) → free_loop fuel 0 addr q ≡ ok q
unfolding free_loop
free_loop-done zero addr q = refl
free_loop-done (suc fuel) addr q = refl

free_loop-step :
    (fuel left addr : ℕ) (q q' : Queue)
    → 0 < left
    → insert_queue (build_entry addr (chunk left)) q ≡ ok q'
    → free_loop (suc fuel) left addr q
      ≡ free_loop fuel (left - chunk left) (u64 (addr + chunk left * btm_level)) q'
unfolding free_loop
free_loop-step fuel left addr q q' pos e = ground arith

free_loop-Freed :
    {cap : ℕ} (fuel left addr : ℕ) (xs : List ℕ) (q : Queue)
    → Holds cap q xs
    → left ≤ fuel * 2 ^ 20
    → length xs + fuel ≤ cap
    → addr % 4096 ≡ 0
    → addr + left * 4096 ≤ 2 ^ 56
    → (q' : Queue) × (free_loop fuel left addr q ≡ ok q') × Freed cap xs addr left q'
free_loop-Freed fuel zero addr xs q h enough room al ends = (
  q,
  free_loop-done fuel addr q,
  record {
    added = [];
    holds = rw append-nil h;
    blocks = tt;
    covers = λ p. ground arith;
    few = omega arith;
  },
)
free_loop-Freed zero (suc left) addr xs q h enough room al ends = absurd (omega arith)
free_loop-Freed {cap} (suc fuel) (suc left) addr xs q h enough room al ends =
    let facts = chunk_facts (suc left) (omega arith) in
    let e = build_entry addr (chunk (suc left)) in
    let built = get-build_entry addr (chunk (suc left)) (omega arith) al facts.0 facts.2 in
    let more = Holds-enqueue e h (omega arith) in
    let next : u64 (addr + chunk (suc left) * btm_level) ≡ addr + chunk (suc left) * 4096 =
      omega (arith, facts.1) in
    let (q', run, f) =
      free_loop-Freed fuel (suc left - chunk (suc left)) (addr + chunk (suc left) * 4096)
        (xs ++ e ∷ []) (enqueue q e).1 more.1 (ground (arith, facts))
        (omega (arith, length-append {0} xs (e ∷ []))) (omega arith) (omega (arith, facts.1)) in
    (
      q',
      free_loop-step fuel (suc left) addr q (enqueue q e).1 (omega arith)
            (insert_queue-room e h (omega arith))
          ∙ ap (λ (a : ℕ). free_loop fuel (suc left - chunk (suc left)) a (enqueue q e).1) next
          ∙ run,
      record {
        added = e ∷ f.added;
        holds = rw (append_assoc xs (e ∷ []) f.added) at f.holds;
        blocks = (
          record { word = built.2; ends = rw (built.0, built.1) (omega (arith, facts.1)) },
          f.blocks,
        );
        covers = λ p. rw (built.0, built.1, f.covers p) (split p facts.1);
        few = omega (arith, f.few, facts, chunk_cases (suc left));
      },
    )
  where
    split :
        (p : ℕ)
        → chunk (suc left) ≤ suc left
        → within addr (chunk (suc left)) p
            + within (addr + chunk (suc left) * 4096) (suc left - chunk (suc left)) p
          ≡ within addr (suc left) p
    split p le =
        sym (covers_both addr (chunk (suc left)) (suc left - chunk (suc left)) p al)
        ∙ ap (λ (k : ℕ). within addr k p) (omega (arith, le))

-- For whole pages below 2 ^ 56, with room in the queue for their chunks, `pagealloc_free`
-- returns: exactly these pages are appended to the free ones, in blocks of at most 2 ^ 20
-- pages, and `free_mem` grows by their size.
pub pagealloc_free-Freed :
    {cap : ℕ} (addr size : ℕ) (s : Allocator) (xs : List ℕ)
    → Holds cap s.queue xs
    → addr % 4096 ≡ 0
    → size % 4096 ≡ 0
    → addr + size ≤ 2 ^ 56
    → length xs + (size / 4096 / 2 ^ 20 + 1) ≤ cap
    → (s' : Allocator) × (pagealloc_free addr size s ≡ ok s')
      × Freed cap xs addr (size / 4096) s'.queue
      × (s'.free_mem ≡ u64 (s.free_mem + size))
unfolding pagealloc_free
pagealloc_free-Freed addr size s xs h al whole ends room =
    let (q, run, f) =
      free_loop-Freed (size / 4096 / 2 ^ 20 + 1) (size / 4096) addr xs s.queue h (omega arith) room
        al (omega arith) in
    (record s { queue = q; free_mem = u64 (s.free_mem + size) }, ground (arith, run), f, refl)

stops :
    (addr size : ℕ) (s : Allocator)
    → (addr % 4096 ≢ 0) ⊎ (size % 4096 ≢ 0)
    → pagealloc_free addr size s ≡ panic
unfolding pagealloc_free
stops addr size s h = ground arith

not_panic : {A : Type 0} {a : A} → ok a ≡ panic → ⊥
not_panic e = cc

-- With room in the queue for the chunks of pages below 2 ^ 56, `pagealloc_free` stops the kernel if its address or its size is
-- not of whole pages, and only then.
pub pagealloc_free-panic :
    {cap : ℕ} (addr size : ℕ) (s : Allocator) (xs : List ℕ)
    → Holds cap s.queue xs
    → addr + size ≤ 2 ^ 56
    → length xs + (size / 4096 / 2 ^ 20 + 1) ≤ cap
    → (pagealloc_free addr size s ≡ panic) ↔ ((addr % 4096 ≢ 0) ⊎ (size % 4096 ≢ 0))
pagealloc_free-panic addr size s xs h ends room = (
  λ stopped. elim (Bool-cases (addr % 4096 == 0)) [
    | inr off ↦ inl (ground arith)
    | inl aligned ↦ elim (Bool-cases (size % 4096 == 0)) [
      | inr off ↦ inr (ground arith)
      | inl whole ↦
          let (s', run, freed, mem) =
            pagealloc_free-Freed addr size s xs h (ground arith) (ground arith) ends room in
          absurd (not_panic (sym run ∙ stopped))
    ]
  ],
  λ misaligned. stops addr size s misaligned,
)
