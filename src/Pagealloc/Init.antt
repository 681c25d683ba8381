-- ===== src/Pagealloc/Init.antt =====
-- `pagealloc_init` of kernel/src/pagealloc.c, on the memory map of kernel/src/bootinfo.c.
use mathlib.Core.List.{append-nil, append_assoc}
use cardinal.Base.{
  ℕ, zero, suc, ◌+◌, ◌-◌, ◌*◌, ◌/◌, ◌%◌, ◌^◌, ◌≤◌, ◌≡◌, inl, inr, refl, ◌∙◌, ap, ◌==◌, Bool, true,
  false, if◌then◌else◌, Option, none, some, List, [], ◌++◌, length, length-append, get_or, u32,
  Outcome, ok, panic, ok->>=, ◌>>=◌, Bool-cases, arith,
}
use cardinal.Queue.{Queue, init}
use cardinal.Queue.Holds.{Holds}
use cardinal.Queue.Refine.{contents}
use cardinal.Queue.Run.{init-IsValid}
use cardinal.Bootinfo.{Region, BootInfo, available}
use cardinal.Pagealloc.{Allocator, is_negative, pagealloc_free}
use cardinal.Pagealloc.Entry.{round_up_po2, round_up_po2-eq, btm_level}
use cardinal.Pagealloc.Coverage.{within, free_at, free_at-append}
use cardinal.Pagealloc.Free.{pagealloc_free-Freed}

-- `btm_sz / 2 + 1`, of an `int32_t`.
unfoldable pub queue_entries : ℕ → ℕ
unfolding is_negative
queue_entries btm_sz =
    if is_negative btm_sz then u32 (2 ^ 32 - (2 ^ 32 - btm_sz) / 2 + 1) else btm_sz / 2 + 1

-- One entry of the map, of whole pages.
unfoldable pub free_region : Region → Allocator → Outcome Allocator
free_region r s = elim (r.kind == available) [
  | false ↦ ok s
  | true ↦
      let len = if r.len % btm_level == 0 then r.len else r.len - r.len % btm_level in
      pagealloc_free (round_up_po2 r.addr btm_level) len s
]

-- The entries from `i` on, `left` of them.
unfoldable pub region_loop : ℕ → (ℕ → Region) → ℕ → Allocator → Outcome Allocator
unfolding free_region
region_loop zero map i s = ok s
region_loop (suc left) map i s = free_region (map i) s >>= λ s'. region_loop left map (i + 1) s'

-- The array `mmap`; `stale` is what the entries that were not written hold.
abbrev pub map_entry : BootInfo → (ℕ → Region) → ℕ → Region
map_entry bi stale i = get_or bi.mmap i (stale i)

-- The hooks of stdlib.c are parameters: what `malloc` returns and whether `free` is set.
unfoldable pub pagealloc_init :
    Option (ℕ → Option (List ℕ)) → Bool → BootInfo → (ℕ → Region) → Allocator → Outcome Allocator
unfolding queue_entries region_loop
pagealloc_init malloc_hook has_free bi stale s =
    let btm_sz = u32 (round_up_po2 bi.mem_sz btm_level / btm_level) in
    elim (init malloc_hook has_free (queue_entries btm_sz)) [
      | none ↦ panic
      | some q ↦
          region_loop bi.mmap_cnt (map_entry bi stale) 0
            (record s { queue = q; mem_size = bi.mem_sz })
          >>= λ s'. ok (record s' { data_multiple = 1; instr_multiple = 1; pagetable_multiple = 1 })
    ]

-- The pages of an available entry, from its start rounded up on.
abbrev pub region_at : Region → ℕ → ℕ
region_at r p =
    if r.kind == available then within ((r.addr + 4095) / 4096 * 4096) (r.len / 4096) p else 0

-- In how many of `left` entries from `i` on the page `p` lies.
abbrev pub mapped_at : ℕ → (ℕ → Region) → ℕ → ℕ → ℕ
mapped_at zero map i p = 0
mapped_at (suc left) map i p = region_at (map i) p + mapped_at left map (i + 1) p

-- Room for the blocks of the entries.
abbrev pub blocks : ℕ → (ℕ → Region) → ℕ → ℕ
blocks zero map i = 0
blocks (suc left) map i = (map i).len / 2 ^ 32 + 1 + blocks left map (i + 1)

abbrev pub BelowEnd : (ℕ → Region) → Type 0
BelowEnd map = (i : ℕ) → (map i).addr + (map i).len + 4096 ≤ 2 ^ 56

-- A queue with the blocks of `xs` and others for the pages counted by `pages`.
pub record Added (cap : ℕ) (xs : List ℕ) (room : ℕ) (pages : ℕ → ℕ) (s : Allocator) : Type 0 where
  pub added : List ℕ
  pub holds : Holds cap s.queue (xs ++ added)
  pub few : length added ≤ room
  pub covers : (p : ℕ) → free_at added p ≡ pages p

whole_pages :
    (len : ℕ) → (if len % btm_level == 0 then len else len - len % btm_level) ≡ len / 4096 * 4096
whole_pages len = ground arith

free_region_run :
    (r : Region) (s s' : Allocator)
    → (r.kind == available) ≡ true
    → r.addr + 4096 ≤ 2 ^ 56
    → pagealloc_free ((r.addr + 4095) / 4096 * 4096) (r.len / 4096 * 4096) s ≡ ok s'
    → free_region r s ≡ ok s'
unfolding free_region
free_region_run r s s' used ends run =
    let up : round_up_po2 r.addr btm_level ≡ (r.addr + 4095) / 4096 * 4096 =
      round_up_po2-eq r.addr (omega arith) in
    rw (free_region, used, up, whole_pages r.len) run

free_region-Added :
    {cap : ℕ} (r : Region) (s : Allocator) (xs : List ℕ)
    → Holds cap s.queue xs
    → r.addr + r.len + 4096 ≤ 2 ^ 56
    → length xs + (r.len / 2 ^ 32 + 1) ≤ cap
    → (s' : Allocator) × (free_region r s ≡ ok s')
      × Added cap xs (r.len / 2 ^ 32 + 1) (region_at r) s'
unfolding free_region
free_region-Added {cap} r s xs h ends room = elim (Bool-cases (r.kind == available)) [
  | inr skipped ↦ (
    s,
    rw (free_region, skipped) refl,
    record {
      added = [];
      holds = rw append-nil h;
      few = omega arith;
      covers = λ p. rw skipped refl;
    },
  )
  | inl used ↦
      let (s', run, f, counted) =
        pagealloc_free-Freed ((r.addr + 4095) / 4096 * 4096) (r.len / 4096 * 4096) s xs h
          (omega arith) (omega arith) (omega arith) (omega arith) in
      let pages : r.len / 4096 * 4096 / 4096 ≡ r.len / 4096 = omega arith in
      (
        s',
        free_region_run r s s' used (omega arith) run,
        record {
          added = f.added;
          holds = f.holds;
          few = omega (arith, f.few);
          covers = λ p.
              rw used
                (f.covers p ∙ ap (λ (n : ℕ). within ((r.addr + 4095) / 4096 * 4096) n p) pages);
        },
      )
]

region_loop-Added :
    {cap : ℕ} (left : ℕ) (map : ℕ → Region) (i : ℕ) (s : Allocator) (xs : List ℕ)
    → BelowEnd map
    → Holds cap s.queue xs
    → length xs + blocks left map i ≤ cap
    → (s' : Allocator) × (region_loop left map i s ≡ ok s')
      × Added cap xs (blocks left map i) (mapped_at left map i) s'
unfolding region_loop
region_loop-Added zero map i s xs below h room =
    (s, refl, record { added = []; holds = rw append-nil h; few = omega arith; covers = λ p. refl })
region_loop-Added {cap} (suc left) map i s xs below h room =
    let (s1, run1, f) = free_region-Added (map i) s xs h (below i) (omega arith) in
    let (s2, run2, g) =
      region_loop-Added left map (i + 1) s1 (xs ++ f.added) below f.holds
        (omega (arith, length-append xs f.added, f.few)) in
    (
      s2,
      ok->>= _ run1 ∙ run2,
      record {
        added = f.added ++ g.added;
        holds = rw⁻¹ (append_assoc xs f.added g.added) g.holds;
        few = omega (arith, length-append f.added g.added, f.few, g.few);
        covers = λ p. omega (arith, free_at-append f.added g.added p, f.covers p, g.covers p);
      },
    )

pub entries_of :
    (mem : ℕ)
    → mem ≤ 2 ^ 42
    → queue_entries (u32 (round_up_po2 mem btm_level / btm_level)) ≡ (mem + 4095) / 4096 / 2 + 1
unfolding queue_entries is_negative
entries_of mem small =
    let up : round_up_po2 mem btm_level ≡ (mem + 4095) / 4096 * 4096 =
      round_up_po2-eq mem (omega arith) in
    rw up (ground arith)

init_run :
    (malloc_hook : ℕ → Option (List ℕ)) (has_free : Bool) (bi : BootInfo) (stale : ℕ → Region)
    (s s' : Allocator) (q : Queue)
    → bi.mem_sz ≤ 2 ^ 42
    → init (some malloc_hook) has_free ((bi.mem_sz + 4095) / 4096 / 2 + 1) ≡ some q
    → region_loop bi.mmap_cnt (map_entry bi stale) 0 (record s { queue = q; mem_size = bi.mem_sz })
      ≡ ok s'
    → pagealloc_init (some malloc_hook) has_free bi stale s
      ≡ ok (record s' { data_multiple = 1; instr_multiple = 1; pagetable_multiple = 1 })
unfolding pagealloc_init
init_run malloc_hook has_free bi stale s s' q small made run =
    rw (pagealloc_init, entries_of bi.mem_sz small, made) (ok->>= _ run)

-- For at most 2^42 bytes of memory and a map below 2^56, where `malloc` returns the queue's
-- storage and the queue has room for the blocks of the entries, `pagealloc_init` returns; then a
-- page is free as many times as it lies in an available entry of the map, counted from the start
-- of the entry rounded up and for its length rounded down.
pub pagealloc_init-frees :
    (malloc_hook : ℕ → Option (List ℕ)) (has_free : Bool) (bi : BootInfo) (stale : ℕ → Region)
    (s : Allocator) (storage : List ℕ)
    → bi.mem_sz ≤ 2 ^ 42
    → malloc_hook ((((bi.mem_sz + 4095) / 4096) / 2 + 1) * 8) ≡ some storage
    → ((bi.mem_sz + 4095) / 4096) / 2 + 1 ≤ length storage
    → BelowEnd (map_entry bi stale)
    → blocks bi.mmap_cnt (map_entry bi stale) 0 ≤ (bi.mem_sz + 4095) / 4096 / 2
    → (s' : Allocator) × (pagealloc_init (some malloc_hook) has_free bi stale s ≡ ok s')
      × ((p : ℕ) → free_at (contents s'.queue) p ≡ mapped_at bi.mmap_cnt (map_entry bi stale) 0 p)
pagealloc_init-frees malloc_hook has_free bi stale s storage small got room below fits =
    let (q, made, valid, empty, cap) =
      init-IsValid malloc_hook has_free ((bi.mem_sz + 4095) / 4096 / 2 + 1) storage (omega arith)
        (omega arith) got (omega arith) in
    let (s', run, f) =
      region_loop-Added bi.mmap_cnt (map_entry bi stale) 0
        (record s { queue = q; mem_size = bi.mem_sz }) [] below
        (record { valid = valid; shows = empty; room = cap }) (omega (arith, fits)) in
    (
      record s' { data_multiple = 1; instr_multiple = 1; pagetable_multiple = 1 },
      init_run malloc_hook has_free bi stale s s' q (omega arith) made run,
      λ p. ap (λ xs. free_at xs p) f.holds.shows ∙ f.covers p,
    )
