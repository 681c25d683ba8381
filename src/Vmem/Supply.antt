-- ===== src/Vmem/Supply.antt =====
-- The pages of the tables come from `pagealloc_alloc` of kernel/src/pagealloc.c.
use mathlib.Core.Path.{subst}
use cardinal.Base.{
  ℕ, zero, suc, ◌+◌, ◌-◌, ◌*◌, ◌%◌, ◌^◌, ◌≤◌, ◌<◌, ◌≡◌, ◌≢◌, refl, ◌==◌, ltb, leb, true, false,
  ◌&&◌, List, [], ◌∷◌, ◌++◌, some, u64, kib, gib, ok, arith,
}
use cardinal.Queue.Holds.{Holds}
use cardinal.Pagealloc.{Allocator, pagealloc_alloc, pagealloc_free}
use cardinal.Pagealloc.Entry.{get_addr, get_pg_cnt, build_entry}
use cardinal.Pagealloc.TakeEntry.{All, IsBlock, remainder}
use cardinal.Pagealloc.FirstFit.{pagealloc_alloc-first}
use cardinal.Pagealloc.Coverage.{aligned, rest_of, remainder-IsBlock}
use cardinal.Vmem.{
  Table, user_root, page, same_table, Config, table_at, vmem_phystovirt, level_size, clear,
}
use cardinal.Vmem.Walk.{PageSource}
use cardinal.Vmem.Run.{InTable}
use cardinal.Vmem.Fill.{same_table_self}
use cardinal.Vmem.Chain.{Fresh, Gives, Supply, empty-Chain}
use cardinal.Vmem.Steps.{avail}
use cardinal.Vmem.Active.{Translated, vmem_map-user}
use cardinal.Vmem.Calls.{Vmem, vmem_create}

-- The kind of page that is asked for, which the allocator does not look at.
abbrev pagetable_flags : ℕ
pagetable_flags = 1 * 2 ^ 3

-- -1 for both.
abbrev any_domain : ℕ
any_domain = 2 ^ 32 - 1

abbrev any_color : ℕ
any_color = 2 ^ 32 - 1

-- `pagealloc_alloc(-1, -1, physmem_alloc_flags_pagetable, KiB(4))` and `pagealloc_free(addr, KiB(4))`
abbrev pub allocator : PageSource
allocator = record {
  State = Allocator;
  alloc = λ s. pagealloc_alloc any_domain any_color pagetable_flags (kib 4) s;
  free = λ addr s. pagealloc_free addr (kib 4) s;
}

low_table : (cfg : Config) (a : ℕ) → a + 4096 < 2 ^ 31 → table_at cfg a ≡ ok (page a)
unfolding table_at vmem_phystovirt
low_table cfg a lt =
    let signed : leb (2 ^ 63) a ≡ false = ground arith in
    let starts : ltb a (gib 2) ≡ true = ground arith in
    let ends : ltb (u64 (a + kib 4)) (gib 2) ≡ true = ground arith in rw (signed, starts, ends) refl

pub pages-apart : {a b : ℕ} → a ≢ b → same_table (page a) (page b) ≡ false
unfolding same_table
pages-apart {a} {b} ne = ground arith

-- The block at the head of the queue after a page of it is taken.
abbrev next_block : ℕ → ℕ
next_block e = build_entry (get_addr e + 1 * 4096) (get_pg_cnt e - 1)

module _ (cfg : Config) {cap : ℕ} where
  first_page :
      (seen : List Table) (s : Allocator) (e : ℕ) (post : List ℕ)
      → Holds cap s.queue (e ∷ post)
      → IsBlock e
      → 1 ≤ get_pg_cnt e
      → get_addr e ≢ 0
      → get_addr e + 4096 < 2 ^ 31
      → Fresh (page (get_addr e)) seen
      → (s' : Allocator) × Gives allocator cfg seen s (get_addr e) s'
        × Holds cap s'.queue (remainder 1 e ++ post ++ [])
  first_page seen s e post h b one ne low fresh =
      let (s', run, h', rest) =
        pagealloc_alloc-first any_domain any_color pagetable_flags (kib 4) s [] post e h
          (omega arith) tt b one in
      (
        s',
        record {
          run = run;
          nonzero = ne;
          aligned = (aligned e b.word).0;
          small = omega arith;
          mapped = low_table cfg (get_addr e) low;
          fresh = fresh;
        },
        h',
      )

  pub pages-Supply :
      (d : ℕ) (seen : List Table) (s : Allocator) (e : ℕ) (post : List ℕ)
      → Holds cap s.queue (e ∷ post)
      → IsBlock e
      → d ≤ get_pg_cnt e
      → get_addr e ≢ 0
      → get_addr e + d * 4096 < 2 ^ 31
      → ((k : ℕ) → k < d → Fresh (page (get_addr e + k * 4096)) seen)
      → Supply allocator cfg d seen s
  pages-Supply zero seen s e post h b many ne low fresh = tt
  pages-Supply (suc zero) seen s e post h b many ne low fresh =
      let (s', g, h') =
        first_page seen s e post h b many ne (omega arith)
          (subst (λ a. Fresh (page a) seen) (omega arith) (fresh 0 (omega arith))) in
      (get_addr e, s', g, tt)
  pages-Supply (suc (suc d)) seen s e post h b many ne low fresh =
      let (s', g, h') =
        first_page seen s e post h b (omega arith) ne (omega arith)
          (subst (λ a. Fresh (page a) seen) (omega arith) (fresh 0 (omega arith))) in
      let more : ltb 1 (get_pg_cnt e) ≡ true = ground arith in
      let (addr, count, word) = rest_of 1 e b (omega arith) in
      let rest : remainder 1 e ≡ next_block e ∷ [] = rw more refl in
      let parts : remainder 1 e ++ post ++ [] ≡ next_block e ∷ post ++ [] = rw more refl in
      let block = subst (λ xs. All IsBlock xs) rest (remainder-IsBlock 1 e b) in
      (
        get_addr e,
        s',
        g,
        pages-Supply (suc d) (page (get_addr e) ∷ seen) s' (next_block e) (post ++ [])
            (subst (λ xs. Holds cap s'.queue xs) parts h') block.0 (omega (arith, count))
            (λ h0. ne (omega (arith, addr, h0))) (omega (arith, addr)) (later addr),
      )
    where
      later :
          get_addr (next_block e) ≡ get_addr e + 1 * 4096
          → (k : ℕ) → k < suc d
          → Fresh (page (get_addr (next_block e) + k * 4096)) (page (get_addr e) ∷ seen)
      later addr k lt = (
        pages-apart (omega (arith, addr)),
        subst (λ a. Fresh (page a) seen) (omega (arith, addr)) (fresh (suc k) (omega arith)),
      )

-- In a space that was just created, for a run of aligned pages below 2^47 inside one table, of the
-- size that the code chooses for it, and whole pages of physical memory below 2^52: where the
-- first free block of the page allocator is not page 0, has a page for each table on the way and
-- lies below 2 GiB, `vmem_map` returns 0 and `vmem_virttophys` then finds each byte of the run at
-- its place.
pub vmem_create-map :
    (cfg : Config) {cap : ℕ} (perms virt n leaf phys : ℕ) (run : InTable leaf virt n)
    (some_pages : 0 < n)
    → (whole : phys % 4096 ≡ 0) → (small : phys + n * level_size leaf ≤ 2 ^ 52)
    → (av : avail cfg leaf ≡ true)
    → (smaller : (lv : ℕ)
        → lv < leaf
        → ((n * level_size leaf) % level_size lv == 0 && avail cfg lv) ≡ false)
    → virt + n * level_size leaf ≤ 2 ^ 47
    → (s : Vmem allocator) (vm e : ℕ) (post : List ℕ) → Holds cap s.space.source.queue (e ∷ post)
    → IsBlock e
    → leaf ≤ get_pg_cnt e
    → get_addr e ≢ 0
    → get_addr e + leaf * 4096 < 2 ^ 31
    → Translated allocator cfg perms virt n leaf phys run some_pages whole small av smaller
        (vmem_create allocator cfg (some vm) s).1
        vm
        (some vm)
unfolding vmem_create clear same_table
vmem_create-map cfg perms virt n leaf phys run some_pages whole small av smaller below s vm e post h
      b many ne low =
    vmem_map-user allocator cfg perms virt n leaf phys run some_pages whole small av smaller
      (vmem_create allocator cfg (some vm) s).1 vm below unlocked
      (empty-Chain allocator cfg virt n leaf 0 (user_root vm) [] _ _ tt
        (λ i. rw (same_table_self (user_root vm)) refl)
        (pages-Supply cfg leaf (user_root vm ∷ []) s.space.source e post h b many ne low
          (λ k lt. (refl, tt))))
  where
    unlocked : (vmem_create allocator cfg (some vm) s).1.locks vm ≡ 0
    unlocked = ground arith
