-- ===== src/Vmem/Steps.antt =====
-- One step of the walks: what `vmem_virttophys_st` and `vmem_map_st` do with one entry.
use cardinal.Base.{
  ℕ, zero, suc, ◌+◌, ◌-◌, ◌*◌, ◌/◌, ◌%◌, ◌<◌, ◌≡◌, ◌≢◌, refl, ◌∙◌, ap, ◌==◌, Bool, true, false, not,
  ◌||◌, ◌&&◌, List, some, get_or, bit_and, u64, kib, Outcome, ok, ok->>=, arith,
}
use cardinal.Vmem.{
  Table, page, Entries, Code, err_none, Config, table_at, index, level_size, largepage_avail, has,
  largepage_bit, addr_mask,
}
use cardinal.Vmem.Walk.{PageSource, Space, vmem_virttophys_st, next_table, down_loop, vmem_map_st}
use cardinal.Vmem.Entry.{Shows}
use cardinal.Vmem.Run.{index-value}
use cardinal.Vmem.Chain.{more, linked, Gives}

-- Sizes of pages, as the arrays have them.
pub level_facts :
    (lv k off : ℕ)
    → lv < 4
    → ((k * level_size lv) % 4096 ≡ 0)
      × (off / level_size lv * level_size lv + off % level_size lv ≡ off)
      × (0 < level_size lv)
level_facts zero k off lt = (omega arith, omega arith, omega arith)
level_facts (suc zero) k off lt = (omega arith, omega arith, omega arith)
level_facts (suc (suc zero)) k off lt = (omega arith, omega arith, omega arith)
level_facts (suc (suc (suc zero))) k off lt = (omega arith, omega arith, omega arith)
level_facts (suc (suc (suc (suc lv)))) k off lt = absurd (omega arith)

pub run_bytes : (lv n : ℕ) → lv < 4 → 0 < n → n * level_size lv ≢ 0
run_bytes zero n lt pos e = omega arith
run_bytes (suc zero) n lt pos e = omega arith
run_bytes (suc (suc zero)) n lt pos e = omega arith
run_bytes (suc (suc (suc zero))) n lt pos e = omega arith
run_bytes (suc (suc (suc (suc lv)))) n lt pos e = omega arith

pub levels_left : (leaf : ℕ) → leaf < 4 → more leaf (suc (3 - leaf)) ≡ 4
levels_left zero lt = refl
levels_left (suc zero) lt = refl
levels_left (suc (suc zero)) lt = refl
levels_left (suc (suc (suc zero))) lt = refl
levels_left (suc (suc (suc (suc leaf)))) lt = absurd (omega arith)

-- Only the last level has pages of 4 KiB.
pub small_pages : (lv leaf : ℕ) → lv < leaf → leaf < 4 → (level_size lv == kib 4) ≡ false
small_pages zero leaf lt four = refl
small_pages (suc zero) leaf lt four = refl
small_pages (suc (suc zero)) leaf lt four = refl
small_pages (suc (suc (suc lv))) leaf lt four = absurd (omega arith)

module _ (cfg : Config) where
  abbrev pub avail : ℕ → Bool
  avail lv = get_or (largepage_avail cfg.huge) lv false

  -- The walk ends at an entry for a page.
  pub walk_leaf :
      (left lv : ℕ) (es : Entries) (t : Table) (v addr : ℕ)
      → Shows (es t (index lv v)) addr (not (level_size lv == kib 4))
      → avail lv ≡ true
      → vmem_virttophys_st cfg (suc left) lv es t v ≡ ok (some (u64 (addr + v % level_size lv)))
  unfolding vmem_virttophys_st
  walk_leaf left lv es t v addr s av =
      rw (vmem_virttophys_st, s.present, s.size_bit, av, ends (level_size lv == kib 4), s.leads)
        refl
    where
      ends : (b : Bool) → (not b && true || b) ≡ true
      ends true = refl
      ends false = refl

  -- The walk goes on at an entry for a table.
  pub walk_down :
      (left lv : ℕ) (es : Entries) (t : Table) (v next : ℕ)
      → Shows (es t (index lv v)) next false
      → (level_size lv == kib 4) ≡ false
      → table_at cfg next ≡ ok (page next)
      → vmem_virttophys_st cfg (suc left) lv es t v
        ≡ vmem_virttophys_st cfg left (lv + 1) es (page next) v
  unfolding vmem_virttophys_st
  walk_down left lv es t v next s small at =
      rw (vmem_virttophys_st, s.present, s.size_bit, small)
        (ok->>= _ (ap (table_at cfg) s.leads ∙ at))

module _ (P : PageSource) (cfg : Config) where
  pub next_table-there :
      (t : Table) (idx next : ℕ) (s : Space P)
      → Shows (s.entries t idx) next false
      → next ≢ 0
      → next_table P cfg t idx s ≡ ok (next, s)
  unfolding next_table
  next_table-there t idx next s h ne =
      let e : (next == 0) ≡ false = ground arith in
      rw (next_table, h.leads, e) (ap (λ (m : ℕ). ok (m, s)) h.leads)

  pub next_table-new :
      (t : Table) (idx a : ℕ) (es : Entries) (src src' : P.State) (seen : List Table)
      → bit_and (es t idx) addr_mask ≡ 0
      → Gives P cfg seen src a src'
      → next_table P cfg t idx (record { entries = es; source = src })
        ≡ ok (a, record { entries = linked es t idx a; source = src' })
  unfolding next_table
  next_table-new t idx a es src src' seen none_there g =
      let ne = g.nonzero in
      let e : (a == 0) ≡ false = ground arith in
      rw (next_table, none_there) (ok->>= _ g.run ∙ rw e (ok->>= _ g.mapped))

  -- One round, in which the table below takes all of the run.
  pub down_once :
      (next : Table → ℕ → ℕ → ℕ → Space P → Outcome (Code × Space P))
      (room lv idx virt phys size n_lv : ℕ) (t : Table) (s s1 s2 : Space P)
      → size ≢ 0
      → next_table P cfg t idx s ≡ ok (n_lv, s1)
      → has (s1.entries t idx) largepage_bit ≡ false
      → table_at cfg n_lv ≡ ok (page n_lv)
      → next (page n_lv) virt phys size s1 ≡ ok (err_none, s2)
      → down_loop P cfg next (suc room) lv t idx virt phys size s ≡ ok (err_none, s2)
  unfolding down_loop
  down_once next room lv idx virt phys size n_lv t s s1 s2 ne first small at below =
      let e : (size == 0) ≡ false = ground arith in
      rw (down_loop, e) (ok->>= _ first ∙ rw small (ok->>= _ at ∙ ok->>= _ below))

  pub map_down :
      (perms left lv virt phys size : ℕ) (t : Table) (s : Space P)
      → lv < 4
      → (size % level_size lv == 0 && avail cfg lv) ≡ false
      → vmem_map_st P cfg perms (suc left) lv t virt phys size s
        ≡ down_loop P cfg
            (vmem_map_st P cfg perms left (lv + 1))
            (suc (511 - index lv virt))
            lv
            t
            (index lv virt)
            virt
            phys
            size
            s
  unfolding vmem_map_st
  map_down perms left lv virt phys size t s lt no_leaf =
      let rooms : 512 - index lv virt ≡ suc (511 - index lv virt) =
        omega (arith, index-value lv virt lt) in
      rw (vmem_map_st, no_leaf, rooms) refl
