-- ===== src/Vmem/Translate.antt =====
-- What `vmem_map_st` maps is what `vmem_virttophys_st` finds.
use native.Mathlib.Nat.{mul-mod_left}
use mathlib.Core.Path.{subst}
use cardinal.Base.{
  ℕ, zero, suc, ◌+◌, ◌-◌, ◌*◌, ◌/◌, ◌%◌, ◌^◌, ◌≤◌, ◌<◌, ◌≡◌, ◌≢◌, inl, inr, refl, ◌∙◌, ap, ◌==◌,
  true, false, not, ◌&&◌, List, ◌∷◌, some, kib, ok, arith,
}
use cardinal.Vmem.{Table, page, Entries, err_none, Config, table_at, index, level_size}
use cardinal.Vmem.Walk.{PageSource, Space, entry_flags, vmem_virttophys_st, next_table, vmem_map_st}
use cardinal.Vmem.Entry.{Shows, entry_flags-Shows}
use cardinal.Vmem.Run.{InTable, index-run, index-above}
use cardinal.Vmem.Fill.{Filled, fill_loop-Filled}
use cardinal.Vmem.Steps.{
  level_facts, run_bytes, levels_left, small_pages, avail, walk_leaf, walk_down, next_table-there,
  next_table-new, down_once, map_down,
}
use cardinal.Vmem.Chain.{
  more, Fresh, Same, Same-refl, Same-trans, Same-apart, Chain, linked, linked-Shows, linked-Same,
}

module _ (P : PageSource) (cfg : Config) (perms virt n leaf : ℕ) (run : InTable leaf virt n)
    (some_pages : 0 < n) where
  abbrev pub size : ℕ
  size = n * level_size leaf

  -- Every address of the run is found `left` levels on, at its own place.
  abbrev pub Found : ℕ → ℕ → ℕ → Table → Entries → Type 0
  Found phys left lv t es =
      (off : ℕ)
      → off < size
      → vmem_virttophys_st cfg left lv es t (virt + off) ≡ ok (some (phys + off))

  -- Tables that are not on the way agree.
  abbrev pub Agree : List Table → Entries → Entries → Type 0
  Agree seen new es = (u : Table) → Fresh u seen → (i : ℕ) → es u i ≡ new u i

  -- What mapping has done: the run is found, whatever happens to the tables in `seen`, which are as before.
  pub record Mapped (phys left lv : ℕ) (t : Table) (seen : List Table) (old new : Entries)
      : Type 0 where
    pub found : (es : Entries) → Agree seen new es → Found phys left lv t es
    pub same : Same seen old new

  module _ (phys : ℕ) (aligned : phys % 4096 ≡ 0) (small : phys + size ≤ 2 ^ 52)
      (av : avail cfg leaf ≡ true) where
    Filled-Found :
        (left : ℕ) (t : Table) (old new es : Entries)
        → Filled t
            (index leaf virt)
            n
            (level_size leaf)
            (entry_flags perms (not (level_size leaf == kib 4)))
            phys
            old
            new
        → ((i : ℕ) → es t i ≡ new t i)
        → Found phys (suc left) leaf t es
    Filled-Found left t old new es f agree off lt =
        let (at, same_rest, inside) = index-run leaf virt n off run lt in
        let (whole, parts, pos) = level_facts leaf (off / level_size leaf) off run.level in
        walk_leaf cfg left leaf es t (virt + off) (phys + off / level_size leaf * level_size leaf)
          (rw
            (
              at,
              agree (index leaf virt + off / level_size leaf),
              f.entry (off / level_size leaf) inside,
            )
            (entry_flags-Shows perms _ (not (level_size leaf == kib 4)) (omega arith)
              (omega arith)))
          av
        ∙ ap (λ (a : ℕ). ok (some a)) (rw same_rest (omega arith))

    map_leaf :
        (left : ℕ) (t : Table) (seen : List Table) (es : Entries) (src : P.State)
        → Chain P cfg virt n zero leaf t seen es src
        → (s' : Space P) × (vmem_map_st P cfg perms
              (suc left)
              leaf
              t
              virt
              phys
              size
              (record { entries = es; source = src })
            ≡ ok (err_none, s'))
          × Mapped phys (suc left) leaf t seen es s'.entries
    unfolding vmem_map_st
    map_leaf left t seen es src (fresh, free) =
        let (new, done, f) =
          fill_loop-Filled n (512 - index leaf virt) t (index leaf virt) (level_size leaf)
            (entry_flags perms (not (level_size leaf == kib 4))) phys es (omega (arith, run.room))
            (level_facts leaf 0 0 run.level).2 (omega arith) free in
        (
          record { entries = new; source = src },
          rw (vmem_map_st, mul-mod_left n (level_size leaf), av, done) refl,
          record {
            found = λ es' agree. Filled-Found left t es new es' f (agree t fresh);
            same = Same-apart seen t es new fresh f.other;
          },
        )

module _ (P : PageSource) (cfg : Config) (perms virt n leaf phys : ℕ) (run : InTable leaf virt n)
    (some_pages : 0 < n) (aligned : phys % 4096 ≡ 0) (small : phys + n * level_size leaf ≤ 2 ^ 52)
    (av : avail cfg leaf ≡ true)
    (smaller : (lv : ℕ)
      → lv < leaf
      → ((n * level_size leaf) % level_size lv == 0 && avail cfg lv) ≡ false) where
  abbrev pub Result : ℕ → ℕ → Table → List Table → Entries → P.State → Type 0
  Result left lv t seen es src =
      (s' : Space P) × (vmem_map_st P cfg perms left lv t virt phys (n * level_size leaf)
          (record { entries = es; source = src })
        ≡ ok (err_none, s'))
      × Mapped P cfg perms virt n leaf run some_pages phys left lv t seen es s'.entries

  some_bytes : n * level_size leaf ≢ 0
  some_bytes e = run_bytes leaf n run.level some_pages e

  -- A level above, once its entry leads to the table below.
  map_above :
      (left lv next : ℕ) (t : Table) (seen : List Table) (es : Entries) (src : P.State)
      (s1 : Space P)
      → lv < leaf
      → Fresh t seen
      → next_table P cfg t (index lv virt) (record { entries = es; source = src }) ≡ ok (next, s1)
      → Shows (s1.entries t (index lv virt)) next false
      → table_at cfg next ≡ ok (page next)
      → Same seen es s1.entries
      → Result left (lv + 1) (page next) (t ∷ seen) s1.entries s1.source
      → Result (suc left) lv t seen es src
  map_above left lv next t seen es src s1 lt fresh first h at same (s2, below, m) = (
    s2,
    map_down P cfg perms left lv virt phys (n * level_size leaf) t
          (record { entries = es; source = src }) (omega (arith, run.level)) (smaller lv lt)
        ∙ down_once P cfg (vmem_map_st P cfg perms left (lv + 1)) (511 - index lv virt) lv
            (index lv virt) virt phys (n * level_size leaf) next t
            (record { entries = es; source = src }) s1 s2 some_bytes first h.size_bit at below,
    record {
      found = λ es' agree off off_lt.
          walk_down cfg left lv es' t (virt + off) next
            (rw
              (
                index-above lv leaf virt n off lt run off_lt,
                agree t fresh (index lv virt),
                m.same.0 (index lv virt),
              )
              h)
            (small_pages lv leaf lt run.level) at
          ∙ m.found es' (λ u f. agree u f.1) off off_lt;
      same = Same-trans seen es s1.entries s2.entries same m.same.1;
    },
  )

  map-Chain :
      (d left lv : ℕ) (t : Table) (seen : List Table) (es : Entries) (src : P.State)
      → lv + d ≡ leaf
      → Chain P cfg virt n d lv t seen es src
      → Result (more d (suc left)) lv t seen es src
  map-Chain zero left lv t seen es src e chain =
      subst (λ k. Chain P cfg virt n zero k t seen es src → Result (suc left) k t seen es src)
        (omega arith)
        (map_leaf P cfg perms virt n leaf run some_pages phys aligned small av left t seen es src)
        chain
  map-Chain (suc d) left lv t seen es src e (fresh, inl (next, h, ne, at, chain)) =
      map_above (more d (suc left)) lv next t seen es src (record { entries = es; source = src })
        (omega arith) fresh
        (next_table-there P cfg t (index lv virt) next (record { entries = es; source = src }) h ne)
        h at (Same-refl seen es)
        (map-Chain d left (lv + 1) (page next) (t ∷ seen) es src (omega arith) chain)
  map-Chain (suc d) left lv t seen es src e (fresh, inr (none_there, a, src', g, chain)) =
      map_above (more d (suc left)) lv a t seen es src
        (record { entries = linked es t (index lv virt) a; source = src' }) (omega arith) fresh
        (next_table-new P cfg t (index lv virt) a es src src' (t ∷ seen) none_there g)
        (linked-Shows es t (index lv virt) a g.aligned g.small) g.mapped
        (linked-Same seen es t (index lv virt) a fresh g.fresh.1)
        (map-Chain d left (lv + 1) (page a) (t ∷ seen) (linked es t (index lv virt) a) src'
          (omega arith) chain)

  -- A run of pages of one size inside one table, that no larger pages take: where the tables on the way
  -- exist or can be allocated and the entries are free, `vmem_map_st` from the root returns 0; then each
  -- address of the run is translated to its place, and the tables in `seen` are as before.
  pub vmem_map_st-Mapped :
      (t : Table) (seen : List Table) (es : Entries) (src : P.State)
      → Chain P cfg virt n leaf 0 t seen es src
      → Result 4 0 t seen es src
  vmem_map_st-Mapped t seen es src chain =
      subst (λ k. Result k 0 t seen es src) (levels_left leaf run.level)
        (map-Chain leaf (3 - leaf) 0 t seen es src (omega arith) chain)
