-- ===== src/Vmem/Active.antt =====
-- What the functions of kernel/src/vmem.c map is what they translate, in both halves; the table of the
-- processor, `lcl->ktable`, and the tables that are copied to it and from it.
use cardinal.Base.{
  ℕ, zero, suc, ◌+◌, ◌-◌, ◌*◌, ◌%◌, ◌^◌, ◌≤◌, ◌<◌, ◌≡◌, refl, ◌∙◌, sym, ap, ◌==◌, ltb, leb, Bool,
  true, false, ◌&&◌, ◌||◌, [], ◌∷◌, get_or, bit_and, u64, kib, Option, none, some, Outcome, ok,
  ok->>=, ◌>>=◌, arith,
}
use cardinal.Vmem.{
  Table, kernel_root, user_root, page, same_table, Entries, err_none, Config, table_at, index,
  level_size, has, present_bit, largepage_bit, largepage_avail, addr_mask,
}
use cardinal.Vmem.Walk.{PageSource, vmem_virttophys_st}
use cardinal.Vmem.Run.{InTable, index-value}
use cardinal.Vmem.Fill.{same_table_self, same_table-sym}
use cardinal.Vmem.Chain.{Chain}
use cardinal.Vmem.Translate.{vmem_map_st-Mapped}
use cardinal.Vmem.Steps.{run_bytes, avail}
use cardinal.Vmem.Calls.{Vmem, is_kernel, copy_half, publish_kernel, vmem_map, vmem_virttophys}

-- The walk looks at the entry of its first table only.
pub walk-root :
    (cfg : Config) (left lv : ℕ) (es : Entries) (t u : Table) (v : ℕ)
    → es t (index lv v) ≡ es u (index lv v)
    → vmem_virttophys_st cfg left lv es t v ≡ vmem_virttophys_st cfg left lv es u v
unfolding vmem_virttophys_st
walk-root cfg zero lv es t u v e = refl
walk-root cfg (suc left) lv es t u v e =
    ap
      (λ (ent : ℕ). elim (has ent present_bit) as (λ x. Outcome (Option ℕ)) [
        | false ↦ ok none
        | true ↦
            elim (has ent largepage_bit && get_or (largepage_avail cfg.huge) lv false
                || level_size lv == kib 4)
              as (λ x. Outcome (Option ℕ)) [
                | true ↦ ok (some (u64 (bit_and ent addr_mask + v % level_size lv)))
                | false ↦ table_at cfg (bit_and ent addr_mask) >>= λ next.
                    vmem_virttophys_st cfg left (lv + 1) es next v
              ]
      ])
      e

-- The addresses of the two halves.
pub user_index : (v : ℕ) → v < 2 ^ 47 → index 0 v < 256
user_index v lt = omega (arith, index-value 0 v (omega arith))

pub kernel_index :
    (v : ℕ) → 2 ^ 64 - 2 ^ 47 ≤ v → v < 2 ^ 64 → (256 ≤ index 0 v) × (index 0 v < 512)
kernel_index v le lt = omega (arith, index-value 0 v (omega arith))

pub copy_half-upper :
    (es : Entries) (to from : Table) (i : ℕ)
    → 256 ≤ i
    → i < 512
    → copy_half true es to from to i ≡ es from i
unfolding copy_half
copy_half-upper es to from i le lt =
    let self = same_table_self to in
    let a : leb 256 i ≡ true = ground arith in
    let b : ltb i 512 ≡ true = ground arith in rw (self, a, b) refl

pub copy_half-lower :
    (es : Entries) (to from : Table) (i : ℕ) → i < 256 → copy_half false es to from to i ≡ es from i
unfolding copy_half
copy_half-lower es to from i lt =
    let self = same_table_self to in let b : ltb i 256 ≡ true = ground arith in rw (self, b) refl

pub copy_half-other :
    (upper : Bool) (es : Entries) (to from t : Table) (i : ℕ)
    → same_table to t ≡ false
    → copy_half upper es to from t i ≡ es t i
unfolding copy_half
copy_half-other upper es to from t i apart = rw apart refl

-- A published entry of the kernel's half.
pub published :
    (es : Entries) (k v : ℕ)
    → 2 ^ 64 - 2 ^ 47 ≤ v
    → v < 2 ^ 64
    → copy_half true es (page k) kernel_root (page k) (index 0 v)
      ≡ copy_half true es (page k) kernel_root kernel_root (index 0 v)
unfolding same_table
published es k v le lt =
    let (low, high) = kernel_index v le lt in
    copy_half-upper es (page k) kernel_root (index 0 v) low high
    ∙ sym (copy_half-other true es (page k) kernel_root kernel_root (index 0 v) refl)

module _ (P : PageSource) (cfg : Config) (perms virt n leaf phys : ℕ) (run : InTable leaf virt n)
    (some_pages : 0 < n) (aligned : phys % 4096 ≡ 0) (small : phys + n * level_size leaf ≤ 2 ^ 52)
    (av : avail cfg leaf ≡ true)
    (smaller : (lv : ℕ)
      → lv < leaf
      → ((n * level_size leaf) % level_size lv == 0 && avail cfg lv) ≡ false)
    (s : Vmem P) (vm : ℕ) where
  -- `vmem_map` returns 0, and then each address of the run is translated to its place.
  abbrev pub Translated : Option ℕ → Type 0
  Translated space =
      (s' : Vmem P) × (vmem_map P cfg vm virt phys (n * level_size leaf) perms s
        ≡ ok (err_none, s'))
      × ((off : ℕ)
          → off < n * level_size leaf
          → vmem_virttophys P cfg space (virt + off) s' ≡ ok (some (some (phys + off))))

  -- For a run of aligned pages below 2^47 inside one table, of the size that the code chooses for
  -- it, and whole pages of physical memory below 2^52: where the space is not locked, the tables
  -- on the way exist or can be allocated and the entries are free, `vmem_map` returns 0 and
  -- `vmem_virttophys` then finds each byte of the run at its place.
  pub vmem_map-user :
      virt + n * level_size leaf ≤ 2 ^ 47
      → s.locks vm ≡ 0
      → Chain P cfg virt n leaf 0 (user_root vm) [] s.space.entries s.space.source
      → Translated (some vm)
  unfolding vmem_map vmem_virttophys
  vmem_map-user below unlocked chain =
      let (space, done, m) =
        vmem_map_st-Mapped P cfg perms virt n leaf phys run some_pages aligned small av smaller
          (user_root vm) [] s.space.entries s.space.source chain in
      let some_bytes = run_bytes leaf n run.level some_pages in
      let user : (v : ℕ) → v < 2 ^ 63 → is_kernel v ≡ false = λ v lt. ground arith in
      (
        record s { space = space },
        rw (user virt (omega arith), unlocked) (ok->>= _ done),
        λ off lt.
            rw (vmem_virttophys, user (virt + off) (omega arith))
              (ok->>= _ (m.found space.entries (λ u f i. refl) off lt)),
      )

  -- For a run of aligned pages in the last 2^47 bytes inside one table, of the size that the code
  -- chooses for it, and whole pages of physical memory below 2^52: where the kernel's half is not
  -- locked, the tables on the way exist or can be allocated, the table of the processor lies in
  -- mapped memory and is none of them, and the entries are free, `vmem_map` returns 0 and
  -- `vmem_virttophys`, which walks from the table of the processor, then finds each byte of the
  -- run at its place.
  pub vmem_map-kernel :
      2 ^ 64 - 2 ^ 47 ≤ virt
      → virt + n * level_size leaf ≤ 2 ^ 64
      → s.kernel_lock ≡ 0
      → table_at cfg s.ktable ≡ ok (page s.ktable)
      → Chain P cfg virt n leaf 0 kernel_root (page s.ktable ∷ []) s.space.entries s.space.source
      → Translated none
  unfolding vmem_map vmem_virttophys publish_kernel
  vmem_map-kernel above below unlocked at chain =
      let (space, done, m) =
        vmem_map_st-Mapped P cfg perms virt n leaf phys run some_pages aligned small av smaller
          kernel_root (page s.ktable ∷ []) s.space.entries s.space.source chain in
      let some_bytes = run_bytes leaf n run.level some_pages in
      let es = copy_half true space.entries (page s.ktable) kernel_root in
      let kernel : (v : ℕ) → 2 ^ 63 ≤ v → is_kernel v ≡ true = λ v le. ground arith in
      (
        record s { space = record space { entries = es } },
        rw (kernel virt (omega arith), unlocked) (ok->>= _ done ∙ rw (publish_kernel, at) refl),
        λ off lt.
            rw (vmem_virttophys, kernel (virt + off) (omega arith))
              (ok->>= _ at
                ∙ ok->>= _ (
                    walk-root cfg 4 0 es (page s.ktable) kernel_root (virt + off)
                      (published space.entries s.ktable (virt + off) (omega arith) (omega arith))
                    ∙ m.found es
                        (λ u f i.
                          copy_half-other true space.entries (page s.ktable) kernel_root u i
                            (same_table-sym u (page s.ktable) ∙ f.0))
                        off lt)),
      )
