-- ===== src/Vmem/Walk.antt =====
-- `vmem_virttophys_st`, `vmem_map_st` and `vmem_unmap_st` of kernel/src/vmem.c. `lv` is the level and
-- `left` how many levels there are from it on; behind the last level lie no tables (`stuck`).
use cardinal.Base.{
  ℕ, zero, suc, ◌+◌, ◌-◌, ◌%◌, ◌==◌, leb, Bool, true, false, not, ◌&&◌, ◌||◌, if◌then◌else◌, Option,
  none, some, get_or, bit_and, bit_or, u64, sub64, ◌<<◌, kib, Outcome, ok, panic, stuck, ◌>>=◌,
}
use cardinal.Vmem.{
  Table, Entries, write, clear, Code, err_none, err_alreadymapped, err_continue, err_nomapping,
  Config, table_at, has, index, level_size, shamts, largepage_avail, present_bit, write_bit,
  user_bit, writethrough_bit, cachedisable_bit, writecomplete_bits, largepage_bit, noexec_bit,
  addr_mask, flag_write, flag_exec, flag_writethrough, flag_writecomplete, flag_uncached, flag_user,
}

-- What stands behind `pagealloc_alloc` and `pagealloc_free` of a page.
pub record PageSource : Type 1 where
  pub State : Type 0
  pub alloc : State → Outcome (ℕ × State)
  pub free : ℕ → State → Outcome State

pub record Space (P : PageSource) : Type 0 where
  pub entries : Entries
  pub source : P.State

-- `c_flags` of a mapping; `large` is whether its pages are larger than 4 KiB.
unfoldable pub entry_flags : ℕ → Bool → ℕ
entry_flags perms large =
    let f1 = if has perms flag_write then bit_or present_bit write_bit else present_bit in
    let f2 = if has perms flag_exec then f1 else bit_or f1 noexec_bit in
    let f3 =
      if has perms flag_writethrough
      then bit_or f2 writethrough_bit
      else if has perms flag_uncached
      then bit_or f2 cachedisable_bit
      else if has perms flag_writecomplete
      then bit_or f2 writecomplete_bits
      else f2 in
    let f4 = if has perms flag_user then bit_or f3 user_bit else f3 in
    if large then bit_or f4 largepage_bit else f4

-- The loop over the entries of one table, with `room` entries from `idx` to its end.
unfoldable pub fill_loop : ℕ → Table → ℕ → ℕ → ℕ → ℕ → ℕ → Entries → Code × Entries
unfolding write
fill_loop zero t idx sz c_flags phys size es = (if size == 0 then err_none else err_continue, es)
fill_loop (suc room) t idx sz c_flags phys size es = elim (size == 0) [
  | true ↦ (err_none, es)
  | false ↦ elim (has (es t idx) present_bit) [
    | true ↦ (err_alreadymapped, es)
    | false ↦
        fill_loop room t (idx + 1) sz c_flags (u64 (phys + sz)) (sub64 size sz)
          (write es t idx (bit_or (bit_and phys addr_mask) c_flags))
  ]
]

module _ (cfg : Config) where
  -- Whether 0 is returned, with the physical address, or -1.
  unfoldable pub vmem_virttophys_st : ℕ → ℕ → Entries → Table → ℕ → Outcome (Option ℕ)
  vmem_virttophys_st zero lv es pg virt = stuck
  vmem_virttophys_st (suc left) lv es pg virt =
      let ent = es pg (index lv virt) in
      elim (has ent present_bit) [
        | false ↦ ok none
        | true ↦
            elim (has ent largepage_bit && get_or (largepage_avail cfg.huge) lv false
              || level_size lv == kib 4) [
                | true ↦ ok (some (u64 (bit_and ent addr_mask + virt % level_size lv)))
                | false ↦ table_at cfg (bit_and ent addr_mask) >>= λ next.
                    vmem_virttophys_st left (lv + 1) es next virt
              ]
      ]

module _ (P : PageSource) (cfg : Config) where
  -- The table below an entry; a missing one is allocated and cleared.
  unfoldable pub next_table : Table → ℕ → Space P → Outcome (ℕ × Space P)
  unfolding write clear
  next_table t idx s =
      let n_lv = bit_and (s.entries t idx) addr_mask in
      elim (n_lv == 0) [
        | false ↦ ok (n_lv, s)
        | true ↦ P.alloc s.source >>= λ (got, source). elim (got == 0) [
          | true ↦ panic
          | false ↦ table_at cfg got >>= λ new. ok (
            got,
            record {
              entries =
                  write (clear s.entries new) t idx (
                    bit_or (bit_or (bit_or (bit_and got addr_mask) present_bit) write_bit)
                      user_bit);
              source = source;
            },
          )
        ]
      ]

  -- The loop over the entries of a table that lead to tables; `next` maps in a table below.
  unfoldable pub down_loop :
      (Table → ℕ → ℕ → ℕ → Space P → Outcome (Code × Space P))
      → ℕ
      → ℕ
      → Table
      → ℕ
      → ℕ
      → ℕ
      → ℕ
      → Space P
      → Outcome (Code × Space P)
  unfolding next_table
  down_loop next zero lv t idx virt phys size s = stuck
  down_loop next (suc room) lv t idx virt phys size s = elim (size == 0) [
    | true ↦ ok (err_none, s)
    | false ↦ next_table t idx s >>= λ (n_lv, s1). elim (has (s1.entries t idx) largepage_bit) [
      | true ↦ ok (err_alreadymapped, s1)
      | false ↦ table_at cfg n_lv >>= λ n_lv_d. next n_lv_d virt phys size s1 >>= λ (ret, s2).
          elim ret [
            | err_none ↦ ok (err_none, s2)
            | err_alreadymapped ↦ ok (err_alreadymapped, s2)
            | err_nomapping ↦ ok (err_nomapping, s2)
            | err_continue ↦
                let i_sz = (512 - index (lv + 1) virt) << get_or shamts (lv + 1) 0 in
                let rest =
                  down_loop next room lv t (idx + 1) (u64 (virt + i_sz)) (u64 (phys + i_sz))
                    (sub64 size i_sz) s2 in
                elim (leb 512 (idx + 1)) [ true ↦ ok (err_continue, s2) | false ↦ rest ]
          ]
    ]
  ]

  unfoldable pub vmem_map_st : ℕ → ℕ → ℕ → Table → ℕ → ℕ → ℕ → Space P → Outcome (Code × Space P)
  unfolding down_loop fill_loop entry_flags
  vmem_map_st perms zero lv t virt phys size s = stuck
  vmem_map_st perms (suc left) lv t virt phys size s =
      let idx = index lv virt in
      let sz = level_size lv in
      elim (size % sz == 0 && get_or (largepage_avail cfg.huge) lv false) [
        | true ↦
            let (ret, es) =
              fill_loop (512 - idx) t idx sz (entry_flags perms (not (sz == kib 4))) phys size
                s.entries in
            ok (ret, record s { entries = es })
        | false ↦ down_loop (vmem_map_st perms left (lv + 1)) (512 - idx) lv t idx virt phys size s
      ]

  -- The loop of `vmem_unmap_st`, with `rounds` rounds; `next` unmaps in a table below.
  unfoldable pub unmap_loop :
      (Table → ℕ → ℕ → Space P → Outcome (Code × Space P))
      → ℕ
      → ℕ
      → Table
      → ℕ
      → ℕ
      → Space P
      → Outcome (Code × Space P)
  unfolding write
  unmap_loop next zero lv t virt size s = elim (size == 0) [
    | true ↦ ok (err_none, s)
    | false ↦ stuck
  ]
  unmap_loop next (suc rounds) lv t virt size s =
      let idx = index lv virt in
      let sz = level_size lv in
      let ent = s.entries t idx in
      let skip = unmap_loop next rounds lv t (u64 (virt + sz)) (sub64 size sz) in
      let again = unmap_loop next rounds lv t virt size in
      elim (size == 0) [
        | true ↦ ok (err_none, s)
        | false ↦ table_at cfg (bit_and ent addr_mask) >>= λ below. elim (has ent present_bit) [
          | false ↦ elim (leb sz size) [ true ↦ skip s | false ↦ ok (err_nomapping, s) ]
          | true ↦ elim (leb sz size) [
            | false ↦ elim (has ent largepage_bit) [ true ↦ panic | false ↦ next below virt size s ]
            | true ↦ elim (has ent largepage_bit || sz == kib 4) [
              | true ↦ skip (record s { entries = write s.entries t idx 0 })
              | false ↦ next below virt size s >>= λ (err, s1). elim err [
                | err_none ↦ P.free (bit_and ent addr_mask) s1.source >>= λ source.
                    again (record s1 { source = source })
                | err_alreadymapped ↦ ok (err_alreadymapped, s1)
                | err_continue ↦ ok (err_continue, s1)
                | err_nomapping ↦ ok (err_nomapping, s1)
              ]
            ]
          ]
        ]
      ]

  unfoldable pub vmem_unmap_st : ℕ → ℕ → ℕ → Table → ℕ → ℕ → Space P → Outcome (Code × Space P)
  unfolding unmap_loop
  vmem_unmap_st rounds zero lv t virt size s = stuck
  vmem_unmap_st rounds (suc left) lv t virt size s =
      unmap_loop (vmem_unmap_st rounds left (lv + 1)) rounds lv t virt size s
