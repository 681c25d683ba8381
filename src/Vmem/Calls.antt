-- ===== src/Vmem/Calls.antt =====
-- The functions of kernel/inc/vmem.h on one processor. A `vmem_t *` is the number of its space; NULL is
-- `none` where the code tests for it. A lock that is held is waited for in vain (`stuck`).
use cardinal.Base.{
  ℕ, zero, suc, ◌+◌, ◌-◌, ◌/◌, ◌^◌, ◌==◌, ltb, leb, Bool, true, false, ◌&&◌, if◌then◌else◌, Option,
  none, some, List, [], ◌∷◌, u64, kib, gib, Outcome, ok, stuck, ◌>>=◌,
}
use cardinal.Vmem.{
  Table, kernel_root, user_root, same_table, Entries, clear, Code, Config, table_at, flag_user,
}
use cardinal.Vmem.Walk.{PageSource, Space, vmem_virttophys_st, vmem_map_st, vmem_unmap_st}

-- `kmem`, the user spaces and `lcl`. Locks are 0 or 1.
pub record Vmem (P : PageSource) : Type 0 where
  pub space : Space P
  pub kernel_lock : ℕ
  pub kernel_flags : ℕ
  pub locks : ℕ → ℕ
  pub flags : ℕ → ℕ
  pub ktable : ℕ
  pub cur_vmem : Option ℕ

-- `virt < 0`
abbrev pub is_kernel : ℕ → Bool
is_kernel virt = leb (2 ^ 63) virt

-- `memcpy(to, from, 256 * sizeof(uint64_t))`, of the lower or the upper halves of two tables.
unfoldable pub copy_half : Bool → Entries → Table → Table → Entries
copy_half upper es to from t i =
    if same_table to t && (if upper then leb 256 i && ltb i 512 else ltb i 256)
    then es from i
    else es t i

abbrev pub with_lock {ℓ} : {A : Type ℓ} → ℕ → Outcome A → Outcome A
with_lock lock body = if lock == 0 then body else stuck

module _ (P : PageSource) (cfg : Config) where
  -- The kernel's half is copied to the table of this processor.
  unfoldable pub publish_kernel : Vmem P → Outcome (Vmem P)
  unfolding copy_half
  publish_kernel s = table_at cfg s.ktable >>= λ p_table. ok (record s {
    space = record (s.space) { entries = copy_half true s.space.entries p_table kernel_root };
  })

  unfoldable pub vmem_map : ℕ → ℕ → ℕ → ℕ → ℕ → Vmem P → Outcome (Code × Vmem P)
  unfolding publish_kernel
  vmem_map vm virt phys size perms s =
      if is_kernel virt
      then with_lock s.kernel_lock (
          vmem_map_st P cfg perms 4 0 kernel_root virt phys size s.space >>= λ (ret, space).
          publish_kernel (record s { space = space }) >>= λ s1. ok (ret, s1))
      else with_lock (s.locks vm) (
          vmem_map_st P cfg perms 4 0 (user_root vm) virt phys size s.space >>= λ (ret, space).
          ok (ret, record s { space = space }))

  -- `size` is set to 0 first; one round finds that out.
  unfoldable pub vmem_unmap : ℕ → ℕ → ℕ → Vmem P → Outcome (Code × Vmem P)
  unfolding publish_kernel
  vmem_unmap vm virt size s =
      if is_kernel virt
      then with_lock s.kernel_lock (
          vmem_unmap_st P cfg 1 4 0 kernel_root virt 0 s.space >>= λ (ret, space).
          publish_kernel (record s { space = space }) >>= λ s1. ok (ret, s1))
      else with_lock (s.locks vm) (
          vmem_unmap_st P cfg 1 4 0 (user_root vm) virt 0 s.space >>= λ (ret, space).
          ok (ret, record s { space = space }))

  -- `malloc` gives the number of the new space, or none for NULL; none is returned for -1.
  unfoldable pub vmem_create : Option ℕ → Vmem P → Option ℕ × Vmem P
  unfolding clear
  vmem_create none s = (none, s)
  vmem_create (some vm) s = (
    some vm,
    record s {
      space = record (s.space) { entries = clear s.space.entries (user_root vm) };
      locks = λ v. if v == vm then 0 else s.locks v;
      flags = λ v. if v == vm then flag_user else s.flags v;
    },
  )

  -- The space that is handed to `free`, which keeps its lock.
  unfoldable pub vmem_destroy : Option ℕ → Vmem P → Outcome (Option ℕ × Vmem P)
  vmem_destroy none s = ok (none, s)
  vmem_destroy (some vm) s =
      with_lock (s.locks vm)
        (ok (some vm, record s { locks = λ v. if v == vm then 1 else s.locks v }))

  -- The lower half of `vmem_savestate`.
  unfoldable pub save_user : Vmem P → Outcome (Vmem P)
  unfolding copy_half
  save_user s = elim s.cur_vmem [
    | none ↦ ok s
    | some vm ↦ with_lock (s.locks vm) (
        table_at cfg s.ktable >>= λ p_table. ok (record s {
          space = record (s.space) {
            entries = copy_half false s.space.entries (user_root vm) p_table;
          };
        }))
  ]

  unfoldable pub vmem_savestate : Vmem P → Outcome (Vmem P)
  unfolding save_user copy_half
  vmem_savestate s = save_user s >>= λ s1. with_lock s1.kernel_lock (
      table_at cfg s1.ktable >>= λ p_table. ok (record s1 {
        space = record (s1.space) { entries = copy_half true s1.space.entries kernel_root p_table };
      }))

  unfoldable pub vmem_setactive : ℕ → Vmem P → Outcome (Vmem P)
  unfolding vmem_savestate copy_half
  vmem_setactive vm s = vmem_savestate s >>= λ s1. with_lock (s1.locks vm) (
      table_at cfg s1.ktable >>= λ p_table. ok (record s1 {
        space = record (s1.space) {
          entries = copy_half false s1.space.entries p_table (user_root vm);
        };
        cur_vmem = some vm;
      }))

  unfoldable pub vmem_getactive : Vmem P → Outcome (Option ℕ × Vmem P)
  unfolding vmem_savestate
  vmem_getactive s = vmem_savestate s >>= λ s1. ok (s1.cur_vmem, s1)

  -- The addresses that `invlpg` gets.
  unfoldable pub flush_pages : ℕ → ℕ → List ℕ
  flush_pages zero virt = []
  flush_pages (suc pages) virt = virt ∷ flush_pages pages (u64 (virt + kib 4))

  -- `none` where the whole cache is dropped.
  unfoldable pub vmem_flush : ℕ → ℕ → Vmem P → Outcome (Option (List ℕ) × Vmem P)
  unfolding vmem_savestate flush_pages
  vmem_flush virt sz s = vmem_savestate s >>= λ s1.
      ok (if ltb (gib 1) sz then none else some (flush_pages ((sz + (kib 4 - 1)) / kib 4) virt), s1)

  -- The inner option is none for -1, the outer one for -2.
  unfoldable pub vmem_virttophys : Option ℕ → ℕ → Vmem P → Outcome (Option (Option ℕ))
  vmem_virttophys vm virt s = elim (is_kernel virt) [
    | true ↦ table_at cfg s.ktable >>= λ n_lv_d.
        vmem_virttophys_st cfg 4 0 s.space.entries n_lv_d virt >>= λ phys. ok (some phys)
    | false ↦ elim vm [
      | none ↦ ok none
      | some v ↦
          vmem_virttophys_st cfg 4 0 s.space.entries (user_root v) virt >>= λ phys. ok (some phys)
    ]
  ]
