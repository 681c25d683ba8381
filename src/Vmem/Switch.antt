-- ===== src/Vmem/Switch.antt =====
-- `vmem_setactive`, `vmem_getactive` and `vmem_savestate` of kernel/src/vmem.c, and what `vmem_unmap` does.
use mathlib.Core.Option.{some-injective}
use cardinal.Base.{
  ℕ, ◌^◌, ◌<◌, ◌≡◌, ◌≢◌, refl, ◌∙◌, sym, ap, true, false, Option, none, some, ok, ok->>=, ◌>>=◌,
  arith, ◌==◌, ltb, ◌≤◌, Bool-cases, inl, inr, if◌then◌else◌,
}
use cardinal.Vmem.{
  Table, kernel_root, user_root, page, same_table, Entries, err_none, Config, table_at, index, has,
  present_bit,
}
use cardinal.Vmem.Walk.{PageSource, vmem_virttophys_st, vmem_unmap_st, unmap_loop}
use cardinal.Vmem.Fill.{same_table_self}
use cardinal.Vmem.Active.{walk-root, user_index, copy_half-lower, copy_half-other}
use cardinal.Vmem.Calls.{
  Vmem, is_kernel, copy_half, vmem_unmap, save_user, vmem_savestate, vmem_setactive, vmem_getactive,
  vmem_virttophys,
}

none-some : {n : ℕ} → none ≡ some n → ⊥
none-some e = cc

-- A copy of the lower half leaves the upper one.
copy_half-kept :
    (es : Entries) (to from : Table) (i : ℕ) → 256 ≤ i → copy_half false es to from to i ≡ es to i
unfolding copy_half
copy_half-kept es to from i le =
    let self = same_table_self to in let b : ltb i 256 ≡ false = ground arith in rw (self, b) refl

module _ (P : PageSource) (cfg : Config) (s : Vmem P)
    (at : table_at cfg s.ktable ≡ ok (page s.ktable)) where
  -- The tables once the active space and the kernel's half are saved.
  abbrev pub saved_user : Option ℕ → Entries
  saved_user none = s.space.entries
  saved_user (some v) = copy_half false s.space.entries (user_root v) (page s.ktable)

  abbrev pub saved : Entries
  saved = copy_half true (saved_user s.cur_vmem) kernel_root (page s.ktable)

  -- No lock that `vmem_savestate` takes is held.
  abbrev pub Unlocked : Type 0
  Unlocked = ((v : ℕ) → s.cur_vmem ≡ some v → s.locks v ≡ 0) × (s.kernel_lock ≡ 0)

  savestate_from :
      (c : Option ℕ)
      → s.cur_vmem ≡ c
      → Unlocked
      → vmem_savestate P cfg s ≡ ok (record s { space = record (s.space) { entries = saved } })
  unfolding vmem_savestate save_user
  savestate_from none e free = simp (vmem_savestate, save_user, e, free.1, at) refl
  savestate_from (some v) e free = simp (vmem_savestate, save_user, e, free.0 v e, free.1, at) refl

  savestate-saved :
      Unlocked
      → vmem_savestate P cfg s ≡ ok (record s { space = record (s.space) { entries = saved } })
  savestate-saved free = savestate_from s.cur_vmem refl free

  -- A space that is not active is not touched, and neither is the table of the processor.
  saved-other :
      (t : Table) (i : ℕ)
      → ((v : ℕ) → s.cur_vmem ≡ some v → same_table (user_root v) t ≡ false)
      → same_table kernel_root t ≡ false
      → saved t i ≡ s.space.entries t i
  saved-other t i apart top =
      copy_half-other true (saved_user s.cur_vmem) kernel_root (page s.ktable) t i top
      ∙ go s.cur_vmem refl
    where
      go : (c : Option ℕ) → s.cur_vmem ≡ c → saved_user c t i ≡ s.space.entries t i
      go none e = refl
      go (some v) e =
          copy_half-other false s.space.entries (user_root v) (page s.ktable) t i (apart v e)

  -- The active space has what the table of the processor has.
  saved-active :
      (v i : ℕ)
      → s.cur_vmem ≡ some v
      → i < 256
      → saved (user_root v) i ≡ s.space.entries (page s.ktable) i
  unfolding same_table
  saved-active v i e lt =
      copy_half-other true (saved_user s.cur_vmem) kernel_root (page s.ktable) (user_root v) i refl
      ∙ ap (λ (c : Option ℕ). saved_user c (user_root v) i) e
      ∙ copy_half-lower s.space.entries (user_root v) (page s.ktable) i lt

  -- Where the mappings of a space stand: in the table of the processor while it is active.
  abbrev pub live : Option ℕ → ℕ → Table
  live none vm = user_root vm
  live (some w) vm = if w == vm then page s.ktable else user_root vm

  saved-live :
      (vm i : ℕ) → i < 256 → saved (user_root vm) i ≡ s.space.entries (live s.cur_vmem vm) i
  unfolding same_table
  saved-live vm i lt = go s.cur_vmem refl
    where
      go : (c : Option ℕ) → s.cur_vmem ≡ c → saved (user_root vm) i ≡ s.space.entries (live c vm) i
      go none e =
          saved-other (user_root vm) i (λ v h. let r = sym e ∙ h in absurd (none-some r)) refl
      go (some w) e = elim (Bool-cases (w == vm)) [
        | inl active ↦
            let same : w ≡ vm = ground arith in rw active (saved-active vm i (e ∙ ap some same) lt)
        | inr idle ↦ rw idle (
            saved-other (user_root vm) i
              (λ v h.
                let same = some-injective w v (sym e ∙ h) in
                ap (λ (n : ℕ). n == vm) (sym same) ∙ idle)
              refl)
      ]

  -- The state once `vm` is active.
  abbrev pub switched : ℕ → Vmem P
  switched vm = record s {
    space = record (s.space) { entries = copy_half false saved (page s.ktable) (user_root vm) };
    cur_vmem = some vm;
  }

  setactive-switched :
      (vm : ℕ) → Unlocked → s.locks vm ≡ 0 → vmem_setactive P cfg vm s ≡ ok (switched vm)
  unfolding vmem_setactive
  setactive-switched vm free vm_free = ok->>= _ (savestate-saved free) ∙ rw (vm_free, at) refl

  -- Where no lock that is taken is held and the table of the processor lies in mapped memory,
  -- `vmem_setactive` succeeds, and then a walk from that table translates each address below 2^47
  -- as `vmem_virttophys` does for the space. In the lower half that table has the entries of the space
  -- before the call, which stood in the table itself if the space was active; its upper half is as before.
  pub vmem_setactive-translates :
      (vm : ℕ)
      → Unlocked
      → s.locks vm ≡ 0
      → (s' : Vmem P) × (vmem_setactive P cfg vm s ≡ ok s')
        × (s'.cur_vmem ≡ some vm)
        × ((v : ℕ)
            → v < 2 ^ 47
            → (vmem_virttophys_st cfg 4 0 s'.space.entries (page s'.ktable) v >>= λ phys.
                ok (some phys))
              ≡ vmem_virttophys P cfg (some vm) v s')
        × ((i : ℕ)
            → i < 256
            → s'.space.entries (page s'.ktable) i ≡ s.space.entries (live s.cur_vmem vm) i)
        × ((i : ℕ)
            → 256 ≤ i
            → s'.space.entries (page s'.ktable) i ≡ s.space.entries (page s.ktable) i)
  unfolding vmem_virttophys same_table
  vmem_setactive-translates vm free vm_free = (
    switched vm,
    setactive-switched vm free vm_free,
    refl,
    λ v lt.
        let user : is_kernel v ≡ false = ground arith in
        let es = copy_half false saved (page s.ktable) (user_root vm) in
        rw (vmem_virttophys, user)
          (ap (λ m. m >>= λ phys. ok (some phys))
            (walk-root cfg 4 0 es (page s.ktable) (user_root vm) v (
              copy_half-lower saved (page s.ktable) (user_root vm) (index 0 v) (user_index v lt)
              ∙ sym (
                  copy_half-other false saved (page s.ktable) (user_root vm) (user_root vm)
                    (index 0 v) refl)))),
    λ i lt. copy_half-lower saved (page s.ktable) (user_root vm) i lt ∙ saved-live vm i lt,
    λ i le.
        copy_half-kept saved (page s.ktable) (user_root vm) i le
        ∙ saved-other (page s.ktable) i (λ v e. refl) refl,
  )

  -- Where no lock that is taken is held and the table of the processor lies in mapped memory,
  -- `vmem_getactive` forgets what was mapped in the active space since it became active: an
  -- address below 2^47 whose entry of the first level is not present in the table of the processor
  -- is not translated any more, whatever the tables of the space hold.
  vmem_getactive-forgets :
      (vm v : ℕ)
      → Unlocked
      → s.cur_vmem ≡ some vm
      → v < 2 ^ 47
      → has (s.space.entries (page s.ktable) (index 0 v)) present_bit ≡ false
      → (s' : Vmem P) × (vmem_getactive P cfg s ≡ ok (some vm, s'))
        × (vmem_virttophys P cfg (some vm) v s' ≡ ok (some none))
  unfolding vmem_virttophys vmem_getactive vmem_virttophys_st
  vmem_getactive-forgets vm v free active lt absent =
      let user : is_kernel v ≡ false = ground arith in
      let same = saved-active vm (index 0 v) active (user_index v lt) in
      (
        record s { space = record (s.space) { entries = saved } },
        ok->>= _ (savestate-saved free)
            ∙ ap
                (λ (c : Option ℕ).
                  ok (c, record s { space = record (s.space) { entries = saved } }))
                active,
        rw (vmem_virttophys, user, vmem_virttophys_st, same, absent) refl,
      )

module _ (P : PageSource) (cfg : Config) (s : Vmem P)
    (at : table_at cfg s.ktable ≡ ok (page s.ktable)) where
  -- A space keeps its mappings while another one is made active: where no lock that is taken is
  -- held, the table of the processor lies in mapped memory and the space was not active before,
  -- `vmem_setactive` of it and then of any space leave its entries as they were.
  pub vmem_setactive-twice :
      (vm w : ℕ)
      → Unlocked P cfg s at
      → s.locks vm ≡ 0
      → s.locks w ≡ 0
      → s.cur_vmem ≢ some vm
      → (s' : Vmem P) × ((vmem_setactive P cfg vm s >>= vmem_setactive P cfg w) ≡ ok s')
        × (s'.cur_vmem ≡ some w)
        × ((i : ℕ) → i < 256 → s'.space.entries (user_root vm) i ≡ s.space.entries (user_root vm) i)
  unfolding same_table
  vmem_setactive-twice vm w free vm_free w_free other =
      let s1 = switched P cfg s at vm in
      let es0 = saved P cfg s at in
      let es1 = saved P cfg s1 at in
      (
        switched P cfg s1 at w,
        ok->>= _ (setactive-switched P cfg s at vm free vm_free)
            ∙ setactive-switched P cfg s1 at w
                ((λ v e. ap s.locks (sym (some-injective vm v e)) ∙ vm_free), free.1) w_free,
        refl,
        λ i lt.
            copy_half-other false es1 (page s.ktable) (user_root w) (user_root vm) i refl
            ∙ saved-active P cfg s1 at vm i refl lt
            ∙ copy_half-lower es0 (page s.ktable) (user_root vm) i lt
            ∙ saved-other P cfg s at (user_root vm) i
                (λ v e. let ne : v ≢ vm = λ h. other (e ∙ ap some h) in ground arith) refl,
      )

module _ (P : PageSource) (cfg : Config) (s : Vmem P) where
  -- For an address below 2^63 `vmem_unmap` sets the size to 0: where the space is not locked, it
  -- returns 0 for any run and changes nothing.
  vmem_unmap-nothing :
      (vm virt size : ℕ)
      → virt < 2 ^ 63
      → s.locks vm ≡ 0
      → vmem_unmap P cfg vm virt size s ≡ ok (err_none, s)
  unfolding vmem_unmap vmem_unmap_st unmap_loop
  vmem_unmap-nothing vm virt size lt unlocked =
      let user : is_kernel virt ≡ false = ground arith in rw (vmem_unmap, user, unlocked) refl
