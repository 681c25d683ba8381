-- ===== src/Vmem/Fill.antt =====
-- The loop of `vmem_map_st` over the entries of one table.
use cardinal.Base.{
  ℕ, zero, suc, ◌+◌, ◌*◌, ◌^◌, ◌≤◌, ◌<◌, ◌≡◌, ◌≢◌, refl, ◌∙◌, ap, ◌==◌, true, false, bit_and,
  bit_or, u64, sub64, arith,
}
use cardinal.Vmem.{
  Table, kernel_root, user_root, page, same_table, Entries, write, err_none, has, present_bit,
  addr_mask,
}
use cardinal.Vmem.Walk.{fill_loop}

pub same_table_self : (t : Table) → same_table t t ≡ true
unfolding same_table
same_table_self kernel_root = refl
same_table_self (user_root a) = ground arith
same_table_self (page a) = ground arith

pub same_table-sym : (t u : Table) → same_table u t ≡ same_table t u
unfolding same_table
same_table-sym kernel_root kernel_root = refl
same_table-sym kernel_root (user_root b) = refl
same_table-sym kernel_root (page b) = refl
same_table-sym (user_root a) kernel_root = refl
same_table-sym (user_root a) (user_root b) = ground arith
same_table-sym (user_root a) (page b) = refl
same_table-sym (page a) kernel_root = refl
same_table-sym (page a) (user_root b) = refl
same_table-sym (page a) (page b) = ground arith

-- The loop left entries for `n` pages from `phys` in the table `t`, from the index `idx` on.
pub record Filled (t : Table) (idx n sz c_flags phys : ℕ) (old new : Entries) : Type 0 where
  pub entry : (k : ℕ) → k < n → new t (idx + k) ≡ bit_or (bit_and (phys + k * sz) addr_mask) c_flags
  pub other : (t' : Table) (i : ℕ) → same_table t t' ≡ false → new t' i ≡ old t' i
  pub before : (i : ℕ) → i < idx → new t i ≡ old t i
  pub after : (i : ℕ) → idx + n ≤ i → new t i ≡ old t i

pub write_self : (es : Entries) (t : Table) (i v : ℕ) → write es t i v t i ≡ v
unfolding write
write_self es t i v = let s = same_table_self t in ground (arith, s)

write-other :
    (es : Entries) (t t' : Table) (i v i' : ℕ)
    → same_table t t' ≡ false
    → write es t i v t' i' ≡ es t' i'
unfolding write
write-other es t t' i v i' e = rw e refl

write-index : (es : Entries) (t : Table) (i v i' : ℕ) → i ≢ i' → write es t i v t i' ≡ es t i'
unfolding write
write-index es t i v i' ne = ground arith

fill_loop-end :
    (room : ℕ) (t : Table) (idx sz c_flags phys : ℕ) (es : Entries)
    → fill_loop room t idx sz c_flags phys 0 es ≡ (err_none, es)
unfolding fill_loop
fill_loop-end zero t idx sz c_flags phys es = refl
fill_loop-end (suc room) t idx sz c_flags phys es = refl

fill_loop-step :
    (room : ℕ) (t : Table) (idx sz c_flags phys size : ℕ) (es : Entries)
    → size ≢ 0
    → has (es t idx) present_bit ≡ false
    → fill_loop (suc room) t idx sz c_flags phys size es
      ≡ fill_loop room t
          (idx + 1)
          sz
          c_flags
          (u64 (phys + sz))
          (sub64 size sz)
          (write es t idx (bit_or (bit_and phys addr_mask) c_flags))
unfolding fill_loop
fill_loop-step room t idx sz c_flags phys size es ne free =
    let e : (size == 0) ≡ false = ground arith in rw (fill_loop, e, free) refl

-- Where the entries are free, the loop maps all pages of a run that fits the table.
pub fill_loop-Filled :
    (n room : ℕ) (t : Table) (idx sz c_flags phys : ℕ) (es : Entries)
    → n ≤ room
    → 0 < sz
    → phys + n * sz < 2 ^ 64
    → ((k : ℕ) → k < n → has (es t (idx + k)) present_bit ≡ false)
    → (new : Entries) × (fill_loop room t idx sz c_flags phys (n * sz) es ≡ (err_none, new))
      × Filled t idx n sz c_flags phys es new
fill_loop-Filled zero room t idx sz c_flags phys es le pos fits free = (
  es,
  ap (λ (m : ℕ). fill_loop room t idx sz c_flags phys m es) (omega arith)
      ∙ fill_loop-end room t idx sz c_flags phys es,
  record {
    entry = λ k lt. absurd (omega arith);
    other = λ t' i e. refl;
    before = λ i lt. refl;
    after = λ i lt. refl;
  },
)
fill_loop-Filled (suc n) zero t idx sz c_flags phys es le pos fits free = absurd (omega arith)
fill_loop-Filled (suc n) (suc room) t idx sz c_flags phys es le pos fits free =
    let first = write es t idx (bit_or (bit_and phys addr_mask) c_flags) in
    let here : has (es t idx) present_bit ≡ false =
      ap (λ (i : ℕ). has (es t i) present_bit) (omega arith) ∙ free 0 (omega arith) in
    let (new, run, f) =
      fill_loop-Filled n room t (idx + 1) sz c_flags (phys + sz) first (omega arith) pos
        (omega (arith, mul_suc n sz))
        (λ k lt.
          ap (λ (e : ℕ). has e present_bit) (write-index es t idx _ (idx + 1 + k) (omega arith))
          ∙ ap (λ (i : ℕ). has (es t i) present_bit) (omega arith)
          ∙ free (suc k) (omega arith)) in
    (
      new,
      fill_loop-step room t idx sz c_flags phys (suc n * sz) es (omega (arith, mul_suc n sz)) here
          ∙ ap (λ (m : ℕ). fill_loop room t (idx + 1) sz c_flags m (sub64 (suc n * sz) sz) first)
              (omega (arith, mul_suc n sz))
          ∙ ap (λ (m : ℕ). fill_loop room t (idx + 1) sz c_flags (phys + sz) m first)
              (omega (arith, mul_suc n sz))
          ∙ run,
      record {
        entry = entry new first f refl;
        other = λ t' i e. f.other t' i e ∙ write-other es t t' idx _ i e;
        before = λ i lt. f.before i (omega arith) ∙ write-index es t idx _ i (omega arith);
        after = λ i lt. f.after i (omega arith) ∙ write-index es t idx _ i (omega arith);
      },
    )
  where
    mul_suc : (n sz : ℕ) → suc n * sz ≡ n * sz + sz
    mul_suc n sz = omega arith

    entry :
        (new first : Entries)
        → Filled t (idx + 1) n sz c_flags (phys + sz) first new
        → first ≡ write es t idx (bit_or (bit_and phys addr_mask) c_flags)
        → (k : ℕ) → k < suc n
        → new t (idx + k) ≡ bit_or (bit_and (phys + k * sz) addr_mask) c_flags
    entry new first f e zero lt =
        ap (new t) (omega arith)
        ∙ f.before idx (omega arith)
        ∙ ap (λ g. g t idx) e
        ∙ write_self es t idx _
        ∙ ap (λ (a : ℕ). bit_or (bit_and a addr_mask) c_flags) (omega arith)
    entry new first f e (suc k) lt =
        ap (new t) (omega arith)
        ∙ f.entry k (omega arith)
        ∙ ap (λ (a : ℕ). bit_or (bit_and a addr_mask) c_flags) (omega (arith, mul_suc k sz))
