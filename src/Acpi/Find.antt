-- ===== src/Acpi/Find.antt =====
-- What `acpi_find` of kernel/src/acpi.c returns.
use mathlib.Core.Path.{subst}
use cardinal.Base.{
  ℕ, zero, suc, ◌+◌, ◌-◌, ◌*◌, ◌%◌, ◌^◌, ◌<◌, ◌∙◌, ap, u8, length, get_or, [], ◌∷◌, ◌≡◌, ◌≢◌, ◌⊎◌,
  inl, inr, refl, ◌==◌, Bool, true, false, not, ◌&&◌, Option, none, some, List, mib, Outcome, ok,
  panic, stuck, Each, ◌>>=◌, arith,
}
use cardinal.Memory.{Memory}
use cardinal.Bootinfo.{read_bytes}
use cardinal.Vmem.{Config, vmem_phystovirt, flag_writeback}
use cardinal.Acpi.{
  Rsdp, sum_loop, acpi_validate_csum, has_name, table_loop, acpi_find, pointer_count,
}

both_true : (a b : Bool) → (a && b) ≡ true → (a ≡ true) × (b ≡ true)
both_true true b e = (refl, e)
both_true false b e = ground arith

-- The sum of `left` bytes from `p` on.
abbrev pub total : ℕ → Memory → ℕ → ℕ
total zero mem p = 0
total (suc left) mem p = mem p + total left mem (p + 1)

-- The bytes of the name stand at the start of the table, and the sum of the table's bytes, as many as the 32-bit value at 4
-- says, is a multiple of 256.
pub record IsNamed (mem : Memory) (name : List ℕ) (h : ℕ) : Type 0 where
  pub signature : (i : ℕ) → i < length name → mem (h + i) ≡ get_or name i 0
  pub checksum : total (read_bytes 4 mem (h + 4)) mem h % 256 ≡ 0

sum_loop-total :
    (left : ℕ) (mem : Memory) (p sum : ℕ)
    → sum < 256
    → sum_loop left mem p sum ≡ (sum + total left mem p) % 256
unfolding sum_loop
sum_loop-total zero mem p sum small = omega arith
sum_loop-total (suc left) mem p sum small =
    sum_loop-total left mem (p + 1) (u8 (sum + mem p)) (omega arith) ∙ omega arith

has_name-bytes :
    (name : List ℕ) (mem : Memory) (p i : ℕ)
    → has_name name mem p ≡ true
    → i < length name
    → mem (p + i) ≡ get_or name i 0
unfolding has_name
has_name-bytes [] mem p i same lt = absurd (omega arith)
has_name-bytes (c ∷ name) mem p zero same lt =
    let first = (both_true (mem p == c) (has_name name mem (p + 1)) same).0 in
    let here : mem (p + 0) ≡ mem p = ap mem (omega arith) in here ∙ ground (arith, first)
has_name-bytes (c ∷ name) mem p (suc i) same lt =
    ap mem (omega arith)
    ∙ has_name-bytes name mem (p + 1) i (both_true (mem p == c) (has_name name mem (p + 1)) same).1
        (omega arith)

checked-IsNamed :
    (mem : Memory) (name : List ℕ) (h : ℕ)
    → has_name name mem h ≡ true
    → acpi_validate_csum mem h ≡ true
    → IsNamed mem name h
unfolding acpi_validate_csum
checked-IsNamed mem name h named good = record {
  signature = λ i lt. has_name-bytes name mem h i named lt;
  checksum =
      let zero_sum : sum_loop (read_bytes 4 mem (h + 4)) mem h 0 ≡ 0 = ground arith in
      omega (arith, sum_loop-total (read_bytes 4 mem (h + 4)) mem h 0 (omega arith), zero_sum);
}

module _ (cfg : Config) (mem : Memory) (name : List ℕ) where
  -- What the code tests.
  abbrev Checked : ℕ → Type 0
  Checked h = (has_name name mem h ≡ true) × (acpi_validate_csum mem h ≡ true)

  -- NULL or such a table.
  abbrev Found : Option ℕ → Type 0
  Found none = Unit {0}
  Found (some h) = Checked h

  -- One table, and the rest of the loop.
  module _ (rest : Outcome (Option ℕ)) (rest-Found : Each Found rest) where
    checked-Found :
        (h : ℕ) (good : Bool)
        → (has_name name mem h && acpi_validate_csum mem h) ≡ good
        → Each Found (elim good as (λ x. Outcome (Option ℕ)) [ true ↦ ok (some h) | false ↦ rest ])
    checked-Found h true e = both_true (has_name name mem h) (acpi_validate_csum mem h) e
    checked-Found h false e = rest-Found

    table-Found :
        (m : Outcome ℕ)
        → Each Found (
            m >>= λ h.
            elim (has_name name mem h && acpi_validate_csum mem h) as (λ x. Outcome (Option ℕ)) [
              | true ↦ ok (some h)
              | false ↦ rest
            ])
    table-Found (ok h) = checked-Found h (has_name name mem h && acpi_validate_csum mem h) refl
    table-Found panic = tt
    table-Found stuck = tt

    pointer-Found :
        (skipped : Bool) (m : Outcome ℕ)
        → Each Found (elim skipped as (λ x. Outcome (Option ℕ)) [
          | true ↦ rest
          | false ↦ m >>= λ h.
              elim (has_name name mem h && acpi_validate_csum mem h) as (λ x. Outcome (Option ℕ)) [
                | true ↦ ok (some h)
                | false ↦ rest
              ]
        ])
    pointer-Found true m = rest-Found
    pointer-Found false m = table-Found m

  table_loop-Found :
      (skips : Bool) (width left table i : ℕ)
      → Each Found (table_loop cfg mem name skips width left table i)
  unfolding table_loop
  table_loop-Found skips width zero table i = tt
  table_loop-Found skips width (suc left) table i =
      pointer-Found (table_loop cfg mem name skips width left table (i + 1))
        (table_loop-Found skips width left table (i + 1))
        (skips && read_bytes width mem (table + 36 + i * width) == 0)
        (vmem_phystovirt cfg (read_bytes width mem (table + 36 + i * width)) (mib 2) flag_writeback)

  -- NULL, -1 or such a table.
  abbrev Answer : Option ℕ → Type 0
  Answer none = Unit {0}
  Answer (some h) = (h ≡ 2 ^ 64 - 1) ⊎ Checked h

  Found-Answer : (m : Outcome (Option ℕ)) → Each Found m → Each Answer m
  Found-Answer (ok none) f = tt
  Found-Answer (ok (some h)) f = inr f
  Found-Answer panic f = tt
  Found-Answer stuck f = tt

  acpi_find-Answer : (rsdp : Rsdp) → Each Answer (acpi_find cfg mem name rsdp)
  unfolding acpi_find
  acpi_find-Answer rsdp =
      root (not (rsdp.revision == 0) && not (rsdp.xsdt_address == 0))
        (vmem_phystovirt cfg rsdp.xsdt_address (mib 2) flag_writeback)
        (vmem_phystovirt cfg rsdp.rsdt_address (mib 2) flag_writeback)
    where
      xsdt_root :
          (t : ℕ) (good : Bool)
          → Each Answer (elim good as (λ x. Outcome (Option ℕ)) [
            | false ↦ ok (some (2 ^ 64 - 1))
            | true ↦ table_loop cfg mem name true 8 (pointer_count mem t 8) t 0
          ])
      xsdt_root t false = inl refl
      xsdt_root t true =
          Found-Answer (table_loop cfg mem name true 8 (pointer_count mem t 8) t 0)
            (table_loop-Found true 8 (pointer_count mem t 8) t 0)

      rsdt_root :
          (t : ℕ) (good : Bool)
          → Each Answer (elim good as (λ x. Outcome (Option ℕ)) [
            | false ↦ ok none
            | true ↦ table_loop cfg mem name false 4 (pointer_count mem t 4) t 0
          ])
      rsdt_root t false = tt
      rsdt_root t true =
          Found-Answer (table_loop cfg mem name false 4 (pointer_count mem t 4) t 0)
            (table_loop-Found false 4 (pointer_count mem t 4) t 0)

      root :
          (b : Bool) (x r : Outcome ℕ)
          → Each Answer (elim b as (λ x. Outcome (Option ℕ)) [
            | true ↦ x >>= λ t. elim (acpi_validate_csum mem t) as (λ x. Outcome (Option ℕ)) [
              | false ↦ ok (some (2 ^ 64 - 1))
              | true ↦ table_loop cfg mem name true 8 (pointer_count mem t 8) t 0
            ]
            | false ↦ r >>= λ t. elim (acpi_validate_csum mem t) as (λ x. Outcome (Option ℕ)) [
              | false ↦ ok none
              | true ↦ table_loop cfg mem name false 4 (pointer_count mem t 4) t 0
            ]
          ])
      root true (ok t) r = xsdt_root t (acpi_validate_csum mem t)
      root true panic r = tt
      root true stuck r = tt
      root false x (ok t) = rsdt_root t (acpi_validate_csum mem t)
      root false x panic = tt
      root false x stuck = tt

  -- What `acpi_find` returns, if it is neither NULL nor -1, is a table that begins with the bytes of the name that was
  -- asked for, and whose bytes, as many as its field for the length says, add up to a multiple of 256.
  pub acpi_find-IsNamed :
      (rsdp : Rsdp) (h : ℕ)
      → acpi_find cfg mem name rsdp ≡ ok (some h)
      → h ≢ 2 ^ 64 - 1
      → IsNamed mem name h
  acpi_find-IsNamed rsdp h found ne =
      elim (the_answer (subst (λ m. Each Answer m) found (acpi_find-Answer rsdp)))
        as (λ x. IsNamed mem name h) [
          | inl e ↦ absurd (ne e)
          | inr checked ↦ checked-IsNamed mem name h checked.0 checked.1
        ]
    where
      the_answer : Answer (some h) → (h ≡ 2 ^ 64 - 1) ⊎ Checked h
      the_answer a = a
