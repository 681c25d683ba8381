-- ===== src/Acpi.antt =====
-- kernel/src/acpi.c: the search for a table by its name. The tables are bytes by their virtual address.
pub mod Find
mod Tests
use cardinal.Base.{
  ℕ, zero, suc, ◌+◌, ◌-◌, ◌*◌, ◌/◌, ◌%◌, ◌^◌, ◌==◌, ltb, leb, Bool, true, false, not, ◌&&◌,
  if◌then◌else◌, Option, none, some, List, [], ◌∷◌, u8, u32, sub64, mib, Outcome, ok, ◌>>=◌,
}
use cardinal.Memory.{Memory}
use cardinal.Bootinfo.{read_bytes}
use cardinal.Vmem.{Config, vmem_phystovirt, flag_writeback}

abbrev length_of : Memory → ℕ → ℕ
length_of mem h = read_bytes 4 mem (h + 4)

-- The sum of the bytes from `p` on, `left` of them.
unfoldable pub sum_loop : ℕ → Memory → ℕ → ℕ → ℕ
sum_loop zero mem p sum = sum
sum_loop (suc left) mem p sum = sum_loop left mem (p + 1) (u8 (sum + mem p))

unfoldable pub acpi_validate_csum : Memory → ℕ → Bool
unfolding sum_loop
acpi_validate_csum mem h = sum_loop (length_of mem h) mem h 0 == 0

-- `!memcmp(h->Signature, table_name, 4)`
unfoldable pub has_name : List ℕ → Memory → ℕ → Bool
has_name [] mem p = true
has_name (c ∷ name) mem p = mem p == c && has_name name mem (p + 1)

-- `RSDPDescriptor20`, of which `rsdp` has a copy.
pub record Rsdp : Type 0 where
  pub revision : ℕ
  pub rsdt_address : ℕ
  pub xsdt_address : ℕ

unfoldable pub read_rsdp : Memory → ℕ → Rsdp
read_rsdp mem p = record {
  revision = u8 (mem (p + 15));
  rsdt_address = read_bytes 4 mem (p + 16);
  xsdt_address = read_bytes 8 mem (p + 24);
}

-- How many pointers of `width` bytes there are, as an `int` that is not negative.
abbrev pub pointer_count : Memory → ℕ → ℕ → ℕ
pointer_count mem table width =
    let entries = u32 (sub64 (length_of mem table) 36 / width) in
    if leb (2 ^ 31) entries then 0 else entries

module _ (cfg : Config) (mem : Memory) (name : List ℕ) where
  -- The loop over the pointers; the one over those of the XSDT skips 0.
  unfoldable pub table_loop : Bool → ℕ → ℕ → ℕ → ℕ → Outcome (Option ℕ)
  table_loop skips width zero table i = ok none
  table_loop skips width (suc left) table i =
      let pointer = read_bytes width mem (table + 36 + i * width) in
      elim (skips && pointer == 0) [
        | true ↦ table_loop skips width left table (i + 1)
        | false ↦ vmem_phystovirt cfg pointer (mib 2) flag_writeback >>= λ h.
            elim (has_name name mem h && acpi_validate_csum mem h) [
              | true ↦ ok (some h)
              | false ↦ table_loop skips width left table (i + 1)
            ]
      ]

  -- `none` is NULL; a bad XSDT gives -1.
  unfoldable pub acpi_find : Rsdp → Outcome (Option ℕ)
  unfolding table_loop
  acpi_find rsdp = elim (not (rsdp.revision == 0) && not (rsdp.xsdt_address == 0)) [
    | true ↦ vmem_phystovirt cfg rsdp.xsdt_address (mib 2) flag_writeback >>= λ xsdt.
        elim (acpi_validate_csum mem xsdt) [
          | false ↦ ok (some (2 ^ 64 - 1))
          | true ↦ table_loop true 8 (pointer_count mem xsdt 8) xsdt 0
        ]
    | false ↦ vmem_phystovirt cfg rsdp.rsdt_address (mib 2) flag_writeback >>= λ rsdt.
        elim (acpi_validate_csum mem rsdt) [
          | false ↦ ok none
          | true ↦ table_loop false 4 (pointer_count mem rsdt 4) rsdt 0
        ]
  ]
