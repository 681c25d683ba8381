-- ===== src/Acpi/Tests.antt =====
-- The search for the MADT in a table of one pointer.
use cardinal.Base.{
  ℕ, ◌-◌, ◌^◌, ◌≡◌, refl, ltb, false, if◌then◌else◌, some, List, [], ◌∷◌, get_or, ok, arith,
}
use cardinal.Memory.{Memory}
use cardinal.Bootinfo.{read_bytes}
use cardinal.Vmem.{Config, vmem_phystovirt}
use cardinal.Acpi.{Rsdp, acpi_find, table_loop, has_name, acpi_validate_csum, sum_loop}
use cardinal.Acpi.Find.{IsNamed, acpi_find-IsNamed}

abbrev cfg : Config
cfg = record { huge = false; phys_map_sz = 2 ^ 38 }

-- The RSDT at 4 KiB and the MADT at 8 KiB of physical memory.
abbrev rsdt_bytes : List ℕ
rsdt_bytes =
    0 ∷ 0 ∷ 0 ∷ 0 ∷ 40 ∷ 0 ∷ 0 ∷ 0 ∷ 0 ∷ 184 ∷ 0 ∷ 0 ∷ 0 ∷ 0 ∷ 0 ∷ 0 ∷ 0 ∷ 0 ∷ 0 ∷ 0 ∷ 0 ∷ 0 ∷ 0 ∷ 0
    ∷ 0 ∷ 0 ∷ 0 ∷ 0 ∷ 0 ∷ 0 ∷ 0 ∷ 0 ∷ 0 ∷ 0 ∷ 0 ∷ 0 ∷ 0 ∷ 32 ∷ 0 ∷ 0 ∷ []

abbrev madt_bytes : List ℕ
madt_bytes = 65 ∷ 80 ∷ 73 ∷ 67 ∷ 9 ∷ 0 ∷ 0 ∷ 0 ∷ 218 ∷ []

abbrev tables : Memory
tables a =
    if ltb a 0xffffffff80002000
    then get_or rsdt_bytes (a - 0xffffffff80001000) 0
    else get_or madt_bytes (a - 0xffffffff80002000) 0

-- "APIC"
abbrev madt_name : List ℕ
madt_name = 65 ∷ 80 ∷ 73 ∷ 67 ∷ []

abbrev version_1 : Rsdp
version_1 = record { revision = 0; rsdt_address = 4096; xsdt_address = 0 }

madt_found : acpi_find cfg tables madt_name version_1 ≡ ok (some 0xffffffff80002000)
unfolding acpi_find table_loop has_name acpi_validate_csum sum_loop read_bytes vmem_phystovirt
madt_found = refl

acpi_find-IsNamed_example : IsNamed tables madt_name 0xffffffff80002000
acpi_find-IsNamed_example =
    acpi_find-IsNamed cfg tables madt_name version_1 0xffffffff80002000 madt_found
      (λ e. omega (arith, e))
