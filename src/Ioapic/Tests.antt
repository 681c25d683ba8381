-- ===== src/Ioapic/Tests.antt =====
-- One controller at 0xfec00000 with one pin, on a machine that keeps its registers.
use cardinal.Base.{
  Bool, ℕ, ◌+◌, ◌-◌, ◌*◌, ◌%◌, ◌^◌, ◌≡◌, ◌≢◌, refl, ◌==◌, ltb, true, false, if◌then◌else◌, some,
  List, [], ◌∷◌, get_or, ok, arith,
}
use cardinal.Memory.{Memory}
use cardinal.Apic.{Machine}
use cardinal.Vmem.{Config, vmem_phystovirt}
use cardinal.Bootinfo.{read_bytes}
use cardinal.Ioapic.{
  IoApic, IoApics, ioapic_map, ioapic_read, ioapic_write, interrupt_mapinterrupt, ioapic_init,
  count_loop, setup_loop, overrides_loop, available_redirs, default_loop, ioapic_setmask,
  override_loop, closest_loop,
}
use cardinal.Ioapic.Entry.{Routed}
use cardinal.Ioapic.Nearest.{Nearest}
use cardinal.Ioapic.Redirect.{Window, ioapic_map-Routed, interrupt_mapinterrupt-first}

-- The register that is selected, and all of them.
abbrev Chip : Type 0
Chip = ℕ × (ℕ → ℕ)

abbrev chip_base : ℕ
chip_base = 0xffff8080fec00000

abbrev chip_write : ℕ → ℕ → Chip → Chip
chip_write addr val (selected, regs) =
    if addr == chip_base
    then (val, regs)
    else if addr == chip_base + 16
    then (selected, λ r. if r == selected then val else regs r)
    else (selected, regs)

abbrev board : Machine
board = record {
  State = Chip;
  rdmsr = λ msr s. 0;
  wrmsr = λ msr val s. s;
  read_word = λ addr s. s.1 s.0;
  write_word = chip_write;
  outb = λ port val s. s;
}

abbrev chip : IoApic
chip = record { id = 0; global_intr_base = 0; base_addr = chip_base }

chip-Window : Window board chip_base (λ r s. s.1 r)
chip-Window = record {
  read = λ off s. refl;
  select = λ r off s. refl;
  store = λ off val s. let e : (off == off) ≡ true = ground arith in rw e refl;
  apart = λ r off val s ne. let e : (r == off) ≡ false = ground arith in rw e refl;
}

abbrev cleared : Chip
cleared = (0, λ r. 0)

ioapic_map-Routed_example :
    Routed 0x24 true false 0 ((ioapic_map board 5 chip 4 0x24 true false cleared).1 24)
    × ((ioapic_map board 5 chip 4 0x24 true false cleared).1 25 ≡ 5 % 2 ^ 8 * 2 ^ 24 + 0 % 2 ^ 24)
    × ((r : ℕ) → r ≢ 24 → r ≢ 25 → (ioapic_map board 5 chip 4 0x24 true false cleared).1 r ≡ 0)
ioapic_map-Routed_example =
    ioapic_map-Routed board chip (λ r s. s.1 r) chip-Window 5 4 0x24 true false cleared
      (omega arith)

-- A second one, with the lines from 24 on.
abbrev chip2 : IoApic
chip2 = record { id = 1; global_intr_base = 24; base_addr = 0xffff8080fec01000 }

-- A table of 68 bytes at 16 with the entries of both.
abbrev table_bytes : List ℕ
table_bytes =
    1 ∷ 12 ∷ 0 ∷ 0 ∷ 0 ∷ 0 ∷ 0xc0 ∷ 0xfe ∷ 0 ∷ 0 ∷ 0 ∷ 0 ∷ 1 ∷ 12 ∷ 1 ∷ 0 ∷ 0 ∷ 0x10 ∷ 0xc0 ∷ 0xfe
    ∷ 24 ∷ 0 ∷ 0 ∷ 0 ∷ []

abbrev tables : Memory
tables a = if a == 20 then 68 else if ltb a 60 then 0 else get_or table_bytes (a - 60) 0

abbrev cfg : Config
cfg = record { huge = false; phys_map_sz = 2 ^ 38 }

abbrev no_ioapics : IoApics
no_ioapics = record { ioapics = []; ioapic_cnt = 0 }

-- A machine that only counts the writes.
abbrev counter : Machine
counter = record {
  State = ℕ;
  rdmsr = λ msr s. 0;
  wrmsr = λ msr val s. s + 1;
  read_word = λ addr s. 0;
  write_word = λ addr val s. s + 1;
  outb = λ port val s. s + 1;
}

abbrev found : IoApics
found = record { ioapics = chip ∷ chip2 ∷ []; ioapic_cnt = 0 }

init_found : ioapic_init counter cfg 0 tables (some 16) no_ioapics 0 ≡ ok (some (found, 20))
unfolding ioapic_init count_loop setup_loop overrides_loop available_redirs default_loop
    ioapic_setmask override_loop ioapic_map ioapic_read ioapic_write read_bytes vmem_phystovirt
init_found = refl

interrupt_mapinterrupt-first_example :
    (found.ioapic_cnt ≡ 0)
    × ((line irq : ℕ) (active_low level_trig : Bool) (t : ℕ)
        → interrupt_mapinterrupt counter 0 found line irq active_low level_trig t
          ≡ ioapic_map counter 0 chip line irq active_low level_trig t)
    × ((line : ℕ)
        → Nearest (chip ∷ chip2 ∷ []) line (closest_loop 2 (chip ∷ chip2 ∷ []) line 0 0 0))
interrupt_mapinterrupt-first_example =
    interrupt_mapinterrupt-first counter cfg 0 tables (some 16) no_ioapics found 0 20 refl
      init_found

-- Line 30 belongs to the second controller.
line_30 : closest_loop 2 (chip ∷ chip2 ∷ []) 30 0 0 0 ≡ 1
unfolding closest_loop
line_30 = refl
