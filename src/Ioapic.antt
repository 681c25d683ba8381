-- ===== src/Ioapic.antt =====
-- kernel/src/interrupts/ioapic.c: the controllers for the interrupts of devices. Their registers are
-- reached through a pair of words of memory; `cpu` is what `interrupt_get_cpuidx` returns.
pub mod Entry
pub mod Nearest
pub mod Redirect
mod Tests
use cardinal.Base.{
  ℕ, zero, suc, ◌+◌, ◌-◌, ◌*◌, ◌/◌, ◌%◌, ◌^◌, ◌==◌, ltb, leb, Bool, true, false, not, ◌&&◌,
  if◌then◌else◌, Option, none, some, List, [], ◌∷◌, ◌++◌, get_or, bit_and, bit_or, u8, u32, u64,
  not32, ◌>>◌, ◌<<◌, kib, Outcome, ok, stuck, ◌>>=◌,
}
use cardinal.Memory.{Memory}
use cardinal.Apic.{Machine}
use cardinal.Bootinfo.{read_bytes}
use cardinal.Vmem.{Config, vmem_phystovirt, flag_uncached}

-- `ioapic_t`
pub record IoApic : Type 0 where
  pub id : ℕ
  pub global_intr_base : ℕ
  pub base_addr : ℕ

abbrev pub no_ioapic : IoApic
no_ioapic = record { id = 0; global_intr_base = 0; base_addr = 0 }

-- The static variables. The array has at least `ioapic_cnt` entries.
pub record IoApics : Type 0 where
  pub ioapics : List IoApic
  pub ioapic_cnt : ℕ

-- The two words of a redirection entry that `ioapic_map` writes.
unfoldable pub map_high : ℕ → ℕ → ℕ
map_high cpu high = bit_or (bit_and high (not32 0xff000000)) (u32 (cpu << 24))

abbrev pub flag_at : Bool → ℕ → ℕ
flag_at b k = if b then 1 << k else 0

unfoldable pub map_low : ℕ → Bool → Bool → ℕ → ℕ
map_low irq active_low level_trigger low0 =
    let low1 = bit_or (bit_and low0 (not32 (1 << 13))) (flag_at active_low 13) in
    let low2 = bit_or (bit_and low1 (not32 (1 << 15))) (flag_at level_trigger 15) in
    let low3 = bit_or (bit_and low2 (not32 0xff)) (bit_and irq 0xff) in
    let low4 = bit_or (bit_and low3 (not32 (1 << 11))) (0 << 11) in
    let low5 = bit_or (bit_and low4 (not32 0x700)) (0 << 8) in bit_and low5 (not32 (1 << 16))

unfoldable pub mask_low : Bool → ℕ → ℕ
mask_low mask low =
    let low1 = bit_and low (not32 (1 << 16)) in if mask then bit_or low1 (1 << 16) else low1

-- The controller that the loop over the first `left` of them ends with, from index `i` on.
unfoldable pub closest_loop : ℕ → List IoApic → ℕ → ℕ → ℕ → ℕ → ℕ
closest_loop zero ioapics line i close_base idx = idx
closest_loop (suc left) ioapics line i close_base idx =
    let base = (get_or ioapics i no_ioapic).global_intr_base in
    if ltb base line && ltb close_base base
    then closest_loop left ioapics line (i + 1) base i
    else closest_loop left ioapics line (i + 1) close_base idx

module _ (M : Machine) where
  unfoldable pub ioapic_write : IoApic → ℕ → ℕ → M.State → M.State
  ioapic_write a off val s = M.write_word (a.base_addr + 16) val (M.write_word a.base_addr off s)

  unfoldable pub ioapic_read : IoApic → ℕ → M.State → ℕ × M.State
  ioapic_read a off s =
      let s1 = M.write_word a.base_addr off s in (M.read_word (a.base_addr + 16) s1, s1)

  unfoldable pub ioapic_map : ℕ → IoApic → ℕ → ℕ → Bool → Bool → M.State → M.State
  unfolding ioapic_read ioapic_write map_high map_low
  ioapic_map cpu a irq_pin irq active_low level_trigger s =
      let low_index = 0x10 + irq_pin * 2 in
      let high_index = 0x10 + irq_pin * 2 + 1 in
      let (high, s1) = ioapic_read a high_index s in
      let s2 = ioapic_write a high_index (map_high cpu high) s1 in
      let (low, s3) = ioapic_read a low_index s2 in
      ioapic_write a low_index (map_low irq active_low level_trigger low) s3

  unfoldable pub ioapic_setmask : IoApic → ℕ → Bool → M.State → M.State
  unfolding ioapic_read ioapic_write mask_low
  ioapic_setmask a irq_pin mask s =
      let low_index = 0x10 + irq_pin * 2 in
      let (low, s1) = ioapic_read a low_index s in ioapic_write a low_index (mask_low mask low) s1

  abbrev pub closest : IoApics → ℕ → IoApic
  closest c line = get_or c.ioapics (closest_loop c.ioapic_cnt c.ioapics line 0 0 0) no_ioapic

  unfoldable pub interrupt_mapinterrupt : ℕ → IoApics → ℕ → ℕ → Bool → Bool → M.State → M.State
  unfolding closest_loop ioapic_map
  interrupt_mapinterrupt cpu c line irq active_low level_trig s =
      ioapic_map cpu (closest c line) line irq active_low level_trig s

  unfoldable pub interrupt_setmask : IoApics → ℕ → Bool → M.State → M.State
  unfolding closest_loop ioapic_setmask
  interrupt_setmask c line mask s = ioapic_setmask (closest c line) line mask s

  -- How many redirection entries the controller has.
  unfoldable pub available_redirs : IoApic → M.State → ℕ × M.State
  unfolding ioapic_read
  available_redirs a s =
      let (version, s1) = ioapic_read a 1 s in (bit_and (version >> 16) 0xff + 1, s1)

  -- The entries from `i` on, `left` of them, as for buses without overrides, and masked.
  unfoldable pub default_loop : ℕ → ℕ → IoApic → ℕ → M.State → M.State
  unfolding ioapic_map ioapic_setmask
  default_loop cpu zero a i s = s
  default_loop cpu (suc left) a i s = default_loop cpu left a (i + 1) (
      ioapic_setmask a i true
        (ioapic_map cpu a i (u32 (i + a.global_intr_base + 0x20)) false false s))

-- The step to the next entry of the MADT.
abbrev pub next_entry : Memory → ℕ → ℕ → ℕ
next_entry mem p off =
    let size = u8 (mem (p + off + 1)) in u32 (off + size + (if size == 0 then 8 else 0))

-- The first loop, which counts the controllers.
unfoldable pub count_loop : ℕ → Memory → ℕ → ℕ → ℕ → ℕ → Outcome ℕ
count_loop zero mem p len off cnt = if ltb off len then stuck else ok cnt
count_loop (suc rounds) mem p len off cnt = elim (ltb off len) [
  | false ↦ ok cnt
  | true ↦
      count_loop rounds mem p len (next_entry mem p off)
        (if u8 (mem (p + off)) == 1 then u32 (cnt + 1) else cnt)
]

module _ (M : Machine) (cfg : Config) (cpu : ℕ) where
  -- The second loop, with the controllers that were set up before.
  unfoldable pub setup_loop :
      ℕ → Memory → ℕ → ℕ → ℕ → List IoApic → M.State → Outcome (List IoApic × M.State)
  unfolding available_redirs default_loop
  setup_loop zero mem p len off found s = if ltb off len then stuck else ok (found, s)
  setup_loop (suc rounds) mem p len off found s = elim (ltb off len) [
    | false ↦ ok (found, s)
    | true ↦ elim (u8 (mem (p + off)) == 1) [
      | false ↦ setup_loop rounds mem p len (next_entry mem p off) found s
      | true ↦
          vmem_phystovirt cfg (read_bytes 4 mem (p + off + 4)) (kib 8) flag_uncached >>= λ base.
          let a : IoApic = record {
            id = u8 (mem (p + off + 2));
            global_intr_base = read_bytes 4 mem (p + off + 8);
            base_addr = base;
          } in
          let (redirs, s1) = available_redirs M a s in
          setup_loop rounds mem p len (next_entry mem p off) (found ++ a ∷ [])
            (default_loop M cpu redirs a 0 s1)
    ]
  ]

  -- One override, at the first controller that has its interrupt.
  unfoldable pub override_loop : List IoApic → Memory → ℕ → M.State → M.State
  unfolding available_redirs ioapic_map ioapic_setmask
  override_loop [] mem e s = s
  override_loop (a ∷ rest) mem e s =
      let (redirs, s1) = available_redirs M a s in
      let gsi = read_bytes 4 mem (e + 4) in
      let flags = read_bytes 2 mem (e + 8) in
      let irq_pin = gsi - a.global_intr_base in
      if leb a.global_intr_base gsi && ltb gsi (a.global_intr_base + redirs)
      then ioapic_setmask M a irq_pin true (
          ioapic_map M cpu a irq_pin (u8 (mem (e + 3)) + 0x20) (not (bit_and flags 2 == 0))
            (not (bit_and flags 8 == 0)) s1)
      else override_loop rest mem e s1

  -- The third loop.
  unfoldable pub overrides_loop : ℕ → Memory → ℕ → ℕ → ℕ → List IoApic → M.State → Outcome M.State
  unfolding override_loop
  overrides_loop zero mem p len off found s = if ltb off len then stuck else ok s
  overrides_loop (suc rounds) mem p len off found s = elim (ltb off len) [
    | false ↦ ok s
    | true ↦
        overrides_loop rounds mem p len (next_entry mem p off) found
          (if u8 (mem (p + off)) == 2 then override_loop found mem (p + off) s else s)
  ]

  -- `madt` is what `acpi_find` returns; none is returned for -1. The number of controllers goes to a local
  -- variable with the name of the static one. After 2^32 rounds a loop over 32-bit offsets goes on for ever.
  unfoldable pub ioapic_init :
      Memory → Option ℕ → IoApics → M.State → Outcome (Option (IoApics × M.State))
  unfolding count_loop setup_loop overrides_loop
  ioapic_init mem none c s = ok none
  ioapic_init mem (some madt) c s =
      let len = u32 (read_bytes 4 mem (madt + 4) + 2 ^ 32 - 8 - 36) in
      count_loop (2 ^ 32) mem (madt + 44) len 0 0 >>= λ cnt.
      setup_loop (2 ^ 32) mem (madt + 44) len 0 [] s >>= λ (found, s1).
      overrides_loop (2 ^ 32) mem (madt + 44) len 0 found s1 >>= λ s2.
      ok (some (record c { ioapics = found }, s2))
