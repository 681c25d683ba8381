-- ===== src/Apic.antt =====
-- kernel/src/interrupts/apic.c: the local interrupt controller of a processor, through machine registers
-- or through memory. What the hardware makes of a write is a parameter.
pub mod Timer
pub mod Message
mod Tests
use cardinal.Base.{
  ℕ, ◌+◌, ◌-◌, ◌*◌, ◌/◌, ◌%◌, ◌^◌, ◌==◌, ltb, Bool, true, false, not, if◌then◌else◌, Option, none,
  some, List, [], ◌∷◌, bit_and, bit_or, u32, u64, not32, not64, ◌>>◌, ◌<<◌, kib, Outcome, ok, ◌>>=◌,
}
use cardinal.Cpuid.{CpuId}
use cardinal.Vmem.{Config, vmem_phystovirt, flag_uncached}

-- Machine registers, memory and ports.
pub record Machine : Type 1 where
  pub State : Type 0
  pub rdmsr : ℕ → State → ℕ
  pub wrmsr : ℕ → ℕ → State → State
  pub read_word : ℕ → State → ℕ
  pub write_word : ℕ → ℕ → State → State
  pub outb : ℕ → ℕ → State → State

abbrev pub apic_id : ℕ
apic_id = 0x20

abbrev pub apic_tpr : ℕ
apic_tpr = 0x80

abbrev pub apic_eoi : ℕ
apic_eoi = 0xb0

abbrev pub apic_dfr : ℕ
apic_dfr = 0xe0

abbrev pub apic_svr : ℕ
apic_svr = 0xf0

abbrev pub apic_isr : ℕ
apic_isr = 0x100

abbrev pub apic_icr_lo : ℕ
apic_icr_lo = 0x300

abbrev pub apic_icr_hi : ℕ
apic_icr_hi = 0x310

abbrev pub apic_timer : ℕ
apic_timer = 0x320

abbrev pub apic_icor : ℕ
apic_icor = 0x380

-- `IA32_APIC_BASE`
abbrev pub apic_base_msr : ℕ
apic_base_msr = 0x1b

-- `tls_apic_t`
pub record LocalApic : Type 0 where
  pub base_addr : ℕ
  pub id : ℕ
  pub x2apic_mode : Bool

-- The word that `interrupt_sendipi` sends, without its destination.
unfoldable pub ipi_command : ℕ → ℕ → ℕ
ipi_command vector delivery_mode =
    bit_or (bit_or (bit_and vector 0xff) (bit_and delivery_mode 7 << 8)) (1 << 14)

module _ (M : Machine) where
  unfoldable pub apic_read : LocalApic → ℕ → M.State → ℕ
  apic_read apic off s =
      if apic.x2apic_mode
      then M.rdmsr (0x800 + off / 16) s
      else M.read_word (apic.base_addr + off / 4 * 4) s

  -- The mask is that of a 32-bit constant, so nothing of the value read is kept.
  unfoldable pub apic_write : LocalApic → ℕ → ℕ → M.State → M.State
  apic_write apic off val s =
      if apic.x2apic_mode
      then (if off == apic_eoi
          then M.wrmsr (0x800 + off / 16) val s
          else M.wrmsr (0x800 + off / 16)
              (bit_or (bit_and (M.rdmsr (0x800 + off / 16) s) (not32 0xffffffff)) val) s)
      else M.write_word (apic.base_addr + off / 4 * 4) (u32 val) s

  unfoldable pub pic_fini : M.State → M.State
  pic_fini s0 =
      let s1 = M.outb 0xa0 0x11 (M.outb 0x20 0x11 s0) in
      let s2 = M.outb 0xa1 40 (M.outb 0x21 32 s1) in
      let s3 = M.outb 0xa1 2 (M.outb 0x21 4 s2) in
      let s4 = M.outb 0xa1 1 (M.outb 0x21 1 s3) in M.outb 0xa1 0xff (M.outb 0x21 0xff s4)

  -- The controller's registers are where its base address is mapped uncached.
  unfoldable pub apic_init : Config → (ℕ → ℕ → CpuId) → M.State → Outcome (LocalApic × M.State)
  unfolding apic_read apic_write
  apic_init cfg cpuid s =
      let apic_base_reg = M.rdmsr apic_base_msr s in
      vmem_phystovirt cfg (bit_and apic_base_reg (not64 0xfff)) (kib 8) flag_uncached >>= λ base.
      let enabled = bit_or apic_base_reg (1 << 11) in
      let x2apic_sup = not (bit_and ((cpuid 1 0).ecx >> 21) 1 == 0) in
      let apic : LocalApic = record { base_addr = base; id = 0; x2apic_mode = x2apic_sup } in
      let s1 = if x2apic_sup then s else apic_write apic apic_dfr 0xf0000000 s in
      let s2 =
        M.wrmsr apic_base_msr (if x2apic_sup then bit_or enabled (1 << 10) else enabled) s1 in
      let read_id = u32 (apic_read apic apic_id s2) in
      let apic' = record apic { id = if x2apic_sup then read_id else read_id >> 24 } in
      ok (apic', apic_write apic' apic_svr 0x1ff (apic_write apic' apic_tpr 0 s2))

  abbrev pub interrupt_get_cpuidx : LocalApic → ℕ
  interrupt_get_cpuidx apic = apic.id

  -- `1 << bit_off` is an `int`, whose sign is extended.
  unfoldable pub interrupt_sendeoi : LocalApic → ℕ → M.State → M.State
  unfolding apic_read apic_write
  interrupt_sendeoi apic irq s =
      let byte_off = irq / 32 * 16 in
      let mask = if irq % 32 == 31 then 2 ^ 64 - 2 ^ 31 else 1 << irq % 32 in
      if bit_and (apic_read apic (apic_isr + byte_off) s) mask == 0
      then s
      else apic_write apic apic_eoi 0 s

  unfoldable pub interrupt_sendipi : LocalApic → ℕ → ℕ → ℕ → M.State → M.State
  unfolding ipi_command apic_write
  interrupt_sendipi apic cpu vector delivery_mode s =
      if apic.x2apic_mode
      then apic_write apic apic_icr_lo (bit_or (ipi_command vector delivery_mode) (u64 (cpu << 32)))
          s
      else (let ipi_msg = bit_or (ipi_command vector delivery_mode) (u64 (cpu << 56)) in
          apic_write apic apic_icr_lo (u32 ipi_msg)
            (apic_write apic apic_icr_hi (u32 (ipi_msg >> 32)) s))
