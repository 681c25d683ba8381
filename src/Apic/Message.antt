-- ===== src/Apic/Message.antt =====
-- The messages that kernel/src/interrupts/apic.c sends to other processors, and the rate of its timer.
use cardinal.Base.{
  ℕ, ◌+◌, ◌*◌, ◌/◌, ◌%◌, ◌^◌, ◌<◌, ◌≡◌, refl, ◌∙◌, ap, true, false, Option, some, bit_and, bit_or,
  u32, u64, not32, ◌<<◌, ◌>>◌, arith,
}
use cardinal.Base.Bits.{and_mask, and_zero, or_zero, or_field, or_comm, and-le}
use cardinal.Cpuid.{CpuId, Vendor, vendor_intel, cpuid_manufacturer}
use cardinal.Apic.{Machine, LocalApic, apic_write, ipi_command, interrupt_sendipi}
use cardinal.Apic.Timer.{member, platform_models, fixed_models, apic_rate_of, apic_freq}

-- Two parts of a word side by side.
or_parts : (k high low : ℕ) → low < 2 ^ k → bit_or low (high << k) ≡ high * 2 ^ k + low
or_parts k high low lt = or_comm low (high * 2 ^ k) ∙ or_field k high low lt

ipi_command-value :
    (vector mode : ℕ) → ipi_command vector mode ≡ 2 ^ 14 + mode % 8 * 2 ^ 8 + vector % 256
unfolding ipi_command
ipi_command-value vector mode =
    let low : bit_and vector 0xff ≡ vector % 256 = and_mask 8 vector in
    let high : bit_and mode 7 ≡ mode % 8 = and_mask 3 mode in
    let first = or_parts 8 (mode % 8) (vector % 256) (omega arith) in
    let second = or_parts 14 1 (mode % 8 * 2 ^ 8 + vector % 256) (omega arith) in
    rw (ipi_command, low, high, first) (second ∙ omega arith)

-- The mask of `apic_write` keeps nothing of the value read.
nothing_kept : (old val : ℕ) → bit_or (bit_and old (not32 0xffffffff)) val ≡ val
nothing_kept old val = ap (λ (b : ℕ). bit_or b val) (and_zero old) ∙ or_comm 0 val ∙ or_zero val

-- The vector, the way of delivery and the level of a message.
pub record Command (vector mode word : ℕ) : Type 0 where
  pub vector_field : word % 2 ^ 8 ≡ vector % 2 ^ 8
  pub mode_field : word / 2 ^ 8 % 8 ≡ mode % 8
  pub level_field : word / 2 ^ 14 ≡ 1

ipi_command-Command : (vector mode : ℕ) → Command vector mode (ipi_command vector mode)
ipi_command-Command vector mode =
    let e = ipi_command-value vector mode in
    record {
      vector_field = omega (arith, e);
      mode_field = omega (arith, e);
      level_field = omega (arith, e);
    }

module _ (M : Machine) (apic : LocalApic) (s : M.State) where
  -- What is sent to the processor `cpu`: one register that holds its number in its upper half, or two
  -- words of memory, the higher one first, that holds its number in its upper byte.
  abbrev pub Sent : ℕ → ℕ → ℕ → Type 0
  Sent cpu vector mode =
      (apic.x2apic_mode ≡ true
        → (word : ℕ) × (interrupt_sendipi M apic cpu vector mode s ≡ M.wrmsr 0x830 word s)
          × Command vector mode (word % 2 ^ 32)
          × (word / 2 ^ 32 ≡ cpu % 2 ^ 32))
      × (apic.x2apic_mode ≡ false
          → (low : ℕ) × (high : ℕ) × (interrupt_sendipi M apic cpu vector mode s
              ≡ M.write_word (apic.base_addr + 0x300) low
                  (M.write_word (apic.base_addr + 0x310) high s))
            × Command vector mode low
            × (high ≡ cpu % 2 ^ 8 * 2 ^ 24))

  -- `interrupt_sendipi` sends the same command in both modes of the controller, and the number of the
  -- processor where the mode has it, of 32 bits or of 8.
  pub interrupt_sendipi-Sent : (cpu vector mode : ℕ) → Sent cpu vector mode
  unfolding interrupt_sendipi apic_write
  interrupt_sendipi-Sent cpu vector mode =
      let command = ipi_command vector mode in
      let value = ipi_command-value vector mode in
      let fields = ipi_command-Command vector mode in
      (
        λ on.
            let parts : bit_or command (u64 (cpu << 32)) ≡ cpu % 2 ^ 32 * 2 ^ 32 + command =
              ap (λ (h : ℕ). bit_or command h) (omega arith)
              ∙ or_parts 32 (cpu % 2 ^ 32) command (omega (arith, value)) in
            let kept : bit_or (bit_and (M.rdmsr 0x830 s) (not32 0xffffffff))
                  (bit_or command (u64 (cpu << 32)))
                ≡ cpu % 2 ^ 32 * 2 ^ 32 + command =
              nothing_kept (M.rdmsr 0x830 s) (bit_or command (u64 (cpu << 32))) ∙ parts in
            let low : (cpu % 2 ^ 32 * 2 ^ 32 + command) % 2 ^ 32 ≡ command = omega (arith, value) in
            (
              cpu % 2 ^ 32 * 2 ^ 32 + command,
              rw (interrupt_sendipi, on) (ap (λ (w : ℕ). M.wrmsr 0x830 w s) kept),
              rw low fields,
              omega (arith, value),
            ),
        λ off.
            let parts : bit_or command (u64 (cpu << 56)) ≡ cpu % 2 ^ 8 * 2 ^ 56 + command =
              ap (λ (h : ℕ). bit_or command h) (omega arith)
              ∙ or_parts 56 (cpu % 2 ^ 8) command (omega (arith, value)) in
            let low : u32 (u32 (bit_or command (u64 (cpu << 56)))) ≡ command =
              omega (arith, parts, value) in
            let high : u32 (u32 (bit_or command (u64 (cpu << 56)) >> 32)) ≡ cpu % 2 ^ 8 * 2 ^ 24 =
              omega (arith, parts, value) in
            (
              command,
              cpu % 2 ^ 8 * 2 ^ 24,
              rw (interrupt_sendipi, off, low, high) refl,
              fields,
              refl,
            ),
      )

-- The rate of the timer on a processor of Intel whose leaf 0x16 gives none: the model is read as 4 bits,
-- so none of the models of the source is found, the rate stays 0, and the timer is started with a
-- count of 0.
apic_rate-intel :
    (cpuid : ℕ → ℕ → CpuId) (rdmsr : ℕ → ℕ) (garbage : Option Vendor)
    → (cpuid_manufacturer cpuid).manufacturer ≡ some vendor_intel
    → bit_and (cpuid 0x16 0).ecx 0xffff ≡ 0
    → apic_freq (apic_rate_of cpuid rdmsr garbage) ≡ 0
unfolding apic_rate_of apic_freq cpuid_manufacturer
apic_rate-intel cpuid rdmsr garbage intel no_rate =
    let (platform, other) = no_model (cpuid_manufacturer cpuid).model (model_of cpuid) in
    rw (apic_rate_of, intel, no_rate, platform, other) refl
  where
    model_of : (c : ℕ → ℕ → CpuId) → (cpuid_manufacturer c).model < 16
    model_of c = omega (arith, and-le (c 1 0).eax 0xf0)

    no_model :
        (m : ℕ) → m < 16 → (member platform_models m ≡ false) × (member fixed_models m ≡ false)
    no_model m lt = ground arith
