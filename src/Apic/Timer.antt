-- ===== src/Apic/Timer.antt =====
-- `local_apic_timer_init` of kernel/src/interrupts/apic.c.
use cardinal.Base.{
  ℕ, ◌*◌, ◌/◌, ◌==◌, Bool, false, ◌||◌, if◌then◌else◌, Option, none, some, List, [], ◌∷◌, bit_and,
  bit_or, u32, not64, ◌>>◌, ◌<<◌, Outcome, ok, ◌>>=◌,
}
use cardinal.Cpuid.{CpuId, Vendor, vendor_intel, vendor_amd, cpuid_manufacturer}
use cardinal.Interrupts.{Interrupts, interrupt_allocate, interrupt_registerhandler, exclusive}
use cardinal.Apic.{Machine, LocalApic, apic_read, apic_write, apic_timer, apic_icor}

abbrev pub member : List ℕ → ℕ → Bool
member [] x = false
member (y ∷ ys) x = y == x || member ys x

-- Sandy Bridge to Broadwell, by the model.
abbrev pub platform_models : List ℕ
platform_models =
    0x2a ∷ 0x2d ∷ 0x3a ∷ 0x3e ∷ 0x3c ∷ 0x3f ∷ 0x45 ∷ 0x46 ∷ 0x3d ∷ 0x47 ∷ 0x56 ∷ 0x4f ∷ []

-- Skylake and Kaby Lake.
abbrev pub fixed_models : List ℕ
fixed_models = 0x4e ∷ 0x5e ∷ 0x55 ∷ 0x8e ∷ 0x9e ∷ []

-- The rate in MHz. Where the vendor is neither of the two, `manufacturer` is not set, and `garbage`
-- is what it holds.
unfoldable pub apic_rate_of : (ℕ → ℕ → CpuId) → (ℕ → ℕ) → Option Vendor → ℕ
apic_rate_of cpuid rdmsr garbage =
    let apic_rate = bit_and (cpuid 0x16 0).ecx 0xffff in
    let processor = cpuid_manufacturer cpuid in
    let vendor = elim processor.manufacturer as (λ x. Option Vendor) [
      | none ↦ garbage
      | some v ↦ some v
    ] in
    elim vendor as (λ x. ℕ) [
      | none ↦ apic_rate
      | some v ↦ elim v as (λ x. ℕ) [
        | vendor_amd ↦ if apic_rate == 0 then 100 else apic_rate
        | vendor_intel ↦
            if apic_rate == 0
            then (if member platform_models processor.model
                then bit_and (rdmsr 0xce >> 8) 0xff * 100
                else if member fixed_models processor.model
                then 24
                else apic_rate)
            else apic_rate
      ]
    ]

-- Ticks of 0.05 ms; the products are of 32 bits.
unfoldable pub apic_freq : ℕ → ℕ
apic_freq apic_rate = u32 (u32 (apic_rate * 1000) * 1000) / 20000

-- The vector, which other processors take over, and the table of handlers.
unfoldable pub timer_vector : Bool → ℕ → ℕ → Interrupts → Outcome (ℕ × Interrupts)
timer_vector ap intrpt_num handler i =
    if ap
    then ok (intrpt_num, i)
    else (interrupt_allocate 1 exclusive 50 i >>= λ (done, (vector, i1)).
        interrupt_registerhandler vector handler i1 >>= λ i2. ok (vector, i2))

module _ (M : Machine) where
  unfoldable pub local_apic_timer_init :
      (ℕ → ℕ → CpuId)
      → Option Vendor
      → LocalApic
      → Bool
      → ℕ
      → Bool
      → ℕ
      → Interrupts
      → M.State
      → Outcome (ℕ × (Interrupts × M.State))
  unfolding apic_rate_of apic_freq timer_vector apic_read apic_write
  local_apic_timer_init cpuid garbage apic tsc_mode handler ap intrpt_num i s =
      timer_vector ap intrpt_num handler i >>= λ (vector, i').
      let v =
        bit_or (bit_and (apic_read M apic apic_timer s) (not64 0x007100ff)) (bit_and vector 0xff) in
      ok (
        vector,
        (
          i',
          if tsc_mode
              then apic_write M apic apic_timer (bit_or v (2 << 17)) s
              else apic_write M apic apic_timer (bit_or v (1 << 17)) (
                  apic_write M apic apic_icor
                    (apic_freq (apic_rate_of cpuid (λ msr. M.rdmsr msr s) garbage)) s),
        ),
      )
