-- ===== src/Apic/Tests.antt =====
-- The local interrupt controller on a machine that keeps a list of what is written.
use cardinal.Base.{ℕ, ◌≡◌, refl, false, if◌then◌else◌, ◌==◌, some, List, [], ◌∷◌}
use cardinal.Cpuid.{CpuId, vendor_intel, cpuid_manufacturer}
use cardinal.Apic.{
  Machine, LocalApic, apic_read, apic_write, ipi_command, interrupt_sendipi, interrupt_sendeoi,
}
use cardinal.Apic.Message.{Sent, interrupt_sendipi-Sent}

-- Reads give 0; a write is its place and its value.
abbrev recorder : Machine
recorder = record {
  State = List (ℕ × ℕ);
  rdmsr = λ msr s. 0;
  wrmsr = λ msr val s. (msr, val) ∷ s;
  read_word = λ addr s. 0xffffffff;
  write_word = λ addr val s. (addr, val) ∷ s;
  outb = λ port val s. (port, val) ∷ s;
}

abbrev in_memory : LocalApic
in_memory = record { base_addr = 0xfee00000; id = 0; x2apic_mode = false }

-- A start-up message to processor 3.
start_up :
    interrupt_sendipi recorder in_memory 3 8 6 []
    ≡ (0xfee00300, 0x4608) ∷ (0xfee00310, 0x03000000) ∷ []
unfolding interrupt_sendipi ipi_command apic_write
start_up = refl

end_of_interrupt : interrupt_sendeoi recorder in_memory 33 [] ≡ (0xfee000b0, 0) ∷ []
unfolding interrupt_sendeoi apic_read apic_write
end_of_interrupt = refl

interrupt_sendipi-Sent_example : Sent recorder in_memory [] 3 8 6
interrupt_sendipi-Sent_example = interrupt_sendipi-Sent recorder in_memory [] 3 8 6

-- A Skylake of Intel without leaf 0x16.
abbrev skylake : ℕ → ℕ → CpuId
skylake leaf subleaf = record {
  eax = 0x506e3;
  ebx = if leaf == 0 then 0x756e6547 else 0;
  ecx = if leaf == 0 then 0x6c65746e else 0;
  edx = if leaf == 0 then 0x49656e69 else 0;
}

skylake_intel : (cpuid_manufacturer skylake).manufacturer ≡ some vendor_intel
unfolding cpuid_manufacturer
skylake_intel = refl
