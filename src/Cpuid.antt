-- ===== src/Cpuid.antt =====
-- kernel/src/cpuid.c. The instruction is a parameter: the registers by the two arguments.
use cardinal.Base.{
  ℕ, ◌==◌, Bool, true, false, ◌&&◌, if◌then◌else◌, Option, none, some, List, [], ◌∷◌, ◌++◌, bit_and,
  ◌>>◌, u8,
}

-- What `cpuid` puts in the registers.
pub record CpuId : Type 0 where
  pub eax : ℕ
  pub ebx : ℕ
  pub ecx : ℕ
  pub edx : ℕ

pub data Vendor : Type 0 where
  vendor_intel vendor_amd : Vendor

pub record Processor : Type 0 where
  -- none leaves `*manufacturer` as it was.
  pub manufacturer : Option Vendor
  pub stepping : ℕ
  pub model : ℕ
  pub family : ℕ
  pub proc_type : ℕ

abbrev word_bytes : ℕ → List ℕ
word_bytes w = u8 w ∷ u8 (w >> 8) ∷ u8 (w >> 16) ∷ u8 (w >> 24) ∷ []

abbrev same_text : List ℕ → List ℕ → Bool
same_text [] [] = true
same_text [] (y ∷ ys) = false
same_text (x ∷ xs) [] = false
same_text (x ∷ xs) (y ∷ ys) = x == y && same_text xs ys

-- "GenuineIntel"
abbrev genuine_intel : List ℕ
genuine_intel = 71 ∷ 101 ∷ 110 ∷ 117 ∷ 105 ∷ 110 ∷ 101 ∷ 73 ∷ 110 ∷ 116 ∷ 101 ∷ 108 ∷ []

-- "AuthenticAMD"
abbrev authentic_amd : List ℕ
authentic_amd = 65 ∷ 117 ∷ 116 ∷ 104 ∷ 101 ∷ 110 ∷ 116 ∷ 105 ∷ 99 ∷ 65 ∷ 77 ∷ 68 ∷ []

unfoldable pub cpuid_manufacturer : (ℕ → ℕ → CpuId) → Processor
cpuid_manufacturer cpuid =
    let eax = (cpuid 1 0).eax in
    let proc_str =
      word_bytes (cpuid 0 0).ebx ++ word_bytes (cpuid 0 0).edx ++ word_bytes (cpuid 0 0).ecx in
    record {
      manufacturer =
          if same_text proc_str genuine_intel
          then some vendor_intel
          else if same_text proc_str authentic_amd
          then some vendor_amd
          else none;
      stepping = bit_and eax 0x0f;
      model = bit_and eax 0xf0 >> 4;
      family = bit_and eax 0xf00 >> 8;
      proc_type = bit_and eax 0xf000 >> 12;
    }
