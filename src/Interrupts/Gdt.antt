-- ===== src/Interrupts/Gdt.antt =====
-- kernel/src/interrupts/gdt.c: segment descriptors and the task state.
use cardinal.Base.{
  ℕ, ◌+◌, ◌*◌, ◌/◌, ◌%◌, ◌^◌, ◌<◌, ◌≡◌, refl, ap, List, [], ◌∷◌, get_or, set, length, bit_and,
  bit_or, ◌>>◌, u16, u32, arith, get_or-set_self, get_or-set_ne, length-set,
}
use cardinal.Base.Bits.{and_mask, and_field, or_field, or_comm}

-- `gdt_t`
pub record Descriptor : Type 0 where
  pub limit_low : ℕ
  pub base_low : ℕ
  pub base_mid : ℕ
  pub access : ℕ
  pub granularity : ℕ
  pub base_high : ℕ

abbrev pub no_descriptor : Descriptor
no_descriptor = record {
  limit_low = 0;
  base_low = 0;
  base_mid = 0;
  access = 0;
  granularity = 0;
  base_high = 0;
}

unfoldable pub gdt_setentry : ℕ → ℕ → ℕ → ℕ → Descriptor
gdt_setentry base limit access gran = record {
  base_low = bit_and base 0xffff;
  base_mid = bit_and (base >> 16) 0xff;
  base_high = bit_and (base >> 24) 0xff;
  limit_low = bit_and limit 0xffff;
  granularity = bit_or (bit_and (limit >> 16) 0x0f) (bit_and gran 0xf0);
  access = access;
}

-- The descriptor of a task state takes two entries: the second holds the upper half of the base.
unfoldable pub gdt_settss : List Descriptor → ℕ → ℕ → ℕ → ℕ → List Descriptor
gdt_settss gdt_lcl num base limit access =
    set (set gdt_lcl num (gdt_setentry (u32 base) limit access 0)) (num + 1)
      (record (gdt_setentry 0 0 0 0) { limit_low = u16 (base >> 32); base_low = u16 (base >> 48) })

abbrev pub tss_size : ℕ
tss_size = 104

-- Null, kernel code and data, user code of 32 bits, user data, user code of 64 bits, and room for
-- the task state.
unfoldable pub segments : List Descriptor
segments =
    gdt_setentry 0 0 0 0
    ∷ gdt_setentry 0 0xffffffff 0x9b 0xa0
    ∷ gdt_setentry 0 0xffffffff 0x93 0
    ∷ gdt_setentry 0 0xffffffff 0xfb 0xd0
    ∷ gdt_setentry 0 0xffffffff 0xf3 0
    ∷ gdt_setentry 0 0xffffffff 0xfb 0xa0
    ∷ no_descriptor
    ∷ no_descriptor
    ∷ []

length-segments : length segments ≡ 8
unfolding segments
length-segments = refl

-- The table that `gdt_init` builds; `tss` is the address of the task state.
unfoldable pub gdt_init : ℕ → List Descriptor
unfolding gdt_settss
gdt_init tss = gdt_settss segments 6 tss tss_size 0xe9

-- What the processor reads from a descriptor.
abbrev pub base_of : Descriptor → ℕ
base_of d = d.base_low + d.base_mid * 2 ^ 16 + d.base_high * 2 ^ 24

abbrev pub limit_of : Descriptor → ℕ
limit_of d = d.limit_low + d.granularity % 16 * 2 ^ 16

abbrev pub flags_of : Descriptor → ℕ
flags_of d = d.granularity / 16

nibbles :
    (low gran : ℕ)
    → low < 16
    → gran < 256
    → (bit_or low (bit_and gran 0xf0) % 16 ≡ low)
      × (bit_or low (bit_and gran 0xf0) / 16 ≡ gran / 16)
nibbles low gran hl hg = omega (
  arith,
  and_field 4 4 gran,
  or_comm low (gran / 16 % 16 * 16),
  or_field 4 (gran / 16 % 16) low hl,
  ap (bit_or low) (and_field 4 4 gran),
)

-- For a 32-bit base and 8-bit `gran`, a descriptor holds the base, the lower 20 bits of the
-- limit and the upper four bits of `gran`.
gdt_setentry-fields :
    (base limit access gran : ℕ)
    → base < 2 ^ 32
    → gran < 256
    → (base_of (gdt_setentry base limit access gran) ≡ base)
      × (limit_of (gdt_setentry base limit access gran) ≡ limit % 2 ^ 20)
      × (flags_of (gdt_setentry base limit access gran) ≡ gran / 16)
unfolding gdt_setentry
gdt_setentry-fields base limit access gran hb hg =
    let (low, high) =
      nibbles (bit_and (limit >> 16) 0x0f) gran (omega (arith, and_mask 4 (limit >> 16))) hg in
    omega (
      arith,
      low,
      high,
      and_mask 16 base,
      and_mask 8 (base >> 16),
      and_mask 8 (base >> 24),
      and_mask 16 limit,
      and_mask 4 (limit >> 16),
    )

-- The two entries together hold the 64-bit base of the task state.
pub gdt_settss-base :
    (gdt_lcl : List Descriptor) (num base limit access : ℕ)
    → num + 1 < length gdt_lcl
    → base < 2 ^ 64
    → let table = gdt_settss gdt_lcl num base limit access in
      let high = get_or table (num + 1) no_descriptor in
      base_of (get_or table num no_descriptor) + high.limit_low * 2 ^ 32 + high.base_low * 2 ^ 48
      ≡ base
unfolding gdt_settss
gdt_settss-base gdt_lcl num base limit access fits hb =
    rw
      (
        get_or-set_ne (set gdt_lcl num low_entry) (num + 1) num high_entry no_descriptor
            (omega arith),
        get_or-set_self gdt_lcl num low_entry no_descriptor (omega arith),
        get_or-set_self (set gdt_lcl num low_entry) (num + 1) high_entry no_descriptor
            (rw length-set fits),
      )
      (omega (arith, (gdt_setentry-fields (u32 base) limit access 0 (omega arith) (omega arith)).0))
  where
    low_entry : Descriptor
    low_entry = gdt_setentry (u32 base) limit access 0

    high_entry : Descriptor
    high_entry = record (gdt_setentry 0 0 0 0) {
      limit_low = u16 (base >> 32);
      base_low = u16 (base >> 48);
    }

-- For a 64-bit address, the last two entries of the table of `gdt_init` together hold the
-- address of the task state.
pub gdt_init-base :
    (tss : ℕ)
    → tss < 2 ^ 64
    → let high = get_or (gdt_init tss) 7 no_descriptor in
      base_of (get_or (gdt_init tss) 6 no_descriptor)
        + high.limit_low * 2 ^ 32
        + high.base_low * 2 ^ 48
      ≡ tss
unfolding gdt_init
gdt_init-base tss h =
    gdt_settss-base segments 6 tss tss_size 0xe9 (omega (arith, length-segments)) h
