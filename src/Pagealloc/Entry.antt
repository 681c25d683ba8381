-- ===== src/Pagealloc/Entry.antt =====
-- The macros of kernel/src/pagealloc.c: a free block as one 64-bit entry, its page-aligned
-- address above bit 20 and its page count less one below.
use cardinal.Base.{
  ℕ, ◌+◌, ◌-◌, ◌*◌, ◌/◌, ◌%◌, ◌^◌, ◌<◌, ◌≤◌, ◌≡◌, arith, bit_and, bit_or, u64, not64, sub64, kib,
  ◌<<◌, ◌>>◌,
}
use cardinal.Base.Bits.{and_mask, and_field, or_field}

abbrev pub btm_level : ℕ
btm_level = kib 4

abbrev pub addr_shamt : ℕ
addr_shamt = 8

abbrev pub max_entries : ℕ
max_entries = 2 ^ (12 + addr_shamt)

unfoldable pub build_addr : ℕ → ℕ
build_addr addr = u64 (bit_and addr (not64 (btm_level - 1)) << addr_shamt)

unfoldable pub build_pages : ℕ → ℕ
build_pages pages = bit_and (sub64 pages 1) (max_entries - 1)

unfoldable pub build_entry : ℕ → ℕ → ℕ
unfolding build_addr build_pages
build_entry addr pages = bit_or (build_addr addr) (build_pages pages)

unfoldable pub get_addr : ℕ → ℕ
get_addr e = bit_and (e >> addr_shamt) (not64 (btm_level - 1))

unfoldable pub get_pg_cnt : ℕ → ℕ
get_pg_cnt e = bit_and e (max_entries - 1) + 1

-- `roundUp_po2`, for `mult` a power of two.
unfoldable pub round_up_po2 : ℕ → ℕ → ℕ
round_up_po2 val mult = bit_and (u64 (val + (mult - 1))) (not64 (mult - 1))

-- The macros as arithmetic.
high_mask : (a : ℕ) → a < 2 ^ 64 → bit_and a (not64 (btm_level - 1)) ≡ a / 4096 * 4096
high_mask a h = omega (arith, and_field 52 12 a)

pub get_addr-eq : (e : ℕ) → e < 2 ^ 64 → get_addr e ≡ e / 2 ^ 20 * 4096
unfolding get_addr
get_addr-eq e h = omega (arith, high_mask (e / 2 ^ 8) (omega arith))

pub get_pg_cnt-eq : (e : ℕ) → get_pg_cnt e ≡ e % 2 ^ 20 + 1
unfolding get_pg_cnt
get_pg_cnt-eq e = omega (arith, and_mask 20 e)

pub build_entry-eq :
    (addr pages : ℕ)
    → addr < 2 ^ 56
    → addr % 4096 ≡ 0
    → 1 ≤ pages
    → pages ≤ 2 ^ 20
    → build_entry addr pages ≡ addr / 4096 * 2 ^ 20 + (pages - 1)
unfolding build_entry
build_entry-eq addr pages small aligned lo hi =
    ground
      (arith, high_mask addr, and_mask 20 (sub64 pages 1), or_field 20 (addr / 4096) (pages - 1))

-- `roundUp_po2` to a page is rounding up to a multiple of 4096, where nothing overflows.
pub round_up_po2-eq :
    (n : ℕ) → n + 4095 < 2 ^ 64 → round_up_po2 n btm_level ≡ (n + 4095) / 4096 * 4096
unfolding round_up_po2
round_up_po2-eq n h = ground (arith, high_mask (n + 4095))

-- An entry that is built of an aligned address below 2 ^ 56 and of 1 to 2 ^ 20 pages is a
-- 64-bit value and gives both back.
pub get-build_entry :
    (addr pages : ℕ)
    → addr < 2 ^ 56
    → addr % 4096 ≡ 0
    → 1 ≤ pages
    → pages ≤ 2 ^ 20
    → (get_addr (build_entry addr pages) ≡ addr)
      × (get_pg_cnt (build_entry addr pages) ≡ pages)
      × (build_entry addr pages < 2 ^ 64)
get-build_entry addr pages small aligned lo hi = ground (
  arith,
  build_entry-eq addr pages small aligned lo hi,
  get_addr-eq (build_entry addr pages),
  get_pg_cnt-eq (build_entry addr pages),
)

-- Every 64-bit value is the entry of the address and the count that it holds.
build_entry-get : (e : ℕ) → e < 2 ^ 64 → build_entry (get_addr e) (get_pg_cnt e) ≡ e
build_entry-get e h =
    ground (arith, get_addr-eq e, get_pg_cnt-eq e, build_entry-eq (get_addr e) (get_pg_cnt e))
