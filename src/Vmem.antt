-- ===== src/Vmem.antt =====
-- kernel/src/vmem.c: four levels of page tables.
-- A table is the root of the kernel's half (`kmem.ptable - 256`), the root of a user space (`ptable` of
-- the `vmem_t` with a number), or a page, by its physical address. Addresses are 64-bit patterns.
-- A user space has 256 entries in the source, for addresses below 2^47; here it has 512, and what the
-- code does behind the end of the array is not followed.
pub mod Walk
pub mod Entry
pub mod Run
pub mod Steps
pub mod Fill
pub mod Chain
pub mod Translate
pub mod Calls
pub mod Init
pub mod Active
pub mod Switch
pub mod Supply
mod Tests
use cardinal.Base.{
  ℕ, zero, suc, ◌+◌, ◌-◌, ◌*◌, ◌^◌, ◌==◌, ltb, leb, Bool, true, false, not, ◌&&◌, ◌||◌,
  if◌then◌else◌, List, [], ◌∷◌, get_or, bit_and, bit_or, u64, sub64, ◌>>◌, ◌<<◌, kib, mib, gib,
  Outcome, ok, panic, stuck, ◌>>=◌,
}

pub data Table : Type 0 where
  kernel_root : Table
  user_root page : ℕ → Table

unfoldable pub same_table : Table → Table → Bool
same_table kernel_root kernel_root = true
same_table kernel_root (user_root b) = false
same_table kernel_root (page b) = false
same_table (user_root a) kernel_root = false
same_table (user_root a) (user_root b) = a == b
same_table (user_root a) (page b) = false
same_table (page a) kernel_root = false
same_table (page a) (user_root b) = false
same_table (page a) (page b) = a == b

-- The contents of all tables.
abbrev pub Entries : Type 0
Entries = Table → ℕ → ℕ

unfoldable pub write : Entries → Table → ℕ → ℕ → Entries
write es t i v t' i' = if same_table t t' && i == i' then v else es t' i'

unfoldable pub clear : Entries → Table → Entries
clear es t t' i' = if same_table t t' then 0 else es t' i'

-- Bits of an entry.
abbrev pub present_bit : ℕ
present_bit = 1 << 0

abbrev pub write_bit : ℕ
write_bit = 1 << 1

abbrev pub user_bit : ℕ
user_bit = 1 << 2

abbrev pub writethrough_bit : ℕ
writethrough_bit = 1 << 3

abbrev pub cachedisable_bit : ℕ
cachedisable_bit = 1 << 4

abbrev pub writecomplete_bits : ℕ
writecomplete_bits = 3 << 3

abbrev pub largepage_bit : ℕ
largepage_bit = 1 << 7

abbrev pub noexec_bit : ℕ
noexec_bit = 1 << 63

abbrev pub addr_mask : ℕ
addr_mask = 0x000ffffffffff000

-- `vmem_flags`
abbrev pub flag_write : ℕ
flag_write = 1 << 0

abbrev pub flag_exec : ℕ
flag_exec = 1 << 1

abbrev pub flag_writethrough : ℕ
flag_writethrough = 1 << 2

abbrev pub flag_writeback : ℕ
flag_writeback = 1 << 3

abbrev pub flag_writecomplete : ℕ
flag_writecomplete = 1 << 4

abbrev pub flag_uncached : ℕ
flag_uncached = 1 << 5

abbrev pub flag_kernel : ℕ
flag_kernel = 1 << 10

abbrev pub flag_user : ℕ
flag_user = 1 << 11

abbrev pub has : ℕ → ℕ → Bool
has word bits = not (bit_and word bits == 0)

-- `vmem_errs`
pub data Code : Type 0 where
  err_none err_alreadymapped err_continue err_nomapping : Code

-- The four arrays, by level.
abbrev pub levels : List ℕ
levels = gib 512 ∷ gib 1 ∷ mib 2 ∷ kib 4 ∷ []

abbrev pub masks : List ℕ
masks = 0xff8000000000 ∷ 0x007fc0000000 ∷ 0x00003fe00000 ∷ 0x0000001ff000 ∷ []

abbrev pub shamts : List ℕ
shamts = 39 ∷ 30 ∷ 21 ∷ 12 ∷ []

-- Pages of 1 GiB are used where the processor has them.
abbrev pub largepage_avail : Bool → List Bool
largepage_avail huge = false ∷ huge ∷ true ∷ true ∷ []

abbrev pub level_size : ℕ → ℕ
level_size lv = get_or levels lv 0

unfoldable pub index : ℕ → ℕ → ℕ
index lv virt = bit_and virt (get_or masks lv 0) >> get_or shamts lv 0

-- The variables that `vmem_init` sets: `largepage_avail[1]` and `phys_map_sz`.
pub record Config : Type 0 where
  pub huge : Bool
  pub phys_map_sz : ℕ

abbrev pub kern_top_base : ℕ
kern_top_base = 0xffffffff80000000

abbrev pub kern_physmap_base : ℕ
kern_physmap_base = 0xffff800000000000

abbrev pub kern_physmap_base_uc : ℕ
kern_physmap_base_uc = kern_physmap_base + gib 512

-- `phys < (intptr_t)bound && phys + sz < bound`: the first test is signed, the second is not.
abbrev pub fits : ℕ → ℕ → ℕ → Bool
fits phys sz bound = (leb (2 ^ 63) phys || ltb phys bound) && ltb (u64 (phys + sz)) bound

unfoldable pub vmem_phystovirt : Config → ℕ → ℕ → ℕ → Outcome ℕ
vmem_phystovirt cfg phys sz flags =
    if has flags flag_writeback
    then (if fits phys sz (gib 2)
        then ok (u64 (phys + kern_top_base))
        else if fits phys sz cfg.phys_map_sz
        then ok (u64 (phys + kern_physmap_base))
        else panic)
    else if has flags flag_uncached && fits phys sz cfg.phys_map_sz
    then ok (u64 (phys + kern_physmap_base_uc))
    else panic

-- The table that the pointer `vmem_phystovirt(phys, KiB(4), vmem_flags_cachewriteback)` points to.
unfoldable pub table_at : Config → ℕ → Outcome Table
table_at cfg phys = vmem_phystovirt cfg phys (kib 4) flag_writeback >>= λ virt. ok (page phys)

-- `vmem_vmalloc` and `vmem_vfree` on `kernel_vmalloc`.
unfoldable pub vmem_vmalloc : ℕ → ℕ → ℕ × ℕ
vmem_vmalloc sz kernel_vmalloc = (kernel_vmalloc, u64 (kernel_vmalloc + sz))

unfoldable pub vmem_vfree : ℕ → ℕ → ℕ → ℕ
vmem_vfree virt sz kernel_vmalloc =
    if u64 (virt + sz) == kernel_vmalloc then sub64 kernel_vmalloc sz else kernel_vmalloc
