-- ===== src/Bootinfo.antt =====
-- kernel/src/bootinfo.c, with `bootinfo_t` of kernel/inc/bootinfo.h and the tags of kernel/inc/multiboot2.h.
-- The boot loader's data is bytes by address. That its memory map is changed while it is read is left
-- out: no entry is read twice unless they overlap.
pub mod Map
pub mod Loop
pub mod Stored
mod Tests
use cardinal.Base.{
  ℕ, zero, suc, ◌+◌, ◌-◌, ◌*◌, ◌/◌, ◌%◌, ◌^◌, ◌==◌, ltb, leb, Bool, true, false, not, ◌||◌,
  if◌then◌else◌, Option, none, some, List, [], ◌∷◌, ◌++◌, bit_and, u8, u32, u64, sub64, not32, mib,
  Outcome, ok, stuck, ◌>>=◌,
}
use cardinal.Memory.{Memory}
use cardinal.Bootstrap.{Area, bootstrap_malloc}

-- A value of `k` bytes, the lowest first.
unfoldable pub read_bytes : ℕ → Memory → ℕ → ℕ
read_bytes zero mem p = 0
read_bytes (suc k) mem p = u8 (mem p) + 256 * read_bytes k mem (p + 1)

abbrev pub read32 : Memory → ℕ → ℕ
read32 mem p = read_bytes 4 mem p

abbrev pub read64 : Memory → ℕ → ℕ
read64 mem p = read_bytes 8 mem p

-- `bootinfo_mmap_t`
pub record Region : Type 0 where
  pub addr : ℕ
  pub len : ℕ
  pub kind : ℕ

-- `bootinfo_mem_type_available` and `MULTIBOOT_MEMORY_AVAILABLE`
abbrev pub available : ℕ
available = 1

-- `bootinfo_t`. Of the array `mmap` the entries that were written; it has `mmap_cnt` of them, and the
-- others are what the memory held before.
pub record BootInfo : Type 0 where
  pub mem_sz : ℕ
  pub elf_shdr_type : ℕ
  pub elf_shdr_size : ℕ
  pub elf_shdr_num : ℕ
  pub elf_shdr_entsize : ℕ
  pub elf_shdr_shndx : ℕ
  pub mmap_cnt : ℕ
  pub elf_shdr_addr : ℕ
  pub acpi_rsdp_addr : ℕ
  pub initrd_addr : ℕ
  pub initrd_phys_addr : ℕ
  pub initrd_len : ℕ
  pub mmap : List Region
  pub fb_addr : ℕ
  pub fb_pitch : ℕ
  pub fb_width : ℕ
  pub fb_height : ℕ
  pub fb_bpp : ℕ
  pub fb_red_pos : ℕ
  pub fb_red_mask_sz : ℕ
  pub fb_green_pos : ℕ
  pub fb_green_mask_sz : ℕ
  pub fb_blue_pos : ℕ
  pub fb_blue_mask_sz : ℕ

-- `memset(&bootinfo, 0, sizeof(bootinfo_t))`
abbrev pub no_info : BootInfo
no_info = record {
  mem_sz = 0;
  elf_shdr_type = 0;
  elf_shdr_size = 0;
  elf_shdr_num = 0;
  elf_shdr_entsize = 0;
  elf_shdr_shndx = 0;
  mmap_cnt = 0;
  elf_shdr_addr = 0;
  acpi_rsdp_addr = 0;
  initrd_addr = 0;
  initrd_phys_addr = 0;
  initrd_len = 0;
  mmap = [];
  fb_addr = 0;
  fb_pitch = 0;
  fb_width = 0;
  fb_height = 0;
  fb_bpp = 0;
  fb_red_pos = 0;
  fb_red_mask_sz = 0;
  fb_green_pos = 0;
  fb_green_mask_sz = 0;
  fb_blue_pos = 0;
  fb_blue_mask_sz = 0;
}

-- The reservation of everything below 2 MiB; `none` is the `continue`.
unfoldable pub reserve_low : Region → Option Region
reserve_low r =
    if ltb r.addr (mib 2)
    then (let diff = mib 2 - r.addr in
        if leb r.len diff
        then none
        else some (record r { addr = r.addr + diff; len = r.len - diff }))
    else some r

-- The entry for the memory before the kernel, and what is left.
unfoldable pub split_before : ℕ → Region → List Region × Region
split_before start r =
    if ltb r.addr start
    then (
      record { addr = r.addr; len = sub64 start r.addr; kind = available } ∷ [],
      record r { addr = start; len = sub64 r.len (sub64 start start) },
    )
    else ([], r)

-- The reservation of what is left up to the end of the kernel; `none` is the `continue`.
unfoldable pub reserve_to : ℕ → Region → Option Region
reserve_to end r =
    let diff = sub64 end r.addr in
    if leb r.len diff
    then none
    else some (record r { addr = u64 (r.addr + diff); len = sub64 r.len diff })

-- The reservation of the kernel's memory: the entry written before it, and what is left.
unfoldable pub reserve_kernel : ℕ → ℕ → Region → List Region × Option Region
unfolding split_before reserve_to
reserve_kernel start end r = elim (leb start r.addr) [
  | false ↦ ([], some r)
  | true ↦ ((split_before start r).0, reserve_to end (split_before start r).1)
]

-- The entries that one entry of the memory map gives.
unfoldable pub trim : ℕ → ℕ → Region → List Region
unfolding reserve_low reserve_kernel
trim start end r = elim (reserve_low r) [
  | none ↦ []
  | some r1 ↦
      let (before, rest) = reserve_kernel start end r1 in
      elim rest [ none ↦ before | some r2 ↦ if r2.len == 0 then before else before ++ r2 ∷ [] ]
]

abbrev pub read_region : Memory → ℕ → Region
read_region mem p = record {
  addr = read64 mem p;
  len = read64 mem (p + 8);
  kind = read32 mem (p + 16);
}

-- The loop over the memory map of `size` bytes at `entries`, from byte `j` on: `mem_sz` and the entries.
unfoldable pub mmap_loop : ℕ → ℕ → ℕ → Memory → ℕ → ℕ → ℕ → ℕ → ℕ → Outcome (ℕ × List Region)
unfolding trim
mmap_loop zero start end mem entries size entry_size j mem_sz =
    if ltb j size then stuck else ok (mem_sz, [])
mmap_loop (suc rounds) start end mem entries size entry_size j mem_sz =
    let r = read_region mem (entries + j) in
    let mem_sz' = if r.kind == available then u64 (mem_sz + r.len) else mem_sz in
    elim (ltb j size) [
      | false ↦ ok (mem_sz, [])
      | true ↦
          mmap_loop rounds start end mem entries size entry_size (u32 (j + entry_size)) mem_sz'
          >>= λ (sz, regions). ok (sz, trim start end r ++ regions)
    ]

-- `MULTIBOOT_TAG_TYPE_MMAP`, for the tag at `p`. A size of 0 for the entries is a division by zero, and
-- an entry is written through NULL where there is no memory for the array.
unfoldable pub mmap_tag : ℕ → ℕ → Memory → ℕ → BootInfo → Area → Outcome (BootInfo × Area)
mmap_tag start end mem p bi area =
    let size = u32 (read32 mem (p + 4) + (2 ^ 32 - 16)) in
    let entry_size = read32 mem (p + 8) in
    let entry_cnt = u32 (size / entry_size * 2) in
    elim (entry_size == 0) [
      | true ↦ stuck
      | false ↦ bootstrap_malloc (24 * entry_cnt) area >>= λ (map, area').
          mmap_loop (2 ^ 32) start end mem (p + 16) size entry_size 0 bi.mem_sz
          >>= λ (mem_sz, regions). elim map [
            | none ↦ elim regions [
              | [] ↦ ok (record bi { mem_sz = mem_sz; mmap = []; mmap_cnt = entry_cnt }, area')
              | r ∷ rs ↦ stuck
            ]
            | some at ↦
                ok (record bi { mem_sz = mem_sz; mmap = regions; mmap_cnt = entry_cnt }, area')
          ]
    ]

unfoldable pub framebuffer_tag : Memory → ℕ → BootInfo → BootInfo
framebuffer_tag mem p bi = record bi {
  fb_addr = read64 mem (p + 8);
  fb_pitch = read32 mem (p + 16);
  fb_width = read32 mem (p + 20);
  fb_height = read32 mem (p + 24);
  fb_bpp = u8 (mem (p + 28));
  fb_red_pos = u8 (mem (p + 32));
  fb_red_mask_sz = u8 (mem (p + 33));
  fb_green_pos = u8 (mem (p + 34));
  fb_green_mask_sz = u8 (mem (p + 35));
  fb_blue_pos = u8 (mem (p + 36));
  fb_blue_mask_sz = u8 (mem (p + 37));
}

unfoldable pub elf_tag : Memory → ℕ → BootInfo → BootInfo
elf_tag mem p bi = record bi {
  elf_shdr_type = read32 mem p;
  elf_shdr_size = read32 mem (p + 4);
  elf_shdr_num = read32 mem (p + 8);
  elf_shdr_entsize = read32 mem (p + 12);
  elf_shdr_shndx = read32 mem (p + 16);
  elf_shdr_addr = p + 20;
}

unfoldable pub acpi_tag : ℕ → BootInfo → BootInfo
acpi_tag p bi = record bi { acpi_rsdp_addr = p + 8 }

unfoldable pub module_tag : Memory → ℕ → BootInfo → BootInfo
module_tag mem p bi = record bi {
  initrd_addr = read32 mem (p + 8);
  initrd_phys_addr = read32 mem (p + 8);
  initrd_len = u32 (read32 mem (p + 12) + 2 ^ 32 - read32 mem (p + 8));
}

-- The step to the next tag, whose size is rounded up to 8.
unfoldable pub next_tag : Memory → ℕ → ℕ → ℕ
next_tag mem src i =
    let s = read32 mem (src + i + 4) in
    u32 (i + (if bit_and s 7 == 0 then s else u32 (bit_and s (not32 7) + 8)))

-- The `switch` on the kind of the tag at `i`: what is stored, and `i`.
unfoldable pub tag_body :
    ℕ → ℕ → Memory → ℕ → ℕ → ℕ → BootInfo → Area → Outcome (BootInfo × (Area × ℕ))
unfolding mmap_tag framebuffer_tag elf_tag acpi_tag module_tag
tag_body start end mem src total i bi area =
    let kind = read32 mem (src + i) in
    if kind == 6
    then (mmap_tag start end mem (src + i) bi area >>= λ (bi', area'). ok (bi', (area', i)))
    else if kind == 8
    then ok (framebuffer_tag mem (src + i) bi, (area, i))
    else if kind == 9
    then ok (elf_tag mem (src + i) bi, (area, i))
    else if kind == 14 || kind == 15
    then ok (acpi_tag (src + i) bi, (area, i))
    else if kind == 3
    then ok (module_tag mem (src + i) bi, (area, i))
    else if kind == 0
    then ok (bi, (area, u32 (i + total)))
    else ok (bi, (area, i))

unfoldable pub tag_loop :
    ℕ → ℕ → ℕ → Memory → ℕ → ℕ → ℕ → BootInfo → Area → Outcome (BootInfo × Area)
unfolding tag_body next_tag
tag_loop zero start end mem src total i bi area = if ltb i total then stuck else ok (bi, area)
tag_loop (suc rounds) start end mem src total i bi area = elim (ltb i total) [
  | false ↦ ok (bi, area)
  | true ↦ tag_body start end mem src total i bi area >>= λ (bi', (area', i')).
      tag_loop rounds start end mem src total (next_tag mem src i') bi' area'
]

abbrev pub magic_value : ℕ
magic_value = 0x36d76289

-- The 32-bit `i` decides how the loop goes on, so after 2^32 rounds it goes on for ever. `start` and
-- `end` are the linker's symbols; none is returned for -1.
unfoldable pub bootinfo_parse_and_store :
    ℕ → ℕ → Memory → ℕ → ℕ → Area → Outcome (Option (BootInfo × Area))
bootinfo_parse_and_store start end mem src magic area = elim (magic == magic_value) [
  | false ↦ ok none
  | true ↦
      tag_loop (2 ^ 32) start end mem src (read32 mem src) 8 no_info area >>= λ done. ok (some done)
]
