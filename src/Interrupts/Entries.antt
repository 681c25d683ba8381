-- ===== src/Interrupts/Entries.antt =====
-- The code that `idt_init` writes for each vector, and the descriptors that point to it.
-- Addresses are 64-bit; the table `idt_handlers` has 64 bytes for each vector.
use cardinal.Base.{
  ℕ, zero, suc, ◌+◌, ◌*◌, ◌^◌, ◌≤◌, ◌<◌, ◌≡◌, refl, ◌∙◌, ap, ◌==◌, leb, Bool, true, false, ◌&&◌,
  ◌||◌, if◌then◌else◌, List, [], ◌∷◌, ◌++◌, get_or, set, length, replicate, bit_and, ◌>>◌, u64,
  arith, Bool-cases, inl, inr,
}
use cardinal.Base.Bits.{and_mask}
use cardinal.Interrupts.{Interrupts, idt_entry_count, idt_handler_cnt}

-- The bytes that `idt_fillswinterrupthandler` writes; `target` is the address of `idt_defaulthandler`.
unfoldable pub stub : ℕ → ℕ → ℕ → List ℕ
stub target int_num push_to_stack =
    (if push_to_stack == 0 then [] else 0x6a ∷ push_to_stack ∷ [])
    ++ 0x6a
      ∷ int_num
      ∷ 0x50
      ∷ 0x48
      ∷ 0xb8
      ∷ bit_and target 0xff
      ∷ bit_and (target >> 8) 0xff
      ∷ bit_and (target >> 16) 0xff
      ∷ bit_and (target >> 24) 0xff
      ∷ bit_and (target >> 32) 0xff
      ∷ bit_and (target >> 40) 0xff
      ∷ bit_and (target >> 48) 0xff
      ∷ bit_and (target >> 56) 0xff
      ∷ 0x50
      ∷ 0xc3
      ∷ []

-- Bytes written one after the other.
unfoldable pub put : List ℕ → ℕ → List ℕ → List ℕ
put buf index [] = buf
put buf index (b ∷ bytes) = put (set buf index b) (index + 1) bytes

unfoldable pub fill_handler : ℕ → List ℕ → ℕ → ℕ → List ℕ
fill_handler target idt_handler int_num push_to_stack =
    put idt_handler 0 (stub target int_num push_to_stack)

-- The exceptions for which the processor pushes an error code get no dummy.
unfoldable pub pushes : ℕ → ℕ
pushes i = if i == 8 || (leb 10 i && leb i 14) then 0 else 1

-- `idt_t`, one field of the record for each field of bits.
pub record IdtEntry : Type 0 where
  pub offset0 : ℕ
  pub seg_select : ℕ
  pub ist : ℕ
  pub zr0 : ℕ
  pub gate_type : ℕ
  pub zr1 : ℕ
  pub dpl : ℕ
  pub p : ℕ
  pub offset1 : ℕ
  pub offset2 : ℕ
  pub zr2 : ℕ

unfoldable pub idt_entry : ℕ → IdtEntry
idt_entry handler = record {
  offset0 = bit_and handler 0xffff;
  seg_select = 8;
  ist = 0;
  zr0 = 0;
  gate_type = 14;
  zr1 = 0;
  dpl = 0;
  p = 1;
  offset1 = bit_and (handler >> 16) 0xffff;
  offset2 = bit_and (handler >> 32) 0xffffffff;
  zr2 = 0;
}

-- The stubs from the vector `i` on.
unfoldable pub fill_handlers : ℕ → ℕ → ℕ → List (List ℕ) → List (List ℕ)
fill_handlers zero target i handlers = handlers
fill_handlers (suc left) target i handlers =
    fill_handlers left target (i + 1)
      (set handlers i (fill_handler target (get_or handlers i []) i (pushes i)))

unfoldable pub fill_entries : ℕ → ℕ → ℕ → List IdtEntry
fill_entries zero base i = []
fill_entries (suc left) base i = idt_entry (u64 (base + i * 64)) ∷ fill_entries left base (i + 1)

-- The tables of the file, and whether they are set up (`int_arr_inited`).
pub record Tables : Type 0 where
  pub ints : Interrupts
  pub handlers : List (List ℕ)
  pub inited : Bool

-- `idt_init`: the descriptors of this processor; the shared tables are set up on the first call only.
-- `base` is the address of `idt_handlers`. The allocations are left out.
unfoldable pub idt_init : ℕ → ℕ → Tables → List IdtEntry × Tables
idt_init target base t = (
  fill_entries idt_entry_count base 0,
  if t.inited then t else record {
    ints = record (t.ints) {
      funcs = replicate idt_entry_count (replicate idt_handler_cnt 0);
      blocked = replicate idt_entry_count false;
    };
    handlers = fill_handlers idt_entry_count target 0 t.handlers;
    inited = true;
  },
)

-- The address that the processor reads from a descriptor.
abbrev pub entry_target : IdtEntry → ℕ
entry_target e = e.offset0 + e.offset1 * 2 ^ 16 + e.offset2 * 2 ^ 32

abbrev pub read8 : List ℕ → ℕ → ℕ
read8 bytes i =
    get_or bytes i 0
    + get_or bytes (i + 1) 0 * 2 ^ 8
    + get_or bytes (i + 2) 0 * 2 ^ 16
    + get_or bytes (i + 3) 0 * 2 ^ 24
    + get_or bytes (i + 4) 0 * 2 ^ 32
    + get_or bytes (i + 5) 0 * 2 ^ 40
    + get_or bytes (i + 6) 0 * 2 ^ 48
    + get_or bytes (i + 7) 0 * 2 ^ 56

bytes_of :
    (n : ℕ)
    → n < 2 ^ 64
    → bit_and n 0xff
        + bit_and (n >> 8) 0xff * 2 ^ 8
        + bit_and (n >> 16) 0xff * 2 ^ 16
        + bit_and (n >> 24) 0xff * 2 ^ 24
        + bit_and (n >> 32) 0xff * 2 ^ 32
        + bit_and (n >> 40) 0xff * 2 ^ 40
        + bit_and (n >> 48) 0xff * 2 ^ 48
        + bit_and (n >> 56) 0xff * 2 ^ 56
      ≡ n
bytes_of n h = omega (
  arith,
  and_mask 8 n,
  and_mask 8 (n >> 8),
  and_mask 8 (n >> 16),
  and_mask 8 (n >> 24),
  and_mask 8 (n >> 32),
  and_mask 8 (n >> 40),
  and_mask 8 (n >> 48),
  and_mask 8 (n >> 56),
)

-- For a 64-bit target, a stub fits its 64 bytes, carries its vector behind the dummy error code
-- and then the target.
stub-target :
    (target i : ℕ)
    → target < 2 ^ 64
    → (length (stub target i (pushes i)) ≤ 64)
      × (get_or (stub target i (pushes i)) (2 * pushes i + 1) 0 ≡ i)
      × (read8 (stub target i (pushes i)) (2 * pushes i + 5) ≡ target)
unfolding stub pushes
stub-target target i h = elim (Bool-cases (i == 8 || (leb 10 i && leb i 14))) [
  | inl none_pushed ↦ rw none_pushed (omega arith, refl, bytes_of target h)
  | inr one_pushed ↦ rw one_pushed (omega arith, refl, bytes_of target h)
]

get_or-fill_entries :
    (left base i k : ℕ) (d : IdtEntry)
    → k < left
    → get_or (fill_entries left base i) k d ≡ idt_entry (u64 (base + (i + k) * 64))
unfolding fill_entries
get_or-fill_entries zero base i k d lt = absurd (omega arith)
get_or-fill_entries (suc left) base i zero d lt =
    ap (λ (t : ℕ). idt_entry (u64 (base + t * 64))) (omega arith)
get_or-fill_entries (suc left) base i (suc k) d lt =
    get_or-fill_entries left base (i + 1) k d (omega arith)
    ∙ ap (λ (t : ℕ). idt_entry (u64 (base + t * 64))) (omega arith)

idt_entry-target : (a : ℕ) → a < 2 ^ 64 → entry_target (idt_entry a) ≡ a
unfolding idt_entry
idt_entry-target a h = omega (arith, and_mask 16 a, and_mask 16 (a >> 16), and_mask 32 (a >> 32))

-- With the stubs inside the address space, `idt_init` makes the descriptor of each vector point
-- to the vector's stub.
pub idt_init-target :
    (target base k : ℕ) (t : Tables) (d : IdtEntry)
    → base + 2 ^ 14 ≤ 2 ^ 64
    → k < 256
    → entry_target (get_or (idt_init target base t).0 k d) ≡ base + k * 64
unfolding idt_init
idt_init-target target base k t d fits lt =
    ap entry_target (get_or-fill_entries 256 base 0 k d lt)
    ∙ idt_entry-target (u64 (base + (0 + k) * 64)) (omega arith)
    ∙ omega arith
