-- ===== src/Interrupts/TaskState.antt =====
-- The task state of kernel/src/interrupts/gdt.c and the stack that the processor takes from it.
use cardinal.Base.{
  ℕ, zero, suc, ◌+◌, ◌*◌, ◌/◌, ◌%◌, ◌^◌, ◌<◌, ◌≡◌, refl, ◌∙◌, ap, List, [], ◌∷◌, ◌++◌, length,
  get_or, u64, arith,
}
use cardinal.Interrupts.Entries.{read8}
use cardinal.Interrupts.Gdt.{Descriptor, no_descriptor, base_of, gdt_init, gdt_init-base, tss_size}

-- `tss_struct_t`
pub record Tss : Type 0 where
  pub rsv0 : ℕ
  pub rsp0 : ℕ
  pub rsp1 : ℕ
  pub rsp2 : ℕ
  pub rsv1 : ℕ
  pub ist1 : ℕ
  pub ist2 : ℕ
  pub ist3 : ℕ
  pub ist4 : ℕ
  pub ist5 : ℕ
  pub ist6 : ℕ
  pub ist7 : ℕ
  pub rsv2 : ℕ
  pub rsv3 : ℕ
  pub iomap : ℕ

-- A value in `k` bytes, the lowest first.
unfoldable pub bytes : ℕ → ℕ → List ℕ
bytes zero v = []
bytes (suc k) v = v % 256 ∷ bytes k (v / 256)

-- The record in memory; it is packed.
unfoldable pub tss_bytes : Tss → List ℕ
unfolding bytes
tss_bytes t =
    bytes 4 t.rsv0
    ++ bytes 8 t.rsp0
    ++ bytes 8 t.rsp1
    ++ bytes 8 t.rsp2
    ++ bytes 8 t.rsv1
    ++ bytes 8 t.ist1
    ++ bytes 8 t.ist2
    ++ bytes 8 t.ist3
    ++ bytes 8 t.ist4
    ++ bytes 8 t.ist5
    ++ bytes 8 t.ist6
    ++ bytes 8 t.ist7
    ++ bytes 8 t.rsv2
    ++ bytes 2 t.rsv3
    ++ bytes 2 t.iomap

length-tss_bytes : (t : Tss) → length (tss_bytes t) ≡ tss_size
unfolding tss_bytes
length-tss_bytes t = refl

-- `gdt_init` sets the first interrupt stack only; `stack` is what `malloc` returned for it.
unfoldable pub set_interrupt_stack : ℕ → Tss → Tss
set_interrupt_stack stack t = record t { ist1 = u64 (stack + 4096) }

unfoldable pub interrupt_setstack : ℕ → Tss → Tss
interrupt_setstack stack t = record t { rsp0 = stack }

-- The address of the task state in the table, and the stack pointer in it that an interrupt from user mode goes to.
abbrev pub task_base : List Descriptor → ℕ
task_base table =
    let high = get_or table 7 no_descriptor in
    base_of (get_or table 6 no_descriptor) + high.limit_low * 2 ^ 32 + high.base_low * 2 ^ 48

abbrev pub stack_at : List ℕ → ℕ
stack_at task = read8 task 4

rsp0-bytes : (t : Tss) → t.rsp0 < 2 ^ 64 → stack_at (tss_bytes t) ≡ t.rsp0
unfolding tss_bytes
rsp0-bytes t word = omega arith

-- For 64-bit addresses of the task state and the stack, and a memory with the task state that `interrupt_setstack` leaves at its
-- address: the processor, which finds the address in the last two entries of the table of `gdt_init`, takes
-- that stack for an interrupt from user mode.
interrupt_setstack-taken :
    (memory : ℕ → List ℕ) (tss stack : ℕ) (t : Tss)
    → tss < 2 ^ 64
    → stack < 2 ^ 64
    → memory tss ≡ tss_bytes (interrupt_setstack stack t)
    → stack_at (memory (task_base (gdt_init tss))) ≡ stack
unfolding interrupt_setstack
interrupt_setstack-taken memory tss stack t at_tss at_stack holds =
    ap (λ a. stack_at (memory a)) (gdt_init-base tss at_tss)
    ∙ ap stack_at holds
    ∙ rsp0-bytes (interrupt_setstack stack t) at_stack
