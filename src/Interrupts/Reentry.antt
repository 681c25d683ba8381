-- ===== src/Interrupts/Reentry.antt =====
-- A handler that registers or unregisters a handler: `idt_mainhandler` holds the lock that it waits for.
use cardinal.Base.{
  ℕ, ◌≡◌, ◌≢◌, refl, ◌∙◌, false, [], get_or, u8, Outcome, ok, stuck, ◌>>=◌, ok->>=, stuck->>=,
  arith,
}
use cardinal.Interrupts.{Interrupts, acquire, interrupt_registerhandler}
use cardinal.Interrupts.Frame.{Regs}
use cardinal.Interrupts.Allocate.{held, acquire_free}
use cardinal.Interrupts.Dispatch.{Cpu, call_loop, call_waits, enter, idt_mainhandler}

-- What the handler at every address does: it registers `handler` for `irq`.
abbrev pub registering : ℕ → ℕ → ℕ → ℕ → Cpu → Outcome Cpu
registering irq handler h n c =
    interrupt_registerhandler irq handler c.ints >>= λ ints. ok (record c { ints = ints })

register_held :
    (irq handler : ℕ) (s : Interrupts) → interrupt_registerhandler irq handler (held s) ≡ stuck
unfolding interrupt_registerhandler acquire
register_held irq handler s = refl

loop_stuck :
    (invoke : ℕ → ℕ → Cpu → Outcome Cpu) (c : Cpu)
    → get_or (get_or c.ints.funcs c.frame.int_no []) 0 0 ≢ 0
    → ((h : ℕ) → invoke h c.frame.int_no c ≡ stuck)
    → call_loop invoke 16 0 false c ≡ stuck
loop_stuck invoke c there waits =
    call_waits invoke 15 0 false c (get_or (get_or c.ints.funcs c.frame.int_no []) 0 0) refl
      (ground arith) (waits _)

-- Where the handler in the first slot of a vector registers a handler, an interrupt with that
-- vector never returns: the lock is held for as long as the handlers run.
pub registering-stuck :
    (irq handler : ℕ) (regs : Regs) (c : Cpu)
    → c.ints.lock ≡ 0
    → get_or (get_or c.ints.funcs (u8 regs.int_no) []) 0 0 ≢ 0
    → idt_mainhandler (registering irq handler) regs c ≡ stuck
unfolding idt_mainhandler enter
registering-stuck irq handler regs c free_lock there =
    let start = record (enter (registering irq handler) regs c) { ints = held c.ints } in
    ok->>= _ (acquire_free c.ints free_lock)
    ∙ stuck->>= _ (
        loop_stuck (registering irq handler) start there
          (λ h. stuck->>= _ (register_held irq handler c.ints)))
