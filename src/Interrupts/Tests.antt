-- ===== src/Interrupts/Tests.antt =====
-- The theorems about interrupts at concrete states.
use cardinal.Base.{
  ℕ, ◌+◌, ◌*◌, ◌≤◌, ◌≡◌, refl, ◌⊎◌, true, false, [], ◌∷◌, ◌++◌, replicate, get_or, ok, stuck, sub64,
  arith,
}
use cardinal.Interrupts.{
  Interrupts, interrupt_allocate, interrupt_registerhandler, interrupt_unregisterhandler, exclusive,
}
use cardinal.Interrupts.Runs.{IsFree}
use cardinal.Interrupts.Allocate.{Given, interrupt_allocate-Given, held}
use cardinal.Interrupts.Handlers.{count, register-unregister}
use cardinal.Interrupts.Frame.{Regs, RegisterState, set_register_state, get_register_state}
use cardinal.Interrupts.Dispatch.{Cpu, enter, leave, idt_mainhandler, idt_mainhandler-acted}
use cardinal.Interrupts.Entries.{
  stub, pushes, Tables, idt_init, entry_target, idt_entry, idt_init-target,
}
use cardinal.Interrupts.Entry.{number, rax, sign_extended, interrupted, interrupt}
use cardinal.Interrupts.Return.{frame as frame_at}
use cardinal.Interrupts.Roundtrip.{error_word, error_words}
use cardinal.Interrupts.Switch.{task, interrupt-task}
use cardinal.Interrupts.Resume.{handled, interrupt-resumed}
use cardinal.Interrupts.Reentry.{registering, registering-stuck}

abbrev fresh : Interrupts
fresh = record {
  funcs = replicate 256 (replicate 16 0);
  blocked = replicate 256 false;
  lock = 0;
  enabled = true;
}

interrupt_allocate-Given_example :
    ((b : ℕ) × (s' : Interrupts) × (interrupt_allocate 8 exclusive 0 fresh ≡ ok (true, (b, s')))
      × (32 ≤ b)
      × (b + 8 ≤ 255)
      × Given 8 exclusive b fresh s')
    ⊎ ((interrupt_allocate 8 exclusive 0 fresh ≡ ok (false, (0, fresh)))
        × ((b : ℕ) → 32 ≤ b → b + 8 ≤ 255 → ¬ IsFree (replicate 256 false) b 8))
interrupt_allocate-Given_example = interrupt_allocate-Given 8 exclusive fresh refl refl refl

register-unregister_example :
    (s' : Interrupts) × (interrupt_registerhandler 33 7 fresh ≡ ok s')
    × (count 7 (get_or s'.funcs 33 []) ≡ 1)
    × (s'.lock ≡ 0)
    × (interrupt_unregisterhandler 33 7 s' ≡ ok fresh)
register-unregister_example =
    register-unregister 33 7 fresh refl (omega arith) (omega arith) refl (omega arith)

abbrev frame : Regs
frame = record {
  rsp = 0;
  r15 = 0;
  r14 = 0;
  r13 = 0;
  r12 = 0;
  r11 = 0;
  r10 = 0;
  r9 = 0;
  r8 = 0;
  rdi = 0;
  rsi = 0;
  rbp = 0;
  rdx = 0;
  rcx = 0;
  rbx = 0;
  rax = 0;
  int_no = 65569;
  err_code = 0;
  rip = 0;
  cs = 35;
  rflags = 0;
  useresp = 0;
  ss = 0;
}

abbrev saved : RegisterState
saved = record {
  r15 = 1;
  r14 = 2;
  r13 = 3;
  r12 = 4;
  r11 = 5;
  r10 = 6;
  r9 = 7;
  r8 = 8;
  rdi = 9;
  rsi = 10;
  rdx = 11;
  rcx = 12;
  rbx = 13;
  rax = 14;
  rflags = 15;
  rip = 16;
  cs = 17;
  ss = 18;
  rbp = 19;
  rsp = 20;
}

-- Vector 33 with the handler 7 in its second slot.
abbrev core : Cpu
core = record {
  ints = record fresh {
    funcs =
        replicate 33 (replicate 16 0) ++ (0 ∷ 7 ∷ replicate 14 0) ∷ replicate 222 (replicate 16 0);
  };
  reg_state = frame;
  frame = frame;
  has_ref = false;
  user_gs = true;
  eois = [];
}

-- Every handler switches to another instruction.
abbrev moves : ℕ → ℕ → Cpu → Cpu
moves h n c = record c { frame = record (c.frame) { rip = h } }

idt_mainhandler-acted_example :
    idt_mainhandler (λ h n c. ok (moves h n c)) frame core
    ≡ ok (
        leave
          (λ h n c. ok (moves h n c))
          (record (moves 7 33
            (record (enter (λ h n c. ok (moves h n c)) frame core) { ints = held core.ints })) {
              ints = core.ints;
            }))
idt_mainhandler-acted_example =
    idt_mainhandler-acted (λ h n c. ok (moves h n c)) moves (λ h n c. refl) (λ h n c. refl)
      (λ h n c. refl) frame core refl

registering-stuck_example :
    idt_mainhandler
      (registering 34 9)
      frame
      (record core { ints = record fresh { funcs = replicate 256 (5 ∷ replicate 15 0) } })
    ≡ stuck
registering-stuck_example =
    registering-stuck 34 9 frame
      (record core { ints = record fresh { funcs = replicate 256 (5 ∷ replicate 15 0) } }) refl
      (omega arith)

abbrev tables : Tables
tables = record { ints = fresh; handlers = replicate 256 (replicate 64 0); inited = false }

idt_init-target_example :
    entry_target (get_or (idt_init 0x100000 0x200000 tables).0 33 (idt_entry 0))
    ≡ 0x200000 + 33 * 64
idt_init-target_example =
    idt_init-target 0x100000 0x200000 33 tables (idt_entry 0) (omega arith) (omega arith)

-- Every handler sends one more end of interrupt.
abbrev tells : ℕ → ℕ → Cpu → Cpu
tells h n c = record c { eois = n ∷ c.eois }

-- In user mode, at vector 33.
interrupt-resumed_example :
    interrupt
      (handled (λ h n c. ok (tells h n c)) core)
      (λ r. 0)
      0xffffffff80001000
      (stub 0xffffffff80001000 33 (pushes 33))
      (interrupted number 0x8000 (error_words 33 0) 100 35 2 200 32)
    ≡ ok (record { regs = number; rip = 100; cs = 35; rflags = 2; rsp = 200; ss = 35 })
interrupt-resumed_example =
    interrupt-resumed (λ h n c. ok (tells h n c)) tells (λ h n c. refl) (λ h n c. refl)
      (λ h n c. refl) core (λ r. 0) number 0x8000 33 0 0xffffffff80001000 100 35 2 200 32 refl
      (omega arith) refl refl (omega arith)

-- A page fault with the error code 6, in which the kernel goes over to the task of `saved`.
interrupt-task_example :
    (interrupt
        (λ f. ok (set_register_state saved f))
        (λ r. 0)
        0xffffffff80001000
        (stub 0xffffffff80001000 14 (pushes 14))
        (interrupted number 0x8000 (error_words 14 6) 100 8 2 200 16)
      ≡ ok (task saved))
    × (task (
          get_register_state (
            frame_at number
              (sub64 0x8000 176)
              (number rax)
              (sign_extended 14)
              (error_word 14 6)
              100
              8
              2
              200
              16))
        ≡ record { regs = number; rip = 100; cs = 8; rflags = 2; rsp = 200; ss = 16 })
interrupt-task_example =
    interrupt-task (λ f. ok (set_register_state saved f)) (λ r. 0) number 0x8000 14 6
      0xffffffff80001000 100 8 2 200 16 saved
      (frame_at number (sub64 0x8000 176) (number rax) (sign_extended 14) (error_word 14 6) 100 8 2
        200 16)
      refl (omega arith) refl
