-- ===== src/Interrupts/Switch.antt =====
-- A switch to another task in an interrupt of kernel/src/interrupts/idt.c, by `interrupt_getregisterstate` and
-- `interrupt_setregisterstate`.
use cardinal.Base.{ℕ, ◌^◌, ◌<◌, ◌≡◌, refl, ◌∙◌, ap, sub64, false, Outcome, ok}
use cardinal.Interrupts.Frame.{Regs, RegisterState, set_register_state, get_register_state}
use cardinal.Interrupts.Entries.{stub, pushes}
use cardinal.Interrupts.Entry.{
  Register, rax, rbx, rcx, rdx, rbp, rsi, rdi, r8, r9, r10, r11, r12, r13, r14, r15, Resumed,
  sign_extended, interrupted, interrupt,
}
use cardinal.Interrupts.Saved.{saved}
use cardinal.Interrupts.Return.{frame, Continues}
use cardinal.Interrupts.Roundtrip.{error_word, error_words, without_stub, interrupt-Continues}

-- The registers of a task that is not running.
unfoldable pub register : RegisterState → Register → ℕ
register s rax = s.rax
register s rbx = s.rbx
register s rcx = s.rcx
register s rdx = s.rdx
register s rbp = s.rbp
register s rsi = s.rsi
register s rdi = s.rdi
register s r8 = s.r8
register s r9 = s.r9
register s r10 = s.r10
register s r11 = s.r11
register s r12 = s.r12
register s r13 = s.r13
register s r14 = s.r14
register s r15 = s.r15

unfoldable pub task : RegisterState → Resumed
task s = record {
  regs = register s;
  rip = s.rip;
  cs = s.cs;
  rflags = s.rflags;
  rsp = s.rsp;
  ss = s.ss;
}

saved-set :
    (s : RegisterState) (f : Regs) (r : Register) → saved (set_register_state s f) r ≡ register s r
unfolding saved set_register_state register
saved-set s f rax = refl
saved-set s f rbx = refl
saved-set s f rcx = refl
saved-set s f rdx = refl
saved-set s f rbp = refl
saved-set s f rsi = refl
saved-set s f rdi = refl
saved-set s f r8 = refl
saved-set s f r9 = refl
saved-set s f r10 = refl
saved-set s f r11 = refl
saved-set s f r12 = refl
saved-set s f r13 = refl
saved-set s f r14 = refl
saved-set s f r15 = refl

Continues-set :
    (s : RegisterState) (f : Regs) (c : Resumed) → Continues (set_register_state s f) c → c ≡ task s
unfolding set_register_state task
Continues-set s f c h = λ k. record {
  regs = λ r. (h.regs r ∙ saved-set s f r) k;
  rip = h.rip k;
  cs = h.cs k;
  rflags = h.rflags k;
  rsp = h.rsp k;
  ss = h.ss k;
}

register-get :
    (g : Register → ℕ) (sp n e rip cs rflags rsp ss : ℕ) (r : Register)
    → register (get_register_state (frame g sp (g rax) n e rip cs rflags rsp ss)) r ≡ g r
unfolding register get_register_state frame
register-get g sp n e rip cs rflags rsp ss rax = refl
register-get g sp n e rip cs rflags rsp ss rbx = refl
register-get g sp n e rip cs rflags rsp ss rcx = refl
register-get g sp n e rip cs rflags rsp ss rdx = refl
register-get g sp n e rip cs rflags rsp ss rbp = refl
register-get g sp n e rip cs rflags rsp ss rsi = refl
register-get g sp n e rip cs rflags rsp ss rdi = refl
register-get g sp n e rip cs rflags rsp ss r8 = refl
register-get g sp n e rip cs rflags rsp ss r9 = refl
register-get g sp n e rip cs rflags rsp ss r10 = refl
register-get g sp n e rip cs rflags rsp ss r11 = refl
register-get g sp n e rip cs rflags rsp ss r12 = refl
register-get g sp n e rip cs rflags rsp ss r13 = refl
register-get g sp n e rip cs rflags rsp ss r14 = refl
register-get g sp n e rip cs rflags rsp ss r15 = refl

-- The state that is taken from the frame of an interrupted task is that task.
task-get :
    (g : Register → ℕ) (sp n e rip cs rflags rsp ss : ℕ)
    → task (get_register_state (frame g sp (g rax) n e rip cs rflags rsp ss))
      ≡ record { regs = g; rip = rip; cs = cs; rflags = rflags; rsp = rsp; ss = ss }
unfolding task get_register_state frame
task-get g sp n e rip cs rflags rsp ss = λ k. record {
  regs = λ r. register-get g sp n e rip cs rflags rsp ss r k;
  rip = rip;
  cs = cs;
  rflags = rflags;
  rsp = rsp;
  ss = ss;
}

module _ (main : Regs → Outcome Regs) (scratch : Register → ℕ) where
  -- An interrupt of the vector `i`, other than 17, 21, 29 and 30, whose stub leads to a 64-bit address, and in which `idt_mainhandler` leaves the
  -- state `s` in the frame: the processor goes on with the task of `s`, whichever task was interrupted. The state
  -- of the frame of any interrupted task is that task, with all its registers.
  pub interrupt-task :
      (g : Register → ℕ) (bottom i e target rip cs rflags rsp ss : ℕ) (s : RegisterState) (f : Regs)
      → without_stub i ≡ false
      → target < 2 ^ 64
      → main (
          frame g
            (sub64 bottom 176)
            (g rax)
            (sign_extended i)
            (error_word i e)
            rip
            cs
            rflags
            rsp
            ss)
        ≡ ok (set_register_state s f)
      → (interrupt main scratch target
            (stub target i (pushes i))
            (interrupted g bottom (error_words i e) rip cs rflags rsp ss)
          ≡ ok (task s))
        × (task (
              get_register_state (
                frame g
                  (sub64 bottom 176)
                  (g rax)
                  (sign_extended i)
                  (error_word i e)
                  rip
                  cs
                  rflags
                  rsp
                  ss))
            ≡ record { regs = g; rip = rip; cs = cs; rflags = rflags; rsp = rsp; ss = ss })
  interrupt-task g bottom i e target rip cs rflags rsp ss s f stubbed word done =
      let (c, runs, h) =
        interrupt-Continues main scratch g bottom i e target rip cs rflags rsp ss
          (set_register_state s f) stubbed word done in
      (runs ∙ ap ok (Continues-set s f c h), task-get g _ _ _ rip cs rflags rsp ss)
