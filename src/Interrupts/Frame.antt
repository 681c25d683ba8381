-- ===== src/Interrupts/Frame.antt =====
-- The saved registers of an interrupt: `regs_t` of kernel/src/interrupts/idt.c, the register state
-- of kernel/inc/interrupts/interrupts.h, and the copies between them.
use cardinal.Base.{ℕ, ◌≡◌, refl}

pub record Regs : Type 0 where
  pub rsp : ℕ
  pub r15 : ℕ
  pub r14 : ℕ
  pub r13 : ℕ
  pub r12 : ℕ
  pub r11 : ℕ
  pub r10 : ℕ
  pub r9 : ℕ
  pub r8 : ℕ
  pub rdi : ℕ
  pub rsi : ℕ
  pub rbp : ℕ
  pub rdx : ℕ
  pub rcx : ℕ
  pub rbx : ℕ
  pub rax : ℕ
  pub int_no : ℕ
  pub err_code : ℕ
  pub rip : ℕ
  pub cs : ℕ
  pub rflags : ℕ
  pub useresp : ℕ
  pub ss : ℕ

pub record RegisterState : Type 0 where
  pub r15 : ℕ
  pub r14 : ℕ
  pub r13 : ℕ
  pub r12 : ℕ
  pub r11 : ℕ
  pub r10 : ℕ
  pub r9 : ℕ
  pub r8 : ℕ
  pub rdi : ℕ
  pub rsi : ℕ
  pub rdx : ℕ
  pub rcx : ℕ
  pub rbx : ℕ
  pub rax : ℕ
  pub rflags : ℕ
  pub rip : ℕ
  pub cs : ℕ
  pub ss : ℕ
  pub rbp : ℕ
  pub rsp : ℕ

-- `interrupt_setregisterstate` on the frame that `reg_ref` points to.
unfoldable pub set_register_state : RegisterState → Regs → Regs
set_register_state state regs = record regs {
  r15 = state.r15;
  r14 = state.r14;
  r13 = state.r13;
  r12 = state.r12;
  r11 = state.r11;
  r10 = state.r10;
  r9 = state.r9;
  r8 = state.r8;
  rdi = state.rdi;
  rsi = state.rsi;
  rdx = state.rdx;
  rcx = state.rcx;
  rbx = state.rbx;
  rax = state.rax;
  rflags = state.rflags;
  rip = state.rip;
  cs = state.cs;
  ss = state.ss;
  rbp = state.rbp;
  useresp = state.rsp;
}

-- `interrupt_getregisterstate` from that frame.
unfoldable pub get_register_state : Regs → RegisterState
get_register_state regs = record {
  r15 = regs.r15;
  r14 = regs.r14;
  r13 = regs.r13;
  r12 = regs.r12;
  r11 = regs.r11;
  r10 = regs.r10;
  r9 = regs.r9;
  r8 = regs.r8;
  rdi = regs.rdi;
  rsi = regs.rsi;
  rdx = regs.rdx;
  rcx = regs.rcx;
  rbx = regs.rbx;
  rax = regs.rax;
  rflags = regs.rflags;
  rip = regs.rip;
  cs = regs.cs;
  ss = regs.ss;
  rbp = regs.rbp;
  rsp = regs.useresp;
}

-- What is set is what is read back, and setting what was read changes nothing.
get-set_register_state :
    (state : RegisterState) (regs : Regs)
    → (get_register_state (set_register_state state regs) ≡ state)
      × (set_register_state (get_register_state regs) regs ≡ regs)
unfolding set_register_state get_register_state
get-set_register_state state regs = (refl, refl)
