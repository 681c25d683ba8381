-- ===== src/Interrupts/Resume.antt =====
-- An interrupt of kernel/src/interrupts/idt.c with `idt_mainhandler` in its place between the stub and the return.
use mathlib.Core.Path.{subst}
use cardinal.Base.{
  ℕ, ◌^◌, ◌<◌, ◌≡◌, refl, sym, ◌∙◌, ap, ◌==◌, ltb, leb, Bool, true, false, if◌then◌else◌, not, ◌||◌,
  ◌&&◌, List, [], ◌∷◌, bit_and, bit_or, sub64, u8, Outcome, ok, panic, ok->>=, ◌>>=◌, Bool-cases,
  inl, inr, arith,
}
use cardinal.Interrupts.Allocate.{held}
use cardinal.Interrupts.Frame.{Regs}
use cardinal.Interrupts.Dispatch.{
  Cpu, from_user, enter, leave, idt_mainhandler, some_handler, act_all, row_of,
  idt_mainhandler-acted,
}
use cardinal.Interrupts.Entries.{stub, pushes}
use cardinal.Interrupts.Entry.{
  Register, rax, rbx, rcx, rdx, rbp, rsi, rdi, r8, r9, r10, r11, r12, r13, r14, r15, Resumed,
  sign_extended, interrupted, interrupt,
}
use cardinal.Interrupts.Saved.{saved}
use cardinal.Interrupts.Return.{frame, Continues}
use cardinal.Interrupts.Roundtrip.{error_word, error_words, without_stub, interrupt-Continues}

-- What `idt_mainhandler` makes of the frame on the stack.
unfoldable pub handled : (ℕ → ℕ → Cpu → Outcome Cpu) → Cpu → Regs → Outcome Regs
handled invoke c regs = idt_mainhandler invoke regs c >>= λ c'. ok c'.frame

vector_of : (i : ℕ) → i < 256 → u8 (sign_extended i) ≡ i
unfolding sign_extended
vector_of i small = elim (Bool-cases (leb 128 i)) [
  | inl high ↦ rw high (omega arith)
  | inr low ↦ rw low (omega arith)
]

saved-frame :
    (g : Register → ℕ) (sp n e rip cs rflags rsp ss : ℕ) (r : Register)
    → saved (frame g sp (g rax) n e rip cs rflags rsp ss) r ≡ g r
unfolding saved frame
saved-frame g sp n e rip cs rflags rsp ss rax = refl
saved-frame g sp n e rip cs rflags rsp ss rbx = refl
saved-frame g sp n e rip cs rflags rsp ss rcx = refl
saved-frame g sp n e rip cs rflags rsp ss rdx = refl
saved-frame g sp n e rip cs rflags rsp ss rbp = refl
saved-frame g sp n e rip cs rflags rsp ss rsi = refl
saved-frame g sp n e rip cs rflags rsp ss rdi = refl
saved-frame g sp n e rip cs rflags rsp ss r8 = refl
saved-frame g sp n e rip cs rflags rsp ss r9 = refl
saved-frame g sp n e rip cs rflags rsp ss r10 = refl
saved-frame g sp n e rip cs rflags rsp ss r11 = refl
saved-frame g sp n e rip cs rflags rsp ss r12 = refl
saved-frame g sp n e rip cs rflags rsp ss r13 = refl
saved-frame g sp n e rip cs rflags rsp ss r14 = refl
saved-frame g sp n e rip cs rflags rsp ss r15 = refl

-- A frame that is as it was at the entry.
resumed-same :
    (g : Register → ℕ) (sp n e rip cs rflags rsp ss : ℕ) (c : Resumed)
    → Continues (frame g sp (g rax) n e rip cs rflags rsp ss) c
    → c ≡ record { regs = g; rip = rip; cs = cs; rflags = rflags; rsp = rsp; ss = ss }
unfolding frame
resumed-same g sp n e rip cs rflags rsp ss c h = λ k. record {
  regs = λ r. (h.regs r ∙ saved-frame g sp n e rip cs rflags rsp ss r) k;
  rip = h.rip k;
  cs = h.cs k;
  rflags = h.rflags k;
  rsp = h.rsp k;
  ss = h.ss k;
}

not_fatal : (i : ℕ) (some : Bool) → (leb 32 i || some) ≡ true → (not some && ltb i 32) ≡ false
not_fatal i some h = ground arith

goes_on : (fatal : Bool) (m : Outcome Cpu) → fatal ≡ false → (if fatal then panic else m) ≡ m
goes_on fatal m h = rw h refl

abbrev settled : Regs → Regs
settled f = if from_user f then record f { ss = bit_or f.ss 3 } else f

settle :
    (user : Bool) (f : Regs)
    → (if user then record f { ss = bit_or f.ss 3 } else f)
      ≡ record f { ss = if user then bit_or f.ss 3 else f.ss }
settle true f = refl
settle false f = refl

module _ (invoke : ℕ → ℕ → Cpu → Outcome Cpu) (act : ℕ → ℕ → Cpu → Cpu)
    (returns : (h n : ℕ) (c : Cpu) → invoke h n c ≡ ok (act h n c))
    (spares : (h n : ℕ) (c : Cpu) → (act h n c).ints ≡ c.ints)
    (keeps : (h n : ℕ) (c : Cpu) → (act h n c).frame ≡ c.frame) where
  abbrev vectors : (h n : ℕ) (c : Cpu) → (act h n c).frame.int_no ≡ c.frame.int_no
  vectors h n c = ap (λ f. f.int_no) (keeps h n c)

  act_all-frame :
      (row : List ℕ) (n : ℕ) (c : Cpu)
      → (act_all invoke act returns spares vectors row n c).frame ≡ c.frame
  act_all-frame [] n c = refl
  act_all-frame (h ∷ row) n c = elim (Bool-cases (h == 0)) [
    | inl empty ↦ rw empty (act_all-frame row n c)
    | inr there ↦ rw there (act_all-frame row n (act h n c) ∙ keeps h n c)
  ]

  handled-frame :
      (c : Cpu) (regs : Regs)
      → c.ints.lock ≡ 0
      → (leb 32 (u8 regs.int_no)
          || some_handler (row_of invoke act returns spares vectors (u8 regs.int_no) c))
        ≡ true
      → handled invoke c regs
        ≡ ok (record regs {
          int_no = u8 regs.int_no;
          ss = if from_user regs then bit_or regs.ss 3 else regs.ss;
        })
  unfolding handled enter leave
  handled-frame c regs free_lock taken =
      ok->>= _ (
        idt_mainhandler-acted invoke act returns spares vectors regs c free_lock
        ∙ goes_on _ _ (not_fatal (u8 regs.int_no) _ taken))
      ∙ ap (λ a. ok (settled a))
          (act_all-frame (row_of invoke act returns spares vectors (u8 regs.int_no) c)
            (u8 regs.int_no) (record (enter invoke regs c) { ints = held c.ints }))
      ∙ ap ok (settle (from_user regs) (record regs { int_no = u8 regs.int_no }))

  -- An interrupt of the vector `i`, other than 17, 21, 29 and 30, with the lock of the tables free, handlers that return and change neither
  -- the tables nor the frame, a handler in the vector's row if it is an exception, and a stub that leads to a
  -- 64-bit address: whatever the calls leave in the registers, the processor goes on with the registers, the address, the
  -- flags and the stack that it was interrupted with, in user mode with the privilege of user mode in %ss.
  pub interrupt-resumed :
      (c : Cpu) (scratch g : Register → ℕ) (bottom i e target rip cs rflags rsp ss : ℕ)
      → c.ints.lock ≡ 0
      → i < 256
      → without_stub i ≡ false
      → (leb 32 i || some_handler (row_of invoke act returns spares vectors i c)) ≡ true
      → target < 2 ^ 64
      → interrupt
          (handled invoke c)
          scratch
          target
          (stub target i (pushes i))
          (interrupted g bottom (error_words i e) rip cs rflags rsp ss)
        ≡ ok (record {
          regs = g;
          rip = rip;
          cs = cs;
          rflags = rflags;
          rsp = rsp;
          ss = if not (bit_and cs 3 == 0) then bit_or ss 3 else ss;
        })
  unfolding frame
  interrupt-resumed c scratch g bottom i e target rip cs rflags rsp ss free_lock small stubbed taken
        word =
      let vector = vector_of i small in
      let f =
        frame g (sub64 bottom 176) (g rax) i (error_word i e) rip cs rflags rsp
          (if not (bit_and cs 3 == 0) then bit_or ss 3 else ss) in
      let (r, runs, h) =
        interrupt-Continues (handled invoke c) scratch g bottom i e target rip cs rflags rsp ss f
          stubbed word
          (handled-frame c
              (frame g (sub64 bottom 176) (g rax) (sign_extended i) (error_word i e) rip cs rflags
                rsp ss)
              free_lock
              (subst
                (λ n.
                  (leb 32 n || some_handler (row_of invoke act returns spares vectors n c)) ≡ true)
                (sym vector) taken)
            ∙ ap
                (λ n. ok (
                  frame g (sub64 bottom 176) (g rax) n (error_word i e) rip cs rflags rsp
                    (if not (bit_and cs 3 == 0) then bit_or ss 3 else ss)))
                vector) in
      runs ∙ ap ok (resumed-same g (sub64 bottom 176) i (error_word i e) rip cs rflags rsp _ r h)
