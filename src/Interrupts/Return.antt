-- ===== src/Interrupts/Return.antt =====
-- An interrupt from its stub to the return: what `idt_mainhandler` of kernel/src/interrupts/idt.c is given and
-- what the processor goes on with.
use cardinal.Base.{
  ℕ, ◌≡◌, refl, ◌∙◌, ◌==◌, leb, true, List, [], ◌∷◌, ◌++◌, length, drop, sub64, Outcome, ok, ok->>=,
  arith,
}
use cardinal.Interrupts.Frame.{Regs}
use cardinal.Interrupts.Entry.{
  Register, rbx, rcx, rdx, rbp, rsi, rdi, r8, r9, r10, r11, r12, r13, r14, r15, number, Processor,
  stack_pointer, assign, push_word, pop_to, Resumed, return_from, words_of, frame_of, frame_words,
  pushq, popq, mov_rsp, add_rsp, callq, iretq, Instruction, call_main, run, idt_defaulthandler,
}
use cardinal.Interrupts.Saved.{saved, restore, restored_registers, every_register, restore-all}

-- The frame for the registers at the entry of `idt_defaulthandler`, where the stub has pushed the others.
unfoldable pub frame : (Register → ℕ) → ℕ → ℕ → ℕ → ℕ → ℕ → ℕ → ℕ → ℕ → ℕ → Regs
frame g sp ax int_no err_code rip cs rflags useresp ss = record {
  rsp = sp;
  r15 = g r15;
  r14 = g r14;
  r13 = g r13;
  r12 = g r12;
  r11 = g r11;
  r10 = g r10;
  r9 = g r9;
  r8 = g r8;
  rdi = g rdi;
  rsi = g rsi;
  rbp = g rbp;
  rdx = g rdx;
  rcx = g rcx;
  rbx = g rbx;
  rax = ax;
  int_no = int_no;
  err_code = err_code;
  rip = rip;
  cs = cs;
  rflags = rflags;
  useresp = useresp;
  ss = ss;
}

-- The processor goes on with what stands in the frame.
pub record Continues (f : Regs) (c : Resumed) : Type 0 where
  pub regs : (r : Register) → c.regs r ≡ saved f r
  pub rip : c.rip ≡ f.rip
  pub cs : c.cs ≡ f.cs
  pub rflags : c.rflags ≡ f.rflags
  pub rsp : c.rsp ≡ f.useresp
  pub ss : c.ss ≡ f.ss

abbrev pushes : List Register → List Instruction → List Instruction
pushes [] code = code
pushes (r ∷ rs) code = pushq r ∷ pushes rs code

abbrev pushed : List Register → (Register → ℕ) → List ℕ → List ℕ
pushed [] g stack = stack
pushed (r ∷ rs) g stack = pushed rs g (g r ∷ stack)

abbrev pops : List Register → List Instruction → List Instruction
pops [] code = code
pops (r ∷ rs) code = popq r ∷ pops rs code

abbrev words : List Register → (Register → ℕ) → List ℕ → List ℕ
words [] h rest = rest
words (r ∷ rs) h rest = h r ∷ words rs h rest

module _ (main : Regs → Outcome Regs) (scratch : Register → ℕ) where
  call_main-run :
      (p : Processor) (f : Regs)
      → p.regs rdi ≡ stack_pointer p
      → leb frame_words (length p.stack) ≡ true
      → main (frame_of p.stack) ≡ ok f
      → call_main main scratch p
        ≡ ok (record {
          regs = scratch;
          bottom = p.bottom;
          stack = words_of f ++ drop frame_words p.stack;
        })
  unfolding call_main
  call_main-run p f points long done =
      let e : (p.regs rdi == stack_pointer p) ≡ true = ground (arith, points) in
      rw (call_main, e, long) (ok->>= _ done)

  pushes-run :
      (rs : List Register) (code : List Instruction) (g : Register → ℕ) (bottom : ℕ)
      (stack : List ℕ)
      → run main scratch (pushes rs code) (record { regs = g; bottom = bottom; stack = stack })
        ≡ run main scratch code (record { regs = g; bottom = bottom; stack = pushed rs g stack })
  unfolding run push_word
  pushes-run [] code g bottom stack = refl
  pushes-run (r ∷ rs) code g bottom stack = pushes-run rs code g bottom (g r ∷ stack)

  pops-run :
      (rs : List Register) (code : List Instruction) (g h : Register → ℕ) (bottom : ℕ)
      (rest : List ℕ)
      → run main scratch
          (pops rs code)
          (record { regs = g; bottom = bottom; stack = words rs h rest })
        ≡ run main scratch code (record { regs = restore rs h g; bottom = bottom; stack = rest })
  unfolding run pop_to
  pops-run [] code g h bottom rest = refl
  pops-run (r ∷ rs) code g h bottom rest = pops-run rs code (assign r (h r) g) h bottom rest

  restored :
      (f : Regs) (bottom : ℕ)
      → (c : Resumed) × (run main scratch
            (popq rdi ∷ pops restored_registers (add_rsp 16 ∷ iretq ∷ []))
            (record { regs = scratch; bottom = bottom; stack = words_of f ++ [] })
          ≡ ok c)
        × Continues f c
  unfolding run words_of saved pop_to return_from
  restored f bottom = (
    record {
      regs = restore restored_registers (saved f) (assign rdi f.rsp scratch);
      rip = f.rip;
      cs = f.cs;
      rflags = f.rflags;
      rsp = f.useresp;
      ss = f.ss;
    },
    pops-run restored_registers (add_rsp 16 ∷ iretq ∷ []) (assign rdi f.rsp scratch) (saved f)
        bottom (f.int_no ∷ f.err_code ∷ f.rip ∷ f.cs ∷ f.rflags ∷ f.useresp ∷ f.ss ∷ []),
    record {
      regs = λ r.
          restore-all restored_registers r (saved f) (assign rdi f.rsp scratch) (every_register r);
      rip = refl;
      cs = refl;
      rflags = refl;
      rsp = refl;
      ss = refl;
    },
  )

  -- `idt_defaulthandler`, entered with the words that the stub has pushed on those of the interrupt: `idt_mainhandler`
  -- gets a frame that holds every register as it was at the entry, the frame's own address and these words; where
  -- it returns, the processor goes on with the registers, the address, the flags and the stack that then
  -- stand in the frame, whatever is left in the registers.
  pub idt_defaulthandler-Continues :
      (g : Register → ℕ) (bottom ax int_no err_code rip cs rflags useresp ss : ℕ) (f : Regs)
      → main (frame g (sub64 bottom 176) ax int_no err_code rip cs rflags useresp ss) ≡ ok f
      → (c : Resumed) × (run main scratch idt_defaulthandler (record {
        regs = g;
        bottom = bottom;
        stack = ax ∷ int_no ∷ err_code ∷ rip ∷ cs ∷ rflags ∷ useresp ∷ ss ∷ [];
      })
          ≡ ok c)
        × Continues f c
  unfolding run idt_defaulthandler stack_pointer push_word assign number frame_of frame
  idt_defaulthandler-Continues g bottom ax int_no err_code rip cs rflags useresp ss f done =
      let (c, resumed, h) = restored f bottom in
      let g1 = assign rdi (sub64 bottom 176) g in
      (
        c,
        pushes-run
              (rbx ∷ rcx ∷ rdx ∷ rbp ∷ rsi ∷ rdi ∷ r8 ∷ r9 ∷ r10 ∷ r11 ∷ r12 ∷ r13 ∷ r14 ∷ r15 ∷ [])
              (mov_rsp rdi
                ∷ pushq rdi
                ∷ mov_rsp rdi
                ∷ callq
                ∷ popq rdi
                ∷ pops restored_registers (add_rsp 16 ∷ iretq ∷ []))
              g bottom (ax ∷ int_no ∷ err_code ∷ rip ∷ cs ∷ rflags ∷ useresp ∷ ss ∷ [])
            ∙ ok->>= _ (call_main-run _ f refl refl done)
            ∙ resumed,
        h,
      )
