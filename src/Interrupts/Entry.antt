-- ===== src/Interrupts/Entry.antt =====
-- The way into `idt_mainhandler` of kernel/src/interrupts/idt.c and back: the stub of a vector and the assembly
-- of `idt_defaulthandler`, on a processor with its registers and a stack of 64-bit words.
use cardinal.Base.{
  ℕ, zero, suc, ◌+◌, ◌-◌, ◌*◌, ◌/◌, ◌^◌, ◌==◌, leb, ◌&&◌, true, false, if◌then◌else◌, List, [], ◌∷◌,
  ◌++◌, length, get_or, take, drop, sub64, Outcome, ok, stuck, ◌>>=◌,
}
use cardinal.Interrupts.Frame.{Regs}

-- The registers that are saved; %rsp is given by the stack.
pub data Register : Type 0 where
  rax rbx rcx rdx rbp rsi rdi r8 r9 r10 r11 r12 r13 r14 r15 : Register

unfoldable pub number : Register → ℕ
number rax = 0
number rcx = 1
number rdx = 2
number rbx = 3
number rbp = 5
number rsi = 6
number rdi = 7
number r8 = 8
number r9 = 9
number r10 = 10
number r11 = 11
number r12 = 12
number r13 = 13
number r14 = 14
number r15 = 15

-- `stack` has the word at the lowest address first; it ends below the address `bottom`.
pub record Processor : Type 0 where
  pub regs : Register → ℕ
  pub bottom : ℕ
  pub stack : List ℕ

unfoldable pub stack_pointer : Processor → ℕ
stack_pointer p = sub64 p.bottom (8 * length p.stack)

unfoldable pub assign : Register → ℕ → (Register → ℕ) → Register → ℕ
unfolding number
assign r v regs r' = if number r == number r' then v else regs r'

unfoldable pub push_word : ℕ → Processor → Processor
push_word v p = record { regs = p.regs; bottom = p.bottom; stack = v ∷ p.stack }

unfoldable pub pop_to : Register → Processor → Outcome Processor
pop_to r p = elim (p.stack) [
  | [] ↦ stuck
  | v ∷ rest ↦ ok (record { regs = assign r v p.regs; bottom = p.bottom; stack = rest })
]

-- What the processor goes on with.
pub record Resumed : Type 0 where
  pub regs : Register → ℕ
  pub rip : ℕ
  pub cs : ℕ
  pub rflags : ℕ
  pub rsp : ℕ
  pub ss : ℕ

-- `iretq`
unfoldable pub return_from : Processor → Outcome Resumed
return_from p = elim (p.stack) [
  | [] ↦ stuck
  | rip ∷ s1 ↦ elim s1 [
    | [] ↦ stuck
    | cs ∷ s2 ↦ elim s2 [
      | [] ↦ stuck
      | rflags ∷ s3 ↦ elim s3 [
        | [] ↦ stuck
        | rsp ∷ s4 ↦ elim s4 [
          | [] ↦ stuck
          | ss ∷ s5 ↦
              ok (record { regs = p.regs; rip = rip; cs = cs; rflags = rflags; rsp = rsp; ss = ss })
        ]
      ]
    ]
  ]
]

-- `regs_t` as words, and the words of the stack as one.
unfoldable pub words_of : Regs → List ℕ
words_of f =
    f.rsp ∷ f.r15 ∷ f.r14 ∷ f.r13 ∷ f.r12 ∷ f.r11 ∷ f.r10 ∷ f.r9 ∷ f.r8 ∷ f.rdi ∷ f.rsi ∷ f.rbp
    ∷ f.rdx ∷ f.rcx ∷ f.rbx ∷ f.rax ∷ f.int_no ∷ f.err_code ∷ f.rip ∷ f.cs ∷ f.rflags ∷ f.useresp
    ∷ f.ss ∷ []

abbrev pub frame_words : ℕ
frame_words = 23

unfoldable pub frame_of : List ℕ → Regs
frame_of s = record {
  rsp = get_or s 0 0;
  r15 = get_or s 1 0;
  r14 = get_or s 2 0;
  r13 = get_or s 3 0;
  r12 = get_or s 4 0;
  r11 = get_or s 5 0;
  r10 = get_or s 6 0;
  r9 = get_or s 7 0;
  r8 = get_or s 8 0;
  rdi = get_or s 9 0;
  rsi = get_or s 10 0;
  rbp = get_or s 11 0;
  rdx = get_or s 12 0;
  rcx = get_or s 13 0;
  rbx = get_or s 14 0;
  rax = get_or s 15 0;
  int_no = get_or s 16 0;
  err_code = get_or s 17 0;
  rip = get_or s 18 0;
  cs = get_or s 19 0;
  rflags = get_or s 20 0;
  useresp = get_or s 21 0;
  ss = get_or s 22 0;
}

pub data Instruction : Type 0 where
  pushq popq mov_rsp : Register → Instruction
  add_rsp : ℕ → Instruction
  callq iretq : Instruction

-- `main` is what `idt_mainhandler` makes of the frame that %rdi points to, `scratch` what it leaves in the registers.
module _ (main : Regs → Outcome Regs) (scratch : Register → ℕ) where
  unfoldable pub call_main : Processor → Outcome Processor
  unfolding stack_pointer words_of frame_of
  call_main p = elim (p.regs rdi == stack_pointer p && leb frame_words (length p.stack)) [
    | false ↦ stuck
    | true ↦ main (frame_of p.stack) >>= λ f. ok (record {
      regs = scratch;
      bottom = p.bottom;
      stack = words_of f ++ drop frame_words p.stack;
    })
  ]

  unfoldable pub run : List Instruction → Processor → Outcome Resumed
  unfolding push_word pop_to return_from
  run [] p = stuck
  run (pushq r ∷ code) p = run code (push_word (p.regs r) p)
  run (popq r ∷ code) p = pop_to r p >>= λ p1. run code p1
  run (mov_rsp r ∷ code) p =
      run code
        (record { regs = assign r (stack_pointer p) p.regs; bottom = p.bottom; stack = p.stack })
  run (add_rsp n ∷ code) p =
      run code (record { regs = p.regs; bottom = p.bottom; stack = drop (n / 8) p.stack })
  run (callq ∷ code) p = call_main p >>= λ p1. run code p1
  run (iretq ∷ code) p = return_from p

unfoldable pub idt_defaulthandler : List Instruction
idt_defaulthandler =
    pushq rbx
    ∷ pushq rcx
    ∷ pushq rdx
    ∷ pushq rbp
    ∷ pushq rsi
    ∷ pushq rdi
    ∷ pushq r8
    ∷ pushq r9
    ∷ pushq r10
    ∷ pushq r11
    ∷ pushq r12
    ∷ pushq r13
    ∷ pushq r14
    ∷ pushq r15
    ∷ mov_rsp rdi
    ∷ pushq rdi
    ∷ mov_rsp rdi
    ∷ callq
    ∷ popq rdi
    ∷ popq r15
    ∷ popq r14
    ∷ popq r13
    ∷ popq r12
    ∷ popq r11
    ∷ popq r10
    ∷ popq r9
    ∷ popq r8
    ∷ popq rdi
    ∷ popq rsi
    ∷ popq rbp
    ∷ popq rdx
    ∷ popq rcx
    ∷ popq rbx
    ∷ popq rax
    ∷ add_rsp 16
    ∷ iretq
    ∷ []

-- `push` of a byte, of which the sign is extended.
unfoldable pub sign_extended : ℕ → ℕ
sign_extended b = if leb 128 b then 2 ^ 64 - 256 + b else b

-- A value of bytes, the lowest first.
unfoldable pub value_of : List ℕ → ℕ
value_of [] = 0
value_of (b ∷ bytes) = b + 256 * value_of bytes

-- The bytes of a stub: push of a byte, push of %rax, move of 8 bytes to %rax, and return, which goes to the
-- address on the stack.
unfoldable pub run_stub : ℕ → List ℕ → Processor → Outcome (ℕ × Processor)
unfolding push_word assign sign_extended value_of
run_stub zero code p = stuck
run_stub (suc fuel) code p =
    let op = get_or code 0 0 in
    elim (op == 0x6a) [
      | true ↦ run_stub fuel (drop 2 code) (push_word (sign_extended (get_or code 1 0)) p)
      | false ↦ elim (op == 0x50) [
        | true ↦ run_stub fuel (drop 1 code) (push_word (p.regs rax) p)
        | false ↦ elim (op == 0x48 && get_or code 1 0 == 0xb8) [
          | true ↦
              run_stub fuel (drop 10 code)
                (record p { regs = assign rax (value_of (take 8 (drop 2 code))) p.regs })
          | false ↦ elim (op == 0xc3) [
            | false ↦ stuck
            | true ↦ elim (p.stack) [ [] ↦ stuck | to ∷ rest ↦ ok (to, record p { stack = rest }) ]
          ]
        ]
      ]
    ]

-- What the processor pushes for an interrupt, with its error code for the vectors that have one.
unfoldable pub interrupted : (Register → ℕ) → ℕ → List ℕ → ℕ → ℕ → ℕ → ℕ → ℕ → Processor
interrupted regs bottom errors rip cs rflags rsp ss = record {
  regs = regs;
  bottom = bottom;
  stack = errors ++ rip ∷ cs ∷ rflags ∷ rsp ∷ ss ∷ [];
}

module _ (main : Regs → Outcome Regs) (scratch : Register → ℕ) where
  -- From the stub on, with `idt_defaulthandler` at the address `target`.
  unfoldable pub interrupt : ℕ → List ℕ → Processor → Outcome Resumed
  unfolding run_stub run idt_defaulthandler
  interrupt target code p = run_stub 8 code p >>= λ (to, p1).
      if to == target then run main scratch idt_defaulthandler p1 else stuck
