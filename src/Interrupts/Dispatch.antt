-- ===== src/Interrupts/Dispatch.antt =====
-- `idt_mainhandler` of kernel/src/interrupts/idt.c. What the handlers do is a parameter: `invoke`
-- runs the one at an address for a vector. The frame on the stack is `frame` while it is reachable.
use cardinal.Base.{
  ℕ, zero, suc, ◌+◌, ◌≡◌, refl, ◌∙◌, ap, ◌==◌, leb, ltb, Bool, true, false, not, ◌||◌, ◌&&◌,
  if◌then◌else◌, List, [], ◌∷◌, get_or, u8, bit_and, bit_or, Outcome, ok, panic, stuck, ◌>>=◌,
  arith, Bool-cases, inl, inr, ok->>=, stuck->>=,
}
use cardinal.Interrupts.{Interrupts, acquire, release, idt_handler_cnt}
use cardinal.Interrupts.Frame.{Regs}
use cardinal.Interrupts.Allocate.{held, acquire_free, refused}

-- `tls_idt_t` and the state it works on: `frame` is the target of `reg_ref`, `has_ref` whether it is
-- set; `user_gs` is what `swapgs` flips, `eois` the arguments of the calls of `interrupt_sendeoi`,
-- last first.
pub record Cpu : Type 0 where
  pub ints : Interrupts
  pub reg_state : Regs
  pub frame : Regs
  pub has_ref : Bool
  pub user_gs : Bool
  pub eois : List ℕ

abbrev pub from_user : Regs → Bool
from_user regs = not (bit_and regs.cs 3 == 0)

module _ (invoke : ℕ → ℕ → Cpu → Outcome Cpu) where
  -- The loop over the row of the vector, at the slot `i` with `left` slots to go.
  unfoldable pub call_loop : ℕ → ℕ → Bool → Cpu → Outcome (Bool × Cpu)
  call_loop zero i handled c = ok (handled, c)
  call_loop (suc left) i handled c =
      let handler = get_or (get_or c.ints.funcs c.frame.int_no []) i 0 in
      elim (handler == 0) [
        | true ↦ call_loop left (i + 1) handled c
        | false ↦ invoke handler c.frame.int_no c >>= λ c'. call_loop left (i + 1) true c'
      ]

  -- Up to the loop: the frame is kept and made reachable.
  unfoldable pub enter : Regs → Cpu → Cpu
  enter regs c =
      let frame = record regs { int_no = u8 regs.int_no } in
      record c {
        user_gs = if from_user regs then not c.user_gs else c.user_gs;
        reg_state = frame;
        frame = frame;
        has_ref = true;
      }

  -- After it: the end of interrupt, and the way back to user mode.
  unfoldable pub leave : Cpu → Cpu
  leave c = record c {
    has_ref = false;
    eois = if leb 32 c.frame.int_no then c.frame.int_no ∷ c.eois else c.eois;
    frame = if from_user c.frame then record (c.frame) { ss = bit_or c.frame.ss 3 } else c.frame;
    user_gs = if from_user c.frame then not c.user_gs else c.user_gs;
  }

  -- An exception that no handler took is fatal.
  unfoldable pub finish : Bool → Cpu → Outcome Cpu
  finish handled c = if not handled && ltb c.frame.int_no 32 then panic else ok (leave c)

  unfoldable pub idt_mainhandler : Regs → Cpu → Outcome Cpu
  unfolding call_loop
  idt_mainhandler regs c = acquire (enter regs c).ints >>= λ (state, held_ints).
      call_loop idt_handler_cnt 0 false (record (enter regs c) { ints = held_ints })
      >>= λ (handled, c1). finish handled (record c1 { ints = release state c1.ints })

module _ (invoke : ℕ → ℕ → Cpu → Outcome Cpu) (left i : ℕ) (handled : Bool) (c : Cpu) (h : ℕ)
    (slot : get_or (get_or c.ints.funcs c.frame.int_no []) i 0 ≡ h) where
  call_empty :
      (h == 0) ≡ true
      → call_loop invoke (suc left) i handled c ≡ call_loop invoke left (i + 1) handled c
  unfolding call_loop
  call_empty e = rw (call_loop, slot, e) refl

  call_there :
      (c' : Cpu)
      → (h == 0) ≡ false
      → invoke h c.frame.int_no c ≡ ok c'
      → call_loop invoke (suc left) i handled c ≡ call_loop invoke left (i + 1) true c'
  unfolding call_loop
  call_there c' e run =
      rw (call_loop, slot, e)
        (ap (λ m. m >>= λ c''. call_loop invoke left (i + 1) true c'')
          (ap (λ x. invoke x c.frame.int_no c) slot ∙ run))

  -- A handler that waits for good keeps the loop waiting.
  pub call_waits :
      (h == 0) ≡ false
      → invoke h c.frame.int_no c ≡ stuck
      → call_loop invoke (suc left) i handled c ≡ stuck
  unfolding call_loop
  call_waits e run =
      rw (call_loop, slot, e) (stuck->>= _ (ap (λ x. invoke x c.frame.int_no c) slot ∙ run))

call_done :
    (invoke : ℕ → ℕ → Cpu → Outcome Cpu) (i : ℕ) (handled : Bool) (c : Cpu)
    → call_loop invoke 0 i handled c ≡ ok (handled, c)
unfolding call_loop
call_done invoke i handled c = refl

or_false : (b : Bool) → b ≡ b || false
or_false b = ground arith

true_or : (b b' : Bool) → true || b' ≡ b || (true || b')
true_or b b' = ground arith

-- The slots of a row that the loop visits.
abbrev pub slots : List ℕ → ℕ → ℕ → List ℕ
slots row i zero = []
slots row i (suc left) = get_or row i 0 ∷ slots row (i + 1) left

abbrev pub some_handler : List ℕ → Bool
some_handler [] = false
some_handler (h ∷ row) = not (h == 0) || some_handler row

finished :
    (invoke : ℕ → ℕ → Cpu → Outcome Cpu) (handled : Bool) (a : Cpu) (n : ℕ) (s : Interrupts)
    → s.lock ≡ 0
    → a.ints ≡ held s
    → a.frame.int_no ≡ n
    → finish invoke handled (record a { ints = release s.enabled a.ints })
      ≡ (if not handled && ltb n 32 then panic else ok (leave invoke (record a { ints = s })))
unfolding finish
finished invoke handled a n s free_lock ei en =
    ap (λ t. finish invoke handled (record a { ints = t }))
      (ap (release s.enabled) ei ∙ refused s free_lock)
    ∙ ap (λ m. if not handled && ltb m 32 then panic else ok (leave invoke (record a { ints = s })))
        en

-- Handlers that return and leave the tables alone, as functions on the rest of the state.
module _ (invoke : ℕ → ℕ → Cpu → Outcome Cpu) (act : ℕ → ℕ → Cpu → Cpu)
    (returns : (h n : ℕ) (c : Cpu) → invoke h n c ≡ ok (act h n c))
    (spares : (h n : ℕ) (c : Cpu) → (act h n c).ints ≡ c.ints)
    (keeps_vector : (h n : ℕ) (c : Cpu) → (act h n c).frame.int_no ≡ c.frame.int_no) where
  -- The handlers of a row, in order.
  abbrev pub act_all : List ℕ → ℕ → Cpu → Cpu
  act_all [] n c = c
  act_all (h ∷ row) n c = if h == 0 then act_all row n c else act_all row n (act h n c)

  call_loop-act_all :
      (left i : ℕ) (handled : Bool) (c : Cpu) (n : ℕ) (row : List ℕ)
      → c.frame.int_no ≡ n
      → get_or c.ints.funcs n [] ≡ row
      → call_loop invoke left i handled c
        ≡ ok (handled || some_handler (slots row i left), act_all (slots row i left) n c)
  call_loop-act_all zero i handled c n row en er =
      call_done invoke i handled c ∙ ap (λ (b : Bool). ok (b, c)) (or_false handled)
  call_loop-act_all (suc left) i handled c n row en er = elim (Bool-cases (get_or row i 0 == 0)) [
    | inl empty ↦
        call_empty invoke left i handled c _ slot empty
        ∙ call_loop-act_all left (i + 1) handled c n row en er
        ∙ rw empty refl
    | inr there ↦
        call_there invoke left i handled c _ slot _ there
          (returns _ _ c ∙ ap (λ m. ok (act (get_or row i 0) m c)) en)
        ∙ call_loop-act_all left (i + 1) true (act (get_or row i 0) n c) n row
            (keeps_vector _ n c ∙ en) (rw spares er)
        ∙ rw there (
            ap (λ (b : Bool). ok (b, act_all (slots row (i + 1) left) n (act (get_or row i 0) n c)))
              (true_or handled (some_handler (slots row (i + 1) left))))
  ]
    where
      slot : get_or (get_or c.ints.funcs c.frame.int_no []) i 0 ≡ get_or row i 0
      slot = ap (λ m. get_or (get_or c.ints.funcs m []) i 0) en ∙ ap (λ r. get_or r i 0) er

  -- The slots of the vector's row.
  abbrev pub row_of : ℕ → Cpu → List ℕ
  row_of n c = slots (get_or c.ints.funcs n []) 0 16

  -- The state once the handlers have run with the lock held.
  abbrev pub acted : Regs → Cpu → Cpu
  acted regs c =
      act_all (row_of (u8 regs.int_no) c) (u8 regs.int_no)
        (record (enter invoke regs c) { ints = held c.ints })

  act_all-ints : (row : List ℕ) (n : ℕ) (c : Cpu) → (act_all row n c).ints ≡ c.ints
  act_all-ints [] n c = refl
  act_all-ints (h ∷ row) n c = elim (Bool-cases (h == 0)) [
    | inl empty ↦ rw empty (act_all-ints row n c)
    | inr there ↦ rw there (act_all-ints row n (act h n c) ∙ spares h n c)
  ]

  act_all-vector :
      (row : List ℕ) (n : ℕ) (c : Cpu) → (act_all row n c).frame.int_no ≡ c.frame.int_no
  act_all-vector [] n c = refl
  act_all-vector (h ∷ row) n c = elim (Bool-cases (h == 0)) [
    | inl empty ↦ rw empty (act_all-vector row n c)
    | inr there ↦ rw there (act_all-vector row n (act h n c) ∙ keeps_vector h n c)
  ]

  -- With the lock free, and handlers that return and change neither the tables nor the vector
  -- of the frame, `idt_mainhandler` runs the vector's handlers in the order of their slots,
  -- gives the lock back and restores the interrupt flag; an exception without a handler panics.
  pub idt_mainhandler-acted :
      (regs : Regs) (c : Cpu)
      → c.ints.lock ≡ 0
      → idt_mainhandler invoke regs c ≡ (
          if not (some_handler (row_of (u8 regs.int_no) c)) && ltb (u8 regs.int_no) 32
          then panic
          else ok (leave invoke (record (acted regs c) { ints = c.ints })))
  unfolding idt_mainhandler enter
  idt_mainhandler-acted regs c free_lock =
      let start = record (enter invoke regs c) { ints = held c.ints } in
      let n = u8 regs.int_no in
      ok->>= _ (acquire_free c.ints free_lock)
      ∙ ok->>= _ (call_loop-act_all 16 0 false start n _ refl refl)
      ∙ finished invoke (some_handler (row_of n c)) (acted regs c) n c.ints free_lock
          (act_all-ints (row_of n c) n start) (act_all-vector (row_of n c) n start)
