-- ===== src/Interrupts/Roundtrip.antt =====
-- An interrupt as a whole: the stub of its vector, `idt_defaulthandler` and the return.
use cardinal.Base.{
  ℕ, ◌^◌, ◌<◌, ◌≡◌, refl, ◌∙◌, ◌==◌, leb, Bool, ◌&&◌, ◌||◌, true, false, if◌then◌else◌, List, [],
  ◌∷◌, ◌++◌, bit_and, ◌>>◌, sub64, Outcome, ok, ok->>=, Bool-cases, inl, inr, arith,
}
use cardinal.Base.Bits.{and_mask}
use cardinal.Interrupts.Frame.{Regs}
use cardinal.Interrupts.Entries.{stub, pushes}
use cardinal.Interrupts.Entry.{
  Register, rax, assign, Resumed, run_stub, sign_extended, value_of, interrupted, interrupt, number,
  push_word,
}
use cardinal.Interrupts.Return.{frame, Continues, idt_defaulthandler-Continues}

-- The exceptions for which the processor pushes an error code, as its manual lists them: double fault, invalid task
-- state, segment not present, stack fault, general protection, page fault, alignment check, control protection,
-- communication and security.
abbrev pub has_error_code : ℕ → Bool
has_error_code i =
    i == 8
    || i == 10
    || i == 11
    || i == 12
    || i == 13
    || i == 14
    || i == 17
    || i == 21
    || i == 29
    || i == 30

-- Those of them that have no stub for it.
abbrev pub without_stub : ℕ → Bool
without_stub i = i == 17 || i == 21 || i == 29 || i == 30

-- The error code of the processor, or the dummy, which is 1.
abbrev pub error_word : ℕ → ℕ → ℕ
error_word i e = if has_error_code i then e else 1

-- What the processor pushes last.
abbrev pub error_words : ℕ → ℕ → List ℕ
error_words i e = if has_error_code i then e ∷ [] else []

target_bytes :
    (target : ℕ)
    → target < 2 ^ 64
    → value_of (
        bit_and target 0xff
        ∷ bit_and (target >> 8) 0xff
        ∷ bit_and (target >> 16) 0xff
        ∷ bit_and (target >> 24) 0xff
        ∷ bit_and (target >> 32) 0xff
        ∷ bit_and (target >> 40) 0xff
        ∷ bit_and (target >> 48) 0xff
        ∷ bit_and (target >> 56) 0xff
        ∷ [])
      ≡ target
unfolding value_of
target_bytes target word = omega (
  arith,
  and_mask 8 target,
  and_mask 8 (target >> 8),
  and_mask 8 (target >> 16),
  and_mask 8 (target >> 24),
  and_mask 8 (target >> 32),
  and_mask 8 (target >> 40),
  and_mask 8 (target >> 48),
  and_mask 8 (target >> 56),
)

-- The stubs push the dummy just where the processor pushes nothing.
error_code-range :
    (i : ℕ) → without_stub i ≡ false → has_error_code i ≡ (i == 8 || (leb 10 i && leb i 14))
error_code-range i stubbed = ground arith

-- The stub goes to `idt_defaulthandler`.
stub-run :
    (g : Register → ℕ) (bottom i e target : ℕ) (rest : List ℕ)
    → without_stub i ≡ false
    → target < 2 ^ 64
    → run_stub 8
        (stub target i (pushes i))
        (record { regs = g; bottom = bottom; stack = error_words i e ++ rest })
      ≡ ok (
        target,
        record {
          regs = assign rax target g;
          bottom = bottom;
          stack = g rax ∷ sign_extended i ∷ error_word i e ∷ rest;
        },
      )
unfolding run_stub stub push_word pushes
stub-run g bottom i e target rest stubbed word =
    elim (Bool-cases (i == 8 || (leb 10 i && leb i 14))) [
      | inl none_pushed ↦
          rw (error_code-range i stubbed, none_pushed, target_bytes target word) refl
      | inr one_pushed ↦ rw (error_code-range i stubbed, one_pushed, target_bytes target word) refl
    ]

module _ (main : Regs → Outcome Regs) (scratch : Register → ℕ) where
  -- An interrupt of the vector `i`, other than 17, 21, 29 and 30, whose stub leads to a 64-bit address: where `idt_mainhandler` returns from the
  -- frame with the registers of the interrupt, its vector with the sign extended, its error code or the
  -- dummy, and what the processor has pushed, the processor goes on with what then stands in the frame.
  pub interrupt-Continues :
      (g : Register → ℕ) (bottom i e target rip cs rflags rsp ss : ℕ) (f : Regs)
      → without_stub i ≡ false
      → target < 2 ^ 64
      → main (
          frame g
            (sub64 bottom 176)
            (g rax)
            (sign_extended i)
            (error_word i e)
            rip
            cs
            rflags
            rsp
            ss)
        ≡ ok f
      → (c : Resumed) × (interrupt main scratch target
            (stub target i (pushes i))
            (interrupted g bottom (error_words i e) rip cs rflags rsp ss)
          ≡ ok c)
        × Continues f c
  unfolding interrupt interrupted frame number assign
  interrupt-Continues g bottom i e target rip cs rflags rsp ss f stubbed word done =
      let (c, runs, h) =
        idt_defaulthandler-Continues main scratch (assign rax target g) bottom (g rax)
          (sign_extended i) (error_word i e) rip cs rflags rsp ss f done in
      let same : (target == target) ≡ true = ground arith in
      (
        c,
        ok->>= _ (stub-run g bottom i e target (rip ∷ cs ∷ rflags ∷ rsp ∷ ss ∷ []) stubbed word)
            ∙ rw same runs,
        h,
      )
