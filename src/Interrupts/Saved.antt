-- ===== src/Interrupts/Saved.antt =====
-- The registers that `idt_defaulthandler` of kernel/src/interrupts/idt.c keeps in a frame, and the pops that
-- bring them back.
use mathlib.Core.Path.{subst}
use cardinal.Base.{
  ℕ, ◌≡◌, refl, sym, ◌∙◌, ap, ◌==◌, Bool, true, false, ◌||◌, Bool-cases, inl, inr, List, [], ◌∷◌,
  get_or, arith,
}
use cardinal.Interrupts.Frame.{Regs}
use cardinal.Interrupts.Entry.{
  Register, rax, rbx, rcx, rdx, rbp, rsi, rdi, r8, r9, r10, r11, r12, r13, r14, r15, number, assign,
}

-- The register's place in a frame.
unfoldable pub saved : Regs → Register → ℕ
saved f rax = f.rax
saved f rbx = f.rbx
saved f rcx = f.rcx
saved f rdx = f.rdx
saved f rbp = f.rbp
saved f rsi = f.rsi
saved f rdi = f.rdi
saved f r8 = f.r8
saved f r9 = f.r9
saved f r10 = f.r10
saved f r11 = f.r11
saved f r12 = f.r12
saved f r13 = f.r13
saved f r14 = f.r14
saved f r15 = f.r15

-- Registers set one after the other.
abbrev pub restore : List Register → (Register → ℕ) → (Register → ℕ) → Register → ℕ
restore [] h g = g
restore (r ∷ rs) h g = restore rs h (assign r (h r) g)

abbrev pub listed : List Register → Register → Bool
listed [] r = false
listed (r' ∷ rs) r = number r' == number r || listed rs r

-- The order in which `idt_defaulthandler` pops.
abbrev pub restored_registers : List Register
restored_registers =
    r15 ∷ r14 ∷ r13 ∷ r12 ∷ r11 ∷ r10 ∷ r9 ∷ r8 ∷ rdi ∷ rsi ∷ rbp ∷ rdx ∷ rcx ∷ rbx ∷ rax ∷ []

pub every_register : (r : Register) → listed restored_registers r ≡ true
unfolding number
every_register rax = refl
every_register rbx = refl
every_register rcx = refl
every_register rdx = refl
every_register rbp = refl
every_register rsi = refl
every_register rdi = refl
every_register r8 = refl
every_register r9 = refl
every_register r10 = refl
every_register r11 = refl
every_register r12 = refl
every_register r13 = refl
every_register r14 = refl
every_register r15 = refl

-- The register with a number.
abbrev named : ℕ → Register
named n =
    get_or
      (rax ∷ rcx ∷ rdx ∷ rbx ∷ rax ∷ rbp ∷ rsi ∷ rdi ∷ r8 ∷ r9 ∷ r10 ∷ r11 ∷ r12 ∷ r13 ∷ r14 ∷ r15
        ∷ [])
      n rax

named-number : (r : Register) → named (number r) ≡ r
unfolding number
named-number rax = refl
named-number rbx = refl
named-number rcx = refl
named-number rdx = refl
named-number rbp = refl
named-number rsi = refl
named-number rdi = refl
named-number r8 = refl
named-number r9 = refl
named-number r10 = refl
named-number r11 = refl
named-number r12 = refl
named-number r13 = refl
named-number r14 = refl
named-number r15 = refl

same_number : (h : Register → ℕ) (r r' : Register) → number r ≡ number r' → h r ≡ h r'
same_number h r r' e = ap h (sym (named-number r) ∙ ap named e ∙ named-number r')

restore-kept :
    (rs : List Register) (r : Register) (h g : Register → ℕ) → g r ≡ h r → restore rs h g r ≡ h r
unfolding assign
restore-kept [] r h g e = e
restore-kept (r' ∷ rs) r h g e =
    restore-kept rs r h (assign r' (h r') g) (elim (Bool-cases (number r' == number r)) [
      | inl s ↦ let n : number r' ≡ number r = ground arith in rw (assign, s) (same_number h r' r n)
      | inr o ↦ rw (assign, o) e
    ])

-- A register that is popped holds what was popped to it.
pub restore-all :
    (rs : List Register) (r : Register) (h g : Register → ℕ)
    → listed rs r ≡ true
    → restore rs h g r ≡ h r
unfolding assign
restore-all [] r h g e = let q = e in cc
restore-all (r' ∷ rs) r h g e = elim (Bool-cases (number r' == number r)) [
  | inl s ↦
      let n : number r' ≡ number r = ground arith in
      restore-kept rs r h (assign r' (h r') g) (rw (assign, s) (same_number h r' r n))
  | inr o ↦ restore-all rs r h (assign r' (h r') g) (subst (λ b. (b || listed rs r) ≡ true) o e)
]
