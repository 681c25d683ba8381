-- ===== src/Debug/Lines.antt =====
-- The shell of kernel/src/debug.c as an editor of lines.
use mathlib.Core.Path.{subst}
use cardinal.Base.{
  ℕ, suc, ◌+◌, ◌<◌, ◌≡◌, ◌≢◌, inl, inr, refl, ◌==◌, ltb, true, false, Option, none, some, List, [],
  ◌∷◌, ◌++◌, length, set, Outcome, ok, stuck, Bool-cases, arith,
}
use cardinal.Debug.{Console}
use cardinal.Debug.Printing.{Sends, Ready, nothing-Printed}
use cardinal.Debug.Shell.{Shell, store_char, echo, reset_buf, shell_step}
use cardinal.Debug.Editing.{
  edit, answer, Shows, pushed, popped, Steps, reset_buf-keeps, reset_buf-clears, stored, line_ended,
}

store_char-typed :
    (sh : Shell) (ch : ℕ)
    → (ch == 8) ≡ false
    → (ch == 13) ≡ false
    → sh.cmd_buf_pos < 1024
    → store_char ch sh
      ≡ ok (record sh {
        cmd_buf = set sh.cmd_buf sh.cmd_buf_pos ch;
        cmd_buf_pos = sh.cmd_buf_pos + 1;
      })
unfolding store_char
store_char-typed sh ch e8 e13 room =
    let lt : ltb sh.cmd_buf_pos 1024 ≡ true = ground arith in rw (store_char, e8, e13, lt) refl

echo-typed : (ch : ℕ) → (ch == 8) ≡ false → (ch == 13) ≡ false → echo ch ≡ ch ∷ []
unfolding echo
echo-typed ch e8 e13 = rw (echo, e8, e13) refl

module _ {S : Type 0} (font : ℕ → ℕ → ℕ) {output : ℕ → S → Outcome S} (O : Sends output) where
  -- Where the line may be edited the run goes on with it; else it is stuck.
  abbrev pub Follows : Option (List ℕ) → Outcome (Shell × Console S) → Console S → List ℕ → Type 0
  Follows none run c chs = run ≡ stuck
  Follows (some line) run c chs = Steps font O run c line chs

  deleted :
      (sh : Shell) (c : Console S) (line : List ℕ)
      → Shows sh line
      → Ready c.display
      → Follows (edit line 8) (shell_step font output 8 sh c) c (answer line 8)
  unfolding edit answer shell_step store_char echo
  deleted sh c [] h r = rw (shell_step, h.pos) refl
  deleted sh c (last ∷ before) h r =
      let e : sh.cmd_buf_pos ≡ suc (length before) = h.pos in
      let h' = popped sh before last (length before) h e in
      stored font O 8 sh
        (record sh { cmd_buf = set sh.cmd_buf (length before) 0; cmd_buf_pos = length before }) c
        before [] refl refl (rw (store_char, e) refl)
        (λ c1 r1. reset_buf-keeps font O _ c1 before h' r1) r

  typed :
      (sh : Shell) (c : Console S) (line : List ℕ) (ch : ℕ)
      → (ch == 27) ≡ false
      → (ch == 8) ≡ false
      → (ch == 13) ≡ false
      → Shows sh line
      → Ready c.display
      → Follows (edit line ch) (shell_step font output ch sh c) c (answer line ch)
  unfolding edit answer
  typed sh c line ch e27 e8 e13 h r = elim (Bool-cases (length line == 1022)) [
    | inl full ↦
        let e : edit line ch ≡ some [] = rw (edit, e27, e8, e13, full) refl in
        let a : answer line ch ≡ ch ∷ 62 ∷ [] = rw (answer, e27, e8, e13, full) refl in
        let last : (sh.cmd_buf_pos + 1 == 1023) ≡ true = ground (arith, h.pos) in
        rw (e, a) (step (62 ∷ []) [] (λ c1 r1. reset_buf-clears font O after c1 (rw last refl) r1))
    | inr more ↦
        let e : edit line ch ≡ some (ch ∷ line) = rw (edit, e27, e8, e13, more) refl in
        let a : answer line ch ≡ ch ∷ [] = rw (answer, e27, e8, e13, more) refl in
        let ne : length line ≢ 1022 = ground arith in
        rw (e, a)
          (step [] (ch ∷ line)
            (λ c1 r1. reset_buf-keeps font O after c1 (ch ∷ line) (pushed sh line ch h ne) r1))
  ]
    where
      room : sh.cmd_buf_pos < 1024
      room = omega (arith, h.pos, h.room)

      after : Shell
      after = record sh {
        cmd_buf = set sh.cmd_buf sh.cmd_buf_pos ch;
        cmd_buf_pos = sh.cmd_buf_pos + 1;
      }

      step :
          (chs line' : List ℕ)
          → ((c1 : Console S)
              → Ready c1.display
              → Steps font O (reset_buf font output after c1) c1 line' chs)
          → Steps font O (shell_step font output ch sh c) c line' (ch ∷ chs)
      step chs line' reset =
          subst (λ xs. Steps font O (shell_step font output ch sh c) c line' (xs ++ chs))
            (echo-typed ch e8 e13)
            (stored font O ch sh after c line' chs e27 e13 (store_char-typed sh ch e8 e13 room)
              reset r)

  pub shell_step-edit :
      (sh : Shell) (c : Console S) (line : List ℕ) (ch : ℕ)
      → Shows sh line
      → Ready c.display
      → Follows (edit line ch) (shell_step font output ch sh c) c (answer line ch)
  unfolding edit answer shell_step
  shell_step-edit sh c line ch h r =
      let Holds : ℕ → Type 0 =
        λ k. Follows (edit line k) (shell_step font output k sh c) c (answer line k) in
      elim (Bool-cases (ch == 27)) [
        | inl e ↦
            let at : 27 ≡ ch = ground arith in
            subst Holds at (sh, c, refl, h, nothing-Printed O c r)
        | inr e27 ↦ elim (Bool-cases (ch == 8)) [
          | inl e ↦ let at : 8 ≡ ch = ground arith in subst Holds at (deleted sh c line h r)
          | inr e8 ↦ elim (Bool-cases (ch == 13)) [
            | inl e ↦
                let at : 13 ≡ ch = ground arith in subst Holds at (line_ended font O sh c line h r)
            | inr e13 ↦ typed sh c line ch e27 e8 e13 h r
          ]
        ]
      ]
