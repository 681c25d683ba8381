-- ===== src/Debug/Editing.antt =====
-- The line that the shell of kernel/src/debug.c edits, as a list of characters with the last one first.
use cardinal.Base.{
  ℕ, zero, suc, ◌+◌, ◌-◌, ◌<◌, ◌≤◌, ◌≡◌, ◌≢◌, inl, inr, refl, ◌∙◌, ap, ◌==◌, Bool, true, false,
  ◌||◌, if◌then◌else◌, Option, none, some, List, [], ◌∷◌, ◌++◌, length, get_or, set, replicate,
  length-set, length-replicate, get_or-set_self, get_or-set_ne, Outcome, ok, ok->>=, ◌>>=◌,
  Bool-cases, arith,
}
use cardinal.Debug.{Console}
use cardinal.Debug.Printing.{
  Sends, Ready, Printed, nothing-Printed, Printed-after, output-Printed, print_stream-Printed,
}
use cardinal.Debug.Shell.{
  Shell, empty_shell, unknown_command, store_char, echo, send, end_line, reset_buf, shell_step,
}

-- One character more, with no line for a deletion before its start. A line of 1023 characters is dropped.
unfoldable pub edit : List ℕ → ℕ → Option (List ℕ)
edit line ch =
    if ch == 27
    then some line
    else if ch == 8
    then elim line [ [] ↦ none | last ∷ before ↦ some before ]
    else if ch == 13
    then some []
    else if length line == 1022
    then some []
    else some (ch ∷ line)

-- What the shell answers.
unfoldable pub answer : List ℕ → ℕ → List ℕ
answer line ch =
    if ch == 27
    then []
    else if ch == 8
    then 8 ∷ 32 ∷ 8 ∷ []
    else if ch == 13
    then (13 ∷ 10 ∷ []) ++ (9 ∷ []) ++ unknown_command ++ 62 ∷ []
    else if length line == 1022
    then ch ∷ 62 ∷ []
    else ch ∷ []

-- The buffer holds the line, and zeros behind it.
pub record Shows (sh : Shell) (line : List ℕ) : Type 0 where
  pub pos : sh.cmd_buf_pos ≡ length line
  pub room : length line < 1023
  pub size : length sh.cmd_buf ≡ 1024
  pub text : (i : ℕ) → i < length line → get_or sh.cmd_buf i 0 ≡ get_or line (length line - 1 - i) 0
  pub blank : (i : ℕ) → length line ≤ i → get_or sh.cmd_buf i 0 ≡ 0
  pub kept : sh.clear_buf ≡ false
  pub unknown : sh.cmd_fnd ≡ false

get_or-replicate : (n i : ℕ) → get_or {A = ℕ} (replicate n 0) i 0 ≡ 0
get_or-replicate zero i = refl
get_or-replicate (suc n) zero = refl
get_or-replicate (suc n) (suc i) = get_or-replicate n i

pub empty-Shows : Shows empty_shell []
empty-Shows = record {
  pos = refl;
  room = omega arith;
  size = length-replicate {A = ℕ} 1024 0;
  text = λ i lt. absurd (omega arith);
  blank = λ i le. get_or-replicate 1024 i;
  kept = refl;
  unknown = refl;
}

-- The buffer with a character stored behind the line.
pub pushed :
    (sh : Shell) (line : List ℕ) (ch : ℕ)
    → Shows sh line
    → length line ≢ 1022
    → Shows
        (record sh { cmd_buf = set sh.cmd_buf sh.cmd_buf_pos ch; cmd_buf_pos = sh.cmd_buf_pos + 1 })
        (ch ∷ line)
pushed sh line ch h ne = record {
  pos = omega (arith, h.pos);
  room = omega (arith, h.room);
  size = length-set sh.cmd_buf sh.cmd_buf_pos ch ∙ h.size;
  text = λ i lt. elim (Bool-cases (i == length line)) [
    | inl e ↦
        let at : i ≡ sh.cmd_buf_pos = ground (arith, h.pos) in
        let top : 0 ≡ suc (length line) - 1 - i = omega (arith, h.pos) in
        ap (λ (k : ℕ). get_or (set sh.cmd_buf sh.cmd_buf_pos ch) k 0) at
        ∙ get_or-set_self sh.cmd_buf sh.cmd_buf_pos ch 0 (omega (arith, h.pos, h.size, h.room))
        ∙ ap (λ (k : ℕ). get_or (ch ∷ line) k 0) top
    | inr e ↦
        let other : sh.cmd_buf_pos ≢ i = ground (arith, h.pos) in
        let below : i < length line = ground arith in
        let down : suc (length line - 1 - i) ≡ suc (length line) - 1 - i = omega arith in
        get_or-set_ne sh.cmd_buf sh.cmd_buf_pos i ch 0 other
        ∙ h.text i below
        ∙ ap (λ (k : ℕ). get_or (ch ∷ line) k 0) down
  ];
  blank = λ i le.
      get_or-set_ne sh.cmd_buf sh.cmd_buf_pos i ch 0 (λ e. omega (arith, h.pos))
      ∙ h.blank i (omega arith);
  kept = h.kept;
  unknown = h.unknown;
}

-- The buffer with the last character of the line cleared.
pub popped :
    (sh : Shell) (line : List ℕ) (ch p : ℕ)
    → Shows sh (ch ∷ line)
    → sh.cmd_buf_pos ≡ suc p
    → Shows (record sh { cmd_buf = set sh.cmd_buf p 0; cmd_buf_pos = p }) line
popped sh line ch p h e = record {
  pos = omega (arith, h.pos);
  room = omega (arith, h.room);
  size = length-set sh.cmd_buf p 0 ∙ h.size;
  text = λ i lt.
      let down : suc (length line) - 1 - i ≡ suc (length line - 1 - i) = omega arith in
      get_or-set_ne sh.cmd_buf p i 0 0 (λ f. omega (arith, h.pos))
      ∙ h.text i (omega arith)
      ∙ ap (λ (k : ℕ). get_or (ch ∷ line) k 0) down;
  blank = λ i le. elim (Bool-cases (i == p)) [
    | inl f ↦
        let at : i ≡ p = ground arith in
        rw at (get_or-set_self sh.cmd_buf p 0 0 (omega (arith, h.pos, h.size, h.room)))
    | inr f ↦
        let other : p ≢ i = ground arith in
        let past : length (ch ∷ line) ≤ i = ground (arith, h.pos) in
        get_or-set_ne sh.cmd_buf p i 0 0 other ∙ h.blank i past
  ];
  kept = h.kept;
  unknown = h.unknown;
}

module _ {S : Type 0} (font : ℕ → ℕ → ℕ) {output : ℕ → S → Outcome S} (O : Sends output) where
  -- A step that leaves the line `line'` and sends `chs`.
  abbrev pub Steps : Outcome (Shell × Console S) → Console S → List ℕ → List ℕ → Type 0
  Steps run c line' chs =
      (sh' : Shell) × (c' : Console S) × (run ≡ ok (sh', c')) × Shows sh' line' × Printed O chs c c'

  send-Printed :
      (chs : List ℕ) (c : Console S)
      → Ready c.display
      → (c' : Console S) × (send font output chs c ≡ ok c') × Printed O chs c c'
  unfolding send
  send-Printed [] c r = (c, refl, nothing-Printed O c r)
  send-Printed (ch ∷ chs) c r =
      let (device, run, p) = output-Printed O ch c r in
      let (c2, rest, q) = send-Printed chs (record c { device = device }) p.ready in
      (c2, ok->>= _ run ∙ rest, Printed-after O p q)

  pub reset_buf-keeps :
      (sh : Shell) (c : Console S) (line : List ℕ)
      → Shows sh line
      → Ready c.display
      → Steps (reset_buf font output sh c) c line []
  unfolding reset_buf
  reset_buf-keeps sh c line h r =
      let e : (sh.cmd_buf_pos == 1023) ≡ false = ground (arith, h.pos, h.room) in
      (sh, c, rw (reset_buf, e, h.kept) refl, h, nothing-Printed O c r)

  pub reset_buf-clears :
      (sh : Shell) (c : Console S)
      → (sh.cmd_buf_pos == 1023 || sh.clear_buf) ≡ true
      → Ready c.display
      → Steps (reset_buf font output sh c) c [] (62 ∷ [])
  unfolding reset_buf
  reset_buf-clears sh c e r =
      let (c1, run, p) = send-Printed (62 ∷ []) c r in
      (empty_shell, c1, rw (reset_buf, e) (ok->>= _ run), empty-Shows, p)

  no_end :
      (b : Bool) (sh : Shell) (c : Console S)
      → b ≡ false
      → ((if b then end_line font output sh c else ok (sh, c)) >>= λ (sh2, c2).
          reset_buf font output sh2 c2)
        ≡ reset_buf font output sh c
  no_end b sh c e = rw e refl

  -- A character that is not the end of a line, once it is stored.
  pub stored :
      (ch : ℕ) (sh sh1 : Shell) (c : Console S) (line' chs : List ℕ)
      → (ch == 27) ≡ false
      → (ch == 13) ≡ false
      → store_char ch sh ≡ ok sh1
      → ((c1 : Console S) → Ready c1.display → Steps (reset_buf font output sh1 c1) c1 line' chs)
      → Ready c.display
      → Steps (shell_step font output ch sh c) c line' (echo ch ++ chs)
  unfolding shell_step
  stored ch sh sh1 c line' chs e27 e13 store reset r =
      let (c1, sent, p) = send-Printed (echo ch) c r in
      let (sh2, c2, done, h, q) = reset c1 p.ready in
      (
        sh2,
        c2,
        rw (shell_step, e27) (ok->>= _ store ∙ ok->>= _ sent ∙ no_end (ch == 13) sh1 c1 e13 ∙ done),
        h,
        Printed-after O p q,
      )

  end_line-told :
      (sh : Shell) (c : Console S)
      → sh.cmd_fnd ≡ false
      → Ready c.display
      → (c' : Console S) × (end_line font output sh c ≡ ok (record sh { clear_buf = true }, c'))
        × Printed O ((9 ∷ []) ++ unknown_command) c c'
  unfolding end_line
  end_line-told sh c unknown r =
      let (c1, tab, p) = send-Printed (9 ∷ []) c r in
      let (c2, told, q) = print_stream-Printed font O unknown_command c1 p.ready in
      (c2, ok->>= _ tab ∙ rw unknown (ok->>= _ told), Printed-after O p q)

  pub line_ended :
      (sh : Shell) (c : Console S) (line : List ℕ)
      → Shows sh line
      → Ready c.display
      → Steps (shell_step font output 13 sh c) c [] (answer line 13)
  unfolding shell_step store_char echo answer
  line_ended sh c line h r =
      let (c1, sent, p1) = send-Printed (13 ∷ 10 ∷ []) c r in
      let (c2, told, p2) = end_line-told sh c1 h.unknown p1.ready in
      let (sh3, c3, reset, h3, p3) =
        reset_buf-clears (record sh { clear_buf = true }) c2 (or_true (sh.cmd_buf_pos == 1023))
          p2.ready in
      (
        sh3,
        c3,
        ok->>= _ sent ∙ ok->>= _ told ∙ reset,
        h3,
        Printed-after O p1 (Printed-after O p2 p3),
      )
    where
      or_true : (b : Bool) → (b || true) ≡ true
      or_true true = refl
      or_true false = refl
