-- ===== src/Debug/Session.antt =====
-- A session of the shell of kernel/src/debug.c: the loop over its input.
use cardinal.Base.{
  ℕ, suc, ◌≡◌, refl, ◌∙◌, Option, none, some, List, [], ◌∷◌, ◌++◌, length, Outcome, ok, stuck,
  ok->>=, stuck->>=,
}
use cardinal.Debug.{Console}
use cardinal.Debug.Printing.{
  Sends, Ready, Printed, nothing-Printed, Printed-after, print_stream-Printed,
}
use cardinal.Debug.Shell.{Shell, empty_shell, shell_step, shell_loop, debug_shell, banner}
use cardinal.Debug.Editing.{edit, answer, Shows, empty-Shows}
use cardinal.Debug.Lines.{Follows, shell_step-edit}

-- A function for input that gives the characters that are left to be read.
pub record Receives {S : Type 0} {output : ℕ → S → Outcome S} (O : Sends output)
    (input : S → Outcome (ℕ × S)) : Type 0 where
  pub receives :
      (s : S) (ch : ℕ) (chs : List ℕ)
      → O.typed s ≡ ch ∷ chs
      → (s' : S) × (input s ≡ ok (ch, s')) × (O.sent s' ≡ O.sent s) × (O.typed s' ≡ chs)

-- The line after characters, and what is answered to them.
unfoldable pub edits : List ℕ → List ℕ → Option (List ℕ)
unfolding edit
edits line [] = some line
edits line (ch ∷ chs) = elim (edit line ch) [ none ↦ none | some line' ↦ edits line' chs ]

unfoldable pub answers : List ℕ → List ℕ → List ℕ
unfolding edit answer
answers line [] = []
answers line (ch ∷ chs) =
    answer line ch ++ elim (edit line ch) [ none ↦ [] | some line' ↦ answers line' chs ]

-- The same output, with nothing said of input.
abbrev pub output_only : {S : Type 0} {output : ℕ → S → Outcome S} → Sends output → Sends output
output_only O = record {
  sent = O.sent;
  typed = λ s. [];
  sends = λ ch s. let (s', run, sent, typed) = O.sends ch s in (s', run, sent, refl);
}

module _ {S : Type 0} (font : ℕ → ℕ → ℕ) {output : ℕ → S → Outcome S} (O : Sends output)
    {input : S → Outcome (ℕ × S)} (I : Receives O input) where
  pub of_output :
      {chs : List ℕ} {c c' : Console S} → Printed O chs c c' → Printed (output_only O) chs c c'
  of_output p = record {
    ready = p.ready;
    frame = p.frame;
    outside = p.outside;
    sent = p.sent;
    typed = refl;
    interrupts = p.interrupts;
  }

  -- Where the shell is when `rest` is left to be read.
  pub record At (line chs rest : List ℕ) (c : Console S) (sh' : Shell) (c' : Console S)
      : Type 0 where
    pub shows : Shows sh' line
    pub printed : Printed (output_only O) chs c c'
    pub left : O.typed c'.device ≡ rest

  abbrev Runs : Option (List ℕ) → Outcome (Shell × Console S) → Console S → List ℕ → List ℕ → Type 0
  Runs none run c chs rest = run ≡ stuck
  Runs (some line) run c chs rest =
      (sh' : Shell) × (c' : Console S) × (run ≡ ok (sh', c')) × At line chs rest c sh' c'

  read_one :
      (c : Console S) (ch : ℕ) (chs : List ℕ)
      → Ready c.display
      → O.typed c.device ≡ ch ∷ chs
      → (device : S) × (input c.device ≡ ok (ch, device))
        × (O.typed device ≡ chs)
        × Printed (output_only O) [] c (record c { device = device })
  read_one c ch chs r e =
      let (device, run, sent, left) = I.receives c.device ch chs e in
      let p = nothing-Printed (output_only O) c r in
      (
        device,
        run,
        left,
        record {
          ready = r;
          frame = p.frame;
          outside = p.outside;
          sent = sent ∙ p.sent;
          typed = refl;
          interrupts = refl;
        },
      )

  -- What was printed before the run belongs to it.
  extend :
      (o : Option (List ℕ)) (run run1 : Outcome (Shell × Console S)) (chs rest : List ℕ)
      {before : List ℕ} {c c1 : Console S}
      → run ≡ run1
      → Printed (output_only O) before c c1
      → Runs o run1 c1 chs rest
      → Runs o run c (before ++ chs) rest
  extend none run run1 chs rest e p f = e ∙ f
  extend (some line) run run1 chs rest e p (sh', c', f, at) = (
    sh',
    c',
    e ∙ f,
    record {
      shows = at.shows;
      printed = Printed-after (output_only O) p at.printed;
      left = at.left;
    },
  )

  shell_loop-edits :
      (sh : Shell) (c : Console S) (line chs rest : List ℕ)
      → Shows sh line
      → Ready c.display
      → O.typed c.device ≡ chs ++ rest
      → Runs
          (edits line chs)
          (shell_loop font output input (length chs) sh c)
          c
          (answers line chs)
          rest
  unfolding edits answers shell_loop
  shell_loop-edits sh c line [] rest h r e =
      (sh, c, refl, record { shows = h; printed = nothing-Printed (output_only O) c r; left = e })
  shell_loop-edits sh c line (ch ∷ chs) rest h r e =
      let (device, got, left, p) = read_one c ch (chs ++ rest) r e in
      next device got left p
        (λ line' sh1 c1 h1 r1 left1. shell_loop-edits sh1 c1 line' chs rest h1 r1 left1)
        (edit line ch) (shell_step-edit font O sh (record c { device = device }) line ch h r)
    where
      next :
          (device : S)
          → input c.device ≡ ok (ch, device)
          → O.typed device ≡ chs ++ rest
          → Printed (output_only O) [] c (record c { device = device })
          → ((line' : List ℕ) (sh1 : Shell) (c1 : Console S)
              → Shows sh1 line'
              → Ready c1.display
              → O.typed c1.device ≡ chs ++ rest
              → Runs
                  (edits line' chs)
                  (shell_loop font output input (length chs) sh1 c1)
                  c1
                  (answers line' chs)
                  rest)
          → (o : Option (List ℕ))
          → Follows font O o
              (shell_step font output ch sh (record c { device = device }))
              (record c { device = device })
              (answer line ch)
          → Runs
              (elim o [ none ↦ none | some line' ↦ edits line' chs ])
              (shell_loop font output input (suc (length chs)) sh c)
              c
              (answer line ch ++ elim o [ none ↦ [] | some line' ↦ answers line' chs ])
              rest
      next device got left p more none f = ok->>= _ got ∙ stuck->>= _ f
      next device got left p more (some line') (sh1, c1, run, h1, q) =
          extend (edits line' chs) _ _ (answers line' chs) rest (ok->>= _ got ∙ ok->>= _ run)
            (Printed-after (output_only O) p (of_output q))
            (more line' sh1 c1 h1 q.ready (q.typed ∙ left))

  abbrev pub Session :
      Option (List ℕ) → Outcome (Option (Shell × Console S)) → Console S → List ℕ → List ℕ → Type 0
  Session none run c chs rest = run ≡ stuck
  Session (some line) run c chs rest =
      (sh' : Shell) × (c' : Console S) × (run ≡ ok (some (sh', c'))) × At line chs rest c sh' c'

  -- What was printed before the loop belongs to the session.
  Session-after :
      (o : Option (List ℕ)) (whole : Outcome (Option (Shell × Console S)))
      (run : Outcome (Shell × Console S)) (after : List ℕ) (rest : List ℕ) {before : List ℕ}
      {c c1 : Console S}
      → ((x : Shell × Console S) → run ≡ ok x → whole ≡ ok (some x))
      → (run ≡ stuck → whole ≡ stuck)
      → Printed (output_only O) before c c1
      → Runs o run c1 after rest
      → Session o whole c (before ++ after) rest
  Session-after none whole run after rest good bad p f = bad f
  Session-after (some line) whole run after rest good bad p (sh', c', f, at) = (
    sh',
    c',
    good (sh', c') f,
    record {
      shows = at.shows;
      printed = Printed-after (output_only O) p at.printed;
      left = at.left;
    },
  )

  -- For streams that send and receive as they should, and a display that is ready, the shell edits
  -- one line: after its banner and as many characters as it reads, its buffer holds the line that they
  -- make, with zeros behind it; the line is shorter than 1023 characters, and each character
  -- was answered in its turn; no byte of memory outside the frame buffer has changed. If a character
  -- would be deleted before the start of a line, the shell stores before its buffer.
  pub debug_shell-edits :
      (c : Console S) (chs rest : List ℕ)
      → Ready c.display
      → O.typed c.device ≡ chs ++ rest
      → Session
          (edits [] chs)
          (debug_shell font (some input) (some output) (length chs) c)
          c
          (banner ++ answers [] chs)
          rest
  unfolding debug_shell
  debug_shell-edits c chs rest r e =
      let (c1, begun, p) = print_stream-Printed font O banner c r in
      Session-after (edits [] chs) (debug_shell font (some input) (some output) (length chs) c)
        (shell_loop font output input (length chs) empty_shell c1) (answers [] chs) rest
        (λ x run. ok->>= _ begun ∙ ok->>= _ run) (λ run. ok->>= _ begun ∙ stuck->>= _ run)
        (of_output p)
        (shell_loop-edits empty_shell c1 [] chs rest empty-Shows p.ready (p.typed ∙ e))
