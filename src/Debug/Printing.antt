-- ===== src/Debug/Printing.antt =====
-- What `print_stream` and `print_str` of kernel/src/debug.c send and change.
use mathlib.Core.Path.{subst}
use mathlib.Core.List.{append-nil, append_assoc}
use cardinal.Base.{
  ℕ, ◌≡◌, inl, inr, refl, sym, ◌∙◌, ap, ◌==◌, Bool, true, false, if◌then◌else◌, List, [], ◌∷◌, ◌++◌,
  Outcome, ok, ok->>=, Bool-cases,
}
use cardinal.Debug.{
  Display, Console, render_char, print_stream, new_line, new_lines, print_str, cli, sti,
}
use cardinal.Debug.Screen.{
  Framed, SameFrame, SameOutside, frame_size, same_frame, same_frame_after, Shown,
  render_char-Shown, new_line-Shown,
}

-- A function for output that sends each character: what was sent so far, and what is left to be read.
pub record Sends {S : Type 0} (output : ℕ → S → Outcome S) : Type 0 where
  pub sent : S → List ℕ
  pub typed : S → List ℕ
  pub sends :
      (ch : ℕ) (s : S)
      → (s' : S) × (output ch s ≡ ok s') × (sent s' ≡ sent s ++ ch ∷ []) × (typed s' ≡ typed s)

-- A display that is not installed, or one whose frame holds the text.
pub record Ready (d : Display) : Type 0 where
  pub framed : (d.fbuf == 0) ≡ false → Framed d

module _ {S : Type 0} {output : ℕ → S → Outcome S} (O : Sends output) where
  -- The characters `str` were sent, and outside the frame memory is the same.
  pub record Printed (str : List ℕ) (c c' : Console S) : Type 0 where
    pub ready : Ready c'.display
    pub frame : SameFrame c.display c'.display
    pub outside : SameOutside c.display.fbuf (frame_size c.display) c.mem c'.mem
    pub sent : O.sent c'.device ≡ O.sent c.device ++ str
    pub typed : O.typed c'.device ≡ O.typed c.device
    pub interrupts : c'.interrupts ≡ c.interrupts

  pub nothing-Printed : (c : Console S) → Ready c.display → Printed [] c c
  nothing-Printed c r = record {
    ready = r;
    frame = same_frame c.display;
    outside = λ a out. refl;
    sent = sym (append-nil (O.sent c.device));
    typed = refl;
    interrupts = refl;
  }

  frame_size_eq : {d d' : Display} → SameFrame d d' → frame_size d' ≡ frame_size d
  frame_size_eq f = rw (f.stride, f.line_limit) refl

  pub Printed-after :
      {str more : List ℕ} {c c1 c2 : Console S}
      → Printed str c c1
      → Printed more c1 c2
      → Printed (str ++ more) c c2
  Printed-after {str} {more} {c} {c1} {c2} p q = record {
    ready = q.ready;
    frame = same_frame_after p.frame q.frame;
    outside = λ a out. q.outside a (rw (p.frame.fbuf, frame_size_eq p.frame) out) ∙ p.outside a out;
    sent = q.sent ∙ ap (λ xs. xs ++ more) p.sent ∙ append_assoc (O.sent c.device) str more;
    typed = q.typed ∙ p.typed;
    interrupts = q.interrupts ∙ p.interrupts;
  }

  Shown-Printed : {c c' : Console S} → Shown c c' → Printed [] c c'
  Shown-Printed {c} {c'} s = record {
    ready = record { framed = λ e. s.framed };
    frame = s.frame;
    outside = s.outside;
    sent = ap O.sent s.device ∙ sym (append-nil (O.sent c.device));
    typed = ap O.typed s.device;
    interrupts = s.interrupts;
  }

  -- Output of one character, without the display.
  pub output-Printed :
      (ch : ℕ) (c : Console S)
      → Ready c.display
      → (device : S) × (output ch c.device ≡ ok device)
        × Printed (ch ∷ []) c (record c { device = device })
  output-Printed ch c r =
      let (device, run, sent, typed) = O.sends ch c.device in
      (
        device,
        run,
        record {
          ready = r;
          frame = same_frame c.display;
          outside = λ a out. refl;
          sent = sent;
          typed = typed;
          interrupts = refl;
        },
      )

module _ {S : Type 0} (font : ℕ → ℕ → ℕ) {output : ℕ → S → Outcome S} (O : Sends output) where
  -- A step on the display alone, where there is one.
  displayed :
      (step : Console S → Outcome (Console S))
      → ((c : Console S) → Framed c.display → (c' : Console S) × (step c ≡ ok c') × Shown c c')
      → (c : Console S) → Ready c.display
      → (c' : Console S) × ((if c.display.fbuf == 0 then ok c else step c) ≡ ok c')
        × Printed O [] c c'
  displayed step shows c r = elim (Bool-cases (c.display.fbuf == 0)) [
    | inl absent ↦ (c, rw absent refl, nothing-Printed O c r)
    | inr present ↦
        let (c', run, s) = shows c (r.framed present) in (c', rw present run, Shown-Printed O s)
  ]

  pub print_stream-Printed :
      (str : List ℕ) (c : Console S)
      → Ready c.display
      → (c' : Console S) × (print_stream font output str c ≡ ok c') × Printed O str c c'
  unfolding print_stream
  print_stream-Printed [] c r = (c, refl, nothing-Printed O c r)
  print_stream-Printed (ch ∷ str) c r =
      let (c1, shown, p1) =
        displayed (render_char font output ch) (render_char-Shown font output ch) c r in
      let (device, run, p2) = output-Printed O ch c1 p1.ready in
      let (c3, rest, p3) = print_stream-Printed str (record c1 { device = device }) p2.ready in
      (c3, ok->>= _ shown ∙ ok->>= _ run ∙ rest, Printed-after O (Printed-after O p1 p2) p3)

  line_end :
      (ch : ℕ) (c : Console S)
      → Framed c.display
      → (c' : Console S) × ((if ch == 10 then new_line font output c else ok c) ≡ ok c')
        × Printed O [] c c'
  line_end ch c f = elim (Bool-cases (ch == 10)) [
    | inl is_end ↦
        let (c', run, s) = new_line-Shown font output c f in (c', rw is_end run, Shown-Printed O s)
    | inr other ↦ (c, rw other refl, nothing-Printed O c (record { framed = λ e. f }))
  ]

  -- The loop over the line ends sends nothing.
  new_lines-Printed :
      (str : List ℕ) (c : Console S)
      → Ready c.display
      → (c.display.fbuf == 0) ≡ false
      → (c' : Console S) × (new_lines font output str c ≡ ok c') × Printed O [] c c'
  unfolding new_lines
  new_lines-Printed [] c r present = (c, refl, nothing-Printed O c r)
  new_lines-Printed (ch ∷ str) c r present =
      let (c1, run, p) = line_end ch c (r.framed present) in
      let (c2, rest, q) = new_lines-Printed str c1 p.ready (rw p.frame.fbuf present) in
      (c2, ok->>= _ run ∙ rest, Printed-after O p q)

  lines :
      (str : List ℕ) (c : Console S)
      → Ready c.display
      → (c' : Console S) × ((if c.display.fbuf == 0 then ok c else new_lines font output str c)
          ≡ ok c')
        × Printed O [] c c'
  lines str c r = elim (Bool-cases (c.display.fbuf == 0)) [
    | inl absent ↦ (c, rw absent refl, nothing-Printed O c r)
    | inr present ↦ let (c', run, p) = new_lines-Printed str c r present in (c', rw present run, p)
  ]

  -- Where interrupts were taken before `cli`, they are after `sti`.
  interrupts_back :
      (before : Bool) (str : List ℕ) (c c' : Console S)
      → c.interrupts ≡ before
      → Printed O str (record c { interrupts = false }) c'
      → Printed O str c (sti before c')
  unfolding sti
  interrupts_back true str c c' e p = record {
    ready = p.ready;
    frame = p.frame;
    outside = p.outside;
    sent = p.sent;
    typed = p.typed;
    interrupts = sym e;
  }
  interrupts_back false str c c' e p = record {
    ready = p.ready;
    frame = p.frame;
    outside = p.outside;
    sent = p.sent;
    typed = p.typed;
    interrupts = p.interrupts ∙ sym e;
  }

  -- Where the function for output sends each character and the frame buffer, if it is installed, has
  -- pitch for its characters and a place for the next one, `print_str` returns. The characters of
  -- the string were sent in their order; no byte of memory outside the lines of the frame buffer
  -- has changed; the display is as ready as before; interrupts are taken if they were before.
  pub print_str-Printed :
      (str : List ℕ) (c : Console S)
      → Ready c.display
      → (c' : Console S) × (print_str font output str c ≡ ok c') × Printed O str c c'
  unfolding print_str cli
  print_str-Printed str c r =
      let c1 : Console S = record c { interrupts = false } in
      let (c2, run2, p2) = print_stream-Printed str c1 r in
      let (c3, run3, p3) = lines str c2 p2.ready in
      let all = subst (λ xs. Printed O xs c1 c3) (append-nil str) (Printed-after O p2 p3) in
      (
        sti c.interrupts c3,
        ok->>= _ run2 ∙ ok->>= _ run3,
        interrupts_back c.interrupts str c c3 refl all,
      )
