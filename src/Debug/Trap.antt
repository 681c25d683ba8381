-- ===== src/Debug/Trap.antt =====
-- The trap of kernel/src/debug.c, which PANIC of kernel/inc/kerndefs.h raises: the message is copied to `priv_s`,
-- printed and followed by the shell.
use cardinal.Base.{
  ℕ, ◌+◌, ◌<◌, ◌≤◌, ◌≡◌, ◌⊎◌, ◌∙◌, Option, none, some, List, [], ◌++◌, length, Outcome, ok, ok->>=,
  ◌>>=◌,
}
use cardinal.Memory.{Memory, strncpy}
use cardinal.Memory.Text.{IsText}
use cardinal.Debug.{Console, print_str}
use cardinal.Debug.Printing.{Sends, Ready, Printed, Printed-after, print_str-Printed}
use cardinal.Debug.Shell.{Shell, debug_shell, banner}
use cardinal.Debug.Session.{
  Receives, Session, answers, edits, debug_shell-edits, of_output, output_only,
}
use cardinal.Debug.Message.{text_at, chars, copied_text}

-- The size of `priv_s`.
abbrev pub priv_size : ℕ
priv_size = 2048

unfoldable pub set_trap_str : ℕ → ℕ → Memory → Memory
set_trap_str priv_s s mem = strncpy mem priv_s s priv_size

-- `output` and `input` are those of the serial port.
unfoldable pub debug_handle_trap :
    {S : Type 0}
    → (ℕ → ℕ → ℕ)
    → (ℕ → S → Outcome S)
    → (S → Outcome (ℕ × S))
    → ℕ
    → ℕ
    → Console S
    → Outcome (Option (Shell × Console S))
debug_handle_trap font output input rounds priv_s c = text_at priv_size c.mem priv_s >>= λ p.
    print_str font output p c >>= λ c1. debug_shell font (some input) (some output) rounds c1

-- `PANIC`, with the message at `s`.
unfoldable pub raise :
    {S : Type 0}
    → (ℕ → ℕ → ℕ)
    → (ℕ → S → Outcome S)
    → (S → Outcome (ℕ × S))
    → ℕ
    → ℕ
    → ℕ
    → Console S
    → Outcome (Option (Shell × Console S))
raise font output input rounds priv_s s c =
    debug_handle_trap font output input rounds priv_s
      (record c { mem = set_trap_str priv_s s c.mem })

message :
    (mem : Memory) (priv_s s k left : ℕ)
    → IsText mem s k
    → IsText mem (priv_s + k) left
    → k + left < priv_size
    → (priv_s + k ≤ s) ⊎ (s + k < priv_s)
    → text_at priv_size (set_trap_str priv_s s mem) priv_s
      ≡ ok (chars mem s k ++ chars mem (priv_s + k) left)
unfolding set_trap_str strncpy
message mem priv_s s k left = copied_text priv_size mem priv_s s k left

module _ {S : Type 0} (font : ℕ → ℕ → ℕ) {output : ℕ → S → Outcome S} (O : Sends output)
    {input : S → Outcome (ℕ × S)} (I : Receives O input) where
  preceded :
      (o : Option (List ℕ)) (whole run : Outcome (Option (Shell × Console S))) (chs rest : List ℕ)
      {before : List ℕ} {c c1 : Console S}
      → whole ≡ run
      → Printed (output_only O) before c c1
      → Session font O I o run c1 chs rest
      → Session font O I o whole c (before ++ chs) rest
  preceded none whole run chs rest e p f = e ∙ f
  preceded (some line) whole run chs rest e p (sh', c', f, at) = (
    sh',
    c',
    e ∙ f,
    record {
      shows = at.shows;
      printed = Printed-after (output_only O) p at.printed;
      left = at.left;
    },
  )

  raise-run :
      (c c1 : Console S) (priv_s s rounds : ℕ) (text : List ℕ)
      → text_at priv_size (set_trap_str priv_s s c.mem) priv_s ≡ ok text
      → print_str font output text (record c { mem = set_trap_str priv_s s c.mem }) ≡ ok c1
      → raise font output input rounds priv_s s c
        ≡ debug_shell font (some input) (some output) rounds c1
  unfolding raise debug_handle_trap
  raise-run c c1 priv_s s rounds text read printed = ok->>= _ read ∙ ok->>= _ printed

  -- Where a message of `k` characters is raised, at an address where it does not overlap `priv_s`, and the
  -- message before it has left `left` characters behind that place, and both fit `priv_s`: the message is printed with
  -- those characters behind it; then the shell edits lines as `debug_shell` does, for streams that
  -- send and receive as they should and a display that is ready.
  pub raise-told :
      (c : Console S) (priv_s s k left : ℕ) (chs rest : List ℕ)
      → Ready c.display
      → IsText c.mem s k
      → IsText c.mem (priv_s + k) left
      → k + left < priv_size
      → (priv_s + k ≤ s) ⊎ (s + k < priv_s)
      → O.typed c.device ≡ chs ++ rest
      → Session font O I
          (edits [] chs)
          (raise font output input (length chs) priv_s s c)
          (record c { mem = set_trap_str priv_s s c.mem })
          ((chars c.mem s k ++ chars c.mem (priv_s + k) left) ++ (banner ++ answers [] chs))
          rest
  raise-told c priv_s s k left chs rest r t old fits apart e =
      let c0 : Console S = record c { mem = set_trap_str priv_s s c.mem } in
      let text = chars c.mem s k ++ chars c.mem (priv_s + k) left in
      let (c1, printed, p) = print_str-Printed font O text c0 r in
      preceded (edits [] chs) _ _ (banner ++ answers [] chs) rest
        (raise-run c c1 priv_s s (length chs) text (message c.mem priv_s s k left t old fits apart)
          printed)
        (of_output font O I p) (debug_shell-edits font O I c1 chs rest p.ready (p.typed ∙ e))
