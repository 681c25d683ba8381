-- ===== src/Debug/Shell.antt =====
-- `debug_shell` of kernel/src/debug.c: one line of input at a time, of which no command is known.
-- `input` and `output` are the functions passed for the streams; a character is a byte.
use cardinal.Base.{
  ℕ, zero, suc, ◌+◌, ◌==◌, ltb, Bool, true, false, ◌||◌, if◌then◌else◌, Option, none, some, List,
  [], ◌∷◌, set, replicate, Outcome, ok, stuck, ◌>>=◌,
}
use cardinal.Debug.{Console, print_stream}

-- `cmd_buf_len`
abbrev pub cmd_buf_len : ℕ
cmd_buf_len = 1024

-- The local variables of the loop.
pub record Shell : Type 0 where
  pub cmd_buf : List ℕ
  pub cmd_buf_pos : ℕ
  pub clear_buf : Bool
  pub cmd_fnd : Bool

abbrev pub empty_shell : Shell
empty_shell = record {
  cmd_buf = replicate cmd_buf_len 0;
  cmd_buf_pos = 0;
  clear_buf = false;
  cmd_fnd = false;
}

-- "\r\n", red, "PANIC detected. Entering debug mode.\r\n\r\n", white and ">"
abbrev pub banner : List ℕ
banner =
    13 ∷ 10 ∷ 27 ∷ 91 ∷ 51 ∷ 49 ∷ 109 ∷ 80 ∷ 65 ∷ 78 ∷ 73 ∷ 67 ∷ 32 ∷ 100 ∷ 101 ∷ 116 ∷ 101 ∷ 99
    ∷ 116 ∷ 101 ∷ 100 ∷ 46 ∷ 32 ∷ 69 ∷ 110 ∷ 116 ∷ 101 ∷ 114 ∷ 105 ∷ 110 ∷ 103 ∷ 32 ∷ 100 ∷ 101 ∷ 98
    ∷ 117 ∷ 103 ∷ 32 ∷ 109 ∷ 111 ∷ 100 ∷ 101 ∷ 46 ∷ 13 ∷ 10 ∷ 13 ∷ 10 ∷ 27 ∷ 91 ∷ 51 ∷ 55 ∷ 109 ∷ 62
    ∷ []

-- "Unknown Command. Enter 'help' for a list of commands.\r\n"
abbrev pub unknown_command : List ℕ
unknown_command =
    85 ∷ 110 ∷ 107 ∷ 110 ∷ 111 ∷ 119 ∷ 110 ∷ 32 ∷ 67 ∷ 111 ∷ 109 ∷ 109 ∷ 97 ∷ 110 ∷ 100 ∷ 46 ∷ 32
    ∷ 69 ∷ 110 ∷ 116 ∷ 101 ∷ 114 ∷ 32 ∷ 39 ∷ 104 ∷ 101 ∷ 108 ∷ 112 ∷ 39 ∷ 32 ∷ 102 ∷ 111 ∷ 114 ∷ 32
    ∷ 97 ∷ 32 ∷ 108 ∷ 105 ∷ 115 ∷ 116 ∷ 32 ∷ 111 ∷ 102 ∷ 32 ∷ 99 ∷ 111 ∷ 109 ∷ 109 ∷ 97 ∷ 110 ∷ 100
    ∷ 115 ∷ 46 ∷ 13 ∷ 10 ∷ []

-- The store of a character: none before the buffer or behind it.
unfoldable pub store_char : ℕ → Shell → Outcome Shell
store_char nchar sh =
    if nchar == 8
    then elim (sh.cmd_buf_pos) [
      | zero ↦ stuck
      | suc p ↦ ok (record sh { cmd_buf = set sh.cmd_buf p 0; cmd_buf_pos = p })
    ]
    else if nchar == 13
    then ok sh
    else if ltb sh.cmd_buf_pos cmd_buf_len
    then ok (record sh {
      cmd_buf = set sh.cmd_buf sh.cmd_buf_pos nchar;
      cmd_buf_pos = sh.cmd_buf_pos + 1;
    })
    else stuck

-- What is sent for a character.
unfoldable pub echo : ℕ → List ℕ
echo nchar =
    if nchar == 8 then 8 ∷ 32 ∷ 8 ∷ [] else if nchar == 13 then 13 ∷ 10 ∷ [] else nchar ∷ []

module _ {S : Type 0} (font : ℕ → ℕ → ℕ) (output : ℕ → S → Outcome S) where
  -- Calls of `output_stream`, one after the other.
  unfoldable pub send : List ℕ → Console S → Outcome (Console S)
  send [] c = ok c
  send (ch ∷ chs) c = output ch c.device >>= λ device. send chs (record c { device = device })

  -- The end of a line.
  unfoldable pub end_line : Shell → Console S → Outcome (Shell × Console S)
  unfolding send print_stream
  end_line sh c = send (9 ∷ []) c >>= λ c1.
      (if sh.cmd_fnd then ok c1 else print_stream font output unknown_command c1) >>= λ c2.
      ok (record sh { clear_buf = true }, c2)

  -- The reset of the buffer, where it is full but for one byte or a line has ended.
  unfoldable pub reset_buf : Shell → Console S → Outcome (Shell × Console S)
  unfolding send
  reset_buf sh c =
      if sh.cmd_buf_pos == 1023 || sh.clear_buf
      then (send (62 ∷ []) c >>= λ c1. ok (empty_shell, c1))
      else ok (sh, c)

  -- One character in the loop; ESC is skipped.
  unfoldable pub shell_step : ℕ → Shell → Console S → Outcome (Shell × Console S)
  unfolding store_char echo send end_line reset_buf
  shell_step nchar sh c = elim (nchar == 27) [
    | true ↦ ok (sh, c)
    | false ↦ store_char nchar sh >>= λ sh1. send (echo nchar) c >>= λ c1.
        (if nchar == 13 then end_line sh1 c1 else ok (sh1, c1)) >>= λ (sh2, c2). reset_buf sh2 c2
  ]

  -- `while (true)`, for as many rounds.
  unfoldable pub shell_loop :
      (S → Outcome (ℕ × S)) → ℕ → Shell → Console S → Outcome (Shell × Console S)
  unfolding shell_step
  shell_loop input zero sh c = ok (sh, c)
  shell_loop input (suc rounds) sh c = input c.device >>= λ (nchar, device).
      shell_step nchar sh (record c { device = device }) >>= λ (sh1, c1).
      shell_loop input rounds sh1 c1

-- NULL is none for the functions, and none is returned for -1. With both of them the shell never returns:
-- the result is where it is after as many characters as there are rounds.
unfoldable pub debug_shell :
    {S : Type 0}
    → (ℕ → ℕ → ℕ)
    → Option (S → Outcome (ℕ × S))
    → Option (ℕ → S → Outcome S)
    → ℕ
    → Console S
    → Outcome (Option (Shell × Console S))
unfolding shell_loop print_stream
debug_shell font none output rounds c = ok none
debug_shell font (some input) none rounds c = ok none
debug_shell font (some input) (some output) rounds c = print_stream font output banner c >>= λ c1.
    shell_loop font output input rounds empty_shell c1 >>= λ reached. ok (some reached)
