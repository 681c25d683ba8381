-- ===== src/Debug/Tests.antt =====
-- The functions of debug.c on a small display, a port and a keyboard.
use cardinal.Stdlib.{hex_value}
use cardinal.Base.{
  length, get_or, ◌-◌, ◌/◌, ◌%◌, ℕ, zero, suc, ◌+◌, ◌-◌, ◌^◌, ◌<◌, ◌≤◌, ◌≡◌, ◌≢◌, ◌⊎◌, ◌↔◌, inr,
  refl, Bool, true, false, some, List, [], ◌∷◌, ◌++◌, if◌then◌else◌, ltb, get_or, ◌==◌, bit_and,
  Outcome, ok, stuck, arith,
}
use cardinal.Memory.{Memory}
use cardinal.Memory.Text.{IsText}
use cardinal.Bootinfo.{BootInfo, no_info}
use cardinal.Stdlib.{atoi}
use cardinal.Debug.{Display, Console, print_str, sysdebug_install_lfb}
use cardinal.Debug.Screen.{sysdebug_install_lfb-Framed}
use cardinal.Debug.Printing.{Sends, Ready, Printed, print_str-Printed}
use cardinal.Debug.Serial.{Ports, serial_output}
use cardinal.Debug.Transmit.{Transmits, print_str-serial_output}
use cardinal.Debug.Shell.{debug_shell, banner}
use cardinal.Debug.Session.{Receives, Session, edits, answers, debug_shell-edits}
use cardinal.Debug.Digits.{print_uint32, base_hex, print_uint32-atoi}
use cardinal.Debug.Trap.{raise, set_trap_str, raise-told}

-- 640 by 480 pixels.
abbrev small_info : BootInfo
small_info = record no_info {
  fb_addr = 0xe0000000;
  fb_pitch = 2560;
  fb_width = 640;
  fb_height = 480;
}

abbrev blank_display : Display
blank_display = record {
  fbuf = 0;
  stride = 0;
  char_pos = 0;
  char_pos_limit = 0;
  line = 0;
  line_limit = 0;
}

installed-Ready : Ready (sysdebug_install_lfb small_info blank_display)
installed-Ready = record {
  framed = λ e.
      (sysdebug_install_lfb-Framed small_info blank_display refl refl (omega arith) (omega arith)
        (omega arith)).0;
}

blank-Ready : Ready blank_display
blank-Ready = record { framed = λ e. absurd (let r : true ≡ false = e in cc) }

no_font : ℕ → ℕ → ℕ
no_font c y = 0x7e

-- What is typed and what was sent.
abbrev Keyboard : Type 0
Keyboard = List ℕ × List ℕ

abbrev to_screen : ℕ → Keyboard → Outcome Keyboard
to_screen ch s = ok (s.0, s.1 ++ ch ∷ [])

abbrev keys : List ℕ → List ℕ → Outcome (ℕ × Keyboard)
keys [] shown = stuck
keys (ch ∷ chs) shown = ok (ch, (chs, shown))

abbrev from_keys : Keyboard → Outcome (ℕ × Keyboard)
from_keys s = keys s.0 s.1

abbrev screen-Sends : Sends to_screen
screen-Sends = record {
  sent = λ s. s.1;
  typed = λ s. s.0;
  sends = λ ch s. ((s.0, s.1 ++ ch ∷ []), refl, refl, refl);
}

keys-Receives : Receives screen-Sends from_keys
keys-Receives = record { receives = λ s ch chs e. ((chs, s.1), rw e refl, refl, refl) }

-- "hi" at 300, and "old" left at 1000
abbrev stored : Memory
stored a =
    if ltb a 300
    then 0
    else if ltb a 1000
    then get_or (104 ∷ 105 ∷ []) (a - 300) 0
    else get_or (111 ∷ 108 ∷ 100 ∷ []) (a - 1000) 0

abbrev console : Display → List ℕ → Console Keyboard
console d typed = record { display = d; mem = stored; device = (typed, []); interrupts = true }

-- "a\n"
print_str-Printed_example :
    (c' : Console Keyboard) × (print_str no_font to_screen
        (97 ∷ 10 ∷ [])
        (console (sysdebug_install_lfb small_info blank_display) [])
      ≡ ok c')
    × Printed screen-Sends
        (97 ∷ 10 ∷ [])
        (console (sysdebug_install_lfb small_info blank_display) [])
        c'
print_str-Printed_example =
    print_str-Printed no_font screen-Sends (97 ∷ 10 ∷ [])
      (console (sysdebug_install_lfb small_info blank_display) []) installed-Ready

-- "ab", a deletion and a line end
debug_shell-edits_example :
    Session no_font screen-Sends keys-Receives
      (edits [] (97 ∷ 98 ∷ 8 ∷ 13 ∷ []))
      (debug_shell no_font
        (some from_keys)
        (some to_screen)
        4
        (console blank_display (97 ∷ 98 ∷ 8 ∷ 13 ∷ [])))
      (console blank_display (97 ∷ 98 ∷ 8 ∷ 13 ∷ []))
      (banner ++ answers [] (97 ∷ 98 ∷ 8 ∷ 13 ∷ []))
      []
debug_shell-edits_example =
    debug_shell-edits no_font screen-Sends keys-Receives
      (console blank_display (97 ∷ 98 ∷ 8 ∷ 13 ∷ [])) (97 ∷ 98 ∷ 8 ∷ 13 ∷ []) [] blank-Ready refl

print_uint32-atoi_example :
    (text : List ℕ) × (s' : Keyboard) × (print_uint32 to_screen 0x12345678 base_hex ([], [])
      ≡ ok s')
    × (s'.1 ≡ [] ++ text)
    × (length text ≡ 8)
    × ((i : ℕ) → i < 8 → hex_value (get_or text i 0) ≡ some (0x12345678 / 16 ^ (7 - i) % 16))
    × ((atoi text 16 ≡ 0x12345678) ↔ ((0x12345678 < 2 ^ 27) ⊎ (2 ^ 32 - 2 ^ 27 ≤ 0x12345678)))
print_uint32-atoi_example = print_uint32-atoi screen-Sends 0x12345678 ([], []) (omega arith)

hi-IsText : IsText stored 300 2
hi-IsText = record { bytes = not_zero; ends = refl }
  where
    not_zero : (i : ℕ) → i < 2 → stored (300 + i) ≢ 0
    not_zero zero lt e = absurd (omega arith)
    not_zero (suc zero) lt e = absurd (omega arith)
    not_zero (suc (suc i)) lt e = absurd (omega arith)

-- The "d" of "old"
left-IsText : IsText stored 1002 1
left-IsText = record { bytes = not_zero; ends = refl }
  where
    not_zero : (i : ℕ) → i < 1 → stored (1002 + i) ≢ 0
    not_zero zero lt e = absurd (omega arith)
    not_zero (suc i) lt e = absurd (omega arith)

-- What is printed is "hid".
raise-told_example :
    Session no_font screen-Sends keys-Receives
      (edits [] (97 ∷ []))
      (raise no_font to_screen from_keys 1 1000 300 (console blank_display (97 ∷ [])))
      (record (console blank_display (97 ∷ [])) { mem = set_trap_str 1000 300 stored })
      ((104 ∷ 105 ∷ 100 ∷ []) ++ (banner ++ answers [] (97 ∷ [])))
      []
raise-told_example =
    raise-told no_font screen-Sends keys-Receives (console blank_display (97 ∷ [])) 1000 300 2 1
      (97 ∷ []) [] blank-Ready hi-IsText left-IsText (omega arith) (inr (omega arith)) refl

-- A port that takes one more read of its status for each byte, and loses a byte that comes before.
abbrev status_of : Bool → List ℕ → ℕ × (Bool × List ℕ)
status_of true out = (0, (false, out))
status_of false out = (0x20, (false, out))

abbrev taken : ℕ → Bool → List ℕ → Bool × List ℕ
taken ch true out = (true, out)
taken ch false out = (true, out ++ ch ∷ [])

abbrev port : Ports
port = record {
  State = Bool × List ℕ;
  inb = λ addr s. status_of s.0 s.1;
  outb = λ addr ch s. taken ch s.0 s.1;
}

abbrev reads_left : Bool → ℕ
reads_left true = 1
reads_left false = 0

port-Transmits : Transmits port 1
port-Transmits = record {
  sent = λ s. s.1;
  busy = λ s. reads_left s.0;
  bounded = λ s. bounded s.0;
  ready = λ s e. ready s.0 s.1 e;
  tells = λ s e. tells s.0 s.1 e;
  read = λ s. read s.0 s.1;
  counts = λ s n e. counts s.0 s.1 n e;
  written = λ ch s e. written ch s.0 s.1 e;
}
  where
    bounded : (b : Bool) → reads_left b ≤ 1
    bounded true = omega arith
    bounded false = omega arith

    ready :
        (b : Bool) (out : List ℕ)
        → reads_left b ≡ 0
        → (bit_and (status_of b out).0 0x20 == 0) ≡ false
    ready true out e = absurd (omega arith)
    ready false out e = refl

    tells :
        (b : Bool) (out : List ℕ)
        → (bit_and (status_of b out).0 0x20 == 0) ≡ false
        → reads_left (status_of b out).1.0 ≡ 0
    tells true out e = refl
    tells false out e = refl

    written :
        (ch : ℕ) (b : Bool) (out : List ℕ) → reads_left b ≡ 0 → (taken ch b out).1 ≡ out ++ ch ∷ []
    written ch true out e = absurd (omega arith)
    written ch false out e = refl

    read : (b : Bool) (out : List ℕ) → (status_of b out).1.1 ≡ out
    read true out = refl
    read false out = refl

    counts :
        (b : Bool) (out : List ℕ) (n : ℕ)
        → reads_left b ≡ suc n
        → reads_left (status_of b out).1.0 ≤ n
    counts true out n e = omega arith
    counts false out n e = omega arith

abbrev port_console : Console (Bool × List ℕ)
port_console = record {
  display = blank_display;
  mem = stored;
  device = (true, []);
  interrupts = false;
}

print_str-serial_output_example :
    (c' : Console (Bool × List ℕ)) × (print_str no_font
        (serial_output port 2)
        (104 ∷ 105 ∷ [])
        port_console
      ≡ ok c')
    × (port-Transmits.sent c'.device ≡ port-Transmits.sent port_console.device ++ 104 ∷ 105 ∷ [])
print_str-serial_output_example =
    print_str-serial_output port port-Transmits no_font (104 ∷ 105 ∷ []) port_console blank-Ready
