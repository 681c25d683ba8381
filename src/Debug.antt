-- ===== src/Debug.antt =====
-- kernel/src/debug.c: text on the frame buffer and on the serial port. The debug shell is in Debug/Shell, numbers
-- are in Debug/Digits.
-- A string is the list of its characters without the terminator. The font of kernel/inc/font.h, the ports and
-- the functions that are passed for output are parameters. Products of `int` are not cut to 32 bits.

pub mod Screen
pub mod Printing
pub mod Shell
pub mod Editing
pub mod Lines
pub mod Session
pub mod Digits
pub mod Message
pub mod Trap
pub mod Serial
mod Tests
pub mod Transmit
use cardinal.Base.{
  ℕ, zero, suc, ◌+◌, ◌*◌, ◌/◌, ◌%◌, ◌^◌, ◌==◌, Bool, true, false, if◌then◌else◌, List, [], ◌∷◌,
  bit_and, u64, ◌<<◌, Outcome, ok, stuck, ◌>>=◌,
}
use cardinal.Memory.{Memory, write_bytes, memset}
use cardinal.Bootinfo.{BootInfo}

-- `fbuf` to `line_limit`; 0 is the NULL of `fbuf`.
pub record Display : Type 0 where
  pub fbuf : ℕ
  pub stride : ℕ
  pub char_pos : ℕ
  pub char_pos_limit : ℕ
  pub line : ℕ
  pub line_limit : ℕ

-- What the functions change: the display, memory, the device that takes the output, and whether the
-- processor takes interrupts.
pub record Console (S : Type 0) : Type 0 where
  pub display : Display
  pub mem : Memory
  pub device : S
  pub interrupts : Bool

-- The frame buffer is seen through the map of physical memory.
unfoldable pub sysdebug_install_lfb : BootInfo → Display → Display
sysdebug_install_lfb bi d = record d {
  fbuf = u64 (bi.fb_addr + 0xffff808000000000);
  stride = bi.fb_pitch;
  char_pos_limit = bi.fb_width / 8;
  line_limit = bi.fb_height / 10;
}

-- The index of a pixel, in words.
unfoldable pub pixel_index : Display → ℕ → ℕ → ℕ
pixel_index d x y = (y + d.line * 10) * d.stride / 4 + x + 8 * d.char_pos

-- The loop over `y`; `bitmap` is the character's row of the font.
unfoldable pub render_column : ℕ → (ℕ → ℕ) → Display → ℕ → ℕ → Memory → Memory
unfolding write_bytes pixel_index
render_column zero bitmap d x y mem = mem
render_column (suc left) bitmap d x y mem = render_column left bitmap d x (y + 1) (
    write_bytes 4 mem (d.fbuf + 4 * pixel_index d x y)
      (if bit_and (bitmap y) (1 << x) == 0 then 0 else 0xffffffff))

-- The loop over `x`.
unfoldable pub render_columns : ℕ → (ℕ → ℕ) → Display → ℕ → Memory → Memory
unfolding render_column
render_columns zero bitmap d x mem = mem
render_columns (suc left) bitmap d x mem =
    render_columns left bitmap d (x + 1) (render_column 8 bitmap d x 0 mem)

-- `cli`: whether interrupts were taken, and no more of them. `sti` takes them again if so.
unfoldable pub cli : {S : Type 0} → Console S → Bool × Console S
cli c = (c.interrupts, record c { interrupts = false })

unfoldable pub sti : {S : Type 0} → Bool → Console S → Console S
sti state c = if state then record c { interrupts = true } else c

-- `font` gives the byte at `font8x8_basic[c][y]`, also where a `char` from 128 on, which is negative,
-- reads before the array.
module _ {S : Type 0} (font : ℕ → ℕ → ℕ) (output : ℕ → S → Outcome S) where
  -- A remainder by 0 stops the processor.
  unfoldable pub render_char : ℕ → Console S → Outcome (Console S)
  unfolding render_columns
  render_char ch c =
      let d = c.display in
      elim (d.char_pos_limit == 0) [
        | true ↦ stuck
        | false ↦ ok (record c {
          mem = render_columns 8 (font ch) d 0 c.mem;
          display = record d { char_pos = (d.char_pos + 1) % d.char_pos_limit };
        })
      ]

  unfoldable pub print_stream : List ℕ → Console S → Outcome (Console S)
  unfolding render_char
  print_stream [] c = ok c
  print_stream (ch ∷ str) c = (if c.display.fbuf == 0 then ok c else render_char ch c) >>= λ c1.
      output ch c1.device >>= λ device. print_stream str (record c1 { device = device })

  -- A new line on the display.
  unfoldable pub new_line : Console S → Outcome (Console S)
  unfolding memset
  new_line c =
      let d = c.display in
      elim (d.line_limit == 0) [
        | true ↦ stuck
        | false ↦
            let d1 = record d { line = (d.line + 1) % d.line_limit; char_pos = 0 } in
            ok (record c {
              display = d1;
              mem =
                  if d1.line == 0
                  then memset c.mem d.fbuf 0 (d.stride * d.line_limit * 10)
                  else c.mem;
            })
      ]

  -- The loop of `print_str` over the line ends.
  unfoldable pub new_lines : List ℕ → Console S → Outcome (Console S)
  unfolding new_line
  new_lines [] c = ok c
  new_lines (ch ∷ str) c = (if ch == 10 then new_line c else ok c) >>= λ c1. new_lines str c1

  unfoldable pub print_str : List ℕ → Console S → Outcome (Console S)
  unfolding print_stream new_lines cli sti
  print_str str c =
      let (state, c1) = cli c in
      print_stream str c1 >>= λ c2.
      (if c2.display.fbuf == 0 then ok c2 else new_lines str c2) >>= λ c3. ok (sti state c3)

  -- Green background, red, "\r\nKERNEL DEBUG SERVICES INITIALIZED\r\n", white, black background
  unfoldable pub init_serial_debug : Console S → Outcome (Console S)
  init_serial_debug c =
      print_stream
        (27 ∷ 91 ∷ 52 ∷ 50 ∷ 109 ∷ 27 ∷ 91 ∷ 51 ∷ 49 ∷ 109 ∷ 13 ∷ 10 ∷ 75 ∷ 69 ∷ 82 ∷ 78 ∷ 69 ∷ 76
          ∷ 32 ∷ 68 ∷ 69 ∷ 66 ∷ 85 ∷ 71 ∷ 32 ∷ 83 ∷ 69 ∷ 82 ∷ 86 ∷ 73 ∷ 67 ∷ 69 ∷ 83 ∷ 32 ∷ 73 ∷ 78
          ∷ 73 ∷ 84 ∷ 73 ∷ 65 ∷ 76 ∷ 73 ∷ 90 ∷ 69 ∷ 68 ∷ 13 ∷ 10 ∷ 27 ∷ 91 ∷ 51 ∷ 55 ∷ 109 ∷ 27 ∷ 91
          ∷ 52 ∷ 48 ∷ 109 ∷ [])
        c
