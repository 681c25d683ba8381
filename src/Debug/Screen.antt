-- ===== src/Debug/Screen.antt =====
-- What the text of kernel/src/debug.c changes of memory: the bytes of the frame buffer.
use native.Mathlib.Nat.{mul-le-mul_right, mul_comm, mul_assoc, mod-lt, add-mul, one-mul}
use cardinal.Base.{
  ℕ, zero, suc, ◌+◌, ◌*◌, ◌/◌, ◌%◌, ◌<◌, ◌≤◌, ◌≡◌, ◌⊎◌, inl, inr, refl, sym, ◌∙◌, ap, ◌==◌, Bool,
  true, false, if◌then◌else◌, u8, Outcome, ok, arith,
}
use cardinal.Memory.{Memory, write, write_bytes, memset}
use cardinal.Memory.Fill.{memset-filled}
use cardinal.Bootinfo.{BootInfo}
use cardinal.Debug.{
  sysdebug_install_lfb, Display, Console, pixel_index, render_column, render_columns, render_char,
  new_line,
}

abbrev pub Outside : ℕ → ℕ → ℕ → Type 0
Outside base size a = (a < base) ⊎ (base + size ≤ a)

-- Only the `size` bytes from `base` on may differ.
abbrev pub SameOutside : ℕ → ℕ → Memory → Memory → Type 0
SameOutside base size mem mem' = (a : ℕ) → Outside base size a → mem' a ≡ mem a

-- The bytes of the lines of text.
abbrev pub frame_size : Display → ℕ
frame_size d = d.stride * d.line_limit * 10

-- Lines of the pitch hold the characters, at 4 bytes for a pixel, and the next character has a place.
pub record Framed (d : Display) : Type 0 where
  pub wide : 32 * d.char_pos_limit ≤ d.stride
  pub column : d.char_pos < d.char_pos_limit
  pub row : d.line < d.line_limit

-- The same frame buffer.
pub record SameFrame (d d' : Display) : Type 0 where
  pub fbuf : d'.fbuf ≡ d.fbuf
  pub stride : d'.stride ≡ d.stride
  pub char_pos_limit : d'.char_pos_limit ≡ d.char_pos_limit
  pub line_limit : d'.line_limit ≡ d.line_limit

pub same_frame : (d : Display) → SameFrame d d
same_frame d = record { fbuf = refl; stride = refl; char_pos_limit = refl; line_limit = refl }

pub same_frame_after : {d d1 d2 : Display} → SameFrame d d1 → SameFrame d1 d2 → SameFrame d d2
same_frame_after f g = record {
  fbuf = g.fbuf ∙ f.fbuf;
  stride = g.stride ∙ f.stride;
  char_pos_limit = g.char_pos_limit ∙ f.char_pos_limit;
  line_limit = g.line_limit ∙ f.line_limit;
}

write_bytes-Outside :
    (k : ℕ) (mem : Memory) (p v a : ℕ) → Outside p k a → write_bytes k mem p v a ≡ mem a
unfolding write_bytes write
write_bytes-Outside zero mem p v a out = refl
write_bytes-Outside (suc k) mem p v a out =
    ground (arith, write_bytes-Outside k (write mem p (u8 v)) (p + 1) (v / 256) a (ground arith))

-- A pixel of a character lies in the frame.
pixel_index-within :
    (d : Display) (x y : ℕ) → Framed d → x < 8 → y < 8 → 4 * pixel_index d x y + 4 ≤ frame_size d
unfolding pixel_index
pixel_index-within d x y f hx hy =
    let below : y + d.line * 10 + 1 ≤ d.line_limit * 10 = omega (arith, f.row) in
    let rows = mul-le-mul_right d.stride below in
    let frame : d.line_limit * 10 * d.stride ≡ frame_size d =
      mul_comm (d.line_limit * 10) d.stride ∙ sym (mul_assoc d.stride d.line_limit 10) in
    let one : (y + d.line * 10 + 1) * d.stride ≡ (y + d.line * 10) * d.stride + d.stride =
      add-mul (y + d.line * 10) 1 d.stride
      ∙ ap (λ (t : ℕ). (y + d.line * 10) * d.stride + t) (one-mul d.stride) in
    omega (arith, rows, frame, one, f.wide, f.column)

render_column_outside :
    (left : ℕ) (bitmap : ℕ → ℕ) (d : Display) (x y : ℕ) (mem : Memory)
    → Framed d
    → x < 8
    → y + left ≤ 8
    → SameOutside d.fbuf (frame_size d) mem (render_column left bitmap d x y mem)
unfolding render_column
render_column_outside zero bitmap d x y mem f hx hy a out = refl
render_column_outside (suc left) bitmap d x y mem f hx hy a out =
    render_column_outside left bitmap d x (y + 1) _ f hx (omega arith) a out
    ∙ write_bytes-Outside 4 mem (d.fbuf + 4 * pixel_index d x y) _ a (beside out)
  where
    beside : Outside d.fbuf (frame_size d) a → Outside (d.fbuf + 4 * pixel_index d x y) 4 a
    beside (inl lt) = inl (omega arith)
    beside (inr ge) = inr (omega (arith, pixel_index-within d x y f hx (omega arith)))

render_columns_outside :
    (left : ℕ) (bitmap : ℕ → ℕ) (d : Display) (x : ℕ) (mem : Memory)
    → Framed d
    → x + left ≤ 8
    → SameOutside d.fbuf (frame_size d) mem (render_columns left bitmap d x mem)
unfolding render_columns
render_columns_outside zero bitmap d x mem f hx a out = refl
render_columns_outside (suc left) bitmap d x mem f hx a out =
    render_columns_outside left bitmap d (x + 1) _ f (omega arith) a out
    ∙ render_column_outside 8 bitmap d x 0 mem f (omega arith) (omega arith) a out

-- What a step on the console leaves, of output and memory.
pub record Shown {S : Type 0} (c c' : Console S) : Type 0 where
  pub framed : Framed c'.display
  pub frame : SameFrame c.display c'.display
  pub outside : SameOutside c.display.fbuf (frame_size c.display) c.mem c'.mem
  pub device : c'.device ≡ c.device
  pub interrupts : c'.interrupts ≡ c.interrupts

module _ {S : Type 0} (font : ℕ → ℕ → ℕ) (output : ℕ → S → Outcome S) where
  pub render_char-Shown :
      (ch : ℕ) (c : Console S)
      → Framed c.display
      → (c' : Console S) × (render_char font output ch c ≡ ok c') × Shown c c'
  unfolding render_char
  render_char-Shown ch c f =
      let d = c.display in
      let ne : (d.char_pos_limit == 0) ≡ false = ground (arith, f.column) in
      (
        record c {
          mem = render_columns 8 (font ch) d 0 c.mem;
          display = record d { char_pos = (d.char_pos + 1) % d.char_pos_limit };
        },
        rw (render_char, ne) refl,
        record {
          framed = record {
            wide = f.wide;
            column = mod-lt (d.char_pos + 1) (omega (arith, f.column));
            row = f.row;
          };
          frame = record { fbuf = refl; stride = refl; char_pos_limit = refl; line_limit = refl };
          outside = render_columns_outside 8 (font ch) d 0 c.mem f (omega arith);
          device = refl;
          interrupts = refl;
        },
      )

  pub new_line-Shown :
      (c : Console S)
      → Framed c.display
      → (c' : Console S) × (new_line font output c ≡ ok c') × Shown c c'
  unfolding new_line
  new_line-Shown c f =
      let d = c.display in
      let ne : (d.line_limit == 0) ≡ false = ground (arith, f.row) in
      let d1 = record d { line = (d.line + 1) % d.line_limit; char_pos = 0 } in
      (
        record c {
          display = d1;
          mem = if d1.line == 0 then memset c.mem d.fbuf 0 (frame_size d) else c.mem;
        },
        rw (new_line, ne) refl,
        record {
          framed = record {
            wide = f.wide;
            column = omega (arith, f.column);
            row = mod-lt (d.line + 1) (omega (arith, f.row));
          };
          frame = record { fbuf = refl; stride = refl; char_pos_limit = refl; line_limit = refl };
          outside = cleared ((d.line + 1) % d.line_limit == 0);
          device = refl;
          interrupts = refl;
        },
      )
    where
      cleared :
          (b : Bool)
          → SameOutside c.display.fbuf
              (frame_size c.display)
              c.mem
              (if b then memset c.mem c.display.fbuf 0 (frame_size c.display) else c.mem)
      cleared false a out = refl
      cleared true a out =
          memset-filled c.mem c.display.fbuf 0 (frame_size c.display) a ∙ ground arith

-- A frame buffer of at least one character, at 4 bytes for a pixel: the lines of text lie in it.
pub sysdebug_install_lfb-Framed :
    (bi : BootInfo) (d : Display)
    → d.char_pos ≡ 0
    → d.line ≡ 0
    → 8 ≤ bi.fb_width
    → 10 ≤ bi.fb_height
    → 4 * bi.fb_width ≤ bi.fb_pitch
    → Framed (sysdebug_install_lfb bi d)
      × (frame_size (sysdebug_install_lfb bi d) ≤ bi.fb_height * bi.fb_pitch)
unfolding sysdebug_install_lfb
sysdebug_install_lfb-Framed bi d column row wide high pitch =
    let below : bi.fb_height / 10 * 10 ≤ bi.fb_height = omega arith in
    let rows = mul-le-mul_right bi.fb_pitch below in
    let frame : bi.fb_height / 10 * 10 * bi.fb_pitch ≡ bi.fb_pitch * (bi.fb_height / 10) * 10 =
      mul_comm (bi.fb_height / 10 * 10) bi.fb_pitch
      ∙ sym (mul_assoc bi.fb_pitch (bi.fb_height / 10) 10) in
    (
      record { wide = omega arith; column = omega arith; row = omega arith },
      omega (arith, rows, frame),
    )
