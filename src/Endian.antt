-- ===== src/Endian.antt =====
-- The byte orders of kernel/inc/kerndefs.h and its access to model-specific registers.
use cardinal.Base.{
  ℕ, ◌+◌, ◌*◌, ◌/◌, ◌%◌, ◌^◌, ◌<◌, ◌≡◌, sym, ◌∙◌, ap, ◌>>◌, ◌<<◌, bit_and, bit_or, u32, arith,
}
use cardinal.Base.Bits.{and_mask, and_field, or_field}

unfoldable pub swap_endian_16 : ℕ → ℕ
swap_endian_16 x = bit_or (bit_and x 0xff00 >> 8) (bit_and x 0x00ff << 8)

unfoldable pub swap_endian_32 : ℕ → ℕ
swap_endian_32 x =
    bit_or
      (bit_or (bit_or (u32 (bit_and x 0x000000ff << 24)) (bit_and x 0x0000ff00 << 8))
        (bit_and x 0x00ff0000 >> 8))
      (bit_and x 0xff000000 >> 24)

unfoldable pub swap_endian_64 : ℕ → ℕ
unfolding swap_endian_32
swap_endian_64 x = bit_or (swap_endian_32 (x >> 32) << 32) (swap_endian_32 (bit_and x 0xffffffff))

-- Four bytes as a value, the highest first.
abbrev pub value_of : ℕ → ℕ → ℕ → ℕ → ℕ
value_of a b c d = a * 2 ^ 24 + b * 2 ^ 16 + c * 2 ^ 8 + d

or_bytes :
    (a b c d : ℕ)
    → b < 256
    → c < 256
    → d < 256
    → bit_or (bit_or (bit_or (a * 2 ^ 24) (b * 2 ^ 16)) (c * 2 ^ 8)) d ≡ value_of a b c d
or_bytes a b c d hb hc hd =
    ap (λ t. bit_or (bit_or t (c * 2 ^ 8)) d)
      (or_field 24 a (b * 2 ^ 16) (omega arith) ∙ omega arith)
    ∙ ap (λ t. bit_or t d) (or_field 16 (a * 2 ^ 8 + b) (c * 2 ^ 8) (omega arith) ∙ omega arith)
    ∙ or_field 8 ((a * 2 ^ 8 + b) * 2 ^ 8 + c) d (omega arith)
    ∙ omega arith

-- The bytes in the other order.
swap_endian_32-bytes :
    (x : ℕ)
    → swap_endian_32 x ≡ value_of (x % 256) (x / 2 ^ 8 % 256) (x / 2 ^ 16 % 256) (x / 2 ^ 24 % 256)
unfolding swap_endian_32
swap_endian_32-bytes x =
    ap
      (λ t.
        bit_or (bit_or (bit_or t (bit_and x 0xff00 << 8)) (bit_and x 0xff0000 >> 8))
          (bit_and x 0xff000000 >> 24))
      highest
    ∙ ap
        (λ t.
          bit_or (bit_or (bit_or (x % 256 * 2 ^ 24) t) (bit_and x 0xff0000 >> 8))
            (bit_and x 0xff000000 >> 24))
        high
    ∙ ap
        (λ t.
          bit_or (bit_or (bit_or (x % 256 * 2 ^ 24) (x / 2 ^ 8 % 256 * 2 ^ 16)) t)
            (bit_and x 0xff000000 >> 24))
        low
    ∙ ap
        (bit_or (
          bit_or (bit_or (x % 256 * 2 ^ 24) (x / 2 ^ 8 % 256 * 2 ^ 16)) (x / 2 ^ 16 % 256 * 2 ^ 8)))
        lowest
    ∙ or_bytes (x % 256) (x / 2 ^ 8 % 256) (x / 2 ^ 16 % 256) (x / 2 ^ 24 % 256) (omega arith)
        (omega arith) (omega arith)
  where
    highest : u32 (bit_and x 0xff << 24) ≡ x % 256 * 2 ^ 24
    highest = omega (arith, and_mask 8 x)

    high : (bit_and x 0xff00 << 8) ≡ x / 2 ^ 8 % 256 * 2 ^ 16
    high = omega (arith, and_field 8 8 x)

    low : (bit_and x 0xff0000 >> 8) ≡ x / 2 ^ 16 % 256 * 2 ^ 8
    low = omega (arith, and_field 8 16 x)

    lowest : (bit_and x 0xff000000 >> 24) ≡ x / 2 ^ 24 % 256
    lowest = omega (arith, and_field 8 24 x)

-- Twice gives the value back, where it has 32 bits.
swap_endian_32-twice : (x : ℕ) → x < 2 ^ 32 → swap_endian_32 (swap_endian_32 x) ≡ x
swap_endian_32-twice x word =
    omega (arith, swap_endian_32-bytes x, swap_endian_32-bytes (swap_endian_32 x))

-- The halves of a 64-bit value are swapped in themselves and stay where they are.
swap_endian_64-halves :
    (x : ℕ)
    → x < 2 ^ 64
    → swap_endian_64 x ≡ swap_endian_32 (x / 2 ^ 32) * 2 ^ 32 + swap_endian_32 (x % 2 ^ 32)
unfolding swap_endian_64
swap_endian_64-halves x word =
    ap (λ t. bit_or (swap_endian_32 (x / 2 ^ 32) * 2 ^ 32) (swap_endian_32 t)) (and_mask 32 x)
    ∙ or_field 32 (swap_endian_32 (x / 2 ^ 32)) (swap_endian_32 (x % 2 ^ 32))
        (omega (arith, swap_endian_32-bytes (x % 2 ^ 32)))

swap_endian_32-below : (x : ℕ) → swap_endian_32 x < 2 ^ 32
swap_endian_32-below x = omega (arith, swap_endian_32-bytes x)

swap_endian_64-twice : (x : ℕ) → x < 2 ^ 64 → swap_endian_64 (swap_endian_64 x) ≡ x
swap_endian_64-twice x word =
    let high = swap_endian_32 (x / 2 ^ 32) in
    let low = swap_endian_32 (x % 2 ^ 32) in
    ap swap_endian_64 (swap_endian_64-halves x word)
    ∙ swap_endian_64-halves (high * 2 ^ 32 + low)
        (omega (arith, swap_endian_32-below (x / 2 ^ 32), swap_endian_32-below (x % 2 ^ 32)))
    ∙ ap (λ t. swap_endian_32 t * 2 ^ 32 + swap_endian_32 ((high * 2 ^ 32 + low) % 2 ^ 32))
        (omega (arith, swap_endian_32-below (x % 2 ^ 32)))
    ∙ ap (λ t. swap_endian_32 high * 2 ^ 32 + swap_endian_32 t)
        (omega (arith, swap_endian_32-below (x % 2 ^ 32)))
    ∙ ap (λ t. t * 2 ^ 32 + swap_endian_32 low) (swap_endian_32-twice (x / 2 ^ 32) (omega arith))
    ∙ ap (λ t. x / 2 ^ 32 * 2 ^ 32 + t) (swap_endian_32-twice (x % 2 ^ 32) (omega arith))
    ∙ omega arith

-- If it is the bytes in the other order, the halves of the value are the same.
swap_endian_64-reversed :
    (x : ℕ)
    → x < 2 ^ 64
    → swap_endian_64 x ≡ swap_endian_32 (x % 2 ^ 32) * 2 ^ 32 + swap_endian_32 (x / 2 ^ 32)
    → x % 2 ^ 32 ≡ x / 2 ^ 32
swap_endian_64-reversed x word reversed =
    sym (swap_endian_32-twice (x % 2 ^ 32) (omega arith))
    ∙ ap swap_endian_32 (
        omega (
          arith,
          reversed,
          swap_endian_64-halves x word,
          swap_endian_32-below (x / 2 ^ 32),
          swap_endian_32-below (x % 2 ^ 32),
        ))
    ∙ swap_endian_32-twice (x / 2 ^ 32) (omega arith)

-- `wrmsr` splits a value for %edx and %eax, `rdmsr` joins them.
unfoldable pub wrmsr : ℕ → ℕ × ℕ
wrmsr val = (u32 (val >> 32), u32 val)

unfoldable pub rdmsr : ℕ × ℕ → ℕ
rdmsr (hi, lo) = bit_or (hi << 32) lo

rdmsr-wrmsr : (val : ℕ) → val < 2 ^ 64 → rdmsr (wrmsr val) ≡ val
unfolding wrmsr rdmsr
rdmsr-wrmsr val word = or_field 32 (u32 (val >> 32)) (u32 val) (omega arith) ∙ omega arith
