-- ===== src/Memory.antt =====
-- kernel/src/memory.c: the functions of string.h on a memory of bytes.
-- A pointer is its address and NULL is 0. Addresses are unbounded: the model does not wrap round the
-- end of the address space. Loops over a string get as many rounds as bytes may be looked at.
pub mod Copy
pub mod Fill
pub mod Text
pub mod Compare
pub mod Skip
pub mod Search
mod Tests
use cardinal.Base.{
  ℕ, zero, suc, ◌+◌, ◌-◌, ◌%◌, ◌/◌, Bool, true, false, ◌&&◌, not, Option, none, some, Outcome, ok,
  stuck, ◌>>=◌, ◌==◌, ltb, if◌then◌else◌, u8, sub64, ◌<<◌, bit_or,
}

-- Bytes by address.
abbrev pub Memory : Type 0
Memory = ℕ → ℕ

unfoldable pub write : Memory → ℕ → ℕ → Memory
write mem p v a = if a == p then v else mem a

-- A store of `k` bytes of `v`, the lowest first.
unfoldable pub write_bytes : ℕ → Memory → ℕ → ℕ → Memory
unfolding write
write_bytes zero mem p v = mem
write_bytes (suc k) mem p v = write_bytes k (write mem p (u8 v)) (p + 1) (v / 256)

-- The 64-bit value that `memset` builds of a byte.
unfoldable pub spread : ℕ → ℕ
spread c8 =
    let c32 = bit_or (bit_or (bit_or (c8 << 24) (c8 << 16)) (c8 << 8)) c8 in bit_or (c32 << 32) c32

-- The first loop of `memset`: single bytes until the rest is whole aligned words.
unfoldable pub memset_bytes : ℕ → Memory → ℕ → ℕ → ℕ → Memory × (ℕ × ℕ)
unfolding write
memset_bytes zero mem s8 c8 n = (mem, (s8, n))
memset_bytes (suc fuel) mem s8 c8 n = elim (s8 % 8 == 0 && n % 8 == 0) [
  | true ↦ (mem, (s8, n))
  | false ↦ elim (n == 0) [
    | true ↦ (mem, (s8, n))
    | false ↦ memset_bytes fuel (write mem s8 c8) (s8 + 1) c8 (n - 1)
  ]
]

-- The second loop: whole words. `n` is a multiple of 8.
unfoldable pub memset_words : ℕ → Memory → ℕ → ℕ → Memory
unfolding write_bytes
memset_words zero mem s64 c64 = mem
memset_words (suc words) mem s64 c64 = memset_words words (write_bytes 8 mem s64 c64) (s64 + 8) c64

unfoldable pub memset : Memory → ℕ → ℕ → ℕ → Memory
unfolding memset_bytes memset_words
memset mem s c n =
    let (mem', (s', n')) = memset_bytes n mem s (u8 c) n in
    memset_words (n' / 8) mem' s' (spread (u8 c))

-- The bytes `i` up to `n`, with `left` still to copy.
unfoldable pub copy_loop : ℕ → Memory → ℕ → ℕ → ℕ → Memory
unfolding write
copy_loop zero mem dest src i = mem
copy_loop (suc left) mem dest src i =
    copy_loop left (write mem (dest + i) (mem (src + i))) dest src (i + 1)

unfoldable pub memcpy : Memory → ℕ → ℕ → ℕ → Memory
unfolding copy_loop
memcpy mem dest src n = copy_loop n mem dest src 0

-- The loop of `memmove` that starts behind the last byte.
unfoldable pub move_down : ℕ → Memory → ℕ → ℕ → Memory
unfolding write
move_down zero mem pd ps = mem
move_down (suc n) mem pd ps = move_down n (write mem (pd - 1) (mem (ps - 1))) (pd - 1) (ps - 1)

unfoldable pub move_up : ℕ → Memory → ℕ → ℕ → Memory
unfolding write
move_up zero mem pd ps = mem
move_up (suc n) mem pd ps = move_up n (write mem pd (mem ps)) (pd + 1) (ps + 1)

unfoldable pub memmove : Memory → ℕ → ℕ → ℕ → Memory
unfolding move_down move_up
memmove mem dest src n =
    if ltb src dest then move_down n mem (dest + n) (src + n) else move_up n mem dest src

-- The difference of two bytes, an `int`: `leb b a` decides its sign.
pub data Difference : Type 0 where
  above below : ℕ → Difference

unfoldable pub difference : ℕ → ℕ → Difference
difference a b = if ltb a b then below (b - a) else above (a - b)

-- Reads on when `n` is 0 at first: `--__n` wraps. `fuel` bounds the bytes that are compared.
unfoldable pub memcmp : ℕ → Memory → ℕ → ℕ → ℕ → Outcome Difference
unfolding difference
memcmp zero mem s1 s2 n = stuck
memcmp (suc fuel) mem s1 s2 n = elim (mem s1 == mem s2) [
  | false ↦ ok (difference (mem s1) (mem s2))
  | true ↦ elim (n == 1) [
    | true ↦ ok (above 0)
    | false ↦ memcmp fuel mem (s1 + 1) (s2 + 1) (sub64 n 1)
  ]
]

-- The loop of `strlen`, at the index `n`.
unfoldable pub strlen_loop : ℕ → Memory → ℕ → ℕ → Outcome ℕ
strlen_loop zero mem s n = stuck
strlen_loop (suc fuel) mem s n = elim (mem (s + n) == 0) [
  | true ↦ ok n
  | false ↦ strlen_loop fuel mem s (n + 1)
]

unfoldable pub strlen : ℕ → Memory → ℕ → Outcome ℕ
unfolding strlen_loop
strlen fuel mem s = if s == 0 then ok 0 else strlen_loop fuel mem s 0

-- At the index `n`, with `left` bytes up to `maxLen`.
unfoldable pub strnlen_loop : ℕ → Memory → ℕ → ℕ → ℕ
strnlen_loop zero mem s n = n
strnlen_loop (suc left) mem s n = elim (mem (s + n) == 0) [
  | true ↦ n
  | false ↦ strnlen_loop left mem s (n + 1)
]

unfoldable pub strnlen : Memory → ℕ → ℕ → ℕ
unfolding strnlen_loop
strnlen mem s max_len = if s == 0 then 0 else strnlen_loop max_len mem s 0

unfoldable pub strncmp : ℕ → Memory → ℕ → ℕ → Difference
unfolding difference
strncmp zero mem s1 s2 = above 0
strncmp (suc n) mem s1 s2 = elim (mem s1 == mem s2) [
  | false ↦ difference (mem s1) (mem s2)
  | true ↦ strncmp n mem (s1 + 1) (s2 + 1)
]

-- A `char` is signed: `*s1 - *s2` is the difference of the bytes moved by 128. `fuel` bounds the
-- bytes that are compared.
unfoldable pub strcmp : ℕ → Memory → ℕ → ℕ → Outcome Difference
unfolding difference
strcmp zero mem s1 s2 = stuck
strcmp (suc fuel) mem s1 s2 = elim (mem s1 == mem s2 && not (mem s1 == 0) && not (mem s2 == 0)) [
  | true ↦ strcmp fuel mem (s1 + 1) (s2 + 1)
  | false ↦ ok (difference (u8 (mem s1 + 128)) (u8 (mem s2 + 128)))
]

-- At the index `i`, with `left` bytes up to `n`. No terminator is written.
unfoldable pub strncpy_loop : ℕ → Memory → ℕ → ℕ → ℕ → Memory
unfolding write
strncpy_loop zero mem dest src i = mem
strncpy_loop (suc left) mem dest src i = elim (mem (src + i) == 0) [
  | true ↦ mem
  | false ↦ strncpy_loop left (write mem (dest + i) (mem (src + i))) dest src (i + 1)
]

unfoldable pub strncpy : Memory → ℕ → ℕ → ℕ → Memory
unfolding strncpy_loop
strncpy mem dest src n = strncpy_loop n mem dest src 0

-- The loop of `strchr`, at the address `s`.
unfoldable pub strchr_loop : ℕ → Memory → ℕ → ℕ → Outcome (Option ℕ)
strchr_loop zero mem s c = stuck
strchr_loop (suc fuel) mem s c = elim (mem s == c) [
  | true ↦ ok (some s)
  | false ↦ elim (mem s == 0) [ true ↦ ok none | false ↦ strchr_loop fuel mem (s + 1) c ]
]

-- NULL gives NULL.
unfoldable pub strchr : ℕ → Memory → ℕ → ℕ → Outcome (Option ℕ)
unfolding strchr_loop
strchr fuel mem s c = if s == 0 then ok none else strchr_loop fuel mem s (u8 c)

-- The loop of `strrchr`, which steps before it looks.
unfoldable pub strrchr_loop : ℕ → Memory → ℕ → ℕ → Option ℕ → Outcome (Option ℕ)
strrchr_loop zero mem s c prev = stuck
strrchr_loop (suc fuel) mem s c prev = elim (mem (s + 1) == 0) [
  | true ↦ ok prev
  | false ↦ strrchr_loop fuel mem (s + 1) c (if mem (s + 1) == c then some (s + 1) else prev)
]

unfoldable pub strrchr : ℕ → Memory → ℕ → ℕ → Outcome (Option ℕ)
unfolding strrchr_loop
strrchr fuel mem s c = if s == 0 then ok none else strrchr_loop fuel mem s (u8 c) none

-- The end of a string, for `strncat`.
unfoldable pub end_loop : ℕ → Memory → ℕ → Outcome ℕ
end_loop zero mem dest = stuck
end_loop (suc fuel) mem dest = elim (mem dest == 0) [
  | true ↦ ok dest
  | false ↦ end_loop fuel mem (dest + 1)
]

-- `while (count--)`: up to the terminator, which is copied; none where it was not met.
unfoldable pub strncat_loop : ℕ → Memory → ℕ → ℕ → Memory
unfolding write
strncat_loop zero mem dest src = write mem dest 0
strncat_loop (suc count) mem dest src = elim (mem src == 0) [
  | true ↦ write mem dest 0
  | false ↦ strncat_loop count (write mem dest (mem src)) (dest + 1) (src + 1)
]

unfoldable pub strncat : ℕ → Memory → ℕ → ℕ → ℕ → Outcome Memory
unfolding end_loop strncat_loop
strncat fuel mem dest src count =
    end_loop fuel mem dest >>= λ end. ok (strncat_loop count mem end src)

unfoldable pub is_zero : Difference → Bool
is_zero (above zero) = true
is_zero (above (suc n)) = false
is_zero (below n) = false

-- The inner loop of `strstr`: to the next place of the needle's first character, or to the end.
unfoldable pub strstr_skip : ℕ → Memory → ℕ → ℕ → ℕ → Outcome (ℕ × ℕ)
strstr_skip zero mem haystack c haystack_len = stuck
strstr_skip (suc fuel) mem haystack c haystack_len =
    elim (not (mem haystack == 0) && not (mem haystack == c)) [
      | true ↦ strstr_skip fuel mem (haystack + 1) c (sub64 haystack_len 1)
      | false ↦ ok (haystack, haystack_len)
    ]

-- The outer loop. Each round of it gets `fuel` rounds of the inner one.
unfoldable pub strstr_loop : ℕ → ℕ → Memory → ℕ → ℕ → ℕ → ℕ → Outcome (Option ℕ)
unfolding strstr_skip strncmp is_zero
strstr_loop zero fuel mem haystack needle haystack_len needle_len = stuck
strstr_loop (suc rounds) fuel mem haystack needle haystack_len needle_len =
    strstr_skip fuel mem haystack (mem needle) haystack_len >>= λ (at, left). elim (mem at == 0) [
      | true ↦ ok none
      | false ↦ elim (ltb left needle_len) [
        | true ↦ ok none
        | false ↦ elim (is_zero (strncmp needle_len mem at needle)) [
          | true ↦ ok (some at)
          | false ↦ strstr_loop rounds fuel mem (at + 1) needle (sub64 left 1) needle_len
        ]
      ]
    ]

-- NULL for either string gives NULL.
unfoldable pub strstr : ℕ → Memory → ℕ → ℕ → Outcome (Option ℕ)
strstr fuel mem haystack needle =
    if needle == 0
    then ok none
    else if haystack == 0
    then ok none
    else if mem needle == 0
    then ok (some haystack)
    else (strlen fuel mem needle >>= λ needle_len. strlen fuel mem haystack >>= λ haystack_len.
        strstr_loop fuel fuel mem haystack needle haystack_len needle_len)
