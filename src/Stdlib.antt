-- ===== src/Stdlib.antt =====
-- kernel/src/stdlib.c: numbers as text, and the hooks of allocation.
-- A text is the list of its characters without the terminator. Values are bit patterns of `width` bits:
-- 32 for `itoa`, 64 for `ltoa`. Bases are positive.
pub mod Digits
pub mod Number
pub mod Hex
mod Tests
use cardinal.Base.{
  ℕ, zero, suc, ◌+◌, ◌-◌, ◌*◌, ◌/◌, ◌%◌, ◌^◌, ◌==◌, leb, ltb, Bool, true, false, ◌&&◌,
  if◌then◌else◌, Option, none, some, List, [], ◌∷◌, ◌++◌, get_or, set, length, Outcome, ok, stuck,
  u32, bit_or, ◌<<◌, ◌>>=◌,
}

-- The character of one digit; 0 beyond 35.
unfoldable pub digit_char : ℕ → ℕ
digit_char v = if leb v 9 then 48 + v else if leb v 35 then 97 + (v - 10) else 0

-- `while (tmp != 0)`: the digits, the lowest first.
unfoldable pub digits_loop : ℕ → ℕ → ℕ → Outcome (List ℕ)
digits_loop zero tmp base = elim (tmp == 0) [ true ↦ ok [] | false ↦ stuck ]
digits_loop (suc fuel) tmp base = elim (tmp == 0) [
  | true ↦ ok []
  | false ↦ digits_loop fuel (tmp / base) base >>= λ rest. ok (digit_char (tmp % base) ∷ rest)
]

-- `while (start < len)`: the exchange of the ends, `rounds` times at most.
unfoldable pub swap_loop : ℕ → ℕ → ℕ → List ℕ → List ℕ
swap_loop zero start len dst = dst
swap_loop (suc rounds) start len dst = elim (ltb start len) [
  | false ↦ dst
  | true ↦
      swap_loop rounds (start + 1) (len - 1)
        (set (set dst start (get_or dst (len - 1) 0)) (len - 1) (get_or dst start 0))
]

unfoldable pub is_negative : ℕ → ℕ → Bool
is_negative width val = leb (2 ^ (width - 1)) val

-- `itoa` and `ltoa`; `none` is the NULL for base 0. A digit takes a round, and there are at most `width`.
unfoldable pub to_text : ℕ → ℕ → ℕ → Outcome (Option (List ℕ))
to_text width val base = elim (base == 0) [
  | true ↦ ok none
  | false ↦ elim (val == 0) [
    | true ↦ ok (some (48 ∷ []))
    | false ↦
        let signed = is_negative width val && base == 10 in
        digits_loop width (if signed then 2 ^ width - val else val) base >>= λ digits.
        let text = if signed then digits ++ 45 ∷ [] else digits in
        ok (some (swap_loop (length text) 0 (length text) text))
  ]
]

abbrev pub itoa : ℕ → ℕ → Outcome (Option (List ℕ))
itoa val base = to_text 32 val base

abbrev pub ltoa : ℕ → ℕ → Outcome (Option (List ℕ))
ltoa val base = to_text 64 val base

-- The digit of a character in base 16.
unfoldable pub hex_value : ℕ → Option ℕ
hex_value c =
    if leb 48 c && leb c 57
    then some (c - 48)
    else if leb 97 c && leb c 102
    then some (c - 97 + 10)
    else if leb 65 c && leb c 70
    then some (c - 65 + 10)
    else none

-- `val >> 4` of an `int`: the sign stays.
unfoldable pub shift_back : ℕ → ℕ
unfolding is_negative
shift_back val = if is_negative 32 val then val / 16 + 0xf0000000 else val / 16

-- `while (true)`: a text ends in a character that is no digit.
unfoldable pub atoi_loop : List ℕ → ℕ → ℕ
unfolding hex_value shift_back
atoi_loop [] val = shift_back val
atoi_loop (c ∷ cs) val = elim (hex_value c) [
  | none ↦ shift_back val
  | some d ↦ atoi_loop cs (u32 (bit_or val d << 4))
]

-- -1 for every base but 16.
unfoldable pub atoi : List ℕ → ℕ → ℕ
unfolding atoi_loop
atoi cs base = if base == 16 then atoi_loop cs 0 else 2 ^ 32 - 1

-- `__malloc_hook` and `__free_hook`; an address of 0 is NULL, and `S` is what the functions change.
pub record Hooks (S : Type 0) : Type 0 where
  pub malloc_hook : Option (ℕ → S → Outcome (ℕ × S))
  pub free_hook : Option (ℕ → S → Outcome S)

-- Before the first update.
unfoldable pub no_hooks : {S : Type 0} → Hooks S
no_hooks = record { malloc_hook = none; free_hook = none }

unfoldable pub update_malloc_free_hooks :
    {S : Type 0} → Option (ℕ → S → Outcome (ℕ × S)) → Option (ℕ → S → Outcome S) → Hooks S → Hooks S
update_malloc_free_hooks malloc_hook free_hook h = record {
  malloc_hook = malloc_hook;
  free_hook = free_hook;
}

unfoldable pub get_malloc_hook : {S : Type 0} → Hooks S → Option (ℕ → S → Outcome (ℕ × S))
get_malloc_hook h = h.malloc_hook

unfoldable pub get_free_hook : {S : Type 0} → Hooks S → Option (ℕ → S → Outcome S)
get_free_hook h = h.free_hook

unfoldable pub malloc : {S : Type 0} → Hooks S → ℕ → S → Outcome (ℕ × S)
malloc h size s = elim (h.malloc_hook) [ none ↦ ok (0, s) | some hook ↦ hook size s ]

unfoldable pub free : {S : Type 0} → Hooks S → ℕ → S → Outcome S
free h ptr s = elim (h.free_hook) [ none ↦ ok s | some hook ↦ hook ptr s ]
