-- ===== src/Memory/Tests.antt =====
-- The theorems about memory.c at concrete memories.
use cardinal.Base.{
  ℕ, zero, suc, ◌+◌, ◌-◌, ◌<◌, ◌≡◌, refl, ◌≢◌, [], ◌∷◌, get_or, if◌then◌else◌, ltb, arith, ok,
  Option, ◌>>=◌,
}
use cardinal.Memory.{Memory, strstr, strncat, end_loop, strncat_loop, write, memset, memmove}
use cardinal.Memory.Copy.{memmove-copied, copied}
use cardinal.Memory.Fill.{memset-filled, filled}
use cardinal.Memory.Search.{Search, strstr-Search}
use cardinal.Memory.Text.{IsText}

-- "ab" at the address 16, "ac" at 32.
abbrev bytes : Memory
bytes a =
    if ltb a 16
    then 0
    else if ltb a 32
    then get_or (97 ∷ 98 ∷ []) (a - 16) 0
    else get_or (97 ∷ 99 ∷ []) (a - 32) 0

memmove-copied_example : memmove bytes 17 16 2 18 ≡ copied bytes 17 16 2 18
memmove-copied_example = memmove-copied bytes 17 16 2 18

memset-filled_example : memset bytes 13 (256 + 7) 20 30 ≡ filled bytes 13 7 20 30
memset-filled_example = memset-filled bytes 13 (256 + 7) 20 30

bytes-IsText : IsText bytes 16 2
bytes-IsText = record { bytes = not_zero; ends = refl }
  where
    not_zero : (i : ℕ) → i < 2 → bytes (16 + i) ≢ 0
    not_zero zero lt e = absurd (omega arith)
    not_zero (suc zero) lt e = absurd (omega arith)
    not_zero (suc (suc i)) lt e = absurd (omega arith)

first_byte :
    (i : ℕ)
    → i < 1
    → (bytes (16 + i) ≡ bytes (32 + i)) × (bytes (16 + i) ≢ 0) × (bytes (16 + i) ≢ 98)
first_byte zero lt = (refl, λ e. omega arith, λ e. omega arith)
first_byte (suc i) lt = absurd (omega arith)

b-IsText : IsText bytes 17 1
b-IsText = record { bytes = λ i lt e. absurd (one_byte i lt e); ends = refl }
  where
    one_byte : (i : ℕ) → i < 1 → bytes (17 + i) ≢ 0
    one_byte zero lt e = absurd (omega arith)
    one_byte (suc i) lt e = absurd (omega arith)

-- "b" in "ab"
strstr-Search_example : (o : Option ℕ) × (strstr 3 bytes 16 17 ≡ ok o) × Search bytes 16 2 17 1 o
strstr-Search_example =
    strstr-Search 3 bytes 16 17 2 1 (λ e. omega arith) (λ e. omega arith) bytes-IsText b-IsText
      (omega arith) (omega arith) (omega arith) (omega arith)

joined : (strncat 5 bytes 16 32 1 >>= λ mem. ok (mem 18)) ≡ ok 97
unfolding strncat end_loop strncat_loop write
joined = refl
