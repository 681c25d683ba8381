-- ===== src/Memory/Fill.antt =====
-- `memset` byte by byte.
use cardinal.Base.{
  ℕ, zero, suc, ◌+◌, ◌-◌, ◌*◌, ◌/◌, ◌%◌, ◌^◌, ◌≤◌, ◌<◌, ◌≡◌, ◌≢◌, refl, ◌∙◌, ap, ◌&&◌, arith,
  if◌then◌else◌, ◌==◌, u8, bit_or, ◌<<◌, Bool-cases, inl, inr,
}
use cardinal.Base.Bits.{or_field}
use cardinal.Memory.{Memory, write, write_bytes, spread, memset_bytes, memset_words, memset}
use cardinal.Memory.Copy.{inside}

-- The memory with a range filled.
abbrev pub filled : Memory → ℕ → ℕ → ℕ → Memory
filled mem s c n a = if inside s n a then c else mem a

-- The number with `k` bytes `c`.
abbrev reps : ℕ → ℕ → ℕ
reps c zero = 0
reps c (suc k) = c + 256 * reps c k

spread-reps : (c : ℕ) → c < 256 → spread c ≡ reps c 8
unfolding spread
spread-reps c h =
    ap (λ (t : ℕ). bit_or (t << 32) t) c32
    ∙ or_field 32 (c * 2 ^ 24 + c * 2 ^ 16 + c * 2 ^ 8 + c) _ (omega arith)
    ∙ omega arith
  where
    two : bit_or (c << 24) (c << 16) ≡ c * 2 ^ 24 + c * 2 ^ 16
    two = or_field 24 c (c * 2 ^ 16) (omega arith)

    three : bit_or (c * 2 ^ 24 + c * 2 ^ 16) (c << 8) ≡ c * 2 ^ 24 + c * 2 ^ 16 + c * 2 ^ 8
    three =
        ap (λ (t : ℕ). bit_or t (c << 8)) (omega arith)
        ∙ or_field 16 (c * 2 ^ 8 + c) (c * 2 ^ 8) (omega arith)
        ∙ omega arith

    four : bit_or (c * 2 ^ 24 + c * 2 ^ 16 + c * 2 ^ 8) c ≡ c * 2 ^ 24 + c * 2 ^ 16 + c * 2 ^ 8 + c
    four =
        ap (λ (t : ℕ). bit_or t c) (omega arith)
        ∙ or_field 8 (c * 2 ^ 16 + c * 2 ^ 8 + c) c (omega arith)
        ∙ omega arith

    c32 :
        bit_or (bit_or (bit_or (c << 24) (c << 16)) (c << 8)) c
        ≡ c * 2 ^ 24 + c * 2 ^ 16 + c * 2 ^ 8 + c
    c32 = ap (λ (t : ℕ). bit_or (bit_or t (c << 8)) c) two ∙ ap (λ (t : ℕ). bit_or t c) three ∙ four

write_bytes-filled :
    (k : ℕ) (mem : Memory) (p c a : ℕ)
    → c < 256
    → write_bytes k mem p (reps c k) a ≡ filled mem p c k a
unfolding write_bytes write
write_bytes-filled zero mem p c a h = ground arith
write_bytes-filled (suc k) mem p c a h =
    let byte : u8 (reps c (suc k)) ≡ c = omega arith in
    let rest : reps c (suc k) / 256 ≡ reps c k = omega arith in
    rw (byte, rest) (ground (arith, write_bytes-filled k (write mem p c) (p + 1) c a h))

module _ (c v : ℕ)
    (word : (mem : Memory) (p a : ℕ) → write_bytes 8 mem p v a ≡ filled mem p c 8 a) where
  memset_words-filled :
      (words : ℕ) (mem : Memory) (s a : ℕ)
      → memset_words words mem s v a ≡ filled mem s c (words * 8) a
  unfolding memset_words
  memset_words-filled zero mem s a = ground arith
  memset_words-filled (suc words) mem s a =
      memset_words-filled words (write_bytes 8 mem s v) (s + 8) a
      ∙ ap (λ (t : ℕ). if inside (s + 8) (words * 8) a then c else t) (word mem s a)
      ∙ ground arith

-- What the loop over single bytes leaves to do.
record Started (mem : Memory) (s c n : ℕ) (mem' : Memory) (s' n' : ℕ) : Type 0 where
  same_end : s' + n' ≡ s + n
  later : s ≤ s'
  whole : n' % 8 ≡ 0
  done : (a : ℕ) → mem' a ≡ filled mem s c (s' - s) a

at_start : (mem : Memory) (s c n : ℕ) → n % 8 ≡ 0 → Started mem s c n mem s n
at_start mem s c n h = record {
  same_end = refl;
  later = omega arith;
  whole = h;
  done = λ a. ground arith;
}

one_more :
    (mem mem' : Memory) (s c n s' n' : ℕ)
    → n ≢ 0
    → Started (write mem s c) (s + 1) c (n - 1) mem' s' n'
    → Started mem s c n mem' s' n'
unfolding write
one_more mem mem' s c n s' n' nonzero r = record {
  same_end = omega (arith, r.same_end);
  later = omega (arith, r.later);
  whole = r.whole;
  done = λ a. ground (arith, r.done a, r.later);
}

memset_bytes-Started :
    (fuel : ℕ) (mem : Memory) (s c n : ℕ)
    → n ≤ fuel
    → let (mem', (s', n')) = memset_bytes fuel mem s c n in Started mem s c n mem' s' n'
unfolding memset_bytes
memset_bytes-Started zero mem s c n h = at_start mem s c n (omega arith)
memset_bytes-Started (suc fuel) mem s c n h = elim (Bool-cases (s % 8 == 0 && n % 8 == 0)) [
  | inl stop ↦ rw (memset_bytes, stop) (at_start mem s c n (ground arith))
  | inr on ↦ elim (Bool-cases (n == 0)) [
    | inl empty ↦ rw (memset_bytes, on, empty) (at_start mem s c n (ground arith))
    | inr more ↦
        rw (memset_bytes, on, more)
          (one_more mem _ s c n _ _ (ground arith)
            (memset_bytes-Started fuel (write mem s c) (s + 1) c (n - 1) (omega arith)))
  ]
]

-- `memset` sets the `n` bytes from `s` to the low byte of `c`, and no other byte.
pub memset-filled : (mem : Memory) (s c n a : ℕ) → memset mem s c n a ≡ filled mem s (u8 c) n a
unfolding memset
memset-filled mem s c n a =
    let (mem', (s', n')) = memset_bytes n mem s (u8 c) n in
    let r = memset_bytes-Started n mem s (u8 c) n (omega arith) in joined n' s' mem' r
  where
    joined :
        (n' s' : ℕ) (mem' : Memory)
        → Started mem s (u8 c) n mem' s' n'
        → memset_words (n' / 8) mem' s' (spread (u8 c)) a ≡ filled mem s (u8 c) n a
    joined n' s' mem' r =
        ap (λ (v : ℕ). memset_words (n' / 8) mem' s' v a) (spread-reps (u8 c) (omega arith))
        ∙ memset_words-filled (u8 c) (reps (u8 c) 8)
            (λ m p b. write_bytes-filled 8 m p (u8 c) b (omega arith)) (n' / 8) mem' s' a
        ∙ ground (arith, r.same_end, r.later, r.whole, r.done a)
