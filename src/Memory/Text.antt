-- ===== src/Memory/Text.antt =====
-- `strlen`, `strcmp`, `strncmp`, `strchr` and `strrchr` on terminated strings.
use cardinal.Base.{
  ℕ, zero, suc, ◌+◌, ◌<◌, ◌≡◌, ◌≢◌, ◌⊎◌, ◌∙◌, ap, ◌==◌, arith, none, some, Outcome, ok, u8, inl,
  inr, Bool-cases,
}
use cardinal.Memory.{
  Memory, Difference, difference, strlen_loop, strlen, strcmp, strchr_loop, strrchr_loop, strrchr,
}

-- A string of `k` bytes and its terminator.
pub record IsText (mem : Memory) (s k : ℕ) : Type 0 where
  pub bytes : (i : ℕ) → i < k → mem (s + i) ≢ 0
  pub ends : mem (s + k) ≡ 0

shifted : (mem : Memory) (s k : ℕ) → IsText mem s (suc k) → IsText mem (s + 1) k
shifted mem s k t = record {
  bytes = λ i lt e. t.bytes (suc i) (omega arith) (ap mem (omega arith) ∙ e);
  ends = ap mem (omega arith) ∙ t.ends;
}

strlen_loop-length :
    (fuel : ℕ) (mem : Memory) (s n k : ℕ)
    → IsText mem (s + n) k
    → k < fuel
    → strlen_loop fuel mem s n ≡ ok (n + k)
unfolding strlen_loop
strlen_loop-length zero mem s n k t lt = absurd (omega arith)
strlen_loop-length (suc fuel) mem s n zero t lt =
    let here : mem (s + n) ≡ 0 = ap mem (omega arith) ∙ t.ends in ground arith
strlen_loop-length (suc fuel) mem s n (suc k) t lt =
    let more : mem (s + n) ≢ 0 = λ e. t.bytes 0 (omega arith) (ap mem (omega arith) ∙ e) in
    let rest : strlen_loop fuel mem s (n + 1) ≡ ok (n + 1 + k) =
      strlen_loop-length fuel mem s (n + 1) k (tail (shifted mem (s + n) k t)) (omega arith) in
    ground arith
  where
    tail : IsText mem (s + n + 1) k → IsText mem (s + (n + 1)) k
    tail r = record {
      bytes = λ i l e. r.bytes i l (ap mem (omega arith) ∙ e);
      ends = ap mem (omega arith) ∙ r.ends;
    }

-- `strlen` returns the length of a terminated string; one byte more than the string is looked at.
pub strlen-length :
    (fuel : ℕ) (mem : Memory) (s k : ℕ)
    → s ≢ 0
    → IsText mem s k
    → k < fuel
    → strlen fuel mem s ≡ ok k
unfolding strlen
strlen-length fuel mem s k nonnull t lt =
    let run = strlen_loop-length fuel mem s 0 k start lt in ground arith
  where
    start : IsText mem (s + 0) k
    start = record {
      bytes = λ i l e. t.bytes i l (ap mem (omega arith) ∙ e);
      ends = ap mem (omega arith) ∙ t.ends;
    }

-- The sign of the difference of two bytes read as signed characters.
abbrev pub signed_difference : ℕ → ℕ → Difference
signed_difference a b = difference (u8 (a + 128)) (u8 (b + 128))

-- `strcmp` returns the difference at the first place where the strings differ or end.
strcmp-first :
    (fuel : ℕ) (mem : Memory) (s1 s2 j : ℕ)
    → ((i : ℕ) → i < j → mem (s1 + i) ≡ mem (s2 + i))
    → ((i : ℕ) → i < j → mem (s1 + i) ≢ 0)
    → (mem (s1 + j) ≢ mem (s2 + j)) ⊎ (mem (s1 + j) ≡ 0)
    → j < fuel
    → strcmp fuel mem s1 s2 ≡ ok (signed_difference (mem (s1 + j)) (mem (s2 + j)))
unfolding strcmp
strcmp-first zero mem s1 s2 j same some_byte stop lt = absurd (omega arith)
strcmp-first (suc fuel) mem s1 s2 zero same some_byte stop lt =
    let e1 : mem (s1 + 0) ≡ mem s1 = ap mem (omega arith) in
    let e2 : mem (s2 + 0) ≡ mem s2 = ap mem (omega arith) in
    rw (e1, e2) (stops (rw (e1, e2) at stop))
  where
    stops :
        (mem s1 ≢ mem s2) ⊎ (mem s1 ≡ 0)
        → strcmp (suc fuel) mem s1 s2 ≡ ok (signed_difference (mem s1) (mem s2))
    stops h = ground arith
strcmp-first (suc fuel) mem s1 s2 (suc j) same some_byte stop lt =
    let e1 : mem (s1 + suc j) ≡ mem (s1 + 1 + j) = ap mem (omega arith) in
    let e2 : mem (s2 + suc j) ≡ mem (s2 + 1 + j) = ap mem (omega arith) in
    let here : mem s1 ≡ mem s2 =
      ap mem (omega arith) ∙ same 0 (omega arith) ∙ ap mem (omega arith) in
    let there : mem s1 ≢ 0 = λ e. some_byte 0 (omega arith) (ap mem (omega arith) ∙ e) in
    let rest =
      strcmp-first fuel mem (s1 + 1) (s2 + 1) j
        (λ i l. ap mem (omega arith) ∙ same (suc i) (omega arith) ∙ ap mem (omega arith))
        (λ i l e. some_byte (suc i) (omega arith) (ap mem (omega arith) ∙ e)) (rw (e1, e2) at stop)
        (omega arith) in
    rw (e1, e2) (goes_on here there rest)
  where
    goes_on :
        {d : Outcome Difference}
        → mem s1 ≡ mem s2
        → mem s1 ≢ 0
        → strcmp fuel mem (s1 + 1) (s2 + 1) ≡ d
        → strcmp (suc fuel) mem s1 s2 ≡ d
    goes_on e ne r = ground arith

-- `strchr` finds the first place of a character before the end.
strchr_loop-first :
    (fuel : ℕ) (mem : Memory) (s c j : ℕ)
    → ((i : ℕ) → i < j → mem (s + i) ≢ c)
    → ((i : ℕ) → i < j → mem (s + i) ≢ 0)
    → mem (s + j) ≡ c
    → j < fuel
    → strchr_loop fuel mem s c ≡ ok (some (s + j))
unfolding strchr_loop
strchr_loop-first zero mem s c j other some_byte hit lt = absurd (omega arith)
strchr_loop-first (suc fuel) mem s c zero other some_byte hit lt =
    let here : mem s ≡ c = ap mem (omega arith) ∙ hit in ground arith
strchr_loop-first (suc fuel) mem s c (suc j) other some_byte hit lt =
    let miss : mem s ≢ c = λ e. other 0 (omega arith) (ap mem (omega arith) ∙ e) in
    let there : mem s ≢ 0 = λ e. some_byte 0 (omega arith) (ap mem (omega arith) ∙ e) in
    let rest : strchr_loop fuel mem (s + 1) c ≡ ok (some (s + 1 + j)) =
      strchr_loop-first fuel mem (s + 1) c j
        (λ i l e. other (suc i) (omega arith) (ap mem (omega arith) ∙ e))
        (λ i l e. some_byte (suc i) (omega arith) (ap mem (omega arith) ∙ e))
        (ap mem (omega arith) ∙ hit) (omega arith) in
    ground arith

strrchr_loop-none :
    (fuel : ℕ) (mem : Memory) (s c k : ℕ)
    → IsText mem (s + 1) k
    → ((i : ℕ) → i < k → mem (s + 1 + i) ≢ c)
    → k < fuel
    → strrchr_loop fuel mem s c none ≡ ok none
unfolding strrchr_loop
strrchr_loop-none zero mem s c k t other lt = absurd (omega arith)
strrchr_loop-none (suc fuel) mem s c zero t other lt =
    let here : mem (s + 1) ≡ 0 = ap mem (omega arith) ∙ t.ends in ground arith
strrchr_loop-none (suc fuel) mem s c (suc k) t other lt =
    let there : mem (s + 1) ≢ 0 = λ e. t.bytes 0 (omega arith) (ap mem (omega arith) ∙ e) in
    let miss : mem (s + 1) ≢ c = λ e. other 0 (omega arith) (ap mem (omega arith) ∙ e) in
    let rest : strrchr_loop fuel mem (s + 1) c none ≡ ok none =
      strrchr_loop-none fuel mem (s + 1) c k (shifted mem (s + 1) k t)
        (λ i l e. other (suc i) (omega arith) (ap mem (omega arith) ∙ e)) (omega arith) in
    ground arith

-- `strrchr` does not look at the first character: where the character stands only there, it returns
-- NULL.
strrchr-misses_first :
    (fuel : ℕ) (mem : Memory) (s k : ℕ)
    → s ≢ 0
    → IsText mem s (suc k)
    → mem s < 256
    → ((i : ℕ) → i < k → mem (s + 1 + i) ≢ mem s)
    → k < fuel
    → strrchr fuel mem s (mem s) ≡ ok none
unfolding strrchr
strrchr-misses_first fuel mem s k nonnull t byte other lt =
    let same : u8 (mem s) ≡ mem s = omega arith in
    rw same (elim (Bool-cases (s == 0)) [
      | inl null ↦ absurd (ground arith)
      | inr set_pointer ↦
          rw set_pointer (strrchr_loop-none fuel mem s (mem s) k (shifted mem s k t) other lt)
    ])
