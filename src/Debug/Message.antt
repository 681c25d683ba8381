-- ===== src/Debug/Message.antt =====
-- Strings in memory, and what `strncpy` of kernel/src/memory.c makes of an array with an older one.
use cardinal.Base.{
  ℕ, zero, suc, ◌+◌, ◌-◌, ◌<◌, ◌≤◌, ◌≡◌, ◌≢◌, ◌⊎◌, inl, inr, refl, sym, ◌∙◌, ap, ◌==◌, true, false,
  ltb, List, [], ◌∷◌, ◌++◌, Outcome, ok, stuck, ok->>=, ◌>>=◌, Bool-cases, arith,
}
use cardinal.Memory.{Memory, write, strncpy_loop}
use cardinal.Memory.Copy.{copied}
use cardinal.Memory.Text.{IsText}

-- The string at an address, of fewer characters than `size`: the array it stands in is no longer.
unfoldable pub text_at : ℕ → Memory → ℕ → Outcome (List ℕ)
text_at zero mem p = stuck
text_at (suc size) mem p = elim (mem p == 0) [
  | true ↦ ok []
  | false ↦ text_at size mem (p + 1) >>= λ rest. ok (mem p ∷ rest)
]

-- `k` characters.
abbrev pub chars : Memory → ℕ → ℕ → List ℕ
chars mem p zero = []
chars mem p (suc k) = mem p ∷ chars mem (p + 1) k

text_at-chars :
    (size : ℕ) (mem : Memory) (p k : ℕ)
    → IsText mem p k
    → k < size
    → text_at size mem p ≡ ok (chars mem p k)
unfolding text_at
text_at-chars zero mem p k t lt = absurd (omega arith)
text_at-chars (suc size) mem p zero t lt =
    let here : mem p ≡ 0 = ap mem (omega arith) ∙ t.ends in
    let e : (mem p == 0) ≡ true = ground arith in rw (text_at, e) refl
text_at-chars (suc size) mem p (suc k) t lt =
    let here : mem p ≢ 0 = λ e. t.bytes 0 (omega arith) (ap mem (omega arith) ∙ e) in
    let e : (mem p == 0) ≡ false = ground arith in
    rw (text_at, e) (ok->>= _ (text_at-chars size mem (p + 1) k (tail t) (omega arith)))
  where
    tail : IsText mem p (suc k) → IsText mem (p + 1) k
    tail r = record {
      bytes = λ i l f. r.bytes (suc i) (omega arith) (ap mem (omega arith) ∙ f);
      ends = ap mem (omega arith) ∙ r.ends;
    }

chars-append :
    (mem : Memory) (p j k : ℕ) → chars mem p (j + k) ≡ chars mem p j ++ chars mem (p + j) k
chars-append mem p zero k =
    ap (λ (n : ℕ). chars mem p n) (omega arith) ∙ ap (λ (q : ℕ). chars mem q k) (omega arith)
chars-append mem p (suc j) k =
    let count : suc j + k ≡ suc (j + k) = omega arith in
    ap (λ (n : ℕ). chars mem p n) count
    ∙ ap (λ xs. mem p ∷ xs) (chars-append mem (p + 1) j k)
    ∙ ap (λ (q : ℕ). (mem p ∷ chars mem (p + 1) j) ++ chars mem q k) (omega arith)

chars_same :
    (mem mem' : Memory) (p q k : ℕ)
    → ((i : ℕ) → i < k → mem (p + i) ≡ mem' (q + i))
    → chars mem p k ≡ chars mem' q k
chars_same mem mem' p q zero h = refl
chars_same mem mem' p q (suc k) h =
    let first : mem p ≡ mem' q = ap mem (omega arith) ∙ h 0 (omega arith) ∙ ap mem' (omega arith) in
    let rest =
      chars_same mem mem' (p + 1) (q + 1) k
        (λ i lt. ap mem (omega arith) ∙ h (suc i) (omega arith) ∙ ap mem' (omega arith)) in
    ap (λ (c : ℕ). c ∷ chars mem (p + 1) k) first ∙ ap (λ xs. mem' q ∷ xs) rest

strncpy_loop-copied :
    (left : ℕ) (mem : Memory) (dest src i k a : ℕ)
    → IsText mem (src + i) k
    → k < left
    → (dest + k ≤ src) ⊎ (src + k < dest)
    → strncpy_loop left mem dest src i a ≡ copied mem (dest + i) (src + i) k a
unfolding strncpy_loop write
strncpy_loop-copied zero mem dest src i k a t lt apart = absurd (omega arith)
strncpy_loop-copied (suc left) mem dest src i zero a t lt apart =
    let here : mem (src + i) ≡ 0 = ap mem (omega arith) ∙ t.ends in
    let e : (mem (src + i) == 0) ≡ true = ground arith in rw (strncpy_loop, e) (ground arith)
strncpy_loop-copied (suc left) mem dest src i (suc k) a t lt apart =
    let here : mem (src + i) ≢ 0 = λ e. t.bytes 0 (omega arith) (ap mem (omega arith) ∙ e) in
    let e : (mem (src + i) == 0) ≡ false = ground arith in
    rw (strncpy_loop, e)
      (strncpy_loop-copied left (write mem (dest + i) (mem (src + i))) dest src (i + 1) k a (tail t)
          (omega arith) (omega arith)
        ∙ step)
  where
    kept :
        (j : ℕ)
        → j ≤ k
        → write mem (dest + i) (mem (src + i)) (src + (i + 1) + j) ≡ mem (src + i + suc j)
    kept j le =
        let ne : (src + (i + 1) + j == dest + i) ≡ false = ground arith in
        rw ne (ap mem (omega arith))

    tail :
        IsText mem (src + i) (suc k)
        → IsText (write mem (dest + i) (mem (src + i))) (src + (i + 1)) k
    tail r = record {
      bytes = λ j l f. r.bytes (suc j) (omega arith) (sym (kept j (omega arith)) ∙ f);
      ends = kept k (omega arith) ∙ r.ends;
    }

    step :
        copied (write mem (dest + i) (mem (src + i))) (dest + (i + 1)) (src + (i + 1)) k a
        ≡ copied mem (dest + i) (src + i) (suc k) a
    step = ground arith

-- New characters before those that were kept.
joined-IsText :
    (mem mem' : Memory) (p s k left : ℕ)
    → ((i : ℕ) → i < k → mem' (p + i) ≡ mem (s + i))
    → ((i : ℕ) → mem' (p + k + i) ≡ mem (p + k + i))
    → IsText mem s k
    → IsText mem (p + k) left
    → IsText mem' p (k + left)
joined-IsText mem mem' p s k left new kept t old = record {
  bytes = nonzero;
  ends = ap mem' (omega arith) ∙ kept left ∙ old.ends;
}
  where
    nonzero : (i : ℕ) → i < k + left → mem' (p + i) ≢ 0
    nonzero i lt e = elim (Bool-cases (ltb i k)) [
      | inl here ↦ let l : i < k = ground arith in t.bytes i l (sym (new i l) ∙ e)
      | inr there ↦
          let le : k ≤ i = ground arith in
          let at : p + k + (i - k) ≡ p + i = omega arith in
          old.bytes (i - k) (omega arith) (sym (kept (i - k)) ∙ ap mem' at ∙ e)
    ]

-- The message, and what an older one has left behind it.
pub copied_text :
    (size : ℕ) (mem : Memory) (p s k left : ℕ)
    → IsText mem s k
    → IsText mem (p + k) left
    → k + left < size
    → (p + k ≤ s) ⊎ (s + k < p)
    → text_at size (strncpy_loop size mem p s 0) p ≡ ok (chars mem s k ++ chars mem (p + k) left)
copied_text size mem p s k left t old fits apart =
    text_at-chars size mem' p (k + left) (joined-IsText mem mem' p s k left new kept t old) fits
    ∙ ap ok (chars-append mem' p k left ∙ both)
  where
    mem' : Memory
    mem' = strncpy_loop size mem p s 0

    start : IsText mem (s + 0) k
    start = record {
      bytes = λ i l e. t.bytes i l (ap mem (omega arith) ∙ e);
      ends = ap mem (omega arith) ∙ t.ends;
    }

    copy : (a : ℕ) → mem' a ≡ copied mem (p + 0) (s + 0) k a
    copy a = strncpy_loop-copied size mem p s 0 k a start (omega arith) apart

    new : (i : ℕ) → i < k → mem' (p + i) ≡ mem (s + i)
    new i lt = copy (p + i) ∙ ground arith

    kept : (i : ℕ) → mem' (p + k + i) ≡ mem (p + k + i)
    kept i = copy (p + k + i) ∙ ground arith

    both : chars mem' p k ++ chars mem' (p + k) left ≡ chars mem s k ++ chars mem (p + k) left
    both =
        ap (λ xs. xs ++ chars mem' (p + k) left) (chars_same mem' mem p s k new)
        ∙ ap (λ xs. chars mem s k ++ xs) (chars_same mem' mem (p + k) (p + k) left (λ i lt. kept i))
