-- ===== src/Memory/Skip.antt =====
-- The inner loop of `strstr`: the next place of a character.
use cardinal.Base.{
  ℕ, zero, suc, ◌+◌, ◌-◌, ◌^◌, ◌<◌, ◌≤◌, ◌≡◌, ◌≢◌, ◌⊎◌, inl, inr, refl, ◌∙◌, ap, ◌==◌, true, false,
  sub64, Outcome, ok, Bool-cases, arith,
}
use cardinal.Memory.{Memory, strstr_skip}
use cardinal.Memory.Text.{IsText}
use cardinal.Memory.Compare.{first_bytes}

drop_one : (mem : Memory) (h n : ℕ) → IsText mem h (suc n) → IsText mem (h + 1) n
drop_one mem h n t = record {
  bytes = λ i lt e. t.bytes (suc i) (omega arith) (ap mem (omega arith) ∙ e);
  ends = ap mem (omega arith) ∙ t.ends;
}

pub drop-IsText : (mem : Memory) (h n d : ℕ) → d ≤ n → IsText mem h n → IsText mem (h + d) (n - d)
drop-IsText mem h n d le t = record {
  bytes = λ i lt e. t.bytes (d + i) (omega arith) (ap mem (omega arith) ∙ e);
  ends = ap mem (omega arith) ∙ t.ends;
}

-- Where the inner loop stops: at the end or at the character, and not before it.
pub record Skipped (mem : Memory) (h c n d : ℕ) : Type 0 where
  pub within : d ≤ n
  pub before : (i : ℕ) → i < d → mem (h + i) ≢ c
  pub stops : (d ≡ n) ⊎ ((d < n) × (mem (h + d) ≡ c))

skip_stops :
    (fuel : ℕ) (mem : Memory) (h c len : ℕ)
    → (mem h ≡ 0) ⊎ (mem h ≡ c)
    → strstr_skip (suc fuel) mem h c len ≡ ok (h, len)
unfolding strstr_skip
skip_stops fuel mem h c len (inl e) =
    let z : (mem h == 0) ≡ true = ground arith in rw (strstr_skip, z) refl
skip_stops fuel mem h c len (inr e) =
    let z : (mem h == c) ≡ true = ground arith in
    elim (Bool-cases (mem h == 0)) [
      | inl f ↦ rw (strstr_skip, f) refl
      | inr f ↦ rw (strstr_skip, f, z) refl
    ]

skip_goes_on :
    (fuel : ℕ) (mem : Memory) (h c len : ℕ)
    → mem h ≢ 0
    → mem h ≢ c
    → strstr_skip (suc fuel) mem h c len ≡ strstr_skip fuel mem (h + 1) c (sub64 len 1)
unfolding strstr_skip
skip_goes_on fuel mem h c len ne other =
    let e : (mem h == 0) ≡ false = ground arith in
    let f : (mem h == c) ≡ false = ground arith in rw (strstr_skip, e, f) refl

abbrev stopped : ℕ → ℕ → Outcome (ℕ × ℕ)
stopped at left = ok (at, left)

both : {a a' b b' : ℕ} → a ≡ a' → b ≡ b' → stopped a b ≡ stopped a' b'
both e f = rw (e, f) refl

pub strstr_skip-Skipped :
    (fuel : ℕ) (mem : Memory) (h c n : ℕ)
    → n < fuel
    → n < 2 ^ 64
    → IsText mem h n
    → (d : ℕ) × (strstr_skip fuel mem h c n ≡ ok (h + d, n - d)) × Skipped mem h c n d
strstr_skip-Skipped zero mem h c n lt small t = absurd (omega arith)
strstr_skip-Skipped (suc fuel) mem h c zero lt small t = (
  0,
  skip_stops fuel mem h c 0 (inl (ap mem (omega arith) ∙ t.ends)) ∙ both (omega arith) refl,
  record { within = omega arith; before = λ i l. absurd (omega arith); stops = inl refl },
)
strstr_skip-Skipped (suc fuel) mem h c (suc n) lt small t = elim (first_bytes (mem h) c) [
  | inl same ↦ (
    0,
    skip_stops fuel mem h c (suc n) (inr same) ∙ both (omega arith) (omega arith),
    record {
      within = omega arith;
      before = λ i l. absurd (omega arith);
      stops = inr (omega arith, ap mem (omega arith) ∙ same);
    },
  )
  | inr other ↦
      let (d, run, s) =
        strstr_skip-Skipped fuel mem (h + 1) c n (omega arith) (omega arith) (drop_one mem h n t) in
      let ne : mem h ≢ 0 = λ e. t.bytes 0 (omega arith) (ap mem (omega arith) ∙ e) in
      let less : sub64 (suc n) 1 ≡ n = omega arith in
      (
        d + 1,
        skip_goes_on fuel mem h c (suc n) ne other
            ∙ ap (λ (len : ℕ). strstr_skip fuel mem (h + 1) c len) less
            ∙ run
            ∙ both (omega arith) (omega arith),
        record {
          within = omega (arith, s.within);
          before = next d other s.before;
          stops = end d s.stops;
        },
      )
]
  where
    next :
        (d : ℕ)
        → mem h ≢ c
        → ((i : ℕ) → i < d → mem (h + 1 + i) ≢ c)
        → (i : ℕ) → i < d + 1
        → mem (h + i) ≢ c
    next d other rest zero l e = other (ap mem (omega arith) ∙ e)
    next d other rest (suc i) l e = rest i (omega arith) (ap mem (omega arith) ∙ e)

    end :
        (d : ℕ)
        → (d ≡ n) ⊎ ((d < n) × (mem (h + 1 + d) ≡ c))
        → (d + 1 ≡ suc n) ⊎ ((d + 1 < suc n) × (mem (h + (d + 1)) ≡ c))
    end d (inl e) = inl (omega arith)
    end d (inr (l, e)) = inr (omega arith, ap mem (omega arith) ∙ e)
