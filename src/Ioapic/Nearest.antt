-- ===== src/Ioapic/Nearest.antt =====
-- The search of kernel/src/interrupts/ioapic.c for the controller of a line.
use mathlib.Core.Path.{subst}
use cardinal.Base.{
  ℕ, zero, suc, ◌+◌, ◌≤◌, ◌<◌, ◌≡◌, ◌≢◌, ◌⊎◌, inl, inr, refl, sym, ap, ◌==◌, ltb, ◌&&◌, Bool-cases,
  List, length, get_or, arith,
}
use cardinal.Ioapic.{IoApic, no_ioapic, closest_loop}

abbrev pub base_of : List IoApic → ℕ → ℕ
base_of ioapics k = (get_or ioapics k no_ioapic).global_intr_base

-- No controller from `i` on, `left` of them, has a base below the line and above `bound`.
abbrev NoneAbove : List IoApic → ℕ → ℕ → ℕ → ℕ → Type 0
NoneAbove ioapics line i left bound =
    (j : ℕ) → i ≤ j → j < i + left → base_of ioapics j < line → base_of ioapics j ≤ bound

NoneAbove-widen :
    (ioapics : List IoApic) (line i left bound : ℕ)
    → (base_of ioapics i < line → base_of ioapics i ≤ bound)
    → NoneAbove ioapics line (i + 1) left bound
    → NoneAbove ioapics line i (suc left) bound
NoneAbove-widen ioapics line i left bound here rest j le lt below = elim (Bool-cases (j == i)) [
  | inl at_i ↦
      let e : j ≡ i = ground arith in
      let same = ap (base_of ioapics) e in omega (arith, same, here (omega (arith, same)))
  | inr off ↦ let ne : j ≢ i = ground arith in rest j (omega (arith, ne)) (omega arith) below
]

-- What the loop knows at the end: it keeps what it has, or has a controller that is closer.
abbrev Closer : List IoApic → ℕ → ℕ → ℕ → ℕ → ℕ → ℕ → Type 0
Closer ioapics line i left close idx k =
    ((k ≡ idx) × NoneAbove ioapics line i left close)
    ⊎ ((base_of ioapics k < line)
        × (close < base_of ioapics k)
        × NoneAbove ioapics line i left (base_of ioapics k))

module _ (ioapics : List IoApic) (line i left close idx k : ℕ) where
  Closer-taken :
      base_of ioapics i < line
      → close < base_of ioapics i
      → Closer ioapics line (i + 1) left (base_of ioapics i) i k
      → Closer ioapics line i (suc left) close idx k
  Closer-taken below above (inl kept) =
      let same = ap (base_of ioapics) (kept.0) in
      inr (
        omega (arith, same, below),
        omega (arith, same, above),
        NoneAbove-widen ioapics line i left (base_of ioapics k) (λ lt. omega (arith, same))
            (subst (NoneAbove ioapics line (i + 1) left) (sym same) kept.1),
      )
  Closer-taken below above (inr found) = inr (
    found.0,
    omega (arith, found.1, above),
    NoneAbove-widen ioapics line i left (base_of ioapics k) (λ lt. omega (arith, found.1)) found.2,
  )

  Closer-passed :
      (base_of ioapics i < line → base_of ioapics i ≤ close)
      → Closer ioapics line (i + 1) left close idx k
      → Closer ioapics line i (suc left) close idx k
  Closer-passed not_above (inl kept) =
      inl (kept.0, NoneAbove-widen ioapics line i left close not_above kept.1)
  Closer-passed not_above (inr found) = inr (
    found.0,
    found.1,
    NoneAbove-widen ioapics line i left (base_of ioapics k)
        (λ lt. omega (arith, found.1, not_above lt)) found.2,
  )

closest_loop-Closer :
    (left : ℕ) (ioapics : List IoApic) (line i close idx : ℕ)
    → Closer ioapics line i left close idx (closest_loop left ioapics line i close idx)
unfolding closest_loop
closest_loop-Closer zero ioapics line i close idx =
    inl (refl, λ j le lt below. absurd (omega arith))
closest_loop-Closer (suc left) ioapics line i close idx =
    elim (Bool-cases (ltb (base_of ioapics i) line && ltb close (base_of ioapics i))) [
      | inl closer ↦
          rw (closest_loop, closer)
            (Closer-taken ioapics line i left close idx
              (closest_loop left ioapics line (i + 1) (base_of ioapics i) i) (ground arith)
              (ground arith) (closest_loop-Closer left ioapics line (i + 1) (base_of ioapics i) i))
      | inr farther ↦
          rw (closest_loop, farther)
            (Closer-passed ioapics line i left close idx
              (closest_loop left ioapics line (i + 1) close idx) (λ lt. ground arith)
              (closest_loop-Closer left ioapics line (i + 1) close idx))
    ]

-- The controller with the highest base below the line, or the first one if every base below it is 0.
pub record Nearest (ioapics : List IoApic) (line k : ℕ) : Type 0 where
  pub below : ((0 < base_of ioapics k) × (base_of ioapics k < line)) ⊎ (k ≡ 0)
  pub highest :
      (j : ℕ)
      → j < length ioapics
      → base_of ioapics j < line
      → base_of ioapics j ≤ base_of ioapics k

pub closest_loop-Nearest :
    (ioapics : List IoApic) (line : ℕ)
    → Nearest ioapics line (closest_loop (length ioapics) ioapics line 0 0 0)
closest_loop-Nearest ioapics line = elim (closest_loop-Closer (length ioapics) ioapics line 0 0 0) [
  | inl kept ↦ record {
    below = inr kept.0;
    highest =
        λ j lt below. let none_below = kept.1 j (omega arith) (omega arith) below in omega arith;
  }
  | inr found ↦ record {
    below = inl (found.1, found.0);
    highest = λ j lt below. found.2 j (omega arith) (omega arith) below;
  }
]
