-- ===== src/Spinlock/Exclusion.antt =====
-- Mutual exclusion: the lock's value counts the processors that hold it.
use cardinal.Base.{
  ℕ, zero, suc, ◌+◌, ◌≤◌, ◌<◌, ◌≡◌, ◌≢◌, refl, ◌∙◌, sym, ap, ◌==◌, true, false, List, [], ◌∷◌,
  get_or, set, arith, Bool-cases, inl, inr, length,
}
use cardinal.Spinlock.{
  Phase, idle, trying, watching, asking, holding, System, phase, moved, test_and_set, Step,
  call_lock, call_trylock, try_lock, watch, trylock, unlock, Reach, here, then_step,
}

abbrev pub holds_it : Phase → ℕ
holds_it holding = 1
holds_it idle = 0
holds_it trying = 0
holds_it watching = 0
holds_it asking = 0

abbrev pub holders : List Phase → ℕ
holders [] = 0
holders (p ∷ ps) = holds_it p + holders ps

-- The lock's value is the number of its holders, and 0 or 1.
pub record IsExclusive (s : System) : Type 0 where
  pub counted : holders s.phases ≡ s.lock
  pub at_most_one : s.lock ≤ 1

holders-set :
    (ps : List Phase) (i : ℕ) (p : Phase)
    → i < length ps
    → holders (set ps i p) + holds_it (get_or ps i idle) ≡ holders ps + holds_it p
holders-set [] i p lt = absurd (omega arith)
holders-set (q ∷ ps) zero p lt = omega arith
holders-set (q ∷ ps) (suc i) p lt = omega (arith, holders-set ps i p (omega arith))

-- A processor that is not there stays idle.
holders-none :
    (ps : List Phase) (i : ℕ)
    → holds_it (get_or ps i idle) ≡ 0
    → (p : Phase) → holds_it p ≡ 0
    → holders (set ps i p) ≡ holders ps
holders-none [] i none_held p e = refl
holders-none (q ∷ ps) zero none_held p e = omega arith
holders-none (q ∷ ps) (suc i) none_held p e = omega (arith, holders-none ps i none_held p e)

holders-taken : (ps : List Phase) (i : ℕ) → get_or ps i idle ≢ idle → i < length ps
holders-taken [] i h = absurd (h refl)
holders-taken (q ∷ ps) zero h = omega arith
holders-taken (q ∷ ps) (suc i) h = omega (arith, holders-taken ps i h)

moved-IsExclusive :
    (s : System) (i : ℕ) (p : Phase)
    → IsExclusive s
    → holds_it (phase i s) ≡ 0
    → holds_it p ≡ 0
    → IsExclusive (moved i p s)
moved-IsExclusive s i p v e ep = record {
  counted = holders-none s.phases i e p ep ∙ v.counted;
  at_most_one = v.at_most_one;
}

test_and_set-IsExclusive :
    (s : System) (i : ℕ) (lost : Phase)
    → IsExclusive s
    → phase i s ≢ idle
    → holds_it (phase i s) ≡ 0
    → holds_it lost ≡ 0
    → IsExclusive (test_and_set i holding lost s)
unfolding test_and_set
test_and_set-IsExclusive s i lost v there e el = elim (Bool-cases (s.lock == 0)) [
  | inl free ↦ record {
    counted = rw free (
        omega (
          arith,
          holders-set s.phases i holding (holders-taken s.phases i there),
          v.counted,
          lock_is_free free,
        ));
    at_most_one = omega arith;
  }
  | inr held ↦ record {
    counted =
        rw held (holders-none s.phases i e lost el ∙ v.counted ∙ lock_is_one held v.at_most_one);
    at_most_one = omega arith;
  }
]
  where
    lock_is_free : (s.lock == 0) ≡ true → s.lock ≡ 0
    lock_is_free h = ground arith

    lock_is_one : (s.lock == 0) ≡ false → s.lock ≤ 1 → s.lock ≡ 1
    lock_is_one h le = ground arith

not_idle : (p : Phase) {q : Phase} → (p ≡ idle → ⊥) → q ≡ p → q ≢ idle
not_idle p h e i = h (sym e ∙ i)

-- Every step keeps mutual exclusion.
Step-IsExclusive : (i : ℕ) (s t : System) → Step i s t → IsExclusive s → IsExclusive t
Step-IsExclusive i s _ (call_lock e) v = moved-IsExclusive s i trying v (ap holds_it e) refl
Step-IsExclusive i s _ (call_trylock e) v = moved-IsExclusive s i asking v (ap holds_it e) refl
Step-IsExclusive i s _ (try_lock e) v =
    test_and_set-IsExclusive s i watching v (not_idle trying (λ p. absurd (ground arith)) e)
      (ap holds_it e) refl
Step-IsExclusive i s _ (watch e) v = elim (Bool-cases (s.lock == 0)) [
  | inl free ↦ rw free (moved-IsExclusive s i trying v (ap holds_it e) refl)
  | inr held ↦ rw held v
]
Step-IsExclusive i s _ (trylock e) v =
    test_and_set-IsExclusive s i idle v (not_idle asking (λ p. absurd (ground arith)) e)
      (ap holds_it e) refl
Step-IsExclusive i s _ (unlock e) v = record {
  counted =
      let there = holders-taken s.phases i (not_idle holding (λ p. absurd (ground arith)) e) in
      omega (arith, holders-set s.phases i idle there, ap holds_it e, v.counted, v.at_most_one);
  at_most_one = omega arith;
}

-- However the processors' steps interleave, from a free lock that nobody holds at most one processor
-- holds the lock at a time, and the lock's value says whether one does.
pub Reach-IsExclusive : (s t : System) → IsExclusive s → Reach s t → IsExclusive t
Reach-IsExclusive s _ v here = v
Reach-IsExclusive s _ v (then_step {t} {u} i r st) =
    Step-IsExclusive i t u st (Reach-IsExclusive s t v r)
