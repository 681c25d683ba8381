-- ===== src/Spinlock/Tests.antt =====
-- Mutual exclusion for two processors.
use cardinal.Base.{refl, [], ◌∷◌, arith}
use cardinal.Spinlock.{
  idle, watching, holding, System, test_and_set, call_lock, try_lock, Reach, here, then_step,
}
use cardinal.Spinlock.Exclusion.{IsExclusive, Reach-IsExclusive}

abbrev start : System
start = record { lock = 0; phases = idle ∷ idle ∷ [] }

abbrev contended : System
contended = record { lock = 1; phases = holding ∷ watching ∷ [] }

start-IsExclusive : IsExclusive start
start-IsExclusive = record { counted = refl; at_most_one = omega arith }

both : Reach start contended
unfolding test_and_set
both =
    then_step 1
      (then_step 1 (then_step 0 (then_step 0 here (call_lock refl)) (try_lock refl))
        (call_lock refl))
      (try_lock refl)

Reach-IsExclusive_example : IsExclusive contended
Reach-IsExclusive_example = Reach-IsExclusive start contended start-IsExclusive both
