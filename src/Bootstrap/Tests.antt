-- ===== src/Bootstrap/Tests.antt =====
-- The theorems about the early allocator at a concrete area.
use cardinal.Base.{ℕ, ◌≡◌, refl, Option, List, [], ◌∷◌, ok, arith}
use cardinal.Bootstrap.{Area, round16}
use cardinal.Bootstrap.Layout.{IsArea, Layout, allocate_all, allocate_all-Layout}

abbrev used : Area
used = record { pos = 32; lock = 0 }

used-IsArea : IsArea used
used-IsArea = record { unlocked = refl; aligned = refl; inside = omega arith }

allocate_all-Layout_example :
    (ps : List (Option ℕ)) × (a' : Area) × (allocate_all (5 ∷ 0 ∷ 32 ∷ []) used ≡ ok (ps, a'))
    × IsArea a'
    × Layout 32 (5 ∷ 0 ∷ 32 ∷ []) ps a'.pos
allocate_all-Layout_example =
    allocate_all-Layout (5 ∷ 0 ∷ 32 ∷ []) used used-IsArea
      (omega arith, (omega arith, (omega arith, tt)))

round16_five : round16 5 ≡ 16
unfolding round16
round16_five = refl
