-- ===== src/Queue/Deque.antt =====
-- What a queue promises: a double-ended list of at most `cap` entries.
use cardinal.Base.{
  ℕ, Bool, true, false, Option, none, some, List, [], ◌∷◌, ◌++◌, ltb, if◌then◌else◌, length,
}

module _ (cap : ℕ) where
  unfoldable pub push_back : List ℕ → ℕ → Bool × List ℕ
  push_back xs v = if ltb (length xs) cap then (true, xs ++ v ∷ []) else (false, xs)

  unfoldable pub push_front : List ℕ → ℕ → Bool × List ℕ
  push_front xs v = if ltb (length xs) cap then (true, v ∷ xs) else (false, xs)

unfoldable pub pop_front : List ℕ → Option ℕ × List ℕ
pop_front [] = (none, [])
pop_front (x ∷ xs) = (some x, xs)

unfoldable pub front : List ℕ → Option ℕ
front [] = none
front (x ∷ xs) = some x
