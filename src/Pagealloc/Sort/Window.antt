-- ===== src/Pagealloc/Sort/Window.antt =====
-- What moving entries about inside a window of the ring keeps.
use native.Mathlib.Nat.{mod-add-mod}
use cardinal.Base.{
  ℕ, zero, suc, ◌+◌, ◌-◌, ◌%◌, ◌≤◌, ◌<◌, ◌≡◌, ◌≢◌, refl, ◌∙◌, List, [], ◌∷◌, arith, length, get_or,
  set, length-set, get_or-set_self, get_or-set_ne, Bool-cases, ◌==◌, inl, inr, leb, ◌&&◌, false,
  if◌then◌else◌,
}
use cardinal.Queue.Span.{mod_once}

-- The sum of a weight over an array.
pub total : (ℕ → ℕ) → List ℕ → ℕ
total f [] = 0
total f (x ∷ xs) = f x + total f xs

pub total-set :
    (f : ℕ → ℕ) (xs : List ℕ) (i v : ℕ)
    → i < length xs
    → total f (set xs i v) + f (get_or xs i 0) ≡ total f xs + f v
unfolding total
total-set f [] i v h = absurd (omega arith)
total-set f (x ∷ xs) zero v h = omega arith
total-set f (x ∷ xs) (suc i) v h = omega (arith, total-set f xs i v (omega arith))

-- Different places of a window lie in different cells.
pub cells_apart : (sz a b : ℕ) → a < b → b < a + sz → a % sz ≢ b % sz
cells_apart sz a b lt near e =
    let step : (a % sz + (b - a)) % sz ≡ b % sz = rw mod-add-mod (rw regroup) in
    omega (arith, step, mod_once (a % sz + (b - a)) sz, once)
  where
    regroup : a + (b - a) ≡ b
    regroup = omega arith

    once : (a % sz + (b - a)) % sz ≢ a % sz
    once = ground (arith, mod_once (a % sz + (b - a)) sz)

module _ (sz lo hi : ℕ) where
  -- `new` holds the entries of `old`, those of the window in some other order.
  pub record Moved (old new : List ℕ) : Type 0 where
    pub same_length : length new ≡ length old
    pub weight : (f : ℕ → ℕ) → total f new ≡ total f old
    pub inside :
        (k : ℕ)
        → lo ≤ k
        → k ≤ hi
        → (k' : ℕ) × (lo ≤ k') × (k' ≤ hi) × (get_or new (k % sz) 0 ≡ get_or old (k' % sz) 0)
    pub outside :
        (c : ℕ) → ((k : ℕ) → lo ≤ k → k ≤ hi → c ≢ k % sz) → get_or new c 0 ≡ get_or old c 0

  pub Moved-refl : (old : List ℕ) → Moved old old
  Moved-refl old = record {
    same_length = refl;
    weight = λ f. refl;
    inside = λ k p q. (k, p, q, refl);
    outside = λ c out. refl;
  }

  pub Moved-trans : {old mid new : List ℕ} → Moved old mid → Moved mid new → Moved old new
  Moved-trans m n = record {
    same_length = n.same_length ∙ m.same_length;
    weight = λ f. n.weight f ∙ m.weight f;
    inside = λ k p q.
        let (k', p', q', e) = n.inside k p q in
        let (k2, p2, q2, e2) = m.inside k' p' q' in (k2, p2, q2, e ∙ e2);
    outside = λ c out. n.outside c out ∙ m.outside c out;
  }

-- A smaller window inside a larger one.
pub Moved-widen :
    (sz lo hi lo' hi' : ℕ) {old new : List ℕ}
    → lo ≤ lo'
    → hi' ≤ hi
    → hi < lo + sz
    → Moved sz lo' hi' old new
    → Moved sz lo hi old new
Moved-widen sz lo hi lo' hi' {old} {new} pl ph near m = record {
  same_length = m.same_length;
  weight = m.weight;
  inside = λ k p q. elim (Bool-cases (leb lo' k && leb k hi')) [
    | inl within ↦
        let (k', p', q', e) = m.inside k (ground arith) (ground arith) in
        (k', omega arith, omega arith, e)
    | inr without ↦ (k, p, q, m.outside (k % sz) (λ k' p' q' e. apart k p q without k' p' q' e))
  ];
  outside = λ c out. m.outside c (λ k p q. out k (omega arith) (omega arith));
}
  where
    apart :
        (k : ℕ)
        → lo ≤ k
        → k ≤ hi
        → (leb lo' k && leb k hi') ≡ false
        → (k' : ℕ) → lo' ≤ k'
        → k' ≤ hi'
        → k % sz ≢ k' % sz
    apart k p q without k' p' q' e = ground (arith, cells_apart sz k k', cells_apart sz k' k)

-- The exchange of two cells.
unfoldable pub swapped : List ℕ → ℕ → ℕ → List ℕ
swapped old a b = set (set old a (get_or old b 0)) b (get_or old a 0)

pub get-swapped :
    (old : List ℕ) (a b c : ℕ)
    → a < length old
    → b < length old
    → get_or (swapped old a b) c 0
      ≡ (if c == b then get_or old a 0 else if c == a then get_or old b 0 else get_or old c 0)
unfolding swapped
get-swapped old a b c ha hb = ground (
  arith,
  length-set old a (get_or old b 0),
  get_or-set_self (set old a (get_or old b 0)) b (get_or old a 0) 0,
  get_or-set_ne (set old a (get_or old b 0)) b c (get_or old a 0) 0,
  get_or-set_self old a (get_or old b 0) 0,
  get_or-set_ne old a c (get_or old b 0) 0,
)

total-swapped :
    (f : ℕ → ℕ) (old : List ℕ) (a b : ℕ)
    → a < length old
    → b < length old
    → a ≢ b
    → total f (swapped old a b) ≡ total f old
unfolding swapped
total-swapped f old a b ha hb ne = ground (
  arith,
  length-set old a (get_or old b 0),
  total-set f old a (get_or old b 0),
  total-set f (set old a (get_or old b 0)) b (get_or old a 0),
  get_or-set_ne old a b (get_or old b 0) 0,
)

length-swapped : (old : List ℕ) (a b : ℕ) → length (swapped old a b) ≡ length old
unfolding swapped
length-swapped old a b =
    length-set (set old a (get_or old b 0)) b (get_or old a 0) ∙ length-set old a (get_or old b 0)

-- Exchanging two places of the window moves its entries.
pub swapped-Moved :
    (sz lo hi : ℕ) (old : List ℕ) (i j : ℕ)
    → 0 < sz
    → sz ≤ length old
    → hi < lo + sz
    → lo ≤ i
    → i < j
    → j ≤ hi
    → Moved sz lo hi old (swapped old (i % sz) (j % sz))
swapped-Moved sz lo hi old i j pos fits near li ij jh = record {
  same_length = length-swapped old (i % sz) (j % sz);
  weight = λ f. total-swapped f old (i % sz) (j % sz) ia ib (cells_apart sz i j ij (omega arith));
  inside = λ k p q. elim (Bool-cases (k % sz == j % sz)) [
    | inl at_j ↦ (i, li, omega arith, ground (arith, get-swapped old (i % sz) (j % sz) (k % sz)))
    | inr off_j ↦ elim (Bool-cases (k % sz == i % sz)) [
      | inl at_i ↦ (j, omega arith, jh, ground (arith, get-swapped old (i % sz) (j % sz) (k % sz)))
      | inr off_i ↦ (k, p, q, ground (arith, get-swapped old (i % sz) (j % sz) (k % sz)))
    ]
  ];
  outside = λ c out. ground (arith, out i, out j, get-swapped old (i % sz) (j % sz) c);
}
  where
    ia : i % sz < length old
    ia = omega arith

    ib : j % sz < length old
    ib = omega arith
