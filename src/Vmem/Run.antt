-- ===== src/Vmem/Run.antt =====
-- The index of an address at each level of the tables, and runs of pages.
use cardinal.Base.{ℕ, zero, suc, ◌+◌, ◌-◌, ◌*◌, ◌/◌, ◌%◌, ◌^◌, ◌≤◌, ◌<◌, ◌≡◌, ap, bit_and, arith}
use cardinal.Base.Bits.{and_field}
use cardinal.Vmem.{index, level_size}

-- The index at each level, for a level of the arrays.
index-eq : (k v : ℕ) → bit_and v ((2 ^ 9 - 1) * 2 ^ k) / 2 ^ k ≡ v / 2 ^ k % 2 ^ 9 * 2 ^ k / 2 ^ k
index-eq k v = ap (λ (t : ℕ). t / 2 ^ k) (and_field 9 k v)

pub index-value : (lv v : ℕ) → lv < 4 → index lv v ≡ v / level_size lv % 512
unfolding index
index-value zero v lt = omega (arith, index-eq 39 v)
index-value (suc zero) v lt = omega (arith, index-eq 30 v)
index-value (suc (suc zero)) v lt = omega (arith, index-eq 21 v)
index-value (suc (suc (suc zero))) v lt = omega (arith, index-eq 12 v)
index-value (suc (suc (suc (suc lv)))) v lt = absurd (omega arith)

-- A run of pages of the level `lv` from an aligned address, inside one table.
pub record InTable (lv virt n : ℕ) : Type 0 where
  pub level : lv < 4
  pub aligned : virt % level_size lv ≡ 0
  pub room : index lv virt + n ≤ 512

-- Inside the run, the index counts the pages.
pub index-run :
    (lv virt n off : ℕ)
    → InTable lv virt n
    → off < n * level_size lv
    → (index lv (virt + off) ≡ index lv virt + off / level_size lv)
      × ((virt + off) % level_size lv ≡ off % level_size lv)
      × (off / level_size lv < n)
index-run zero virt n off t lt = omega (
  arith,
  t.aligned,
  t.room,
  index-value 0 virt (omega arith),
  index-value 0 (virt + off) (omega arith),
)
index-run (suc zero) virt n off t lt = omega (
  arith,
  t.aligned,
  t.room,
  index-value 1 virt (omega arith),
  index-value 1 (virt + off) (omega arith),
)
index-run (suc (suc zero)) virt n off t lt = omega (
  arith,
  t.aligned,
  t.room,
  index-value 2 virt (omega arith),
  index-value 2 (virt + off) (omega arith),
)
index-run (suc (suc (suc zero))) virt n off t lt = omega (
  arith,
  t.aligned,
  t.room,
  index-value 3 virt (omega arith),
  index-value 3 (virt + off) (omega arith),
)
index-run (suc (suc (suc (suc lv)))) virt n off t lt = absurd (omega (arith, t.level))

-- Above the run's level the index stays.
pub index-above :
    (lv leaf virt n off : ℕ)
    → lv < leaf
    → InTable leaf virt n
    → off < n * level_size leaf
    → index lv (virt + off) ≡ index lv virt
index-above lv zero virt n off above t lt = absurd (omega arith)
index-above zero (suc zero) virt n off above t lt = omega (
  arith,
  t.aligned,
  t.room,
  index-value 1 virt (omega arith),
  index-value 0 virt (omega arith),
  index-value 0 (virt + off) (omega arith),
)
index-above (suc lv) (suc zero) virt n off above t lt = absurd (omega arith)
index-above zero (suc (suc zero)) virt n off above t lt = omega (
  arith,
  t.aligned,
  t.room,
  index-value 2 virt (omega arith),
  index-value 0 virt (omega arith),
  index-value 0 (virt + off) (omega arith),
)
index-above (suc zero) (suc (suc zero)) virt n off above t lt = omega (
  arith,
  t.aligned,
  t.room,
  index-value 2 virt (omega arith),
  index-value 1 virt (omega arith),
  index-value 1 (virt + off) (omega arith),
)
index-above (suc (suc lv)) (suc (suc zero)) virt n off above t lt = absurd (omega arith)
index-above zero (suc (suc (suc zero))) virt n off above t lt = omega (
  arith,
  t.aligned,
  t.room,
  index-value 3 virt (omega arith),
  index-value 0 virt (omega arith),
  index-value 0 (virt + off) (omega arith),
)
index-above (suc zero) (suc (suc (suc zero))) virt n off above t lt = omega (
  arith,
  t.aligned,
  t.room,
  index-value 3 virt (omega arith),
  index-value 1 virt (omega arith),
  index-value 1 (virt + off) (omega arith),
)
index-above (suc (suc zero)) (suc (suc (suc zero))) virt n off above t lt = omega (
  arith,
  t.aligned,
  t.room,
  index-value 3 virt (omega arith),
  index-value 2 virt (omega arith),
  index-value 2 (virt + off) (omega arith),
)
index-above (suc (suc (suc lv))) (suc (suc (suc zero))) virt n off above t lt = absurd (omega arith)
index-above lv (suc (suc (suc (suc leaf)))) virt n off above t lt = absurd (omega (arith, t.level))
