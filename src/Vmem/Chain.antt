-- ===== src/Vmem/Chain.antt =====
-- What `vmem_map_st` needs on the way to the table that it fills.
use cardinal.Base.{
  All, ℕ, zero, suc, ◌+◌, ◌%◌, ◌^◌, ◌<◌, ◌≡◌, ◌≢◌, ◌⊎◌, inr, refl, ◌∙◌, ap, false, List, [], ◌∷◌,
  bit_and, bit_or, ok,
}
use cardinal.Vmem.{
  Table, page, same_table, Entries, write, clear, Config, table_at, index, has, present_bit,
  write_bit, user_bit, addr_mask,
}
use cardinal.Vmem.Walk.{PageSource}
use cardinal.Vmem.Entry.{Shows, table-Shows}
use cardinal.Vmem.Fill.{same_table_self, same_table-sym, write_self}

-- `d` more levels.
abbrev pub more : ℕ → ℕ → ℕ
more zero left = left
more (suc d) left = suc (more d left)

-- A table apart from those on the way to it.
abbrev pub Fresh : Table → List Table → Type 0
Fresh t seen = All (λ u. same_table t u ≡ false) seen

-- The tables are as they were.
abbrev pub Same : List Table → Entries → Entries → Type 0
Same seen old new = All (λ u. (i : ℕ) → new u i ≡ old u i) seen

pub Same-refl : (seen : List Table) (es : Entries) → Same seen es es
Same-refl [] es = tt
Same-refl (t ∷ seen) es = (λ i. refl, Same-refl seen es)

pub Same-trans :
    (seen : List Table) (a b c : Entries) → Same seen a b → Same seen b c → Same seen a c
Same-trans [] a b c p q = tt
Same-trans (t ∷ seen) a b c (p, ps) (q, qs) = (λ i. q i ∙ p i, Same-trans seen a b c ps qs)

-- Changes of a table that is apart from all of them.
pub Same-apart :
    (seen : List Table) (t : Table) (old new : Entries)
    → Fresh t seen
    → ((u : Table) (i : ℕ) → same_table t u ≡ false → new u i ≡ old u i)
    → Same seen old new
Same-apart [] t old new f h = tt
Same-apart (u ∷ seen) t old new (f, fs) h = (λ i. h u i f, Same-apart seen t old new fs h)

-- The entry of a new table.
abbrev pub table_entry : ℕ → ℕ
table_entry a = bit_or (bit_or (bit_or (bit_and a addr_mask) present_bit) write_bit) user_bit

-- The tables once the page `a` is linked below the entry `idx` of `t`.
abbrev pub linked : Entries → Table → ℕ → ℕ → Entries
linked es t idx a = write (clear es (page a)) t idx (table_entry a)

pub linked-Shows :
    (es : Entries) (t : Table) (idx a : ℕ)
    → a % 4096 ≡ 0
    → a < 2 ^ 52
    → Shows (linked es t idx a t idx) a false
linked-Shows es t idx a al lt = rw write_self (table-Shows a al lt)

pub linked-Same :
    (seen : List Table) (es : Entries) (t : Table) (idx a : ℕ)
    → Fresh t seen
    → Fresh (page a) seen
    → Same seen es (linked es t idx a)
unfolding write clear
linked-Same [] es t idx a f g = tt
linked-Same (u ∷ seen) es t idx a (f, fs) (g, gs) =
    (λ i. rw (f, g) refl, linked-Same seen es t idx a fs gs)

module _ (P : PageSource) (cfg : Config) where
  -- The page that the source gives can hold a table, and is none of those in use.
  pub record Gives (seen : List Table) (src : P.State) (a : ℕ) (src' : P.State) : Type 0 where
    pub run : P.alloc src ≡ ok (a, src')
    pub nonzero : a ≢ 0
    pub aligned : a % 4096 ≡ 0
    pub small : a < 2 ^ 52
    pub mapped : table_at cfg a ≡ ok (page a)
    pub fresh : Fresh (page a) seen

  -- The source gives `d` pages, each none of those in use before.
  abbrev pub Supply : ℕ → List Table → P.State → Type 0
  Supply zero seen src = Unit {0}
  Supply (suc d) seen src =
      (a : ℕ) × (src' : P.State) × Gives seen src a src' × Supply d (page a ∷ seen) src'

  module _ (virt n : ℕ) where
    -- `d` levels above the table to fill: each table of the way is there or can be allocated, and no
    -- table comes twice; in the last one the `n` entries are free.
    abbrev pub Chain : ℕ → ℕ → Table → List Table → Entries → P.State → Type 0
    Chain zero lv t seen es src =
        Fresh t seen × ((k : ℕ) → k < n → has (es t (index lv virt + k)) present_bit ≡ false)
    Chain (suc d) lv t seen es src =
        Fresh t seen
        × (((next : ℕ) × Shows (es t (index lv virt)) next false
              × (next ≢ 0)
              × (table_at cfg next ≡ ok (page next))
              × Chain d (lv + 1) (page next) (t ∷ seen) es src)
            ⊎ ((bit_and (es t (index lv virt)) addr_mask ≡ 0)
                × (a : ℕ) × (src' : P.State) × Gives (t ∷ seen) src a src'
                × Chain d (lv + 1) (page a) (t ∷ seen) (linked es t (index lv virt) a) src'))

    linked-empty :
        (es : Entries) (t : Table) (idx a i : ℕ)
        → same_table t (page a) ≡ false
        → linked es t idx a (page a) i ≡ 0
    unfolding write clear
    linked-empty es t idx a i apart = let s = same_table_self (page a) in rw (apart, s) refl

    -- Below an empty table a supply of pages is enough.
    pub empty-Chain :
        (d lv : ℕ) (t : Table) (seen : List Table) (es : Entries) (src : P.State)
        → Fresh t seen
        → ((i : ℕ) → es t i ≡ 0)
        → Supply d (t ∷ seen) src
        → Chain d lv t seen es src
    empty-Chain zero lv t seen es src f empty supply =
        (f, λ k lt. ap (λ (e : ℕ). has e present_bit) (empty _))
    empty-Chain (suc d) lv t seen es src f empty (a, src', g, rest) = (
      f,
      inr (
        ap (λ (e : ℕ). bit_and e addr_mask) (empty _),
        a,
        src',
        g,
        empty-Chain d (lv + 1) (page a) (t ∷ seen) (linked es t (index lv virt) a) src' g.fresh
            (λ i. linked-empty es t (index lv virt) a i (apart g.fresh.0)) rest,
      ),
    )
      where
        apart : same_table (page a) t ≡ false → same_table t (page a) ≡ false
        apart h = same_table-sym (page a) t ∙ h
