-- ===== src/Vmem/Entry.antt =====
-- What the walk reads from an entry.
use cardinal.Base.{
  ℕ, ◌%◌, ◌^◌, ◌<◌, ◌≡◌, refl, ◌∙◌, ap, ◌==◌, Bool, true, false, not, if◌then◌else◌, bit_and,
  bit_or, arith,
}
use cardinal.Base.Bits.{and_or, or_zero, and_field}
use cardinal.Vmem.{
  has, present_bit, write_bit, user_bit, writethrough_bit, cachedisable_bit, writecomplete_bits,
  largepage_bit, noexec_bit, addr_mask, flag_write, flag_exec, flag_writethrough,
  flag_writecomplete, flag_uncached, flag_user,
}
use cardinal.Vmem.Walk.{entry_flags}

same_if : (c : Bool) (n : ℕ) → (if c then n else n) ≡ n
same_if true n = refl
same_if false n = refl

-- Bits outside a mask do not count.
added : (f k m : ℕ) → bit_and k m ≡ 0 → bit_and (bit_or f k) m ≡ bit_and f m
added f k m e = and_or f k m ∙ ap (bit_or (bit_and f m)) e ∙ or_zero (bit_and f m)

added_if :
    (c : Bool) (f k m : ℕ) → bit_and k m ≡ 0 → bit_and (if c then bit_or f k else f) m ≡ bit_and f m
added_if true f k m e = added f k m e
added_if false f k m e = refl

added_unless :
    (c : Bool) (f k m : ℕ) → bit_and k m ≡ 0 → bit_and (if c then f else bit_or f k) m ≡ bit_and f m
added_unless true f k m e = refl
added_unless false f k m e = added f k m e

cache_bits :
    (c1 c2 c3 : Bool) (f m : ℕ)
    → bit_and writethrough_bit m ≡ 0
    → bit_and cachedisable_bit m ≡ 0
    → bit_and writecomplete_bits m ≡ 0
    → bit_and
        (if c1
          then bit_or f writethrough_bit
          else if c2
          then bit_or f cachedisable_bit
          else if c3
          then bit_or f writecomplete_bits
          else f)
        m
      ≡ bit_and f m
cache_bits true c2 c3 f m et ec ek = added f writethrough_bit m et
cache_bits false true c3 f m et ec ek = added f cachedisable_bit m ec
cache_bits false false c3 f m et ec ek = added_if c3 f writecomplete_bits m ek

top_bit :
    (large : Bool) (f m : ℕ)
    → bit_and (if large then bit_or f largepage_bit else f) m
      ≡ (if large then bit_or (bit_and f m) (bit_and largepage_bit m) else bit_and f m)
top_bit true f m = and_or f largepage_bit m
top_bit false f m = refl

-- A mask outside the bits for access and caching reads `present_bit` and `largepage_bit` only.
entry_flags-masked :
    (perms m : ℕ) (large : Bool)
    → bit_and write_bit m ≡ 0
    → bit_and noexec_bit m ≡ 0
    → bit_and writethrough_bit m ≡ 0
    → bit_and cachedisable_bit m ≡ 0
    → bit_and writecomplete_bits m ≡ 0
    → bit_and user_bit m ≡ 0
    → bit_and (entry_flags perms large) m ≡ (
        if large
        then bit_or (bit_and present_bit m) (bit_and largepage_bit m)
        else bit_and present_bit m)
unfolding entry_flags
entry_flags-masked perms m large ew en et ec ek eu =
    top_bit large _ m
    ∙ ap (λ (t : ℕ). if large then bit_or t (bit_and largepage_bit m) else t)
        (added_if (has perms flag_user) _ user_bit m eu
          ∙ cache_bits (has perms flag_writethrough) (has perms flag_uncached)
              (has perms flag_writecomplete) _ m et ec ek
          ∙ added_unless (has perms flag_exec) _ noexec_bit m en
          ∙ added_if (has perms flag_write) present_bit write_bit m ew)

-- What an entry says: that it is present, where it leads, and whether it is a large page.
pub record Shows (e addr : ℕ) (large : Bool) : Type 0 where
  pub present : has e present_bit ≡ true
  pub leads : bit_and e addr_mask ≡ addr
  pub size_bit : has e largepage_bit ≡ large

-- An aligned address below 2 ^ 52 is what the mask keeps.
aligned_mask : (a : ℕ) → a % 4096 ≡ 0 → a < 2 ^ 52 → bit_and a addr_mask ≡ a
aligned_mask a al lt = omega (arith, and_field 40 12 a)

low_mask : (a : ℕ) → a % 4096 ≡ 0 → (bit_and a present_bit ≡ 0) × (bit_and a largepage_bit ≡ 0)
low_mask a al = (omega (arith, and_field 1 0 a), omega (arith, and_field 1 7 a))

-- The entry that joins an aligned address with bits outside the mask.
joined-Shows :
    (phys f : ℕ) (large : Bool)
    → phys % 4096 ≡ 0
    → phys < 2 ^ 52
    → bit_and f present_bit ≡ 1
    → bit_and f addr_mask ≡ 0
    → bit_and f largepage_bit ≡ (if large then largepage_bit else 0)
    → Shows (bit_or (bit_and phys addr_mask) f) phys large
joined-Shows phys f large al lt ep ea el = rw (aligned_mask phys al lt) (record {
  present = not_zero _ (
      and_or phys f present_bit
      ∙ ap (bit_or (bit_and phys present_bit)) ep
      ∙ rw (low_mask phys al).0 refl);
  leads =
      and_or phys f addr_mask
      ∙ ap (bit_or (bit_and phys addr_mask)) ea
      ∙ or_zero _
      ∙ aligned_mask phys al lt;
  size_bit = size_of large el;
})
  where
    not_zero : (n : ℕ) → n ≡ 1 → not (n == 0) ≡ true
    not_zero n e = rw e refl

    tested : (large : Bool) → not (bit_or 0 (if large then largepage_bit else 0) == 0) ≡ large
    tested true = refl
    tested false = refl

    size_of :
        (large : Bool)
        → bit_and f largepage_bit ≡ (if large then largepage_bit else 0)
        → has (bit_or phys f) largepage_bit ≡ large
    size_of large e =
        ap (λ (t : ℕ). not (t == 0))
          (and_or phys f largepage_bit
            ∙ ap (λ (t : ℕ). bit_or t (bit_and f largepage_bit)) (low_mask phys al).1
            ∙ ap (bit_or 0) e)
        ∙ tested large

-- The entry of a mapping.
pub entry_flags-Shows :
    (perms phys : ℕ) (large : Bool)
    → phys % 4096 ≡ 0
    → phys < 2 ^ 52
    → Shows (bit_or (bit_and phys addr_mask) (entry_flags perms large)) phys large
entry_flags-Shows perms phys large al lt =
    joined-Shows phys (entry_flags perms large) large al lt
      (entry_flags-masked perms present_bit large refl refl refl refl refl refl ∙ same_if large 1)
      (entry_flags-masked perms addr_mask large refl refl refl refl refl refl ∙ same_if large 0)
      (entry_flags-masked perms largepage_bit large refl refl refl refl refl refl)

-- A bit that none of the three reads see.
kept :
    (e k phys : ℕ) (large : Bool)
    → bit_and k present_bit ≡ 0
    → bit_and k addr_mask ≡ 0
    → bit_and k largepage_bit ≡ 0
    → Shows e phys large
    → Shows (bit_or e k) phys large
kept e k phys large ep ea el s = record {
  present = ap (λ (t : ℕ). not (t == 0)) (added e k present_bit ep) ∙ s.present;
  leads = added e k addr_mask ea ∙ s.leads;
  size_bit = ap (λ (t : ℕ). not (t == 0)) (added e k largepage_bit el) ∙ s.size_bit;
}

-- The entry of a table.
pub table-Shows :
    (phys : ℕ)
    → phys % 4096 ≡ 0
    → phys < 2 ^ 52
    → Shows
        (bit_or (bit_or (bit_or (bit_and phys addr_mask) present_bit) write_bit) user_bit)
        phys
        false
table-Shows phys al lt = kept _ user_bit phys false refl refl refl (
    kept _ write_bit phys false refl refl refl
      (joined-Shows phys present_bit false al lt refl refl refl))
