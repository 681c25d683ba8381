-- ===== src/Interrupts/Allocate.antt =====
-- `interrupt_allocate` returns with the lock free, and gives out a run of vectors that were free.
use cardinal.Base.{
  ℕ, ◌+◌, ◌≤◌, ◌≡◌, refl, ap, leb, Bool, true, false, ◌||◌, ltb, ◌&&◌, List, length, ok, arith,
  Bool-cases, Option-cases, inl, inr, ◌⊎◌, >>=-ok,
}
use cardinal.Interrupts.{
  Interrupts, acquire, release, any_blocked, block_if, find_run, allocate_fixed, allocate_any,
  interrupt_allocate, has_flag, exclusive, fixed,
}
use cardinal.Interrupts.Runs.{
  is_blocked, any_blocked-none, length-block_run, block_run-out, block_run-in, IsFree,
  find_run-IsFree, find_run-none,
}

-- Whether the vector is in the run.
abbrev pub in_run : ℕ → ℕ → ℕ → Bool
in_run base cnt v = leb base v && ltb v (base + cnt)

block_if-each :
    (flags : ℕ) (blocked : List Bool) (base cnt v : ℕ)
    → base + cnt ≤ length blocked
    → is_blocked (block_if flags blocked base cnt) v
      ≡ is_blocked blocked v || (has_flag flags exclusive && in_run base cnt v)
block_if-each flags blocked base cnt v room =
    ground (arith, block_run-in blocked base cnt v, block_run-out blocked base cnt v)

-- What a call that returns 0 has done: the run was free, only an exclusive request blocks it, and
-- the lock and the interrupt flag are as before.
pub record Given (cnt flags base : ℕ) (s s' : Interrupts) : Type 0 where
  pub free : IsFree s.blocked base cnt
  pub each :
      (v : ℕ)
      → is_blocked s'.blocked v
        ≡ is_blocked s.blocked v || (has_flag flags exclusive && in_run base cnt v)
  pub same_size : length s'.blocked ≡ length s.blocked
  pub same_funcs : s'.funcs ≡ s.funcs
  pub unlocked : s'.lock ≡ 0
  pub flag : s'.enabled ≡ s.enabled

length-block_if :
    (flags : ℕ) (blocked : List Bool) (base cnt : ℕ)
    → length (block_if flags blocked base cnt) ≡ length blocked
length-block_if flags blocked base cnt = ground (arith, length-block_run blocked base cnt)

abbrev pub held : Interrupts → Interrupts
held s = record s { lock = 1; enabled = false }

pub acquire_free : (s : Interrupts) → s.lock ≡ 0 → acquire s ≡ ok (s.enabled, held s)
unfolding acquire
acquire_free s e = rw e refl

given :
    (cnt flags base : ℕ) (s : Interrupts)
    → base + cnt ≤ length s.blocked
    → IsFree s.blocked base cnt
    → Given cnt flags base s
        (release s.enabled (record (held s) { blocked = block_if flags s.blocked base cnt }))
unfolding release
given cnt flags base s room free = record {
  free = free;
  each = λ v. block_if-each flags s.blocked base cnt v room;
  same_size = length-block_if flags s.blocked base cnt;
  same_funcs = refl;
  unlocked = refl;
  flag = ground arith;
}

pub refused : (s : Interrupts) → s.lock ≡ 0 → release s.enabled (held s) ≡ s
unfolding release
refused s e = ground arith

-- With the lock free and the run inside the table, the fixed request of `interrupt_allocate`
-- gives out exactly the run that was asked for or, where one of its vectors is blocked, refuses
-- and changes nothing.
allocate_fixed-Given :
    (cnt flags base : ℕ) (s : Interrupts)
    → s.lock ≡ 0
    → base + cnt ≤ length s.blocked
    → ((s' : Interrupts) × (allocate_fixed cnt flags base s ≡ ok (true, s'))
        × Given cnt flags base s s')
      ⊎ ((allocate_fixed cnt flags base s ≡ ok (false, s))
          × (any_blocked s.blocked base cnt ≡ true))
unfolding allocate_fixed
allocate_fixed-Given cnt flags base s free_lock room =
    elim (Bool-cases (any_blocked s.blocked base cnt)) [
      | inl taken ↦ inr (
        >>=-ok _ _ (acquire_free s free_lock)
            (rw taken (ap (λ t. ok (false, t)) (refused s free_lock))),
        taken,
      )
      | inr none_taken ↦ inl (
        _,
        >>=-ok _ _ (acquire_free s free_lock) (rw none_taken refl),
        given cnt flags base s room (any_blocked-none s.blocked base cnt none_taken),
      )
    ]

-- The search with the lock free.
allocate_any-cases :
    (cnt flags base : ℕ) (s : Interrupts)
    → s.lock ≡ 0
    → length s.blocked ≡ 256
    → ((b : ℕ) × (s' : Interrupts) × (allocate_any cnt flags base s ≡ ok (true, (b, s')))
        × (32 ≤ b)
        × (b + cnt ≤ 255)
        × Given cnt flags b s s')
      ⊎ ((allocate_any cnt flags base s ≡ ok (false, (base, s)))
          × ((b : ℕ) → 32 ≤ b → b + cnt ≤ 255 → ¬ IsFree s.blocked b cnt))
unfolding allocate_any
allocate_any-cases cnt flags base s free_lock size =
    elim (Option-cases (find_run 224 s.blocked cnt 32 32 0)) [
      | inl nothing ↦ inr (
        >>=-ok _ _ (acquire_free s free_lock)
            (rw nothing (ap (λ t. ok (false, (base, t))) (refused s free_lock))),
        λ b lo hi run.
            find_run-none 224 s.blocked cnt 32 32 0 b (omega arith) (omega arith) nothing lo
              (omega arith) run,
      )
      | inr (b, found) ↦
          let (lo, hi, run) =
            find_run-IsFree 224 s.blocked cnt 32 32 0 b (omega arith)
              (λ v p q. absurd (omega arith)) found in
          inl (
            b,
            _,
            >>=-ok _ _ (acquire_free s free_lock) (rw found refl),
            lo,
            omega arith,
            given cnt flags b s (omega arith) run,
          )
    ]

no_wish :
    (cnt flags : ℕ) (s : Interrupts)
    → has_flag flags fixed ≡ false
    → interrupt_allocate cnt flags 0 s ≡ allocate_any cnt flags 0 s
unfolding interrupt_allocate
no_wish cnt flags s h = rw (h, interrupt_allocate) refl

-- With the lock free and 256 vectors, `interrupt_allocate` without `fixed` and with 0 in
-- `*base` gives out a free run between 32 and 254 and blocks it for an exclusive request; it
-- refuses, and changes nothing, only if there is no such run.
pub interrupt_allocate-Given :
    (cnt flags : ℕ) (s : Interrupts)
    → s.lock ≡ 0
    → length s.blocked ≡ 256
    → has_flag flags fixed ≡ false
    → ((b : ℕ) × (s' : Interrupts) × (interrupt_allocate cnt flags 0 s ≡ ok (true, (b, s')))
        × (32 ≤ b)
        × (b + cnt ≤ 255)
        × Given cnt flags b s s')
      ⊎ ((interrupt_allocate cnt flags 0 s ≡ ok (false, (0, s)))
          × ((b : ℕ) → 32 ≤ b → b + cnt ≤ 255 → ¬ IsFree s.blocked b cnt))
interrupt_allocate-Given cnt flags s free_lock size no_flag =
    rw (no_wish cnt flags s no_flag) (allocate_any-cases cnt flags 0 s free_lock size)
