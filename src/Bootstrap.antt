-- ===== src/Bootstrap.antt =====
-- kernel/src/bootstrap_alloc.c: the allocator of early boot, which moves a position through a fixed
-- area. A block is its offset in `bootstrap_alloc_area`; NULL is `none`.
pub mod Layout
mod Tests
use cardinal.Base.{
  ℕ, ◌+◌, ◌-◌, ◌%◌, ◌^◌, ◌==◌, ltb, Bool, true, false, not, ◌&&◌, if◌then◌else◌, Option, none, some,
  u64, ◌<<◌, ◌>>◌, mib, Outcome, ok, stuck, ◌>>=◌,
}

abbrev pub area_size : ℕ
area_size = mib 128

pub record Area : Type 0 where
  pub pos : ℕ
  pub lock : ℕ

-- Every allocation takes a multiple of 16 bytes.
unfoldable pub round16 : ℕ → ℕ
round16 s = if s % 16 == 0 then s else u64 (u64 ((s >> 4) + 1) << 4)

-- `local_spinlock_lock`, on the one processor that runs.
unfoldable pub locked : Area → Outcome Area
locked a = elim (a.lock == 0) [ true ↦ ok (record a { lock = 1 }) | false ↦ stuck ]

unfoldable pub bootstrap_malloc : ℕ → Area → Outcome (Option ℕ × Area)
bootstrap_malloc s a = elim (s == 0) [
  | true ↦ ok (none, a)
  | false ↦ locked a >>= λ a1. ok (
      if ltb (u64 (a1.pos + round16 s)) area_size
      then (some a1.pos, record { pos = u64 (a1.pos + round16 s); lock = 0 })
      else (none, record a1 { lock = 0 }))
]

unfoldable pub bootstrap_free : Option ℕ → ℕ → Area → Outcome Area
bootstrap_free none s a = ok a
bootstrap_free (some mem) s a = elim (s == 0) [
  | true ↦ ok a
  | false ↦ locked a >>= λ a1. ok (
      if ltb (round16 s) a1.pos && a1.pos - round16 s == mem
      then record { pos = a1.pos - round16 s; lock = 0 }
      else record a1 { lock = 0 })
]
