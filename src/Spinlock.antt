-- ===== src/Spinlock.antt =====
-- kernel/inc/local_spinlock.h: any number of processors on one lock, one atomic access at a step.
pub mod Exclusion
mod Tests
use cardinal.Base.{ℕ, ◌≡◌, ◌≢◌, ◌==◌, List, get_or, set, if◌then◌else◌}

-- Where a processor stands. `trying` is before `__sync_lock_test_and_set` of `local_spinlock_lock`,
-- `watching` in the inner loop, `asking` before that of `local_spinlock_trylock`, `holding` between the
-- locking and `local_spinlock_unlock`.
pub data Phase : Type 0 where
  idle trying watching asking holding : Phase

pub record System : Type 0 where
  pub lock : ℕ
  pub phases : List Phase

abbrev pub phase : ℕ → System → Phase
phase i s = get_or s.phases i idle

abbrev pub moved : ℕ → Phase → System → System
moved i p s = record s { phases = set s.phases i p }

-- What the atomic exchange writes and where it leads, by the value that it reads.
unfoldable pub test_and_set : ℕ → Phase → Phase → System → System
test_and_set i won lost s = record {
  lock = 1;
  phases = set s.phases i (if s.lock == 0 then won else lost);
}

-- One step of the processor `i`.
pub data Step (i : ℕ) (s : System) : System → Type 0 where
  call_lock : phase i s ≡ idle → Step i s (moved i trying s)
  call_trylock : phase i s ≡ idle → Step i s (moved i asking s)
  try_lock : phase i s ≡ trying → Step i s (test_and_set i holding watching s)
  watch : phase i s ≡ watching → Step i s (if s.lock == 0 then moved i trying s else s)
  trylock : phase i s ≡ asking → Step i s (test_and_set i holding idle s)
  unlock : phase i s ≡ holding → Step i s (record (moved i idle s) { lock = 0 })

-- What a sequence of steps leads to.
pub data Reach (s : System) : System → Type 0 where
  here : Reach s s
  then_step : {t u : System} (i : ℕ) → Reach s t → Step i t u → Reach s u
