-- ===== src/Interrupts.antt =====
-- kernel/src/interrupts/idt.c: the table of interrupt handlers and the vectors that are given out.
-- One processor is followed: on a lock that is held `local_spinlock_lock` spins for good (`stuck`).
-- A handler is its address, NULL is 0. Vectors lie below 256.
pub mod Runs
pub mod Allocate
pub mod Handlers
pub mod Frame
pub mod Dispatch
pub mod Reentry
pub mod Entries
pub mod Entry
pub mod Saved
pub mod Return
pub mod Roundtrip
pub mod Resume
pub mod Switch
pub mod Gdt
pub mod TaskState
mod Tests
use cardinal.Base.{
  ℕ, zero, suc, ◌+◌, ◌-◌, ◌*◌, ◌^◌, ◌==◌, ltb, leb, Bool, true, false, not, ◌&&◌, ◌||◌,
  if◌then◌else◌, Option, none, some, List, [], ◌∷◌, get_or, set, replicate, bit_and, bit_or,
  Outcome, ok, panic, stuck, ◌>>=◌,
}

abbrev pub idt_entry_count : ℕ
idt_entry_count = 256

abbrev pub idt_handler_cnt : ℕ
idt_handler_cnt = 16

-- The file's static variables, and the interrupt flag of the processor.
pub record Interrupts : Type 0 where
  pub funcs : List (List ℕ)
  pub blocked : List Bool
  pub lock : ℕ
  pub enabled : Bool

-- `state = cli(); local_spinlock_lock(&interrupt_alloc_lock);`
unfoldable pub acquire : Interrupts → Outcome (Bool × Interrupts)
acquire s = elim (s.lock == 0) [
  | true ↦ ok (s.enabled, record s { lock = 1; enabled = false })
  | false ↦ stuck
]

-- `local_spinlock_unlock(&interrupt_alloc_lock); sti(state);`
unfoldable pub release : Bool → Interrupts → Interrupts
release state s = record s { lock = 0; enabled = state || s.enabled }

-- The first NULL of a row of handlers is replaced.
unfoldable pub fill_slot : ℕ → List ℕ → Option (List ℕ)
fill_slot handler [] = none
fill_slot handler (h ∷ row) = elim (h == 0) [
  | true ↦ some (handler ∷ row)
  | false ↦ elim (fill_slot handler row) [ none ↦ none | some row' ↦ some (h ∷ row') ]
]

unfoldable pub interrupt_registerhandler : ℕ → ℕ → Interrupts → Outcome Interrupts
interrupt_registerhandler irq handler s = do
  (state, s1) ← acquire s
  elim (fill_slot handler (get_or s1.funcs irq [])) [
    | some row ↦ ok (release state (record s1 { funcs = set s1.funcs irq row }))
    | none ↦ panic
  ]

unfoldable pub clear_slots : ℕ → List ℕ → List ℕ
clear_slots handler [] = []
clear_slots handler (h ∷ row) = (if h == handler then 0 else h) ∷ clear_slots handler row

unfoldable pub interrupt_unregisterhandler : ℕ → ℕ → Interrupts → Outcome Interrupts
interrupt_unregisterhandler irq handler s = do
  (state, s1) ← acquire s
  ok (
      release state
        (record s1 { funcs = set s1.funcs irq (clear_slots handler (get_or s1.funcs irq [])) }))

abbrev pub exclusive : ℕ
exclusive = 1

abbrev pub fixed : ℕ
fixed = 2

abbrev pub has_flag : ℕ → ℕ → Bool
has_flag flags flag = not (bit_and flags flag == 0)

-- Whether one of the `cnt` vectors from `base` is blocked.
unfoldable pub any_blocked : List Bool → ℕ → ℕ → Bool
any_blocked blocked base zero = false
any_blocked blocked base (suc cnt) = get_or blocked base false || any_blocked blocked (base + 1) cnt

unfoldable pub block_run : List Bool → ℕ → ℕ → List Bool
block_run blocked base zero = blocked
block_run blocked base (suc cnt) = block_run (set blocked base true) (base + 1) cnt

abbrev pub block_if : ℕ → List Bool → ℕ → ℕ → List Bool
block_if flags blocked base cnt =
    if has_flag flags exclusive then block_run blocked base cnt else blocked

-- With `interrupt_flags_fixed`: whether 0 is returned (not -1).
unfoldable pub allocate_fixed : ℕ → ℕ → ℕ → Interrupts → Outcome (Bool × Interrupts)
allocate_fixed cnt flags base s = do
  (state, s1) ← acquire s
  elim (any_blocked s1.blocked base cnt) [
    | true ↦ ok (false, release state s1)
    | false ↦ ok (true, release state (record s1 { blocked = block_if flags s1.blocked base cnt }))
  ]

-- The search, at the vector `i` with `left` vectors to go: the start of the run that is long enough.
unfoldable pub find_run : ℕ → List Bool → ℕ → ℕ → ℕ → ℕ → Option ℕ
find_run zero blocked cnt i run_off run_len = none
find_run (suc left) blocked cnt i run_off run_len = elim (leb cnt run_len) [
  | true ↦ some run_off
  | false ↦ elim (get_or blocked i false) [
    | true ↦ find_run left blocked cnt (i + 1) (i + 1) 0
    | false ↦ find_run left blocked cnt (i + 1) run_off (run_len + 1)
  ]
]

-- Without it: the search from vector 32.
unfoldable pub allocate_any : ℕ → ℕ → ℕ → Interrupts → Outcome (Bool × (ℕ × Interrupts))
allocate_any cnt flags base s = do
  (state, s1) ← acquire s
  elim (find_run (idt_entry_count - 32) s1.blocked cnt 32 32 0) [
    | some run_off ↦ ok (
      true,
      (run_off, release state (record s1 { blocked = block_if flags s1.blocked run_off cnt })),
    )
    | none ↦ ok (false, (base, release state s1))
  ]

-- Whether 0 is returned, what `*base` is left as, and the state.
unfoldable pub interrupt_allocate : ℕ → ℕ → ℕ → Interrupts → Outcome (Bool × (ℕ × Interrupts))
interrupt_allocate cnt flags base s = elim (has_flag flags fixed) [
  | true ↦ allocate_fixed cnt flags base s >>= λ (done, s'). ok (done, (base, s'))
  | false ↦ elim (base == 0) [
    | true ↦ allocate_any cnt flags base s
    | false ↦ allocate_fixed cnt (bit_or flags fixed) base s >>= λ (done, s'). elim done [
      | true ↦ ok (true, (base, s'))
      | false ↦ allocate_any cnt flags base s'
    ]
  ]
]
