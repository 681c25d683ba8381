-- ===== src/Mp.antt =====
-- kernel/src/mp.c: thread-local storage, and the registers of a new task. `mp_init` has no code left
-- but comments; the write of the GS base register is the value that `mp_tls_setup` returns.
pub mod Storage
mod Tests
use cardinal.Base.{
  ℕ, zero, suc, ◌+◌, ◌*◌, ◌^◌, ◌==◌, leb, ltb, Bool, true, false, if◌then◌else◌, Option, none, some,
  List, [], ◌∷◌, kib, u32, Outcome, ok, panic, stuck, ◌>>=◌,
}
use cardinal.Interrupts.Frame.{RegisterState}

abbrev pub tls_size : ℕ
tls_size = kib 16

-- `pos`, `mp_loc` and `coreCount`. Sizes are non-negative and sums fit the `int`.
pub record Cores : Type 0 where
  pub pos : ℕ
  pub mp_loc : ℕ
  pub core_count : ℕ
  pub core_ready : Bool

unfoldable pub mp_corecount : Cores → ℕ
mp_corecount s = s.core_count

-- `mp_signalready` up to the loop that it stays in.
unfoldable pub mp_signalready : Cores → Cores
mp_signalready s = record s { core_count = s.core_count + 1; core_ready = true }

-- What is written to the GS base, or none for -1; `malloc` is a parameter, 0 is NULL.
unfoldable pub mp_tls_setup : (ℕ → ℕ) → Option ℕ
mp_tls_setup malloc = if malloc tls_size == 0 then none else some (malloc tls_size)

unfoldable pub mp_tls_alloc : ℕ → Cores → Outcome (ℕ × Cores)
mp_tls_alloc bytes s = elim (s.mp_loc == 0) [
  | false ↦ stuck
  | true ↦ elim (leb tls_size (s.pos + bytes)) [
    | true ↦ panic
    | false ↦ ok (s.pos, record s { pos = s.pos + bytes })
  ]
]

-- NULL beyond the storage. An offset of 0 is NULL as well.
unfoldable pub mp_tls_get : ℕ → ℕ
mp_tls_get off = if leb tls_size off then 0 else off

unfoldable pub mp_platform_getdefaultstate : ℕ → ℕ → ℕ → ℕ → RegisterState
mp_platform_getdefaultstate stackpointer instr_ptr args0 args1 = record {
  r15 = 0;
  r14 = 0;
  r13 = 0;
  r12 = 0;
  r11 = 0;
  r10 = 0;
  r9 = 0;
  r8 = 0;
  rdi = args0;
  rsi = args1;
  rdx = 0;
  rcx = 0;
  rbx = 0;
  rax = 0;
  rflags = 0x200;
  rip = instr_ptr;
  cs = 8;
  ss = 16;
  rbp = stackpointer;
  rsp = stackpointer;
}

-- 20 registers of 8 bytes.
unfoldable pub mp_platform_getstatesize : ℕ
mp_platform_getstatesize = 20 * 8

-- `mp_platform_getstate` and `mp_platform_setstate`: what they did with the buffer is commented out.
unfoldable pub mp_platform_getstate : ℕ → Outcome (Unit {0})
mp_platform_getstate buf = if buf == 0 then panic else ok tt

unfoldable pub mp_platform_setstate : ℕ → Outcome (Unit {0})
mp_platform_setstate buf = if buf == 0 then panic else ok tt
