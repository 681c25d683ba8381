-- ===== src/Debug/Serial.antt =====
-- The serial port of kernel/src/debug.c. The port's registers are a parameter.
use cardinal.Base.{ℕ, zero, suc, ◌+◌, ◌==◌, true, false, bit_and, Outcome, ok, stuck}

-- `SERIAL_A` and `SERIAL_A_STATUS`
abbrev pub serial_a : ℕ
serial_a = 0x3f8

abbrev pub serial_a_status : ℕ
serial_a_status = serial_a + 5

pub record Ports : Type 1 where
  pub State : Type 0
  pub inb : ℕ → State → ℕ × State
  pub outb : ℕ → ℕ → State → State

module _ (P : Ports) where
  -- `while (serial_outputisready() == 0)`, for as many rounds at most.
  unfoldable pub serial_output : ℕ → ℕ → P.State → Outcome P.State
  serial_output zero c s = stuck
  serial_output (suc rounds) c s =
      let (status, s1) = P.inb serial_a_status s in
      elim (bit_and status 0x20 == 0) [
        | true ↦ serial_output rounds c s1
        | false ↦ ok (P.outb serial_a c s1)
      ]

  unfoldable pub serial_input : ℕ → P.State → Outcome (ℕ × P.State)
  serial_input zero s = stuck
  serial_input (suc rounds) s =
      let (status, s1) = P.inb serial_a_status s in
      elim (bit_and status 0x1 == 0) [
        | true ↦ serial_input rounds s1
        | false ↦ ok (P.inb serial_a s1)
      ]
