-- ===== src/Ioapic/Redirect.antt =====
-- What kernel/src/interrupts/ioapic.c does to the registers of a controller.
use mathlib.Core.Path.{subst}
use cardinal.Base.{
  Each, ℕ, ◌+◌, ◌-◌, ◌*◌, ◌%◌, ◌^◌, length, ◌<◌, ◌≡◌, ◌≢◌, refl, ◌∙◌, ap, Bool, Option, none, some,
  List, [], get_or, u32, Outcome, ok, panic, stuck, ◌>>=◌, arith,
}
use cardinal.Memory.{Memory}
use cardinal.Apic.{Machine}
use cardinal.Vmem.{Config}
use cardinal.Bootinfo.{read_bytes}
use cardinal.Ioapic.{
  IoApic, IoApics, no_ioapic, map_low, map_high, ioapic_read, ioapic_write, ioapic_map,
  closest_loop, count_loop, setup_loop, overrides_loop, interrupt_mapinterrupt, ioapic_init,
}
use cardinal.Ioapic.Nearest.{Nearest, closest_loop-Nearest}
use cardinal.Ioapic.Entry.{Routed, map_low-Routed, map_high-value}

-- The documented behaviour of a controller at `base`: a write to the first word selects a register, and
-- the word at 16 is the register that is selected.
pub record Window (M : Machine) (base : ℕ) (reg : ℕ → M.State → ℕ) : Type 0 where
  pub read : (off : ℕ) (s : M.State) → M.read_word (base + 16) (M.write_word base off s) ≡ reg off s
  pub select : (r off : ℕ) (s : M.State) → reg r (M.write_word base off s) ≡ reg r s
  pub store :
      (off val : ℕ) (s : M.State)
      → reg off (M.write_word (base + 16) val (M.write_word base off s)) ≡ val
  pub apart :
      (r off val : ℕ) (s : M.State)
      → r ≢ off
      → reg r (M.write_word (base + 16) val (M.write_word base off s)) ≡ reg r s

module _ (M : Machine) (a : IoApic) (reg : ℕ → M.State → ℕ) (w : Window M a.base_addr reg) where
  -- The two words of the entry for a pin.
  abbrev pub low_index : ℕ → ℕ
  low_index pin = 0x10 + pin * 2

  abbrev pub high_index : ℕ → ℕ
  high_index pin = 0x10 + pin * 2 + 1

  -- Reading a register and writing it: the register changes, the others do not.
  read_then_write :
      (off : ℕ) (f : ℕ → ℕ) (s : M.State)
      → (reg off (ioapic_write M a off (f (ioapic_read M a off s).0) (ioapic_read M a off s).1)
          ≡ f (reg off s))
        × ((r : ℕ)
            → r ≢ off
            → reg r (ioapic_write M a off (f (ioapic_read M a off s).0) (ioapic_read M a off s).1)
              ≡ reg r s)
  unfolding ioapic_write ioapic_read
  read_then_write off f s =
      (w.store off _ _ ∙ ap f (w.read off s), λ r ne. w.apart r off _ _ ne ∙ w.select r off s)

  -- For a controller whose registers are reached as documented, and a word of 32 bits in the upper half of
  -- the pin's entry, `ioapic_map` leaves an entry with the vector, polarity and trigger that are asked for,
  -- fixed delivery and no mask, whose status bits are as before, for the processor `cpu`; no other
  -- register changes.
  pub ioapic_map-Routed :
      (cpu pin irq : ℕ) (active_low level_trigger : Bool) (s : M.State)
      → reg (high_index pin) s < 2 ^ 32
      → Routed irq active_low level_trigger
          (reg (low_index pin) s)
          (reg (low_index pin) (ioapic_map M cpu a pin irq active_low level_trigger s))
        × (reg (high_index pin) (ioapic_map M cpu a pin irq active_low level_trigger s)
            ≡ cpu % 2 ^ 8 * 2 ^ 24 + reg (high_index pin) s % 2 ^ 24)
        × ((r : ℕ)
            → r ≢ low_index pin
            → r ≢ high_index pin
            → reg r (ioapic_map M cpu a pin irq active_low level_trigger s) ≡ reg r s)
  unfolding ioapic_map
  ioapic_map-Routed cpu pin irq active_low level_trigger s word =
      let high = read_then_write (high_index pin) (map_high cpu) s in
      let s2 =
        ioapic_write M a (high_index pin) (map_high cpu (ioapic_read M a (high_index pin) s).0)
          (ioapic_read M a (high_index pin) s).1 in
      let low = read_then_write (low_index pin) (map_low irq active_low level_trigger) s2 in
      let before : reg (low_index pin) s2 ≡ reg (low_index pin) s =
        high.1 (low_index pin) (λ e. omega (arith, e)) in
      (
        rw (low.0, before) (map_low-Routed irq active_low level_trigger (reg (low_index pin) s)),
        low.1 (high_index pin) (λ e. omega (arith, e))
            ∙ high.0
            ∙ map_high-value cpu (reg (high_index pin) s) word,
        λ r not_low not_high. low.1 r not_low ∙ high.1 r not_high,
      )

-- The number of controllers of a result.
abbrev count_of {ℓ} : {A : Type ℓ} → Option (IoApics × A) → ℕ → ℕ
count_of none n = n
count_of (some (c, s)) n = c.ioapic_cnt

init_count :
    (M : Machine) (cfg : Config) (cpu : ℕ) (mem : Memory) (madt : Option ℕ) (c : IoApics)
    (s : M.State)
    → Each (λ r. count_of r c.ioapic_cnt ≡ c.ioapic_cnt) (ioapic_init M cfg cpu mem madt c s)
unfolding ioapic_init
init_count M cfg cpu mem none c s = refl
init_count M cfg cpu mem (some madt) c s = counted (count_loop (2 ^ 32) mem (madt + 44) len 0 0)
  where
    len : ℕ
    len = u32 (read_bytes 4 mem (madt + 4) + 2 ^ 32 - 8 - 36)

    Keeps : Outcome (Option (IoApics × M.State)) → Type 0
    Keeps m = Each (λ r. count_of r c.ioapic_cnt ≡ c.ioapic_cnt) m

    finished :
        (found : List IoApic) (m : Outcome M.State)
        → Keeps (m >>= λ s2. ok (some (record c { ioapics = found }, s2)))
    finished found (ok s2) = refl
    finished found panic = tt
    finished found stuck = tt

    set_up :
        (m : Outcome (List IoApic × M.State))
        → Keeps (
            m >>= λ (found, s1).
            overrides_loop M cfg cpu (2 ^ 32) mem (madt + 44) len 0 found s1 >>= λ s2.
            ok (some (record c { ioapics = found }, s2)))
    set_up (ok (found, s1)) =
        finished found (overrides_loop M cfg cpu (2 ^ 32) mem (madt + 44) len 0 found s1)
    set_up panic = tt
    set_up stuck = tt

    counted :
        (m : Outcome ℕ)
        → Keeps (
            m >>= λ cnt. setup_loop M cfg cpu (2 ^ 32) mem (madt + 44) len 0 [] s >>= λ (found, s1).
            overrides_loop M cfg cpu (2 ^ 32) mem (madt + 44) len 0 found s1 >>= λ s2.
            ok (some (record c { ioapics = found }, s2)))
    counted (ok cnt) = set_up (setup_loop M cfg cpu (2 ^ 32) mem (madt + 44) len 0 [] s)
    counted panic = tt
    counted stuck = tt

-- `ioapic_init` counts the controllers in a variable of its own: where none were counted before, it leaves
-- the count at 0, and `interrupt_mapinterrupt` then routes every line at the first controller; with the count of the
-- controllers that it has found, the loop would end with the one that has the highest base below the line, or
-- with the first one if there is none whose base is above 0.
pub interrupt_mapinterrupt-first :
    (M : Machine) (cfg : Config) (cpu : ℕ) (mem : Memory) (madt : Option ℕ) (c c' : IoApics)
    (s s' : M.State)
    → c.ioapic_cnt ≡ 0
    → ioapic_init M cfg cpu mem madt c s ≡ ok (some (c', s'))
    → (c'.ioapic_cnt ≡ 0)
      × ((line irq : ℕ) (active_low level_trig : Bool) (t : M.State)
          → interrupt_mapinterrupt M cpu c' line irq active_low level_trig t
            ≡ ioapic_map M cpu (get_or c'.ioapics 0 no_ioapic) line irq active_low level_trig t)
      × ((line : ℕ)
          → Nearest c'.ioapics line (closest_loop (length c'.ioapics) c'.ioapics line 0 0 0))
unfolding interrupt_mapinterrupt closest_loop
interrupt_mapinterrupt-first M cfg cpu mem madt c c' s s' zero_count done =
    let counted =
      subst (λ m. Each (λ r. count_of r c.ioapic_cnt ≡ c.ioapic_cnt) m) done
        (init_count M cfg cpu mem madt c s) in
    (
      counted ∙ zero_count,
      λ line irq active_low level_trig t.
          ap
            (λ (n : ℕ).
              ioapic_map M cpu (get_or c'.ioapics (closest_loop n c'.ioapics line 0 0 0) no_ioapic)
                line irq active_low level_trig t)
            (counted ∙ zero_count),
      λ line. closest_loop-Nearest c'.ioapics line,
    )
