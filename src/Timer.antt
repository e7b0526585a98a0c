-- ===== src/Timer.antt =====
-- The timer of src/kernel/timer.c. `timer_init` is the list of its port writes and the frequency that
-- it keeps; `system_ticks` is a field of `Kernel`. A frequency of 0 Hz divides by zero in the source and is left out.
pub mod Sleep
pub mod Turns
mod Tests
use aether_os.Base.{
  ℕ, zero, suc, ◌+◌, ◌-◌, ◌*◌, ◌/◌, ◌%◌, Bool, true, false, ltb, ◌==◌, if◌then◌else◌, Option, none,
  some, List, [], ◌∷◌, ◌++◌,
}
use aether_os.Base.Words.{add32, mul32, low_bits, shr}
use aether_os.Process.{Kernel, Registers}
use aether_os.Scheduler.{Switch, scheduler_tick}
use aether_os.Pic.{Writes, pic_send_eoi, pic_enable_irq}

abbrev pub pit_frequency : ℕ
pit_frequency = 1193182

-- the divisor, clamped to 1 to 65535
unfoldable pub divisor : ℕ → ℕ
divisor frequency_hz =
    let d = pit_frequency / frequency_hz in
    if ltb d 1 then 1 else (if ltb 65535 d then 65535 else d)

-- `timer_init` with the frequency that it keeps
unfoldable pub timer_init : (ℕ → ℕ) → ℕ → ℕ × Writes
timer_init inb frequency_hz =
    let d = divisor frequency_hz in
    (
      pit_frequency / d,
      (0x43, 0x34)
          ∷ (0x40, low_bits d 8)
          ∷ (0x40, low_bits (shr d 8) 8)
          ∷ pic_enable_irq inb 0
          ∷ [],
    )

-- The handler up to its return, or up to the switch that `scheduler_tick` makes: behind a switch the
-- interrupted process's handler stands still in `context_switch`, and the end of interrupt is sent only
-- when that process is switched to again.
unfoldable pub timer_handler : Registers → Kernel → (Kernel × Switch) × Writes
timer_handler cpu k =
    let (k', s) = scheduler_tick cpu (record k { system_ticks = add32 k.system_ticks 1 }) in
    ((k', s), elim s [ none ↦ pic_send_eoi 0 | some _ ↦ [] ])

-- Whether `timer_sleep_ticks`, which has computed `target`, goes on waiting.
unfoldable pub sleeps : ℕ → ℕ → Bool
sleeps target now = ltb now target

unfoldable pub sleep_target : ℕ → ℕ → ℕ
sleep_target now ticks = add32 now ticks

-- the ticks that `timer_sleep_ms` waits
unfoldable pub sleep_ms_ticks : ℕ → ℕ → ℕ
sleep_ms_ticks frequency_hz milliseconds =
    let ticks = mul32 milliseconds frequency_hz / 1000 in if ticks == 0 then 1 else ticks
