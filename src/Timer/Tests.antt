-- ===== src/Timer/Tests.antt =====
-- The timer at work on three processes, and sleeps.
use aether_os.Base.{◌≡◌, refl, [], ◌∷◌, ◌++◌, true, false, some, arith}
use aether_os.Timer.Sleep.{timer_sleep_ticks, timer_sleep_ticks-waits, timer_sleep_ticks-wraps}
use aether_os.Process.{zero_registers}
use aether_os.Scheduler.Robin.{Runs}
use aether_os.Scheduler.Three.{full, full-Runs}
use aether_os.Timer.Turns.{interrupts, interrupts-Runs}

interrupts-Runs_example :
    Runs (interrupts 9 zero_registers full) 0 (2 ∷ 5 ∷ [])
    × Runs (interrupts 10 zero_registers full) 2 (5 ∷ 0 ∷ [])
interrupts-Runs_example =
    interrupts-Runs 9 9 0 2 (5 ∷ []) zero_registers full full-Runs refl (omega arith)

-- two ticks among other interrupts, and the third that ends the sleep
timer_sleep_ticks-waits_example :
    timer_sleep_ticks 40 3 ((false ∷ true ∷ true ∷ false ∷ []) ++ (true ∷ false ∷ []))
    ≡ some (false ∷ [], 43)
timer_sleep_ticks-waits_example =
    timer_sleep_ticks-waits 40 (false ∷ true ∷ true ∷ false ∷ []) (false ∷ []) (omega arith)

timer_sleep_ticks-wraps_example :
    timer_sleep_ticks 0xFFFF_FFF0 100 (false ∷ []) ≡ some (false ∷ [], 0xFFFF_FFF0)
timer_sleep_ticks-wraps_example =
    timer_sleep_ticks-wraps 0xFFFF_FFF0 100 (false ∷ []) (omega arith) (omega arith) (omega arith)
