-- ===== src/Timer/Turns.antt =====
-- The divisor of src/kernel/timer.c, and the turns of the scheduler that its interrupts drive.
use aether_os.Base.{
  ℕ, zero, suc, ◌+◌, ◌*◌, ◌/◌, ◌^◌, ◌≤◌, ◌<◌, ◌≡◌, false, ltb, if◌then◌else◌, List, [], ◌∷◌, ◌++◌,
  arith,
}
use aether_os.Base.Words.{add32, low_bits, shr}
use aether_os.Process.{Kernel, Registers}
use aether_os.Scheduler.{scheduler_tick}
use aether_os.Scheduler.Robin.{Runs}
use aether_os.Scheduler.Fair.{scheduler_tick-Turn, scheduler_tick-keeps}
use aether_os.Timer.{divisor, pit_frequency, timer_handler, sleeps, sleep_target}

-- For every frequency but 0, `timer_init` programs a divisor of 1 to 65535, and its two bytes make it up.
pub divisor-bounds :
    (frequency_hz : ℕ)
    → 1 ≤ frequency_hz
    → (1 ≤ divisor frequency_hz)
      × (divisor frequency_hz ≤ 65535)
      × (low_bits (divisor frequency_hz) 8 + low_bits (shr (divisor frequency_hz) 8) 8 * 2 ^ 8
          ≡ divisor frequency_hz)
unfolding divisor
divisor-bounds frequency_hz nonzero = clamped (pit_frequency / frequency_hz)
  where
    clamp : ℕ → ℕ
    clamp d = if ltb d 1 then 1 else (if ltb 65535 d then 65535 else d)

    bounded : (d : ℕ) → (1 ≤ clamp d) × (clamp d ≤ 65535)
    bounded d = (ground arith, ground arith)

    clamped :
        (d : ℕ)
        → (1 ≤ clamp d)
          × (clamp d ≤ 65535)
          × (low_bits (clamp d) 8 + low_bits (shr (clamp d) 8) 8 * 2 ^ 8 ≡ clamp d)
    clamped d = let r = bounded d in (r.0, r.1, bytes (clamp d) r.1)
      where
        bytes : (c : ℕ) → c ≤ 65535 → low_bits c 8 + low_bits (shr c 8) 8 * 2 ^ 8 ≡ c
        bytes c le = omega (arith, le)

-- `n` timer interrupts in a row
unfoldable pub interrupts : ℕ → Registers → Kernel → Kernel
interrupts zero cpu k = k
interrupts (suc n) cpu k = interrupts n cpu (timer_handler cpu k).0.0

later : (k : Kernel) → Kernel
later k = record k { system_ticks = add32 k.system_ticks 1 }

later-Runs : (k : Kernel) (c : ℕ) (ps : List ℕ) → Runs k c ps → Runs (later k) c ps
unfolding later
later-Runs k c ps r = record {
  enabled = r.enabled;
  current = r.current;
  state = r.state;
  queue = record {
    links = r.queue.links;
    head = r.queue.head;
    tail = r.queue.tail;
    count = r.queue.count;
    distinct = r.queue.distinct;
  };
  apart = r.apart;
  small = r.small;
}

-- Fewer interrupts than the quantum leave the process running.
interrupts-keeps :
    (i n c : ℕ) (ps : List ℕ) (cpu : Registers) (k : Kernel)
    → Runs k c ps
    → (k.process_table c).quantum ≡ suc n
    → i ≤ n
    → Runs (interrupts i cpu k) c ps
unfolding interrupts timer_handler later
interrupts-keeps zero n c ps cpu k r left le = r
interrupts-keeps (suc i) zero c ps cpu k r left le = absurd (omega (arith, le))
interrupts-keeps (suc i) (suc n) c ps cpu k r left le =
    let kept = scheduler_tick-keeps c n ps cpu (later k) (later-Runs k c ps r) left in
    interrupts-keeps i n c ps cpu (scheduler_tick cpu (later k)).0 kept.1 kept.2 (omega (arith, le))

-- The interrupt that uses up the quantum.
interrupts-turn :
    (n c p : ℕ) (ps : List ℕ) (cpu : Registers) (k : Kernel)
    → Runs k c (p ∷ ps)
    → (k.process_table c).quantum ≡ suc n
    → Runs (interrupts (suc n) cpu k) p (ps ++ (c ∷ []))
unfolding interrupts timer_handler later
interrupts-turn zero c p ps cpu k r left =
    (scheduler_tick-Turn c p ps cpu (later k) (later-Runs k c (p ∷ ps) r)
      (omega (arith, left))).runs
interrupts-turn (suc n) c p ps cpu k r left =
    let kept = scheduler_tick-keeps c n (p ∷ ps) cpu (later k) (later-Runs k c (p ∷ ps) r) left in
    interrupts-turn n c p ps cpu (scheduler_tick cpu (later k)).0 kept.1 kept.2

-- Preemption: a running process with `n + 1` ticks of its quantum left keeps the CPU, with the ready queue as it
-- is, for the next `n` timer interrupts, and loses it at the one behind them, to the process at the
-- head of the ready queue, and waits behind the others.
pub interrupts-Runs :
    (n i c p : ℕ) (ps : List ℕ) (cpu : Registers) (k : Kernel)
    → Runs k c (p ∷ ps)
    → (k.process_table c).quantum ≡ suc n
    → i ≤ n
    → Runs (interrupts i cpu k) c (p ∷ ps) × Runs (interrupts (suc n) cpu k) p (ps ++ (c ∷ []))
interrupts-Runs n i c p ps cpu k r left le =
    (interrupts-keeps i n c (p ∷ ps) cpu k r left le, interrupts-turn n c p ps cpu k r left)

-- The target of `timer_sleep_ticks` wraps round: close to the end of the tick counter it lies
-- behind, and the loop ends without waiting a tick.
pub sleep_wraps :
    (now ticks : ℕ)
    → now < 2 ^ 32
    → ticks < 2 ^ 32
    → 2 ^ 32 ≤ now + ticks
    → sleeps (sleep_target now ticks) now ≡ false
unfolding sleeps sleep_target
sleep_wraps now ticks ln lt wrap = ground (arith, ln, lt, wrap)
