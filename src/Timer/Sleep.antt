-- ===== src/Timer/Sleep.antt =====
-- `timer_sleep_ticks` of src/kernel/timer.c over the interrupts that end each `hlt`, in order: `true` for
-- the timer's, which counts a tick.
use aether_os.Base.{
  ℕ, suc, ◌+◌, ◌≤◌, ◌<◌, ◌^◌, ◌≡◌, refl, ap, ◌∙◌, Bool, true, false, ltb, if◌then◌else◌, List, [],
  ◌∷◌, ◌++◌, Option, none, some, arith, if_true, if_false,
}
use aether_os.Base.Words.{add32}
use aether_os.Timer.{sleeps, sleep_target}

-- the counter behind an interrupt
abbrev pub after : Bool → ℕ → ℕ
after tick now = if tick then add32 now 1 else now

-- The interrupts that are left when the loop ends, and the counter; `none` while it waits.
unfoldable pub sleep_loop : ℕ → ℕ → List Bool → Option (List Bool × ℕ)
sleep_loop target now [] = if sleeps target now then none else some ([], now)
sleep_loop target now (tick ∷ interrupts) =
    let later = sleep_loop target (after tick now) interrupts in
    if sleeps target now then later else some (tick ∷ interrupts, now)

unfoldable pub timer_sleep_ticks : ℕ → ℕ → List Bool → Option (List Bool × ℕ)
timer_sleep_ticks now ticks interrupts = sleep_loop (sleep_target now ticks) now interrupts

abbrev pub count_ticks : List Bool → ℕ
count_ticks [] = 0
count_ticks (true ∷ interrupts) = suc (count_ticks interrupts)
count_ticks (false ∷ interrupts) = count_ticks interrupts

sleep_loop-ends :
    (target now : ℕ) (interrupts : List Bool)
    → target ≤ now
    → sleep_loop target now interrupts ≡ some (interrupts, now)
unfolding sleep_loop sleeps
sleep_loop-ends target now [] over = if_false (ltb now target) none _ (ground (arith, over))
sleep_loop-ends target now (tick ∷ interrupts) over =
    if_false (ltb now target) _ (some (tick ∷ interrupts, now)) (ground (arith, over))

sleep_loop-waits :
    (target now : ℕ) (xs ys : List Bool)
    → now + count_ticks xs + 1 ≡ target
    → target < 2 ^ 32
    → sleep_loop target now (xs ++ (true ∷ ys)) ≡ some (ys, target)
unfolding sleep_loop sleeps
sleep_loop-waits target now [] ys due small =
    let next : add32 now 1 ≡ target = omega (arith, due, small) in
    if_true (ltb now target) _ (some (true ∷ ys, now)) (ground (arith, due))
    ∙ ap (λ n. sleep_loop target n ys) next
    ∙ sleep_loop-ends target target ys (omega arith)
sleep_loop-waits target now (true ∷ xs) ys due small =
    if_true (ltb now target) _ (some (true ∷ (xs ++ (true ∷ ys)), now)) (ground (arith, due))
    ∙ sleep_loop-waits target (add32 now 1) xs ys (omega (arith, due, small)) small
sleep_loop-waits target now (false ∷ xs) ys due small =
    if_true (ltb now target) _ (some (false ∷ (xs ++ (true ∷ ys)), now)) (ground (arith, due))
    ∙ sleep_loop-waits target now xs ys due small

-- For a tick counter that does not wrap within the sleep: `timer_sleep_ticks` of n + 1 ticks goes on
-- through every run of interrupts with n ticks in it, and returns at the next tick, with the rest of the
-- interrupts to come.
pub timer_sleep_ticks-waits :
    (now : ℕ) (xs ys : List Bool)
    → now + count_ticks xs + 1 < 2 ^ 32
    → timer_sleep_ticks now (count_ticks xs + 1) (xs ++ (true ∷ ys))
      ≡ some (ys, now + count_ticks xs + 1)
unfolding timer_sleep_ticks sleep_target
timer_sleep_ticks-waits now xs ys small =
    let target : add32 now (count_ticks xs + 1) ≡ now + count_ticks xs + 1 = omega (arith, small) in
    ap (λ t. sleep_loop t now (xs ++ (true ∷ ys))) target
    ∙ sleep_loop-waits (now + count_ticks xs + 1) now xs ys refl small

-- Where the counter would wrap within the sleep, `timer_sleep_ticks` returns at once.
pub timer_sleep_ticks-wraps :
    (now ticks : ℕ) (interrupts : List Bool)
    → now < 2 ^ 32
    → ticks < 2 ^ 32
    → 2 ^ 32 ≤ now + ticks
    → timer_sleep_ticks now ticks interrupts ≡ some (interrupts, now)
unfolding timer_sleep_ticks sleep_target
timer_sleep_ticks-wraps now ticks interrupts small small' wraps =
    sleep_loop-ends (add32 now ticks) now interrupts (omega (arith, small, small', wraps))
