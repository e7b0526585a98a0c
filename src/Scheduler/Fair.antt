-- ===== src/Scheduler/Fair.antt =====
-- `scheduler_yield` and `scheduler_tick` of src/kernel/scheduler.c share the CPU in turns.
use aether_os.Base.{
  ℕ, zero, suc, ◌-◌, ◌<◌, ◌≡◌, refl, true, false, Option, none, some, List, [], ◌∷◌, ◌++◌, arith,
  ap, ◌∙◌, sym, subst, length, ◌==◌, if◌then◌else◌, ltb, append_assoc,
}
use aether_os.Base.Words.{add32}
use aether_os.Process.{Kernel, Process, running, Registers, modify, is_running}
use aether_os.Scheduler.{
  scheduler_schedule, requeue, switch_from, Switch, yield_from, scheduler_yield, quantum_ticks,
  count_tick, expire, scheduler_tick,
}
use aether_os.Scheduler.Queue.{modify_self, modify_ne, modify-count}
use aether_os.Scheduler.Frame.{IsQueue-modify}
use aether_os.Scheduler.Robin.{Runs, Turn, turn}

abbrev refill : Process → Process
refill q = record q { quantum = quantum_ticks }

abbrev guarded : (ℕ → Registers → Kernel → Kernel × Switch) → Registers → Kernel → Kernel × Switch
guarded f cpu k = elim k.current_process [
  | none ↦ (k, none)
  | some old ↦ if k.scheduler_enabled then f old cpu k else (k, none)
]

-- both calls do nothing before a process runs or while the scheduler is off
gate :
    (f : ℕ → Registers → Kernel → Kernel × Switch) (c : ℕ) (cpu : Registers) (k : Kernel)
    → k.current_process ≡ some c
    → k.scheduler_enabled ≡ true
    → guarded f cpu k ≡ f c cpu k
gate f c cpu k cur on =
    ap
      (λ (o : Option ℕ). elim o [
        | none ↦ (k, none)
        | some old ↦ if k.scheduler_enabled then f old cpu k else (k, none)
      ])
      cur
    ∙ ap (λ b. if b then f c cpu k else (k, none)) on

yield-switches :
    (c n : ℕ) (cpu : Registers) (k : Kernel)
    → k.scheduler_enabled ≡ true
    → k.current_process ≡ some c
    → (k.process_table c).state ≡ running
    → k.ready_queue_count ≡ suc n
    → scheduler_yield cpu k ≡ switch_from c cpu (scheduler_schedule (requeue c (modify c refill k)))
unfolding scheduler_yield yield_from
yield-switches c n cpu k on cur run count =
    let some_ready : ltb 0 k.ready_queue_count ≡ true = ground (arith, count) in
    gate yield_from c cpu k cur on
    ∙ ap
        (λ b.
          if b
          then switch_from c cpu (
              scheduler_schedule
                (requeue c (if is_running (k.process_table c).state then modify c refill k else k)))
          else (k, none))
        some_ready
    ∙ ap
        (λ s.
          switch_from c cpu
            (scheduler_schedule (requeue c (if is_running s then modify c refill k else k))))
        run

-- `scheduler_yield` of the running process: the process at the head of the ready queue runs with a full
-- quantum, the old one waits at the end of the queue with its registers saved, the order of the others
-- stays, and the stack pointer in the TSS is the top of the new process's kernel stack.
pub scheduler_yield-Turn :
    (c p : ℕ) (ps : List ℕ) (cpu : Registers) (k : Kernel)
    → Runs k c (p ∷ ps)
    → Turn c p ps cpu k (scheduler_yield cpu k)
unfolding modify
scheduler_yield-Turn c p ps cpu k r =
    let k0 = modify c refill k in
    let t =
      turn c p ps cpu k0 r.enabled
        (ap (λ (x : Process). x.state) (modify_self c refill k) ∙ r.state)
        (IsQueue-modify c refill k (p ∷ ps) (λ q. refl) (λ q. refl) r.queue) r.apart r.small in
    subst (Turn c p ps cpu k)
      (sym (yield-switches c (length ps) cpu k r.enabled r.current r.state r.queue.count))
      (record {
        runs = t.runs;
        waits = t.waits;
        quantum = t.quantum;
        saved = t.saved;
        stack =
            t.stack
            ∙ ap (λ (x : Process). add32 x.kernel_stack 4096)
                (modify_ne c refill k p (λ e. r.apart.0 (sym e)));
        switch = t.switch;
      })

module _ (c : ℕ) (cpu : Registers) (k : Kernel) where
  expire-ready :
      ((k.process_table c).quantum == 0) ≡ true
      → ltb 0 k.ready_queue_count ≡ true
      → expire c cpu k ≡ switch_from c cpu (scheduler_schedule (requeue c k))
  unfolding expire
  expire-ready e some_ready = simp (e, some_ready)

  expire-left : ((k.process_table c).quantum == 0) ≡ false → expire c cpu k ≡ (k, none)
  unfolding expire
  expire-left e = simp e

-- the end of a tick at which the quantum of the current process is used up
tick-switches :
    (c n : ℕ) (cpu : Registers) (k : Kernel)
    → k.scheduler_enabled ≡ true
    → k.current_process ≡ some c
    → (k.process_table c).quantum < 2
    → k.ready_queue_count ≡ suc n
    → scheduler_tick cpu k
      ≡ switch_from c cpu (scheduler_schedule (requeue c (modify c count_tick k)))
unfolding scheduler_tick
tick-switches c n cpu k on cur used count =
    let some_ready : ltb 0 (modify c count_tick k).ready_queue_count ≡ true =
      ground (arith, count, modify-count c count_tick k) in
    let expired : (((modify c count_tick k).process_table c).quantum == 0) ≡ true =
      ap (λ (x : Process). x.quantum == 0) (modify_self c count_tick k) ∙ ground (arith, used) in
    gate (λ c cpu k. expire c cpu (modify c count_tick k)) c cpu k cur on
    ∙ expire-ready c cpu (modify c count_tick k) expired some_ready

-- `scheduler_tick` in the last tick of the running process's quantum, with a process ready: the turn
-- passes as it does in `scheduler_yield`.
pub scheduler_tick-Turn :
    (c p : ℕ) (ps : List ℕ) (cpu : Registers) (k : Kernel)
    → Runs k c (p ∷ ps)
    → (k.process_table c).quantum < 2
    → Turn c p ps cpu k (scheduler_tick cpu k)
unfolding modify
scheduler_tick-Turn c p ps cpu k r used =
    let k0 = modify c count_tick k in
    let t =
      turn c p ps cpu k0 r.enabled
        (ap (λ (x : Process). x.state) (modify_self c count_tick k) ∙ r.state)
        (IsQueue-modify c count_tick k (p ∷ ps) (λ q. refl) (λ q. refl) r.queue) r.apart r.small in
    subst (Turn c p ps cpu k)
      (sym (tick-switches c (length ps) cpu k r.enabled r.current used r.queue.count))
      (record {
        runs = t.runs;
        waits = t.waits;
        quantum = t.quantum;
        saved = t.saved;
        stack =
            t.stack
            ∙ ap (λ (x : Process). add32 x.kernel_stack 4096)
                (modify_ne c count_tick k p (λ e. r.apart.0 (sym e)));
        switch = t.switch;
      })

tick-left :
    (c : ℕ) (cpu : Registers) (k : Kernel)
    → k.scheduler_enabled ≡ true
    → k.current_process ≡ some c
    → (((modify c count_tick k).process_table c).quantum == 0) ≡ false
    → scheduler_tick cpu k ≡ (modify c count_tick k, none)
unfolding scheduler_tick
tick-left c cpu k on cur left =
    gate (λ c cpu k. expire c cpu (modify c count_tick k)) c cpu k cur on
    ∙ expire-left c cpu (modify c count_tick k) left

-- `c` runs on with `n + 1` ticks left.
abbrev pub Kept : ℕ → ℕ → List ℕ → Kernel × Switch → Type 0
Kept c n ps r = (r.1 ≡ none) × Runs r.0 c ps × ((r.0.process_table c).quantum ≡ suc n)

-- `scheduler_tick` before the quantum of the running process is used up: no switch, the process runs
-- on with one tick less, and the queue stays.
pub scheduler_tick-keeps :
    (c n : ℕ) (ps : List ℕ) (cpu : Registers) (k : Kernel)
    → Runs k c ps
    → (k.process_table c).quantum ≡ suc (suc n)
    → Kept c n ps (scheduler_tick cpu k)
unfolding modify
scheduler_tick-keeps c n ps cpu k r left =
    let k0 = modify c count_tick k in
    let at_c = modify_self c count_tick k in
    let one_less : (k0.process_table c).quantum ≡ suc n =
      ap (λ (x : Process). x.quantum) at_c ∙ ap (λ q. q - 1) left ∙ drop n in
    subst (Kept c n ps) (sym (tick-left c cpu k r.enabled r.current (one_left one_less))) (
      refl,
      record {
        enabled = r.enabled;
        current = r.current;
        state = ap (λ (x : Process). x.state) at_c ∙ r.state;
        queue = IsQueue-modify c count_tick k ps (λ q. refl) (λ q. refl) r.queue;
        apart = r.apart;
        small = r.small;
      },
      one_less,
    )
  where
    drop : (n : ℕ) → suc (suc n) - 1 ≡ suc n
    drop n = omega arith

    one_left : {q : ℕ} → q ≡ suc n → (q == 0) ≡ false
    one_left e = ground arith

-- `n` calls of `scheduler_yield`, each by the process that runs then
unfoldable pub yields : ℕ → Registers → Kernel → Kernel
yields zero cpu k = k
yields (suc n) cpu k = yields n cpu (scheduler_yield cpu k).0

-- No starvation: a process in the ready queue waits for as many turns as there are processes before it, if each
-- running process yields, and then runs:
-- those whose turn it was are behind it, in the order they had.
pub yields-Runs :
    (p : ℕ) (xs ys : List ℕ) (c : ℕ) (cpu : Registers) (k : Kernel)
    → Runs k c (xs ++ (p ∷ ys))
    → Runs (yields (suc (length xs)) cpu k) p (ys ++ (c ∷ xs))
unfolding yields
yields-Runs p [] ys c cpu k r = (scheduler_yield-Turn c p ys cpu k r).runs
yields-Runs p (x ∷ xs) ys c cpu k r =
    let t = scheduler_yield-Turn c x (xs ++ (p ∷ ys)) cpu k r in
    let r' = subst (Runs (scheduler_yield cpu k).0 x) (append_assoc xs (p ∷ ys) (c ∷ [])) t.runs in
    subst (Runs (yields (suc (length xs)) cpu (scheduler_yield cpu k).0) p)
      (append_assoc ys (c ∷ []) (x ∷ xs))
      (yields-Runs p xs (ys ++ (c ∷ [])) x cpu (scheduler_yield cpu k).0 r')
