-- ===== src/Scheduler/Robin.antt =====
-- A turn of the ready queue: `scheduler_schedule` and what `scheduler_yield` and `scheduler_tick` of
-- src/kernel/scheduler.c share.
use aether_os.Base.{
  ℕ, ◌+◌, ◌<◌, ◌^◌, ◌≡◌, ◌≢◌, refl, true, false, none, some, List, [], ◌∷◌, ◌++◌, arith, ap, ◌∙◌,
  sym, subst, length, length-append,
}
use aether_os.Base.Words.{add32}
use aether_os.Process.{
  Kernel, Process, ProcessState, ready, running, Registers, modify, is_terminated,
}
use aether_os.Scheduler.{
  add_process, append_process, remove_process, scheduler_schedule, requeue, switch_from, Switch,
  quantum_ticks,
}
use aether_os.Scheduler.Queue.{Absent, IsQueue, modify_self, modify_ne, modify-tail}
use aether_os.Scheduler.Ops.{core, add_process-IsQueue}
use aether_os.Scheduler.Leave.{remove_process-IsQueue}
use aether_os.Scheduler.Frame.{
  append_process-core, append_process-enabled, remove_process-core, remove_process-enabled,
  IsQueue-modify,
}
use aether_os.Scheduler.Switch.{
  start, switched, switch_from-switched, switched-at_p, switched-at_c, switched-current,
  switched-esp0, switched-enabled, switched-IsQueue,
}

-- `c` is the current process, and the queue holds `ps`.
pub record Runs (k : Kernel) (c : ℕ) (ps : List ℕ) : Type 0 where
  pub enabled : k.scheduler_enabled ≡ true
  pub current : k.current_process ≡ some c
  pub state : (k.process_table c).state ≡ running
  pub queue : IsQueue k ps
  pub apart : Absent c ps
  pub small : length ps + 1 < 2 ^ 32

-- `p` has taken the turn of `c`.
pub record Turn (c p : ℕ) (ps : List ℕ) (cpu : Registers) (k : Kernel) (r : Kernel × Switch)
    : Type 0 where
  pub runs : Runs r.0 p (ps ++ (c ∷ []))
  pub waits : (r.0.process_table c).state ≡ ready
  pub quantum : (r.0.process_table p).quantum ≡ quantum_ticks
  pub saved : (r.0.process_table c).registers ≡ cpu
  pub stack : r.0.esp0 ≡ add32 (k.process_table p).kernel_stack 4096
  pub switch : r.1 ≡ some (c, p)

-- where `c` goes when its turn ends
abbrev pub requeued : ℕ → Kernel → Kernel
requeued c k =
    append_process c
      (modify c (λ q. record q { state = ready; next = none; prev = k.ready_queue_tail }) k)

pub running-requeue :
    (c : ℕ) (k : Kernel) → (k.process_table c).state ≡ running → requeue c k ≡ requeued c k
unfolding requeue add_process
running-requeue c k s = rw s refl

pub running-alive : (s : ProcessState) → s ≡ running → is_terminated s ≡ false
running-alive s e = rw e refl

pub scheduler_schedule-head :
    (p : ℕ) (ps : List ℕ) (k : Kernel)
    → IsQueue k (p ∷ ps)
    → scheduler_schedule k ≡ (
      p,
      modify p (λ q. record q { state = running; quantum = quantum_ticks }) (remove_process p k),
    )
unfolding scheduler_schedule
scheduler_schedule-head p ps k is = rw is.head refl

module _ (c p : ℕ) (ps : List ℕ) (k : Kernel)
    (is_running_c : (k.process_table c).state ≡ running) where
  abbrev after_requeue : Kernel
  after_requeue = remove_process p (requeued c k)

  -- what `scheduler_schedule` leaves when `c` is back in the queue
  abbrev scheduled : Kernel
  scheduled = modify p start after_requeue

  requeued-core :
      (a : ℕ)
      → core ((requeued c k).process_table a)
        ≡ core (
            (modify c
                (λ q. record q { state = ready; next = none; prev = k.ready_queue_tail })
                k).process_table
              a)
  requeued-core a =
      append_process-core c
        (modify c (λ q. record q { state = ready; next = none; prev = k.ready_queue_tail }) k) a
        k.ready_queue_tail (modify-tail c _ k)

  scheduled-state_c : c ≢ p → (scheduled.process_table c).state ≡ ready
  scheduled-state_c ne =
      ap (λ (x : Process). x.state) (modify_ne p start after_requeue c ne)
      ∙ ap (λ (x : Process). x.state) (remove_process-core p (requeued c k) c ∙ requeued-core c)
      ∙ ap (λ (x : Process). x.state) (modify_self c _ k)

  scheduled-at_p : scheduled.process_table p ≡ start (after_requeue.process_table p)
  scheduled-at_p = modify_self p start after_requeue

  scheduled-stack_p :
      c ≢ p → (scheduled.process_table p).kernel_stack ≡ (k.process_table p).kernel_stack
  scheduled-stack_p ne =
      ap (λ (x : Process). x.kernel_stack) scheduled-at_p
      ∙ ap (λ (x : Process). x.kernel_stack)
          (remove_process-core p (requeued c k) p ∙ requeued-core p)
      ∙ ap (λ (x : Process). x.kernel_stack) (modify_ne c _ k p (λ e. ne (sym e)))

  scheduled-enabled : scheduled.scheduler_enabled ≡ k.scheduler_enabled
  unfolding modify
  scheduled-enabled =
      remove_process-enabled p (requeued c k)
      ∙ append_process-enabled c
          (modify c (λ q. record q { state = ready; next = none; prev = k.ready_queue_tail }) k)
          k.ready_queue_tail refl

-- The turn passes from the running process to the first one of the queue.
pub turn :
    (c p : ℕ) (ps : List ℕ) (cpu : Registers) (k : Kernel)
    → k.scheduler_enabled ≡ true
    → (k.process_table c).state ≡ running
    → IsQueue k (p ∷ ps)
    → Absent c (p ∷ ps)
    → length (p ∷ ps) + 1 < 2 ^ 32
    → Turn c p ps cpu k (switch_from c cpu (scheduler_schedule (requeue c k)))
unfolding add_process
turn c p ps cpu k on run is out small =
    let ne = out.0 in
    let same : add_process c k ≡ requeued c k = rw run refl in
    let is1 : IsQueue (requeued c k) (p ∷ (ps ++ (c ∷ []))) =
      subst (λ x. IsQueue x (p ∷ (ps ++ (c ∷ [])))) same
        (add_process-IsQueue c k (p ∷ ps) (running-alive _ run) out small is) in
    let s = scheduled c p ps k run in
    let is2 : IsQueue s (ps ++ (c ∷ [])) =
      IsQueue-modify p start (remove_process p (requeued c k)) (ps ++ (c ∷ [])) (λ r. refl)
        (λ r. refl) (remove_process-IsQueue p [] (ps ++ (c ∷ [])) (requeued c k) is1) in
    let done = switched c p cpu s in
    let at_p = switched-at_p c p cpu s ne in
    let at_c = switched-at_c c p cpu s ne in
    let at_s = scheduled-at_p c p ps k run in
    let final : switch_from c cpu (scheduler_schedule (requeue c k)) ≡ (done, some (c, p)) =
      ap (λ x. switch_from c cpu (scheduler_schedule x)) (running-requeue c k run)
      ∙ ap (switch_from c cpu) (scheduler_schedule-head p (ps ++ (c ∷ [])) (requeued c k) is1)
      ∙ switch_from-switched c p cpu s ne in
    subst (Turn c p ps cpu k) (sym final) (record {
      runs = record {
        enabled = switched-enabled c p cpu s ∙ scheduled-enabled c p ps k run ∙ on;
        current = switched-current c p cpu s;
        state = ap (λ (x : Process). x.state) at_p ∙ ap (λ (x : Process). x.state) at_s;
        queue = switched-IsQueue c p cpu s (ps ++ (c ∷ [])) is2;
        apart = is1.distinct.0;
        small = ground (arith, length-append {0} ps (c ∷ []));
      };
      waits = ap (λ (x : Process). x.state) at_c ∙ scheduled-state_c c p ps k run ne;
      quantum = ap (λ (x : Process). x.quantum) at_p ∙ ap (λ (x : Process). x.quantum) at_s;
      saved = ap (λ (x : Process). x.registers) at_c;
      stack = switched-esp0 c p cpu s ∙ ap (λ x. add32 x 4096) (scheduled-stack_p c p ps k run ne);
      switch = refl;
    })
