-- ===== src/Scheduler.antt =====
-- The round-robin scheduler of src/kernel/scheduler.c. Its statics are fields of `Kernel`; `-`
-- stops at 0, as the guards of the source have it. `context_switch` stores the CPU's registers in the old
-- process: they are the argument `cpu`. A switch that took place is the second part of the result.
pub mod Fair
pub mod Frame
pub mod Leave
pub mod Ops
pub mod Queue
pub mod Robin
pub mod Switch
mod Tests
pub mod Three
use aether_os.Base.{
  ℕ, ◌+◌, ◌-◌, Bool, true, false, not, ◌&&◌, ◌||◌, ltb, ◌==◌, if◌then◌else◌, Option, none, some,
}
use aether_os.Base.Words.{add32}
use aether_os.Process.{
  Kernel, Process, Registers, ProcessState, ready, running, modify, is_terminated, is_running,
}

-- `static uint32_t quantum_ticks`, which no function changes.
abbrev pub quantum_ticks : ℕ
quantum_ticks = 10

abbrev pub set_next : ℕ → Option ℕ → Kernel → Kernel
set_next p v = modify p (λ q. record q { next = v })

abbrev pub set_prev : ℕ → Option ℕ → Kernel → Kernel
set_prev p v = modify p (λ q. record q { prev = v })

unfoldable pub scheduler_init : Kernel → Kernel
scheduler_init k = record k {
  ready_queue_head = none;
  ready_queue_tail = none;
  ready_queue_count = 0;
  scheduler_enabled = false;
}

-- the second half of `scheduler_add_process`
unfoldable pub append_process : ℕ → Kernel → Kernel
append_process p k =
    let k1 : Kernel = elim k.ready_queue_tail [
      | some t ↦ set_next t (some p) k
      | none ↦ record k { ready_queue_head = some p }
    ] in
    record k1 { ready_queue_tail = some p; ready_queue_count = add32 k1.ready_queue_count 1 }

unfoldable pub add_process : ℕ → Kernel → Kernel
add_process p k =
    if is_terminated (k.process_table p).state
    then k
    else append_process p
        (modify p (λ q. record q { state = ready; next = none; prev = k.ready_queue_tail }) k)

unfoldable pub scheduler_add_process : Option ℕ → Kernel → Kernel
scheduler_add_process none k = k
scheduler_add_process (some p) k = add_process p k

-- `scheduler_remove_process` of a process: the link to it from before, the link from behind, and
-- its own fields.
unfoldable pub unlink_prev : ℕ → Kernel → Kernel
unlink_prev p k = elim (k.process_table p).prev [
  | some q ↦ set_next q (k.process_table p).next k
  | none ↦ record k { ready_queue_head = (k.process_table p).next }
]

unfoldable pub unlink_next : ℕ → Kernel → Kernel
unlink_next p k = elim (k.process_table p).next [
  | some q ↦ set_prev q (k.process_table p).prev k
  | none ↦ record k { ready_queue_tail = (k.process_table p).prev }
]

unfoldable pub remove_process : ℕ → Kernel → Kernel
remove_process p k =
    let k1 =
      modify p (λ q. record q { next = none; prev = none }) (unlink_next p (unlink_prev p k)) in
    record k1 { ready_queue_count = k1.ready_queue_count - 1 }

unfoldable pub scheduler_remove_process : Option ℕ → Kernel → Kernel
scheduler_remove_process none k = k
scheduler_remove_process (some p) k = remove_process p k

-- With an empty queue the idle process, slot 0.
unfoldable pub scheduler_schedule : Kernel → ℕ × Kernel
scheduler_schedule k = elim k.ready_queue_head [
  | none ↦ (0, k)
  | some p ↦ (
    p,
    modify p (λ q. record q { state = running; quantum = quantum_ticks }) (remove_process p k),
  )
]

unfoldable pub scheduler_enable : Kernel → Kernel
scheduler_enable k = if k.scheduler_enabled then k else record k { scheduler_enabled = true }

unfoldable pub scheduler_disable : Kernel → Kernel
scheduler_disable k = record k { scheduler_enabled = false }

abbrev pub Switch : Type 0
Switch = Option (ℕ × ℕ)

abbrev pub count_switch : Process → Process
count_switch q = record q { context_switches = add32 q.context_switches 1 }

-- what `scheduler_tick` and `scheduler_yield` share, from `scheduler_schedule` on
unfoldable pub switch_from : ℕ → Registers → ℕ × Kernel → Kernel × Switch
switch_from old cpu (next, k) =
    let k1 = record k {
      esp0 = add32 (k.process_table next).kernel_stack 4096;
      current_process = some next;
    } in
    let k2 = modify next count_switch (modify old count_switch k1) in
    if next == old
    then (k, none)
    else (modify old (λ q. record q { registers = cpu }) k2, some (old, next))

-- back into the queue, unless the process is no longer running
unfoldable pub requeue : ℕ → Kernel → Kernel
requeue old k = if is_running (k.process_table old).state then add_process old k else k

unfoldable pub yield_from : ℕ → Registers → Kernel → Kernel × Switch
yield_from old cpu k =
    let k1 =
      if is_running (k.process_table old).state
      then modify old (λ q. record q { quantum = quantum_ticks }) k
      else k in
    if ltb 0 k.ready_queue_count
    then switch_from old cpu (scheduler_schedule (requeue old k1))
    else (k, none)

unfoldable pub scheduler_yield : Registers → Kernel → Kernel × Switch
scheduler_yield cpu k = elim k.current_process [
  | none ↦ (k, none)
  | some old ↦ if k.scheduler_enabled then yield_from old cpu k else (k, none)
]

-- `scheduler_tick` once the counters of the current process are updated
unfoldable pub expire : ℕ → Registers → Kernel → Kernel × Switch
expire old cpu k =
    let expired = (k.process_table old).quantum == 0 in
    if expired && ltb 0 k.ready_queue_count
    then switch_from old cpu (scheduler_schedule (requeue old k))
    else (if expired
        then (modify old (λ q. record q { quantum = quantum_ticks }) k, none)
        else (k, none))

abbrev pub count_tick : Process → Process
count_tick q = record q { time_running = add32 q.time_running 1; quantum = q.quantum - 1 }

unfoldable pub scheduler_tick : Registers → Kernel → Kernel × Switch
scheduler_tick cpu k = elim k.current_process [
  | none ↦ (k, none)
  | some old ↦ if k.scheduler_enabled then expire old cpu (modify old count_tick k) else (k, none)
]
