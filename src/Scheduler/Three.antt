-- ===== src/Scheduler/Three.antt =====
-- A kernel for tests: process 0 runs, 2 and 5 are ready.
use aether_os.Base.{ℕ, refl, true, false, some, [], ◌∷◌, arith, ◌==◌, if◌then◌else◌}
use aether_os.Process.{Kernel, Process, ready, running, terminated, zero_process}
use aether_os.Scheduler.Queue.{IsQueue}
use aether_os.Scheduler.Robin.{Runs}

abbrev pub at_queue : ℕ → Process
at_queue a =
    if a == 2
    then record zero_process { pid = 2; state = ready; next = some 5; kernel_stack = 8192 }
    else (if a == 5
        then record zero_process { pid = 5; state = ready; prev = some 2 }
        else record zero_process {
          pid = a;
          state = if a == 0 then running else terminated;
          quantum = 1;
        })

abbrev pub three : Kernel
three = record {
  process_table = at_queue;
  current_process = some 0;
  next_pid = 6;
  stack_allocated = λ _. false;
  process_stacks = 0x40000;
  ready_queue_head = some 2;
  ready_queue_tail = some 5;
  ready_queue_count = 2;
  scheduler_enabled = true;
  esp0 = 0;
  current_directory = 0;
  system_ticks = 0;
}

pub three-IsQueue : IsQueue three (2 ∷ 5 ∷ [])
three-IsQueue = record {
  links = (refl, refl, (refl, refl, tt));
  head = refl;
  tail = refl;
  count = refl;
  distinct = ((λ e. omega (arith, e), tt), (tt, tt));
}

pub three-Runs : Runs three 0 (2 ∷ 5 ∷ [])
three-Runs = record {
  enabled = refl;
  current = refl;
  state = refl;
  queue = three-IsQueue;
  apart = (λ e. omega (arith, e), (λ e. omega (arith, e), tt));
  small = omega arith;
}

abbrev pub full : Kernel
full = record three { process_table = λ a. record (at_queue a) { quantum = 10 } }

pub full-Runs : Runs full 0 (2 ∷ 5 ∷ [])
full-Runs = record {
  enabled = refl;
  current = refl;
  state = refl;
  queue = record {
    links = (refl, refl, (refl, refl, tt));
    head = refl;
    tail = refl;
    count = refl;
    distinct = three-IsQueue.distinct;
  };
  apart = three-Runs.apart;
  small = omega arith;
}
