-- ===== src/Process/Tests.antt =====
-- The process table at work behind `process_init`.
use aether_os.Base.{
  ℕ, ◌≡◌, refl, false, none, some, arith, ◌==◌, if◌then◌else◌, ◌⊎◌, ◌≤◌, ◌<◌, ap, leb, ◌∷◌,
  replicate,
}
use mathlib.Core.Option
use aether_os.Process.Destroy.{process_destroy}
use aether_os.Process.Destroyed.{Destroyed, process_destroy-Destroyed}
use aether_os.Process.{
  process_create, max_processes, is_terminated, Kernel, normal, running, ready, terminated,
  zero_process, create_in_slot, process_exit, process_get_by_pid, process_allocate_pid,
}
use aether_os.Process.Spawn.{process_create_lem}
use aether_os.Process.Create.{Created, process_exit-create_in_slot}

abbrev booted : Kernel
booted = record {
  process_table = λ i.
      if i == 0
      then record zero_process { state = running; quantum = 1 }
      else record zero_process { pid = i; state = terminated };
  current_process = some 0;
  next_pid = 1;
  stack_allocated = λ _. false;
  process_stacks = 0x40000;
  ready_queue_head = none;
  ready_queue_tail = none;
  ready_queue_count = 0;
  scheduler_enabled = false;
  esp0 = 0;
  current_directory = 0x200010;
  system_ticks = 7;
}

process_create_lem_example :
    Created
      (process_allocate_pid booted).0
      0
      0x8000
      normal
      booted
      (process_create none 0x8000 normal booted)
    ⊎ ((process_create none 0x8000 normal booted ≡ (none, booted))
        × ((a : ℕ)
            → 1 ≤ a
            → a < max_processes
            → is_terminated (booted.process_table a).state ≡ false))
process_create_lem_example =
    process_create_lem 0 none 0x8000 normal booted (omega arith) (omega arith) (λ _ _ _. refl) refl
      refl

-- process 1 runs on its own stack
abbrev in_one : Kernel
in_one = record booted {
  process_table =
      λ i. record zero_process { pid = i; state = if i == 1 then running else terminated };
  current_process = some 1;
  stack_allocated = λ i. i == 1;
}

process_exit-create_in_slot_example :
    ((process_exit 3 in_one).process_table 1
      ≡ record (in_one.process_table 1) { exit_code = 3; state = terminated })
    × (process_get_by_pid 1 (process_exit 3 in_one) ≡ none)
    × ((create_in_slot 1 none 0 normal (process_exit 3 in_one)).0 ≡ none)
    × (((create_in_slot 1 none 0 normal (process_exit 3 in_one)).1.process_table 1).state
        ≡ terminated)
process_exit-create_in_slot_example =
    process_exit-create_in_slot 1 3 none 0 normal in_one (omega arith) refl refl

-- process 1 has the child 2, and 2 has the child 3
abbrev family : Kernel
family = record booted {
  process_table = λ i.
      if i == 1
      then record zero_process {
        pid = 1;
        state = ready;
        children = some 4 ∷ some 2 ∷ some 5 ∷ replicate 13 none;
        num_children = 3;
      }
      else (if i == 2
          then record zero_process {
            pid = 2;
            state = ready;
            parent = some 1;
            children = some 3 ∷ replicate 15 none;
            num_children = 1;
          }
          else record zero_process { pid = i; state = ready; parent = some 2 });
  next_pid = 6;
  stack_allocated = λ i. leb i 5;
}

process_destroy-Destroyed_example : Destroyed 2 family (process_destroy (some 2) family)
process_destroy-Destroyed_example =
    process_destroy-Destroyed 2 family (omega arith) (omega arith) refl
      (λ e. omega (arith, ap (λ o. Option.get_or o 0) e)) (omega arith)
