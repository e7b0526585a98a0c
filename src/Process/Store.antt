-- ===== src/Process/Store.antt =====
-- An assignment to one slot of the process table of src/kernel/process.c.
use aether_os.Base.{ℕ, ◌≡◌, ◌≢◌, refl, arith}
use aether_os.Process.{Kernel, Process, modify}

module _ (p : ℕ) (f : Process → Process) (k : Kernel) where
  pub modify_self : (modify p f k).process_table p ≡ f (k.process_table p)
  unfolding modify
  modify_self = ground arith

  pub modify_ne : (a : ℕ) → a ≢ p → (modify p f k).process_table a ≡ k.process_table a
  unfolding modify
  modify_ne a ne = ground arith

  pub modify-head : (modify p f k).ready_queue_head ≡ k.ready_queue_head
  unfolding modify
  modify-head = refl

  pub modify-tail : (modify p f k).ready_queue_tail ≡ k.ready_queue_tail
  unfolding modify
  modify-tail = refl

  pub modify-count : (modify p f k).ready_queue_count ≡ k.ready_queue_count
  unfolding modify
  modify-count = refl

  pub modify-current : (modify p f k).current_process ≡ k.current_process
  unfolding modify
  modify-current = refl

  pub modify-stack_allocated : (modify p f k).stack_allocated ≡ k.stack_allocated
  unfolding modify
  modify-stack_allocated = refl

  pub modify-process_stacks : (modify p f k).process_stacks ≡ k.process_stacks
  unfolding modify
  modify-process_stacks = refl
