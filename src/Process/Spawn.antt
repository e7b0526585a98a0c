-- ===== src/Process/Spawn.antt =====
-- `process_create` of src/kernel/process.c as a whole: the PID, the slot and the process in it.
use aether_os.Base.{
  ℕ, ◌+◌, ◌≤◌, ◌<◌, ◌≡◌, ◌≢◌, ◌⊎◌, inl, inr, true, false, Option, none, some, List, arith, ap, ◌∙◌,
  sym, subst, ◌==◌, if◌then◌else◌, ==_refl, ==_ne,
}
use aether_os.Process.{
  Kernel, ProcessPriority, is_terminated, process_allocate_pid, process_create, create_in_slot,
  max_processes, no_pid,
}
use aether_os.Process.Pids.{Allocated, process_allocate_pid-Allocated}
use aether_os.Process.Create.{Created, create_in_slot-Created}

-- The slots of terminated processes have no stack.
abbrev pub StacksFree : Kernel → Type 0
StacksFree k =
    (a : ℕ)
    → a < max_processes
    → is_terminated (k.process_table a).state ≡ true
    → k.stack_allocated a ≡ false

Created-moved :
    (pid c entry_point n : ℕ) (priority : ProcessPriority) (k : Kernel) (r : Option ℕ × Kernel)
    → Created pid c entry_point priority (record k { next_pid = n }) r
    → Created pid c entry_point priority k r
Created-moved pid c entry_point n priority k r made = record {
  result = made.result;
  pid_of = made.pid_of;
  state = made.state;
  priority_of = made.priority_of;
  entry = made.entry;
  stack = made.stack;
  stack_top = made.stack_top;
  parent = made.parent;
  taken = made.taken;
  child = made.child;
  others = made.others;
}

alive-ne :
    (k : Kernel) (c pid : ℕ)
    → is_terminated (k.process_table c).state ≡ false
    → is_terminated (k.process_table pid).state ≡ true
    → c ≢ pid
alive-ne k c pid alive dead e =
    let clash : true ≡ false =
      sym dead ∙ ap (λ a. is_terminated (k.process_table a).state) (sym e) ∙ alive in
    absurd (ground (arith, clash))

-- `process_create` by a living process, while `next_pid` is between 1 and 256 and the slots of terminated processes
-- have no stack: it makes a READY process in the slot that `process_allocate_pid` finds, on that slot's own
-- stack, with the caller as its parent, and as the caller's last child if that has fewer than 16; or every slot from 1 to 255 is taken, and it returns NULL and changes nothing.
pub process_create_lem :
    (c : ℕ) (name : Option (List ℕ)) (entry_point : ℕ) (priority : ProcessPriority) (k : Kernel)
    → 1 ≤ k.next_pid
    → k.next_pid ≤ max_processes
    → StacksFree k
    → k.current_process ≡ some c
    → is_terminated (k.process_table c).state ≡ false
    → Created
        (process_allocate_pid k).0
        c
        entry_point
        priority
        k
        (process_create name entry_point priority k)
      ⊎ ((process_create name entry_point priority k ≡ (none, k))
          × ((a : ℕ) → 1 ≤ a → a < max_processes → is_terminated (k.process_table a).state ≡ false))
unfolding process_create
process_create_lem c name entry_point priority k lo hi stacks cur alive =
    by_pid (process_allocate_pid k) (process_allocate_pid-Allocated k lo hi)
  where
    by_pid :
        (r : ℕ × Kernel)
        → Allocated k r
        → Created r.0 c entry_point priority k (
            if r.0 == no_pid then (none, r.1) else create_in_slot r.0 name entry_point priority r.1)
          ⊎ (((if r.0 == no_pid
                  then (none, r.1)
                  else create_in_slot r.0 name entry_point priority r.1)
                ≡ (none, k))
              × ((a : ℕ)
                  → 1 ≤ a
                  → a < max_processes
                  → is_terminated (k.process_table a).state ≡ false))
    by_pid (pid, k') (inl (one, small, dead, moved)) =
        let k1 : Kernel = record k { next_pid = pid + 1 } in
        let made =
          create_in_slot-Created pid c name entry_point priority k1 small (stacks pid small dead)
            cur (alive-ne k c pid alive dead) in
        let at : (if pid == no_pid
              then (none, k')
              else create_in_slot pid name entry_point priority k')
            ≡ create_in_slot pid name entry_point priority k1 =
          ap (λ b. if b then (none, k') else create_in_slot pid name entry_point priority k')
            (==_ne pid no_pid (λ e. omega (arith, e, small)))
          ∙ ap (create_in_slot pid name entry_point priority) moved in
        inl (
          subst (Created pid c entry_point priority k) (sym at) (
            Created-moved pid c entry_point (pid + 1) priority k
              (create_in_slot pid name entry_point priority k1) made))
    by_pid (pid, k') (inr (no_slot, same, full)) = inr (
      ap (λ b. if b then (none, k') else create_in_slot pid name entry_point priority k')
            (subst (λ x. (x == no_pid) ≡ true) (sym no_slot) (==_refl no_pid))
          ∙ ap (λ x. (none, x)) same,
      full,
    )
