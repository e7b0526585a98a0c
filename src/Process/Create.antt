-- ===== src/Process/Create.antt =====
-- `process_create`, `process_exit` and `process_get_by_pid` of src/kernel/process.c.
use aether_os.Base.{
  ℕ, ◌+◌, ◌≤◌, ◌⊎◌, inl, inr, set, Bool-cases, if_true, if_false, ◌*◌, ◌<◌, ◌≡◌, ◌≢◌, refl, Bool,
  true, false, not, ◌&&◌, ◌||◌, Option, none, some, List, arith, ap, ◌∙◌, sym, subst, if◌then◌else◌,
  ◌==◌, ltb, ==_refl,
}
use aether_os.Base.Words.{add32, sub32}
use aether_os.Process.Store.{
  modify_self, modify_ne, modify-current, modify-stack_allocated, modify-process_stacks,
}
use aether_os.Process.{
  Kernel, Process, ProcessPriority, ready, terminated, is_terminated, create_in_slot, process_exit,
  process_get_by_pid, process_free_pid, max_processes, kernel_stack_size, modify, add_child,
  add_child_of, new_process, fill_process, start_process,
}

-- The parent's list has room for 16 children: the new one is written behind them, or the list is full and
-- the parent as it was.
abbrev pub ChildOf : ℕ → Process → Process → Type 0
ChildOf child p q =
    ((p.num_children < 16)
      × (q ≡ record p {
        children = set p.children p.num_children (some child);
        num_children = p.num_children + 1;
      }))
    ⊎ ((16 ≤ p.num_children) × (q ≡ p))

add_child-ChildOf : (child : ℕ) (p : Process) → ChildOf child p (add_child child p)
add_child-ChildOf child p = elim (Bool-cases (ltb p.num_children 16)) [
  | inl room ↦ inl (ground (arith, room), if_true (ltb p.num_children 16) _ _ room)
  | inr full ↦ inr (ground (arith, full), if_false (ltb p.num_children 16) _ _ full)
]

-- What `process_create` leaves in slot `pid` of the table, and the caller `c` of it.
pub record Created (pid c : ℕ) (entry_point : ℕ) (priority : ProcessPriority) (k : Kernel)
    (r : Option ℕ × Kernel) : Type 0 where
  pub result : r.0 ≡ some pid
  pub pid_of : (r.1.process_table pid).pid ≡ pid
  pub state : (r.1.process_table pid).state ≡ ready
  pub priority_of : (r.1.process_table pid).priority ≡ priority
  pub entry : (r.1.process_table pid).registers.eip ≡ entry_point
  pub stack :
      (r.1.process_table pid).kernel_stack ≡ add32 k.process_stacks (kernel_stack_size * pid)
  pub stack_top :
      (r.1.process_table pid).registers.esp
      ≡ sub32 (add32 (r.1.process_table pid).kernel_stack kernel_stack_size) 16
  pub parent : (r.1.process_table pid).parent ≡ some c
  pub taken : r.1.stack_allocated pid ≡ true
  pub child : ChildOf pid (k.process_table c) (r.1.process_table c)
  pub others : (a : ℕ) → a ≢ pid → a ≢ c → r.1.process_table a ≡ k.process_table a

module _ (pid : ℕ) (name : Option (List ℕ)) (entry_point : ℕ) (priority : ProcessPriority)
    (k : Kernel) where
  abbrev named : Kernel
  named = modify pid (λ _. new_process pid name priority) k

  abbrev with_stack : Kernel
  with_stack = record named { stack_allocated = λ i. i == pid || named.stack_allocated i }

  abbrev filled : Kernel
  filled = modify pid (fill_process pid entry_point with_stack) with_stack

  abbrev linked : ℕ → Kernel
  linked c = modify c (add_child pid) filled

  abbrev finished : ℕ → Kernel
  finished c = modify pid (start_process (linked c).system_ticks) (linked c)

  create-finished :
      (c : ℕ)
      → pid < max_processes
      → k.stack_allocated pid ≡ false
      → k.current_process ≡ some c
      → create_in_slot pid name entry_point priority k ≡ (some pid, finished c)
  unfolding create_in_slot
  create-finished c small free cur =
      let fits : ltb pid max_processes ≡ true = ground (arith, small) in
      let cur' : filled.current_process ≡ some c =
        modify-current pid (fill_process pid entry_point with_stack) with_stack
        ∙ modify-current pid (λ _. new_process pid name priority) k
        ∙ cur in
      let free' : named.stack_allocated pid ≡ false =
        ap (λ (f : ℕ → Bool). f pid)
          (modify-stack_allocated pid (λ _. new_process pid name priority) k)
        ∙ free in
      let last : Kernel → Kernel = λ k4. modify pid (start_process k4.system_ticks) k4 in
      let fail : Option ℕ × Kernel = (none, process_free_pid pid named) in
      ap
        (λ b.
          if b && not (named.stack_allocated pid)
          then (some pid, last (add_child_of filled.current_process pid filled))
          else fail)
        fits
      ∙ ap
          (λ b.
            if not b
            then (some pid, last (add_child_of filled.current_process pid filled))
            else fail)
          free'
      ∙ ap (λ o. (some pid, last (add_child_of o pid filled))) cur'

  create-refuses :
      k.stack_allocated pid ≡ true
      → create_in_slot pid name entry_point priority k ≡ (none, process_free_pid pid named)
  unfolding create_in_slot
  create-refuses taken =
      let k4 = add_child_of filled.current_process pid filled in
      let done = modify pid (start_process k4.system_ticks) k4 in
      let taken' : named.stack_allocated pid ≡ true =
        ap (λ (f : ℕ → Bool). f pid)
          (modify-stack_allocated pid (λ _. new_process pid name priority) k)
        ∙ taken in
      refused (some pid, done) (none, process_free_pid pid named) (ltb pid max_processes)
        (named.stack_allocated pid) taken'
    where
      refused :
          (x y : Option ℕ × Kernel) (b t : Bool) → t ≡ true → (if b && not t then x else y) ≡ y
      refused x y b true e = ground arith
      refused x y b false e = ground arith

  finished-at_pid :
      (c : ℕ)
      → c ≢ pid
      → (finished c).process_table pid
        ≡ start_process
            (linked c).system_ticks
            (fill_process pid entry_point with_stack (new_process pid name priority))
  finished-at_pid c ne =
      let start = start_process (linked c).system_ticks in
      let fill = fill_process pid entry_point with_stack in
      modify_self pid start (linked c)
      ∙ ap start (modify_ne c (add_child pid) filled pid (λ e. ne (sym e)))
      ∙ ap start (modify_self pid fill with_stack)
      ∙ ap (λ p. start (fill p)) (modify_self pid (λ _. new_process pid name priority) k)

  kept : (a : ℕ) → a ≢ pid → filled.process_table a ≡ k.process_table a
  kept a ne =
      modify_ne pid (fill_process pid entry_point with_stack) with_stack a ne
      ∙ modify_ne pid (λ _. new_process pid name priority) k a ne

  finished-at_c :
      (c : ℕ) → c ≢ pid → (finished c).process_table c ≡ add_child pid (k.process_table c)
  finished-at_c c ne =
      modify_ne pid (start_process (linked c).system_ticks) (linked c) c ne
      ∙ modify_self c (add_child pid) filled
      ∙ ap (add_child pid) (kept c ne)

  finished-others : (c a : ℕ) → a ≢ pid → a ≢ c → (finished c).process_table a ≡ k.process_table a
  finished-others c a ne ne' =
      modify_ne pid (start_process (linked c).system_ticks) (linked c) a ne
      ∙ modify_ne c (add_child pid) filled a ne'
      ∙ kept a ne

  finished-taken : (c : ℕ) → (finished c).stack_allocated pid ≡ true
  finished-taken c =
      ap (λ (f : ℕ → Bool). f pid)
        (modify-stack_allocated pid (start_process (linked c).system_ticks) (linked c)
          ∙ modify-stack_allocated c (add_child pid) filled
          ∙ modify-stack_allocated pid (fill_process pid entry_point with_stack) with_stack)
      ∙ ap (λ b. b || named.stack_allocated pid) (==_refl pid)

-- `create_in_slot`, the part of `process_create` behind the PID, of a slot whose stack is free: the
-- process is READY under its PID and entry point, with its own stack, its parent is the current
-- process, whose list of children gains it, and no other process changes.
pub create_in_slot-Created :
    (pid c : ℕ) (name : Option (List ℕ)) (entry_point : ℕ) (priority : ProcessPriority) (k : Kernel)
    → pid < max_processes
    → k.stack_allocated pid ≡ false
    → k.current_process ≡ some c
    → c ≢ pid
    → Created pid c entry_point priority k (create_in_slot pid name entry_point priority k)
create_in_slot-Created pid c name entry_point priority k small free cur ne =
    let at_pid = finished-at_pid pid name entry_point priority k c ne in
    subst (Created pid c entry_point priority k)
      (sym (create-finished pid name entry_point priority k c small free cur))
      (record {
        result = refl;
        pid_of = ap (λ (p : Process). p.pid) at_pid;
        state = ap (λ (p : Process). p.state) at_pid;
        priority_of = ap (λ (p : Process). p.priority) at_pid;
        entry = ap (λ (p : Process). p.registers.eip) at_pid;
        stack =
            ap (λ (p : Process). p.kernel_stack) at_pid
            ∙ ap (λ b. add32 b (kernel_stack_size * pid))
                (modify-process_stacks pid (λ _. new_process pid name priority) k);
        stack_top =
            ap (λ (p : Process). p.registers.esp) at_pid
            ∙ sym (ap (λ (p : Process). sub32 (add32 p.kernel_stack kernel_stack_size) 16) at_pid);
        parent =
            ap (λ (p : Process). p.parent) at_pid
            ∙ modify-current pid (λ _. new_process pid name priority) k
            ∙ cur;
        taken = finished-taken pid name entry_point priority k c;
        child =
            subst (ChildOf pid (k.process_table c))
              (sym (finished-at_c pid name entry_point priority k c ne))
              (add_child-ChildOf pid (k.process_table c));
        others = λ a. finished-others pid name entry_point priority k c a;
      })

pub exits :
    (p : ℕ) (code : ℕ) (k : Kernel)
    → k.current_process ≡ some p
    → process_exit code k ≡ modify p (λ q. record q { exit_code = code; state = terminated }) k
unfolding process_exit
exits p code k cur =
    ap
      (λ o. elim o [
        | none ↦ k
        | some a ↦ modify a (λ q. record q { exit_code = code; state = terminated }) k
      ])
      cur

gone : (p : ℕ) (k : Kernel) → (k.process_table p).state ≡ terminated → process_get_by_pid p k ≡ none
unfolding process_get_by_pid
gone p k e = ground (arith, ap is_terminated e)

freed :
    (p : ℕ) (k : Kernel)
    → p < max_processes
    → ((process_free_pid p k).process_table p).state ≡ terminated
unfolding process_free_pid modify
freed p k small = ground arith

-- `process_exit` marks the current process TERMINATED with its exit code, and `process_get_by_pid`
-- does not find it any more, but its stack stays allocated: `process_create` fails for its slot and
-- leaves it TERMINATED.
pub process_exit-create_in_slot :
    (p : ℕ) (code : ℕ) (name : Option (List ℕ)) (entry_point : ℕ) (priority : ProcessPriority)
    (k : Kernel)
    → p < max_processes
    → k.current_process ≡ some p
    → k.stack_allocated p ≡ true
    → ((process_exit code k).process_table p
        ≡ record (k.process_table p) { exit_code = code; state = terminated })
      × (process_get_by_pid p (process_exit code k) ≡ none)
      × ((create_in_slot p name entry_point priority (process_exit code k)).0 ≡ none)
      × (((create_in_slot p name entry_point priority (process_exit code k)).1.process_table
            p).state
          ≡ terminated)
process_exit-create_in_slot p code name entry_point priority k small cur taken =
    let f : Process → Process = λ q. record q { exit_code = code; state = terminated } in
    let k1 = modify p f k in
    let at_p : k1.process_table p ≡ f (k.process_table p) = modify_self p f k in
    let refuses =
      create-refuses p name entry_point priority k1
        (ap (λ (g : ℕ → Bool). g p) (modify-stack_allocated p f k) ∙ taken) in
    let e = exits p code k cur in
    (
      ap (λ (x : Kernel). x.process_table p) e ∙ at_p,
      ap (process_get_by_pid p) e ∙ gone p k1 (ap (λ (q : Process). q.state) at_p),
      ap (λ x. (create_in_slot p name entry_point priority x).0) e ∙ ap (λ r. r.0) refuses,
      ap (λ x. ((create_in_slot p name entry_point priority x).1.process_table p).state) e
          ∙ ap (λ (r : Option ℕ × Kernel). (r.1.process_table p).state) refuses
          ∙ freed p (named p name entry_point priority k1) small,
    )
