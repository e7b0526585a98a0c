-- ===== src/Process/Destroyed.antt =====
-- `process_destroy` of src/kernel/process.c as a whole: the process is gone, its parent has one child less,
-- its children have a new parent, and its slot can be used again.
use aether_os.Base.{
  ℕ, ◌-◌, ◌≤◌, ◌<◌, ◌==◌, ltb, leb, Bool, true, false, not, ◌&&◌, if◌then◌else◌, Option, none, some,
  List, get_or, length, ◌≡◌, ◌≢◌, refl, sym, ap, ◌∙◌, arith, ◌⊎◌, inl, inr, if_true, if_false,
  ==_refl, subst,
}
use aether_os.Process.{
  Kernel, Process, ProcessPriority, modify, max_processes, is_terminated, process_get_by_pid,
  create_in_slot,
}
use aether_os.Process.Store.{modify_self, modify_ne}
use aether_os.Process.Destroy.{
  remove_child, find_child, shift_children, leave, leave_parent, reparent, free_stack,
  set_terminated, process_destroy,
}
use aether_os.Process.Orphans.{child_list, without, remove_child-without}
use aether_os.Process.Reparent.{
  modify_keeps, add_child_keeps, reparent_keeps, reparent-stack, reparent-children,
}

-- who the children go to
abbrev pub heir : Kernel → ℕ
heir k = if ltb 1 k.next_pid then 1 else 0

pub record Destroyed (p : ℕ) (k d : Kernel) : Type 0 where
  pub lookup : process_get_by_pid p d ≡ none
  pub others : (q : ℕ) → q ≢ p → (d.process_table q).state ≡ (k.process_table q).state
  pub stacks : (i : ℕ) → d.stack_allocated i ≡ (if i == p then false else k.stack_allocated i)
  pub children :
      (j c : ℕ)
      → j < (k.process_table p).num_children
      → get_or (k.process_table p).children j none ≡ some c
      → (d.process_table c).parent ≡ some (heir k)
  pub siblings :
      (q : ℕ)
      → (k.process_table p).parent ≡ some q
      → q ≢ heir k
      → (k.process_table q).num_children ≤ length (k.process_table q).children
      → child_list (d.process_table q) ≡ without p (child_list (k.process_table q))
  pub reuse :
      (name : Option (List ℕ)) (entry_point : ℕ) (priority : ProcessPriority)
      → (create_in_slot p name entry_point priority d).0 ≡ some p

heir-small : (k : Kernel) (p : ℕ) → 2 ≤ p → p ≢ heir k
heir-small k p le e = by_test (ltb 1 k.next_pid) e
  where
    by_test : (b : Bool) → p ≢ (if b then 1 else 0)
    by_test true e = omega (arith, le, e)
    by_test false e = omega (arith, le, e)

abbrev orphaned : ℕ → Kernel → Kernel
orphaned p k = reparent 16 0 p (heir k) (leave_parent p k)

process_destroy_lem :
    (p : ℕ) (k : Kernel)
    → 2 ≤ p
    → p < max_processes
    → (k.process_table p).pid ≡ p
    → process_destroy (some p) k ≡ modify p set_terminated (free_stack p (orphaned p k))
unfolding process_destroy
process_destroy_lem p k le lt own =
    ap
      (λ pid.
        if pid == 0
        then k
        else modify p set_terminated
            (if ltb pid max_processes then free_stack pid (orphaned p k) else orphaned p k))
      own
    ∙ if_false (p == 0) k _ (ground (arith, le))
    ∙ ap (modify p set_terminated) (if_true (ltb p max_processes) _ _ (ground (arith, lt)))

-- A field that `remove_child` keeps is kept by `leave_parent`, and so is every field of a process that is
-- not the parent.
leave_parent_keeps :
    {X : Type 0} (field : Process → X) (p q : ℕ) (k : Kernel)
    → ((k.process_table p).parent ≢ some q)
      ⊎ ((r : Process) (cs : List (Option ℕ)) (n : ℕ)
          → field (record r { children = cs; num_children = n }) ≡ field r)
    → field ((leave_parent p k).process_table q) ≡ field (k.process_table q)
unfolding leave_parent remove_child
leave_parent_keeps field p q k given = by_parent (k.process_table p).parent refl
  where
    by_place :
        (keeps : (r : Process) (cs : List (Option ℕ)) (n : ℕ)
          → field (record r { children = cs; num_children = n }) ≡ field r)
        → (r : Process) (place : Option ℕ)
        → field (elim place [
          | none ↦ r
          | some i ↦ record r {
            children = shift_children (r.num_children - 1 - i) i r.children;
            num_children = r.num_children - 1;
          }
        ])
          ≡ field r
    by_place keeps r none = refl
    by_place keeps r (some i) = keeps r _ _

    by_parent :
        (o : Option ℕ)
        → (k.process_table p).parent ≡ o
        → field ((leave p o k).process_table q) ≡ field (k.process_table q)
    by_parent none e = refl
    by_parent (some a) e = modify_keeps field a (remove_child p) k q (λ same. elim given [
      | inl other ↦ absurd (other (e ∙ ap some (sym same)))
      | inr keeps ↦
          by_place keeps (k.process_table a)
            (find_child p (k.process_table a).num_children 0 (k.process_table a).children)
    ])

leave_parent-siblings :
    (p q : ℕ) (k : Kernel)
    → (k.process_table p).parent ≡ some q
    → (leave_parent p k).process_table q ≡ remove_child p (k.process_table q)
unfolding leave_parent
leave_parent-siblings p q k e =
    ap (λ o. (leave p o k).process_table q) e ∙ modify_self q (remove_child p) k

leave_parent-stack : (p : ℕ) (k : Kernel) → (leave_parent p k).stack_allocated ≡ k.stack_allocated
unfolding leave_parent modify
leave_parent-stack p k = by_parent (k.process_table p).parent
  where
    by_parent : (o : Option ℕ) → (leave p o k).stack_allocated ≡ k.stack_allocated
    by_parent none = refl
    by_parent (some a) = refl

create_in_slot-free :
    (p : ℕ) (name : Option (List ℕ)) (entry_point : ℕ) (priority : ProcessPriority) (k : Kernel)
    → p < max_processes
    → k.stack_allocated p ≡ false
    → (create_in_slot p name entry_point priority k).0 ≡ some p
unfolding create_in_slot modify
create_in_slot-free p name entry_point priority k lt unused =
    ap (λ (r : Option ℕ × Kernel). r.0)
      (if_true (ltb p max_processes && not (k.stack_allocated p)) _ _ (ground (arith, lt, unused)))

module _ (p : ℕ) (k : Kernel) where
  abbrev freed : Kernel
  freed = free_stack p (orphaned p k)

  freed-table : (q : ℕ) → freed.process_table q ≡ (orphaned p k).process_table q
  unfolding free_stack
  freed-table q = refl

  -- A field that is not the state, behind the last assignment.
  last_keeps :
      {X : Type 0} (field : Process → X) (q : ℕ)
      → ((r : Process) → field (set_terminated r) ≡ field r)
      → field ((modify p set_terminated freed).process_table q)
        ≡ field ((orphaned p k).process_table q)
  last_keeps field q keeps =
      modify_keeps field p set_terminated freed q (λ same. keeps (freed.process_table p))
      ∙ ap field (freed-table q)

  destroyed-state :
      (q : ℕ)
      → q ≢ p
      → ((modify p set_terminated freed).process_table q).state ≡ (k.process_table q).state
  destroyed-state q ne =
      ap (λ r. r.state) (modify_ne p set_terminated freed q ne ∙ freed-table q)
      ∙ reparent_keeps (λ r. r.state) (heir k) q (λ r a. refl)
          (inr (add_child_keeps (λ r. r.state) (λ r cs n. refl))) 16 0 p (leave_parent p k)
      ∙ leave_parent_keeps (λ r. r.state) p q k (inr (λ r cs n. refl))

  destroyed-stacks :
      (i : ℕ)
      → (modify p set_terminated freed).stack_allocated i
        ≡ (if i == p then false else k.stack_allocated i)
  unfolding modify free_stack
  destroyed-stacks i =
      ap (λ stacks. if i == p then false else stacks i)
        (reparent-stack 16 0 p (heir k) (leave_parent p k) ∙ leave_parent-stack p k)

  destroyed-lookup : p < max_processes → process_get_by_pid p (modify p set_terminated freed) ≡ none
  unfolding process_get_by_pid
  destroyed-lookup lt =
      if_false (leb max_processes p) none _ (ground (arith, lt))
      ∙ if_true (is_terminated ((modify p set_terminated freed).process_table p).state) none
          (some p) (ap (λ r. is_terminated r.state) (modify_self p set_terminated freed))

  destroyed-siblings :
      (q : ℕ)
      → (k.process_table p).parent ≡ some q
      → q ≢ heir k
      → (k.process_table q).num_children ≤ length (k.process_table q).children
      → child_list ((modify p set_terminated freed).process_table q)
        ≡ without p (child_list (k.process_table q))
  destroyed-siblings q e ne fits =
      last_keeps child_list q (λ r. refl)
      ∙ reparent_keeps child_list (heir k) q (λ r a. refl) (inl ne) 16 0 p (leave_parent p k)
      ∙ ap child_list (leave_parent-siblings p q k e)
      ∙ remove_child-without p (k.process_table q) fits

  destroyed-children :
      (j c : ℕ)
      → 2 ≤ p
      → (k.process_table p).parent ≢ some p
      → (k.process_table p).num_children ≤ 16
      → j < (k.process_table p).num_children
      → get_or (k.process_table p).children j none ≡ some c
      → ((modify p set_terminated freed).process_table c).parent ≡ some (heir k)
  destroyed-children j c le other few small e =
      let count = leave_parent_keeps (λ r. r.num_children) p p k (inl other) in
      let places = leave_parent_keeps (λ r. r.children) p p k (inl other) in
      last_keeps (λ r. r.parent) c (λ r. refl)
      ∙ reparent-children 16 0 j p (heir k) c (leave_parent p k) (heir-small k p le) (omega arith)
          (omega (arith, small, few)) (omega (arith, small, count))
          (ap (λ cs. get_or cs j none) places ∙ e)

-- For a process that holds its own slot, from 2 on, and is not its own parent, with at most 16 children:
-- behind `process_destroy` the process is not found, its stack is free and the others as before, no other process has
-- changed its state, each of its children has the heir as its parent, and the parent's child list,
-- if the parent is not the heir, has lost the process and kept the others in order; and a process can be
-- created in the slot.
pub process_destroy-Destroyed :
    (p : ℕ) (k : Kernel)
    → 2 ≤ p
    → p < max_processes
    → (k.process_table p).pid ≡ p
    → (k.process_table p).parent ≢ some p
    → (k.process_table p).num_children ≤ 16
    → Destroyed p k (process_destroy (some p) k)
process_destroy-Destroyed p k le lt own other few =
    subst (Destroyed p k) (sym (process_destroy_lem p k le lt own)) (record {
      lookup = destroyed-lookup p k lt;
      others = destroyed-state p k;
      stacks = destroyed-stacks p k;
      children = λ j c. destroyed-children p k j c le other few;
      siblings = destroyed-siblings p k;
      reuse = λ name entry_point priority.
          create_in_slot-free p name entry_point priority (modify p set_terminated (freed p k)) lt
            (destroyed-stacks p k p ∙ if_true (p == p) false _ (==_refl p));
    })
