-- ===== src/Process/Destroy.antt =====
-- `process_destroy` of src/kernel/process.c. The places of `children` below `num_children` are never
-- NULL in the source; a NULL there is passed over.
use aether_os.Base.{
  ℕ, zero, suc, ◌-◌, ◌==◌, ltb, Bool, false, if◌then◌else◌, Option, none, some, List, get_or, set,
}
use aether_os.Process.{Kernel, Process, modify, max_processes, terminated, add_child}

-- `children[i] == child`
abbrev pub is_child : ℕ → Option ℕ → Bool
is_child child none = false
is_child child (some c) = c == child

-- The search over `n` places from `i`.
unfoldable pub find_child : ℕ → ℕ → ℕ → List (Option ℕ) → Option ℕ
find_child child zero i children = none
find_child child (suc n) i children =
    let later = find_child child n (suc i) children in
    if is_child child (get_or children i none) then some i else later

-- `children[j] = children[j + 1]` for `n` places from `j`
unfoldable pub shift_children : ℕ → ℕ → List (Option ℕ) → List (Option ℕ)
shift_children zero j children = children
shift_children (suc n) j children =
    shift_children n (suc j) (set children j (get_or children (suc j) none))

unfoldable pub remove_child : ℕ → Process → Process
remove_child child p = elim (find_child child p.num_children 0 p.children) [
  | none ↦ p
  | some i ↦ record p {
    children = shift_children (p.num_children - 1 - i) i p.children;
    num_children = p.num_children - 1;
  }
]

-- out of the child list of the parent, if there is one
abbrev pub leave : ℕ → Option ℕ → Kernel → Kernel
leave p none k = k
leave p (some parent) k = modify parent (remove_child p) k

unfoldable pub leave_parent : ℕ → Kernel → Kernel
leave_parent p k = leave p (k.process_table p).parent k

abbrev pub set_parent : ℕ → Process → Process
set_parent parent q = record q { parent = some parent }

-- the body of the loop over the children
abbrev pub adopt : Option ℕ → ℕ → Kernel → Kernel
adopt none new_parent k = k
adopt (some child) new_parent k =
    modify new_parent (add_child child) (modify child (set_parent new_parent) k)

-- The loop over the children from place `i`, whose bound is read again in each round, on fuel.
unfoldable pub reparent : ℕ → ℕ → ℕ → ℕ → Kernel → Kernel
reparent zero i p new_parent k = k
reparent (suc fuel) i p new_parent k =
    let q = k.process_table p in
    let later =
      reparent fuel (suc i) p new_parent (adopt (get_or q.children i none) new_parent k) in
    if ltb i q.num_children then later else k

unfoldable pub free_stack : ℕ → Kernel → Kernel
free_stack pid k = record k {
  stack_allocated = λ i. if i == pid then false else k.stack_allocated i;
}

abbrev pub set_terminated : Process → Process
set_terminated q = record q { state = terminated }

unfoldable pub process_destroy : Option ℕ → Kernel → Kernel
process_destroy none k = k
process_destroy (some p) k =
    let pid = (k.process_table p).pid in
    let new_parent = if ltb 1 k.next_pid then 1 else 0 in
    let orphaned = reparent 16 0 p new_parent (leave_parent p k) in
    if pid == 0
    then k
    else modify p set_terminated
        (if ltb pid max_processes then free_stack pid orphaned else orphaned)
