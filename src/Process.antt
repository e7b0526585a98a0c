-- ===== src/Process.antt =====
-- The process table of src/kernel/process.c and include/process.h. A `process_t*` is the index of its
-- slot in `process_table`, NULL is `none`. Log lines are left out.
pub mod Create
pub mod Destroy
pub mod Destroyed
pub mod Reparent
pub mod Rounds
pub mod Orphans
pub mod Pids
pub mod Spawn
pub mod Store
mod Tests
use aether_os.Base.{
  ℕ, zero, suc, ◌+◌, ◌-◌, ◌*◌, Bool, true, false, not, ◌&&◌, ◌||◌, ltb, leb, ◌==◌, if◌then◌else◌,
  Option, none, some, List, [], ◌∷◌, ◌++◌, get_or, set, replicate,
}
use aether_os.Base.Words.{add32, sub32}

abbrev pub max_processes : ℕ
max_processes = 256

abbrev pub kernel_stack_size : ℕ
kernel_stack_size = 4096

-- `process_state_t`
pub data ProcessState : Type 0 where
  new ready running blocked terminated : ProcessState

-- `process_priority_t`
pub data ProcessPriority : Type 0 where
  idle low normal high realtime : ProcessPriority

-- `registers_t`
pub record Registers : Type 0 where
  pub eax : ℕ
  pub ebx : ℕ
  pub ecx : ℕ
  pub edx : ℕ
  pub esi : ℕ
  pub edi : ℕ
  pub ebp : ℕ
  pub esp : ℕ
  pub ds : ℕ
  pub es : ℕ
  pub fs : ℕ
  pub gs : ℕ
  pub ss : ℕ
  pub eip : ℕ
  pub eflags : ℕ
  pub cr3 : ℕ

abbrev pub zero_registers : Registers
zero_registers = record {
  eax = 0;
  ebx = 0;
  ecx = 0;
  edx = 0;
  esi = 0;
  edi = 0;
  ebp = 0;
  esp = 0;
  ds = 0;
  es = 0;
  fs = 0;
  gs = 0;
  ss = 0;
  eip = 0;
  eflags = 0;
  cr3 = 0;
}

-- `process_t`; `children` has 16 places.
pub record Process : Type 0 where
  pub pid : ℕ
  pub name : List ℕ
  pub state : ProcessState
  pub priority : ProcessPriority
  pub quantum : ℕ
  pub registers : Registers
  pub page_directory : ℕ
  pub kernel_stack : ℕ
  pub user_stack : ℕ
  pub is_kernel : ℕ
  pub parent : Option ℕ
  pub children : List (Option ℕ)
  pub num_children : ℕ
  pub next : Option ℕ
  pub prev : Option ℕ
  pub time_created : ℕ
  pub time_running : ℕ
  pub context_switches : ℕ
  pub exit_code : ℕ

-- `memset(process, 0, sizeof(process_t))`: the states and priorities numbered 0 are NEW and IDLE.
abbrev pub zero_process : Process
zero_process = record {
  pid = 0;
  name = replicate 32 0;
  state = new;
  priority = idle;
  quantum = 0;
  registers = zero_registers;
  page_directory = 0;
  kernel_stack = 0;
  user_stack = 0;
  is_kernel = 0;
  parent = none;
  children = replicate 16 none;
  num_children = 0;
  next = none;
  prev = none;
  time_created = 0;
  time_running = 0;
  context_switches = 0;
  exit_code = 0;
}

abbrev pub Table : Type 0
Table = ℕ → Process

-- The statics of process.c and scheduler.c, and what they read and write of other files: the stack
-- pointer in the TSS, the current page directory, the tick counter, and the address of
-- `process_stacks`.
pub record Kernel : Type 0 where
  pub process_table : Table
  pub current_process : Option ℕ
  pub next_pid : ℕ
  pub stack_allocated : ℕ → Bool
  pub process_stacks : ℕ
  pub ready_queue_head : Option ℕ
  pub ready_queue_tail : Option ℕ
  pub ready_queue_count : ℕ
  pub scheduler_enabled : Bool
  pub esp0 : ℕ
  pub current_directory : ℕ
  pub system_ticks : ℕ

-- an assignment to the fields of one process
unfoldable pub modify : ℕ → (Process → Process) → Kernel → Kernel
modify p f k = record k {
  process_table = λ a. if a == p then f (k.process_table p) else k.process_table a;
}

abbrev pub is_terminated : ProcessState → Bool
is_terminated terminated = true
is_terminated _ = false

abbrev pub is_running : ProcessState → Bool
is_running running = true
is_running _ = false

-- `strncpy_local(dest, src, 31)` and `dest[31] = '\0'`: the name without its terminator.
unfoldable pub copy_name : ℕ → List ℕ → List ℕ
copy_name zero src = []
copy_name (suc n) [] = 0 ∷ copy_name n []
copy_name (suc n) (c ∷ src) = if c == 0 then 0 ∷ copy_name n [] else c ∷ copy_name n src

-- `"kernel_idle"`
abbrev kernel_idle : List ℕ
kernel_idle = 107 ∷ 101 ∷ 114 ∷ 110 ∷ 101 ∷ 108 ∷ 95 ∷ 105 ∷ 100 ∷ 108 ∷ 101 ∷ []

unfoldable pub process_init : Kernel → Kernel
unfolding copy_name
process_init k = record k {
  process_table = λ i.
      if i == 0
      then record zero_process {
        name = copy_name 31 kernel_idle ++ (0 ∷ []);
        state = running;
        quantum = 1;
        page_directory = k.current_directory;
        time_created = k.system_ticks;
      }
      else record zero_process { pid = i; state = terminated };
  current_process = some 0;
  next_pid = 1;
}

-- The loop of `process_allocate_pid` over `n` slots from `i`.
unfoldable pub find_slot : ℕ → ℕ → Table → Option ℕ
find_slot zero i t = none
find_slot (suc n) i t =
    let rest = find_slot n (i + 1) t in if is_terminated (t i).state then some i else rest

abbrev pub no_pid : ℕ
no_pid = 0xFFFF_FFFF

unfoldable pub process_allocate_pid : Kernel → ℕ × Kernel
process_allocate_pid k = elim (find_slot (max_processes - k.next_pid) k.next_pid k.process_table) [
  | some i ↦ (i, record k { next_pid = i + 1 })
  | none ↦ elim (find_slot (k.next_pid - 1) 1 k.process_table) [
    | some i ↦ (i, record k { next_pid = i + 1 })
    | none ↦ (no_pid, k)
  ]
]

unfoldable pub process_free_pid : ℕ → Kernel → Kernel
process_free_pid pid k =
    if ltb pid max_processes then modify pid (λ p. record p { state = terminated }) k else k

-- `children[num_children++] = child` under its guard
abbrev pub add_child : ℕ → Process → Process
add_child child p =
    if ltb p.num_children 16
    then record p {
      children = set p.children p.num_children (some child);
      num_children = p.num_children + 1;
    }
    else p

abbrev pub add_child_of : Option ℕ → ℕ → Kernel → Kernel
add_child_of none child k = k
add_child_of (some parent) child k = modify parent (add_child child) k

-- `"unnamed"`
abbrev pub unnamed : List ℕ
unnamed = 117 ∷ 110 ∷ 110 ∷ 97 ∷ 109 ∷ 101 ∷ 100 ∷ []

-- the fields that `process_create` fills in before it asks for a stack
abbrev pub new_process : ℕ → Option (List ℕ) → ProcessPriority → Process
new_process pid name priority = record zero_process {
  pid = pid;
  name = elim name [ some s ↦ copy_name 31 s | none ↦ copy_name 31 unnamed ] ++ (0 ∷ []);
  priority = priority;
  quantum = 10;
}

abbrev pub stack_of : Kernel → ℕ → ℕ
stack_of k pid = add32 k.process_stacks (kernel_stack_size * pid)

-- the rest of `process_create`, once the stack is taken
abbrev pub fill_process : ℕ → ℕ → Kernel → Process → Process
fill_process pid entry_point k p = record p {
  kernel_stack = stack_of k pid;
  user_stack = stack_of k pid;
  registers = record zero_registers {
    esp = sub32 (add32 (stack_of k pid) kernel_stack_size) 16;
    ebp = sub32 (add32 (stack_of k pid) kernel_stack_size) 16;
    eip = entry_point;
    eflags = 0x202;
  };
  page_directory = k.current_directory;
  parent = k.current_process;
}

-- the assignments behind the parent's child list
abbrev pub start_process : ℕ → Process → Process
start_process ticks p = record p {
  num_children = 0;
  next = none;
  prev = none;
  time_created = ticks;
  time_running = 0;
  context_switches = 0;
  exit_code = 0;
  state = ready;
}

-- `process_create` with its slot: `none` is the NULL that it returns when the slot has no stack.
unfoldable pub create_in_slot :
    ℕ → Option (List ℕ) → ℕ → ProcessPriority → Kernel → Option ℕ × Kernel
create_in_slot pid name entry_point priority k =
    let k1 = modify pid (λ _. new_process pid name priority) k in
    let k2 = record k1 { stack_allocated = λ i. i == pid || k1.stack_allocated i } in
    let k3 = modify pid (fill_process pid entry_point k2) k2 in
    let k4 = add_child_of k3.current_process pid k3 in
    if ltb pid max_processes && not (k1.stack_allocated pid)
    then (some pid, modify pid (start_process k4.system_ticks) k4)
    else (none, process_free_pid pid k1)

unfoldable pub process_create : Option (List ℕ) → ℕ → ProcessPriority → Kernel → Option ℕ × Kernel
process_create name entry_point priority k =
    let (pid, k') = process_allocate_pid k in
    if pid == no_pid then (none, k') else create_in_slot pid name entry_point priority k'

unfoldable pub process_exit : ℕ → Kernel → Kernel
process_exit exit_code k = elim k.current_process [
  | none ↦ k
  | some p ↦ modify p (λ q. record q { exit_code = exit_code; state = terminated }) k
]

unfoldable pub process_set_state : Option ℕ → ProcessState → Kernel → Kernel
process_set_state none s k = k
process_set_state (some p) s k = modify p (λ q. record q { state = s }) k

unfoldable pub process_get_by_pid : ℕ → Kernel → Option ℕ
process_get_by_pid pid k =
    if leb max_processes pid
    then none
    else (if is_terminated (k.process_table pid).state then none else some pid)
