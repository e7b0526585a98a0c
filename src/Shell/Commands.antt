-- ===== src/Shell/Commands.antt =====
-- The commands of src/kernel/shell.c that change the kernel or the heap, without what they print, and
-- `cmd_echo`, `cmd_uptime` and the prompt. The entry points of the test programs are arguments.
use aether_os.Base.{
  ℕ, zero, suc, ◌+◌, ◌*◌, ◌/◌, ◌%◌, ◌==◌, ◌||◌, not, Bool, true, false, if◌then◌else◌, List, [],
  ◌∷◌, Option, none, some, ◌≡◌, ◌⊎◌, inl, inr, refl,
}
use Prim.Native.String.{String}
use aether_os.Base.Strings.{bytes_of}
use aether_os.Console.{Console}
use aether_os.Console.Printk.{text, Printed, printk}
use aether_os.Memory.{Heap, kmalloc, kfree}
use aether_os.Process.{Kernel, Registers, process_create, normal}
use aether_os.Scheduler.{
  Switch, scheduler_enable, scheduler_disable, scheduler_yield, scheduler_add_process,
}
use aether_os.Usermode.{Programs, Machine, process_setup_user_mode}
use aether_os.Shell.{is_zero, strcmp}

-- `strcmp(args, name) == 0`
abbrev is : List ℕ → List ℕ → Bool
is args name = is_zero (strcmp args name)

-- `while (*args == ' ') args++`
unfoldable pub skip_spaces : List ℕ → List ℕ
skip_spaces [] = []
skip_spaces (c ∷ args) = let later = skip_spaces args in if c == b' ' then later else c ∷ args

-- the chain of `cmd_sched` on its argument
unfoldable pub sched_argument : List ℕ → Registers → Kernel → Kernel × Switch
sched_argument args cpu k =
    if is args (bytes_of "stats") || is args (bytes_of "status")
    then (k, none)
    else (if is args (bytes_of "start") || is args (bytes_of "enable")
        then (if k.scheduler_enabled then (k, none) else (scheduler_enable k, none))
        else (if is args (bytes_of "stop") || is args (bytes_of "disable")
            then (if not k.scheduler_enabled then (k, none) else (scheduler_disable k, none))
            else (if is args (bytes_of "yield")
                then (if not k.scheduler_enabled then (k, none) else scheduler_yield cpu k)
                else (k, none))))

unfoldable pub cmd_sched : Option (List ℕ) → Registers → Kernel → Kernel × Switch
cmd_sched none cpu k = (k, none)
cmd_sched (some args) cpu k = sched_argument (skip_spaces args) cpu k

-- `process_create` and, if it succeeds, `scheduler_add_process`
abbrev pub start : List ℕ → ℕ → Kernel → Kernel
start name entry_point k =
    let (p, created) = process_create (some name) entry_point normal k in
    scheduler_add_process p created

-- `ps create`, with the addresses of `test_process_1` and `test_process_2`
unfoldable pub ps_create : ℕ → ℕ → Kernel → Kernel
ps_create test_process_1 test_process_2 k =
    start (bytes_of "test_proc_2") test_process_2 (start (bytes_of "test_proc_1") test_process_1 k)

-- `process_create` and, if it succeeds, `process_setup_user_mode` and `scheduler_add_process`
abbrev pub start_user : Programs → List ℕ → ℕ → Machine → Machine
start_user at name entry_point m =
    let (p, created) = process_create (some name) 0 normal m.kernel in
    let ready = process_setup_user_mode at p entry_point (record m { kernel = created }) in
    record ready { kernel = scheduler_add_process p ready.kernel }

-- `usermode create`
unfoldable pub usermode_create : Programs → Machine → Machine
usermode_create at m =
    let first = start_user at (bytes_of "user_test_1") at.user_mode_test_1 m in
    start_user at (bytes_of "user_test_2") at.user_mode_test_2 first

-- the heap behind `cmd_meminfo`
unfoldable pub cmd_meminfo : Heap → Heap
cmd_meminfo h =
    let (ptr1, h1) = kmalloc 1024 h in
    let (ptr2, h2) = kmalloc 2048 h1 in
    let (ptr3, h3) = kmalloc 512 h2 in
    let (ptr4, h4) = kmalloc 1500 (kfree ptr2 h3) in kfree ptr4 (kfree ptr3 (kfree ptr1 h4))

-- the first loop of `test malloc`: `n` blocks from round `i`, in the order of the rounds
unfoldable pub allocate : ℕ → ℕ → Heap → List ℕ × Heap
allocate zero i h = ([], h)
allocate (suc n) i h =
    let (ptr, h1) = kmalloc ((i + 1) * 100) h in
    let (ptrs, h2) = allocate n (i + 1) h1 in (ptr ∷ ptrs, h2)

-- the loops that free every second block, from the first or the second one
unfoldable pub free_alternate : Bool → List ℕ → Heap → Heap
free_alternate frees [] h = h
free_alternate true (ptr ∷ ptrs) h = free_alternate false ptrs (kfree ptr h)
free_alternate false (ptr ∷ ptrs) h = free_alternate true ptrs h

-- `test malloc`
unfoldable pub test_malloc : Heap → Heap
test_malloc h =
    let (ptrs, taken) = allocate 10 0 h in
    free_alternate false ptrs (free_alternate true ptrs taken)

-- hours, minutes and seconds of `cmd_uptime`
unfoldable pub cmd_uptime : ℕ → ℕ × ℕ × ℕ
cmd_uptime uptime_sec = (uptime_sec / 3600, uptime_sec % 3600 / 60, uptime_sec % 60)

unfoldable pub cmd_echo : Option (List ℕ) → Console → Option Printed
cmd_echo none c = printk (bytes_of "\n") [] c
cmd_echo (some args) c = printk (bytes_of "%s\n") (text args ∷ []) c

-- What a command may leave, by whether the scheduler is on.
abbrev pub Allowed : Registers → Kernel → Bool → Kernel × Switch → Type 0
Allowed cpu k false r = (r ≡ (k, none)) ⊎ (r ≡ (scheduler_enable k, none))
Allowed cpu k true r =
    (r ≡ (k, none)) ⊎ ((r ≡ (scheduler_disable k, none)) ⊎ (r ≡ scheduler_yield cpu k))

stays : (cpu : Registers) (k : Kernel) (flag : Bool) → Allowed cpu k flag (k, none)
stays cpu k false = inl refl
stays cpu k true = inl refl

-- For every argument of `sched`, or none: with the scheduler off the kernel stays as it is or the scheduler is
-- turned on, and no other process is switched to; with the scheduler on the kernel stays as it is,
-- the scheduler is turned off, or the process yields.
pub cmd_sched-Allowed :
    (args : Option (List ℕ)) (cpu : Registers) (k : Kernel)
    → Allowed cpu k k.scheduler_enabled (cmd_sched args cpu k)
unfolding cmd_sched sched_argument
cmd_sched-Allowed none cpu k = stays cpu k k.scheduler_enabled
cmd_sched-Allowed (some args) cpu k =
    by_tests (asks "stats" "status") (asks "start" "enable") (asks "stop" "disable")
      (is (skip_spaces args) (bytes_of "yield")) k.scheduler_enabled
  where
    asks : String → String → Bool
    asks name other =
        is (skip_spaces args) (bytes_of name) || is (skip_spaces args) (bytes_of other)

    by_tests :
        (stats on off yields flag : Bool)
        → Allowed cpu k flag (
            if stats
            then (k, none)
            else (if on
                then (if flag then (k, none) else (scheduler_enable k, none))
                else (if off
                    then (if not flag then (k, none) else (scheduler_disable k, none))
                    else (if yields
                        then (if not flag then (k, none) else scheduler_yield cpu k)
                        else (k, none)))))
    by_tests true on off yields flag = stays cpu k flag
    by_tests false true off yields true = inl refl
    by_tests false true off yields false = inr refl
    by_tests false false true yields true = inr (inl refl)
    by_tests false false true yields false = inl refl
    by_tests false false false true true = inr (inr refl)
    by_tests false false false true false = inl refl
    by_tests false false false false flag = stays cpu k flag
