-- ===== src/Syscall.antt =====
-- The system calls of src/kernel/syscall.c. The memory that `buf` points into is an argument, a function
-- of the address; what a call prints is the list of its calls on the console, in order. The scheduler's log lines
-- at a switch are left out.
pub mod Write
pub mod Calls
mod Tests
use aether_os.Base.{
  ℕ, zero, suc, ◌+◌, ◌-◌, Bool, true, false, ◌&&◌, ◌||◌, not, ltb, ◌==◌, if◌then◌else◌, Option,
  none, some, List, [], ◌∷◌,
}
use aether_os.Base.Strings.{bytes_of}
use aether_os.Console.Printk.{Arg, text, number}
use aether_os.Process.{Kernel, Process, Registers, process_exit}
use aether_os.Scheduler.{Switch, scheduler_yield}
use aether_os.Descriptors.{Idt, idt_set_gate}

-- `-1` as a `uint32_t`
abbrev pub failed : ℕ
failed = 0xFFFF_FFFF

-- a call of `printk` or of `printk_warn`, with its format and its arguments
pub data Said : Type 0 where
  print warn : List ℕ → List Arg → Said

-- The new value of EAX, the kernel, a switch that took place, and the calls on the console.
pub record Done : Type 0 where
  pub result : ℕ
  pub kernel : Kernel
  pub switch : Switch
  pub console : List Said

abbrev pub done : ℕ → Kernel → Done
done result k = record { result = result; kernel = k; switch = none; console = [] }

-- a string of C in an array, up to its NUL
abbrev c_string : List ℕ → List ℕ
c_string [] = []
c_string (c ∷ str) = let rest = c_string str in if c == 0 then [] else c ∷ rest

-- the line of `sys_exit`, and that of `process_exit`
abbrev pub exit_lines : Process → ℕ → List Said
exit_lines p status =
    print (bytes_of "[SYSCALL] Process %d (%s) exiting with status %d\n")
      (number p.pid ∷ text (c_string p.name) ∷ number status ∷ [])
    ∷ print (bytes_of "  Process '%s' (PID %d) exited with code %d\n")
        (text (c_string p.name) ∷ number p.pid ∷ number status ∷ [])
    ∷ []

unfoldable pub sys_exit : ℕ → Kernel → Done
sys_exit status k = elim k.current_process [
  | none ↦ done failed k
  | some p ↦ record (done 0 (process_exit status k)) {
    console = exit_lines (k.process_table p) status;
  }
]

-- The loop of `sys_write` over at most `len` characters from `buf`: a `printk("%c", ...)` for each.
unfoldable pub write_chars : (ℕ → ℕ) → ℕ → ℕ → List Said
write_chars memory buf zero = []
write_chars memory buf (suc len) =
    let rest = write_chars memory (buf + 1) len in
    if memory buf == 0 then [] else print (bytes_of "%c") (number (memory buf) ∷ []) ∷ rest

unfoldable pub sys_write : (ℕ → ℕ) → ℕ → ℕ → ℕ → Kernel → Done
sys_write memory fd buf len k =
    if buf == 0 || len == 0
    then done 0 k
    else (if not (fd == 1) && not (fd == 2)
        then done failed k
        else record (done len k) { console = write_chars memory buf len })

-- not implemented
unfoldable pub sys_read : Kernel → Done
sys_read k = done failed k

unfoldable pub sys_yield : Registers → Kernel → Done
sys_yield cpu k =
    let (k', s) = scheduler_yield cpu k in
    if k.scheduler_enabled then record (done 0 k) { kernel = k'; switch = s } else done 0 k

-- the `switch` of `syscall_handler`, by the number in EAX
unfoldable pub dispatch : (ℕ → ℕ) → Registers → Registers → Kernel → Done
dispatch memory cpu regs k =
    if regs.eax == 1
    then sys_exit regs.ebx k
    else (if regs.eax == 2
        then sys_write memory regs.ebx regs.ecx regs.edx k
        else (if regs.eax == 3
            then sys_read k
            else (if regs.eax == 4 then sys_yield cpu k else record (done failed k) {
              console = warn (bytes_of "Unknown syscall: %d") (number regs.eax ∷ []) ∷ [];
            })))

-- The debug line comes first, whatever the number. The registers that it leaves, and the rest.
unfoldable pub syscall_handler : (ℕ → ℕ) → Registers → Registers → Kernel → Registers × Done
syscall_handler memory cpu regs k =
    let d = dispatch memory cpu regs k in
    let line = print (bytes_of "[SYSCALL] num=%d (EAX=0x%x) arg1=0x%x arg2=0x%x arg3=0x%x\n") (
      number regs.eax
      ∷ number regs.eax
      ∷ number regs.ebx
      ∷ number regs.ecx
      ∷ number regs.edx
      ∷ []) in
    (record regs { eax = d.result }, record d { console = line ∷ d.console })

unfoldable pub syscall_init : ℕ → Idt → Idt
syscall_init syscall_wrapper idt = idt_set_gate 0x80 syscall_wrapper 0x08 0xEE idt
