-- ===== src/Usermode.antt =====
-- User mode: src/kernel/usermode.c. The addresses of the test programs, which are assembly, are arguments;
-- memory is bytes by address. Log lines are left out.
pub mod Copy
pub mod Frame
pub mod Ready
mod Tests
use aether_os.Base.{ℕ, zero, suc, ◌+◌, ◌-◌, ◌==◌, ◌||◌, if◌then◌else◌, Option, none, some}
use aether_os.Base.Memory32.{write32}
use aether_os.Base.Store.{store}
use aether_os.Base.Words.{add32, sub32, mul32, low_bits}
use aether_os.Process.{Kernel, Process, Registers, modify}

-- where the linker puts the placeholders and the programs
pub record Programs : Type 0 where
  pub user_mode_test_1 : ℕ
  pub user_mode_test_2 : ℕ
  pub user_mode_test_1_asm : ℕ
  pub user_mode_test_2_asm : ℕ
  pub user_mode_test_2_asm_end : ℕ

-- the processes, and memory
pub record Machine : Type 0 where
  pub kernel : Kernel
  pub memory : ℕ → ℕ

-- `get_current_privilege_level`, of the register CS
abbrev pub get_current_privilege_level : ℕ → ℕ
get_current_privilege_level cs = low_bits cs 2

-- The loop of `copy_to_user_memory`: the first `n` bytes.
unfoldable pub copy_bytes : ℕ → ℕ → ℕ → (ℕ → ℕ) → ℕ → ℕ
copy_bytes src dst zero memory = memory
copy_bytes src dst (suc n) memory =
    let before = copy_bytes src dst n memory in store (dst + n) (before (src + n)) before

unfoldable pub copy_to_user_memory : ℕ → ℕ → ℕ → (ℕ → ℕ) → ℕ → ℕ
copy_to_user_memory func_start func_end user_base memory =
    copy_bytes func_start user_base (sub32 func_end func_start) memory

abbrev pub user_base : ℕ → ℕ
user_base pid = add32 0x40_0000 (mul32 pid 0x10_0000)

abbrev pub user_stack_top : ℕ → ℕ
user_stack_top pid = add32 (add32 (user_base pid) 0x8_0000) 0x4000

-- the frame for `iret`, pushed below `top`
unfoldable pub push_frame : ℕ → ℕ → ℕ → (ℕ → ℕ) → ℕ → ℕ
push_frame top entry stack memory = write32 (sub32 top 20) entry (
    write32 (sub32 top 16) 0x1B (
      write32 (sub32 top 12) 0x202
        (write32 (sub32 top 8) stack (write32 (sub32 top 4) 0x23 memory))))

-- the assignments to the process
abbrev pub user_registers : ℕ → ℕ → Process → Process
user_registers esp entry p = record p {
  registers = record p.registers {
    esp = esp;
    eip = entry;
    eax = 0;
    ebx = 0;
    ecx = 0;
    edx = 0;
    esi = 0;
    edi = 0;
    ebp = 0;
    ds = 0x23;
    es = 0x23;
    fs = 0x23;
    gs = 0x23;
    ss = 0x23;
    eflags = 0x202;
  };
  is_kernel = 0;
}

-- the program of an entry point, from its first byte to behind its last
abbrev pub program : Programs → ℕ → Option (ℕ × ℕ)
program at entry_point =
    if entry_point == at.user_mode_test_1
    then some (at.user_mode_test_1_asm, at.user_mode_test_2_asm)
    else (if entry_point == at.user_mode_test_2
        then some (at.user_mode_test_2_asm, at.user_mode_test_2_asm_end)
        else none)

-- the rest of `process_setup_user_mode`, with the program
abbrev pub set_up : ℕ → Option (ℕ × ℕ) → Machine → Machine
set_up process none m = m
set_up process (some (func_start, func_end)) m =
    let p = m.kernel.process_table process in
    let base = user_base p.pid in
    let top = add32 p.kernel_stack 4096 in
    record {
      kernel = modify process (user_registers (sub32 top 20) base) m.kernel;
      memory =
          push_frame top base (user_stack_top p.pid)
            (copy_to_user_memory func_start func_end base m.memory);
    }

unfoldable pub process_setup_user_mode : Programs → Option ℕ → ℕ → Machine → Machine
process_setup_user_mode at none entry_point m = m
process_setup_user_mode at (some process) entry_point m =
    if entry_point == 0 then m else set_up process (program at entry_point) m
