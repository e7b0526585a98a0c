-- ===== src/Usermode/Tests.antt =====
-- Process 2, whose kernel stack lies below its megabyte, and a program of 64 bytes.
use aether_os.Base.{refl, arith, none, some, false, inl, inr}
use aether_os.Process.{zero_process}
use aether_os.Usermode.{Programs, Machine, process_setup_user_mode}
use aether_os.Usermode.Ready.{Ready, process_setup_user_mode-Ready}

abbrev programs : Programs
programs = record {
  user_mode_test_1 = 0x10_0000;
  user_mode_test_2 = 0x10_0010;
  user_mode_test_1_asm = 0x10_1000;
  user_mode_test_2_asm = 0x10_1040;
  user_mode_test_2_asm_end = 0x10_1080;
}

abbrev machine : Machine
machine = record {
  kernel = record {
    process_table = λ i. record zero_process { pid = i; kernel_stack = 0x15_0000 };
    current_process = some 0;
    next_pid = 3;
    stack_allocated = λ _. false;
    process_stacks = 0x14_E000;
    ready_queue_head = none;
    ready_queue_tail = none;
    ready_queue_count = 0;
    scheduler_enabled = false;
    esp0 = 0;
    current_directory = 0;
    system_ticks = 0;
  };
  memory = λ a. a;
}

process_setup_user_mode-Ready_example :
    Ready 2 0x10_1000 64 0x60_0000 0x68_4000 machine
      (process_setup_user_mode programs (some 2) 0x10_0000 machine)
process_setup_user_mode-Ready_example =
    process_setup_user_mode-Ready programs 2 0x10_0000 0x10_1000 0x10_1040 2 machine
      (λ e. omega (arith, e)) (inl (refl, refl, refl)) refl (omega arith) (omega arith)
      (inl (omega arith)) (inr (omega arith))
