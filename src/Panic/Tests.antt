-- ===== src/Panic/Tests.antt =====
-- A page fault of the kernel at address 0, and a keyboard interrupt.
use aether_os.Base.{◌≡◌, refl, none, some, arith, false}
use aether_os.Console.{Console}
use aether_os.Console.Screen.{InScreen, Stays}
use aether_os.Process.{zero_process, zero_registers}
use aether_os.Panic.{Frame, perform, isr_handler}
use aether_os.Panic.Blind.{isr_handler-blind}
use aether_os.Panic.Screen.{isr_handler-Shows}
use aether_os.Panic.Irq.{Machine, Handled, Acknowledged, irq_handler, irq_handler-Acknowledged}

abbrev zero_frame : Frame
zero_frame = record {
  ds = 0;
  edi = 0;
  esi = 0;
  ebp = 0;
  esp = 0;
  ebx = 0;
  edx = 0;
  ecx = 0;
  eax = 0;
  int_no = 14;
  err_code = 2;
  eip = 0;
  cs = 0;
  eflags = 0;
  useresp = 0;
  ss = 0;
}

abbrev other_frame : Frame
other_frame = record zero_frame { eax = 0xDEAD; eip = 0x10_0040; esp = 0x9_0000; cs = 8 }

abbrev dark : Console
dark = record { row = 3; column = 70; color = 7; memory = λ a. 0 }

dark-InScreen : InScreen dark
dark-InScreen = record { row = omega arith; column = omega arith }

isr_handler-blind_example :
    perform (isr_handler 0 (λ a. 0) zero_frame) dark
    ≡ perform (isr_handler 0x1234 (λ a. a) other_frame) dark
isr_handler-blind_example =
    isr_handler-blind 0 0x1234 (λ a. 0) (λ a. a) zero_frame other_frame dark refl refl refl

isr_handler-Shows_example :
    (d : Console) × (perform (isr_handler 0 (λ a. a) zero_frame) dark ≡ some d) × Stays dark d
isr_handler-Shows_example = isr_handler-Shows 0 (λ a. a) zero_frame dark (omega arith)

abbrev machine : Machine
machine = record {
  kernel = record {
    process_table = λ i. zero_process;
    current_process = some 0;
    next_pid = 1;
    stack_allocated = λ _. false;
    process_stacks = 0x40000;
    ready_queue_head = none;
    ready_queue_tail = none;
    ready_queue_count = 0;
    scheduler_enabled = false;
    esp0 = 0;
    current_directory = 0;
    system_ticks = 0;
  };
  keyboard = record {
    modifiers = 0;
    input_buffer = λ i. 0;
    buffer_head = 0;
    buffer_tail = 0;
    buffer_count = 0;
    input_enabled = false;
  };
  console = dark;
}

-- line 12 belongs to no driver, and to the slave controller
irq_handler-Acknowledged_example :
    (h : Handled) × (irq_handler 44 zero_registers 0x1E machine ≡ some h)
    × Acknowledged 12 machine h
irq_handler-Acknowledged_example =
    irq_handler-Acknowledged 12 zero_registers 0x1E machine (omega arith) (λ e. omega (arith, e))
      dark-InScreen
