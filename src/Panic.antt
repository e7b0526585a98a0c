-- ===== src/Panic.antt =====
-- Exceptions and hardware interrupts: src/kernel/panic.c. `isr_handler` is the list of its calls on the
-- console, up to the halt that ends it; CR2 and the words of the stack are arguments.
pub mod Screen
pub mod Blind
pub mod Echo
pub mod Irq
mod Tests
use aether_os.Base.{
  ℕ, zero, suc, ◌+◌, ◌-◌, ◌*◌, ◌/◌, ◌%◌, ◌^◌, ◌==◌, ltb, Bool, true, false, if◌then◌else◌, List, [],
  ◌∷◌, ◌++◌, map, get_or, Option, none, some,
}
use mathlib.Core.Option
use aether_os.Base.Strings.{bytes_of}
use aether_os.Base.Words.{shr, low_bits}
use aether_os.Console.{Console}
use aether_os.Console.Printk.{Arg, text, number, printk, console_set_color, console_clear}

-- `registers_t` of panic.c
pub record Frame : Type 0 where
  pub ds : ℕ
  pub edi : ℕ
  pub esi : ℕ
  pub ebp : ℕ
  pub esp : ℕ
  pub ebx : ℕ
  pub edx : ℕ
  pub ecx : ℕ
  pub eax : ℕ
  pub int_no : ℕ
  pub err_code : ℕ
  pub eip : ℕ
  pub cs : ℕ
  pub eflags : ℕ
  pub useresp : ℕ
  pub ss : ℕ

abbrev pub exception_messages : List (List ℕ)
exception_messages =
    bytes_of "Division by Zero"
    ∷ bytes_of "Debug"
    ∷ bytes_of "Non-Maskable Interrupt"
    ∷ bytes_of "Breakpoint"
    ∷ bytes_of "Overflow"
    ∷ bytes_of "Bound Range Exceeded"
    ∷ bytes_of "Invalid Opcode"
    ∷ bytes_of "Device Not Available"
    ∷ bytes_of "Double Fault"
    ∷ bytes_of "Coprocessor Segment Overrun (legacy)"
    ∷ bytes_of "Invalid TSS"
    ∷ bytes_of "Segment Not Present"
    ∷ bytes_of "Stack-Segment Fault"
    ∷ bytes_of "General Protection Fault"
    ∷ bytes_of "Page Fault"
    ∷ bytes_of "Reserved"
    ∷ bytes_of "x87 Floating-Point Exception"
    ∷ bytes_of "Alignment Check"
    ∷ bytes_of "Machine Check"
    ∷ bytes_of "SIMD Floating-Point Exception"
    ∷ bytes_of "Virtualization Exception"
    ∷ bytes_of "Reserved"
    ∷ bytes_of "Reserved"
    ∷ bytes_of "Reserved"
    ∷ bytes_of "Reserved"
    ∷ bytes_of "Reserved"
    ∷ bytes_of "Reserved"
    ∷ bytes_of "Reserved"
    ∷ bytes_of "Reserved"
    ∷ bytes_of "Reserved"
    ∷ bytes_of "Security Exception"
    ∷ bytes_of "Reserved"
    ∷ []

-- A call on the console.
pub data Call : Type 0 where
  clear : Call
  set_color : ℕ → Call
  print : List ℕ → List Arg → Call

unfoldable pub perform_call : Call → Console → Option Console
perform_call clear c = some (console_clear c)
perform_call (set_color color) c = some (console_set_color color c)
perform_call (print format args) c = Option.map (λ p. p.console) (printk format args c)

-- the calls in order, `none` where one of them has no defined result
unfoldable pub perform : List Call → Console → Option Console
perform [] c = some c
perform (call ∷ calls) c = elim (perform_call call c) [ none ↦ none | some d ↦ perform calls d ]

abbrev pub bit : ℕ → ℕ → Bool
bit word i = low_bits (shr word i) 1 == 1

-- `printk` of a text without arguments
abbrev pub say : List ℕ → Call
say format = print format []

unfoldable pub handle_page_fault : ℕ → Frame → List Call
handle_page_fault cr2 regs =
    say (bytes_of "Page Fault Details:\n")
    ∷ print (bytes_of "  Faulting Address: 0x%08X\n") (number cr2 ∷ [])
    ∷ print (bytes_of "  Error Code: 0x%X (") (number regs.err_code ∷ [])
    ∷ say (
        if bit regs.err_code 0
        then bytes_of "protection violation"
        else bytes_of "page not present")
    ∷ say (if bit regs.err_code 1 then bytes_of ", write" else bytes_of ", read")
    ∷ say (if bit regs.err_code 2 then bytes_of ", user mode" else bytes_of ", kernel mode")
    ∷ ((if bit regs.err_code 3 then say (bytes_of ", reserved bits set") ∷ [] else [])
        ++ ((if bit regs.err_code 4 then say (bytes_of ", instruction fetch") ∷ [] else [])
            ++ (say (bytes_of ")\n") ∷ [])))

-- the part on the exception
unfoldable pub report : ℕ → Frame → List Call
report cr2 regs =
    if ltb regs.int_no 32
    then print (bytes_of "CPU Exception #%d: %s\n")
          (number regs.int_no ∷ text (get_or exception_messages regs.int_no []) ∷ [])
        ∷ (if regs.err_code == 0
            then []
            else print (bytes_of "Error Code: 0x%X\n") (number regs.err_code ∷ []) ∷ [])
      ++ (if regs.int_no == 14 then handle_page_fault cr2 regs else [])
    else print (bytes_of "Unexpected Interrupt #%d\n") (number regs.int_no ∷ []) ∷ []

-- the registers
unfoldable pub dump : Frame → List Call
dump regs =
    say (bytes_of "\nRegister Dump:\n")
    ∷ print (bytes_of "  EAX: 0x%08X  EBX: 0x%08X  ECX: 0x%08X  EDX: 0x%08X\n")
        (number regs.eax ∷ number regs.ebx ∷ number regs.ecx ∷ number regs.edx ∷ [])
    ∷ print (bytes_of "  ESI: 0x%08X  EDI: 0x%08X  EBP: 0x%08X  ESP: 0x%08X\n")
        (number regs.esi ∷ number regs.edi ∷ number regs.ebp ∷ number regs.esp ∷ [])
    ∷ print (bytes_of "  EIP: 0x%08X  EFLAGS: 0x%08X\n") (number regs.eip ∷ number regs.eflags ∷ [])
    ∷ print (bytes_of "  CS: 0x%04X  DS: 0x%04X  SS: 0x%04X\n") (
        number (low_bits regs.cs 16)
        ∷ number (low_bits regs.ds 16)
        ∷ number (low_bits regs.ss 16)
        ∷ [])
    ∷ say (bytes_of "\nStack Trace (top 8 words):\n")
    ∷ []

-- The loop over the stack, for `n` more rounds from round `i`; `stack` itself does not move in it.
unfoldable pub stack_trace : ℕ → ℕ → ℕ → (ℕ → ℕ) → List Call
stack_trace zero i stack words = []
stack_trace (suc n) i stack words =
    let others = stack_trace n (i + 1) stack words in
    if ltb stack 0x8FFF_FFFF
    then print (bytes_of "  [ESP+%02d]: 0x%08X\n")
        (number (i * 4) ∷ number (words (stack + 4 * i)) ∷ [])
      ∷ others
    else []

-- `isr_handler`, until `halt_system`. Colours: white on red, light red, white, light brown.
unfoldable pub isr_handler : ℕ → (ℕ → ℕ) → Frame → List Call
isr_handler cr2 words regs =
    clear
    ∷ set_color 0x4F
    ∷ say (bytes_of "*** KERNEL PANIC ***\n\n")
    ∷ set_color 12
    ∷ (report cr2 regs
        ++ (set_color 15
            ∷ (dump regs
                ++ (stack_trace 8 0 regs.esp words
                    ++ (set_color 14 ∷ say (bytes_of "\nSystem halted. Reset required.\n") ∷ [])))))

unfoldable pub kernel_panic : List ℕ → List Call
kernel_panic message =
    clear
    ∷ set_color 0x4F
    ∷ say (bytes_of "*** KERNEL PANIC ***\n\n")
    ∷ set_color 12
    ∷ print (bytes_of "Panic: %s\n\n") (text message ∷ [])
    ∷ set_color 14
    ∷ say (bytes_of "System halted. Reset required.\n")
    ∷ []
