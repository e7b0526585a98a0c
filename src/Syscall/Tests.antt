-- ===== src/Syscall/Tests.antt =====
-- System calls of process 0, with "hi" in memory at 0x1000.
use aether_os.Base.{ℕ, ◌≡◌, inl, inr, refl, none, some, if◌then◌else◌, ◌==◌, [], ◌∷◌, arith}
use aether_os.Process.{Registers, zero_registers, terminated}
use aether_os.Scheduler.Three.{three}
use aether_os.Descriptors.{Idt}
use aether_os.Syscall.{syscall_handler}
use aether_os.Syscall.Write.{char_calls}
use aether_os.Syscall.Calls.{debug_line, syscall_handler-write, syscall_handler-exit}

abbrev memory : ℕ → ℕ
memory a = if a == 0x1000 then 104 else (if a == 0x1001 then 105 else 0)

abbrev write_call : Registers
write_call = record zero_registers { eax = 2; ebx = 1; ecx = 0x1000; edx = 8 }

syscall_handler-write_example : syscall_handler memory zero_registers write_call three ≡ (
  record write_call { eax = 8 },
  record {
    result = 8;
    kernel = three;
    switch = none;
    console = debug_line write_call ∷ char_calls (104 ∷ 105 ∷ []);
  },
)
syscall_handler-write_example =
    syscall_handler-write memory zero_registers write_call three (104 ∷ 105 ∷ []) refl (inl refl)
      (λ e. omega (arith, e)) (λ e. omega (arith, e))
      (refl, λ e. omega (arith, e), (refl, λ e. omega (arith, e), tt)) (inr (omega arith, refl))

abbrev bad_call : Registers
bad_call = record zero_registers { eax = 9 }

abbrev yield_call : Registers
yield_call = record zero_registers { eax = 4 }

abbrev exit_call : Registers
exit_call = record zero_registers { eax = 1; ebx = 7 }

syscall_handler-exit_example :
    ((syscall_handler memory zero_registers exit_call three).0 ≡ record exit_call { eax = 0 })
    × ((syscall_handler memory zero_registers exit_call three).1.kernel.process_table 0
        ≡ record (three.process_table 0) { exit_code = 7; state = terminated })
    × ((syscall_handler memory zero_registers exit_call three).1.kernel.current_process ≡ some 0)
syscall_handler-exit_example =
    syscall_handler-exit memory zero_registers exit_call three 0 refl refl

abbrev no_gates : Idt
no_gates _ = record { offset_low = 0; selector = 0; type_attr = 0; offset_high = 0 }
