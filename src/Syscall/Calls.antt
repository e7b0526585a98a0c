-- ===== src/Syscall/Calls.antt =====
-- What the system calls of src/kernel/syscall.c do.
use aether_os.Base.{
  ℕ, ◌+◌, ◌<◌, ◌≡◌, ◌≢◌, ◌⊎◌, ◌^◌, inl, inr, false, ◌==◌, if◌then◌else◌, Option, none, some, List,
  [], ◌∷◌, arith, ap, ◌∙◌, sym, subst, length,
}
use aether_os.Base.Strings.{bytes_of}
use aether_os.Console.Printk.{number}
use aether_os.Base.Words.{low_bits, shr}
use aether_os.Process.{Kernel, Process, terminated, Registers, process_exit, modify}
use aether_os.Process.Store.{modify_self, modify-current}
use aether_os.Process.Create.{exits}
use aether_os.Scheduler.{scheduler_yield}
use aether_os.Scheduler.Robin.{Runs, Turn}
use aether_os.Scheduler.Fair.{scheduler_yield-Turn}
use aether_os.Syscall.Write.{Stored, char_calls, write_chars-text, sys_write-text}
use aether_os.Syscall.{
  Said, print, warn, exit_lines, Done, done, failed, sys_exit, sys_write, sys_read, sys_yield,
  dispatch, syscall_handler, syscall_init,
}
use aether_os.Descriptors.{Idt}
use aether_os.Descriptors.Gates.{IsGate, idt_set_gate-IsGate, idt_set_gate-other}

-- the line that every call prints first
abbrev pub debug_line : Registers → Said
debug_line regs =
    print (bytes_of "[SYSCALL] num=%d (EAX=0x%x) arg1=0x%x arg2=0x%x arg3=0x%x\n")
      (number regs.eax ∷ number regs.eax ∷ number regs.ebx ∷ number regs.ecx ∷ number regs.edx ∷ [])

abbrev unknown_number : Kernel → ℕ → Done
unknown_number k n = record (done failed k) {
  console = warn (bytes_of "Unknown syscall: %d") (number n ∷ []) ∷ [];
}

-- the whole result of a call, from what its branch returns
abbrev reported : Registers → Done → Registers × Done
reported regs d =
    (record regs { eax = d.result }, record d { console = debug_line regs ∷ d.console })

abbrev by_number : (ℕ → ℕ) → Registers → Registers → Kernel → ℕ → Done
by_number memory cpu regs k n =
    if n == 1
    then sys_exit regs.ebx k
    else (if n == 2
        then sys_write memory regs.ebx regs.ecx regs.edx k
        else (if n == 3
            then sys_read k
            else (if n == 4 then sys_yield cpu k else unknown_number k n)))

handled :
    (memory : ℕ → ℕ) (cpu regs : Registers) (k : Kernel) (n : ℕ) (d : Done)
    → regs.eax ≡ n
    → by_number memory cpu regs k n ≡ d
    → syscall_handler memory cpu regs k ≡ reported regs d
unfolding syscall_handler dispatch
handled memory cpu regs k n d e call =
    ap (reported regs) (ap (by_number memory cpu regs k) e ∙ call)

-- The write call to the console, file descriptor 1 or 2, with a buffer that is not NULL and a length that is not
-- 0: what is printed is the debug line of every call, with EAX and the three arguments, and then, one `%c` at
-- a time, the text in the buffer up to `len` characters or its NUL; EAX becomes `len`, and neither the kernel
-- nor the other registers change.
pub syscall_handler-write :
    (memory : ℕ → ℕ) (cpu regs : Registers) (k : Kernel) (str : List ℕ)
    → regs.eax ≡ 2
    → (regs.ebx ≡ 1) ⊎ (regs.ebx ≡ 2)
    → regs.ecx ≢ 0
    → regs.edx ≢ 0
    → Stored memory regs.ecx str
    → (regs.edx ≡ length str) ⊎ ((length str < regs.edx) × (memory (regs.ecx + length str) ≡ 0))
    → syscall_handler memory cpu regs k ≡ (
      record regs { eax = regs.edx },
      record {
        result = regs.edx;
        kernel = k;
        switch = none;
        console = debug_line regs ∷ char_calls str;
      },
    )
syscall_handler-write memory cpu regs k str e fd ne le s len =
    handled memory cpu regs k 2
      (record { result = regs.edx; kernel = k; switch = none; console = char_calls str }) e
      (sys_write-text memory regs.ebx regs.ecx regs.edx k (char_calls str) fd ne le
        (write_chars-text memory str regs.ecx regs.edx s len))

-- A number other than 1 to 4, and the read call, which is not implemented: EAX becomes -1, and neither the kernel
-- nor the other registers change.
pub syscall_handler-unknown :
    (memory : ℕ → ℕ) (cpu regs : Registers) (k : Kernel)
    → (regs.eax ≡ 0) ⊎ ((regs.eax ≡ 3) ⊎ (4 < regs.eax))
    → ((syscall_handler memory cpu regs k).0 ≡ record regs { eax = failed })
      × ((syscall_handler memory cpu regs k).1.kernel ≡ k)
unfolding syscall_handler dispatch sys_read
syscall_handler-unknown memory cpu regs k e =
    let (result, kernel) = unknown regs.eax e in (ap (λ n. record regs { eax = n }) result, kernel)
  where
    unknown :
        (n : ℕ)
        → (n ≡ 0) ⊎ ((n ≡ 3) ⊎ (4 < n))
        → ((by_number memory cpu regs k n).result ≡ failed)
          × ((by_number memory cpu regs k n).kernel ≡ k)
    unknown n (inl e) = (
      ap (λ n. (by_number memory cpu regs k n).result) e,
      ap (λ n. (by_number memory cpu regs k n).kernel) e,
    )
    unknown n (inr (inl e)) = (
      ap (λ n. (by_number memory cpu regs k n).result) e,
      ap (λ n. (by_number memory cpu regs k n).kernel) e,
    )
    unknown n (inr (inr lt)) =
        let n1 : (n == 1) ≡ false = ground (arith, lt) in
        let n2 : (n == 2) ≡ false = ground (arith, lt) in
        let n3 : (n == 3) ≡ false = ground (arith, lt) in
        let n4 : (n == 4) ≡ false = ground (arith, lt) in
        (simp (n1, n2, n3, n4), simp (n1, n2, n3, n4))

-- The yield call of the running process passes the CPU on as `scheduler_yield` does and returns 0.
pub syscall_handler-yield :
    (memory : ℕ → ℕ) (cpu regs : Registers) (k : Kernel) (c p : ℕ) (ps : List ℕ)
    → regs.eax ≡ 4
    → Runs k c (p ∷ ps)
    → ((syscall_handler memory cpu regs k).0 ≡ record regs { eax = 0 })
      × Turn c p ps cpu k (
        (syscall_handler memory cpu regs k).1.kernel,
        (syscall_handler memory cpu regs k).1.switch,
      )
unfolding sys_yield
syscall_handler-yield memory cpu regs k c p ps e r =
    let out = scheduler_yield cpu k in
    let d : Done = record { result = 0; kernel = out.0; switch = out.1; console = [] } in
    let call : sys_yield cpu k ≡ d = ap (λ b. if b then d else done 0 k) r.enabled in
    let whole = handled memory cpu regs k 4 d e call in
    (
      ap (λ (x : Registers × Done). x.0) whole,
      subst (λ (x : Registers × Done). Turn c p ps cpu k (x.1.kernel, x.1.switch)) (sym whole)
          (scheduler_yield-Turn c p ps cpu k r),
    )

-- `syscall_init` opens gate 0x80 to user mode, privilege level 3, and changes no other gate.
pub syscall_init-IsGate :
    (syscall_wrapper : ℕ) (idt : Idt)
    → syscall_wrapper < 2 ^ 32
    → IsGate syscall_wrapper 0xEE (syscall_init syscall_wrapper idt 0x80)
      × (low_bits (shr (syscall_init syscall_wrapper idt 0x80).type_attr 5) 2 ≡ 3)
      × ((i : ℕ) → i ≢ 0x80 → syscall_init syscall_wrapper idt i ≡ idt i)
unfolding syscall_init
syscall_init-IsGate w idt lt =
    let gate = idt_set_gate-IsGate 0x80 w 0xEE idt lt in
    (
      gate,
      ap (λ f. low_bits (shr f 5) 2) gate.2,
      λ i ne. idt_set_gate-other 0x80 w 0x08 0xEE i idt ne,
    )

exited :
    (status : ℕ) (k : Kernel) (p : ℕ)
    → k.current_process ≡ some p
    → sys_exit status k
      ≡ record (done 0 (modify p (λ q. record q { exit_code = status; state = terminated }) k)) {
        console = exit_lines (k.process_table p) status;
      }
unfolding sys_exit
exited status k p cur =
    ap
      (λ (o : Option ℕ). elim o [
        | none ↦ done failed k
        | some q ↦ record (done 0 (process_exit status k)) {
          console = exit_lines (k.process_table q) status;
        }
      ])
      cur
    ∙ ap (λ k'. record (done 0 k') { console = exit_lines (k.process_table p) status })
        (exits p status k cur)

-- The exit call of a process marks it TERMINATED with the status as its exit code and returns 0 to
-- it: it stays the current process.
pub syscall_handler-exit :
    (memory : ℕ → ℕ) (cpu regs : Registers) (k : Kernel) (p : ℕ)
    → regs.eax ≡ 1
    → k.current_process ≡ some p
    → ((syscall_handler memory cpu regs k).0 ≡ record regs { eax = 0 })
      × ((syscall_handler memory cpu regs k).1.kernel.process_table p
          ≡ record (k.process_table p) { exit_code = regs.ebx; state = terminated })
      × ((syscall_handler memory cpu regs k).1.kernel.current_process ≡ some p)
syscall_handler-exit memory cpu regs k p e cur =
    let f : Process → Process = λ q. record q { exit_code = regs.ebx; state = terminated } in
    let d : Done = record (done 0 (modify p f k)) {
      console = exit_lines (k.process_table p) regs.ebx;
    } in
    let whole = handled memory cpu regs k 1 d e (exited regs.ebx k p cur) in
    (
      ap (λ (x : Registers × Done). x.0) whole,
      ap (λ (x : Registers × Done). x.1.kernel.process_table p) whole ∙ modify_self p f k,
      ap (λ (x : Registers × Done). x.1.kernel.current_process) whole ∙ modify-current p f k ∙ cur,
    )
