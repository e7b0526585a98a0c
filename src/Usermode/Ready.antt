-- ===== src/Usermode/Ready.antt =====
-- What `process_setup_user_mode` of src/kernel/usermode.c leaves for the switch to ring 3.
use aether_os.Base.{
  ℕ, ◌+◌, ◌<◌, ◌^◌, ◌==◌, some, ◌≡◌, ◌≢◌, inl, inr, sym, ap, ◌∙◌, arith, if_true, if_false, ==_ne,
  subst, true, ◌*◌, ◌⊎◌,
}
use aether_os.Base.Memory32.{write32}
use aether_os.Base.Words.{add32, sub32}
use aether_os.Process.{Process, modify}
use aether_os.Process.Store.{modify_self, modify_ne}
use aether_os.Usermode.{
  Programs, Machine, copy_to_user_memory, user_base, user_stack_top, push_frame, user_registers,
  program, set_up, process_setup_user_mode,
}
use aether_os.Usermode.Copy.{Disjoint, copy_bytes-inside}
use aether_os.Usermode.Frame.{IretFrame, below_cs, pushed, write32-IretFrame, write32-below}

-- The process is ready for ring 3: the frame, the registers it is switched to with, its code at `base`, and
-- the other processes as before.
pub record Ready (process start size base stack_top : ℕ) (m d : Machine) : Type 0 where
  pub frame : IretFrame (d.kernel.process_table process).registers.esp base stack_top d.memory
  pub eip : (d.kernel.process_table process).registers.eip ≡ base
  pub esp :
      (d.kernel.process_table process).registers.esp + 20
      ≡ (m.kernel.process_table process).kernel_stack + 4096
  pub code : (i : ℕ) → i < size → d.memory (base + i) ≡ m.memory (start + i)
  pub others : (q : ℕ) → q ≢ process → d.kernel.process_table q ≡ m.kernel.process_table q

-- The entry point is one of the two test programs, and `start` and `stop` are the ends of its code.
abbrev pub Names : Programs → ℕ → ℕ → ℕ → Type 0
Names at entry_point start stop =
    ((entry_point ≡ at.user_mode_test_1)
      × (start ≡ at.user_mode_test_1_asm)
      × (stop ≡ at.user_mode_test_2_asm))
    ⊎ ((entry_point ≢ at.user_mode_test_1)
        × (entry_point ≡ at.user_mode_test_2)
        × (start ≡ at.user_mode_test_2_asm)
        × (stop ≡ at.user_mode_test_2_asm_end))

eq_test : (a b : ℕ) → a ≡ b → (a == b) ≡ true
eq_test a b e = ground (arith, e)

program-Names :
    (at : Programs) (entry_point start stop : ℕ)
    → Names at entry_point start stop
    → program at entry_point ≡ some (start, stop)
program-Names at entry_point start stop (inl (e, es, et)) =
    if_true (entry_point == at.user_mode_test_1) _ _ (eq_test entry_point at.user_mode_test_1 e)
    ∙ cc (es, et)
program-Names at entry_point start stop (inr (ne, e, es, et)) =
    if_false (entry_point == at.user_mode_test_1) _ _ (==_ne entry_point at.user_mode_test_1 ne)
    ∙ if_true (entry_point == at.user_mode_test_2) _ _ (eq_test entry_point at.user_mode_test_2 e)
    ∙ cc (es, et)

module _ (process start stop : ℕ) (m : Machine) (few : (m.kernel.process_table process).pid < 256)
    (room : (m.kernel.process_table process).kernel_stack + 4096 < 2 ^ 32)
    (from_program : Disjoint start
      (sub32 stop start)
      (user_base (m.kernel.process_table process).pid)
      (sub32 stop start))
    (off_stack : Disjoint
      (user_base (m.kernel.process_table process).pid)
      (sub32 stop start)
      ((m.kernel.process_table process).kernel_stack + 4076)
      20) where
  abbrev subject : Process
  subject = m.kernel.process_table process

  abbrev frame_at : ℕ
  frame_at = subject.kernel_stack + 4076

  abbrev loaded : ℕ → ℕ
  loaded = copy_to_user_memory start stop (user_base subject.pid) m.memory

  abbrev ready_memory : ℕ → ℕ
  ready_memory =
      write32 frame_at (user_base subject.pid)
        (below_cs frame_at (user_base subject.pid) (user_stack_top subject.pid) loaded)

  abbrev ready : Machine
  ready = record {
    kernel = modify process (user_registers frame_at (user_base subject.pid)) m.kernel;
    memory = ready_memory;
  }

  abbrev made : ℕ → ℕ → Machine
  made top esp = record {
    kernel = modify process (user_registers esp (user_base subject.pid)) m.kernel;
    memory = push_frame top (user_base subject.pid) (user_stack_top subject.pid) loaded;
  }

  set_up-ready : set_up process (some (start, stop)) m ≡ ready
  set_up-ready =
      let top : add32 subject.kernel_stack 4096 ≡ frame_at + 20 = omega (arith, room) in
      let lowered : sub32 (frame_at + 20) 20 ≡ frame_at = omega (arith, room) in
      ap (λ t. made t (sub32 t 20)) top
      ∙ ap (made (frame_at + 20)) lowered
      ∙ ap (λ memory. record ready { memory = memory })
          (pushed frame_at (user_base subject.pid) (user_stack_top subject.pid) loaded
            (omega (arith, room)))

  ready-process :
      ready.kernel.process_table process ≡ user_registers frame_at (user_base subject.pid) subject
  ready-process = modify_self process (user_registers frame_at (user_base subject.pid)) m.kernel

  ready-code :
      (i : ℕ)
      → i < sub32 stop start
      → ready_memory (user_base subject.pid + i) ≡ m.memory (start + i)
  unfolding copy_to_user_memory
  ready-code i small =
      write32-below frame_at (user_base subject.pid) (user_stack_top subject.pid) loaded
        (user_base subject.pid + i)
        (elim off_stack [
          | inl below ↦ inl (omega (arith, below, small))
          | inr above ↦ inr (omega (arith, above))
        ])
      ∙ copy_bytes-inside start (user_base subject.pid) (sub32 stop start) i m.memory from_program
          small

  ready-Ready :
      Ready process start
        (sub32 stop start)
        (user_base subject.pid)
        (user_stack_top subject.pid)
        m
        ready
  ready-Ready =
      let esp : (ready.kernel.process_table process).registers.esp ≡ frame_at =
        ap (λ q. q.registers.esp) ready-process in
      record {
        frame =
            subst
              (λ a. IretFrame a (user_base subject.pid) (user_stack_top subject.pid) ready_memory)
              (sym esp)
              (write32-IretFrame frame_at (user_base subject.pid) (user_stack_top subject.pid)
                loaded (omega (arith, few)) (omega (arith, few)));
        eip = ap (λ q. q.registers.eip) ready-process;
        esp = omega (arith, esp);
        code = ready-code;
        others = λ q ne.
            modify_ne process (user_registers frame_at (user_base subject.pid)) m.kernel q ne;
      }

-- The theorem below in the words of the code.
setup_lem :
    (at : Programs) (process entry_point start stop : ℕ) (m : Machine)
    → entry_point ≢ 0
    → program at entry_point ≡ some (start, stop)
    → (m.kernel.process_table process).pid < 256
    → (m.kernel.process_table process).kernel_stack + 4096 < 2 ^ 32
    → Disjoint start
        (sub32 stop start)
        (user_base (m.kernel.process_table process).pid)
        (sub32 stop start)
    → Disjoint
        (user_base (m.kernel.process_table process).pid)
        (sub32 stop start)
        ((m.kernel.process_table process).kernel_stack + 4076)
        20
    → Ready process start
        (sub32 stop start)
        (user_base (m.kernel.process_table process).pid)
        (user_stack_top (m.kernel.process_table process).pid)
        m
        (process_setup_user_mode at (some process) entry_point m)
unfolding process_setup_user_mode
setup_lem at process entry_point start stop m given known few room from_program off_stack =
    let done =
      if_false (entry_point == 0) m (set_up process (program at entry_point) m)
        (==_ne entry_point 0 given)
      ∙ ap (λ o. set_up process o m) known
      ∙ set_up-ready process start stop m few room from_program off_stack in
    let p = m.kernel.process_table process in
    subst (Ready process start (sub32 stop start) (user_base p.pid) (user_stack_top p.pid) m)
      (sym done) (ready-Ready process start stop m few room from_program off_stack)

-- For a process with a PID below 256 whose kernel stack ends below `2 ^ 32`, and an entry point, not NULL, of one
-- of the two test programs, whose code, the place that it is copied to and the frame on the kernel stack
-- do not overlap: `process_setup_user_mode` leaves at the saved stack pointer, 20 bytes below the top
-- of the kernel stack, the frame of `iret` with the user segments, the entry 0x400000 + PID * 0x100000
-- and the stack top 0x484000 + PID * 0x100000; the saved instruction pointer is that entry, and the
-- program's bytes stand there; no other process changes.
pub process_setup_user_mode-Ready :
    (at : Programs) (process entry_point start stop pid : ℕ) (m : Machine)
    → entry_point ≢ 0
    → Names at entry_point start stop
    → (m.kernel.process_table process).pid ≡ pid
    → pid < 256
    → (m.kernel.process_table process).kernel_stack + 4096 < 2 ^ 32
    → Disjoint start (sub32 stop start) (0x40_0000 + pid * 0x10_0000) (sub32 stop start)
    → Disjoint
        (0x40_0000 + pid * 0x10_0000)
        (sub32 stop start)
        ((m.kernel.process_table process).kernel_stack + 4076)
        20
    → Ready process start
        (sub32 stop start)
        (0x40_0000 + pid * 0x10_0000)
        (0x48_4000 + pid * 0x10_0000)
        m
        (process_setup_user_mode at (some process) entry_point m)
process_setup_user_mode-Ready at process entry_point start stop pid m given names same few room
      from_program off_stack =
    let p = m.kernel.process_table process in
    let base : 0x40_0000 + pid * 0x10_0000 ≡ user_base p.pid = omega (arith, same, few) in
    let top : 0x48_4000 + pid * 0x10_0000 ≡ user_stack_top p.pid = omega (arith, same, few) in
    let size = sub32 stop start in
    let out = process_setup_user_mode at (some process) entry_point m in
    subst (λ t. Ready process start size (0x40_0000 + pid * 0x10_0000) t m out) (sym top)
      (subst (λ b. Ready process start size b (user_stack_top p.pid) m out) (sym base)
        (setup_lem at process entry_point start stop m given
          (program-Names at entry_point start stop names) (omega (arith, same, few)) room
          (subst (λ b. Disjoint start size b size) base from_program)
          (subst (λ b. Disjoint b size (p.kernel_stack + 4076) 20) base off_stack)))
