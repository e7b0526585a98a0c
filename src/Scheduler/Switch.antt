-- ===== src/Scheduler/Switch.antt =====
-- The switch that ends `scheduler_yield` and `scheduler_tick` of src/kernel/scheduler.c.
use aether_os.Base.{ℕ, ◌≡◌, ◌≢◌, refl, some, List, ap, ◌∙◌, sym, ==_ne}
use aether_os.Base.Words.{add32}
use aether_os.Process.{Kernel, Process, running, Registers, modify}
use aether_os.Scheduler.{switch_from, quantum_ticks, count_switch}
use aether_os.Scheduler.Queue.{IsQueue, modify_self, modify_ne}
use aether_os.Scheduler.Frame.{IsQueue-modify}

abbrev pub start : Process → Process
start q = record q { state = running; quantum = quantum_ticks }

module _ (c p : ℕ) (cpu : Registers) (s : Kernel) where
  -- the kernel that `switch_from` leaves when it switches
  abbrev placed : Kernel
  placed = record s { esp0 = add32 (s.process_table p).kernel_stack 4096; current_process = some p }

  abbrev save : Process → Process
  save q = record q { registers = cpu }

  abbrev pub switched : Kernel
  switched = modify c save (modify p count_switch (modify c count_switch placed))

  pub switch_from-switched : c ≢ p → switch_from c cpu (p, s) ≡ (switched, some (c, p))
  unfolding switch_from
  switch_from-switched ne = rw (==_ne p c (λ e. ne (sym e))) refl

  pub switched-at_p : c ≢ p → switched.process_table p ≡ count_switch (s.process_table p)
  switched-at_p ne =
      let ne' : p ≢ c = λ e. ne (sym e) in
      modify_ne c save (modify p count_switch (modify c count_switch placed)) p ne'
      ∙ modify_self p count_switch (modify c count_switch placed)
      ∙ ap count_switch (modify_ne c count_switch placed p ne')

  pub switched-at_c : c ≢ p → switched.process_table c ≡ save (count_switch (s.process_table c))
  switched-at_c ne =
      modify_self c save (modify p count_switch (modify c count_switch placed))
      ∙ ap save (modify_ne p count_switch (modify c count_switch placed) c ne)
      ∙ ap save (modify_self c count_switch placed)

  pub switched-current : switched.current_process ≡ some p
  unfolding modify
  switched-current = refl

  pub switched-esp0 : switched.esp0 ≡ add32 (s.process_table p).kernel_stack 4096
  unfolding modify
  switched-esp0 = refl

  pub switched-enabled : switched.scheduler_enabled ≡ s.scheduler_enabled
  unfolding modify
  switched-enabled = refl

  pub switched-IsQueue : (ps : List ℕ) → IsQueue s ps → IsQueue switched ps
  switched-IsQueue ps is =
      let is0 : IsQueue placed ps = record {
        links = is.links;
        head = is.head;
        tail = is.tail;
        count = is.count;
        distinct = is.distinct;
      } in
      let is1 : IsQueue (modify c count_switch placed) ps =
        IsQueue-modify c count_switch placed ps (λ r. refl) (λ r. refl) is0 in
      let is2 : IsQueue (modify p count_switch (modify c count_switch placed)) ps =
        IsQueue-modify p count_switch (modify c count_switch placed) ps (λ r. refl) (λ r. refl)
          is1 in
      IsQueue-modify c save (modify p count_switch (modify c count_switch placed)) ps (λ r. refl)
        (λ r. refl) is2
