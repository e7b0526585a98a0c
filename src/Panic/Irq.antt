-- ===== src/Panic/Irq.antt =====
-- `irq_handler` of src/kernel/panic.c: which driver an interrupt goes to, what it shows on the console, and
-- how it is acknowledged. `scancode` is what the keyboard's port reads as. The scheduler's own log
-- lines at a switch are left out of the console.
use aether_os.Base.{
  ℕ, ◌+◌, ◌-◌, ◌<◌, ◌^◌, ltb, ◌==◌, ◌||◌, false, if◌then◌else◌, [], ◌∷◌, Option, none, some, ◌≡◌,
  ◌≢◌, refl, sym, ap, ◌∙◌, arith, ==_ne, if_false, eq-cases, subst, inl, inr,
}
use mathlib.Core.Option
use aether_os.Base.Strings.{bytes_of}
use aether_os.Console.{Console}
use aether_os.Console.Screen.{InScreen, Stays}
use aether_os.Console.Printk.{number}
use aether_os.Keyboard.{Keyboard, keyboard_handler}
use aether_os.Panic.Echo.{printed, show, unmoved, printed-Shown, unhandled_covered, show-Shown}
use aether_os.Pic.{Writes, pic_send_eoi}
use aether_os.Process.{Kernel, Registers}
use aether_os.Scheduler.{Switch}
use aether_os.Timer.{timer_handler}

pub record Machine : Type 0 where
  pub kernel : Kernel
  pub keyboard : Keyboard
  pub console : Console

-- What a handler leaves: the state, the context that the processor goes on in, and the port writes to the
-- interrupt controllers, up to a switch if there is one.
pub record Handled : Type 0 where
  pub machine : Machine
  pub switch : Switch
  pub writes : Writes

-- a driver's call, with the console that it leaves
abbrev pub handled : Option Console → Switch → Writes → Machine → Option Handled
handled console switch writes m =
    Option.map
      (λ c. record { machine = record m { console = c }; switch = switch; writes = writes }) console

unfoldable pub irq_handler : ℕ → Registers → ℕ → Machine → Option Handled
irq_handler int_no cpu scancode m =
    let ((kernel, switch), writes) = timer_handler cpu m.kernel in
    let (keyboard, echo) = keyboard_handler scancode m.keyboard in
    if ltb int_no 32 || ltb 47 int_no
    then handled
        (printed (bytes_of "[IRQ] Invalid interrupt number: %d (expected 32-47)\n")
          (number int_no ∷ []) m.console)
        none [] m
    else (if int_no == 32
        then handled (some m.console) switch writes (record m { kernel = kernel })
        else (if int_no == 33
            then handled (show m.kernel.system_ticks echo m.console) none (pic_send_eoi 1)
                (record m { keyboard = keyboard })
            else handled
                (printed (bytes_of "[IRQ] Unhandled hardware interrupt: IRQ %d\n")
                  (number (int_no - 32) ∷ []) m.console)
                none (pic_send_eoi (int_no - 32)) m))

-- The port writes that acknowledge a line: the end of interrupt, 0x20, to the command port 0x20 of the master,
-- and before it, from line 8 on, to the command port 0xA0 of the slave.
abbrev pub end_of_interrupt : ℕ → Writes
end_of_interrupt irq = if ltb irq 8 then (0x20, 0x20) ∷ [] else (0xA0, 0x20) ∷ (0x20, 0x20) ∷ []

-- The line is acknowledged by a handler that returns and not by one that has switched away, the drivers
-- of the other lines keep their state, and what is shown stays on the screen.
pub record Acknowledged (irq : ℕ) (m : Machine) (h : Handled) : Type 0 where
  pub returns : h.switch ≡ none → h.writes ≡ end_of_interrupt irq
  pub switches : h.switch ≢ none → h.writes ≡ []
  pub kernel : irq ≢ 0 → h.machine.kernel ≡ m.kernel
  pub switch : irq ≢ 0 → h.switch ≡ none
  pub keyboard : irq ≢ 1 → h.machine.keyboard ≡ m.keyboard
  pub screen : Stays m.console h.machine.console

eoi_lem : (irq : ℕ) → pic_send_eoi irq ≡ end_of_interrupt irq
unfolding pic_send_eoi
eoi_lem irq = ground arith

-- the acknowledgement of the timer's line, by whether there was a switch
timer_writes :
    (s : Switch)
    → (s ≡ none → elim s [ none ↦ pic_send_eoi 0 | some _ ↦ [] ] ≡ end_of_interrupt 0)
      × (s ≢ none → elim s [ none ↦ pic_send_eoi 0 | some _ ↦ [] ] ≡ [])
timer_writes none = (λ e. eoi_lem 0, λ ne. absurd (ne refl))
timer_writes (some r) = (λ e. absurd (cc), λ ne. refl)

-- a line without a driver
unhandled :
    (irq : ℕ) (cpu : Registers) (scancode : ℕ) (m : Machine)
    → irq < 16
    → irq ≢ 0
    → irq ≢ 1
    → irq_handler (32 + irq) cpu scancode m
      ≡ handled
          (printed
            (bytes_of "[IRQ] Unhandled hardware interrupt: IRQ %d\n")
            (number irq ∷ [])
            m.console)
          none
          (pic_send_eoi irq)
          m
unfolding irq_handler
unhandled irq cpu scancode m small not_timer not_keyboard =
    let in_range : (ltb (32 + irq) 32 || ltb 47 (32 + irq)) ≡ false = ground (arith, small) in
    let line : 32 + irq - 32 ≡ irq = omega arith in
    if_false (ltb (32 + irq) 32 || ltb 47 (32 + irq)) _ _ in_range
    ∙ if_false (32 + irq == 32) _ _ (==_ne (32 + irq) 32 (λ e. not_timer (omega (arith, e))))
    ∙ if_false (32 + irq == 33) _ _ (==_ne (32 + irq) 33 (λ e. not_keyboard (omega (arith, e))))
    ∙ ap
        (λ n.
          handled
            (printed (bytes_of "[IRQ] Unhandled hardware interrupt: IRQ %d\n") (number n ∷ [])
              m.console)
            none (pic_send_eoi n) m)
        line

-- With the cursor on the screen and a tick counter that is not `2 ^ 31`, which `%d` has no defined text for, every
-- hardware interrupt, 32 to 47, is handled. A handler that returns has sent the end of interrupt:
-- 0x20 to port 0x20, for the lines from 8 on after 0x20 to port 0xA0. The timer's handler that has
-- switched to another process has not sent it. Only line 0 changes the kernel's state or switches,
-- only line 1 changes the keyboard's; what is shown stays on the screen, the scheduler's log
-- lines at a switch left out.
pub irq_handler-Acknowledged :
    (irq : ℕ) (cpu : Registers) (scancode : ℕ) (m : Machine)
    → irq < 16
    → m.kernel.system_ticks ≢ 2 ^ 31
    → InScreen m.console
    → (h : Handled) × (irq_handler (32 + irq) cpu scancode m ≡ some h) × Acknowledged irq m h
unfolding irq_handler timer_handler
irq_handler-Acknowledged irq cpu scancode m small ticks is = elim (eq-cases irq 0) [
  | inl timer ↦ subst Goal (sym timer) (
    _,
    refl,
    record {
      returns = (timer_writes (timer_handler cpu m.kernel).0.1).0;
      switches = (timer_writes (timer_handler cpu m.kernel).0.1).1;
      kernel = λ ne. absurd (ne refl);
      switch = λ ne. absurd (ne refl);
      keyboard = λ ne. refl;
      screen = unmoved m.console is;
    },
  )
  | inr not_timer ↦ elim (eq-cases irq 1) [
    | inl key ↦ subst Goal (sym key) keyboard_line
    | inr not_keyboard ↦
        let (c, e, stays) =
          printed-Shown (bytes_of "[IRQ] Unhandled hardware interrupt: IRQ %d\n") (number irq ∷ [])
            m.console (unhandled_covered irq (λ e. omega (arith, e, small))) is in
        (
          _,
          unhandled irq cpu scancode m small not_timer not_keyboard
              ∙ ap (λ o. handled o none (pic_send_eoi irq) m) e,
          record {
            returns = λ e. eoi_lem irq;
            switches = λ ne. absurd (ne refl);
            kernel = λ ne. refl;
            switch = λ ne. refl;
            keyboard = λ ne. refl;
            screen = stays;
          },
        )
  ]
]
  where
    Goal : ℕ → Type 0
    Goal irq =
        (h : Handled) × (irq_handler (32 + irq) cpu scancode m ≡ some h) × Acknowledged irq m h

    keyboard_line : Goal 1
    keyboard_line =
        let pressed = keyboard_handler scancode m.keyboard in
        let (c, e, stays) = show-Shown m.kernel.system_ticks pressed.1 m.console ticks is in
        (
          _,
          ap (λ o. handled o none (pic_send_eoi 1) (record m { keyboard = pressed.0 })) e,
          record {
            returns = λ e. eoi_lem 1;
            switches = λ ne. absurd (ne refl);
            kernel = λ ne. refl;
            switch = λ ne. refl;
            keyboard = λ ne. absurd (ne refl);
            screen = stays;
          },
        )
