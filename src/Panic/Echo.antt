-- ===== src/Panic/Echo.antt =====
-- What the keyboard's handler, `keyboard_handler` of src/kernel/keyboard.c, and `irq_handler` of src/kernel/panic.c
-- show on the console at an interrupt.
use aether_os.Base.{
  ℕ, ◌^◌, true, false, List, [], ◌∷◌, Option, none, some, ◌≡◌, ◌≢◌, refl, ap, Bool,
}
use mathlib.Core.Option
use aether_os.Base.Strings.{bytes_of}
use aether_os.Console.{Console, console_putchar, console_backspace}
use aether_os.Console.Screen.{InScreen, Stays, console_putchar-Stays, console_backspace-Stays}
use aether_os.Console.Printk.Render.{conversion}
use aether_os.Console.Printk.Covers.{covers, leaves, itoa-defined, printk-Stays}
use aether_os.Console.Printk.{Arg, Printed, number, printk}
use aether_os.Keyboard.{Output, nothing, backspace, system_info, memory_info, timer_info, putchar}

-- the console behind a `printk` of a format
abbrev pub printed : List ℕ → List Arg → Console → Option Console
printed format args c = Option.map (λ (p : Printed). p.console) (printk format args c)

-- what `keyboard_handler` shows, `ticks` being `timer_get_ticks()`
unfoldable pub show : ℕ → Output → Console → Option Console
show ticks nothing c = some c
show ticks (putchar ch) c = some (console_putchar ch c)
show ticks backspace c = some (console_backspace c)
show ticks system_info c = printed (bytes_of "\n[F1] System Info: Aether OS v0.1.0\n") [] c
show ticks memory_info c = printed (bytes_of "\n[F2] Memory Info: Available soon\n") [] c
show ticks timer_info c = printed (bytes_of "\n[F3] Timer: %d ticks\n") (number ticks ∷ []) c

pub unmoved : (c : Console) → InScreen c → Stays c c
unmoved c is = record { cursor = is; behind = λ a far. refl }

-- a console call that has a result and stays on the screen
abbrev pub Shown : Console → Option Console → Type 0
Shown c o = (d : Console) × (o ≡ some d) × Stays c d

pub printed-Shown :
    (format : List ℕ) (args : List Arg) (c : Console)
    → covers format args ≡ true
    → InScreen c
    → Shown c (printed format args c)
printed-Shown format args c fine is =
    let (p, e, stays) = printk-Stays format args c fine is in
    (p.console, ap (Option.map _) e, stays)

-- what is left of `covers` behind a `%d`, by the number's text
number_covered : List ℕ → Option (List ℕ) → Bool
number_covered after o = elim (leaves (elim o [ none ↦ none | some b ↦ some (b, []) ])) [
  | none ↦ false
  | some others ↦ covers after others
]

pub unhandled_covered :
    (n : ℕ)
    → n ≢ 2 ^ 31
    → covers (bytes_of "[IRQ] Unhandled hardware interrupt: IRQ %d\n") (number n ∷ []) ≡ true
unfolding covers conversion number_covered
unhandled_covered n ne = ap (number_covered (bytes_of "\n")) (itoa-defined n ne).1

ticks_covered :
    (n : ℕ) → n ≢ 2 ^ 31 → covers (bytes_of "\n[F3] Timer: %d ticks\n") (number n ∷ []) ≡ true
unfolding covers conversion number_covered
ticks_covered n ne = ap (number_covered (bytes_of " ticks\n")) (itoa-defined n ne).1

pub show-Shown :
    (ticks : ℕ) (o : Output) (c : Console) → ticks ≢ 2 ^ 31 → InScreen c → Shown c (show ticks o c)
unfolding show covers
show-Shown ticks nothing c ne is = (c, refl, unmoved c is)
show-Shown ticks (putchar ch) c ne is = (console_putchar ch c, refl, console_putchar-Stays ch c is)
show-Shown ticks backspace c ne is = (console_backspace c, refl, console_backspace-Stays c is)
show-Shown ticks system_info c ne is =
    printed-Shown (bytes_of "\n[F1] System Info: Aether OS v0.1.0\n") [] c refl is
show-Shown ticks memory_info c ne is =
    printed-Shown (bytes_of "\n[F2] Memory Info: Available soon\n") [] c refl is
show-Shown ticks timer_info c ne is =
    printed-Shown (bytes_of "\n[F3] Timer: %d ticks\n") (number ticks ∷ []) c
      (ticks_covered ticks ne) is
