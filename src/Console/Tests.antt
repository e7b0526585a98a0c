-- ===== src/Console/Tests.antt =====
-- The console in the last cell of the screen.
use aether_os.Base.{◌+◌, ◌≡◌, [], ◌∷◌, arith, true, List, refl, some, length}
use aether_os.Console.{Console, console_write, utoa, digits, reverse_string}
use aether_os.Console.Screen.{InScreen, Stays, console_write-Stays}
use mathlib.Core.Option
use aether_os.Base.Strings.{bytes_of}
use aether_os.Console.Printk.{Arg, itoa, number, text, printk}
use aether_os.Console.Printk.Render.{conversion, rendered, printk-rendered}
use aether_os.Console.Printk.Plain.{no_specifier}
use aether_os.Console.Digits.{parse, utoa-parse}

abbrev full_screen : Console
full_screen = record { row = 24; column = 79; color = 7; memory = λ a. a + 1 }

full_screen-InScreen : InScreen full_screen
full_screen-InScreen = record { row = omega arith; column = omega arith }

console_write-Stays_example : Stays full_screen (console_write (9 ∷ 65 ∷ 10 ∷ []) full_screen)
console_write-Stays_example =
    console_write-Stays (9 ∷ 65 ∷ 10 ∷ []) full_screen full_screen-InScreen

utoa-parse_example :
    (parse 97 10 0 (utoa 97 10 0xFFFF_FFFF) ≡ 0xFFFF_FFFF)
    × (parse 97 16 0 (utoa 97 16 0xFFFF_FFFF) ≡ 0xFFFF_FFFF)
    × (parse 65 16 0 (utoa 65 16 0xFFFF_FFFF) ≡ 0xFFFF_FFFF)
utoa-parse_example = utoa-parse 0xFFFF_FFFF (omega arith)

abbrev mixed_args : List Arg
mixed_args = number 0xFFFF_FFF4 ∷ text (bytes_of "pid") ∷ number 255 ∷ number 65 ∷ []

mixed_text : rendered (bytes_of "%d %s=0x%X%c%%%q") mixed_args ≡ some (bytes_of "-12 pid=0xFFA%%q")
unfolding rendered conversion itoa digits reverse_string utoa
mixed_text = refl

-- A register line of the panic screen has no specifier that `printk` knows.
register_line : no_specifier (bytes_of "  EIP: 0x%08X  EFLAGS: 0x%08X\n") ≡ true
unfolding no_specifier
register_line = refl

printk-rendered_example :
    printk (bytes_of "%d %s=0x%X%c%%%q") mixed_args full_screen
    ≡ Option.map
        (λ str. record { written = length str; console = console_write str full_screen })
        (rendered (bytes_of "%d %s=0x%X%c%%%q") mixed_args)
printk-rendered_example = printk-rendered (bytes_of "%d %s=0x%X%c%%%q") mixed_args full_screen
