-- ===== src/Console/Printk.antt =====
-- `printk` of src/kernel/printk.c and its log levels. A variable argument is a word or a string; `none` is
-- where C leaves the result open: an argument that is missing or of the other sort, `-value` out of
-- range in `itoa`, and a format that ends in a lone `%`, behind which `printk` reads on.
pub mod Render
pub mod Covers
pub mod Plain
pub mod Logged
use aether_os.Base.{
  ℕ, zero, suc, ◌+◌, ◌-◌, ◌%◌, ◌^◌, ◌==◌, ltb, true, false, if◌then◌else◌, List, [], ◌∷◌, ◌++◌,
  length, Option, none, some,
}
use aether_os.Base.Strings.{bytes_of}
use aether_os.Console.{
  Console, vga_width, vga_height, console_putchar_at, console_putchar, console_write, digits,
  reverse_string, utoa,
}

pub data Arg : Type 0 where
  text : List ℕ → Arg
  number : ℕ → Arg

-- `written`, and the console behind it
pub record Printed : Type 0 where
  pub written : ℕ
  pub console : Console

-- `console_putchar(ch); written++`
abbrev pub put : ℕ → Printed → Printed
put ch p = record { written = p.written + 1; console = console_putchar ch p.console }

-- `console_writestring(str); written += strlen(str)`
abbrev pub put_string : List ℕ → Printed → Printed
put_string str p = record {
  written = p.written + length str;
  console = console_write str p.console;
}

-- the case of `%p`, once the number is converted
abbrev pub put_pointer : List ℕ → Printed → Printed
put_pointer buffer p = record {
  written = p.written + (length buffer + 2);
  console = console_write buffer (console_write (bytes_of "0x") p.console);
}

-- `itoa(value, buffer, 10)` for the word of `value`
unfoldable pub itoa : ℕ → Option (List ℕ)
itoa value =
    if value == 0
    then some (48 ∷ [])
    else (if value == 2 ^ 31
        then none
        else (if ltb value (2 ^ 31)
            then some (reverse_string (digits 97 10 32 value))
            else some (reverse_string (digits 97 10 32 (2 ^ 32 - value) ++ (45 ∷ [])))))

-- `va_arg` for a number, a string and a signed number, and what is done with it
module _ {A : Type 0} where
  abbrev pub with_number : (ℕ → A) → List Arg → Option (A × List Arg)
  with_number f [] = none
  with_number f (text str ∷ args) = none
  with_number f (number n ∷ args) = some (f n, args)

  abbrev pub with_text : (List ℕ → A) → List Arg → Option (A × List Arg)
  with_text f [] = none
  with_text f (text str ∷ args) = some (f str, args)
  with_text f (number n ∷ args) = if n == 0 then some (f (bytes_of "(null)"), args) else none

  abbrev pub with_signed : (List ℕ → A) → List Arg → Option (A × List Arg)
  with_signed f [] = none
  with_signed f (text str ∷ args) = none
  with_signed f (number n ∷ args) = elim (itoa n) [
    | none ↦ none
    | some buffer ↦ some (f buffer, args)
  ]

-- the `switch` of `printk`
unfoldable pub specifier : ℕ → List Arg → Printed → Option (Printed × List Arg)
specifier ch args p =
    if ch == b's'
    then with_text (λ str. put_string str p) args
    else (if ch == b'c'
        then with_number (λ n. put (n % 256) p) args
        else (if ch == b'd'
            then with_signed (λ buffer. put_string buffer p) args
            else (if ch == b'u'
                then with_number (λ n. put_string (utoa 97 10 n) p) args
                else (if ch == b'x'
                    then with_number (λ n. put_string (utoa 97 16 n) p) args
                    else (if ch == b'X'
                        then with_number (λ n. put_string (utoa 65 16 n) p) args
                        else (if ch == b'p'
                            then with_number (λ n. put_pointer (utoa 97 16 n) p) args
                            else (if ch == b'%'
                                then some (put b'%' p, args)
                                else some (put ch (put b'%' p), args))))))))

-- the loop of `printk` over the format
unfoldable pub printk_loop : List ℕ → List Arg → Printed → Option Printed
printk_loop [] args p = some p
printk_loop (ch ∷ []) args p = if ch == b'%' then none else some (put ch p)
printk_loop (ch ∷ spec ∷ format) args p = elim (ch == b'%') [
  | true ↦ elim (specifier spec args p) [
    | none ↦ none
    | some (q, others) ↦ printk_loop format others q
  ]
  | false ↦ printk_loop (spec ∷ format) args (put ch p)
]

unfoldable pub printk : List ℕ → List Arg → Console → Option Printed
printk format args c = printk_loop format args (record { written = 0; console = c })

-- `vga_entry_color(fg, VGA_COLOR_BLACK)`, and `console_set_color`
abbrev pub console_set_color : ℕ → Console → Console
console_set_color color c = record c { color = color }

-- `printk_info`, `printk_warn` and `printk_error`, which differ in the tag and its colour. The
-- arguments behind the format are not read.
unfoldable pub printk_log : List ℕ → ℕ → List ℕ → Console → Console
printk_log tag tag_color format c =
    let tagged = console_write tag (console_set_color tag_color c) in
    let line = console_putchar 10 (console_write format (console_set_color 15 tagged)) in
    console_set_color c.color line

abbrev pub printk_info : List ℕ → Console → Console
printk_info = printk_log (bytes_of "[INFO] ") 11

abbrev pub printk_warn : List ℕ → Console → Console
printk_warn = printk_log (bytes_of "[WARN] ") 14

abbrev pub printk_error : List ℕ → Console → Console
printk_error = printk_log (bytes_of "[ERROR] ") 12

-- `console_clear`: the two loops over the rows and the columns.
unfoldable pub clear_row : ℕ → ℕ → Console → Console
clear_row zero y c = c
clear_row (suc x) y c = console_putchar_at 32 x y (clear_row x y c)

unfoldable pub clear_rows : ℕ → Console → Console
clear_rows zero c = c
clear_rows (suc y) c = clear_row vga_width y (clear_rows y c)

unfoldable pub console_clear : Console → Console
console_clear c = record (clear_rows vga_height c) { row = 0; column = 0 }
