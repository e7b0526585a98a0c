-- ===== src/Console/Printk/Logged.antt =====
-- The log levels of src/kernel/printk.c.
use aether_os.Base.{
  ℕ, ◌+◌, ◌*◌, ◌/◌, leb, subst, ◌==◌, Bool, true, false, if◌then◌else◌, List, [], ◌∷◌, ◌++◌, ◌≡◌,
  refl, ◌∙◌,
}
use aether_os.Console.{
  Console, vga_width, console_scroll, next_row, console_putchar, console_putchar_at, console_write,
}
use aether_os.Console.Screen.{InScreen, Stays, console_write-Stays}
use aether_os.Console.Printk.{console_set_color, printk_log}

either_color :
    (b : Bool) (x y : Console) (color : ℕ)
    → x.color ≡ color
    → y.color ≡ color
    → (if b then x else y).color ≡ color
either_color true x y color e e' = e
either_color false x y color e e' = e'

next_row-color : (c : Console) → (next_row c).color ≡ c.color
unfolding next_row console_scroll
next_row-color c =
    let down : Console = record c { row = c.row + 1; column = 0 } in
    either_color (c.row + 1 == 25) (console_scroll down) down c.color refl refl

-- The cursor is in the first column behind a line break.
next_row-column : (c : Console) → (next_row c).column ≡ 0
unfolding next_row console_scroll
next_row-column c = at_start (c.row + 1 == 25)
  where
    at_start :
        (b : Bool)
        → (if b
            then console_scroll (record c { row = c.row + 1; column = 0 })
            else record c { row = c.row + 1; column = 0 }).column
          ≡ 0
    at_start true = refl
    at_start false = refl

console_putchar-color : (ch : ℕ) (c : Console) → (console_putchar ch c).color ≡ c.color
unfolding console_putchar console_putchar_at
console_putchar-color ch c =
    let tab = (c.column + 8) / 8 * 8 in
    let placed = console_putchar_at ch c.column c.row c in
    either_color (ch == 10) (next_row c) _ c.color (next_row-color c) (
      either_color (ch == 13) (record c { column = 0 }) _ c.color refl
        (either_color (ch == 9) _ _ c.color
          (either_color (leb vga_width tab) (next_row c) (record c { column = tab }) c.color
            (next_row-color c) refl)
          (either_color (c.column + 1 == vga_width) (next_row placed) _ c.color
            (next_row-color placed) refl)))

console_write-color : (str : List ℕ) (c : Console) → (console_write str c).color ≡ c.color
unfolding console_write
console_write-color [] c = refl
console_write-color (ch ∷ str) c =
    console_write-color str (console_putchar ch c) ∙ console_putchar-color ch c

newline_column : (c : Console) → (console_putchar 10 c).column ≡ 0
unfolding console_putchar
newline_column c = next_row-column c

written_line :
    (str : List ℕ) (c : Console)
    → console_write (str ++ (10 ∷ [])) c ≡ console_putchar 10 (console_write str c)
unfolding console_write
written_line [] c = refl
written_line (ch ∷ str) c = written_line str (console_putchar ch c)

-- A log line leaves the colour of the console as it was, ends in the first column of a row of the
-- screen, and writes to no memory behind the screen.
pub record Logged (c d : Console) : Type 0 where
  pub color : d.color ≡ c.color
  pub column : d.column ≡ 0
  pub stays : Stays c d

-- With the cursor on the screen, and for every tag, colour and format of the log functions: the colour of
-- the console is restored, the cursor is at the start of a row, and no memory behind the screen is
-- written.
pub printk_log-Logged :
    (tag : List ℕ) (tag_color : ℕ) (format : List ℕ) (c : Console)
    → InScreen c
    → Logged c (printk_log tag tag_color format c)
unfolding printk_log
printk_log-Logged tag tag_color format c is =
    let tagged = console_write tag (console_set_color tag_color c) in
    let first =
      console_write-Stays tag (console_set_color tag_color c)
        (record { row = is.row; column = is.column }) in
    let second =
      console_write-Stays (format ++ (10 ∷ [])) (console_set_color 15 tagged)
        (record { row = first.cursor.row; column = first.cursor.column }) in
    let second' =
      subst (Stays (console_set_color 15 tagged))
        (written_line format (console_set_color 15 tagged)) second in
    record {
      color = refl;
      column = newline_column (console_write format (console_set_color 15 tagged));
      stays = record {
        cursor = record { row = second'.cursor.row; column = second'.cursor.column };
        behind = λ a le. second'.behind a le ∙ first.behind a le;
      };
    }
