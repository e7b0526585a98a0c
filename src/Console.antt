-- ===== src/Console.antt =====
-- The text console of src/kernel/printk.c: the cursor, the cells of VGA memory, scrolling, and the
-- conversion of numbers.
pub mod Screen
pub mod Scroll
pub mod Digits
pub mod Printk
mod Tests
use aether_os.Base.Store.{store}
use aether_os.Base.{
  ℕ, zero, suc, ◌+◌, ◌-◌, ◌*◌, ◌/◌, ◌%◌, ◌^◌, ltb, leb, ◌==◌, if◌then◌else◌, List, [], ◌∷◌, ◌++◌,
}

abbrev pub vga_width : ℕ
vga_width = 80

abbrev pub vga_height : ℕ
vga_height = 25

-- `console_row`, `console_column`, `console_color` and `VGA_MEMORY`
pub record Console : Type 0 where
  pub row : ℕ
  pub column : ℕ
  pub color : ℕ
  pub memory : ℕ → ℕ

-- `vga_entry`: the character in the low byte, the colour in the high one
abbrev pub vga_entry : ℕ → ℕ → ℕ
vga_entry uc color = uc % 256 + color * 2 ^ 8

-- the two loops of `console_scroll`: `n` cells taken from a row below, and `n` cells made blank
unfoldable pub move_up : ℕ → (ℕ → ℕ) → ℕ → ℕ
move_up zero memory = memory
move_up (suc n) memory = let moved = move_up n memory in store n (moved (n + vga_width)) moved

unfoldable pub blank_row : ℕ → ℕ → (ℕ → ℕ) → ℕ → ℕ
blank_row zero color memory = memory
blank_row (suc n) color memory =
    store ((vga_height - 1) * vga_width + n) (vga_entry 32 color) (blank_row n color memory)

unfoldable pub console_scroll : Console → Console
console_scroll c = record c {
  row = vga_height - 1;
  column = 0;
  memory = blank_row vga_width c.color (move_up ((vga_height - 1) * vga_width) c.memory);
}

unfoldable pub console_putchar_at : ℕ → ℕ → ℕ → Console → Console
console_putchar_at ch x y c = record c {
  memory = store (y * vga_width + x) (vga_entry ch c.color) c.memory;
}

-- to the next row, which scrolls behind the last one
unfoldable pub next_row : Console → Console
next_row c =
    let down = record c { row = c.row + 1; column = 0 } in
    if down.row == vga_height then console_scroll down else down

unfoldable pub console_putchar : ℕ → Console → Console
console_putchar ch c =
    let tab = (c.column + 8) / 8 * 8 in
    let placed = console_putchar_at ch c.column c.row c in
    if ch == 10
    then next_row c
    else (if ch == 13
        then record c { column = 0 }
        else (if ch == 9
            then (if leb vga_width tab then next_row c else record c { column = tab })
            else (if c.column + 1 == vga_width
                then next_row placed
                else record placed { column = c.column + 1 })))

unfoldable pub console_write : List ℕ → Console → Console
console_write [] c = c
console_write (ch ∷ rest) c = console_write rest (console_putchar ch c)

unfoldable pub console_backspace : Console → Console
console_backspace c =
    if ltb 0 c.column
    then console_putchar_at 32 (c.column - 1) c.row (record c { column = c.column - 1 })
    else (if ltb 0 c.row
        then console_putchar_at 32 (vga_width - 1) (c.row - 1)
            (record c { row = c.row - 1; column = vga_width - 1 })
        else c)

-- a digit below 16, its letter from `ten` on: 97 in `utoa` and 65 in `utoa_upper`
abbrev pub digit : ℕ → ℕ → ℕ
digit ten rem = if ltb 9 rem then rem - 10 + ten else rem + 48

-- The loop of `utoa`, the last digit first. `fuel` bounds the number of digits.
unfoldable pub digits : ℕ → ℕ → ℕ → ℕ → List ℕ
digits ten base zero value = []
digits ten base (suc fuel) value =
    let rest = digits ten base fuel (value / base) in
    if value == 0 then [] else digit ten (value % base) ∷ rest

-- `reverse_string`
unfoldable pub reverse_string : List ℕ → List ℕ
reverse_string [] = []
reverse_string (ch ∷ str) = reverse_string str ++ (ch ∷ [])

unfoldable pub utoa : ℕ → ℕ → ℕ → List ℕ
utoa ten base value = if value == 0 then 48 ∷ [] else reverse_string (digits ten base 32 value)
