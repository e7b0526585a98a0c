-- ===== src/Console/Screen.antt =====
-- The cursor of src/kernel/printk.c stays on the screen, and writes stay in the screen's memory.
use aether_os.Base.{
  ℕ, ◌+◌, ◌-◌, ◌*◌, ◌/◌, ◌≤◌, ◌<◌, ◌≡◌, refl, Bool, true, false, List, [], ◌∷◌, arith, ◌∙◌, ◌==◌,
  ltb, leb, if◌then◌else◌,
}
use aether_os.Console.{
  Console, console_scroll, console_putchar_at, next_row, console_putchar, console_write,
  console_backspace, vga_entry,
}
use aether_os.Base.Store.{store_ne}
use aether_os.Console.Scroll.{console_scroll_lem}

pub record InScreen (c : Console) : Type 0 where
  pub row : c.row < 25
  pub column : c.column < 80

-- The cursor is on the screen, and memory behind it is as in `c`.
pub record Stays (c d : Console) : Type 0 where
  pub cursor : InScreen d
  pub behind : (a : ℕ) → 25 * 80 ≤ a → d.memory a ≡ c.memory a

-- the cursor moved on the screen
moved : (c : Console) (r x : ℕ) → r < 25 → x < 80 → Stays c (record c { row = r; column = x })
moved c r x lr lx = record { cursor = record { row = lr; column = lx }; behind = λ a le. refl }

after : (c d e : Console) → Stays c d → Stays d e → Stays c e
after c d e s t = record { cursor = t.cursor; behind = λ a le. t.behind a le ∙ s.behind a le }

put-Stays :
    (ch x y : ℕ) (c : Console)
    → InScreen c
    → x < 80
    → y < 25
    → Stays c (console_putchar_at ch x y c)
unfolding console_putchar_at
put-Stays ch x y c is lx ly = record {
  cursor = record { row = is.row; column = is.column };
  behind = λ a le.
      store_ne (y * 80 + x) (vga_entry ch c.color) a c.memory (λ e. omega (arith, e, le, lx, ly));
}

next_row-Stays : (c : Console) → InScreen c → Stays c (next_row c)
unfolding next_row
next_row-Stays c is = by_test (c.row + 1 == 25) refl
  where
    down : Console
    down = record c { row = c.row + 1; column = 0 }

    by_test : (b : Bool) → (c.row + 1 == 25) ≡ b → Stays c (if b then console_scroll down else down)
    by_test true e =
        let s = console_scroll_lem down in
        record {
          cursor = record { row = omega (arith, s.3); column = omega (arith, s.4) };
          behind = s.2;
        }
    by_test false e = moved c (c.row + 1) 0 (ground (arith, e, is.row)) (omega arith)

-- `console_putchar` of any character keeps the cursor on the screen of 25 rows of 80 columns and writes to no
-- memory behind it.
pub console_putchar-Stays : (ch : ℕ) (c : Console) → InScreen c → Stays c (console_putchar ch c)
unfolding console_putchar
console_putchar-Stays ch c is =
    by_test (ch == 10) (ch == 13) (ch == 9) (leb 80 tab) refl (c.column + 1 == 80) refl
  where
    tab : ℕ
    tab = (c.column + 8) / 8 * 8

    placed : Console
    placed = console_putchar_at ch c.column c.row c

    put : Stays c placed
    put = put-Stays ch c.column c.row c is is.column is.row

    by_test :
        (n r t w : Bool)
        → leb 80 tab ≡ w
        → (l : Bool) → (c.column + 1 == 80) ≡ l
        → Stays c (
            if n
            then next_row c
            else (if r
                then record c { column = 0 }
                else (if t
                    then (if w then next_row c else record c { column = tab })
                    else (if l then next_row placed else record placed { column = c.column + 1 }))))
    by_test true r t w ew l el = next_row-Stays c is
    by_test false true t w ew l el = moved c c.row 0 is.row (omega arith)
    by_test false false true true ew l el = next_row-Stays c is
    by_test false false true false ew l el = moved c c.row tab is.row (ground (arith, ew))
    by_test false false false w ew true el =
        after c placed (next_row placed) put (next_row-Stays placed put.cursor)
    by_test false false false w ew false el =
        after c placed (record placed { column = c.column + 1 }) put
          (moved placed placed.row (c.column + 1) put.cursor.row (ground (arith, el, is.column)))

-- `console_backspace` keeps the cursor on the screen, too.
pub console_backspace-Stays : (c : Console) → InScreen c → Stays c (console_backspace c)
unfolding console_backspace
console_backspace-Stays c is = by_test (ltb 0 c.column) refl (ltb 0 c.row) refl
  where
    left : Console
    left = record c { column = c.column - 1 }

    up : Console
    up = record c { row = c.row - 1; column = 79 }

    by_test :
        (l : Bool)
        → ltb 0 c.column ≡ l
        → (u : Bool) → ltb 0 c.row ≡ u
        → Stays c (
            if l
            then console_putchar_at 32 (c.column - 1) c.row left
            else (if u then console_putchar_at 32 79 (c.row - 1) up else c))
    by_test true el u eu =
        let m = moved c c.row (c.column - 1) is.row (omega (arith, is.column)) in
        after c left (console_putchar_at 32 (c.column - 1) c.row left) m
          (put-Stays 32 (c.column - 1) c.row left m.cursor m.cursor.column is.row)
    by_test false el true eu =
        let m = moved c (c.row - 1) 79 (omega (arith, is.row)) (omega arith) in
        after c up (console_putchar_at 32 79 (c.row - 1) up) m
          (put-Stays 32 79 (c.row - 1) up m.cursor (omega arith) m.cursor.row)
    by_test false el false eu = record { cursor = is; behind = λ a le. refl }

-- However much is written to the console, the cursor stays on the screen and memory behind it is untouched.
pub console_write-Stays :
    (text : List ℕ) (c : Console) → InScreen c → Stays c (console_write text c)
unfolding console_write
console_write-Stays [] c is = record { cursor = is; behind = λ a le. refl }
console_write-Stays (ch ∷ text) c is =
    let first = console_putchar-Stays ch c is in
    after c (console_putchar ch c) (console_write text (console_putchar ch c)) first
      (console_write-Stays text (console_putchar ch c) first.cursor)
