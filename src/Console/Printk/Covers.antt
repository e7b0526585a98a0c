-- ===== src/Console/Printk/Covers.antt =====
-- When `printk` of src/kernel/printk.c has a result, and where it writes.
use aether_os.Base.{
  ℕ, zero, suc, ◌+◌, ◌*◌, ◌≤◌, ◌<◌, ◌^◌, ◌==◌, ltb, not, Bool, true, false, if◌then◌else◌, List, [],
  ◌∷◌, ◌++◌, Option, none, some, ◌≡◌, ◌≢◌, refl, ap, ◌∙◌, arith, ==_ne,
}
use mathlib.Core.Option
use aether_os.Base.Store.{store_ne}
use aether_os.Console.{Console, console_putchar_at}
use aether_os.Console.Screen.{InScreen, Stays, console_write-Stays}
use aether_os.Console.Printk.{Arg, Printed, itoa, printk, clear_row, clear_rows, console_clear}
use aether_os.Console.Printk.Render.{conversion, rendered, printk-rendered}

-- the arguments that a specifier leaves
abbrev pub leaves : Option (List ℕ × List Arg) → Option (List Arg)
leaves = Option.map (λ r. r.1)

-- Each specifier of the format finds an argument that it can print.
unfoldable pub covers : List ℕ → List Arg → Bool
covers [] args = true
covers (ch ∷ []) args = not (ch == b'%')
covers (ch ∷ spec ∷ format) args = elim (ch == b'%') [
  | true ↦ elim (leaves (conversion spec args)) [
    | none ↦ false
    | some others ↦ covers format others
  ]
  | false ↦ covers (spec ∷ format) args
]

abbrev Some : Option (List ℕ) → Type 0
Some o = (str : List ℕ) × (o ≡ some str)

map-Some : (f : List ℕ → List ℕ) (o : Option (List ℕ)) → Some o → Some (Option.map f o)
map-Some f o (str, e) = (f str, ap (Option.map f) e)

covers-rendered :
    (format : List ℕ) (args : List Arg) → covers format args ≡ true → Some (rendered format args)
unfolding covers rendered
covers-rendered [] args goes = ([], refl)
covers-rendered (ch ∷ []) args goes = by_char (ch == b'%') goes
  where
    by_char : (b : Bool) → not b ≡ true → Some (if b then none else some (ch ∷ []))
    by_char true e = absurd (cc)
    by_char false e = (ch ∷ [], refl)
covers-rendered (ch ∷ spec ∷ format) args goes =
    by_char (ch == b'%') goes (covers-rendered format) (covers-rendered (spec ∷ format) args)
  where
    by_conversion :
        (o : Option (List ℕ × List Arg))
        → elim (leaves o) [ none ↦ false | some others ↦ covers format others ] ≡ true
        → ((others : List Arg) → covers format others ≡ true → Some (rendered format others))
        → Some (elim o [
          | none ↦ none
          | some (str, others) ↦ Option.map (λ behind. str ++ behind) (rendered format others)
        ])
    by_conversion none e later = absurd (cc)
    by_conversion (some (str, others)) e later =
        map-Some (λ behind. str ++ behind) (rendered format others) (later others e)

    by_char :
        (b : Bool)
        → elim b [
          | true ↦ elim (leaves (conversion spec args)) [
            | none ↦ false
            | some others ↦ covers format others
          ]
          | false ↦ covers (spec ∷ format) args
        ]
          ≡ true
        → ((others : List Arg) → covers format others ≡ true → Some (rendered format others))
        → (covers (spec ∷ format) args ≡ true → Some (rendered (spec ∷ format) args))
        → Some (elim b [
          | true ↦ elim (conversion spec args) [
            | none ↦ none
            | some (str, others) ↦ Option.map (λ behind. str ++ behind) (rendered format others)
          ]
          | false ↦ Option.map (λ behind. ch ∷ behind) (rendered (spec ∷ format) args)
        ])
    by_char true e later next = by_conversion (conversion spec args) e later
    by_char false e later next =
        map-Some (λ behind. ch ∷ behind) (rendered (spec ∷ format) args) (next e)

-- Every number but `2 ^ 31` has a decimal.
pub itoa-defined : (n : ℕ) → n ≢ 2 ^ 31 → Some (itoa n)
unfolding itoa
itoa-defined n ne = by_tests (n == 0) (n == 2 ^ 31) (==_ne n (2 ^ 31) ne) (ltb n (2 ^ 31)) _ _ _
  where
    by_tests :
        (z m : Bool)
        → m ≡ false
        → (l : Bool) → (a b c : List ℕ)
        → Some (if z then some a else (if m then none else (if l then some b else some c)))
    by_tests true m e l a b c = (a, refl)
    by_tests false true e l a b c = absurd (cc)
    by_tests false false e true a b c = (b, refl)
    by_tests false false e false a b c = (c, refl)

-- A number below `2 ^ 31` has a decimal.
pub itoa-small : (n : ℕ) → n < 2 ^ 31 → Some (itoa n)
itoa-small n small = itoa-defined n (λ e. omega (arith, e, small))

-- With the cursor on the screen and a format whose every specifier finds an argument that it can print:
-- `printk` returns, the cursor is on the screen, and no memory behind the screen is written.
pub printk-Stays :
    (format : List ℕ) (args : List Arg) (c : Console)
    → covers format args ≡ true
    → InScreen c
    → (p : Printed) × (printk format args c ≡ some p) × Stays c p.console
printk-Stays format args c goes is =
    let (str, e) = covers-rendered format args goes in
    (_, printk-rendered format args c ∙ ap (Option.map _) e, console_write-Stays str c is)

clear_row-behind :
    (x y : ℕ) (c : Console)
    → x ≤ 80
    → y < 25
    → (a : ℕ) → 25 * 80 ≤ a
    → (clear_row x y c).memory a ≡ c.memory a
unfolding clear_row console_putchar_at
clear_row-behind zero y c le lt a far = refl
clear_row-behind (suc x) y c le lt a far =
    store_ne (y * 80 + x) _ a _ (λ e. omega (arith, e, le, lt, far))
    ∙ clear_row-behind x y c (omega (arith, le)) lt a far

clear_rows-behind :
    (y : ℕ) (c : Console) → y ≤ 25 → (a : ℕ) → 25 * 80 ≤ a → (clear_rows y c).memory a ≡ c.memory a
unfolding clear_rows
clear_rows-behind zero c le a far = refl
clear_rows-behind (suc y) c le a far =
    clear_row-behind 80 y (clear_rows y c) (omega arith) (omega (arith, le)) a far
    ∙ clear_rows-behind y c (omega (arith, le)) a far

pub console_clear-Stays : (c : Console) → Stays c (console_clear c)
unfolding console_clear
console_clear-Stays c = record {
  cursor = record { row = omega arith; column = omega arith };
  behind = clear_rows-behind 25 c (omega arith);
}
