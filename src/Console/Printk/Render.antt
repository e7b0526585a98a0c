-- ===== src/Console/Printk/Render.antt =====
-- `printk` of src/kernel/printk.c against a description of the text that a format and its arguments
-- stand for.
use aether_os.Base.{
  ℕ, ◌+◌, ◌%◌, ◌==◌, Bool, true, false, if◌then◌else◌, List, [], ◌∷◌, ◌++◌, length, length-append,
  Option, none, some, ◌≡◌, refl, sym, ap, ◌∙◌, arith,
}
use mathlib.Core.Option
use aether_os.Base.Strings.{bytes_of}
use aether_os.Console.{Console, console_putchar, console_write, utoa}
use aether_os.Console.Printk.{
  Arg, text, number, Printed, put, put_string, put_pointer, itoa, with_number, with_text,
  with_signed, specifier, printk_loop, printk,
}

-- the text that a specifier stands for, and the arguments behind it
unfoldable pub conversion : ℕ → List Arg → Option (List ℕ × List Arg)
conversion ch args =
    if ch == b's'
    then with_text (λ str. str) args
    else (if ch == b'c'
        then with_number (λ n. n % 256 ∷ []) args
        else (if ch == b'd'
            then with_signed (λ buffer. buffer) args
            else (if ch == b'u'
                then with_number (utoa 97 10) args
                else (if ch == b'x'
                    then with_number (utoa 97 16) args
                    else (if ch == b'X'
                        then with_number (utoa 65 16) args
                        else (if ch == b'p'
                            then with_number (λ n. bytes_of "0x" ++ utoa 97 16 n) args
                            else (if ch == b'%'
                                then some (b'%' ∷ [], args)
                                else some (b'%' ∷ ch ∷ [], args))))))))

-- The text of a format: each plain character, and the conversion of each specifier.
unfoldable pub rendered : List ℕ → List Arg → Option (List ℕ)
rendered [] args = some []
rendered (ch ∷ []) args = if ch == b'%' then none else some (ch ∷ [])
rendered (ch ∷ spec ∷ format) args = elim (ch == b'%') [
  | true ↦ elim (conversion spec args) [
    | none ↦ none
    | some (str, others) ↦ Option.map (λ behind. str ++ behind) (rendered format others)
  ]
  | false ↦ Option.map (λ behind. ch ∷ behind) (rendered (spec ∷ format) args)
]

pub console_write-append :
    (xs ys : List ℕ) (c : Console)
    → console_write (xs ++ ys) c ≡ console_write ys (console_write xs c)
unfolding console_write
console_write-append [] ys c = refl
console_write-append (x ∷ xs) ys c = console_write-append xs ys (console_putchar x c)

abbrev printed : ℕ → Console → Printed
printed written console = record { written = written; console = console }

put_string-append :
    (xs ys : List ℕ) (p : Printed) → put_string (xs ++ ys) p ≡ put_string ys (put_string xs p)
put_string-append xs ys p =
    let counted : p.written + length (xs ++ ys) ≡ p.written + length xs + length ys =
      omega (arith, length-append xs ys) in
    ap (λ n. printed n (console_write (xs ++ ys) p.console)) counted
    ∙ ap (printed (p.written + length xs + length ys)) (console_write-append xs ys p.console)

put_lem : (ch : ℕ) (p : Printed) → put ch p ≡ put_string (ch ∷ []) p
unfolding console_write
put_lem ch p = refl

put_pointer_lem :
    (buffer : List ℕ) (p : Printed) → put_pointer buffer p ≡ put_string (bytes_of "0x" ++ buffer) p
put_pointer_lem buffer p =
    let counted : p.written + (length buffer + 2)
        ≡ p.written + length (bytes_of "0x") + length buffer =
      omega arith in
    ap (λ n. printed n (console_write buffer (console_write (bytes_of "0x") p.console))) counted
    ∙ sym (put_string-append (bytes_of "0x") buffer p)

-- the text written, and the arguments behind it
abbrev printed_text : Printed → List ℕ × List Arg → Printed × List Arg
printed_text p (str, others) = (put_string str p, others)

choose :
    {A B : Type 0} (h : A → B) (b : Bool) (x y : Option B) (x' y' : Option A)
    → x ≡ Option.map h x'
    → y ≡ Option.map h y'
    → (if b then x else y) ≡ Option.map h (if b then x' else y')
choose h true x y x' y' e e' = e
choose h false x y x' y' e e' = e'

number_printed :
    (p : Printed) (do_print : ℕ → Printed) (str : ℕ → List ℕ) (args : List Arg)
    → ((n : ℕ) → do_print n ≡ put_string (str n) p)
    → with_number do_print args ≡ Option.map (printed_text p) (with_number str args)
number_printed p do_print str [] e = refl
number_printed p do_print str (text s ∷ args) e = refl
number_printed p do_print str (number n ∷ args) e = ap (λ q. some (q, args)) (e n)

text_printed :
    (p : Printed) (args : List Arg)
    → with_text (λ str. put_string str p) args
      ≡ Option.map (printed_text p) (with_text (λ str. str) args)
text_printed p [] = refl
text_printed p (text s ∷ args) = refl
text_printed p (number n ∷ args) =
    choose (printed_text p) (n == 0) _ _ (some (bytes_of "(null)", args)) none refl refl

signed_printed :
    (p : Printed) (args : List Arg)
    → with_signed (λ str. put_string str p) args
      ≡ Option.map (printed_text p) (with_signed (λ str. str) args)
signed_printed p [] = refl
signed_printed p (text s ∷ args) = refl
signed_printed p (number n ∷ args) = by_value (itoa n)
  where
    by_value :
        (value : Option (List ℕ))
        → elim value [ none ↦ none | some buffer ↦ some (put_string buffer p, args) ]
          ≡ Option.map
              (printed_text p)
              (elim value [ none ↦ none | some buffer ↦ some (buffer, args) ])
    by_value none = refl
    by_value (some buffer) = refl

specifier-conversion :
    (ch : ℕ) (args : List Arg) (p : Printed)
    → specifier ch args p ≡ Option.map (printed_text p) (conversion ch args)
unfolding specifier conversion
specifier-conversion ch args p =
    choose (printed_text p) (ch == b's') _ _ _ _ (text_printed p args) (
      choose (printed_text p) (ch == b'c') _ _ _ _
        (number_printed p _ (λ n. n % 256 ∷ []) args (λ n. put_lem (n % 256) p))
        (choose (printed_text p) (ch == b'd') _ _ _ _ (signed_printed p args) (
          choose (printed_text p) (ch == b'u') _ _ _ _
            (number_printed p _ (utoa 97 10) args (λ n. refl))
            (choose (printed_text p) (ch == b'x') _ _ _ _
              (number_printed p _ (utoa 97 16) args (λ n. refl))
              (choose (printed_text p) (ch == b'X') _ _ _ _
                (number_printed p _ (utoa 65 16) args (λ n. refl))
                (choose (printed_text p) (ch == b'p') _ _ _ _
                  (number_printed p _ (λ n. bytes_of "0x" ++ utoa 97 16 n) args
                    (λ n. put_pointer_lem (utoa 97 16 n) p))
                  (choose (printed_text p) (ch == b'%') _ _ _ _
                    (ap (λ q. some (q, args)) (put_lem b'%' p))
                    (ap (λ q. some (q, args)) (percent_char p)))))))))
  where
    percent_char : (p : Printed) → put ch (put b'%' p) ≡ put_string (b'%' ∷ ch ∷ []) p
    percent_char p =
        put_lem ch (put b'%' p)
        ∙ ap (put_string (ch ∷ [])) (put_lem b'%' p)
        ∙ sym (put_string-append (b'%' ∷ []) (ch ∷ []) p)

loop-rendered :
    (format : List ℕ) (args : List Arg) (p : Printed)
    → printk_loop format args p ≡ Option.map (λ str. put_string str p) (rendered format args)
unfolding printk_loop rendered console_write
loop-rendered [] args p = ap (λ n. some (printed n p.console)) (omega arith)
loop-rendered (ch ∷ []) args p =
    choose (λ str. put_string str p) (ch == b'%') none _ none (some (ch ∷ [])) refl refl
loop-rendered (ch ∷ spec ∷ format) args p =
    by_char (ch == b'%') (loop-rendered format) (loop-rendered (spec ∷ format) args (put ch p))
  where
    by_behind :
        (str : List ℕ) (behind : Option (List ℕ)) (result : Option Printed)
        → result ≡ Option.map (λ b. put_string b (put_string str p)) behind
        → result ≡ Option.map (λ b. put_string b p) (Option.map (λ b. str ++ b) behind)
    by_behind str none result e = e
    by_behind str (some behind) result e = e ∙ ap some (sym (put_string-append str behind p))

    by_conversion :
        (converted : Option (List ℕ × List Arg))
        → ((others : List Arg) (q : Printed)
            → printk_loop format others q
              ≡ Option.map (λ str. put_string str q) (rendered format others))
        → elim (Option.map (printed_text p) converted) [
          | none ↦ none
          | some (q, others) ↦ printk_loop format others q
        ]
          ≡ Option.map
              (λ str. put_string str p)
              (elim converted [
                | none ↦ none
                | some (str, others) ↦ Option.map (λ behind. str ++ behind) (rendered format others)
              ])
    by_conversion none later = refl
    by_conversion (some (str, others)) later =
        by_behind str (rendered format others) _ (later others (put_string str p))

    by_char :
        (b : Bool)
        → ((others : List Arg) (q : Printed)
            → printk_loop format others q
              ≡ Option.map (λ str. put_string str q) (rendered format others))
        → printk_loop (spec ∷ format) args (put ch p)
          ≡ Option.map (λ str. put_string str (put ch p)) (rendered (spec ∷ format) args)
        → elim b [
          | true ↦ elim (specifier spec args p) [
            | none ↦ none
            | some (q, others) ↦ printk_loop format others q
          ]
          | false ↦ printk_loop (spec ∷ format) args (put ch p)
        ]
          ≡ Option.map
              (λ str. put_string str p)
              (elim b [
                | true ↦ elim (conversion spec args) [
                  | none ↦ none
                  | some (str, others) ↦
                      Option.map (λ behind. str ++ behind) (rendered format others)
                ]
                | false ↦ Option.map (λ behind. ch ∷ behind) (rendered (spec ∷ format) args)
              ])
    by_char true later next =
        ap (λ o. elim o [ none ↦ none | some (q, others) ↦ printk_loop format others q ])
          (specifier-conversion spec args p)
        ∙ by_conversion (conversion spec args) later
    by_char false later next = by_behind (ch ∷ []) (rendered (spec ∷ format) args) _ (
        next
        ∙ ap (λ q. Option.map (λ str. put_string str q) (rendered (spec ∷ format) args))
            (put_lem ch p))

-- On every format, arguments and console: `printk` has a result just where the format has a text with
-- these arguments. It then returns the number of characters of that text, and the console is as after
-- writing the text.
pub printk-rendered :
    (format : List ℕ) (args : List Arg) (c : Console)
    → printk format args c
      ≡ Option.map
          (λ str. record { written = length str; console = console_write str c })
          (rendered format args)
unfolding printk
printk-rendered format args c =
    loop-rendered format args (printed 0 c) ∙ by_text (rendered format args)
  where
    by_text :
        (str : Option (List ℕ))
        → Option.map (λ str. put_string str (printed 0 c)) str
          ≡ Option.map (λ str. printed (length str) (console_write str c)) str
    by_text none = refl
    by_text (some str) = ap (λ n. some (printed n (console_write str c))) (omega arith)
