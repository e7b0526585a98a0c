-- ===== src/Console/Printk/Plain.antt =====
-- Formats of src/kernel/printk.c that read no argument.
use aether_os.Base.{
  ℕ, ◌==◌, ◌&&◌, not, Bool, true, false, if◌then◌else◌, List, [], ◌∷◌, ◌++◌, length, none, some,
  ◌≡◌, refl, ap, ◌∙◌, arith,
}
use mathlib.Core.Option
use aether_os.Console.{Console, console_write}
use aether_os.Console.Printk.{Arg, printk}
use aether_os.Console.Printk.Render.{conversion, rendered, printk-rendered}

-- one of the characters that the `switch` of `printk` knows
abbrev pub is_specifier : ℕ → Bool
is_specifier ch =
    if ch == b's'
    then true
    else (if ch == b'c'
        then true
        else (if ch == b'd'
            then true
            else (if ch == b'u'
                then true
                else (if ch == b'x'
                    then true
                    else (if ch == b'X'
                        then true
                        else (if ch == b'p' then true else (ch == b'%')))))))

-- Every `%` of the format is followed by a character that the `switch` does not know.
unfoldable pub no_specifier : List ℕ → Bool
no_specifier [] = true
no_specifier (ch ∷ []) = not (ch == b'%')
no_specifier (ch ∷ spec ∷ format) = elim (ch == b'%') [
  | true ↦ not (is_specifier spec) && no_specifier format
  | false ↦ no_specifier (spec ∷ format)
]

conversion-unknown :
    (ch : ℕ) (args : List Arg)
    → is_specifier ch ≡ false
    → conversion ch args ≡ some (b'%' ∷ ch ∷ [], args)
unfolding conversion
conversion-unknown ch args unknown = ground (arith, unknown)

rendered-plain :
    (format : List ℕ) (args : List Arg)
    → no_specifier format ≡ true
    → rendered format args ≡ some format
unfolding rendered no_specifier
rendered-plain [] args plain = refl
rendered-plain (ch ∷ []) args plain = ground (arith, plain)
rendered-plain (ch ∷ spec ∷ format) args plain =
    by_char (ch == b'%') refl plain (rendered-plain format args)
      (rendered-plain (spec ∷ format) args)
  where
    both : (a b : Bool) → (not a && b) ≡ true → (a ≡ false) × (b ≡ true)
    both true b e = absurd (cc)
    both false b e = (refl, e)

    by_char :
        (b : Bool)
        → (ch == b'%') ≡ b
        → elim b [
          | true ↦ not (is_specifier spec) && no_specifier format
          | false ↦ no_specifier (spec ∷ format)
        ]
          ≡ true
        → (no_specifier format ≡ true → rendered format args ≡ some format)
        → (no_specifier (spec ∷ format) ≡ true
            → rendered (spec ∷ format) args ≡ some (spec ∷ format))
        → elim b [
          | true ↦ elim (conversion spec args) [
            | none ↦ none
            | some (str, others) ↦ Option.map (λ behind. str ++ behind) (rendered format others)
          ]
          | false ↦ Option.map (λ behind. ch ∷ behind) (rendered (spec ∷ format) args)
        ]
          ≡ some (ch ∷ spec ∷ format)
    by_char true percent goes later next =
        let apart = both (is_specifier spec) (no_specifier format) goes in
        ap
          (λ o. elim o [
            | none ↦ none
            | some (str, others) ↦ Option.map (λ behind. str ++ behind) (rendered format others)
          ])
          (conversion-unknown spec args apart.0)
        ∙ ap (Option.map (λ behind. b'%' ∷ spec ∷ behind)) (later apart.1)
        ∙ ap (λ x. some (x ∷ spec ∷ format)) (ground (arith, percent))
    by_char false other goes later next = ap (Option.map (λ behind. ch ∷ behind)) (next goes)

-- For a format in which every `%` is followed by a character that is no specifier, and for any
-- arguments: `printk` writes the format as it stands, reads no argument, and returns its length.
pub printk-plain :
    (format : List ℕ) (args : List Arg) (c : Console)
    → no_specifier format ≡ true
    → printk format args c
      ≡ some (record { written = length format; console = console_write format c })
printk-plain format args c plain =
    printk-rendered format args c
    ∙ ap (Option.map (λ str. record { written = length str; console = console_write str c }))
        (rendered-plain format args plain)
