-- ===== src/Shell/Words.antt =====
-- The command line of src/kernel/shell.c: the chain of `strncmp` against an exact look-up of the first word.
use aether_os.Base.{
  ℕ, suc, ◌-◌, ◌==◌, ◌&&◌, leb, Bool, true, false, if◌then◌else◌, List, [], ◌∷◌, ◌++◌, length,
  length-append, none, some, ◌≡◌, ◌≢◌, refl, sym, ap, ◌∙◌, arith, if_true, if_false, ==_ne, ==_refl,
  append-nil, ◌⊎◌, inl, inr,
}
use aether_os.Base.Int.{pos, negsuc}
use aether_os.Base.Strings.{bytes_of}
use aether_os.Shell.{
  Command, help, clear, meminfo, sysinfo, uptime, echo, test, paging, ps, sched, usermode, exit,
  unknown, is_zero, difference, strncmp, strchr, is_blank, skip_blanks, names, take, select,
  some_args, arguments, split_at, choose_command, shell_process_command,
}

-- The two strings are the same.
unfoldable pub same : List ℕ → List ℕ → Bool
same [] [] = true
same [] (y ∷ ys) = false
same (x ∷ xs) [] = false
same (x ∷ xs) (y ∷ ys) = let rest = same xs ys in (x == y) && rest

-- the command of a word, by the whole word
unfoldable pub named : List ℕ → Command
named word =
    if same word (bytes_of "help")
    then help
    else (if same word (bytes_of "clear")
        then clear
        else (if same word (bytes_of "meminfo")
            then meminfo
            else (if same word (bytes_of "sysinfo")
                then sysinfo
                else (if same word (bytes_of "uptime")
                    then uptime
                    else (if same word (bytes_of "echo")
                        then echo
                        else (if same word (bytes_of "test")
                            then test
                            else (if same word (bytes_of "paging")
                                then paging
                                else (if same word (bytes_of "ps")
                                    then ps
                                    else (if same word (bytes_of "sched")
                                        then sched
                                        else (if same word (bytes_of "usermode")
                                            then usermode
                                            else (if same word (bytes_of "exit")
                                                then exit
                                                else unknown word)))))))))))

-- `c` is not in the string.
unfoldable pub Without : ℕ → List ℕ → Type 0
Without c [] = Unit {0}
Without c (x ∷ xs) = (x ≢ c) × Without c xs

-- The string is made of spaces and tabs.
unfoldable pub Blanks : List ℕ → Type 0
Blanks [] = Unit {0}
Blanks (c ∷ str) = ((c ≡ b' ') ⊎ (c ≡ 9)) × Blanks str

is_blank-true : (c : ℕ) → (c ≡ b' ') ⊎ (c ≡ 9) → is_blank c ≡ true
is_blank-true c (inl e) = ground (arith, e)
is_blank-true c (inr e) = ground (arith, e)

is_blank-false : (c : ℕ) → c ≢ b' ' → c ≢ 9 → is_blank c ≡ false
is_blank-false c no_space no_tab = ground (arith, no_space, no_tab)

suc_test : (a b : ℕ) → (suc a == suc b) ≡ (a == b)
suc_test a b = ground arith

difference_test : (a b : ℕ) → (a == b) ≡ false → is_zero (difference a b) ≡ false
difference_test a b e = by_order (leb b a) refl
  where
    by_order :
        (t : Bool) → leb b a ≡ t → is_zero (if t then pos (a - b) else negsuc (b - a - 1)) ≡ false
    by_order true le = ground (arith, le, e)
    by_order false le = refl

names-same : (word tail name : List ℕ) → names (word ++ tail) (length word) name ≡ same word name
unfolding same strncmp
names-same [] tail [] = refl
names-same [] tail (y ∷ ys) = ground arith
names-same (x ∷ xs) tail [] = ground arith
names-same (x ∷ xs) tail (y ∷ ys) = by_byte (x == y) refl (names-same xs tail ys)
  where
    by_byte :
        (b : Bool)
        → (x == y) ≡ b
        → (is_zero (strncmp (xs ++ tail) ys (length xs)) && (length xs == length ys)) ≡ same xs ys
        → (is_zero (if b then strncmp (xs ++ tail) ys (length xs) else difference x y)
            && (suc (length xs) == suc (length ys)))
          ≡ (b && same xs ys)
    by_byte true e later =
        ap (λ t. is_zero (strncmp (xs ++ tail) ys (length xs)) && t)
          (suc_test (length xs) (length ys))
        ∙ later
    by_byte false e later =
        ap (λ z. z && (suc (length xs) == suc (length ys))) (difference_test x y e)

take-append : (word tail : List ℕ) → take (length word) (word ++ tail) ≡ word
take-append [] tail = refl
take-append (c ∷ word) tail = ap (λ rest. c ∷ rest) (take-append word tail)

strchr-none : (c : ℕ) (word : List ℕ) → Without c word → strchr word c ≡ none
unfolding strchr Without
strchr-none c [] away = refl
strchr-none c (x ∷ xs) (ne, away) =
    if_false (x == c) (some (x ∷ xs)) (strchr xs c) (==_ne x c ne) ∙ strchr-none c xs away

strchr-some :
    (c : ℕ) (word tail : List ℕ) → Without c word → strchr (word ++ (c ∷ tail)) c ≡ some (c ∷ tail)
unfolding strchr Without
strchr-some c [] tail away = if_true (c == c) (some (c ∷ tail)) (strchr tail c) (==_refl c)
strchr-some c (x ∷ xs) tail (ne, away) =
    if_false (x == c) (some (x ∷ (xs ++ (c ∷ tail)))) (strchr (xs ++ (c ∷ tail)) c) (==_ne x c ne)
    ∙ strchr-some c xs tail away

skip-word :
    (blanks word : List ℕ) (c : ℕ)
    → Blanks blanks
    → is_blank c ≡ false
    → skip_blanks (blanks ++ (c ∷ word)) ≡ c ∷ word
unfolding skip_blanks Blanks
skip-word [] word c all ends = if_false (is_blank c) (skip_blanks word) (c ∷ word) ends
skip-word (x ∷ blanks) word c (blank, all) ends =
    if_true (is_blank x) (skip_blanks (blanks ++ (c ∷ word))) _ (is_blank-true x blank)
    ∙ skip-word blanks word c all ends

skip-Blanks : (blanks : List ℕ) → Blanks blanks → skip_blanks blanks ≡ []
unfolding skip_blanks Blanks
skip-Blanks [] all = refl
skip-Blanks (x ∷ blanks) (blank, all) =
    if_true (is_blank x) (skip_blanks blanks) _ (is_blank-true x blank) ∙ skip-Blanks blanks all

-- the space that ends the word is skipped with the blanks behind it
arguments-word :
    (blanks rest : List ℕ) (d : ℕ)
    → Blanks blanks
    → is_blank d ≡ false
    → arguments (b' ' ∷ (blanks ++ (d ∷ rest))) ≡ some (d ∷ rest)
unfolding skip_blanks
arguments-word blanks rest d all ends = ap some_args (skip-word blanks rest d all ends)

arguments-Blanks : (blanks : List ℕ) → Blanks blanks → arguments (b' ' ∷ blanks) ≡ none
unfolding skip_blanks
arguments-Blanks blanks all = ap some_args (skip-Blanks blanks all)

select-named : (word tail : List ℕ) → select (word ++ tail) (length word) ≡ named word
unfolding select named
select-named word tail = next (bytes_of "help") help (
    next (bytes_of "clear") clear (
      next (bytes_of "meminfo") meminfo (
        next (bytes_of "sysinfo") sysinfo (
          next (bytes_of "uptime") uptime (
            next (bytes_of "echo") echo (
              next (bytes_of "test") test (
                next (bytes_of "paging") paging (
                  next (bytes_of "ps") ps (
                    next (bytes_of "sched") sched (
                      next (bytes_of "usermode") usermode
                        (next (bytes_of "exit") exit (ap unknown (take-append word tail)))))))))))))
  where
    next :
        (name : List ℕ) (found : Command) {other other' : Command}
        → other ≡ other'
        → (if names (word ++ tail) (length word) name then found else other)
          ≡ (if same word name then found else other')
    next name found {other = other} {other' = other'} e =
        ap (λ b. if b then found else other) (names-same word tail name)
        ∙ ap (λ x. if same word name then found else x) e

split-alone :
    (word : List ℕ) → Without b' ' word → split_at word (strchr word b' ') ≡ (named word, none)
split-alone word away =
    ap (split_at word) (strchr-none b' ' word away)
    ∙ ap (λ str. (select str (length word), none)) (sym (append-nil word))
    ∙ ap (λ chosen. (chosen, none)) (select-named word [])

split-arguments :
    (word tail : List ℕ)
    → Without b' ' word
    → split_at (word ++ (b' ' ∷ tail)) (strchr (word ++ (b' ' ∷ tail)) b' ')
      ≡ (named word, arguments (b' ' ∷ tail))
split-arguments word tail away =
    let line = word ++ (b' ' ∷ tail) in
    let count : length line - length (b' ' ∷ tail) ≡ length word =
      omega (arith, length-append word (b' ' ∷ tail)) in
    ap (split_at line) (strchr-some b' ' word tail away)
    ∙ ap (λ n. (select line n, arguments (b' ' ∷ tail))) count
    ∙ ap (λ chosen. (chosen, arguments (b' ' ∷ tail))) (select-named word (b' ' ∷ tail))

-- A command line of blanks, a word without a space that does not begin with a tab, and a tail behind a space.
line_lem :
    (blanks word tail : List ℕ) (c : ℕ)
    → Blanks blanks
    → c ≢ 9
    → Without b' ' (c ∷ word)
    → shell_process_command (blanks ++ (c ∷ (word ++ (b' ' ∷ tail))))
      ≡ some (named (c ∷ word), arguments (b' ' ∷ tail))
unfolding shell_process_command Without
line_lem blanks word tail c all no_tab away =
    ap choose_command
      (skip-word blanks (word ++ (b' ' ∷ tail)) c all (is_blank-false c away.0 no_tab))
    ∙ ap some (split-arguments (c ∷ word) tail away)

-- For a command line of blanks (spaces and tabs) and a word that has no space in it and does not begin with a
-- tab: `shell_process_command` chooses the command that is named exactly as the word. It has no
-- argument when nothing, or a space and blanks only, stands behind the word; when a space, blanks and a text
-- that begins with no blank stand there, that text is the argument.
pub shell_process_command-named :
    (blanks word blanks' rest : List ℕ) (c d : ℕ)
    → Blanks blanks
    → c ≢ 9
    → Without b' ' (c ∷ word)
    → Blanks blanks'
    → d ≢ b' '
    → d ≢ 9
    → (shell_process_command (blanks ++ (c ∷ word)) ≡ some (named (c ∷ word), none))
      × (shell_process_command (blanks ++ (c ∷ (word ++ (b' ' ∷ blanks'))))
          ≡ some (named (c ∷ word), none))
      × (shell_process_command (blanks ++ (c ∷ (word ++ (b' ' ∷ (blanks' ++ (d ∷ rest))))))
          ≡ some (named (c ∷ word), some (d ∷ rest)))
unfolding shell_process_command Without
shell_process_command-named blanks word blanks' rest c d all no_tab away all' no_space no_tab' =
    let ends : is_blank c ≡ false = is_blank-false c away.0 no_tab in
    (
      ap choose_command (skip-word blanks word c all ends) ∙ ap some (split-alone (c ∷ word) away),
      line_lem blanks word blanks' c all no_tab away
          ∙ ap (λ args. some (named (c ∷ word), args)) (arguments-Blanks blanks' all'),
      line_lem blanks word (blanks' ++ (d ∷ rest)) c all no_tab away
          ∙ ap (λ args. some (named (c ∷ word), args))
              (arguments-word blanks' rest d all' (is_blank-false d no_space no_tab')),
    )
