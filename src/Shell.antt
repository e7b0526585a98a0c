-- ===== src/Shell.antt =====
-- The shell of src/kernel/shell.c: the string functions, the command line, and the commands that change
-- the processes, the scheduler and the heap. A C string is the list of its bytes, none of them zero.
pub mod Commands
pub mod Words
pub mod Pids
mod Tests
use aether_os.Base.{
  ℕ, zero, suc, ◌+◌, ◌-◌, ◌*◌, ◌==◌, leb, ◌&&◌, ◌||◌, Bool, true, false, if◌then◌else◌, List, [],
  ◌∷◌, ◌++◌, length, Option, none, some,
}
use aether_os.Base.Int.{ℤ, pos, negsuc}
use aether_os.Base.Strings.{bytes_of}
use aether_os.Base.Words.{add32, mul32}

-- the difference of two bytes, as an int
abbrev pub difference : ℕ → ℕ → ℤ
difference a b = if leb b a then pos (a - b) else negsuc (b - a - 1)

abbrev pub is_zero : ℤ → Bool
is_zero (pos n) = n == 0
is_zero (negsuc n) = false

unfoldable pub strcmp : List ℕ → List ℕ → ℤ
strcmp [] [] = pos 0
strcmp [] (y ∷ ys) = difference 0 y
strcmp (x ∷ xs) [] = difference x 0
strcmp (x ∷ xs) (y ∷ ys) = let rest = strcmp xs ys in if x == y then rest else difference x y

unfoldable pub strncmp : List ℕ → List ℕ → ℕ → ℤ
strncmp xs ys zero = pos 0
strncmp [] [] (suc n) = pos 0
strncmp [] (y ∷ ys) (suc n) = difference 0 y
strncmp (x ∷ xs) [] (suc n) = difference x 0
strncmp (x ∷ xs) (y ∷ ys) (suc n) =
    let rest = strncmp xs ys n in if x == y then rest else difference x y

-- the string from the first `c` on
unfoldable pub strchr : List ℕ → ℕ → Option (List ℕ)
strchr [] c = none
strchr (x ∷ xs) c = let rest = strchr xs c in if x == c then some (x ∷ xs) else rest

abbrev pub is_blank : ℕ → Bool
is_blank c = c == b' ' || (c == 9)

-- `while (*str == ' ' || *str == '\t') str++`
unfoldable pub skip_blanks : List ℕ → List ℕ
skip_blanks [] = []
skip_blanks (c ∷ str) = let rest = skip_blanks str in if is_blank c then rest else c ∷ str

-- What a command line asks for: `unknown` with the command word.
pub data Command : Type 0 where
  help clear meminfo sysinfo uptime echo test paging ps sched usermode exit : Command
  unknown : List ℕ → Command

-- `strncmp(command, name, cmd_len) == 0 && cmd_len == strlen(name)`
abbrev pub names : List ℕ → ℕ → List ℕ → Bool
names command cmd_len name = is_zero (strncmp command name cmd_len) && (cmd_len == length name)

-- the first `n` bytes, which are printed of an unknown command
abbrev pub take : ℕ → List ℕ → List ℕ
take zero str = []
take (suc n) [] = []
take (suc n) (c ∷ str) = c ∷ take n str

-- the chain of tests
unfoldable pub select : List ℕ → ℕ → Command
select command cmd_len =
    if names command cmd_len (bytes_of "help")
    then help
    else (if names command cmd_len (bytes_of "clear")
        then clear
        else (if names command cmd_len (bytes_of "meminfo")
            then meminfo
            else (if names command cmd_len (bytes_of "sysinfo")
                then sysinfo
                else (if names command cmd_len (bytes_of "uptime")
                    then uptime
                    else (if names command cmd_len (bytes_of "echo")
                        then echo
                        else (if names command cmd_len (bytes_of "test")
                            then test
                            else (if names command cmd_len (bytes_of "paging")
                                then paging
                                else (if names command cmd_len (bytes_of "ps")
                                    then ps
                                    else (if names command cmd_len (bytes_of "sched")
                                        then sched
                                        else (if names command cmd_len (bytes_of "usermode")
                                            then usermode
                                            else (if names command cmd_len (bytes_of "exit")
                                                then exit
                                                else unknown (take cmd_len command))))))))))))

-- `args` behind the blanks, NULL when nothing is left
abbrev pub some_args : List ℕ → Option (List ℕ)
some_args [] = none
some_args (c ∷ str) = some (c ∷ str)

abbrev pub arguments : List ℕ → Option (List ℕ)
arguments args = some_args (skip_blanks args)

-- the command word and its arguments, by where the first space is
abbrev pub split_at : List ℕ → Option (List ℕ) → Command × Option (List ℕ)
split_at command none = (select command (length command), none)
split_at command (some args) = (select command (length command - length args), arguments args)

-- a command line without leading blanks, `none` if it is empty
abbrev pub choose_command : List ℕ → Option (Command × Option (List ℕ))
choose_command [] = none
choose_command (c ∷ command) = some (split_at (c ∷ command) (strchr (c ∷ command) b' '))

-- The choice of `shell_process_command`; `none` for an empty command.
unfoldable pub shell_process_command : List ℕ → Option (Command × Option (List ℕ))
shell_process_command line = choose_command (skip_blanks line)

-- the loop of `cmd_ps` over the digits of a PID
unfoldable pub parse_pid : ℕ → List ℕ → ℕ
parse_pid pid [] = pid
parse_pid pid (c ∷ args) =
    let later = parse_pid (add32 (mul32 pid 10) (c - b'0')) args in
    if leb b'0' c && leb c b'9' then later else pid
