-- ===== src/Shell/Pids.antt =====
-- The PID of `ps info` in src/kernel/shell.c: the loop over the digits reads back what `printk` prints.
use aether_os.Base.{
  ℕ, zero, suc, ◌+◌, ◌-◌, ◌*◌, ◌/◌, ◌%◌, ◌≤◌, ◌<◌, ◌^◌, ◌==◌, ◌&&◌, leb, Bool, true, false,
  if◌then◌else◌, List, [], ◌∷◌, ◌++◌, ◌≡◌, refl, ap, ◌∙◌, arith, if_true, if_false,
}
use aether_os.Base.Words.{add32, mul32}
use aether_os.Console.{digit, digits, reverse_string, utoa}
use aether_os.Console.Digits.{parse, value_of, utoa-parse}
use aether_os.Shell.{parse_pid}

-- decimal digits alone
unfoldable pub Decimal : List ℕ → Type 0
Decimal [] = Unit {0}
Decimal (c ∷ str) = (b'0' ≤ c) × (c ≤ b'9') × Decimal str

-- The string is empty or begins with no digit.
abbrev pub Stops : List ℕ → Type 0
Stops [] = Unit {0}
Stops (c ∷ str) = (leb b'0' c && leb c b'9') ≡ false

Decimal-append : (xs ys : List ℕ) → Decimal xs → Decimal ys → Decimal (xs ++ ys)
unfolding Decimal
Decimal-append [] ys all all' = all'
Decimal-append (x ∷ xs) ys (lo, hi, all) all' = (lo, hi, Decimal-append xs ys all all')

digits-Decimal : (fuel value : ℕ) → Decimal (reverse_string (digits 97 10 fuel value))
unfolding digits reverse_string Decimal
digits-Decimal zero value = tt
digits-Decimal (suc fuel) value = by_test (value == 0) (digits-Decimal fuel (value / 10))
  where
    by_test :
        (b : Bool)
        → Decimal (reverse_string (digits 97 10 fuel (value / 10)))
        → Decimal (
            reverse_string
              (if b then [] else digit 97 (value % 10) ∷ digits 97 10 fuel (value / 10)))
    by_test true rest = tt
    by_test false rest =
        Decimal-append (reverse_string (digits 97 10 fuel (value / 10)))
          (digit 97 (value % 10) ∷ []) rest (ground arith, ground arith, tt)

utoa-Decimal : (value : ℕ) → Decimal (utoa 97 10 value)
unfolding utoa Decimal
utoa-Decimal value = by_test (value == 0)
  where
    by_test : (b : Bool) → Decimal (if b then 48 ∷ [] else reverse_string (digits 97 10 32 value))
    by_test true = (omega arith, omega arith, tt)
    by_test false = digits-Decimal 32 value

-- A number only grows while its digits are read.
parse-grows : (str : List ℕ) (acc : ℕ) → acc ≤ parse 97 10 acc str
unfolding parse
parse-grows [] acc = omega arith
parse-grows (c ∷ str) acc = omega (arith, parse-grows str (acc * 10 + value_of 97 c))

parse_pid-parse :
    (str tail : List ℕ) (acc : ℕ)
    → Decimal str
    → Stops tail
    → parse 97 10 acc str < 2 ^ 32
    → parse_pid acc (str ++ tail) ≡ parse 97 10 acc str
unfolding parse_pid parse Decimal
parse_pid-parse [] [] acc all stops small = refl
parse_pid-parse [] (c ∷ tail) acc all stops small =
    if_false (leb b'0' c && leb c b'9') (parse_pid (add32 (mul32 acc 10) (c - b'0')) tail) acc stops
parse_pid-parse (c ∷ str) tail acc (lo, hi, all) stops small =
    let value : value_of 97 c ≡ c - b'0' = ground (arith, lo, hi) in
    let bound = parse-grows str (acc * 10 + value_of 97 c) in
    let next : add32 (mul32 acc 10) (c - b'0') ≡ acc * 10 + value_of 97 c =
      omega (arith, value, bound, small) in
    if_true (leb b'0' c && leb c b'9') (parse_pid (add32 (mul32 acc 10) (c - b'0')) (str ++ tail))
      acc (ground (arith, lo, hi))
    ∙ ap (λ a. parse_pid a (str ++ tail)) next
    ∙ parse_pid-parse str tail (acc * 10 + value_of 97 c) all stops small

-- For every PID below `2 ^ 32`, printed in decimal and followed by nothing or by a byte that is no digit:
-- `parse_pid` reads the PID back.
pub parse_pid-utoa :
    (pid : ℕ) (tail : List ℕ)
    → pid < 2 ^ 32
    → Stops tail
    → parse_pid 0 (utoa 97 10 pid ++ tail) ≡ pid
parse_pid-utoa pid tail small stops =
    let back : parse 97 10 0 (utoa 97 10 pid) ≡ pid = (utoa-parse pid small).0 in
    parse_pid-parse (utoa 97 10 pid) tail 0 (utoa-Decimal pid) stops (omega (arith, back, small))
    ∙ back
