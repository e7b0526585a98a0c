-- ===== src/Console/Digits.antt =====
-- The number conversion of src/kernel/printk.c: what `utoa` and `utoa_upper` print reads back as the number.
use aether_os.Base.{
  ℕ, zero, suc, ◌+◌, ◌-◌, ◌*◌, ◌/◌, ◌%◌, ◌≤◌, ◌<◌, ◌^◌, ◌≡◌, refl, List, [], ◌∷◌, ◌++◌, arith, ap,
  ◌∙◌, ◌==◌, leb, if◌then◌else◌, Bool-cases, inl, inr,
}
use aether_os.Console.{digit, digits, reverse_string, utoa}

-- the value of a digit, by its letter from `ten` on
abbrev pub value_of : ℕ → ℕ → ℕ
value_of ten ch = if leb ten ch then ch - ten + 10 else ch - 48

-- A string read from the left, onto what is read already.
unfoldable pub parse : ℕ → ℕ → ℕ → List ℕ → ℕ
parse ten base acc [] = acc
parse ten base acc (ch ∷ str) = parse ten base (acc * base + value_of ten ch) str

parse-append :
    (ten base acc : ℕ) (xs ys : List ℕ)
    → parse ten base acc (xs ++ ys) ≡ parse ten base (parse ten base acc xs) ys
unfolding parse
parse-append ten base acc [] ys = refl
parse-append ten base acc (x ∷ xs) ys = parse-append ten base (acc * base + value_of ten x) xs ys

digit-value : (ten rem : ℕ) → 58 ≤ ten → rem < 16 → value_of ten (digit ten rem) ≡ rem
digit-value ten rem le lt = ground (arith, le, lt)

-- The two bases of `printk`, as what the loop needs of one.
module _ (ten base : ℕ) (big : 58 ≤ ten) (div_mod : (v : ℕ) → v / base * base + v % base ≡ v)
    (rem_lt : (v : ℕ) → v % base < 16) where
  digits-parse :
      (limit : ℕ → ℕ)
      → limit 0 ≡ 1
      → ((n v : ℕ) → v < limit (suc n) → v / base < limit n)
      → (fuel value : ℕ) → value < limit fuel
      → parse ten base 0 (reverse_string (digits ten base fuel value)) ≡ value
  unfolding digits reverse_string parse
  digits-parse limit one step zero value lt = omega (arith, lt, one)
  digits-parse limit one step (suc fuel) value lt = elim (Bool-cases (value == 0)) [
    | inl e ↦ simp e (ground (arith, e))
    | inr e ↦ simp e (
        parse-append ten base 0 (reverse_string (digits ten base fuel (value / base)))
          (digit ten (value % base) ∷ [])
        ∙ ap (λ a. a * base + value_of ten (digit ten (value % base)))
            (digits-parse limit one step fuel (value / base) (step fuel value lt))
        ∙ ap (λ x. value / base * base + x) (digit-value ten (value % base) big (rem_lt value))
        ∙ div_mod value)
  ]

unfoldable power : ℕ → ℕ → ℕ
power b zero = 1
power b (suc n) = b * power b n

decimal-parse :
    (fuel value : ℕ)
    → value < power 10 fuel
    → parse 97 10 0 (reverse_string (digits 97 10 fuel value)) ≡ value
unfolding power
decimal-parse =
    digits-parse 97 10 (omega arith) (λ v. omega arith) (λ v. omega arith) (power 10) refl
      (λ n v lt. omega (arith, lt))

hex-parse :
    (ten fuel value : ℕ)
    → 58 ≤ ten
    → value < power 16 fuel
    → parse ten 16 0 (reverse_string (digits ten 16 fuel value)) ≡ value
unfolding power
hex-parse ten fuel value big lt =
    digits-parse ten 16 big (λ v. omega arith) (λ v. omega arith) (power 16) refl
      (λ n v lt. omega (arith, lt)) fuel value lt

in_decimal : (v : ℕ) → v < 2 ^ 32 → v < power 10 32
unfolding power
in_decimal v lt = omega (arith, lt)

in_hex : (v : ℕ) → v < 2 ^ 32 → v < power 16 32
unfolding power
in_hex v lt = omega (arith, lt)

-- Every 32-bit number that `utoa` prints in base 10 or 16, and `utoa_upper` in base 16, reads back
-- as itself: the 32 places of `printk`'s buffer lose no digit.
pub utoa-parse :
    (value : ℕ)
    → value < 2 ^ 32
    → (parse 97 10 0 (utoa 97 10 value) ≡ value)
      × (parse 97 16 0 (utoa 97 16 value) ≡ value)
      × (parse 65 16 0 (utoa 65 16 value) ≡ value)
unfolding utoa parse
utoa-parse value lt = elim (Bool-cases (value == 0)) [
  | inl e ↦ simp e (ground (arith, e), ground (arith, e), ground (arith, e))
  | inr e ↦ simp e (
    decimal-parse 32 value (in_decimal value lt),
    hex-parse 97 32 value (omega arith) (in_hex value lt),
    hex-parse 65 32 value (omega arith) (in_hex value lt),
  )
]
