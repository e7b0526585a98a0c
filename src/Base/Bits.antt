-- ===== src/Base/Bits.antt =====
-- `|` on a number whose low bits are clear and a number below them, and the lowest bit of `|`.
use Prim.Native.Nat.{
  ℕ, zero, suc, ◌+◌, ◌*◌, ◌/◌, ◌%◌, ◌≤◌, ◌<◌, bit_or, bit_or-bitwise, digits, max,
}
use mathlib.Core.Path.{◌≡◌, refl, ap, ◌∙◌}
use native.Mathlib.Omega.{arith}

-- `|` on two numbers, the first with at most `n` digits
abbrev or_digits : ℕ → ℕ → ℕ → ℕ
or_digits n a b = digits (λ rest. rest) max n a b

-- `x` moved left by `k` digits
abbrev pub shift_left : ℕ → ℕ → ℕ
shift_left zero x = x
shift_left (suc k) x = 2 * shift_left k x

or_digits-zero : (n x : ℕ) → x ≤ n → or_digits n x 0 ≡ x
or_digits-zero zero x le = omega (arith, le)
or_digits-zero (suc n) zero le = refl
or_digits-zero (suc n) (suc x) le = omega (arith, or_digits-zero n (suc x / 2) (omega (arith, le)))

or_digits-double :
    (n d s y : ℕ) → d ≡ 2 * s → or_digits n s (y / 2) ≡ s + y / 2 → or_digits (suc n) d y ≡ d + y
or_digits-double n zero s y even half = omega arith
or_digits-double n (suc d) s y even half =
    let rest : suc d / 2 ≡ s = omega (arith, even) in
    ap (λ z. or_digits n z (y / 2) * 2 + max (suc d % 2) (y % 2)) rest ∙ omega (arith, even, half)

or_digits-shifted :
    (k n x y : ℕ)
    → shift_left k x ≤ n
    → y < shift_left k 1
    → or_digits n (shift_left k x) y ≡ shift_left k x + y
or_digits-shifted zero n x y le lt =
    let none_low : y ≡ 0 = omega (arith, lt) in
    ap (or_digits n x) none_low ∙ omega (arith, or_digits-zero n x le, none_low)
or_digits-shifted (suc k) zero x y le lt = omega (arith, le)
or_digits-shifted (suc k) (suc n) x y le lt =
    or_digits-double n (shift_left (suc k) x) (shift_left k x) y refl
      (or_digits-shifted k n x (y / 2) (omega (arith, le)) (omega (arith, lt)))

-- `|` of a number with `k` clear low bits and a number of `k` bits adds them.
pub bit_or-shifted :
    (k x y : ℕ) → y < shift_left k 1 → bit_or (shift_left k x) y ≡ shift_left k x + y
bit_or-shifted k x y lt =
    bit_or-bitwise (shift_left k x) y ∙ or_digits-shifted k (shift_left k x) x y (omega arith) lt

-- `|` with an odd number is odd.
pub bit_or_odd : (a b : ℕ) → a % 2 ≡ 1 → bit_or a b % 2 ≡ 1
bit_or_odd zero b odd = absurd (omega (arith, odd))
bit_or_odd (suc a) b odd = ap (λ z. z % 2) (bit_or-bitwise (suc a) b) ∙ omega (arith, odd)
