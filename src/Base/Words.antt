-- ===== src/Base/Words.antt =====
-- `uint32_t` values as native numbers below `2 ^ 32`, bytes as numbers below `2 ^ 8`, and facts
-- about bit operations that are checked at every value of a small range.
use Prim.Native.Nat.{ℕ, zero, suc, ◌+◌, ◌-◌, ◌*◌, ◌/◌, ◌%◌, ◌^◌, ◌<◌}
use mathlib.Core.Path.{◌≡◌}
use mathlib.Core.Bool.{Bool, true, ◌&&◌}
use native.Mathlib.Omega.{arith}

abbrev pub u32_mod : ℕ
u32_mod = 2 ^ 32

-- `a + b`, `a - b` and `a * b` on `uint32_t`.
abbrev pub add32 : ℕ → ℕ → ℕ
add32 a b = (a + b) % u32_mod

abbrev pub sub32 : ℕ → ℕ → ℕ
sub32 a b = (a + u32_mod - b) % u32_mod

abbrev pub mul32 : ℕ → ℕ → ℕ
mul32 a b = (a * b) % u32_mod

-- `x >> k`, `x & (2^k - 1)` and `x & ~(2^k - 1)`.
abbrev pub shr : ℕ → ℕ → ℕ
shr x k = x / 2 ^ k

abbrev pub low_bits : ℕ → ℕ → ℕ
low_bits x k = x % 2 ^ k

abbrev pub clear_low_bits : ℕ → ℕ → ℕ
clear_low_bits x k = x / 2 ^ k * 2 ^ k

-- Every entry `0 .. size - 1` of a table of answers is `true`.
unfoldable pub table_holds : ℕ → (ℕ → Bool) → Bool
table_holds zero answer = true
table_holds (suc size) answer = table_holds size answer && answer size

pub table_holds-at :
    (size : ℕ) (answer : ℕ → Bool) (entry : ℕ)
    → table_holds size answer ≡ true
    → entry < size
    → answer entry ≡ true
unfolding table_holds
table_holds-at zero answer entry whole small = absurd (omega (arith, small))
table_holds-at (suc size) answer entry whole small =
    ground (arith, table_holds-at size answer entry)
