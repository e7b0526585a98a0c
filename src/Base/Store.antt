-- ===== src/Base/Store.antt =====
-- A memory as a function of the address, and a write to one place.
use Prim.Native.Nat.{ℕ}
use mathlib.Core.Path.{◌≡◌}
use mathlib.Core.Logic.{◌≢◌}
use aether_os.Base.Tests.{◌==◌, if◌then◌else◌, ==_refl, ==_ne}

unfoldable pub store : ℕ → ℕ → (ℕ → ℕ) → ℕ → ℕ
store i v memory a = if a == i then v else memory a

pub store_self : (i v : ℕ) (memory : ℕ → ℕ) → store i v memory i ≡ v
unfolding store
store_self i v memory = simp (==_refl i)

pub store_ne : (i v a : ℕ) (memory : ℕ → ℕ) → a ≢ i → store i v memory a ≡ memory a
unfolding store
store_ne i v a memory ne = simp (==_ne a i ne)
