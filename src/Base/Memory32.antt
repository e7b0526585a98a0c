-- ===== src/Base/Memory32.antt =====
-- A word of 32 bits in a byte-addressed memory, least byte first.
use Prim.Native.Nat.{ℕ, ◌+◌, ◌*◌, ◌^◌, ◌≤◌, ◌<◌}
use mathlib.Core.Path.{◌≡◌, ◌∙◌}
use mathlib.Core.Logic.{◌≢◌, ◌⊎◌, inl, inr}
use native.Mathlib.Omega.{arith}
use aether_os.Base.Store.{store, store_self, store_ne}
use aether_os.Base.Words.{shr, low_bits}

unfoldable pub write32 : ℕ → ℕ → (ℕ → ℕ) → ℕ → ℕ
write32 a v memory = store (a + 3) (low_bits (shr v 24) 8) (
    store (a + 2) (low_bits (shr v 16) 8)
      (store (a + 1) (low_bits (shr v 8) 8) (store a (low_bits v 8) memory)))

unfoldable pub read32 : ℕ → (ℕ → ℕ) → ℕ
read32 a memory =
    memory a + memory (a + 1) * 2 ^ 8 + memory (a + 2) * 2 ^ 16 + memory (a + 3) * 2 ^ 24

pub write32-outside :
    (a v b : ℕ) (memory : ℕ → ℕ) → (b < a) ⊎ (a + 4 ≤ b) → write32 a v memory b ≡ memory b
unfolding write32
write32-outside a v b memory out =
    let apart : (i : ℕ) → i < 4 → b ≢ a + i = λ i small e. elim out [
      | inl below ↦ omega (arith, below, e)
      | inr above ↦ omega (arith, above, e, small)
    ] in
    store_ne (a + 3) _ b _ (apart 3 (omega arith))
    ∙ store_ne (a + 2) _ b _ (apart 2 (omega arith))
    ∙ store_ne (a + 1) _ b _ (apart 1 (omega arith))
    ∙ store_ne a _ b _ (λ e. apart 0 (omega arith) (omega (arith, e)))

pub read32-write32 : (a v : ℕ) (memory : ℕ → ℕ) → v < 2 ^ 32 → read32 a (write32 a v memory) ≡ v
unfolding read32 write32
read32-write32 a v memory small =
    let ne : (i j : ℕ) → i ≢ j → a + i ≢ a + j = λ i j other e. other (omega (arith, e)) in
    let first : write32 a v memory a ≡ low_bits v 8 =
      store_ne (a + 3) _ a _ (λ e. omega (arith, e))
      ∙ store_ne (a + 2) _ a _ (λ e. omega (arith, e))
      ∙ store_ne (a + 1) _ a _ (λ e. omega (arith, e))
      ∙ store_self a _ memory in
    let second : write32 a v memory (a + 1) ≡ low_bits (shr v 8) 8 =
      store_ne (a + 3) _ (a + 1) _ (λ e. omega (arith, e))
      ∙ store_ne (a + 2) _ (a + 1) _ (λ e. omega (arith, e))
      ∙ store_self (a + 1) _ _ in
    let third : write32 a v memory (a + 2) ≡ low_bits (shr v 16) 8 =
      store_ne (a + 3) _ (a + 2) _ (λ e. omega (arith, e)) ∙ store_self (a + 2) _ _ in
    let fourth : write32 a v memory (a + 3) ≡ low_bits (shr v 24) 8 = store_self (a + 3) _ _ in
    omega (arith, first, second, third, fourth, small)

pub read32-outside :
    (a v b : ℕ) (memory : ℕ → ℕ)
    → (b + 4 ≤ a) ⊎ (a + 4 ≤ b)
    → read32 b (write32 a v memory) ≡ read32 b memory
unfolding read32
read32-outside a v b memory out =
    let same : (i : ℕ) → i < 4 → write32 a v memory (b + i) ≡ memory (b + i) = λ i small.
      write32-outside a v (b + i) memory (elim out [
        | inl below ↦ inl (omega (arith, below, small))
        | inr above ↦ inr (omega (arith, above))
      ]) in
    let first : write32 a v memory b ≡ memory b = write32-outside a v b memory (elim out [
      | inl below ↦ inl (omega (arith, below))
      | inr above ↦ inr (omega (arith, above))
    ]) in
    omega (arith, first, same 1 (omega arith), same 2 (omega arith), same 3 (omega arith))
