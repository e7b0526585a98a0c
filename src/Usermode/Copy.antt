-- ===== src/Usermode/Copy.antt =====
-- `copy_to_user_memory` of src/kernel/usermode.c byte by byte.
use aether_os.Base.{
  ℕ, zero, suc, ◌+◌, ◌≤◌, ◌<◌, ◌≡◌, ◌⊎◌, inl, inr, refl, sym, ap, ◌∙◌, arith, eq-cases,
}
use aether_os.Base.Store.{store, store_self, store_ne}
use aether_os.Usermode.{copy_bytes}

-- Ranges of `m` bytes at `a` and of `n` bytes at `b` have no byte in common.
abbrev pub Disjoint : ℕ → ℕ → ℕ → ℕ → Type 0
Disjoint a m b n = (a + m ≤ b) ⊎ (b + n ≤ a)

copy_bytes-outside :
    (src dst n b : ℕ) (memory : ℕ → ℕ)
    → (b < dst) ⊎ (dst + n ≤ b)
    → copy_bytes src dst n memory b ≡ memory b
unfolding copy_bytes
copy_bytes-outside src dst zero b memory out = refl
copy_bytes-outside src dst (suc n) b memory out =
    store_ne (dst + n) _ b (copy_bytes src dst n memory)
      (λ e. elim out [ inl below ↦ omega (arith, below, e) | inr above ↦ omega (arith, above, e) ])
    ∙ copy_bytes-outside src dst n b memory
        (elim out [ inl below ↦ inl below | inr above ↦ inr (omega (arith, above)) ])

pub copy_bytes-inside :
    (src dst n i : ℕ) (memory : ℕ → ℕ)
    → Disjoint src n dst n
    → i < n
    → copy_bytes src dst n memory (dst + i) ≡ memory (src + i)
unfolding copy_bytes
copy_bytes-inside src dst zero i memory apart small = absurd (omega (arith, small))
copy_bytes-inside src dst (suc n) i memory apart small =
    let apart' : Disjoint src n dst n = elim apart [
      | inl below ↦ inl (omega (arith, below))
      | inr above ↦ inr (omega (arith, above))
    ] in
    elim (eq-cases i n) [
      | inl last ↦
          ap
            (λ j.
              store (dst + n) (copy_bytes src dst n memory (src + n)) (copy_bytes src dst n memory)
                (dst + j))
            last
          ∙ store_self (dst + n) _ (copy_bytes src dst n memory)
          ∙ copy_bytes-outside src dst n (src + n) memory (elim apart [
            | inl below ↦ inl (omega (arith, below))
            | inr above ↦ inr (omega (arith, above))
          ])
          ∙ ap (λ j. memory (src + j)) (sym last)
      | inr ne ↦
          store_ne (dst + n) _ (dst + i) (copy_bytes src dst n memory) (λ e. ne (omega (arith, e)))
          ∙ copy_bytes-inside src dst n i memory apart' (omega (arith, small, ne))
    ]
