-- ===== src/Usermode/Frame.antt =====
-- The frame that src/kernel/usermode.c pushes for `iret`.
use aether_os.Base.{ℕ, ◌+◌, ◌≤◌, ◌<◌, ◌^◌, ◌≡◌, ◌⊎◌, inl, inr, refl, ap, ◌∙◌, arith}
use aether_os.Base.Memory32.{write32, read32, write32-outside, read32-write32, read32-outside}
use aether_os.Base.Words.{sub32}
use aether_os.Usermode.{push_frame}

-- The five words that `iret` takes from the stack at `esp`.
pub record IretFrame (esp entry stack : ℕ) (memory : ℕ → ℕ) : Type 0 where
  pub eip : read32 esp memory ≡ entry
  pub cs : read32 (esp + 4) memory ≡ 0x1B
  pub eflags : read32 (esp + 8) memory ≡ 0x202
  pub user_esp : read32 (esp + 12) memory ≡ stack
  pub ss : read32 (esp + 16) memory ≡ 0x23

module _ (esp entry stack : ℕ) (memory : ℕ → ℕ) where
  abbrev pub below_ss : ℕ → ℕ
  below_ss = write32 (esp + 16) 0x23 memory

  abbrev pub below_stack : ℕ → ℕ
  below_stack = write32 (esp + 12) stack below_ss

  abbrev pub below_flags : ℕ → ℕ
  below_flags = write32 (esp + 8) 0x202 below_stack

  abbrev pub below_cs : ℕ → ℕ
  below_cs = write32 (esp + 4) 0x1B below_flags

  pub pushed :
      esp + 20 < 2 ^ 32 → push_frame (esp + 20) entry stack memory ≡ write32 esp entry below_cs
  unfolding push_frame
  pushed top =
      let at : (k n : ℕ) → k + n ≡ 20 → sub32 (esp + 20) k ≡ esp + n =
        λ k n e. omega (arith, e, top) in
      let at_entry : sub32 (esp + 20) 20 ≡ esp = omega (arith, top) in
      let push = λ (a b c d e : ℕ).
        write32 a entry
          (write32 b 0x1B (write32 c 0x202 (write32 d stack (write32 e 0x23 memory)))) in
      ap
        (λ a.
          push a (sub32 (esp + 20) 16) (sub32 (esp + 20) 12) (sub32 (esp + 20) 8)
            (sub32 (esp + 20) 4))
        at_entry
      ∙ ap (λ b. push esp b (sub32 (esp + 20) 12) (sub32 (esp + 20) 8) (sub32 (esp + 20) 4))
          (at 16 4 refl)
      ∙ ap (λ c. push esp (esp + 4) c (sub32 (esp + 20) 8) (sub32 (esp + 20) 4)) (at 12 8 refl)
      ∙ ap (λ d. push esp (esp + 4) (esp + 8) d (sub32 (esp + 20) 4)) (at 8 12 refl)
      ∙ ap (push esp (esp + 4) (esp + 8) (esp + 12)) (at 4 16 refl)

  pub write32-IretFrame :
      entry < 2 ^ 32 → stack < 2 ^ 32 → IretFrame esp entry stack (write32 esp entry below_cs)
  write32-IretFrame small small' = record {
    eip = read32-write32 esp entry below_cs small;
    cs =
        read32-outside esp entry (esp + 4) below_cs (inr (omega arith))
        ∙ read32-write32 (esp + 4) 0x1B below_flags (omega arith);
    eflags =
        read32-outside esp entry (esp + 8) below_cs (inr (omega arith))
        ∙ read32-outside (esp + 4) 0x1B (esp + 8) below_flags (inr (omega arith))
        ∙ read32-write32 (esp + 8) 0x202 below_stack (omega arith);
    user_esp =
        read32-outside esp entry (esp + 12) below_cs (inr (omega arith))
        ∙ read32-outside (esp + 4) 0x1B (esp + 12) below_flags (inr (omega arith))
        ∙ read32-outside (esp + 8) 0x202 (esp + 12) below_stack (inr (omega arith))
        ∙ read32-write32 (esp + 12) stack below_ss small';
    ss =
        read32-outside esp entry (esp + 16) below_cs (inr (omega arith))
        ∙ read32-outside (esp + 4) 0x1B (esp + 16) below_flags (inr (omega arith))
        ∙ read32-outside (esp + 8) 0x202 (esp + 16) below_stack (inr (omega arith))
        ∙ read32-outside (esp + 12) stack (esp + 16) below_ss (inr (omega arith))
        ∙ read32-write32 (esp + 16) 0x23 memory (omega arith);
  }

  pub write32-below : (b : ℕ) → (b < esp) ⊎ (esp + 20 ≤ b) → write32 esp entry below_cs b ≡ memory b
  write32-below b out =
      let apart : (i : ℕ) → i ≤ 16 → (b < esp + i) ⊎ (esp + i + 4 ≤ b) = λ i small. elim out [
        | inl below ↦ inl (omega (arith, below))
        | inr above ↦ inr (omega (arith, above, small))
      ] in
      write32-outside esp entry b below_cs
        (elim out [ inl below ↦ inl below | inr above ↦ inr (omega (arith, above)) ])
      ∙ write32-outside (esp + 4) 0x1B b below_flags (apart 4 (omega arith))
      ∙ write32-outside (esp + 8) 0x202 b below_stack (apart 8 (omega arith))
      ∙ write32-outside (esp + 12) stack b below_ss (apart 12 (omega arith))
      ∙ write32-outside (esp + 16) 0x23 b memory (apart 16 (omega arith))
