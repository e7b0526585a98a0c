-- ===== src/Descriptors/Gates.antt =====
-- The interrupt gates that src/kernel/idt.c writes.
use aether_os.Base.{
  ℕ, zero, suc, ◌+◌, ◌*◌, ◌^◌, ◌≤◌, ◌<◌, ◌≡◌, ◌≢◌, refl, arith, ap, ◌∙◌, sym, subst, ◌==◌, ==_refl,
  ==_ne, Bool-cases, inl, inr,
}
use aether_os.Descriptors.{
  IdtEntry, Idt, idt_set_gate, clear_gates, install, idt_init, kernel_cs, interrupt_gate,
}

abbrev pub handler_of : IdtEntry → ℕ
handler_of e = e.offset_low + e.offset_high * 2 ^ 16

-- a present gate to the handler, in the kernel's code segment
abbrev pub IsGate : ℕ → ℕ → IdtEntry → Type 0
IsGate handler flags e = (handler_of e ≡ handler) × (e.selector ≡ kernel_cs) × (e.type_attr ≡ flags)

pub idt_set_gate-IsGate :
    (num handler flags : ℕ) (idt : Idt)
    → handler < 2 ^ 32
    → IsGate handler flags (idt_set_gate num handler kernel_cs flags idt num)
unfolding idt_set_gate
idt_set_gate-IsGate num handler flags idt lt = simp (==_refl num) (omega (arith, lt), refl, refl)

pub idt_set_gate-other :
    (num handler selector flags i : ℕ) (idt : Idt)
    → i ≢ num
    → idt_set_gate num handler selector flags idt i ≡ idt i
unfolding idt_set_gate
idt_set_gate-other num handler selector flags i idt ne = simp (==_ne i num ne)

module _ (first : ℕ) (handler : ℕ → ℕ) (idt : Idt) where
  install-IsGate :
      (n v : ℕ)
      → v < n
      → handler v < 2 ^ 32
      → IsGate (handler v) interrupt_gate (install first n handler idt (first + v))
  unfolding install
  install-IsGate zero v lt small = absurd (omega (arith, lt))
  install-IsGate (suc n) v lt small = elim (Bool-cases (v == n)) [
    | inl e ↦
        let same : v ≡ n = ground (arith, e) in
        subst
          (λ x. IsGate (handler x) interrupt_gate (install first (suc n) handler idt (first + x)))
          (sym same)
          (idt_set_gate-IsGate (first + n) (handler n) interrupt_gate (install first n handler idt)
            (subst (λ x. handler x < 2 ^ 32) same small))
    | inr e ↦
        subst (IsGate (handler v) interrupt_gate)
          (sym (
            idt_set_gate-other (first + n) (handler n) kernel_cs interrupt_gate (first + v)
              (install first n handler idt) (λ q. ground (arith, e, q))))
          (install-IsGate n v (ground (arith, e, lt)) small)
  ]

  install-other :
      (n i : ℕ) → ((v : ℕ) → v < n → i ≢ first + v) → install first n handler idt i ≡ idt i
  unfolding install
  install-other zero i out = refl
  install-other (suc n) i out =
      idt_set_gate-other (first + n) (handler n) kernel_cs interrupt_gate i
        (install first n handler idt) (out n (omega arith))
      ∙ install-other n i (λ v lt. out v (omega (arith, lt)))

clear_gates-absent : (n i : ℕ) (idt : Idt) → i < n → (clear_gates n idt i).type_attr ≡ 0
unfolding clear_gates idt_set_gate
clear_gates-absent zero i idt lt = absurd (omega (arith, lt))
clear_gates-absent (suc n) i idt lt = elim (Bool-cases (i == n)) [
  | inl e ↦ simp e refl
  | inr e ↦ simp e (clear_gates-absent n i idt (ground (arith, e, lt)))
]

-- `idt_init` leads the exceptions 0 to 31 to their handlers and the vectors 32 to 47 to those of
-- the IRQs, by interrupt gates of the kernel; all other vectors are absent.
pub idt_init-IsGate :
    (isr irq : ℕ → ℕ) (idt : Idt)
    → ((v : ℕ) → isr v < 2 ^ 32)
    → ((v : ℕ) → irq v < 2 ^ 32)
    → ((v : ℕ) → v < 32 → IsGate (isr v) interrupt_gate (idt_init isr irq idt v))
      × ((v : ℕ) → v < 16 → IsGate (irq v) interrupt_gate (idt_init isr irq idt (32 + v)))
      × ((i : ℕ) → 48 ≤ i → i < 256 → (idt_init isr irq idt i).type_attr ≡ 0)
unfolding idt_init
idt_init-IsGate isr irq idt small_isr small_irq =
    let cleared = clear_gates 256 idt in
    let exceptions = install 0 32 isr cleared in
    (
      λ v lt.
          subst (IsGate (isr v) interrupt_gate)
            (sym (install-other 32 irq exceptions 16 v (λ w _ e. omega (arith, e, lt))))
            (let zero_first : 0 + v ≡ v = omega arith in
              subst (λ x. IsGate (isr v) interrupt_gate (exceptions x)) zero_first
                (install-IsGate 0 isr cleared 32 v lt (small_isr v))),
      λ v lt. install-IsGate 32 irq exceptions 16 v lt (small_irq v),
      λ i lo hi.
          ap (λ (e : IdtEntry). e.type_attr)
            (install-other 32 irq exceptions 16 i (λ w lw e. omega (arith, e, lo, lw))
              ∙ install-other 0 isr cleared 32 i (λ w lw e. omega (arith, e, lo, lw)))
          ∙ clear_gates-absent 256 i idt hi,
    )
