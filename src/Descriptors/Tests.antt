-- ===== src/Descriptors/Tests.antt =====
-- The descriptor tables at fixed inputs.
use aether_os.Base.{ℕ, ◌+◌, ◌%◌, ◌^◌, ◌≤◌, ◌<◌, ◌≡◌, ◌≢◌, arith}
use aether_os.Base.Words.{shr}
use aether_os.Descriptors.{Gdt, gdt_set_gate, Idt, idt_init, interrupt_gate}
use aether_os.Descriptors.Segments.{base_of, limit_of, gdt_set_gate-reads}
use aether_os.Descriptors.Gates.{IsGate, idt_init-IsGate}

abbrev no_segments : Gdt
no_segments _ = record {
  limit_low = 0;
  base_low = 0;
  base_middle = 0;
  access = 0;
  granularity = 0;
  base_high = 0;
}

abbrev no_gates : Idt
no_gates _ = record { offset_low = 0; selector = 0; type_attr = 0; offset_high = 0 }

gdt_set_gate-reads_example :
    (base_of (gdt_set_gate 5 0x123456 103 0xE9 0x50 no_segments 5) ≡ 0x123456)
    × (limit_of (gdt_set_gate 5 0x123456 103 0xE9 0x50 no_segments 5) ≡ 103 % 2 ^ 20)
    × ((gdt_set_gate 5 0x123456 103 0xE9 0x50 no_segments 5).access ≡ 0xE9)
    × (shr (gdt_set_gate 5 0x123456 103 0xE9 0x50 no_segments 5).granularity 4 ≡ shr 0x50 4)
    × ((i : ℕ) → i ≢ 5 → gdt_set_gate 5 0x123456 103 0xE9 0x50 no_segments i ≡ no_segments i)
gdt_set_gate-reads_example =
    gdt_set_gate-reads 5 0x123456 103 0xE9 0x50 no_segments (omega arith) (omega arith)

idt_init-IsGate_example :
    ((v : ℕ)
      → v < 32
      → IsGate 0x101000 interrupt_gate (idt_init (λ _. 0x101000) (λ _. 0x102000) no_gates v))
    × ((v : ℕ)
        → v < 16
        → IsGate 0x102000 interrupt_gate
            (idt_init (λ _. 0x101000) (λ _. 0x102000) no_gates (32 + v)))
    × ((i : ℕ)
        → 48 ≤ i
        → i < 256
        → (idt_init (λ _. 0x101000) (λ _. 0x102000) no_gates i).type_attr ≡ 0)
idt_init-IsGate_example =
    idt_init-IsGate (λ _. 0x101000) (λ _. 0x102000) no_gates (λ _. omega arith) (λ _. omega arith)
