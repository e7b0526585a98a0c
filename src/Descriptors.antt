-- ===== src/Descriptors.antt =====
-- The descriptor tables: src/kernel/gdt.c, src/kernel/tss.c and src/kernel/idt.c. A table is a function of the
-- index; loading it into the CPU (`gdt_flush`, `tss_flush`, `idt_flush`) is left out.
pub mod Segments
pub mod Gates
mod Tests
use aether_os.Base.{ℕ, zero, suc, ◌+◌, ◌-◌, ◌*◌, ◌/◌, ◌%◌, bit_and, bit_or, ◌==◌, if◌then◌else◌}
use aether_os.Base.Words.{shr, low_bits}

-- `struct gdt_entry`
pub record GdtEntry : Type 0 where
  pub limit_low : ℕ
  pub base_low : ℕ
  pub base_middle : ℕ
  pub access : ℕ
  pub granularity : ℕ
  pub base_high : ℕ

abbrev pub Gdt : Type 0
Gdt = ℕ → GdtEntry

unfoldable pub gdt_set_gate : ℕ → ℕ → ℕ → ℕ → ℕ → Gdt → Gdt
gdt_set_gate num base limit access gran gdt i =
    if i == num
    then record {
      limit_low = low_bits limit 16;
      base_low = low_bits base 16;
      base_middle = low_bits (shr base 16) 8;
      access = access;
      granularity = bit_or (low_bits (shr limit 16) 4) (bit_and gran 0xF0);
      base_high = low_bits (shr base 24) 8;
    }
    else gdt i

-- The flags are `GDT_PRESENT | GDT_RING3 | GDT_SYSTEM | GDT_EXECUTABLE | GDT_WRITABLE` and the like, added up.
abbrev pub flat_granularity : ℕ
flat_granularity = 0x80 + 0x40

unfoldable pub gdt_init : Gdt → Gdt
gdt_init gdt = gdt_set_gate 4 0 0xFFFF_FFFF (0x80 + 0x60 + 0x10 + 2) flat_granularity (
    gdt_set_gate 3 0 0xFFFF_FFFF (0x80 + 0x60 + 0x10 + 8 + 2) flat_granularity (
      gdt_set_gate 2 0 0xFFFF_FFFF (0x80 + 0x10 + 2) flat_granularity (
        gdt_set_gate 1 0 0xFFFF_FFFF (0x80 + 0x10 + 8 + 2) flat_granularity
          (gdt_set_gate 0 0 0 0 0 gdt))))

-- The fields of `tss_entry_t` that are ever set; the others stay 0.
pub record Tss : Type 0 where
  pub esp0 : ℕ
  pub ss0 : ℕ
  pub cs : ℕ
  pub ss : ℕ
  pub ds : ℕ
  pub es : ℕ
  pub fs : ℕ
  pub gs : ℕ
  pub iomap_base : ℕ

-- `sizeof(tss_entry_t)`
abbrev pub tss_size : ℕ
tss_size = 104

-- `base` is the address of `kernel_tss`.
unfoldable pub tss_init : ℕ → ℕ → Gdt → Tss × Gdt
tss_init base kernel_stack gdt = (
  record {
    esp0 = kernel_stack;
    ss0 = 0x10;
    cs = 0x0B;
    ss = 0x10;
    ds = 0x10;
    es = 0x10;
    fs = 0x10;
    gs = 0x10;
    iomap_base = tss_size;
  },
  gdt_set_gate 5 base (tss_size - 1) 0xE9 0 gdt,
)

-- `struct idt_entry`; its byte `zero` is always 0.
pub record IdtEntry : Type 0 where
  pub offset_low : ℕ
  pub selector : ℕ
  pub type_attr : ℕ
  pub offset_high : ℕ

abbrev pub Idt : Type 0
Idt = ℕ → IdtEntry

unfoldable pub idt_set_gate : ℕ → ℕ → ℕ → ℕ → Idt → Idt
idt_set_gate num handler selector flags idt i =
    if i == num
    then record {
      offset_low = low_bits handler 16;
      selector = selector;
      type_attr = flags;
      offset_high = low_bits (shr handler 16) 16;
    }
    else idt i

-- the loop that clears the first `n` gates
unfoldable pub clear_gates : ℕ → Idt → Idt
clear_gates zero idt = idt
clear_gates (suc n) idt = idt_set_gate n 0 0 0 (clear_gates n idt)

-- `KERNEL_CODE_SEG`, and `IDT_PRESENT | IDT_RING0 | IDT_INT_GATE`
abbrev pub kernel_cs : ℕ
kernel_cs = 0x08

abbrev pub interrupt_gate : ℕ
interrupt_gate = 0x8E

-- the calls of `idt_set_gate` for `n` handlers in turn, from gate `first` on
unfoldable pub install : ℕ → ℕ → (ℕ → ℕ) → Idt → Idt
install first zero handler idt = idt
install first (suc n) handler idt =
    idt_set_gate (first + n) (handler n) kernel_cs interrupt_gate (install first n handler idt)

-- `isr` and `irq` are the addresses of the handlers in assembly.
unfoldable pub idt_init : (ℕ → ℕ) → (ℕ → ℕ) → Idt → Idt
idt_init isr irq idt = install 32 16 irq (install 0 32 isr (clear_gates 256 idt))
