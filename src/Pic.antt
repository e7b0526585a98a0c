-- ===== src/Pic.antt =====
-- The interrupt controllers of src/kernel/pic.c. A call is the list of its port writes in order;
-- `inb` is an argument, the value that the port reads as.
pub mod Masks
mod Tests
use aether_os.Base.{
  ℕ, ◌+◌, ◌-◌, ◌*◌, ◌%◌, ◌^◌, bit_and, bit_or, ltb, leb, if◌then◌else◌, List, [], ◌∷◌, ◌++◌,
}

abbrev pub pic1_command : ℕ
pic1_command = 0x20

abbrev pub pic1_data : ℕ
pic1_data = 0x21

abbrev pub pic2_command : ℕ
pic2_command = 0xA0

abbrev pub pic2_data : ℕ
pic2_data = 0xA1

-- `outb(port, value)`
abbrev pub Writes : Type 0
Writes = List (ℕ × ℕ)

abbrev pub io_wait : ℕ × ℕ
io_wait = (0x80, 0)

-- the initialisation words ICW1 to ICW4 for both controllers, then the masks
unfoldable pub pic_init : Writes
pic_init =
    (pic1_command, 0x11)
    ∷ io_wait
    ∷ (pic2_command, 0x11)
    ∷ io_wait
    ∷ (pic1_data, 0x20)
    ∷ io_wait
    ∷ (pic2_data, 0x28)
    ∷ io_wait
    ∷ (pic1_data, 4)
    ∷ io_wait
    ∷ (pic2_data, 2)
    ∷ io_wait
    ∷ (pic1_data, 1)
    ∷ io_wait
    ∷ (pic2_data, 1)
    ∷ io_wait
    ∷ (pic1_data, 0xFB)
    ∷ (pic2_data, 0xFF)
    ∷ []

unfoldable pub pic_send_eoi : ℕ → Writes
pic_send_eoi irq =
    if leb 8 irq
    then (pic2_command, 0x20) ∷ (pic1_command, 0x20) ∷ []
    else (pic1_command, 0x20) ∷ []

-- the port and the bit of an IRQ
abbrev pub line_of : ℕ → ℕ × ℕ
line_of irq = if ltb irq 8 then (pic1_data, irq) else (pic2_data, irq - 8)

-- `value & ~(1 << irq)` and `value | (1 << irq)` on a byte
abbrev pub clear_bit : ℕ → ℕ → ℕ
clear_bit value i = bit_and value (255 - 2 ^ i % 256)

abbrev pub set_bit : ℕ → ℕ → ℕ
set_bit value i = bit_or value (2 ^ i) % 256

unfoldable pub pic_enable_irq : (ℕ → ℕ) → ℕ → ℕ × ℕ
pic_enable_irq inb irq = let (port, i) = line_of irq in (port, clear_bit (inb port) i)

unfoldable pub pic_disable_irq : (ℕ → ℕ) → ℕ → ℕ × ℕ
pic_disable_irq inb irq = let (port, i) = line_of irq in (port, set_bit (inb port) i)

unfoldable pub pic_get_mask : (ℕ → ℕ) → ℕ
pic_get_mask inb = inb pic2_data * 2 ^ 8 + inb pic1_data
