-- ===== src/Pic/Tests.antt =====
-- The interrupt controllers with the masks of `pic_init`.
use aether_os.Base.{ℕ, ◌<◌, ◌≡◌, true, false, arith, ◌==◌, if◌then◌else◌}
use aether_os.Pic.{pic_enable_irq, pic_disable_irq, pic1_data}
use aether_os.Pic.Masks.{masked, write_port, enable_disable-masked}

abbrev all_masked : ℕ → ℕ
all_masked q = if q == pic1_data then 0xFB else 0xFF

bytes : (q : ℕ) → all_masked q < 256
bytes q = ground arith

enable_disable-masked_example :
    (masked (write_port (pic_enable_irq all_masked 9) all_masked) 9 ≡ false)
    × (masked (write_port (pic_disable_irq all_masked 9) all_masked) 9 ≡ true)
enable_disable-masked_example =
    enable_disable-masked all_masked 9 9 bytes (omega arith) (omega arith)
