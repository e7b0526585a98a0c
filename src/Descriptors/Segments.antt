-- ===== src/Descriptors/Segments.antt =====
-- What the CPU reads back from the entries that src/kernel/gdt.c and src/kernel/tss.c write.
use aether_os.Base.{
  ℕ, ◌+◌, ◌*◌, ◌%◌, ◌^◌, ◌<◌, ◌≡◌, ◌≢◌, refl, Bool, true, ◌&&◌, arith, bit_and, bit_or, ◌==◌,
  if◌then◌else◌, ==_refl, ==_ne,
}
use aether_os.Base.Words.{shr, low_bits, table_holds, table_holds-at}
use aether_os.Descriptors.{GdtEntry, Gdt, gdt_set_gate, gdt_init, tss_init}

abbrev pub base_of : GdtEntry → ℕ
base_of e = e.base_low + e.base_middle * 2 ^ 16 + e.base_high * 2 ^ 24

abbrev pub limit_of : GdtEntry → ℕ
limit_of e = e.limit_low + low_bits e.granularity 4 * 2 ^ 16

-- the last byte of the segment: in pages, if the granularity flag is set
abbrev pub last_byte : GdtEntry → ℕ
last_byte e = if shr e.granularity 7 == 1 then limit_of e * 4096 + 4095 else limit_of e

-- the descriptor privilege level
abbrev pub dpl_of : GdtEntry → ℕ
dpl_of e = low_bits (shr e.access 5) 2

abbrev nibbles_fit : ℕ → ℕ → Bool
nibbles_fit a g = let b = bit_or a (bit_and g 0xF0) in (low_bits b 4 == a) && (shr b 4 == shr g 4)

nibbles : table_holds 16 (λ a. table_holds 256 (nibbles_fit a)) ≡ true
unfolding table_holds
nibbles = refl

nibbles_lem :
    (a g : ℕ)
    → a < 16
    → g < 256
    → (low_bits (bit_or a (bit_and g 0xF0)) 4 ≡ a) × (shr (bit_or a (bit_and g 0xF0)) 4 ≡ shr g 4)
nibbles_lem a g la lg =
    let fit =
      table_holds-at 256 (nibbles_fit a) g
        (table_holds-at 16 (λ a. table_holds 256 (nibbles_fit a)) a nibbles la) lg in
    (ground (arith, fit), ground (arith, fit))

-- An entry that `gdt_set_gate` writes reads back as the base, the low 20 bits of the limit, the
-- access byte and the high flags that it was given, and the other entries stay.
pub gdt_set_gate-reads :
    (num base limit access gran : ℕ) (gdt : Gdt)
    → base < 2 ^ 32
    → gran < 256
    → (base_of (gdt_set_gate num base limit access gran gdt num) ≡ base)
      × (limit_of (gdt_set_gate num base limit access gran gdt num) ≡ limit % 2 ^ 20)
      × ((gdt_set_gate num base limit access gran gdt num).access ≡ access)
      × (shr (gdt_set_gate num base limit access gran gdt num).granularity 4 ≡ shr gran 4)
      × ((i : ℕ) → i ≢ num → gdt_set_gate num base limit access gran gdt i ≡ gdt i)
unfolding gdt_set_gate
gdt_set_gate-reads num base limit access gran gdt lb lg =
    let high = low_bits (shr limit 16) 4 in
    let parts = nibbles_lem high gran (omega arith) lg in
    let same = ==_refl num in
    simp same
      (omega (arith, lb), omega (arith, parts.0), refl, parts.1, λ i ne. simp (==_ne i num ne))

-- what a flat segment of the privilege level is
abbrev pub IsFlat : ℕ → GdtEntry → Type 0
IsFlat dpl e = (base_of e ≡ 0) × (last_byte e ≡ 0xFFFF_FFFF) × (dpl_of e ≡ dpl)

-- `gdt_init` leaves a null entry, flat kernel segments of 4 GB in entries 1 and 2 and flat user
-- segments in entries 3 and 4; only the code segments, 1 and 3, are executable.
pub gdt_init-IsFlat :
    (gdt : Gdt)
    → ((gdt_init gdt 0).access ≡ 0)
      × IsFlat 0 (gdt_init gdt 1)
      × IsFlat 0 (gdt_init gdt 2)
      × IsFlat 3 (gdt_init gdt 3)
      × IsFlat 3 (gdt_init gdt 4)
      × (low_bits (shr (gdt_init gdt 1).access 3) 1 ≡ 1)
      × (low_bits (shr (gdt_init gdt 2).access 3) 1 ≡ 0)
      × (low_bits (shr (gdt_init gdt 3).access 3) 1 ≡ 1)
      × (low_bits (shr (gdt_init gdt 4).access 3) 1 ≡ 0)
unfolding gdt_init gdt_set_gate
gdt_init-IsFlat gdt = (
  refl,
  (refl, refl, refl),
  (refl, refl, refl),
  (refl, refl, refl),
  (refl, refl, refl),
  refl,
  refl,
  refl,
  refl,
)

-- `tss_init` describes the 104 bytes of the TSS in entry 5, at privilege level 3, and puts the
-- kernel stack into the TSS; the other entries stay.
pub tss_init-reads :
    (base kernel_stack : ℕ) (gdt : Gdt)
    → base < 2 ^ 32
    → (base_of ((tss_init base kernel_stack gdt).1 5) ≡ base)
      × (last_byte ((tss_init base kernel_stack gdt).1 5) ≡ 103)
      × (dpl_of ((tss_init base kernel_stack gdt).1 5) ≡ 3)
      × ((tss_init base kernel_stack gdt).0.esp0 ≡ kernel_stack)
      × ((i : ℕ) → i ≢ 5 → (tss_init base kernel_stack gdt).1 i ≡ gdt i)
unfolding tss_init gdt_set_gate
tss_init-reads base kernel_stack gdt lb =
    (omega (arith, lb), refl, refl, refl, λ i ne. simp (==_ne i 5 ne))
