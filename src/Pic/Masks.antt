-- ===== src/Pic/Masks.antt =====
-- The masks of the two controllers that src/kernel/pic.c sets.
use aether_os.Base.{
  ℕ, ◌-◌, ◌<◌, ◌≡◌, refl, Bool, true, false, not, ◌&&◌, arith, ap, ◌∙◌, sym, ◌==◌, ltb,
  if◌then◌else◌, Bool-cases, inl, inr,
}
use aether_os.Base.Words.{shr, low_bits, table_holds, table_holds-at}
use aether_os.Pic.{
  clear_bit, set_bit, line_of, pic_enable_irq, pic_disable_irq, pic1_data, pic2_data,
}

-- the data ports as registers: a write is what the port reads as from then on
abbrev pub write_port : ℕ × ℕ → (ℕ → ℕ) → ℕ → ℕ
write_port (port, value) inb q = if q == port then value else inb q

abbrev pub bit : ℕ → ℕ → Bool
bit value i = low_bits (shr value i) 1 == 1

-- Whether an IRQ of 0 to 15 is masked: lines 0 to 7 are bits 0 to 7 of the master's mask, port 0x21, lines 8
-- to 15 bits 0 to 7 of the slave's, port 0xA1.
abbrev pub masked : (ℕ → ℕ) → ℕ → Bool
masked inb irq = if ltb irq 8 then bit (inb 0x21) irq else bit (inb 0xA1) (irq - 8)

abbrev same : Bool → Bool → Bool
same true b = b
same false b = not b

abbrev bits_fit : ℕ → ℕ → ℕ → Bool
bits_fit v i j =
    same (bit (clear_bit v i) j) (if j == i then false else bit v j)
    && same (bit (set_bit v i) j) (if j == i then true else bit v j)

all_bits : table_holds 256 (λ v. table_holds 8 (λ i. table_holds 8 (bits_fit v i))) ≡ true
unfolding table_holds
all_bits = refl

same→≡ : (a b : Bool) → same a b ≡ true → a ≡ b
same→≡ true true e = refl
same→≡ true false e = sym e
same→≡ false true e = e
same→≡ false false e = refl

bits : (v i j : ℕ) → v < 256 → i < 8 → j < 8 → bits_fit v i j ≡ true
bits v i j lv li lj =
    table_holds-at 8 (bits_fit v i) j
      (table_holds-at 8 (λ i. table_holds 8 (bits_fit v i)) i
        (table_holds-at 256 (λ v. table_holds 8 (λ i. table_holds 8 (bits_fit v i))) v all_bits lv)
        li)
      lj

&&-parts : (a b : Bool) → (a && b) ≡ true → (a ≡ true) × (b ≡ true)
&&-parts true b e = (refl, e)
&&-parts false b e = (e, absurd (ground (arith, e)))

-- how an operation on one bit of a mask shows in the bits
Sets : (ℕ → ℕ → ℕ) → Bool → Type 0
Sets f b = (v i j : ℕ) → v < 256 → i < 8 → j < 8 → bit (f v i) j ≡ (if j == i then b else bit v j)

clear_bit-Sets : Sets clear_bit false
unfolding Sets
clear_bit-Sets v i j lv li lj =
    same→≡ (bit (clear_bit v i) j) (if j == i then false else bit v j)
      (&&-parts _ (same (bit (set_bit v i) j) (if j == i then true else bit v j))
        (bits v i j lv li lj)).0

set_bit-Sets : Sets set_bit true
unfolding Sets
set_bit-Sets v i j lv li lj =
    same→≡ (bit (set_bit v i) j) (if j == i then true else bit v j)
      (&&-parts (same (bit (clear_bit v i) j) (if j == i then false else bit v j)) _
        (bits v i j lv li lj)).1

abbrev update : (ℕ → ℕ → ℕ) → (ℕ → ℕ) → ℕ → ℕ × ℕ
update f inb irq = let (port, i) = line_of irq in (port, f (inb port) i)

module _ (f : ℕ → ℕ → ℕ) (b : Bool) (sets : Sets f b) (inb : ℕ → ℕ)
    (bytes : (q : ℕ) → inb q < 256) where
  update-masked :
      (irq j : ℕ)
      → irq < 16
      → j < 16
      → masked (write_port (update f inb irq) inb) j ≡ (if j == irq then b else masked inb j)
  unfolding Sets
  update-masked irq j li lj = elim (Bool-cases (ltb irq 8)) [
    | inl ei ↦ elim (Bool-cases (ltb j 8)) [
      | inl ej ↦
          simp (ei, ej)
            (sets (inb pic1_data) irq j (bytes pic1_data) (ground (arith, ei)) (ground (arith, ej)))
      | inr ej ↦ let apart : (j == irq) ≡ false = ground (arith, ei, ej) in simp (ei, ej, apart)
    ]
    | inr ei ↦ elim (Bool-cases (ltb j 8)) [
      | inl ej ↦ let apart : (j == irq) ≡ false = ground (arith, ei, ej) in simp (ei, ej, apart)
      | inr ej ↦
          let alike : (j - 8 == irq - 8) ≡ (j == irq) = ground (arith, ei, ej) in
          simp (ei, ej)
            (sets (inb pic2_data) (irq - 8) (j - 8) (bytes pic2_data) (ground (arith, ei, li))
                (ground (arith, ej, lj))
              ∙ ap (λ z. if z then b else bit (inb pic2_data) (j - 8)) alike)
    ]
  ]

-- `pic_enable_irq` unmasks its IRQ and `pic_disable_irq` masks it, for lines 0 to 7 in port 0x21 and for lines
-- 8 to 15 in port 0xA1, where the ports read as bytes; both leave the 15 other lines as they were.
pub enable_disable-masked :
    (inb : ℕ → ℕ) (irq j : ℕ)
    → ((q : ℕ) → inb q < 256)
    → irq < 16
    → j < 16
    → (masked (write_port (pic_enable_irq inb irq) inb) j
        ≡ (if j == irq then false else masked inb j))
      × (masked (write_port (pic_disable_irq inb irq) inb) j
          ≡ (if j == irq then true else masked inb j))
unfolding pic_enable_irq pic_disable_irq
enable_disable-masked inb irq j bytes li lj = (
  update-masked clear_bit false clear_bit-Sets inb bytes irq j li lj,
  update-masked set_bit true set_bit-Sets inb bytes irq j li lj,
)
