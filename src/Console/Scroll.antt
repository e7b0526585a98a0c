-- ===== src/Console/Scroll.antt =====
-- `console_scroll` of src/kernel/printk.c on the whole screen.
use aether_os.Base.{
  ℕ, zero, suc, ◌+◌, ◌*◌, ◌≤◌, ◌<◌, ◌≡◌, ◌≢◌, refl, arith, ◌∙◌, sym, subst, ◌==◌, Bool-cases, inl,
  inr,
}
use aether_os.Base.Store.{store_self, store_ne}
use aether_os.Console.{Console, move_up, blank_row, console_scroll, vga_entry, vga_width}

move_up-behind : (n a : ℕ) (memory : ℕ → ℕ) → n ≤ a → move_up n memory a ≡ memory a
unfolding move_up
move_up-behind zero a memory le = refl
move_up-behind (suc n) a memory le =
    store_ne n (move_up n memory (n + vga_width)) a (move_up n memory) (λ e. omega (arith, e, le))
    ∙ move_up-behind n a memory (omega (arith, le))

move_up-moved : (n a : ℕ) (memory : ℕ → ℕ) → a < n → move_up n memory a ≡ memory (a + vga_width)
unfolding move_up
move_up-moved zero a memory lt = absurd (omega (arith, lt))
move_up-moved (suc n) a memory lt = elim (Bool-cases (a == n)) [
  | inl e ↦
      let same : a ≡ n = ground (arith, e) in
      subst (λ x. move_up (suc n) memory x ≡ memory (x + vga_width)) (sym same)
        (store_self n (move_up n memory (n + vga_width)) (move_up n memory)
          ∙ move_up-behind n (n + vga_width) memory (omega arith))
  | inr e ↦
      store_ne n (move_up n memory (n + vga_width)) a (move_up n memory) (λ q. ground (arith, e, q))
      ∙ move_up-moved n a memory (ground (arith, e, lt))
]

module _ (color : ℕ) (memory : ℕ → ℕ) where
  blank_row-outside :
      (n a : ℕ) → ((j : ℕ) → j < n → a ≢ 1920 + j) → blank_row n color memory a ≡ memory a
  unfolding blank_row
  blank_row-outside zero a out = refl
  blank_row-outside (suc n) a out =
      store_ne (1920 + n) (vga_entry 32 color) a (blank_row n color memory) (out n (omega arith))
      ∙ blank_row-outside n a (λ j lt. out j (omega (arith, lt)))

  blank_row-inside : (n j : ℕ) → j < n → blank_row n color memory (1920 + j) ≡ vga_entry 32 color
  unfolding blank_row
  blank_row-inside zero j lt = absurd (omega (arith, lt))
  blank_row-inside (suc n) j lt = elim (Bool-cases (j == n)) [
    | inl e ↦
        let same : j ≡ n = ground (arith, e) in
        subst (λ x. blank_row (suc n) color memory (1920 + x) ≡ vga_entry 32 color) (sym same)
          (store_self (1920 + n) (vga_entry 32 color) (blank_row n color memory))
    | inr e ↦
        store_ne (1920 + n) (vga_entry 32 color) (1920 + j) (blank_row n color memory)
          (λ q. ground (arith, e, q))
        ∙ blank_row-inside n j (ground (arith, e, lt))
  ]

-- `console_scroll` moves every row but the first up by one, makes the last row blank in the current
-- colour, leaves memory behind the screen alone, and puts the cursor at the start of the last row.
pub console_scroll_lem :
    (c : Console)
    → ((a : ℕ) → a < 24 * 80 → (console_scroll c).memory a ≡ c.memory (a + 80))
      × ((j : ℕ) → j < 80 → (console_scroll c).memory (24 * 80 + j) ≡ vga_entry 32 c.color)
      × ((a : ℕ) → 25 * 80 ≤ a → (console_scroll c).memory a ≡ c.memory a)
      × ((console_scroll c).row ≡ 24)
      × ((console_scroll c).column ≡ 0)
unfolding console_scroll
console_scroll_lem c =
    let moved = move_up 1920 c.memory in
    (
      λ a lt.
          blank_row-outside c.color moved 80 a (λ j _ e. omega (arith, e, lt))
          ∙ move_up-moved 1920 a c.memory lt,
      λ j lt. blank_row-inside c.color moved 80 j lt,
      λ a le.
          blank_row-outside c.color moved 80 a (λ j lt e. omega (arith, e, le, lt))
          ∙ move_up-behind 1920 a c.memory (omega (arith, le)),
      refl,
      refl,
    )
