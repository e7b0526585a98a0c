-- ===== src/Keyboard/Tests.antt =====
-- The keyboard driver on a few keys.
use aether_os.Base.{ℕ, ◌+◌, ◌≤◌, ◌≡◌, refl, true, some, [], ◌∷◌, arith, length}
use aether_os.Keyboard.{
  Keyboard, keyboard_handler, keyboard_add_to_buffer, keyboard_getchar, console_readline, readline,
  drop_last,
}
use aether_os.Keyboard.Ring.{
  IsBuffer, Taken, keyboard_add_to_buffer-IsBuffer, keyboard_getchar-IsBuffer,
}
use aether_os.Keyboard.Typed.{
  Handled, keyboard_handler-Handled, console_readline-fits, console_readline-text,
}

-- two characters round the end of the ring, with Shift held
abbrev wrapped : Keyboard
wrapped = record {
  modifiers = 1;
  input_buffer = λ i. 97 + i;
  buffer_head = 1;
  buffer_tail = 255;
  buffer_count = 2;
  input_enabled = true;
}

wrapped-IsBuffer : IsBuffer wrapped (352 ∷ 97 ∷ [])
wrapped-IsBuffer = record {
  holds = (refl, (refl, tt));
  count = refl;
  fits = omega arith;
  tail = omega arith;
  head = refl;
}

keyboard_add_to_buffer-IsBuffer_example :
    IsBuffer (keyboard_add_to_buffer 65 wrapped) (352 ∷ 97 ∷ 65 ∷ [])
keyboard_add_to_buffer-IsBuffer_example =
    keyboard_add_to_buffer-IsBuffer 65 wrapped (352 ∷ 97 ∷ []) wrapped-IsBuffer

keyboard_getchar-IsBuffer_example : Taken wrapped (352 ∷ 97 ∷ []) (keyboard_getchar wrapped)
keyboard_getchar-IsBuffer_example =
    keyboard_getchar-IsBuffer wrapped (352 ∷ 97 ∷ []) wrapped-IsBuffer

-- the key A
keyboard_handler-Handled_example : Handled (352 ∷ 97 ∷ []) (keyboard_handler 0x1E wrapped)
keyboard_handler-Handled_example =
    keyboard_handler-Handled 0x1E wrapped (352 ∷ 97 ∷ []) wrapped-IsBuffer

console_readline-text_example :
    console_readline 8 (104 ∷ 105 ∷ 10 ∷ 120 ∷ []) ≡ some (104 ∷ 105 ∷ [], 120 ∷ [])
console_readline-text_example =
    console_readline-text 8 (104 ∷ 105 ∷ []) (120 ∷ [])
      (omega arith, omega arith, (omega arith, omega arith, tt)) (omega arith)

-- a full buffer ends the line
full_line : console_readline 3 (104 ∷ 8 ∷ 105 ∷ 106 ∷ 107 ∷ []) ≡ some (105 ∷ 106 ∷ [], 107 ∷ [])
unfolding console_readline readline drop_last
full_line = refl

console_readline-fits_example : length {A = ℕ} (105 ∷ 106 ∷ []) + 1 ≤ 3
console_readline-fits_example =
    console_readline-fits 3 (104 ∷ 8 ∷ 105 ∷ 106 ∷ 107 ∷ []) (105 ∷ 106 ∷ []) (107 ∷ [])
      (omega arith) full_line
