-- ===== src/Keyboard.antt =====
-- The PS/2 keyboard driver of src/kernel/keyboard.c: scancodes, the ring of typed characters and
-- `console_readline`. The byte that `inb` reads from the data port is an argument; what the handler
-- shows on the console is the second part of its result.
pub mod Ring
pub mod Typed
mod Tests
use aether_os.Base.{
  ℕ, zero, suc, ◌+◌, ◌-◌, ◌%◌, Bool, true, false, ◌&&◌, ◌||◌, ltb, leb, ◌==◌, if◌then◌else◌, Option,
  none, some, List, [], ◌∷◌, ◌++◌, bit_and, bit_or, bit_xor, get_or,
}

-- `scancode_to_ascii` and `scancode_to_ascii_shift`
abbrev pub scancode_to_ascii : List ℕ
scancode_to_ascii =
    0 ∷ 27 ∷ 49 ∷ 50 ∷ 51 ∷ 52 ∷ 53 ∷ 54 ∷ 55 ∷ 56 ∷ 57 ∷ 48 ∷ 45 ∷ 61 ∷ 8 ∷ 9 ∷ 113 ∷ 119 ∷ 101
    ∷ 114 ∷ 116 ∷ 121 ∷ 117 ∷ 105 ∷ 111 ∷ 112 ∷ 91 ∷ 93 ∷ 10 ∷ 0 ∷ 97 ∷ 115 ∷ 100 ∷ 102 ∷ 103 ∷ 104
    ∷ 106 ∷ 107 ∷ 108 ∷ 59 ∷ 39 ∷ 96 ∷ 0 ∷ 92 ∷ 122 ∷ 120 ∷ 99 ∷ 118 ∷ 98 ∷ 110 ∷ 109 ∷ 44 ∷ 46 ∷ 47
    ∷ 0 ∷ 42 ∷ 0 ∷ 32 ∷ 0 ∷ 0 ∷ 0 ∷ 0 ∷ 0 ∷ 0 ∷ 0 ∷ 0 ∷ 0 ∷ 0 ∷ 0 ∷ 0 ∷ 0 ∷ 0 ∷ 0 ∷ 0 ∷ 0 ∷ 0 ∷ 0
    ∷ 0 ∷ 45 ∷ 0 ∷ 0 ∷ 0 ∷ 43 ∷ 0 ∷ 0 ∷ 0 ∷ 0 ∷ 0 ∷ 0 ∷ 0 ∷ 0 ∷ 0 ∷ 0 ∷ 0 ∷ 0 ∷ 0 ∷ 0 ∷ 0 ∷ 0 ∷ 0
    ∷ 0 ∷ 0 ∷ 0 ∷ 0 ∷ 0 ∷ 0 ∷ 0 ∷ 0 ∷ 0 ∷ 0 ∷ 0 ∷ 0 ∷ 0 ∷ 0 ∷ 0 ∷ 0 ∷ 0 ∷ 0 ∷ 0 ∷ 0 ∷ 0 ∷ 0 ∷ 0 ∷ 0
    ∷ 0 ∷ 0 ∷ 0 ∷ 0 ∷ 0 ∷ 0 ∷ 0 ∷ 0 ∷ 0 ∷ []

abbrev pub scancode_to_ascii_shift : List ℕ
scancode_to_ascii_shift =
    0 ∷ 27 ∷ 33 ∷ 64 ∷ 35 ∷ 36 ∷ 37 ∷ 94 ∷ 38 ∷ 42 ∷ 40 ∷ 41 ∷ 95 ∷ 43 ∷ 8 ∷ 9 ∷ 81 ∷ 87 ∷ 69 ∷ 82
    ∷ 84 ∷ 89 ∷ 85 ∷ 73 ∷ 79 ∷ 80 ∷ 123 ∷ 125 ∷ 10 ∷ 0 ∷ 65 ∷ 83 ∷ 68 ∷ 70 ∷ 71 ∷ 72 ∷ 74 ∷ 75 ∷ 76
    ∷ 58 ∷ 34 ∷ 126 ∷ 0 ∷ 124 ∷ 90 ∷ 88 ∷ 67 ∷ 86 ∷ 66 ∷ 78 ∷ 77 ∷ 60 ∷ 62 ∷ 63 ∷ 0 ∷ 42 ∷ 0 ∷ 32
    ∷ 0 ∷ 0 ∷ 0 ∷ 0 ∷ 0 ∷ 0 ∷ 0 ∷ 0 ∷ 0 ∷ 0 ∷ 0 ∷ 0 ∷ 0 ∷ 0 ∷ 0 ∷ 0 ∷ 0 ∷ 0 ∷ 0 ∷ 0 ∷ 45 ∷ 0 ∷ 0 ∷ 0
    ∷ 43 ∷ 0 ∷ 0 ∷ 0 ∷ 0 ∷ 0 ∷ 0 ∷ 0 ∷ 0 ∷ 0 ∷ 0 ∷ 0 ∷ 0 ∷ 0 ∷ 0 ∷ 0 ∷ 0 ∷ 0 ∷ 0 ∷ 0 ∷ 0 ∷ 0 ∷ 0 ∷ 0
    ∷ 0 ∷ 0 ∷ 0 ∷ 0 ∷ 0 ∷ 0 ∷ 0 ∷ 0 ∷ 0 ∷ 0 ∷ 0 ∷ 0 ∷ 0 ∷ 0 ∷ 0 ∷ 0 ∷ 0 ∷ 0 ∷ 0 ∷ 0 ∷ 0 ∷ 0 ∷ 0 ∷ 0
    ∷ 0 ∷ 0 ∷ 0 ∷ []

-- `keyboard_state`
pub record Keyboard : Type 0 where
  pub modifiers : ℕ
  pub input_buffer : ℕ → ℕ
  pub buffer_head : ℕ
  pub buffer_tail : ℕ
  pub buffer_count : ℕ
  pub input_enabled : Bool

-- the calls of the console, and the messages of the function keys
pub data Output : Type 0 where
  nothing backspace system_info memory_info timer_info : Output
  putchar : ℕ → Output

-- `keyboard_init`, once the controller's buffer is read empty; that IRQ 1 is enabled is left out
unfoldable pub keyboard_init : Keyboard → Keyboard
keyboard_init k = record k {
  modifiers = 0;
  buffer_head = 0;
  buffer_tail = 0;
  buffer_count = 0;
  input_enabled = true;
}

unfoldable pub keyboard_add_to_buffer : ℕ → Keyboard → Keyboard
keyboard_add_to_buffer c k =
    if ltb k.buffer_count 255
    then record k {
      input_buffer = λ i. if i == k.buffer_head then c else k.input_buffer i;
      buffer_head = (k.buffer_head + 1) % 256;
      buffer_count = k.buffer_count + 1;
    }
    else k

-- `KB_MOD_SHIFT`, `KB_MOD_CTRL`, `KB_MOD_ALT` and `KB_MOD_CAPS`
abbrev pub mod_shift : ℕ
mod_shift = 1

abbrev pub mod_ctrl : ℕ
mod_ctrl = 2

abbrev pub mod_alt : ℕ
mod_alt = 4

abbrev pub mod_caps : ℕ
mod_caps = 8

abbrev is_shift : ℕ → Bool
is_shift s = s == 0x2A || s == 0x36

-- the modifiers behind a release of the key
unfoldable pub release_key : ℕ → ℕ → ℕ
release_key s m =
    if is_shift s
    then bit_and m (255 - mod_shift)
    else (if s == 0x1D
        then bit_and m (255 - mod_ctrl)
        else (if s == 0x38 then bit_and m (255 - mod_alt) else m))

-- The modifiers behind a press of the key, if it is a modifier.
unfoldable pub press_modifier : ℕ → ℕ → Option ℕ
press_modifier s m =
    if is_shift s
    then some (bit_or m mod_shift)
    else (if s == 0x1D
        then some (bit_or m mod_ctrl)
        else (if s == 0x38
            then some (bit_or m mod_alt)
            else (if s == 0x3A then some (bit_xor m mod_caps) else none)))

abbrev pub within : ℕ → ℕ → ℕ → Bool
within lo hi c = leb lo c && leb c hi

abbrev has : ℕ → ℕ → Bool
has m flag = ltb 0 (bit_and m flag)

-- the character of a scancode under the modifiers, 0 for none
unfoldable pub to_ascii : ℕ → ℕ → ℕ
to_ascii m s =
    let c =
      if has m mod_shift
      then get_or scancode_to_ascii_shift s 0
      else get_or scancode_to_ascii s 0 in
    if ltb s 128
    then (if has m mod_caps && within 97 122 c
        then c - 97 + 65
        else (if has m mod_caps && within 65 90 c then c - 65 + 97 else c))
    else 0

-- the keys without a character
abbrev special_key : ℕ → Output
special_key s =
    if s == 0x3B
    then system_info
    else (if s == 0x3C then memory_info else (if s == 0x3D then timer_info else nothing))

-- a character is echoed and kept
unfoldable pub accept : ℕ → Keyboard → Keyboard × Output
accept c k =
    if c == 8
    then (keyboard_add_to_buffer 8 k, backspace)
    else (if c == 10
        then (keyboard_add_to_buffer 10 k, putchar 10)
        else (if within 32 126 c then (keyboard_add_to_buffer c k, putchar c) else (k, nothing)))

-- the press of a key that is no modifier
unfoldable pub press_key : ℕ → Keyboard → Keyboard × Output
press_key s k =
    let c = to_ascii k.modifiers s in
    if c == 0 then (k, special_key s) else (if k.input_enabled then accept c k else (k, nothing))

unfoldable pub keyboard_handler : ℕ → Keyboard → Keyboard × Output
keyboard_handler scancode k =
    if leb 128 scancode
    then (record k { modifiers = release_key (scancode - 128) k.modifiers }, nothing)
    else elim (press_modifier scancode k.modifiers) [
      | some m ↦ (record k { modifiers = m }, nothing)
      | none ↦ press_key scancode k
    ]

unfoldable pub keyboard_getchar : Keyboard → ℕ × Keyboard
keyboard_getchar k = if k.buffer_count == 0 then (0, k) else (
  k.input_buffer k.buffer_tail,
  record k { buffer_tail = (k.buffer_tail + 1) % 256; buffer_count = k.buffer_count - 1 },
)

unfoldable pub keyboard_flush : Keyboard → Keyboard
keyboard_flush k = record k { buffer_head = 0; buffer_tail = 0; buffer_count = 0 }

-- drops the last character, if there is one
unfoldable pub drop_last : List ℕ → List ℕ
drop_last [] = []
drop_last (c ∷ []) = []
drop_last (c ∷ d ∷ line) = c ∷ drop_last (d ∷ line)

-- the line behind a character, and the room behind it
abbrev pub edit : ℕ → List ℕ → List ℕ
edit c line =
    if c == 8 then drop_last line else (if within 32 126 c then line ++ (c ∷ []) else line)

abbrev pub edit_room : ℕ → List ℕ → ℕ → ℕ
edit_room c line room =
    if c == 8
    then elim line [ [] ↦ suc room | _ ∷ _ ↦ suc (suc room) ]
    else (if within 32 126 c then room else suc room)

-- `console_readline` on the characters that `keyboard_getchar` returns in turn, 0 where it waits. `line` is
-- `buffer[0 .. pos)`, `room` is `max_len - 1 - pos`. The result is the line and the characters left, or `none`
-- while it waits for more.
unfoldable pub readline : List ℕ → ℕ → List ℕ → Option (List ℕ × List ℕ)
readline line zero input = some (line, input)
readline line (suc room) [] = none
readline line (suc room) (c ∷ input) =
    let rest = readline (edit c line) (edit_room c line room) input in
    if c == 10 then some (line, input) else rest

unfoldable pub console_readline : ℕ → List ℕ → Option (List ℕ × List ℕ)
unfolding readline
console_readline max_len input = readline [] (max_len - 1) input
