-- ===== src/Keyboard/Typed.antt =====
-- `keyboard_handler` and `console_readline` of src/kernel/keyboard.c on the ring and on lines.
use aether_os.Base.{
  ℕ, zero, suc, ◌+◌, ◌-◌, ◌≤◌, ◌<◌, ◌≡◌, inl, inr, refl, Bool, true, false, ◌||◌, leb, ◌==◌,
  if◌then◌else◌, Option, none, some, List, [], ◌∷◌, ◌++◌, arith, ap, ◌∙◌, sym, subst, length,
  length-append, Bool-cases, append_assoc, append-nil,
}
use aether_os.Keyboard.{
  keyboard_add_to_buffer, Keyboard, Output, nothing, backspace, putchar, accept, press_key,
  press_modifier, release_key, to_ascii, special_key, keyboard_handler, within, edit, edit_room,
  drop_last, readline, console_readline,
}
use aether_os.Keyboard.Ring.{IsBuffer, push, keyboard_add_to_buffer-IsBuffer}

-- the characters that are kept: backspace, newline and the printable ones
abbrev pub is_typed : ℕ → Bool
is_typed c = c == 8 || (c == 10 || within 32 126 c)

abbrev pub echo : ℕ → Output
echo c = if c == 8 then backspace else putchar c

-- Either the ring is as before, or one such character is put into it and echoed.
pub data Handled (cs : List ℕ) : Keyboard × Output → Type 0 where
  ignored : {k : Keyboard} → (o : Output) → IsBuffer k cs → Handled cs (k, o)
  kept :
      {k : Keyboard} → (c : ℕ) → is_typed c ≡ true → IsBuffer k (push c cs) → Handled cs (k, echo c)

with_modifiers :
    (m : ℕ) (k : Keyboard) (cs : List ℕ) → IsBuffer k cs → IsBuffer (record k { modifiers = m }) cs
with_modifiers m k cs is = record {
  holds = is.holds;
  count = is.count;
  fits = is.fits;
  tail = is.tail;
  head = is.head;
}

typed : (c : ℕ) → within 32 126 c ≡ true → is_typed c ≡ true
typed c ew = or_true (c == 8) (c == 10) (within 32 126 c) ew
  where
    or_true : (a b d : Bool) → d ≡ true → (a || (b || d)) ≡ true
    or_true a b d e = ground arith

accept-Handled : (c : ℕ) (k : Keyboard) (cs : List ℕ) → IsBuffer k cs → Handled cs (accept c k)
unfolding accept
accept-Handled c k cs is = elim (Bool-cases (c == 8)) [
  | inl e8 ↦ simp e8 (kept 8 refl (keyboard_add_to_buffer-IsBuffer 8 k cs is))
  | inr n8 ↦ elim (Bool-cases (c == 10)) [
    | inl e10 ↦ simp (n8, e10) (kept 10 refl (keyboard_add_to_buffer-IsBuffer 10 k cs is))
    | inr n10 ↦ elim (Bool-cases (within 32 126 c)) [
      | inl ew ↦
          simp (n8, n10, ew)
            (subst (λ o. Handled cs (keyboard_add_to_buffer c k, o))
              (ap (λ b. if b then backspace else putchar c) n8)
              (kept c (typed c ew) (keyboard_add_to_buffer-IsBuffer c k cs is)))
      | inr nw ↦ simp (n8, n10, nw) (ignored nothing is)
    ]
  ]
]

press_key-Handled :
    (s : ℕ) (k : Keyboard) (cs : List ℕ) → IsBuffer k cs → Handled cs (press_key s k)
unfolding press_key
press_key-Handled s k cs is = by_test (to_ascii k.modifiers s == 0) k.input_enabled
  where
    by_test :
        (z e : Bool)
        → Handled cs (
            if z
            then (k, special_key s)
            else (if e then accept (to_ascii k.modifiers s) k else (k, nothing)))
    by_test true e = ignored (special_key s) is
    by_test false true = accept-Handled (to_ascii k.modifiers s) k cs is
    by_test false false = ignored nothing is

-- `keyboard_handler` on every scancode: the ring stays as it is, or it gains one character, which is
-- a backspace, a newline or printable and is echoed on the console.
pub keyboard_handler-Handled :
    (s : ℕ) (k : Keyboard) (cs : List ℕ) → IsBuffer k cs → Handled cs (keyboard_handler s k)
unfolding keyboard_handler
keyboard_handler-Handled s k cs is = by_key (leb 128 s) (press_modifier s k.modifiers)
  where
    by_key :
        (released : Bool) (o : Option ℕ)
        → Handled cs (
            if released
            then (record k { modifiers = release_key (s - 128) k.modifiers }, nothing)
            else elim o [ some m ↦ (record k { modifiers = m }, nothing) | none ↦ press_key s k ])
    by_key true o = ignored nothing (with_modifiers (release_key (s - 128) k.modifiers) k cs is)
    by_key false (some m) = ignored nothing (with_modifiers m k cs is)
    by_key false none = press_key-Handled s k cs is

abbrev pub Printable : List ℕ → Type 0
Printable [] = Unit {0}
Printable (c ∷ cs) = (32 ≤ c) × (c ≤ 126) × Printable cs

length-drop_last : (c : ℕ) (line : List ℕ) → length (drop_last (c ∷ line)) ≡ length line
unfolding drop_last
length-drop_last c [] = refl
length-drop_last c (d ∷ line) = ap suc (length-drop_last d line)

-- The line and the room for more make up the buffer.
length-edit :
    (c : ℕ) (line : List ℕ) (room : ℕ)
    → length (edit c line) + edit_room c line room ≡ length line + suc room
unfolding drop_last
length-edit c line room = by_tests (c == 8) (within 32 126 c)
  where
    erase :
        (line : List ℕ)
        → length (drop_last line) + elim line [ [] ↦ suc room | _ ∷ _ ↦ suc (suc room) ]
          ≡ length line + suc room
    erase [] = refl
    erase (d ∷ line) = omega (arith, length-drop_last d line)

    by_tests :
        (b w : Bool)
        → length (if b then drop_last line else (if w then line ++ (c ∷ []) else line))
            + (if b
                then elim line [ [] ↦ suc room | _ ∷ _ ↦ suc (suc room) ]
                else (if w then room else suc room))
          ≡ length line + suc room
    by_tests true w = erase line
    by_tests false true = omega (arith, length-append {0} line (c ∷ []))
    by_tests false false = refl

abbrev measure : Option (List ℕ × List ℕ) → ℕ
measure none = 0
measure (some r) = suc (length r.0)

readline-fits :
    (line : List ℕ) (room : ℕ) (input l rest : List ℕ)
    → readline line room input ≡ some (l, rest)
    → length l ≤ length line + room
unfolding readline
readline-fits line zero input l rest e = omega (arith, ap measure e)
readline-fits line (suc room) [] l rest e = absurd (omega (arith, ap measure e))
readline-fits line (suc room) (c ∷ input) l rest e =
    by_test (c == 10) (readline-fits (edit c line) (edit_room c line room) input l rest) e
  where
    by_test :
        (b : Bool)
        → (readline (edit c line) (edit_room c line room) input ≡ some (l, rest)
            → length l ≤ length (edit c line) + edit_room c line room)
        → (if b then some (line, input) else readline (edit c line) (edit_room c line room) input)
          ≡ some (l, rest)
        → length l ≤ length line + suc room
    by_test true ih e = omega (arith, ap measure e)
    by_test false ih e = omega (arith, ih e, length-edit c line room)

readline-text :
    (line text : List ℕ) (room : ℕ) (rest : List ℕ)
    → Printable text
    → length text < room
    → readline line room (text ++ (10 ∷ rest)) ≡ some (line ++ text, rest)
unfolding readline
readline-text line [] zero rest p small = absurd (omega (arith, small))
readline-text line [] (suc room) rest p small = ap (λ l. some (l, rest)) (sym (append-nil line))
readline-text line (c ∷ text) zero rest p small = absurd (omega (arith, small))
readline-text line (c ∷ text) (suc room) rest p small =
    let n10 : (c == 10) ≡ false = ground (arith, p.0) in
    let n8 : (c == 8) ≡ false = ground (arith, p.0) in
    let w : within 32 126 c ≡ true = ground (arith, p.0, p.1) in
    let all = text ++ (10 ∷ rest) in
    let line' : edit c line ≡ line ++ (c ∷ []) = simp (n8, w) in
    let room' : edit_room c line room ≡ room = simp (n8, w) in
    ap (λ b. if b then some (line, all) else readline (edit c line) (edit_room c line room) all) n10
    ∙ ap (λ x. readline x (edit_room c line room) all) line'
    ∙ ap (λ x. readline (line ++ (c ∷ [])) x all) room'
    ∙ readline-text (line ++ (c ∷ [])) text room rest p.2 (omega (arith, small))
    ∙ ap (λ x. some (x, rest)) (append_assoc line (c ∷ []) text)

-- For a buffer of at least one place, `console_readline` never writes past the buffer: the line that it
-- returns and the terminator behind it take at most `max_len` places.
pub console_readline-fits :
    (max_len : ℕ) (input l rest : List ℕ)
    → 1 ≤ max_len
    → console_readline max_len input ≡ some (l, rest)
    → length l + 1 ≤ max_len
unfolding console_readline
console_readline-fits max_len input l rest one e =
    omega (arith, one, readline-fits [] (max_len - 1) input l rest e)

-- Printable text that fits the buffer, followed by a newline, is returned as it was typed, and
-- what was typed behind the newline stays.
pub console_readline-text :
    (max_len : ℕ) (text rest : List ℕ)
    → Printable text
    → length text + 1 < max_len
    → console_readline max_len (text ++ (10 ∷ rest)) ≡ some (text, rest)
unfolding console_readline
console_readline-text max_len text rest p small =
    readline-text [] text (max_len - 1) rest p (omega (arith, small))
