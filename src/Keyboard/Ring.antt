-- ===== src/Keyboard/Ring.antt =====
-- The ring of src/kernel/keyboard.c as a queue of at most 255 characters.
use aether_os.Base.{
  ℕ, ◌+◌, ◌-◌, ◌%◌, ◌≤◌, ◌<◌, ◌≡◌, refl, Bool, true, false, ltb, ◌==◌, if◌then◌else◌, ==_ne,
  ==_refl, List, [], ◌∷◌, ◌++◌, arith, ap, ◌∙◌, sym, subst, length, length-append,
}
use aether_os.Keyboard.{
  Keyboard, keyboard_add_to_buffer, keyboard_getchar, keyboard_init, keyboard_flush,
}

-- The characters stand from place `t` on, round the ring.
abbrev pub Holds : (ℕ → ℕ) → ℕ → List ℕ → Type 0
Holds b t [] = Unit {0}
Holds b t (c ∷ cs) = (b t ≡ c) × Holds b ((t + 1) % 256) cs

-- The ring holds exactly these characters, the oldest first.
pub record IsBuffer (k : Keyboard) (cs : List ℕ) : Type 0 where
  pub holds : Holds k.input_buffer k.buffer_tail cs
  pub count : k.buffer_count ≡ length cs
  pub fits : length cs ≤ 255
  pub tail : k.buffer_tail < 256
  pub head : k.buffer_head ≡ (k.buffer_tail + length cs) % 256

abbrev put : ℕ → ℕ → (ℕ → ℕ) → ℕ → ℕ
put h c b i = if i == h then c else b i

-- A write `d` places behind the start of at most `d` characters does not touch them.
Holds-put :
    (b : ℕ → ℕ) (c t d h : ℕ) (cs : List ℕ)
    → t < 256
    → d < 256
    → length cs ≤ d
    → h ≡ (t + d) % 256
    → Holds b t cs
    → Holds (put h c b) t cs
Holds-put b c t d h [] lt small short e hold = tt
Holds-put b c t d h (x ∷ cs) lt small short e hold =
    let t' = (t + 1) % 256 in
    let e' : h ≡ (t' + (d - 1)) % 256 = omega (arith, e, short) in
    let apart : (t == h) ≡ false = ==_ne t h (λ same. omega (arith, same, e, short)) in
    (
      ap (λ z. if z then c else b t) apart ∙ hold.0,
      Holds-put b c t' (d - 1) h cs (omega arith) (omega arith) (omega (arith, short)) e' hold.1,
    )

Holds-snoc :
    (b : ℕ → ℕ) (c t h : ℕ) (cs : List ℕ)
    → t < 256
    → length cs < 256
    → h ≡ (t + length cs) % 256
    → Holds b t cs
    → Holds (put h c b) t (cs ++ (c ∷ []))
Holds-snoc b c t h [] lt small e hold =
    let same : t ≡ h = omega (arith, e) in
    (ap (λ z. if z then c else b t) (subst (λ z. (t == z) ≡ true) same (==_refl t)), tt)
Holds-snoc b c t h (x ∷ cs) lt small e hold =
    let t' = (t + 1) % 256 in
    let e' : h ≡ (t' + length cs) % 256 = omega (arith, e) in
    let apart : (t == h) ≡ false = ==_ne t h (λ same. omega (arith, same, e, small)) in
    (
      ap (λ z. if z then c else b t) apart ∙ hold.0,
      Holds-snoc b c t' h cs (omega arith) (omega (arith, small)) e' hold.1,
    )

-- what the ring is to do with a character
abbrev pub push : ℕ → List ℕ → List ℕ
push c cs = if ltb (length cs) 255 then cs ++ (c ∷ []) else cs

abbrev stored : ℕ → Keyboard → Keyboard
stored c k = record k {
  input_buffer = put k.buffer_head c k.input_buffer;
  buffer_head = (k.buffer_head + 1) % 256;
  buffer_count = k.buffer_count + 1;
}

-- `keyboard_add_to_buffer` puts the character behind the others, and drops it when there are 255.
pub keyboard_add_to_buffer-IsBuffer :
    (c : ℕ) (k : Keyboard) (cs : List ℕ)
    → IsBuffer k cs
    → IsBuffer (keyboard_add_to_buffer c k) (push c cs)
unfolding keyboard_add_to_buffer
keyboard_add_to_buffer-IsBuffer c k cs is =
    subst (λ n. IsBuffer (if ltb n 255 then stored c k else k) (push c cs)) (sym is.count)
      (pick (ltb (length cs) 255) (λ room. record {
        holds =
            Holds-snoc k.input_buffer c k.buffer_tail k.buffer_head cs is.tail
              (ground (arith, room)) is.head is.holds;
        count = omega (arith, is.count, length-append {0} cs (c ∷ []));
        fits = ground (arith, room, length-append {0} cs (c ∷ []));
        tail = is.tail;
        head = omega (arith, is.head, length-append {0} cs (c ∷ []));
      }))
  where
    pick :
        (b : Bool)
        → (b ≡ true → IsBuffer (stored c k) (cs ++ (c ∷ [])))
        → IsBuffer (if b then stored c k else k) (if b then cs ++ (c ∷ []) else cs)
    pick true f = f refl
    pick false f = is

-- the oldest character and the ring without it
abbrev pub Taken : Keyboard → List ℕ → ℕ × Keyboard → Type 0
Taken k [] r = r ≡ (0, k)
Taken k (c ∷ rest) r = (r.0 ≡ c) × IsBuffer r.1 rest

-- `keyboard_getchar` takes the oldest character out, and returns 0 when there is none.
pub keyboard_getchar-IsBuffer :
    (k : Keyboard) (cs : List ℕ) → IsBuffer k cs → Taken k cs (keyboard_getchar k)
unfolding keyboard_getchar
keyboard_getchar-IsBuffer k [] is =
    let empty : (k.buffer_count == 0) ≡ true = ground (arith, is.count) in simp empty
keyboard_getchar-IsBuffer k (c ∷ rest) is =
    let filled : (k.buffer_count == 0) ≡ false = ground (arith, is.count) in
    simp filled (
      is.holds.0,
      record {
        holds = is.holds.1;
        count = omega (arith, is.count);
        fits = omega (arith, is.fits);
        tail = omega arith;
        head = omega (arith, is.head);
      },
    )

-- `keyboard_init` and `keyboard_flush` leave the ring empty.
pub init_flush-IsBuffer :
    (k : Keyboard) → IsBuffer (keyboard_init k) [] × IsBuffer (keyboard_flush k) []
unfolding keyboard_init keyboard_flush
init_flush-IsBuffer k =
    let empty : (l : Keyboard)
        → l.buffer_head ≡ 0
        → l.buffer_tail ≡ 0
        → l.buffer_count ≡ 0
        → IsBuffer l [] =
      λ l h t c. record {
        holds = tt;
        count = c;
        fits = omega arith;
        tail = omega (arith, t);
        head = omega (arith, h, t);
      } in
    (empty (keyboard_init k) refl refl refl, empty (keyboard_flush k) refl refl refl)
