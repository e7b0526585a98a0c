-- ===== src/Syscall/Write.antt =====
-- The text that `sys_write` of src/kernel/syscall.c prints.
use aether_os.Base.{
  ℕ, zero, suc, ◌+◌, ◌<◌, ◌≡◌, ◌≢◌, ◌⊎◌, inl, inr, refl, true, false, ◌&&◌, not, ◌==◌,
  if◌then◌else◌, ==_ne, none, List, [], ◌∷◌, arith, ap, ◌∙◌, sym, subst, length,
}
use aether_os.Console.Printk.{number}
use aether_os.Process.{Kernel}
use aether_os.Syscall.{Said, print, write_chars, sys_write}

-- a `printk("%c", c)` for each character
abbrev pub char_calls : List ℕ → List Said
char_calls [] = []
char_calls (c ∷ str) = print (b'%' ∷ b'c' ∷ []) (number c ∷ []) ∷ char_calls str

-- The text stands in memory from `buf` on, without a NUL.
abbrev pub Stored : (ℕ → ℕ) → ℕ → List ℕ → Type 0
Stored memory buf [] = Unit {0}
Stored memory buf (c ∷ str) = (memory buf ≡ c) × (c ≢ 0) × Stored memory (buf + 1) str

pub write_chars-text :
    (memory : ℕ → ℕ) (str : List ℕ) (buf len : ℕ)
    → Stored memory buf str
    → (len ≡ length str) ⊎ ((length str < len) × (memory (buf + length str) ≡ 0))
    → write_chars memory buf len ≡ char_calls str
unfolding write_chars
write_chars-text memory [] buf zero s e = refl
write_chars-text memory [] buf (suc len) s (inl e) = absurd (omega (arith, e))
write_chars-text memory [] buf (suc len) s (inr e) =
    let here : buf + 0 ≡ buf = omega arith in
    let nul : (memory buf == 0) ≡ true = ground (arith, subst (λ a. memory a ≡ 0) here e.1) in
    simp nul
write_chars-text memory (c ∷ str) buf zero s (inl e) = absurd (omega (arith, e))
write_chars-text memory (c ∷ str) buf zero s (inr e) = absurd (omega (arith, e.0))
write_chars-text memory (c ∷ str) buf (suc len) s e =
    let char : (memory buf == 0) ≡ false =
      subst (λ x. (x == 0) ≡ false) (sym s.0) (==_ne c 0 s.1) in
    let ih = write_chars-text memory str (buf + 1) len s.2 (further e) in
    ap (λ b. if b then [] else char_call (memory buf) ∷ write_chars memory (buf + 1) len) char
    ∙ ap (λ x. char_call x ∷ write_chars memory (buf + 1) len) s.0
    ∙ ap (λ r. char_call c ∷ r) ih
  where
    char_call : ℕ → Said
    char_call c = print (b'%' ∷ b'c' ∷ []) (number c ∷ [])

    further :
        (suc len ≡ suc (length str))
          ⊎ ((suc (length str) < suc len) × (memory (buf + suc (length str)) ≡ 0))
        → (len ≡ length str) ⊎ ((length str < len) × (memory (buf + 1 + length str) ≡ 0))
    further (inl e) = inl (omega (arith, e))
    further (inr e) =
        let place : buf + suc (length str) ≡ buf + 1 + length str = omega arith in
        inr (omega (arith, e.0), subst (λ a. memory a ≡ 0) place e.1)

pub sys_write-text :
    (memory : ℕ → ℕ) (fd buf len : ℕ) (k : Kernel) (out : List Said)
    → (fd ≡ 1) ⊎ (fd ≡ 2)
    → buf ≢ 0
    → len ≢ 0
    → write_chars memory buf len ≡ out
    → sys_write memory fd buf len k
      ≡ record { result = len; kernel = k; switch = none; console = out }
unfolding sys_write
sys_write-text memory fd buf len k out ok ne le e =
    let there = ==_ne buf 0 ne in
    let some_left = ==_ne len 0 le in
    let console : (not (fd == 1) && not (fd == 2)) ≡ false = open_fd fd ok in
    simp (there, some_left, console, e)
  where
    open_fd : (fd : ℕ) → (fd ≡ 1) ⊎ (fd ≡ 2) → (not (fd == 1) && not (fd == 2)) ≡ false
    open_fd fd (inl e) = subst (λ x. (not (x == 1) && not (x == 2)) ≡ false) (sym e) refl
    open_fd fd (inr e) = subst (λ x. (not (x == 1) && not (x == 2)) ≡ false) (sym e) refl
