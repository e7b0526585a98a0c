-- ===== src/Memory/Layout.antt =====
-- The block list of memory.c as a list of chunks laid out one after the other in the address space.
use aether_os.Base.{
  ℕ, ◌+◌, ◌*◌, ◌≤◌, ◌<◌, ◌^◌, ◌≡◌, refl, Bool, true, List, [], ◌∷◌, ◌++◌, arith, length, ap, ◌∙◌,
  subst,
}
use aether_os.Memory.{MemoryBlock, Blocks, Heap}

-- A block as its user sees it.
pub record Chunk : Type 0 where
  pub size : ℕ
  pub free : Bool

-- the address behind a chunk at `p`
abbrev pub end_of : ℕ → Chunk → ℕ
end_of p c = p + 16 + c.size

-- the bytes that the chunks take, headers included
abbrev pub span : List Chunk → ℕ
span [] = 0
span (c ∷ cs) = 16 + c.size + span cs

abbrev pub next_of : ℕ → ℕ → List Chunk → ℕ
next_of nx q [] = nx
next_of nx q (_ ∷ _) = q

-- the address of the last chunk, or `prev` if there is none
abbrev pub last_of : ℕ → ℕ → List Chunk → ℕ
last_of prev p [] = prev
last_of prev p (c ∷ cs) = last_of p (end_of p c) cs

abbrev pub header : Chunk → ℕ → ℕ → MemoryBlock
header c nx pv = record { size = c.size; is_free = c.free; next = nx; prev = pv }

-- From `p` on the store holds the headers of the chunks, each right behind the chunk before it and
-- linked both ways; the last one links to `nx`.
abbrev pub Layout : Blocks → ℕ → ℕ → ℕ → List Chunk → Type 0
Layout m nx prev p [] = Unit {0}
Layout m nx prev p (c ∷ cs) =
    (m p ≡ header c (next_of nx (end_of p c) cs) prev) × Layout m nx p (end_of p c) cs

-- The heap consists of exactly these chunks.
pub record IsHeap (h : Heap) (cs : List Chunk) : Type 0 where
  pub initialized : h.heap_initialized ≡ true
  pub start_pos : 16 ≤ h.heap_start
  pub in_range : h.heap_start + h.total_heap_size < 2 ^ 32
  pub not_empty : 0 < h.total_heap_size
  pub fills : span cs ≡ h.total_heap_size
  pub ends : h.heap_end ≡ last_of 0 h.heap_start cs
  pub layout : Layout h.blocks 0 0 h.heap_start cs

pub span-append : (xs ys : List Chunk) → span (xs ++ ys) ≡ span xs + span ys
span-append [] ys = omega arith
span-append (x ∷ xs) ys = omega (arith, span-append xs ys)

pub length-le-span : (cs : List Chunk) → length cs * 16 ≤ span cs
length-le-span [] = omega arith
length-le-span (c ∷ cs) = omega (arith, length-le-span cs)

pub last_of-append :
    (prev p q : ℕ) (xs : List Chunk) (y : Chunk) (ys : List Chunk)
    → q ≡ p + span xs
    → last_of prev p (xs ++ (y ∷ ys)) ≡ last_of q (end_of q y) ys
last_of-append prev p q [] y ys e = ap (λ k. last_of k (end_of k y) ys) (omega arith)
last_of-append prev p q (x ∷ xs) y ys e = last_of-append p (end_of p x) q xs y ys (omega arith)

-- Where a chunk stands depends on what is before it only by the bytes that this takes.
pub next_of-append :
    (nx p q : ℕ) (xs ys : List Chunk)
    → q ≡ p + span xs
    → next_of (next_of nx q ys) p xs ≡ next_of nx p (xs ++ ys)
next_of-append nx p q [] [] e = refl
next_of-append nx p q [] (y ∷ ys) e = omega arith
next_of-append nx p q (x ∷ xs) ys e = refl

pub Layout-split :
    (m : Blocks) (nx prev p q : ℕ) (xs ys : List Chunk)
    → q ≡ p + span xs
    → Layout m nx prev p (xs ++ ys)
    → Layout m (next_of nx q ys) prev p xs × Layout m nx (last_of prev p xs) q ys
Layout-split m nx prev p q [] ys e l =
    (tt, subst (λ k. Layout m nx prev k ys) (let f : p ≡ q = omega arith in f) l)
Layout-split m nx prev p q (x ∷ xs) ys e l =
    let rest = Layout-split m nx p (end_of p x) q xs ys (omega arith) l.1 in
    ((rw (next_of-append nx (end_of p x) q xs ys (omega arith)) (l.0), rest.0), rest.1)

pub Layout-join :
    (m : Blocks) (nx prev p q : ℕ) (xs ys : List Chunk)
    → q ≡ p + span xs
    → Layout m (next_of nx q ys) prev p xs
    → Layout m nx (last_of prev p xs) q ys
    → Layout m nx prev p (xs ++ ys)
Layout-join m nx prev p q [] ys e l r =
    subst (λ k. Layout m nx prev k ys) (let f : q ≡ p = omega arith in f) r
Layout-join m nx prev p q (x ∷ xs) ys e l r = (
  rw (← next_of-append nx (end_of p x) q xs ys (omega arith)) (l.0),
  Layout-join m nx p (end_of p x) q xs ys (omega arith) l.1 r,
)

-- Only the headers inside the chunks matter.
pub Layout-frame :
    (m m' : Blocks) (nx prev p : ℕ) (cs : List Chunk)
    → ((a : ℕ) → p ≤ a → a < p + span cs → m' a ≡ m a)
    → Layout m nx prev p cs
    → Layout m' nx prev p cs
Layout-frame m m' nx prev p [] same l = tt
Layout-frame m m' nx prev p (c ∷ cs) same l = (
  same p (omega arith) (omega arith) ∙ l.0,
  Layout-frame m m' nx p (end_of p c) cs (λ a h k. same a (omega arith) (omega arith)) l.1,
)
