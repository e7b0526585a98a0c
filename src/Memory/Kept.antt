-- ===== src/Memory/Kept.antt =====
-- `kmalloc` of memory.c and the blocks in use: they stay, and the new block lies beside them.
use aether_os.Base.{
  ℕ, ◌+◌, ◌-◌, ◌≤◌, ◌<◌, ◌^◌, ◌≡◌, refl, Bool, false, leb, if◌then◌else◌, List, [], ◌∷◌, ◌++◌,
  Option, none, some, ◌⊎◌, inl, inr, arith, ap, ◌∙◌, subst, sym, Bool-cases,
}
use aether_os.Memory.{Heap, MemoryBlock, kmalloc}
use aether_os.Memory.Layout.{Chunk, span, end_of, next_of, header, last_of, IsHeap, Layout-split}
use aether_os.Memory.Alloc.{fits, used, unused, carve, alloc, behind}
use aether_os.Memory.Kmalloc.{Returned, round4, kmalloc-alloc}

-- A block in use stays where it is through an allocation, and the new block lies beside it.
pub record Kept (size : ℕ) (xs : List Chunk) (b : Chunk) (o : ℕ) (cs' : List Chunk) : Type 0 where
  pub before : List Chunk
  pub after : List Chunk
  pub to : cs' ≡ before ++ (b ∷ after)
  pub same : span before ≡ span xs
  pub beside : (o + 16 + size ≤ span xs) ⊎ (span xs + 16 + b.size ≤ o)

Kept-behind :
    (size : ℕ) (x : Chunk) (xs : List Chunk) (b : Chunk) (r : Option (ℕ × List Chunk)) {o : ℕ}
    {cs' : List Chunk}
    → ((o' : ℕ) (cs'' : List Chunk) → r ≡ some (o', cs'') → Kept size xs b o' cs'')
    → behind x r ≡ some (o, cs')
    → Kept size (x ∷ xs) b o cs'
Kept-behind size x xs b none ih e = absurd (cc)
Kept-behind size x xs b (some (o', cs'')) ih e =
    let k = ih o' cs'' refl in
    record {
      before = x ∷ k.before;
      after = k.after;
      to = ground (arith, k.to);
      same = omega (arith, k.same);
      beside = ground (arith, k.beside);
    }

Kept-carve :
    (size : ℕ) (x : Chunk) (xs : List Chunk) (b : Chunk) (ys : List Chunk)
    → size ≤ x.size
    → Kept size (x ∷ xs) b 0 (carve size x (xs ++ (b ∷ ys)))
Kept-carve size x xs b ys le = elim (Bool-cases (leb x.size (size + 16))) [
  | inl whole ↦ record {
    before = used x.size ∷ xs;
    after = ys;
    to = simp whole;
    same = refl;
    beside = inl (omega arith);
  }
  | inr part ↦ record {
    before = used size ∷ unused (x.size - size - 16) ∷ xs;
    after = ys;
    to = simp part;
    same = ground arith;
    beside = inl (omega arith);
  }
]

Kept-used :
    (size : ℕ) (b : Chunk) (r : Option (ℕ × List Chunk)) {o : ℕ} {cs' : List Chunk}
    → behind b r ≡ some (o, cs')
    → Kept size [] b o cs'
Kept-used size b none e = absurd (cc)
Kept-used size b (some (o', cs'')) e = record {
  before = [];
  after = cs'';
  to = ground arith;
  same = refl;
  beside = ground arith;
}

pub alloc-Kept :
    (size : ℕ) (xs : List Chunk) (b : Chunk) (ys : List Chunk) {o : ℕ} {cs' : List Chunk}
    → b.free ≡ false
    → alloc size (xs ++ (b ∷ ys)) ≡ some (o, cs')
    → Kept size xs b o cs'
unfolding alloc
alloc-Kept size [] b ys taken e = Kept-used size b (alloc size ys) (simp taken at e)
alloc-Kept size (x ∷ xs) b ys {o} {cs'} taken e = elim (Bool-cases (fits size x)) [
  | inl hit ↦
      let k = Kept-carve size x xs b ys (ground arith) in
      let e' : some (0, carve size x (xs ++ (b ∷ ys))) ≡ some (o, cs') =
        subst
          (λ (t : Bool).
            (if t
              then some (0, carve size x (xs ++ (b ∷ ys)))
              else behind x (alloc size (xs ++ (b ∷ ys))))
            ≡ some (o, cs'))
          hit e in
      let at_o : 0 ≡ o = ground arith in
      let at_cs : carve size x (xs ++ (b ∷ ys)) ≡ cs' = ground arith in
      record {
        before = k.before;
        after = k.after;
        to = sym at_cs ∙ k.to;
        same = k.same;
        beside = inl (omega arith);
      }
  | inr miss ↦
      Kept-behind size x xs b (alloc size (xs ++ (b ∷ ys)))
        (λ o' cs'' p. alloc-Kept size xs b ys taken p) (rw miss at e)
]

-- the header of a chunk of a heap
header_at :
    (h : Heap) (xs : List Chunk) (b : Chunk) (ys : List Chunk)
    → IsHeap h (xs ++ (b ∷ ys))
    → let a = h.heap_start + span xs in
      h.blocks a ≡ header b (next_of 0 (end_of a b) ys) (last_of 0 h.heap_start xs)
header_at h xs b ys is =
    let a = h.heap_start + span xs in
    ((Layout-split h.blocks 0 0 h.heap_start a xs (b ∷ ys) refl is.layout).1).0

pub size_at :
    (h : Heap) (xs : List Chunk) (b : Chunk) (ys : List Chunk)
    → IsHeap h (xs ++ (b ∷ ys))
    → (h.blocks (h.heap_start + span xs)).size ≡ b.size
size_at h xs b ys is = ap (λ (k : MemoryBlock). k.size) (header_at h xs b ys is)

-- On a well-formed heap, a `kmalloc` that finds room leaves each block in use as it is, where it is,
-- and the bytes that it hands out do not overlap that block.
pub kmalloc_apart :
    (h : Heap) (size : ℕ) (xs : List Chunk) (b : Chunk) (ys : List Chunk) (o : ℕ) (cs' : List Chunk)
    → IsHeap h (xs ++ (b ∷ ys))
    → b.free ≡ false
    → 0 < size
    → size + 3 < 2 ^ 32
    → alloc (round4 size) (xs ++ (b ∷ ys)) ≡ some (o, cs')
    → let a = h.heap_start + span xs in
      let (p, h') = kmalloc size h in
      ((h'.blocks a).size ≡ b.size)
      × ((h'.blocks a).is_free ≡ false)
      × ((p + size ≤ a) ⊎ (a + 16 + b.size ≤ p))
kmalloc_apart h size xs b ys o cs' is taken pos small e =
    let p = (kmalloc size h).0 in
    let h' = (kmalloc size h).1 in
    let k = alloc-Kept (round4 size) xs b ys taken e in
    let r : Returned h (some (o, cs')) (kmalloc size h) =
      subst (λ c. Returned h c (kmalloc size h)) e
        (kmalloc-alloc h size (xs ++ (b ∷ ys)) is pos small) in
    let is' : IsHeap h' (k.before ++ (b ∷ k.after)) = subst (IsHeap h') k.to r.1 in
    let at : h'.heap_start + span k.before ≡ h.heap_start + span xs = omega (arith, k.same, r.2) in
    let found = header_at h' k.before b k.after is' in
    (
      ap (λ c. (h'.blocks c).size) (sym at) ∙ ap (λ (c : MemoryBlock). c.size) found,
      ap (λ c. (h'.blocks c).is_free) (sym at) ∙ ap (λ (c : MemoryBlock). c.is_free) found ∙ taken,
      omega (arith, k.beside, r.0),
    )
