-- ===== src/Memory/Resize.antt =====
-- `krealloc` and `kcalloc` of memory.c. Payload bytes are a memory of their own beside the headers:
-- in a well-formed heap no header lies in the payload of a block in use.
use aether_os.Base.{
  ℕ, ◌+◌, ◌*◌, ◌≤◌, ◌<◌, ◌^◌, ◌≡◌, ◌≢◌, true, false, leb, ltb, ◌==◌, if◌then◌else◌, List, ◌∷◌, ◌++◌,
  some, inl, inr, arith, ap, ◌∙◌, subst, sym, Bool-cases, ==_ne,
}
use aether_os.Base.Words.{sub32, mul32}
use aether_os.Memory.{Heap, kmalloc, kfree}
use aether_os.Memory.Layout.{Chunk, span, IsHeap, span-append}
use aether_os.Memory.Alloc.{alloc}
use aether_os.Memory.Bytes.{Memory, memset, memcpy, memset_lem, memcpy_lem}
use aether_os.Memory.Kept.{size_at, alloc-Kept}
use aether_os.Memory.Kmalloc.{Returned, round4, kmalloc-alloc}
use aether_os.Memory.Release.{release}
use aether_os.Memory.Kfree.{kfree-release}

abbrev pub Outcome : Type 0
Outcome = ℕ × Heap × Memory

-- the last four statements of `krealloc`, given the block and what `kmalloc` returned
unfoldable pub move_block : ℕ → ℕ → ℕ → ℕ × Heap → Memory → Outcome
move_block ptr block new_size (new_ptr, h) m =
    let n = if ltb (h.blocks block).size new_size then (h.blocks block).size else new_size in
    if new_ptr == 0 then (0, h, m) else (new_ptr, kfree ptr h, memcpy new_ptr ptr n m)

unfoldable pub krealloc : ℕ → ℕ → Heap → Memory → Outcome
krealloc ptr new_size h m =
    let block = sub32 ptr 16 in
    let (p, h') = kmalloc new_size h in
    if ptr == 0
    then (p, h', m)
    else (if new_size == 0
        then (0, kfree ptr h, m)
        else (if leb new_size (h.blocks block).size
            then (ptr, h, m)
            else move_block ptr block new_size (p, h') m))

-- `if (ptr) memset(ptr, 0, total_size)`
unfoldable pub clear_payload : ℕ → ℕ × Heap → Memory → Outcome
clear_payload total_size (ptr, h) m =
    if ptr == 0 then (ptr, h, m) else (ptr, h, memset ptr 0 total_size m)

unfoldable pub kcalloc : ℕ → ℕ → Heap → Memory → Outcome
kcalloc num size h m = clear_payload (mul32 num size) (kmalloc (mul32 num size) h) m

krealloc-steps :
    (h : Heap) (m : Memory) (q new_size : ℕ)
    → q + 16 < 2 ^ 32
    → 0 < new_size
    → (h.blocks q).size < new_size
    → krealloc (q + 16) new_size h m ≡ move_block (q + 16) q new_size (kmalloc new_size h) m
unfolding krealloc
krealloc-steps h m q new_size small pos grows =
    let at : sub32 (q + 16) 16 ≡ q = omega arith in
    let short : leb new_size (h.blocks q).size ≡ false = ground arith in
    simp (at, ==_ne (q + 16) 0 (omega arith), ==_ne new_size 0 (omega arith), short)

move_block-steps :
    (ptr block new_size p : ℕ) (h : Heap) (m : Memory)
    → 0 < p
    → (h.blocks block).size < new_size
    → move_block ptr block new_size (p, h) m
      ≡ (p, kfree ptr h, memcpy p ptr (h.blocks block).size m)
unfolding move_block
move_block-steps ptr block new_size p h m pos grows =
    let short : ltb (h.blocks block).size new_size ≡ true = ground arith in
    simp (==_ne p 0 (omega arith), short)

-- The old block's bytes stand in the new block at offset `o`, and the old block is freed.
pub record Moved (h : Heap) (m : Memory) (xs : List Chunk) (b : Chunk) (o : ℕ) (cs' : List Chunk)
    (out : Outcome) : Type 0 where
  pub pointer : out.0 ≡ h.heap_start + o + 16
  pub bytes : (i : ℕ) → i < b.size → out.2 (out.0 + i) ≡ m (h.heap_start + span xs + 16 + i)
  pub before : List Chunk
  pub after : List Chunk
  pub block : cs' ≡ before ++ (b ∷ after)
  pub place : span before ≡ span xs
  pub heap : IsHeap out.1 (release before b after)

-- `krealloc` of a block in use to a larger size, where `kmalloc` finds room for it: the result is
-- the block that first-fit allocation picks, it holds the bytes of the old block, and the heap is
-- well-formed, with the old block freed in it.
pub krealloc-grows :
    (h : Heap) (m : Memory) (new_size : ℕ) (xs : List Chunk) (b : Chunk) (ys : List Chunk) (o : ℕ)
    (cs' : List Chunk)
    → IsHeap h (xs ++ (b ∷ ys))
    → b.free ≡ false
    → b.size < new_size
    → new_size + 3 < 2 ^ 32
    → alloc (round4 new_size) (xs ++ (b ∷ ys)) ≡ some (o, cs')
    → Moved h m xs b o cs' (krealloc (h.heap_start + span xs + 16) new_size h m)
krealloc-grows h m new_size xs b ys o cs' is taken grows small e =
    let q = h.heap_start + span xs in
    let p = (kmalloc new_size h).0 in
    let h1 = (kmalloc new_size h).1 in
    let k = alloc-Kept (round4 new_size) xs b ys taken e in
    let r : Returned h (some (o, cs')) (kmalloc new_size h) =
      subst (λ a. Returned h a (kmalloc new_size h)) e
        (kmalloc-alloc h new_size (xs ++ (b ∷ ys)) is (omega arith) small) in
    let is1 : IsHeap h1 (k.before ++ (b ∷ k.after)) = subst (IsHeap h1) k.to r.1 in
    let at_q : h1.heap_start + span k.before ≡ q = omega (arith, k.same, r.2) in
    let old : (h.blocks q).size ≡ b.size = size_at h xs b ys is in
    let new : (h1.blocks q).size ≡ b.size =
      ap (λ a. (h1.blocks a).size) (sym at_q) ∙ size_at h1 k.before b k.after is1 in
    let inside : q + 16 < 2 ^ 32 = omega (arith, span-append xs (b ∷ ys), is.fills, is.in_range) in
    let steps =
      krealloc-steps h m q new_size inside (omega arith) (omega (arith, old))
      ∙ move_block-steps (q + 16) q new_size p h1 m (omega (arith, r.0)) (omega (arith, new)) in
    subst (Moved h m xs b o cs') (sym steps) (record {
      pointer = r.0;
      bytes = λ i lt.
          (memcpy_lem p (q + 16) (h1.blocks q).size m (omega (arith, r.0, k.beside, new))).0 i
            (omega (arith, new));
      before = k.before;
      after = k.after;
      block = k.to;
      place = k.same;
      heap =
          subst (λ a. IsHeap (kfree (a + 16) h1) (release k.before b k.after)) at_q
            ((kfree-release h1 k.before b k.after is1).0);
    })

-- `kcalloc` multiplies modulo 2^32, so a request whose product wraps is granted as a smaller one:
-- with room for the wrapped product in a well-formed heap it returns a block although the bytes
-- asked for exceed the whole heap.
pub kcalloc-wraps :
    (h : Heap) (m : Memory) (num size : ℕ) (cs : List Chunk) (o : ℕ) (cs' : List Chunk)
    → IsHeap h cs
    → 2 ^ 32 ≤ num * size
    → 0 < mul32 num size
    → mul32 num size + 3 < 2 ^ 32
    → alloc (round4 (mul32 num size)) cs ≡ some (o, cs')
    → ((kcalloc num size h m).0 ≡ h.heap_start + o + 16) × (h.total_heap_size < num * size)
unfolding kcalloc clear_payload
kcalloc-wraps h m num size cs o cs' is big pos small e =
    let n = mul32 num size in
    let r : Returned h (some (o, cs')) (kmalloc n h) =
      subst (λ a. Returned h a (kmalloc n h)) e (kmalloc-alloc h n cs is pos small) in
    (simp (==_ne (kmalloc n h).0 0 (omega (arith, r.0))) r.0, omega (arith, is.in_range))

clear_payload_lem :
    (n p : ℕ) (h : Heap) (m : Memory) (i : ℕ)
    → (clear_payload n (p, h) m).0 ≢ 0
    → i < n
    → (clear_payload n (p, h) m).2 ((clear_payload n (p, h) m).0 + i) ≡ 0
unfolding clear_payload
clear_payload_lem n p h m i ne lt = elim (Bool-cases (p == 0)) [
  | inl null ↦ absurd (ne (simp null (ground arith)))
  | inr got ↦ simp got ((memset_lem p 0 n m).0 i lt)
]

-- Every block that `kcalloc` returns has its bytes cleared: as many as the product modulo 2^32.
pub kcalloc_clears :
    (h : Heap) (m : Memory) (num size i : ℕ)
    → (kcalloc num size h m).0 ≢ 0
    → i < mul32 num size
    → (kcalloc num size h m).2 ((kcalloc num size h m).0 + i) ≡ 0
unfolding kcalloc
kcalloc_clears h m num size i ne lt =
    let r = kmalloc (mul32 num size) h in clear_payload_lem (mul32 num size) r.0 r.1 m i ne lt
