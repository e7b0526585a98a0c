-- ===== src/Memory/Roundtrip.antt =====
-- memory.c from its start: the heap that `memory_init` builds, and `kfree` after `kmalloc`.
use aether_os.Base.{
  ℕ, ◌+◌, ◌-◌, ◌<◌, ◌^◌, ◌≡◌, refl, true, List, [], ◌∷◌, ◌++◌, arith, ap, ◌∙◌, subst, sym, some,
  leb, Bool-cases, inl, inr,
}
use aether_os.Memory.{Heap, kmalloc, kfree, memory_init, kernel_heap_size, header_size}
use aether_os.Memory.Layout.{Chunk, span, IsHeap}
use aether_os.Memory.Alloc.{used, unused, carve, alloc, alloc-Taken}
use aether_os.Memory.Release.{join_next, join_prev, release}
use aether_os.Memory.Coalesced.{Coalesced, join_next-Apart, join_prev-Apart, Coalesced-append}
use aether_os.Memory.Kmalloc.{Returned, round4, kmalloc-alloc}
use aether_os.Memory.Kfree.{kfree-release}

-- `memory_init` builds a well-formed heap of one free block that fills the heap, whatever the
-- memory and the statics held before.
pub memory_init-IsHeap :
    (h : Heap) → IsHeap (memory_init h) (unused (kernel_heap_size - header_size) ∷ [])
unfolding memory_init
memory_init-IsHeap h = record {
  initialized = refl;
  start_pos = omega arith;
  in_range = omega arith;
  not_empty = omega arith;
  fills = refl;
  ends = refl;
  layout = (refl, tt);
}

-- Freeing what was carved off a free chunk gives that chunk back.
release-whole :
    (xs : List Chunk) (b : Chunk) (ys : List Chunk)
    → b.free ≡ true
    → Coalesced (xs ++ (b ∷ ys))
    → release xs (used b.size) ys ≡ xs ++ (b ∷ ys)
release-whole xs b ys free h =
    let apart = ((Coalesced-append xs (b ∷ ys) h).1).0 in
    let same : unused b.size ≡ b = ground arith in
    ap (λ k. join_prev xs (join_next k ys)) same
    ∙ ap (join_prev xs) (join_next-Apart b ys free apart)
    ∙ join_prev-Apart xs b ys free h

release-part :
    (size : ℕ) (xs : List Chunk) (b : Chunk) (ys : List Chunk)
    → b.free ≡ true
    → size + 16 < b.size
    → Coalesced (xs ++ (b ∷ ys))
    → release xs (used size) (unused (b.size - size - 16) ∷ ys) ≡ xs ++ (b ∷ ys)
release-part size xs b ys free room h =
    let whole : unused (size + 16 + (b.size - size - 16)) ≡ b = ground arith in
    ap (λ k. join_prev xs (k ∷ ys)) whole ∙ join_prev-Apart xs b ys free h

kfree-carve :
    (h : Heap) (size : ℕ) (xs : List Chunk) (b : Chunk) (ys : List Chunk)
    → b.free ≡ true
    → Coalesced (xs ++ (b ∷ ys))
    → IsHeap h (xs ++ carve size b ys)
    → IsHeap (kfree (h.heap_start + span xs + 16) h) (xs ++ (b ∷ ys))
kfree-carve h size xs b ys free apart is = elim (Bool-cases (leb b.size (size + 16))) [
  | inl whole ↦
      subst (IsHeap _) (release-whole xs b ys free apart)
        ((kfree-release h xs (used b.size) ys (rw whole at is)).0)
  | inr part ↦
      subst (IsHeap _) (release-part size xs b ys free (ground arith) apart)
        ((kfree-release h xs (used size) (unused (b.size - size - 16) ∷ ys) (rw part at is)).0)
]

-- On a well-formed heap with no two free neighbours, a `kmalloc` that finds room, followed by
-- `kfree` of the address that it returned, gives back a heap of the same blocks.
pub kfree-kmalloc :
    (h : Heap) (size : ℕ) (cs : List Chunk) (o : ℕ) (cs' : List Chunk)
    → IsHeap h cs
    → Coalesced cs
    → 0 < size
    → size + 3 < 2 ^ 32
    → alloc (round4 size) cs ≡ some (o, cs')
    → IsHeap (kfree (kmalloc size h).0 (kmalloc size h).1) cs
kfree-kmalloc h size cs o cs' is apart pos small e =
    let h' = (kmalloc size h).1 in
    let r : Returned h (some (o, cs')) (kmalloc size h) =
      subst (λ k. Returned h k (kmalloc size h)) e (kmalloc-alloc h size cs is pos small) in
    let t = alloc-Taken (round4 size) cs e in
    let at : h'.heap_start + span t.before + 16 ≡ (kmalloc size h).0 =
      omega (arith, r.0, r.2, t.offset) in
    subst (λ p. IsHeap (kfree p h') cs) at
      (subst (IsHeap _) (sym t.from) (
        kfree-carve h' (round4 size) t.before t.chunk t.after t.free (subst Coalesced t.from apart)
          (subst (IsHeap h') t.to r.1)))
