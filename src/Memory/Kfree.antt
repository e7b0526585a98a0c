-- ===== src/Memory/Kfree.antt =====
-- `kfree` of memory.c on a well-formed heap.
use aether_os.Base.{
  ℕ, ◌+◌, ◌≤◌, ◌<◌, ◌^◌, ◌≡◌, refl, true, false, ltb, leb, List, ◌∷◌, ◌++◌, arith, ◌∙◌, subst, sym,
  ==_ne, ◌⊎◌,
}
use aether_os.Base.Words.{add32, sub32}
use aether_os.Memory.{Heap, kfree, merge_free_blocks, merge_next, set_is_free}
use aether_os.Memory.Layout.{
  Chunk, span, last_of, IsHeap, span-append, last_of-append, Layout-split,
}
use aether_os.Memory.Release.{freed, joined, unjoined, release, span-unjoined, span-release}
use aether_os.Memory.Merge.{
  Becomes, set_is_free-Becomes, merge_next-Becomes, merge_prev-all, Becomes-front, Becomes-trans,
}

-- The three steps of `kfree` on a heap.
free_steps :
    (h : Heap) (xs : List Chunk) (b : Chunk) (ys : List Chunk)
    → IsHeap h (xs ++ (b ∷ ys))
    → let q = h.heap_start + span xs in
      Becomes 0 h.heap_start (release xs b ys) h (merge_free_blocks q (set_is_free q true h))
unfolding merge_free_blocks
free_steps h xs b ys is =
    let p = h.heap_start in
    let q = p + span xs in
    let total : p + span xs + span (b ∷ ys) < 2 ^ 32 =
      omega (arith, span-append xs (b ∷ ys), is.fills, is.in_range) in
    let pos : 0 < p = omega (arith, is.start_pos) in
    let parts = Layout-split h.blocks 0 0 p q xs (b ∷ ys) refl is.layout in
    let h1 = set_is_free q true h in
    let h2 = merge_next q h1 in
    let pv = last_of 0 p xs in
    let s1 =
      set_is_free-Becomes h pv q b ys parts.1 (is.ends ∙ last_of-append 0 p q xs b ys refl) in
    let s2 =
      merge_next-Becomes h1 pv q (freed b) ys (omega arith) (omega arith) s1.layout s1.ends in
    let s12 =
      Becomes-front h h2 0 p q xs b ys (joined (freed b) ys) (unjoined ys) refl is.layout
        (Becomes-trans pv q _ _ h h1 h2 s1 s2) in
    Becomes-trans 0 p _ _ h h2 _ s12 (
      merge_prev-all h2 p q xs (joined (freed b) ys) (unjoined ys) pos refl
        (omega (arith, span-unjoined (freed b) ys)) s12.layout s12.ends)

kfree-steps :
    (h : Heap) (q : ℕ)
    → h.heap_initialized ≡ true
    → h.heap_start ≤ q
    → q < h.heap_start + h.total_heap_size
    → h.heap_start + h.total_heap_size < 2 ^ 32
    → q + 16 < 2 ^ 32
    → kfree (q + 16) h ≡ merge_free_blocks q (set_is_free q true h)
unfolding kfree
kfree-steps h q ready lo hi small no_wrap =
    let at : sub32 (q + 16) 16 ≡ q = omega arith in
    let top : add32 h.heap_start h.total_heap_size ≡ h.heap_start + h.total_heap_size =
      omega arith in
    let above : ltb q h.heap_start ≡ false = ground arith in
    let below : leb (h.heap_start + h.total_heap_size) q ≡ false = ground arith in
    simp (==_ne (q + 16) 0 (omega arith), ready, at, top, above, below)

-- On a well-formed heap, `kfree` of a block's payload address marks that block free, joins it to the
-- free neighbours on both sides, and leaves a well-formed heap of the same extent.
pub kfree-release :
    (h : Heap) (xs : List Chunk) (b : Chunk) (ys : List Chunk)
    → IsHeap h (xs ++ (b ∷ ys))
    → let h' = kfree (h.heap_start + span xs + 16) h in
      IsHeap h' (release xs b ys)
      × (h'.heap_start ≡ h.heap_start)
      × (h'.total_heap_size ≡ h.total_heap_size)
kfree-release h xs b ys is =
    let q = h.heap_start + span xs in
    let fits : span xs + (16 + b.size + span ys) ≡ h.total_heap_size =
      omega (arith, span-append xs (b ∷ ys), is.fills) in
    let steps =
      kfree-steps h q is.initialized (omega arith) (omega arith) is.in_range
        (omega (arith, is.in_range)) in
    let r = free_steps h xs b ys is in
    subst
      (λ (h' : Heap).
        IsHeap h' (release xs b ys)
        × (h'.heap_start ≡ h.heap_start)
        × (h'.total_heap_size ≡ h.total_heap_size))
      (sym steps)
      (
        record {
          initialized = r.same.initialized ∙ is.initialized;
          start_pos = rw (r.same.heap_start) is.start_pos;
          in_range = rw (r.same.heap_start, r.same.total) is.in_range;
          not_empty = rw (r.same.total) is.not_empty;
          fills = omega (arith, span-release xs b ys, is.fills, r.same.total);
          ends = rw (r.same.heap_start) r.ends;
          layout = rw (r.same.heap_start) r.layout;
        },
        r.same.heap_start,
        r.same.total,
      )

-- `kfree` of NULL, or of an address whose header would lie outside the heap, changes nothing.
pub kfree-outside :
    (h : Heap) (ptr : ℕ)
    → h.heap_start + h.total_heap_size < 2 ^ 32
    → (ptr ≡ 0)
      ⊎ ((sub32 ptr 16 < h.heap_start) ⊎ (h.heap_start + h.total_heap_size ≤ sub32 ptr 16))
    → kfree ptr h ≡ h
unfolding kfree
kfree-outside h ptr small out = ground arith
