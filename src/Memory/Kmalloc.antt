-- ===== src/Memory/Kmalloc.antt =====
-- `kmalloc` of memory.c against `Memory.Alloc.alloc`, and its guards.
use aether_os.Base.{
  ℕ, ◌+◌, ◌*◌, ◌/◌, ◌≤◌, ◌<◌, ◌^◌, ◌≡◌, refl, true, List, [], ◌∷◌, ◌++◌, Option, none, some, arith,
  leb, subst, sym, ap, ◌∙◌, Option-cases, inl, inr, ==_ne, Bool-cases,
}
use aether_os.Base.Words.{add32}
use aether_os.Memory.{Heap, kmalloc, kmalloc_aligned, align4, find_free_block, max_blocks}
use aether_os.Memory.Layout.{
  Chunk, span, next_of, last_of, IsHeap, span-append, length-le-span, last_of-append, Layout-split,
  Layout-join, Layout-frame,
}
use aether_os.Memory.Alloc.{carve, alloc, found_at, find_free_block-alloc, Taken, alloc-Taken}
use aether_os.Memory.Split.{take_block, take_block-Carved}

-- The outcome that `alloc` prescribes: NULL and the heap as it was, or the payload of the chunk at
-- the offset and a heap of the chunks.
abbrev pub Returned : Heap → Option (ℕ × List Chunk) → ℕ × Heap → Type 0
Returned h none out = (out.0 ≡ 0) × (out.1 ≡ h)
Returned h (some r) out =
    (out.0 ≡ h.heap_start + r.0 + 16)
    × IsHeap out.1 (r.1)
    × (out.1.heap_start ≡ h.heap_start)
    × (out.1.total_heap_size ≡ h.total_heap_size)

pub span-carve :
    (size : ℕ) (c : Chunk) (cs : List Chunk)
    → size ≤ c.size
    → span (carve size c cs) ≡ 16 + c.size + span cs
span-carve size c cs h = ground arith

next_of-carve : (q size : ℕ) (c : Chunk) (cs : List Chunk) → next_of 0 q (carve size c cs) ≡ q
next_of-carve q size c cs = ground arith

last_of-carve :
    (pv p q size : ℕ) (xs : List Chunk) (c : Chunk) (cs : List Chunk)
    → q ≡ p + span xs
    → last_of pv p (xs ++ carve size c cs) ≡ last_of (last_of pv p xs) q (carve size c cs)
last_of-carve pv p q size xs c cs e = elim (Bool-cases (leb c.size (size + 16))) [
  | inl whole ↦ rw whole (last_of-append pv p q xs _ cs e)
  | inr part ↦ rw part (last_of-append pv p q xs _ _ e)
]

-- Taking one chunk of a heap.
take_block-IsHeap :
    (h : Heap) (size : ℕ) (xs : List Chunk) (b : Chunk) (ys : List Chunk)
    → size ≤ b.size
    → IsHeap h (xs ++ (b ∷ ys))
    → IsHeap (take_block (h.heap_start + span xs) size h) (xs ++ carve size b ys)
      × ((take_block (h.heap_start + span xs) size h).heap_start ≡ h.heap_start)
      × ((take_block (h.heap_start + span xs) size h).total_heap_size ≡ h.total_heap_size)
take_block-IsHeap h size xs b ys enough is =
    let q = h.heap_start + span xs in
    let parts = Layout-split h.blocks 0 0 h.heap_start q xs (b ∷ ys) refl is.layout in
    let fits : span xs + (16 + b.size + span ys) ≡ h.total_heap_size =
      omega (arith, span-append xs (b ∷ ys), is.fills) in
    let c =
      take_block-Carved h (last_of 0 h.heap_start xs) q size b ys (omega (arith, is.start_pos))
        enough (omega (arith, is.in_range)) parts.1
        (is.ends ∙ last_of-append 0 h.heap_start q xs b ys refl) in
    let h' = take_block q size h in
    (
      record {
        initialized = c.same.initialized ∙ is.initialized;
        start_pos = rw (c.same.heap_start) is.start_pos;
        in_range = rw (c.same.heap_start, c.same.total) is.in_range;
        not_empty = rw (c.same.total) is.not_empty;
        fills =
            omega
              (arith, span-append xs (carve size b ys), span-carve size b ys enough, c.same.total);
        ends =
            c.ends
            ∙ sym (last_of-carve 0 h.heap_start q size xs b ys refl)
            ∙ ap (λ k. last_of 0 k (xs ++ carve size b ys)) (sym c.same.heap_start);
        layout = rw (c.same.heap_start) (
            Layout-join h'.blocks 0 0 h.heap_start q xs (carve size b ys) refl
              (rw (next_of-carve q size b ys) (
                Layout-frame h.blocks h'.blocks q 0 h.heap_start xs (λ a ge lt. c.same.blocks a lt)
                  parts.0))
              c.layout);
      },
      c.same.heap_start,
      c.same.total,
    )

pub next_of-pos : (q : ℕ) (cs : List Chunk) → 0 < span cs → next_of 0 q cs ≡ q
next_of-pos q [] h = absurd (omega arith)
next_of-pos q (c ∷ cs) h = refl

-- `find_free_block` on a whole heap.
find_free_block-IsHeap :
    (h : Heap) (size : ℕ) (cs : List Chunk)
    → IsHeap h cs
    → find_free_block (max_blocks h) h.blocks size h.heap_start
      ≡ found_at h.heap_start (alloc size cs)
find_free_block-IsHeap h size cs is =
    let start = next_of-pos h.heap_start cs (omega (arith, is.fills, is.not_empty)) in
    ap (find_free_block (max_blocks h) h.blocks size) (sym start)
    ∙ find_free_block-alloc (max_blocks h) size 0 h.heap_start h.blocks cs is.layout
        (omega (arith, is.start_pos)) (omega (arith, length-le-span cs, is.fills))

-- What `kmalloc` does once `find_free_block` has the chunk at offset `o`.
take_block-Taken :
    (h : Heap) (size : ℕ) (cs cs' : List Chunk) (o : ℕ)
    → IsHeap h cs
    → Taken size cs o cs'
    → Returned h (some (o, cs')) (add32 (h.heap_start + o) 16, take_block (h.heap_start + o) size h)
take_block-Taken h size cs cs' o is t =
    let q = h.heap_start + span t.before in
    let is' : IsHeap h (t.before ++ (t.chunk ∷ t.after)) = subst (IsHeap h) t.from is in
    let r = take_block-IsHeap h size t.before t.chunk t.after t.enough is' in
    rw (t.offset, t.to)
      (
        omega (arith, span-append t.before (t.chunk ∷ t.after), is'.fills, is.in_range),
        r.0,
        r.1,
        r.2,
      )

kmalloc_aligned-alloc :
    (h : Heap) (size : ℕ) (cs : List Chunk)
    → IsHeap h cs
    → Returned h (alloc size cs) (kmalloc_aligned size h)
unfolding kmalloc_aligned
kmalloc_aligned-alloc h size cs is = elim (Option-cases (alloc size cs)) [
  | inl e ↦ rw (e, find_free_block-IsHeap h size cs is, e) (refl, refl)
  | inr (r, e) ↦
      rw
        (
          e,
          find_free_block-IsHeap h size cs is,
          e,
          ==_ne (h.heap_start + r.0) 0 (omega (arith, is.start_pos)),
        )
        (take_block-Taken h size cs r.1 r.0 is (alloc-Taken size cs e))
]

-- the request rounded up to a multiple of four
abbrev pub round4 : ℕ → ℕ
round4 size = (size + 3) / 4 * 4

pub align4-round4 : (size : ℕ) → size + 3 < 2 ^ 32 → align4 size ≡ round4 size
unfolding align4
align4-round4 size h = omega arith

pub kmalloc-kmalloc_aligned :
    (h : Heap) (size : ℕ)
    → h.heap_initialized ≡ true
    → 0 < size
    → kmalloc size h ≡ kmalloc_aligned (align4 size) h
unfolding kmalloc
kmalloc-kmalloc_aligned h size ready pos = simp (ready, ==_ne size 0 (omega arith))

-- On a well-formed heap, `kmalloc` of a size between 1 and 2^32 - 4 is first-fit allocation of the
-- size rounded up to a multiple of four: where a free block is large enough, it returns the payload
-- of the first such block and leaves a well-formed heap with that block carved; else it returns NULL
-- and changes nothing.
pub kmalloc-alloc :
    (h : Heap) (size : ℕ) (cs : List Chunk)
    → IsHeap h cs
    → 0 < size
    → size + 3 < 2 ^ 32
    → Returned h (alloc (round4 size) cs) (kmalloc size h)
kmalloc-alloc h size cs is pos small =
    rw (kmalloc-kmalloc_aligned h size is.initialized pos, align4-round4 size small)
      (kmalloc_aligned-alloc h (round4 size) cs is)

align4-wraps : (size : ℕ) → 2 ^ 32 ≤ size + 3 → size < 2 ^ 32 → align4 size ≡ 0
unfolding align4
align4-wraps size big small = omega arith

-- A request within three bytes of 2^32 wraps to a size of 0 when it is aligned: on a well-formed
-- heap that has a free block, `kmalloc` grants such a request and returns a payload, although the
-- whole heap is smaller than the request.
pub kmalloc-wraps :
    (h : Heap) (size : ℕ) (cs : List Chunk) (o : ℕ) (cs' : List Chunk)
    → IsHeap h cs
    → 2 ^ 32 ≤ size + 3
    → size < 2 ^ 32
    → alloc 0 cs ≡ some (o, cs')
    → ((kmalloc size h).0 ≡ h.heap_start + o + 16)
      × IsHeap (kmalloc size h).1 cs'
      × (h.total_heap_size < size)
kmalloc-wraps h size cs o cs' is big small e =
    let r : Returned h (some (o, cs')) (kmalloc_aligned 0 h) =
      subst (λ k. Returned h k (kmalloc_aligned 0 h)) e (kmalloc_aligned-alloc h 0 cs is) in
    rw (kmalloc-kmalloc_aligned h size is.initialized (omega arith), align4-wraps size big small)
      (r.0, r.1, omega (arith, is.start_pos, is.in_range))
