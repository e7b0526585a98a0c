-- ===== src/Memory/Split.antt =====
-- `split_block` of memory.c, and the store that `kmalloc` leaves when it takes a block.
use aether_os.Base.{
  ℕ, ◌+◌, ◌-◌, ◌≤◌, ◌<◌, ◌^◌, ◌≡◌, true, false, List, [], ◌∷◌, arith, inl, inr, leb, ◌≢◌,
  Bool-cases, ap, ◌∙◌, subst, sym, ==_ne,
}
use aether_os.Base.Words.{add32, sub32}
use aether_os.Memory.{
  Heap, MemoryBlock, set_is_free, set_size, set_next, set_prev, modify, split_block,
}
use aether_os.Memory.Store.{
  modify_self, modify_ne, modify-end, SameBefore, SameBefore-modify, SameBefore-end,
  SameBefore_refl,
}
use aether_os.Memory.Layout.{Chunk, end_of, next_of, last_of, header, Layout, Layout-frame}
use aether_os.Memory.Alloc.{carve, used, unused}

abbrev pub take_block : ℕ → ℕ → Heap → Heap
take_block q size h = set_is_free q false (split_block q size h)

-- the three assignments to the block that is taken
abbrev retake : ℕ → ℕ → ℕ → Heap → Heap
retake q size n h = set_is_free q false (set_size q size (set_next q n h))

retake_self :
    (q size n : ℕ) (h : Heap)
    → (retake q size n h).blocks q
      ≡ record { size = size; is_free = false; next = n; prev = (h.blocks q).prev }
retake_self q size n h = rw (modify_self, modify_self, modify_self)

retake_ne : (q size n : ℕ) (h : Heap) (a : ℕ) → a ≢ q → (retake q size n h).blocks a ≡ h.blocks a
retake_ne q size n h a ne = modify_ne q _ _ a ne ∙ modify_ne q _ _ a ne ∙ modify_ne q _ h a ne

retake-SameBefore :
    (q size n : ℕ) (h h' : Heap) → SameBefore q h h' → SameBefore q h (retake q size n h')
retake-SameBefore q size n h h' s =
    let le : q ≤ q = omega arith in
    SameBefore-modify q q _ h _ le
      (SameBefore-modify q q _ h _ le (SameBefore-modify q q _ h h' le s))

-- What taking the block at `q` makes of the chunks from `q` on.
pub record Carved (pv q size : ℕ) (b : Chunk) (ys : List Chunk) (h h' : Heap) : Type 0 where
  pub same : SameBefore q h h'
  pub layout : Layout h'.blocks 0 pv q (carve size b ys)
  pub ends : h'.heap_end ≡ last_of pv q (carve size b ys)

abbrev rest_header : ℕ → ℕ → ℕ → Chunk → MemoryBlock
rest_header q size nx b = record {
  size = sub32 (sub32 b.size size) 16;
  is_free = true;
  next = nx;
  prev = q;
}

module _ (h : Heap) (pv q size : ℕ) (b : Chunk) (pos : 0 < q) where
  take_whole :
      (ys : List Chunk)
      → Layout h.blocks 0 pv q (b ∷ ys)
      → h.heap_end ≡ last_of pv q (b ∷ ys)
      → leb b.size (add32 size 16) ≡ true
      → leb b.size (size + 16) ≡ true
      → Carved pv q size b ys h (take_block q size h)
  unfolding split_block
  take_whole ys l ends whole whole' =
      rw (l.0, whole)
        (record {
          same = SameBefore-modify q q _ h h (omega arith) (SameBefore_refl q h);
          layout = rw whole' (
            modify_self q _ h ∙ ap (λ (k : MemoryBlock). record k { is_free = false }) l.0,
            Layout-frame h.blocks _ 0 q (end_of q b) ys (λ a ge lt. modify_ne q _ h a (omega arith))
                l.1,
          );
          ends = rw whole' (modify-end q _ h ∙ ends);
        })

  module _ (part : leb b.size (add32 size 16) ≡ false) (room : size + 16 < b.size)
      (small : end_of q b < 2 ^ 32) where
    rest_header_lem : (nx : ℕ) → rest_header q size nx b ≡ header (unused (b.size - size - 16)) nx q
    rest_header_lem nx = ap (λ k. header (unused k) nx q) (omega arith)

    split_block-last :
        h.blocks q ≡ header b 0 pv
        → take_block q size h
          ≡ retake q size (q + 16 + size) (
              let h1 = modify (q + 16 + size) (λ _. rest_header q size 0 b) h in
              record h1 { heap_end = q + 16 + size })
    unfolding split_block
    split_block-last hq =
        let at_n : add32 (add32 q 16) size ≡ q + 16 + size = omega arith in
        rw (hq, part, at_n, modify_ne (q + 16 + size) _ h q (omega arith), hq)

    split_block-inner :
        h.blocks q ≡ header b (end_of q b) pv
        → take_block q size h
          ≡ retake q size (q + 16 + size) (
              set_prev
                (end_of q b)
                (q + 16 + size)
                (modify (q + 16 + size) (λ _. rest_header q size (end_of q b) b) h))
    unfolding split_block
    split_block-inner hq =
        let at_n : add32 (add32 q 16) size ≡ q + 16 + size = omega arith in
        rw (
          hq,
          part,
          at_n,
          modify_ne (q + 16 + size) _ h q (omega arith),
          hq,
          ==_ne (end_of q b) 0 (omega arith),
        )

    abbrev Split : List Chunk → Heap → Type 0
    Split ys h' =
        SameBefore q h h'
        × Layout h'.blocks 0 pv q (used size ∷ unused (b.size - size - 16) ∷ ys)
        × (h'.heap_end ≡ last_of pv q (used size ∷ unused (b.size - size - 16) ∷ ys))

    take_part-nil : Layout h.blocks 0 pv q (b ∷ []) → Split [] (take_block q size h)
    take_part-nil l =
        let n = q + 16 + size in
        let h1 = modify n (λ _. rest_header q size 0 b) h in
        let h2 = record h1 { heap_end = n } in
        subst (Split []) (sym (split_block-last l.0)) (
          retake-SameBefore q size n h h2 (
              SameBefore-end q n h h1
                (SameBefore-modify q n _ h h (omega arith) (SameBefore_refl q h))),
          (
            retake_self q size n h2
                ∙ ap (λ (k : MemoryBlock). record k { size = size; is_free = false; next = n })
                    (modify_ne n _ h q (omega arith) ∙ l.0),
            (retake_ne q size n h2 n (omega arith) ∙ modify_self n _ h ∙ rest_header_lem 0, tt),
          ),
          modify-end q _ _ ∙ modify-end q _ _ ∙ modify-end q _ h2,
        )

    take_part-cons :
        (y : Chunk) (ys : List Chunk)
        → Layout h.blocks 0 pv q (b ∷ y ∷ ys)
        → h.heap_end ≡ last_of pv q (b ∷ y ∷ ys)
        → Split (y ∷ ys) (take_block q size h)
    take_part-cons y ys l ends =
        let n = q + 16 + size in
        let e = end_of q b in
        let h1 = modify n (λ _. rest_header q size e b) h in
        let h2 = set_prev e n h1 in
        let h' = retake q size n h2 in
        let at_e : e ≡ end_of n (unused (b.size - size - 16)) = omega arith in
        let old : (a : ℕ) → end_of e y ≤ a → h'.blocks a ≡ h.blocks a = λ a ge.
          retake_ne q size n h2 a (omega arith)
          ∙ modify_ne e _ h1 a (omega arith)
          ∙ modify_ne n _ h a (omega arith) in
        let at_y : h'.blocks e ≡ header y (next_of 0 (end_of e y) ys) n =
          retake_ne q size n h2 e (omega arith)
          ∙ modify_self e _ h1
          ∙ ap (λ (k : MemoryBlock). record k { prev = n })
              (modify_ne n _ h e (omega arith) ∙ (l.1).0) in
        let at_n : h'.blocks n ≡ header (unused (b.size - size - 16)) e q =
          retake_ne q size n h2 n (omega arith)
          ∙ modify_ne e _ h1 n (omega arith)
          ∙ modify_self n _ h
          ∙ rest_header_lem e in
        subst (Split (y ∷ ys)) (sym (split_block-inner l.0)) (
          retake-SameBefore q size n h h2 (
              SameBefore-modify q e _ h h1 (omega arith)
                (SameBefore-modify q n _ h h (omega arith) (SameBefore_refl q h))),
          (
            retake_self q size n h2
                ∙ ap (λ (k : MemoryBlock). record k { size = size; is_free = false; next = n })
                    (modify_ne e _ h1 q (omega arith) ∙ modify_ne n _ h q (omega arith) ∙ l.0),
            subst
                (λ k.
                  (h'.blocks n ≡ header (unused (b.size - size - 16)) k q)
                  × Layout h'.blocks 0 n k (y ∷ ys))
                at_e
                (
                  at_n,
                  (
                    at_y,
                    Layout-frame h.blocks h'.blocks 0 e (end_of e y) ys (λ a ge lt. old a ge)
                        (l.1).1,
                  ),
                ),
          ),
          modify-end q _ _
              ∙ modify-end q _ _
              ∙ modify-end q _ h2
              ∙ modify-end e _ h1
              ∙ modify-end n _ h
              ∙ ends
              ∙ ap (λ k. last_of k (end_of k y) ys) at_e,
        )

-- Taking the block at `q` turns its chunk into what `carve` says, and leaves the rest of the heap.
pub take_block-Carved :
    (h : Heap) (pv q size : ℕ) (b : Chunk) (ys : List Chunk)
    → 0 < q
    → size ≤ b.size
    → end_of q b < 2 ^ 32
    → Layout h.blocks 0 pv q (b ∷ ys)
    → h.heap_end ≡ last_of pv q (b ∷ ys)
    → Carved pv q size b ys h (take_block q size h)
take_block-Carved h pv q size b ys pos enough small l ends =
    elim (Bool-cases (leb b.size (size + 16))) [
      | inl whole ↦ take_whole h pv q size b pos ys l ends (rw no_wrap whole) whole
      | inr part ↦ split_Carved ys l ends part (rw no_wrap part)
    ]
  where
    no_wrap : add32 size 16 ≡ size + 16
    no_wrap = omega arith

    split_Carved :
        (ys : List Chunk)
        → Layout h.blocks 0 pv q (b ∷ ys)
        → h.heap_end ≡ last_of pv q (b ∷ ys)
        → leb b.size (size + 16) ≡ false
        → leb b.size (add32 size 16) ≡ false
        → Carved pv q size b ys h (take_block q size h)
    split_Carved [] l ends part part' =
        let r = take_part-nil h pv q size b pos part' (ground arith) small l in
        record { same = r.0; layout = rw part r.1; ends = rw part r.2 }
    split_Carved (y ∷ ys) l ends part part' =
        let r = take_part-cons h pv q size b pos part' (ground arith) small y ys l ends in
        record { same = r.0; layout = rw part r.1; ends = rw part r.2 }
