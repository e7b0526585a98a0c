-- ===== src/Memory/Absorb.antt =====
-- `merge_free_blocks` of memory.c: each half lets the left one of two neighbours absorb the right
-- one, by the same assignments.
use aether_os.Base.{
  ℕ, ◌+◌, ◌≤◌, ◌<◌, ◌^◌, ◌≡◌, true, false, List, [], ◌∷◌, arith, ap, ◌∙◌, subst, sym, ==_ne,
}
use aether_os.Base.Words.{add32}
use aether_os.Memory.{Heap, MemoryBlock, set_size, set_next, set_prev, merge_next, merge_prev}
use aether_os.Memory.Store.{
  modify_self, modify_ne, modify-end, SameBefore, SameBefore-modify, SameBefore-end,
  SameBefore_refl,
}
use aether_os.Memory.Layout.{Chunk, end_of, next_of, last_of, header, Layout, Layout-frame}

-- `a` with the bytes of the chunk `c` behind it, header included
abbrev pub grow : Chunk → Chunk → Chunk
grow a c = record a { size = a.size + 16 + c.size }

abbrev absorb_last : ℕ → ℕ → Heap → Heap
absorb_last p s h = set_next p 0 (record (set_size p s h) { heap_end = p })

abbrev absorb_inner : ℕ → ℕ → ℕ → Heap → Heap
absorb_inner p e s h = set_next p e (set_prev e p (set_size p s h))

-- What absorbing the chunk behind `p` makes of the chunks from `p` on.
pub record Absorbed (pv p : ℕ) (a c : Chunk) (ys : List Chunk) (h h' : Heap) : Type 0 where
  pub same : SameBefore p h h'
  pub layout : Layout h'.blocks 0 pv p (grow a c ∷ ys)
  pub ends : h'.heap_end ≡ last_of pv p (grow a c ∷ ys)

module _ (h : Heap) (pv p : ℕ) (a c : Chunk) (pos : 0 < p) where
  grow_self :
      (nx : ℕ) (k : MemoryBlock)
      → k ≡ header a (end_of p a) pv
      → record k { size = (grow a c).size; next = nx } ≡ header (grow a c) nx pv
  grow_self nx k e = ap (λ (k : MemoryBlock). record k { size = (grow a c).size; next = nx }) e

  absorb_last-Absorbed :
      Layout h.blocks 0 pv p (a ∷ c ∷ []) → Absorbed pv p a c [] h (absorb_last p (grow a c).size h)
  absorb_last-Absorbed l = record {
    same =
        SameBefore-modify p p _ h _ (omega arith) (
          SameBefore-end p p h _ (SameBefore-modify p p _ h h (omega arith) (SameBefore_refl p h)));
    layout = (
      modify_self p _ _
          ∙ ap (λ (k : MemoryBlock). record k { next = 0 }) (modify_self p _ h)
          ∙ grow_self 0 _ l.0,
      tt,
    );
    ends = modify-end p _ _;
  }

  absorb_inner-Absorbed :
      (y : Chunk) (ys : List Chunk)
      → Layout h.blocks 0 pv p (a ∷ c ∷ y ∷ ys)
      → h.heap_end ≡ last_of pv p (a ∷ c ∷ y ∷ ys)
      → Absorbed pv p a c (y ∷ ys) h (absorb_inner p (end_of (end_of p a) c) (grow a c).size h)
  absorb_inner-Absorbed y ys l ends =
      let s = (grow a c).size in
      let e = end_of (end_of p a) c in
      let h1 = set_size p s h in
      let h2 = set_prev e p h1 in
      let h' = set_next p e h2 in
      let at_e : e ≡ end_of p (grow a c) = omega arith in
      let old : (x : ℕ) → end_of e y ≤ x → h'.blocks x ≡ h.blocks x = λ x ge.
        modify_ne p _ h2 x (omega arith)
        ∙ modify_ne e _ h1 x (omega arith)
        ∙ modify_ne p _ h x (omega arith) in
      let at_y : h'.blocks e ≡ header y (next_of 0 (end_of e y) ys) p =
        modify_ne p _ h2 e (omega arith)
        ∙ modify_self e _ h1
        ∙ ap (λ (k : MemoryBlock). record k { prev = p })
            (modify_ne p _ h e (omega arith) ∙ ((l.1).1).0) in
      let at_p : h'.blocks p ≡ header (grow a c) e pv =
        modify_self p _ h2
        ∙ ap (λ (k : MemoryBlock). record k { next = e })
            (modify_ne e _ h1 p (omega arith) ∙ modify_self p _ h)
        ∙ grow_self e _ l.0 in
      record {
        same = SameBefore-modify p p _ h h2 (omega arith) (
            SameBefore-modify p e _ h h1 (omega arith)
              (SameBefore-modify p p _ h h (omega arith) (SameBefore_refl p h)));
        layout =
            subst (λ k. (h'.blocks p ≡ header (grow a c) k pv) × Layout h'.blocks 0 p k (y ∷ ys))
              at_e
              (
                at_p,
                (
                  at_y,
                  Layout-frame h.blocks h'.blocks 0 e (end_of e y) ys (λ x ge lt. old x ge)
                      ((l.1).1).1,
                ),
              );
        ends =
            modify-end p _ h2
            ∙ modify-end e _ h1
            ∙ modify-end p _ h
            ∙ ends
            ∙ ap (λ k. last_of k (end_of k y) ys) at_e;
      }

  -- Both halves come down to these assignments.
  module _ (small : end_of (end_of p a) c < 2 ^ 32) where
    grown : add32 a.size (add32 16 c.size) ≡ (grow a c).size
    grown = omega arith

    merge_next-last :
        c.free ≡ true
        → Layout h.blocks 0 pv p (a ∷ c ∷ [])
        → merge_next p h ≡ absorb_last p (grow a c).size h
    unfolding merge_next
    merge_next-last free l =
        let e = end_of p a in
        rw (
          l.0,
          (l.1).0,
          ==_ne e 0 (omega arith),
          free,
          grown,
          modify_ne p _ h e (omega arith),
          (l.1).0,
          modify_ne p _ h e (omega arith),
          (l.1).0,
        )

    merge_prev-last :
        a.free ≡ true
        → Layout h.blocks 0 pv p (a ∷ c ∷ [])
        → merge_prev (end_of p a) h ≡ absorb_last p (grow a c).size h
    unfolding merge_prev
    merge_prev-last free l =
        let e = end_of p a in
        rw (
          (l.1).0,
          l.0,
          ==_ne p 0 (omega arith),
          free,
          grown,
          modify_ne p _ h e (omega arith),
          (l.1).0,
          modify_ne p _ h e (omega arith),
          (l.1).0,
        )

    merge_next-inner :
        (y : Chunk) (ys : List Chunk)
        → c.free ≡ true
        → Layout h.blocks 0 pv p (a ∷ c ∷ y ∷ ys)
        → merge_next p h ≡ absorb_inner p (end_of (end_of p a) c) (grow a c).size h
    unfolding merge_next
    merge_next-inner y ys free l =
        let e = end_of p a in
        rw (
          l.0,
          (l.1).0,
          ==_ne e 0 (omega arith),
          free,
          grown,
          modify_ne p _ h e (omega arith),
          (l.1).0,
          ==_ne (end_of e c) 0 (omega arith),
          modify_ne (end_of e c) _ _ e (omega arith),
          modify_ne p _ h e (omega arith),
          (l.1).0,
        )

    merge_prev-inner :
        (y : Chunk) (ys : List Chunk)
        → a.free ≡ true
        → Layout h.blocks 0 pv p (a ∷ c ∷ y ∷ ys)
        → merge_prev (end_of p a) h ≡ absorb_inner p (end_of (end_of p a) c) (grow a c).size h
    unfolding merge_prev
    merge_prev-inner y ys free l =
        let e = end_of p a in
        rw (
          (l.1).0,
          l.0,
          ==_ne p 0 (omega arith),
          free,
          grown,
          modify_ne p _ h e (omega arith),
          (l.1).0,
          ==_ne (end_of e c) 0 (omega arith),
          modify_ne (end_of e c) _ _ e (omega arith),
          modify_ne p _ h e (omega arith),
          (l.1).0,
        )

    -- A block whose successor is free absorbs it, wherever the list goes on.
    pub merge_next-Absorbed :
        (ys : List Chunk)
        → c.free ≡ true
        → Layout h.blocks 0 pv p (a ∷ c ∷ ys)
        → h.heap_end ≡ last_of pv p (a ∷ c ∷ ys)
        → Absorbed pv p a c ys h (merge_next p h)
    merge_next-Absorbed [] free l ends =
        subst (Absorbed pv p a c [] h) (sym (merge_next-last free l)) (absorb_last-Absorbed l)
    merge_next-Absorbed (y ∷ ys) free l ends =
        subst (Absorbed pv p a c (y ∷ ys) h) (sym (merge_next-inner y ys free l))
          (absorb_inner-Absorbed y ys l ends)

    -- A free block absorbs the block that was freed behind it.
    pub merge_prev-Absorbed :
        (ys : List Chunk)
        → a.free ≡ true
        → Layout h.blocks 0 pv p (a ∷ c ∷ ys)
        → h.heap_end ≡ last_of pv p (a ∷ c ∷ ys)
        → Absorbed pv p a c ys h (merge_prev (end_of p a) h)
    merge_prev-Absorbed [] free l ends =
        subst (Absorbed pv p a c [] h) (sym (merge_prev-last free l)) (absorb_last-Absorbed l)
    merge_prev-Absorbed (y ∷ ys) free l ends =
        subst (Absorbed pv p a c (y ∷ ys) h) (sym (merge_prev-inner y ys free l))
          (absorb_inner-Absorbed y ys l ends)

-- Where the neighbour is missing or in use, the half does nothing.
pub merge_next-used :
    (h : Heap) (pv p : ℕ) (a c : Chunk) (ys : List Chunk)
    → c.free ≡ false
    → Layout h.blocks 0 pv p (a ∷ c ∷ ys)
    → merge_next p h ≡ h
unfolding merge_next
merge_next-used h pv p a c ys taken l = rw (l.0, (l.1).0, ==_ne (end_of p a) 0 (omega arith), taken)

pub merge_next-end :
    (h : Heap) (pv p : ℕ) (a : Chunk) → Layout h.blocks 0 pv p (a ∷ []) → merge_next p h ≡ h
unfolding merge_next
merge_next-end h pv p a l = rw (l.0)

pub merge_prev-used :
    (h : Heap) (pv p : ℕ) (a c : Chunk) (ys : List Chunk)
    → 0 < p
    → a.free ≡ false
    → Layout h.blocks 0 pv p (a ∷ c ∷ ys)
    → merge_prev (end_of p a) h ≡ h
unfolding merge_prev
merge_prev-used h pv p a c ys pos taken l = rw ((l.1).0, l.0, ==_ne p 0 (omega arith), taken)

pub merge_prev-start :
    (h : Heap) (p : ℕ) (a : Chunk) (ys : List Chunk)
    → Layout h.blocks 0 0 p (a ∷ ys)
    → merge_prev p h ≡ h
unfolding merge_prev
merge_prev-start h p a ys l = rw (l.0)
