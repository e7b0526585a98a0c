-- ===== src/Memory/Merge.antt =====
-- `merge_free_blocks` of memory.c, its two halves on the list of chunks.
use aether_os.Base.{
  ℕ, ◌+◌, ◌<◌, ◌^◌, ◌≡◌, refl, true, List, [], ◌∷◌, ◌++◌, arith, ap, ◌∙◌, subst, sym, Bool-cases,
  inl, inr,
}
use aether_os.Memory.{Heap, MemoryBlock, merge_next, merge_prev, set_is_free}
use aether_os.Memory.Store.{
  SameBefore, SameBefore-modify, SameBefore_refl, modify_self, modify_ne, modify-end,
}
use aether_os.Memory.Layout.{
  Chunk, end_of, span, next_of, last_of, header, Layout, last_of-append, Layout-split, Layout-join,
  Layout-frame,
}
use aether_os.Memory.Release.{freed, join_next, join_prev, join_prev_free}
use aether_os.Memory.Absorb.{
  merge_next-Absorbed, merge_prev-Absorbed, merge_next-used, merge_next-end, merge_prev-used,
  merge_prev-start,
}

-- A state in which an operation has turned the chunks from `p` on into `cs`.
pub record Becomes (pv p : ℕ) (cs : List Chunk) (h h' : Heap) : Type 0 where
  pub same : SameBefore p h h'
  pub layout : Layout h'.blocks 0 pv p cs
  pub ends : h'.heap_end ≡ last_of pv p cs

pub Becomes-trans :
    (pv p : ℕ) (cs ds : List Chunk) (h h' h'' : Heap)
    → Becomes pv p cs h h'
    → Becomes pv p ds h' h''
    → Becomes pv p ds h h''
Becomes-trans pv p cs ds h h' h'' s t = record {
  same = record {
    blocks = λ a lt. t.same.blocks a lt ∙ s.same.blocks a lt;
    heap_start = t.same.heap_start ∙ s.same.heap_start;
    total = t.same.total ∙ s.same.total;
    initialized = t.same.initialized ∙ s.same.initialized;
  };
  layout = t.layout;
  ends = t.ends;
}

Becomes-stays :
    (pv p : ℕ) (cs : List Chunk) (h h' : Heap)
    → Layout h.blocks 0 pv p cs
    → h.heap_end ≡ last_of pv p cs
    → h' ≡ h
    → Becomes pv p cs h h'
Becomes-stays pv p cs h h' l ends e =
    subst (Becomes pv p cs h) (sym e)
      (record { same = SameBefore_refl p h; layout = l; ends = ends })

-- Marking the block free.
pub set_is_free-Becomes :
    (h : Heap) (pv q : ℕ) (b : Chunk) (ys : List Chunk)
    → Layout h.blocks 0 pv q (b ∷ ys)
    → h.heap_end ≡ last_of pv q (b ∷ ys)
    → Becomes pv q (freed b ∷ ys) h (set_is_free q true h)
set_is_free-Becomes h pv q b ys l ends = record {
  same = SameBefore-modify q q _ h h (omega arith) (SameBefore_refl q h);
  layout = (
    modify_self q _ h ∙ ap (λ (k : MemoryBlock). record k { is_free = true }) l.0,
    Layout-frame h.blocks _ 0 q (end_of q b) ys (λ a ge lt. modify_ne q _ h a (omega arith)) l.1,
  );
  ends = modify-end q _ h ∙ ends;
}

pub merge_next-Becomes :
    (h : Heap) (pv q : ℕ) (c : Chunk) (ys : List Chunk)
    → 0 < q
    → q + span (c ∷ ys) < 2 ^ 32
    → Layout h.blocks 0 pv q (c ∷ ys)
    → h.heap_end ≡ last_of pv q (c ∷ ys)
    → Becomes pv q (join_next c ys) h (merge_next q h)
merge_next-Becomes h pv q c [] pos small l ends =
    Becomes-stays pv q (c ∷ []) h _ l ends (merge_next-end h pv q c l)
merge_next-Becomes h pv q c (y ∷ ys) pos small l ends = elim (Bool-cases y.free) [
  | inl free ↦
      let r = merge_next-Absorbed h pv q c y pos (omega arith) ys free l ends in
      simp free (record { same = r.same; layout = r.layout; ends = r.ends })
  | inr taken ↦
      simp taken
        (Becomes-stays pv q (c ∷ y ∷ ys) h _ l ends (merge_next-used h pv q c y ys taken l))
]

next_of-join_prev :
    (nx q : ℕ) (x : Chunk) (xs : List Chunk) (c : Chunk) (cs : List Chunk)
    → next_of nx q (join_prev (x ∷ xs) (c ∷ cs)) ≡ q
next_of-join_prev nx q x [] c cs = ground arith
next_of-join_prev nx q x (y ∷ xs) c cs = refl

-- The block at `q`, behind at least one chunk, joins the chunk before it.
merge_prev-Becomes :
    (h : Heap) (pv p q : ℕ) (x : Chunk) (xs : List Chunk) (c : Chunk) (cs : List Chunk)
    → 0 < p
    → q ≡ p + span (x ∷ xs)
    → p + span (x ∷ xs) + span (c ∷ cs) < 2 ^ 32
    → Layout h.blocks 0 pv p (x ∷ (xs ++ (c ∷ cs)))
    → h.heap_end ≡ last_of pv p (x ∷ (xs ++ (c ∷ cs)))
    → Becomes pv p (join_prev (x ∷ xs) (c ∷ cs)) h (merge_prev q h)
merge_prev-Becomes h pv p q x [] c cs pos at small l ends =
    subst (λ k. Becomes pv p (join_prev (x ∷ []) (c ∷ cs)) h (merge_prev k h))
      (let e : end_of p x ≡ q = omega arith in e)
      (elim (Bool-cases x.free) [
        | inl free ↦
            let r = merge_prev-Absorbed h pv p x c pos (omega arith) cs free l ends in
            subst (λ k. Becomes pv p k h (merge_prev (end_of p x) h)) (join_prev_free x c cs free)
              (record { same = r.same; layout = r.layout; ends = r.ends })
        | inr taken ↦
            simp taken (
              Becomes-stays pv p (x ∷ c ∷ cs) h _ l ends
                (merge_prev-used h pv p x c cs pos taken l))
      ])
merge_prev-Becomes h pv p q x (y ∷ xs) c cs pos at small l ends =
    let r =
      merge_prev-Becomes h p (end_of p x) q y xs c cs (omega arith) (omega arith) (omega arith) l.1
        ends in
    record {
      same = record {
        blocks = λ a lt. r.same.blocks a (omega arith);
        heap_start = r.same.heap_start;
        total = r.same.total;
        initialized = r.same.initialized;
      };
      layout = (
        r.same.blocks p (omega arith)
            ∙ l.0
            ∙ ap (λ k. header x k pv) (sym (next_of-join_prev 0 (end_of p x) y xs c cs)),
        r.layout,
      );
      ends = r.ends;
    }

-- A change from `q` on is one of the whole list.
pub Becomes-front :
    (h h' : Heap) (pv p q : ℕ) (xs : List Chunk) (b : Chunk) (ys : List Chunk) (c : Chunk)
    (cs : List Chunk)
    → q ≡ p + span xs
    → Layout h.blocks 0 pv p (xs ++ (b ∷ ys))
    → Becomes (last_of pv p xs) q (c ∷ cs) h h'
    → Becomes pv p (xs ++ (c ∷ cs)) h h'
Becomes-front h h' pv p q xs b ys c cs at l r =
    let parts = Layout-split h.blocks 0 pv p q xs (b ∷ ys) at l in
    record {
      same = record {
        blocks = λ a lt. r.same.blocks a (omega arith);
        heap_start = r.same.heap_start;
        total = r.same.total;
        initialized = r.same.initialized;
      };
      layout =
          Layout-join h'.blocks 0 pv p q xs (c ∷ cs) at
            (Layout-frame h.blocks h'.blocks q pv p xs (λ a ge lt. r.same.blocks a (omega arith))
              parts.0)
            r.layout;
      ends = r.ends ∙ sym (last_of-append pv p q xs c cs at);
    }

pub merge_prev-all :
    (h : Heap) (p q : ℕ) (xs : List Chunk) (c : Chunk) (cs : List Chunk)
    → 0 < p
    → q ≡ p + span xs
    → p + span xs + span (c ∷ cs) < 2 ^ 32
    → Layout h.blocks 0 0 p (xs ++ (c ∷ cs))
    → h.heap_end ≡ last_of 0 p (xs ++ (c ∷ cs))
    → Becomes 0 p (join_prev xs (c ∷ cs)) h (merge_prev q h)
merge_prev-all h p q [] c cs pos at small l ends =
    subst (λ k. Becomes 0 p (c ∷ cs) h (merge_prev k h)) (let e : p ≡ q = omega arith in e)
      (Becomes-stays 0 p (c ∷ cs) h _ l ends (merge_prev-start h p c cs l))
merge_prev-all h p q (x ∷ xs) c cs pos at small l ends =
    merge_prev-Becomes h 0 p q x xs c cs pos at small l ends
