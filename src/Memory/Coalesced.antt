-- ===== src/Memory/Coalesced.antt =====
-- No two neighbours are both free: what `merge_free_blocks` of memory.c is for.
use aether_os.Base.{
  ℕ, ◌≡◌, refl, true, false, ◌&&◌, List, [], ◌∷◌, ◌++◌, arith, ap, subst, sym, some,
}
use aether_os.Memory.Layout.{Chunk}
use aether_os.Memory.Alloc.{carve, alloc, alloc-Taken}
use aether_os.Memory.Release.{freed, joined, unjoined, join_next, join_prev, release}

abbrev pub Apart : Chunk → List Chunk → Type 0
Apart c [] = Unit {0}
Apart c (d ∷ ds) = (c.free && d.free) ≡ false

abbrev pub Coalesced : List Chunk → Type 0
Coalesced [] = Unit {0}
Coalesced (c ∷ cs) = Apart c cs × Coalesced cs

pub Coalesced-append : (xs ys : List Chunk) → Coalesced (xs ++ ys) → Coalesced xs × Coalesced ys
Coalesced-append [] ys h = (tt, h)
Coalesced-append (x ∷ []) ys h = ((tt, tt), h.1)
Coalesced-append (x ∷ y ∷ xs) ys h = let r = Coalesced-append (y ∷ xs) ys h.1 in ((h.0, r.0), r.1)

carve-Coalesced :
    (size : ℕ) (b : Chunk) (xs ys : List Chunk)
    → b.free ≡ true
    → Coalesced (xs ++ (b ∷ ys))
    → Coalesced (xs ++ carve size b ys)
carve-Coalesced size b [] [] free h = ground arith
carve-Coalesced size b [] (y ∷ ys) free h = ground arith
carve-Coalesced size b (x ∷ []) ys free h = ground (arith, carve-Coalesced size b [] ys free h.1)
carve-Coalesced size b (x ∷ y ∷ xs) ys free h = (h.0, carve-Coalesced size b (y ∷ xs) ys free h.1)

-- First-fit allocation keeps free chunks apart.
pub alloc-Coalesced :
    (size : ℕ) (cs : List Chunk) {o : ℕ} {cs' : List Chunk}
    → Coalesced cs
    → alloc size cs ≡ some (o, cs')
    → Coalesced cs'
alloc-Coalesced size cs h e =
    let t = alloc-Taken size cs e in
    subst Coalesced (sym t.to)
      (carve-Coalesced size t.chunk t.before t.after t.free (subst Coalesced t.from h))

join_next-Coalesced :
    (c : Chunk) (ys : List Chunk) → Coalesced ys → Coalesced (join_next (freed c) ys)
join_next-Coalesced c [] h = (tt, tt)
join_next-Coalesced c (y ∷ []) h = ground arith
join_next-Coalesced c (y ∷ z ∷ ys) h = ground arith

Apart-join_prev :
    (x y : Chunk) (xs : List Chunk) (c : Chunk) (cs : List Chunk)
    → (x.free && y.free) ≡ false
    → Apart x (join_prev (y ∷ xs) (c ∷ cs))
Apart-join_prev x y [] c cs h = ground arith
Apart-join_prev x y (z ∷ xs) c cs h = h

join_prev-Coalesced :
    (xs : List Chunk) (c : Chunk) (cs : List Chunk)
    → c.free ≡ true
    → Coalesced xs
    → Coalesced (c ∷ cs)
    → Coalesced (join_prev xs (c ∷ cs))
join_prev-Coalesced [] c cs free hx hc = hc
join_prev-Coalesced (x ∷ []) c [] free hx hc = ground arith
join_prev-Coalesced (x ∷ []) c (d ∷ ds) free hx hc = ground arith
join_prev-Coalesced (x ∷ y ∷ xs) c cs free hx hc =
    (Apart-join_prev x y xs c cs hx.0, join_prev-Coalesced (y ∷ xs) c cs free hx.1 hc)

joined-free : (c : Chunk) (ys : List Chunk) → (joined (freed c) ys).free ≡ true
joined-free c [] = refl
joined-free c (y ∷ ys) = ground arith

-- Freeing a chunk keeps free chunks apart.
pub release-Coalesced :
    (xs : List Chunk) (b : Chunk) (ys : List Chunk)
    → Coalesced (xs ++ (b ∷ ys))
    → Coalesced (release xs b ys)
release-Coalesced xs b ys h =
    let parts = Coalesced-append xs (b ∷ ys) h in
    join_prev-Coalesced xs (joined (freed b) ys) (unjoined ys) (joined-free b ys) parts.0
      (join_next-Coalesced b ys (parts.1).1)

pub join_next-Apart :
    (b : Chunk) (ys : List Chunk) → b.free ≡ true → Apart b ys → join_next b ys ≡ b ∷ ys
join_next-Apart b [] free h = refl
join_next-Apart b (y ∷ ys) free h = ground arith

pub join_prev-Apart :
    (xs : List Chunk) (b : Chunk) (ys : List Chunk)
    → b.free ≡ true
    → Coalesced (xs ++ (b ∷ ys))
    → join_prev xs (b ∷ ys) ≡ xs ++ (b ∷ ys)
join_prev-Apart [] b ys free h = refl
join_prev-Apart (x ∷ []) b ys free h = ground arith
join_prev-Apart (x ∷ y ∷ xs) b ys free h = ap (λ l. x ∷ l) (join_prev-Apart (y ∷ xs) b ys free h.1)
