-- ===== src/Memory/Release.antt =====
-- What freeing a block does to the list of chunks: `kfree` of memory.c, seen from outside.
use aether_os.Base.{◌+◌, ◌≡◌, refl, true, if◌then◌else◌, List, [], ◌∷◌, ◌++◌, arith}
use aether_os.Memory.Layout.{Chunk, span, span-append}
use aether_os.Memory.Absorb.{grow}

abbrev pub freed : Chunk → Chunk
freed b = record b { free = true }

-- A free chunk takes in the chunk behind it if that is free.
abbrev pub joined : Chunk → List Chunk → Chunk
joined c [] = c
joined c (y ∷ ys) = if y.free then grow c y else c

abbrev pub unjoined : List Chunk → List Chunk
unjoined [] = []
unjoined (y ∷ ys) = if y.free then ys else y ∷ ys

abbrev pub join_next : Chunk → List Chunk → List Chunk
join_next c ys = joined c ys ∷ unjoined ys

-- the chunks `xs`, then the first of `cs`, joined to the last of `xs` if that is free
abbrev pub join_prev : List Chunk → List Chunk → List Chunk
join_prev xs [] = xs
join_prev [] (c ∷ cs) = c ∷ cs
join_prev (x ∷ []) (c ∷ cs) = if x.free then grow x c ∷ cs else x ∷ c ∷ cs
join_prev (x ∷ y ∷ xs) (c ∷ cs) = x ∷ join_prev (y ∷ xs) (c ∷ cs)

-- What becomes of the chunks `xs`, `b`, `ys` when `b` is freed.
abbrev pub release : List Chunk → Chunk → List Chunk → List Chunk
release xs b ys = join_prev xs (join_next (freed b) ys)

pub join_prev_free :
    (x c : Chunk) (cs : List Chunk) → x.free ≡ true → (grow x c ∷ cs) ≡ join_prev (x ∷ []) (c ∷ cs)
join_prev_free x c cs free = ground arith

pub span-unjoined : (c : Chunk) (ys : List Chunk) → span (join_next c ys) ≡ span (c ∷ ys)
span-unjoined c [] = refl
span-unjoined c (y ∷ ys) = ground arith

span-join_prev :
    (xs : List Chunk) (c : Chunk) (cs : List Chunk)
    → span (join_prev xs (c ∷ cs)) ≡ span xs + span (c ∷ cs)
span-join_prev [] c cs = omega arith
span-join_prev (x ∷ []) c cs = ground arith
span-join_prev (x ∷ y ∷ xs) c cs = omega (arith, span-join_prev (y ∷ xs) c cs)

-- Freeing keeps the bytes of the heap.
pub span-release :
    (xs : List Chunk) (b : Chunk) (ys : List Chunk) → span (release xs b ys) ≡ span (xs ++ (b ∷ ys))
span-release xs b ys = omega (
  arith,
  span-join_prev xs (joined (freed b) ys) (unjoined ys),
  span-unjoined (freed b) ys,
  span-append xs (b ∷ ys),
)
