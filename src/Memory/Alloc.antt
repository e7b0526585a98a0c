-- ===== src/Memory/Alloc.antt =====
-- First-fit allocation on the list of chunks: what `kmalloc` promises, and where
-- `find_free_block` of memory.c finds the chunk.
use aether_os.Base.{
  ℕ, zero, suc, ◌+◌, ◌-◌, ◌≤◌, ◌<◌, ◌≡◌, refl, Bool, true, false, ◌&&◌, leb, if◌then◌else◌, List,
  [], ◌∷◌, ◌++◌, Option, none, some, arith, length, Bool-cases, ap, inl, inr,
}
use aether_os.Memory.{Blocks, find_free_block}
use aether_os.Memory.Layout.{Chunk, end_of, span, next_of, Layout}

abbrev pub used : ℕ → Chunk
used n = record { size = n; free = false }

abbrev pub unused : ℕ → Chunk
unused n = record { size = n; free = true }

abbrev pub fits : ℕ → Chunk → Bool
fits size c = c.free && leb size c.size

-- What becomes of the chunk: the rest is split off where it has room for a header and a byte.
abbrev pub carve : ℕ → Chunk → List Chunk → List Chunk
carve size c cs =
    if leb c.size (size + 16)
    then used c.size ∷ cs
    else used size ∷ unused (c.size - size - 16) ∷ cs

-- a result on the chunks behind `c`, as one on all of them
abbrev pub behind : Chunk → Option (ℕ × List Chunk) → Option (ℕ × List Chunk)
behind c none = none
behind c (some (o, cs)) = some (16 + c.size + o, c ∷ cs)

-- The first chunk that fits: its offset, and the chunks afterwards.
unfoldable pub alloc : ℕ → List Chunk → Option (ℕ × List Chunk)
alloc size [] = none
alloc size (c ∷ cs) = if fits size c then some (0, carve size c cs) else behind c (alloc size cs)

-- The chunk that an allocation takes, with the chunks before and behind it.
pub record Taken (size : ℕ) (cs : List Chunk) (o : ℕ) (cs' : List Chunk) : Type 0 where
  pub before : List Chunk
  pub chunk : Chunk
  pub after : List Chunk
  pub from : cs ≡ before ++ (chunk ∷ after)
  pub to : cs' ≡ before ++ carve size chunk after
  pub offset : o ≡ span before
  pub free : chunk.free ≡ true
  pub enough : size ≤ chunk.size

Taken-behind :
    (size : ℕ) (c : Chunk) (cs : List Chunk) (r : Option (ℕ × List Chunk)) {o : ℕ}
    {cs' : List Chunk}
    → ((o' : ℕ) (cs'' : List Chunk) → r ≡ some (o', cs'') → Taken size cs o' cs'')
    → behind c r ≡ some (o, cs')
    → Taken size (c ∷ cs) o cs'
Taken-behind size c cs none ih e = absurd (cc)
Taken-behind size c cs (some (o', cs'')) ih e =
    let t = ih o' cs'' refl in
    record {
      before = c ∷ t.before;
      chunk = t.chunk;
      after = t.after;
      from = ap (λ l. c ∷ l) t.from;
      to = ground (arith, t.to);
      offset = ground (arith, t.offset);
      free = t.free;
      enough = t.enough;
    }

pub alloc-Taken :
    (size : ℕ) (cs : List Chunk) {o : ℕ} {cs' : List Chunk}
    → alloc size cs ≡ some (o, cs')
    → Taken size cs o cs'
unfolding alloc
alloc-Taken size [] e = absurd (cc)
alloc-Taken size (c ∷ cs) {o} {cs'} e = elim (Bool-cases (fits size c)) [
  | inl hit ↦ record {
    before = [];
    chunk = c;
    after = cs;
    from = refl;
    to = ground arith;
    offset = ground arith;
    free = ground arith;
    enough = ground arith;
  }
  | inr miss ↦
      Taken-behind size c cs (alloc size cs) (λ o' cs'' p. alloc-Taken size cs p) (rw miss at e)
]

abbrev pub found_at : ℕ → Option (ℕ × List Chunk) → ℕ
found_at p none = 0
found_at p (some r) = p + r.0

found_at-behind :
    (p : ℕ) (c : Chunk) (r : Option (ℕ × List Chunk))
    → found_at p (behind c r) ≡ found_at (end_of p c) r
found_at-behind p c none = refl
found_at-behind p c (some (o, cs)) = omega arith

-- The walk over the headers meets the chunk that `alloc` takes.
pub find_free_block-alloc :
    (fuel size prev p : ℕ) (m : Blocks) (cs : List Chunk)
    → Layout m 0 prev p cs
    → 0 < p
    → length cs < fuel
    → find_free_block fuel m size (next_of 0 p cs) ≡ found_at p (alloc size cs)
unfolding find_free_block alloc
find_free_block-alloc zero size prev p m cs l pos h = absurd (omega arith)
find_free_block-alloc (suc fuel) size prev p m [] l pos h = refl
find_free_block-alloc (suc fuel) size prev p m (c ∷ cs) l pos h =
    let rest =
      find_free_block-alloc fuel size p (end_of p c) m cs l.1 (omega arith) (omega arith) in
    rw (l.0) (ground (arith, rest, found_at-behind p c (alloc size cs)))
