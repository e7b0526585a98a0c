-- ===== src/Memory/Stats.antt =====
-- `memory_get_stats` and `memory_get_available` of memory.c.
use aether_os.Base.{
  ℕ, zero, suc, ◌+◌, ◌*◌, ◌<◌, ◌^◌, ◌≡◌, refl, if◌then◌else◌, ◌==◌, List, [], ◌∷◌, arith, ap, ◌∙◌,
  sym, length, Bool-cases, inl, inr, ==_ne,
}
use aether_os.Base.Words.{add32}
use aether_os.Memory.{Blocks, Heap, max_blocks}
use aether_os.Memory.Layout.{Chunk, end_of, span, next_of, Layout, IsHeap, length-le-span}
use aether_os.Memory.Kmalloc.{next_of-pos}

-- `memory_stats_t`
pub record MemoryStats : Type 0 where
  pub total_memory : ℕ
  pub used_memory : ℕ
  pub free_memory : ℕ
  pub allocated_blocks : ℕ
  pub free_blocks : ℕ

abbrev pub count_free : ℕ → MemoryStats → MemoryStats
count_free size st = record st {
  free_memory = add32 st.free_memory size;
  free_blocks = add32 st.free_blocks 1;
}

abbrev pub count_used : ℕ → MemoryStats → MemoryStats
count_used size st = record st {
  used_memory = add32 st.used_memory size;
  allocated_blocks = add32 st.allocated_blocks 1;
}

-- The loop over the list, on fuel.
unfoldable pub collect : ℕ → Blocks → ℕ → MemoryStats → MemoryStats
collect zero m current st = st
collect (suc fuel) m current st =
    let rest = collect fuel m (m current).next (
      if (m current).is_free
      then count_free (m current).size st
      else count_used (m current).size st) in
    if current == 0 then st else rest

-- `stats` is what the caller's record held before.
unfoldable pub memory_get_stats : Heap → MemoryStats → MemoryStats
memory_get_stats h stats =
    if h.heap_initialized
    then collect (max_blocks h) h.blocks h.heap_start (record {
      total_memory = h.total_heap_size;
      used_memory = 0;
      free_memory = 0;
      allocated_blocks = 0;
      free_blocks = 0;
    })
    else stats

-- `memory_get_available`; `stats` is the uninitialised local variable.
unfoldable pub memory_get_available : Heap → MemoryStats → ℕ
memory_get_available h stats = (memory_get_stats h stats).free_memory

abbrev add_free : ℕ → MemoryStats → MemoryStats
add_free size st = record st {
  free_memory = st.free_memory + size;
  free_blocks = st.free_blocks + 1;
}

abbrev add_used : ℕ → MemoryStats → MemoryStats
add_used size st = record st {
  used_memory = st.used_memory + size;
  allocated_blocks = st.allocated_blocks + 1;
}

-- The statistics of a list of chunks, added to those of `st`.
abbrev pub tally : List Chunk → MemoryStats → MemoryStats
tally [] st = st
tally (c ∷ cs) st = tally cs (if c.free then add_free c.size st else add_used c.size st)

abbrev pub weight : MemoryStats → ℕ
weight st = st.used_memory + st.free_memory + 16 * (st.allocated_blocks + st.free_blocks)

weight-tally : (cs : List Chunk) (st : MemoryStats) → weight (tally cs st) ≡ weight st + span cs
weight-tally [] st = omega arith
weight-tally (c ∷ cs) st = elim (Bool-cases c.free) [
  | inl free ↦ simp free (omega (arith, weight-tally cs (add_free c.size st)))
  | inr taken ↦ simp taken (omega (arith, weight-tally cs (add_used c.size st)))
]

-- The loop counts every chunk once, and no sum wraps.
collect-tally :
    (fuel prev p : ℕ) (m : Blocks) (cs : List Chunk) (st : MemoryStats)
    → Layout m 0 prev p cs
    → 0 < p
    → length cs < fuel
    → weight st + span cs < 2 ^ 32
    → collect fuel m (next_of 0 p cs) st ≡ tally cs st
unfolding collect
collect-tally zero prev p m cs st l pos h small = absurd (omega arith)
collect-tally (suc fuel) prev p m [] st l pos h small = refl
collect-tally (suc fuel) prev p m (c ∷ cs) st l pos h small =
    let q = end_of p c in
    elim (Bool-cases c.free) [
      | inl free ↦
          let e : count_free c.size st ≡ add_free c.size st = ground arith in
          rw (l.0) (
            simp (free, ==_ne p 0 (omega arith), e)
              (collect-tally fuel p q m cs (add_free c.size st) l.1 (omega arith) (omega arith)
                (omega arith)))
      | inr taken ↦
          let e : count_used c.size st ≡ add_used c.size st = ground arith in
          rw (l.0) (
            simp (taken, ==_ne p 0 (omega arith), e)
              (collect-tally fuel p q m cs (add_used c.size st) l.1 (omega arith) (omega arith)
                (omega arith)))
    ]

abbrev pub fresh_stats : ℕ → MemoryStats
fresh_stats total = record {
  total_memory = total;
  used_memory = 0;
  free_memory = 0;
  allocated_blocks = 0;
  free_blocks = 0;
}

-- On a well-formed heap `memory_get_stats` reports the bytes and the number of the used and of the
-- free blocks, each block counted once, and these account for the whole heap: used bytes, free
-- bytes and a 16-byte header for each block add up to the heap's size.
pub memory_get_stats-tally :
    (h : Heap) (stats : MemoryStats) (cs : List Chunk)
    → IsHeap h cs
    → (memory_get_stats h stats ≡ tally cs (fresh_stats h.total_heap_size))
      × (weight (memory_get_stats h stats) ≡ h.total_heap_size)
unfolding memory_get_stats
memory_get_stats-tally h stats cs is =
    let st = fresh_stats h.total_heap_size in
    let start = next_of-pos h.heap_start cs (omega (arith, is.fills, is.not_empty)) in
    let counted : collect (max_blocks h) h.blocks h.heap_start st ≡ tally cs st =
      ap (λ k. collect (max_blocks h) h.blocks k st) (sym start)
      ∙ collect-tally (max_blocks h) 0 h.heap_start h.blocks cs st is.layout
          (omega (arith, is.start_pos)) (omega (arith, length-le-span cs, is.fills))
          (omega (arith, is.fills, is.in_range)) in
    simp (is.initialized, counted) (refl, omega (arith, weight-tally cs st, is.fills))
