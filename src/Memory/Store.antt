-- ===== src/Memory/Store.antt =====
-- What an assignment to one header does to the heap.
use aether_os.Base.{ℕ, ◌≤◌, ◌<◌, ◌≡◌, ◌≢◌, refl, arith}
use aether_os.Memory.{MemoryBlock, Heap, modify}

module _ (p : ℕ) (f : MemoryBlock → MemoryBlock) (h : Heap) where
  pub modify_self : (modify p f h).blocks p ≡ f (h.blocks p)
  unfolding modify
  modify_self = ground arith

  pub modify_ne : (a : ℕ) → a ≢ p → (modify p f h).blocks a ≡ h.blocks a
  unfolding modify
  modify_ne a ne = ground arith

  pub modify-end : (modify p f h).heap_end ≡ h.heap_end
  unfolding modify
  modify-end = refl

-- What an operation on the block at `q` leaves alone.
pub record SameBefore (q : ℕ) (h h' : Heap) : Type 0 where
  pub blocks : (a : ℕ) → a < q → h'.blocks a ≡ h.blocks a
  pub heap_start : h'.heap_start ≡ h.heap_start
  pub total : h'.total_heap_size ≡ h.total_heap_size
  pub initialized : h'.heap_initialized ≡ h.heap_initialized

pub SameBefore-modify :
    (q p : ℕ) (f : MemoryBlock → MemoryBlock) (h h' : Heap)
    → q ≤ p
    → SameBefore q h h'
    → SameBefore q h (modify p f h')
unfolding modify
SameBefore-modify q p f h h' le s = record {
  blocks = λ a lt. ground (arith, s.blocks a lt);
  heap_start = s.heap_start;
  total = s.total;
  initialized = s.initialized;
}

pub SameBefore-end :
    (q e : ℕ) (h h' : Heap) → SameBefore q h h' → SameBefore q h (record h' { heap_end = e })
SameBefore-end q e h h' s = record {
  blocks = s.blocks;
  heap_start = s.heap_start;
  total = s.total;
  initialized = s.initialized;
}

pub SameBefore_refl : (q : ℕ) (h : Heap) → SameBefore q h h
SameBefore_refl q h = record {
  blocks = λ a lt. refl;
  heap_start = refl;
  total = refl;
  initialized = refl;
}
