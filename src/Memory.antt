-- ===== src/Memory.antt =====
-- The kernel heap of src/kernel/memory.c and include/memory.h. Block headers live in a store
-- indexed by address (`blocks`), the statics of the file are the other fields of `Heap`. A function
-- that changes the heap returns the new one; NULL is the address 0.
pub mod Absorb
pub mod Alloc
pub mod Bytes
pub mod Coalesced
pub mod Kept
pub mod Kfree
pub mod Kmalloc
pub mod Layout
pub mod Merge
pub mod Release
pub mod Resize
pub mod Roundtrip
pub mod Split
pub mod Stats
pub mod Store
mod Tests
use aether_os.Base.{
  ℕ, zero, suc, ◌+◌, ◌-◌, ◌/◌, Bool, true, false, not, ◌&&◌, ◌||◌, ltb, leb, ◌==◌, if◌then◌else◌,
}
use aether_os.Base.Words.{add32, sub32, mul32, clear_low_bits}

-- `memory_block_t`
pub record MemoryBlock : Type 0 where
  pub size : ℕ
  pub is_free : Bool
  pub next : ℕ
  pub prev : ℕ

-- `sizeof(memory_block_t)`: four 32-bit words.
abbrev pub header_size : ℕ
header_size = 16

abbrev pub kernel_heap_start : ℕ
kernel_heap_start = 0x200000

abbrev pub kernel_heap_size : ℕ
kernel_heap_size = 0x400000

abbrev pub Blocks : Type 0
Blocks = ℕ → MemoryBlock

pub record Heap : Type 0 where
  pub blocks : Blocks
  pub heap_start : ℕ
  pub heap_end : ℕ
  pub total_heap_size : ℕ
  pub heap_initialized : Bool

-- `*p = b` for a whole header
abbrev pub write : Blocks → ℕ → MemoryBlock → Blocks
write m p b a = if a == p then b else m a

-- an assignment to the header at `p`
unfoldable pub modify : ℕ → (MemoryBlock → MemoryBlock) → Heap → Heap
modify p f h = record h { blocks = write h.blocks p (f (h.blocks p)) }

abbrev pub set_size : ℕ → ℕ → Heap → Heap
set_size p v = modify p (λ b. record b { size = v })

abbrev pub set_is_free : ℕ → Bool → Heap → Heap
set_is_free p v = modify p (λ b. record b { is_free = v })

abbrev pub set_next : ℕ → ℕ → Heap → Heap
set_next p v = modify p (λ b. record b { next = v })

abbrev pub set_prev : ℕ → ℕ → Heap → Heap
set_prev p v = modify p (λ b. record b { prev = v })

-- `memory_init`, without its log lines.
unfoldable pub memory_init : Heap → Heap
memory_init h = record {
  blocks =
      write h.blocks kernel_heap_start
        (record { size = kernel_heap_size - header_size; is_free = true; next = 0; prev = 0 });
  heap_start = kernel_heap_start;
  heap_end = kernel_heap_start;
  total_heap_size = kernel_heap_size;
  heap_initialized = true;
}

-- The loop of `find_free_block` from `current`, on fuel; it returns NULL at the end of the list.
unfoldable pub find_free_block : ℕ → Blocks → ℕ → ℕ → ℕ
find_free_block zero m size current = 0
find_free_block (suc fuel) m size current =
    let rest = find_free_block fuel m size (m current).next in
    if current == 0
    then 0
    else (if (m current).is_free && leb size (m current).size then current else rest)

-- The list has at most one block for each header that fits into the heap.
abbrev pub max_blocks : Heap → ℕ
max_blocks h = h.total_heap_size / header_size + 1

unfoldable pub split_block : ℕ → ℕ → Heap → Heap
split_block block size h =
    let b = h.blocks block in
    let new_block = add32 (add32 block header_size) size in
    let h1 =
      modify new_block
        (λ _. record {
          size = sub32 (sub32 b.size size) header_size;
          is_free = true;
          next = b.next;
          prev = block;
        })
        h in
    let h2 =
      if (h1.blocks block).next == 0
      then record h1 { heap_end = new_block }
      else set_prev (h1.blocks block).next new_block h1 in
    if leb b.size (add32 size header_size)
    then h
    else set_size block size (set_next block new_block h2)

-- The first half of `merge_free_blocks`: the block absorbs a free successor.
unfoldable pub merge_next : ℕ → Heap → Heap
merge_next block h =
    let next = (h.blocks block).next in
    let h1 =
      set_size block (add32 (h.blocks block).size (add32 header_size (h.blocks next).size)) h in
    let after = (h1.blocks next).next in
    let h2 = if after == 0 then record h1 { heap_end = block } else set_prev after block h1 in
    if not (next == 0) && (h.blocks next).is_free
    then set_next block (h2.blocks next).next h2
    else h

-- The second half: a free predecessor absorbs the block.
unfoldable pub merge_prev : ℕ → Heap → Heap
merge_prev block h =
    let prev = (h.blocks block).prev in
    let h1 =
      set_size prev (add32 (h.blocks prev).size (add32 header_size (h.blocks block).size)) h in
    let next = (h1.blocks block).next in
    let h2 =
      if next == 0
      then record h1 { heap_end = (h1.blocks block).prev }
      else set_prev next (h1.blocks block).prev h1 in
    if not (prev == 0) && (h.blocks prev).is_free
    then set_next prev (h2.blocks block).next h2
    else h

unfoldable pub merge_free_blocks : ℕ → Heap → Heap
merge_free_blocks block h = merge_prev block (merge_next block h)

-- `(size + 3) & ~3`
unfoldable pub align4 : ℕ → ℕ
align4 size = clear_low_bits (add32 size 3) 2

-- `kmalloc` past its guards: `size` is aligned.
unfoldable pub kmalloc_aligned : ℕ → Heap → ℕ × Heap
kmalloc_aligned size h =
    let block = find_free_block (max_blocks h) h.blocks size h.heap_start in
    if block == 0
    then (0, h)
    else (add32 block header_size, set_is_free block false (split_block block size h))

unfoldable pub kmalloc : ℕ → Heap → ℕ × Heap
kmalloc size h =
    if not h.heap_initialized || size == 0 then (0, h) else kmalloc_aligned (align4 size) h

unfoldable pub kfree : ℕ → Heap → Heap
kfree ptr h =
    let block = sub32 ptr header_size in
    if ptr == 0 || not h.heap_initialized
    then h
    else (if ltb block h.heap_start || leb (add32 h.heap_start h.total_heap_size) block
        then h
        else merge_free_blocks block (set_is_free block true h))
