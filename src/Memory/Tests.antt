-- ===== src/Memory/Tests.antt =====
-- Runs of memory.c's model, and its theorems at a heap of four blocks.
use aether_os.Base.{
  ◌+◌, ◌-◌, ◌≤◌, ◌<◌, ◌^◌, ◌≡◌, refl, true, false, ◌==◌, if◌then◌else◌, List, [], ◌∷◌, some, ◌⊎◌,
  arith,
}
use aether_os.Base.Words.{mul32}
use aether_os.Memory.{
  Heap, Blocks, kmalloc, kfree, find_free_block, split_block, modify, align4, kmalloc_aligned,
}
use aether_os.Memory.Layout.{Chunk, header, IsHeap}
use aether_os.Memory.Alloc.{used, unused, alloc}
use aether_os.Memory.Release.{release}
use aether_os.Memory.Kmalloc.{Returned, round4, kmalloc-alloc, kmalloc-wraps}
use aether_os.Memory.Kept.{kmalloc_apart}
use aether_os.Memory.Kfree.{kfree-release}
use aether_os.Memory.Coalesced.{Coalesced}
use aether_os.Memory.Roundtrip.{kfree-kmalloc}
use aether_os.Memory.Stats.{memory_get_stats, tally, weight, fresh_stats, memory_get_stats-tally}
use aether_os.Memory.Bytes.{Memory}
use aether_os.Memory.Resize.{Moved, krealloc, krealloc-grows}

-- four blocks at 4096, 4176, 4224 and 4368; the second and the fourth are free
abbrev four_chunks : List Chunk
four_chunks = used 64 ∷ unused 32 ∷ used 128 ∷ unused 1000 ∷ []

abbrev four_blocks : Blocks
four_blocks a =
    if a == 4096
    then header (used 64) 4176 0
    else (if a == 4176
        then header (unused 32) 4224 4096
        else (if a == 4224 then header (used 128) 4368 4176 else header (unused 1000) 0 4224))

abbrev four : Heap
four = record {
  blocks = four_blocks;
  heap_start = 4096;
  heap_end = 4368;
  total_heap_size = 1288;
  heap_initialized = true;
}

four-IsHeap : IsHeap four four_chunks
four-IsHeap = record {
  initialized = refl;
  start_pos = omega arith;
  in_range = omega arith;
  not_empty = omega arith;
  fills = refl;
  ends = refl;
  layout = (refl, (refl, (refl, (refl, tt))));
}

four_apart : Coalesced four_chunks
four_apart = (refl, (refl, (refl, (tt, tt))))

-- the third block has room for 200 bytes and a rest
alloc_200 :
    alloc 200 four_chunks ≡ some (272, used 64 ∷ unused 32 ∷ used 128 ∷ used 200 ∷ unused 784 ∷ [])
unfolding alloc
alloc_200 = refl

kmalloc_200 : (kmalloc 198 four).0 ≡ 4384
unfolding kmalloc kmalloc_aligned align4 find_free_block split_block modify
kmalloc_200 = refl

kmalloc-alloc_example : Returned four (alloc (round4 198) four_chunks) (kmalloc 198 four)
kmalloc-alloc_example = kmalloc-alloc four 198 four_chunks four-IsHeap (omega arith) (omega arith)

alloc_zero :
    alloc 0 four_chunks ≡ some (80, used 64 ∷ used 0 ∷ unused 16 ∷ used 128 ∷ unused 1000 ∷ [])
unfolding alloc
alloc_zero = refl

kmalloc-wraps_example :
    ((kmalloc (2 ^ 32 - 1) four).0 ≡ 4096 + 80 + 16)
    × IsHeap
        (kmalloc (2 ^ 32 - 1) four).1
        (used 64 ∷ used 0 ∷ unused 16 ∷ used 128 ∷ unused 1000 ∷ [])
    × (1288 < 2 ^ 32 - 1)
kmalloc-wraps_example =
    kmalloc-wraps four (2 ^ 32 - 1) four_chunks 80
      (used 64 ∷ used 0 ∷ unused 16 ∷ used 128 ∷ unused 1000 ∷ []) four-IsHeap (omega arith)
      (omega arith) alloc_zero

kmalloc_apart_example :
    (((kmalloc 198 four).1.blocks 4224).size ≡ 128)
    × (((kmalloc 198 four).1.blocks 4224).is_free ≡ false)
    × (((kmalloc 198 four).0 + 198 ≤ 4224) ⊎ (4224 + 16 + 128 ≤ (kmalloc 198 four).0))
kmalloc_apart_example =
    kmalloc_apart four 198 (used 64 ∷ unused 32 ∷ []) (used 128) (unused 1000 ∷ []) 272
      (used 64 ∷ unused 32 ∷ used 128 ∷ used 200 ∷ unused 784 ∷ []) four-IsHeap refl (omega arith)
      (omega arith) alloc_200

-- freeing the third block joins it to both neighbours
release_third :
    release (used 64 ∷ unused 32 ∷ []) (used 128) (unused 1000 ∷ []) ≡ used 64 ∷ unused 1192 ∷ []
release_third = refl

kfree-release_example :
    IsHeap (kfree 4240 four) (release (used 64 ∷ unused 32 ∷ []) (used 128) (unused 1000 ∷ []))
    × ((kfree 4240 four).heap_start ≡ 4096)
    × ((kfree 4240 four).total_heap_size ≡ 1288)
kfree-release_example =
    kfree-release four (used 64 ∷ unused 32 ∷ []) (used 128) (unused 1000 ∷ []) four-IsHeap

kfree-kmalloc_example : IsHeap (kfree (kmalloc 198 four).0 (kmalloc 198 four).1) four_chunks
kfree-kmalloc_example =
    kfree-kmalloc four 198 four_chunks 272
      (used 64 ∷ unused 32 ∷ used 128 ∷ used 200 ∷ unused 784 ∷ []) four-IsHeap four_apart
      (omega arith) (omega arith) alloc_200

memory_get_stats-tally_example :
    (memory_get_stats four (fresh_stats 0) ≡ tally four_chunks (fresh_stats 1288))
    × (weight (memory_get_stats four (fresh_stats 0)) ≡ 1288)
memory_get_stats-tally_example = memory_get_stats-tally four (fresh_stats 0) four_chunks four-IsHeap

-- every byte holds its address
abbrev bytes : Memory
bytes a = a

krealloc-grows_example :
    Moved four bytes
      (used 64 ∷ unused 32 ∷ [])
      (used 128)
      272
      (used 64 ∷ unused 32 ∷ used 128 ∷ used 200 ∷ unused 784 ∷ [])
      (krealloc 4240 198 four bytes)
krealloc-grows_example =
    krealloc-grows four bytes 198 (used 64 ∷ unused 32 ∷ []) (used 128) (unused 1000 ∷ []) 272
      (used 64 ∷ unused 32 ∷ used 128 ∷ used 200 ∷ unused 784 ∷ []) four-IsHeap refl (omega arith)
      (omega arith) alloc_200

-- 20 elements of 214748375 bytes wrap to 204 bytes
alloc_204 :
    alloc (round4 (mul32 20 214748375)) four_chunks
    ≡ some (272, used 64 ∷ unused 32 ∷ used 128 ∷ used 204 ∷ unused 780 ∷ [])
unfolding alloc
alloc_204 = refl
