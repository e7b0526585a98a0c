-- ===== src/Paging/Tests.antt =====
-- A small address space: a directory at 0x1000 whose first entry names a table at 0x2000, and the heap
-- of `memory_init`, for tests and witnesses.
use aether_os.Base.{
  ℕ, zero, suc, ◌+◌, ◌<◌, ◌≡◌, refl, sym, ap, subst, ◌∙◌, true, false, ◌==◌, arith, inl, inr, ◌≤◌,
  [], ◌∷◌, if◌then◌else◌, ==_ne,
}
use aether_os.Memory.{
  Heap, memory_init, kmalloc, kmalloc_aligned, align4, find_free_block, split_block, modify,
}
use aether_os.Paging.{
  Space, entry_at, paging_is_present, paging_get_address, paging_map_page, paging_unmap_page,
  paging_identity_map, paging_get_physical_address, paging_directory_index,
}
use aether_os.Paging.Tables.{WellFormed, pde_of, found}
use aether_os.Paging.NewTable.{FreeTable}
use aether_os.Paging.Map.{Remapped, paging_map_page-Remapped, paging_unmap_page-Remapped}
use aether_os.Paging.Identity.{Identity, paging_identity_map-Identity}
use aether_os.Paging.Headers.{Off, HeadersOff, headers}
use aether_os.Paging.Boot.{looked_at, paging_map_page-misplaced}

-- memory before `memory_init`
abbrev before_init : Heap
before_init = record {
  blocks = λ a. record { size = 0; is_free = false; next = 0; prev = 0 };
  heap_start = 0;
  heap_end = 0;
  total_heap_size = 0;
  heap_initialized = false;
}

abbrev small_words : ℕ → ℕ
small_words a = if a == 0x1000 then 0x2003 else 0

-- 4064 bytes are taken, so the next block begins on a page boundary.
abbrev small_space : Space
small_space = record {
  words = small_words;
  heap = (kmalloc 4064 (memory_init before_init)).1;
  kernel_directory = 0x1000;
  current_directory = 0x1000;
}

-- memory after `memory_init`, with the directory in the first block
abbrev boot_space : Space
boot_space = record {
  words = λ a. 0;
  heap = (kmalloc 4096 (memory_init before_init)).1;
  kernel_directory = 0x20_0010;
  current_directory = 0;
}

-- the page that `paging_map_page` gets from the small space
small_table : (kmalloc 4096 small_space.heap).0 ≡ 0x20_1000
unfolding kmalloc kmalloc_aligned align4 find_free_block split_block modify memory_init
small_table = refl

-- the page that `paging_map_page` gets after the directory of `paging_init`
boot_table : (kmalloc 4096 boot_space.heap).0 ≡ 0x20_1020
unfolding kmalloc kmalloc_aligned align4 find_free_block split_block modify memory_init
boot_table = refl

only_first : (i : ℕ) → paging_is_present (small_words (entry_at 0x1000 i)) ≡ true → i ≡ 0
only_first zero here = refl
only_first (suc i) here =
    let other : (entry_at 0x1000 (suc i) == 0x1000) ≡ false =
      ==_ne (entry_at 0x1000 (suc i)) 0x1000 (λ e. omega (arith, e)) in
    let gone : paging_is_present (small_words (entry_at 0x1000 (suc i))) ≡ false =
      ap (λ b. paging_is_present (if b then 0x2003 else 0)) other in
    absurd (cc)

small_words-WellFormed : WellFormed 0x1000 small_words
small_words-WellFormed = record {
  off_directory = λ i small here.
      let first = only_first i here in
      let table : paging_get_address (small_words (entry_at 0x1000 i)) ≡ 0x2000 =
        ap (λ j. paging_get_address (small_words (entry_at 0x1000 j))) first in
      inr (omega (arith, table));
  one_each =
      λ i j small small' ne here there. absurd (ne (only_first i here ∙ sym (only_first j there)));
}

small_words-tables :
    (a : ℕ) → a < 0x40_0000 → paging_is_present (pde_of 0x1000 a small_words) ≡ true
small_words-tables a small =
    let first : paging_directory_index a ≡ 0 = omega (arith, small) in
    ap (λ i. paging_is_present (small_words (entry_at 0x1000 i))) first

small_space-FreeTable : FreeTable 0x1000 small_words 0x20_1000
small_space-FreeTable = record {
  given = λ e. omega (arith, e);
  aligned = refl;
  off_directory = inr (omega arith);
  unused = λ i small here e.
      let table : paging_get_address (small_words (entry_at 0x1000 i)) ≡ 0x2000 =
        ap (λ j. paging_get_address (small_words (entry_at 0x1000 j))) (only_first i here) in
      omega (arith, table, e);
}

-- The headers that this page's `kmalloc` writes lie behind the directory and its table.
small_headers : headers small_space ≡ 0x20_0FF0 ∷ 0x20_2000 ∷ 0 ∷ []
unfolding kmalloc kmalloc_aligned align4 find_free_block split_block modify memory_init
small_headers = refl

above : (a : ℕ) → a + 4096 ≤ 0x20_0FF0 → Off 4096 a (0x20_0FF0 ∷ 0x20_2000 ∷ 0 ∷ [])
unfolding Off
above a le = (inr (inl le), (inr (inl (omega (arith, le))), (inl refl, tt)))

small_space-HeadersOff : HeadersOff 0x1000 small_space
small_space-HeadersOff = record {
  directory = subst (Off 4096 0x1000) (sym small_headers) (above 0x1000 (omega arith));
  tables = λ i small here.
      let table : paging_get_address (small_words (entry_at 0x1000 i)) ≡ 0x2000 =
        ap (λ j. paging_get_address (small_words (entry_at 0x1000 j))) (only_first i here) in
      subst (Off 4096 (paging_get_address (small_words (entry_at 0x1000 i)))) (sym small_headers)
        (above (paging_get_address (small_words (entry_at 0x1000 i))) (omega (arith, table)));
}

boot_headers : headers boot_space ≡ 0x20_1010 ∷ 0x20_2020 ∷ 0 ∷ []
unfolding kmalloc kmalloc_aligned align4 find_free_block split_block modify memory_init
boot_headers = refl

-- the word that the walk will look at
boot_word : Off 4 0x20_1004 (0x20_1010 ∷ 0x20_2020 ∷ 0 ∷ [])
unfolding Off
boot_word = (inr (inl (omega arith)), (inr (inl (omega arith)), (inl refl, tt)))

boot_looked : looked_at (kmalloc 4096 boot_space.heap).0 0x1000 ≡ 0x20_1004
boot_looked = ap (λ table. looked_at table 0x1000) boot_table

-- A second page table is made for the address 0x40_0123.
paging_map_page-Remapped_example :
    Remapped 0x1000 0x40_0123
      (λ offset. 0x7000 + offset)
      small_words
      (paging_map_page 0x1000 0x40_0123 0x7fff 3 small_space).words
paging_map_page-Remapped_example =
    paging_map_page-Remapped 0x1000 0x40_0123 0x7fff 3 small_space (omega arith)
      small_words-WellFormed
      (inr (
        subst (FreeTable 0x1000 small_words) (sym small_table) small_space-FreeTable,
        small_space-HeadersOff,
      ))

paging_unmap_page-Remapped_example :
    Remapped 0x1000 0x3000 (λ _. 0) small_words (paging_unmap_page 0x1000 0x3000 small_space).words
paging_unmap_page-Remapped_example =
    paging_unmap_page-Remapped 0x1000 0x3000 small_space (omega arith) small_words-WellFormed

paging_identity_map-Identity_example :
    Identity 0x1000 0x1000 0x4000 small_words
      (paging_identity_map 0x1000 0x1800 0x3001 3 small_space).words
paging_identity_map-Identity_example =
    paging_identity_map-Identity 0x1000 0x1800 0x3001 3 small_space (omega arith) (omega arith)
      small_words-WellFormed (λ a from below. small_words-tables a (omega (arith, below)))

-- The first page that `paging_init` maps after address 0: its table begins 32 bytes into a page, so the
-- entry is looked for in the last entries of the directory itself.
paging_map_page-misplaced_example :
    paging_get_physical_address 0x20_0010 0x1000
      (paging_map_page 0x20_0010 0x1000 0x1000 7 boot_space).words
    ≡ found 0 0
paging_map_page-misplaced_example =
    paging_map_page-misplaced 0x20_0010 0x1000 0x1000 7 boot_space refl
      (λ e. omega (arith, e, boot_table)) (omega (arith, boot_table))
      (subst (λ a. Off 4 a (headers boot_space)) (sym boot_looked)
        (subst (Off 4 0x20_1004) (sym boot_headers) boot_word))
      (λ e. omega (arith, e, boot_table)) (λ e. omega (arith, e, boot_table))
