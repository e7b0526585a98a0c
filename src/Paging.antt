-- ===== src/Paging.antt =====
-- Virtual memory: src/kernel/paging.c and include/paging.h. The words of memory are a function of the
-- address, those of the heap's block headers included: `allocate_page` is a `kmalloc` with the header words that it
-- writes. What drives the CPU (loading CR3, enabling paging, `invlpg`) is left out.
pub mod Entries
pub mod Tables
pub mod NewTable
pub mod Headers
pub mod Map
pub mod Identity
pub mod Boot
mod Tests
use aether_os.Base.{
  ℕ, zero, suc, ◌+◌, ◌-◌, ◌*◌, ◌/◌, bit_or, Bool, ◌==◌, if◌then◌else◌, Option, none, some, List, [],
  ◌∷◌,
}
use aether_os.Base.Words.{add32, sub32, shr, low_bits, clear_low_bits}
use aether_os.Base.Store.{store}
use aether_os.Memory.{Heap, MemoryBlock, header_size, kmalloc}

abbrev pub page_size : ℕ
page_size = 4096

-- `PAGE_ENTRIES`
abbrev pub page_entries : ℕ
page_entries = 1024

abbrev pub page_present : ℕ
page_present = 1

abbrev pub page_write : ℕ
page_write = 2

abbrev pub page_user : ℕ
page_user = 4

abbrev pub page_align : ℕ → ℕ
page_align address = clear_low_bits (add32 address (page_size - 1)) 12

abbrev pub paging_directory_index : ℕ → ℕ
paging_directory_index virtual_addr = low_bits (shr virtual_addr 22) 10

abbrev pub paging_table_index : ℕ → ℕ
paging_table_index virtual_addr = low_bits (shr virtual_addr 12) 10

abbrev pub paging_page_offset : ℕ → ℕ
paging_page_offset virtual_addr = low_bits virtual_addr 12

-- `paging_create_pte` and `paging_create_pde`, which are the same function
unfoldable pub paging_create_entry : ℕ → ℕ → ℕ
paging_create_entry address flags = bit_or (clear_low_bits address 12) (low_bits flags 12)

abbrev pub paging_get_address : ℕ → ℕ
paging_get_address entry = clear_low_bits entry 12

abbrev pub paging_get_flags : ℕ → ℕ
paging_get_flags entry = low_bits entry 12

-- `entry & PAGE_PRESENT`
abbrev pub paging_is_present : ℕ → Bool
paging_is_present entry = low_bits entry 1 == 1

-- the words of memory, the heap that tables come from, and the statics of paging.c, NULL as 0
pub record Space : Type 0 where
  pub words : ℕ → ℕ
  pub heap : Heap
  pub kernel_directory : ℕ
  pub current_directory : ℕ

-- the address of `table->entries[index]`
abbrev pub entry_at : ℕ → ℕ → ℕ
entry_at table index = table + 4 * index

-- the loop that clears the first `n` entries of a table
unfoldable pub clear_entries : ℕ → ℕ → (ℕ → ℕ) → ℕ → ℕ
clear_entries table zero words = words
clear_entries table (suc n) words = store (entry_at table n) 0 (clear_entries table n words)

-- the last statement of `paging_map_page`
unfoldable pub set_page : ℕ → ℕ → ℕ → ℕ → Space → Space
set_page page_table virtual_addr physical_addr flags sp = record sp {
  words =
      store (entry_at page_table (paging_table_index virtual_addr))
        (paging_create_entry physical_addr (bit_or page_present flags)) sp.words;
}

-- A new page table at `page_table`: it is cleared and entered into the directory.
unfoldable pub add_table : ℕ → ℕ → ℕ → ℕ → Space → Space
add_table dir virtual_addr page_table flags sp = record sp {
  words =
      store (entry_at dir (paging_directory_index virtual_addr))
        (paging_create_entry page_table (bit_or (bit_or page_present page_write) flags))
        (clear_entries page_table page_entries sp.words);
}

-- the words of a block header
unfoldable pub write_header : ℕ → MemoryBlock → (ℕ → ℕ) → ℕ → ℕ
write_header block b words = store block b.size (
    store (block + 4) (if b.is_free then 1 else 0)
      (store (block + 8) b.next (store (block + 12) b.prev words)))

-- The headers that a `kmalloc` which returned `ptr` may have written: that of its block, that of the block behind it,
-- which is new where the block was split, and the one behind that, whose `prev` is then set; 0 for none.
abbrev pub touched : ℕ → Heap → List ℕ
touched ptr heap =
    let block = sub32 ptr header_size in
    let next = (heap.blocks block).next in
    let behind = if next == 0 then 0 else (heap.blocks next).next in block ∷ next ∷ behind ∷ []

-- the words of the headers of these blocks, as the heap has them
unfoldable pub write_headers : Heap → List ℕ → (ℕ → ℕ) → ℕ → ℕ
write_headers heap [] words = words
write_headers heap (block ∷ others) words =
    let rest = write_headers heap others words in
    if block == 0 then rest else write_header block (heap.blocks block) rest

-- `kmalloc(4096)`, with the header words that it leaves in memory
unfoldable pub allocate_page : Space → ℕ × Space
allocate_page sp =
    let (ptr, heap) = kmalloc 4096 sp.heap in
    (
      ptr,
      record sp {
        words = if ptr == 0 then sp.words else write_headers heap (touched ptr heap) sp.words;
        heap = heap;
      },
    )

-- what `paging_map_page` does with the table that `kmalloc` returned, NULL for none
unfoldable pub map_with : ℕ → ℕ → ℕ → ℕ → ℕ → Space → Space
map_with dir virtual_addr physical_addr flags page_table sp =
    if page_table == 0
    then sp
    else set_page page_table virtual_addr physical_addr flags
        (add_table dir virtual_addr page_table flags sp)

unfoldable pub paging_map_page : ℕ → ℕ → ℕ → ℕ → Space → Space
paging_map_page dir virtual_addr physical_addr flags sp =
    let pde = sp.words (entry_at dir (paging_directory_index virtual_addr)) in
    let (page_table, allocated) = allocate_page sp in
    if paging_is_present pde
    then set_page (paging_get_address pde) virtual_addr physical_addr flags sp
    else map_with dir virtual_addr physical_addr flags page_table allocated

unfoldable pub paging_unmap_page : ℕ → ℕ → Space → Space
paging_unmap_page dir virtual_addr sp =
    let pde = sp.words (entry_at dir (paging_directory_index virtual_addr)) in
    if paging_is_present pde
    then record sp {
      words =
          store (entry_at (paging_get_address pde) (paging_table_index virtual_addr)) 0 sp.words;
    }
    else sp

unfoldable pub paging_get_physical_address : ℕ → ℕ → (ℕ → ℕ) → ℕ
paging_get_physical_address dir virtual_addr words =
    let pde = words (entry_at dir (paging_directory_index virtual_addr)) in
    let pte = words (entry_at (paging_get_address pde) (paging_table_index virtual_addr)) in
    if paging_is_present pde
    then (if paging_is_present pte
        then paging_get_address pte + paging_page_offset virtual_addr
        else 0)
    else 0

-- The loop of `paging_identity_map` over `n` pages from `address`.
unfoldable pub map_pages : ℕ → ℕ → ℕ → ℕ → Space → Space
map_pages dir zero address flags sp = sp
map_pages dir (suc n) address flags sp =
    map_pages dir n (address + page_size) flags (paging_map_page dir address address flags sp)

-- With both ends on page boundaries the loop runs for each page between them.
unfoldable pub paging_identity_map : ℕ → ℕ → ℕ → ℕ → Space → Space
paging_identity_map dir start end flags sp =
    let first = clear_low_bits start 12 in
    map_pages dir ((page_align end - first) / page_size) first flags sp

-- `paging_init` with the directory at `dir`, once it is allocated
unfoldable pub fill_directory : ℕ → Space → Space
fill_directory dir sp =
    let cleared = record sp { words = clear_entries dir page_entries sp.words } in
    let user_flags = bit_or (bit_or page_present page_write) page_user in
    let low = paging_identity_map dir 0 0x0100_0000 user_flags cleared in
    let mapped = paging_map_page dir 0xB8000 0xB8000 (bit_or page_present page_write) low in
    record mapped { current_directory = dir }

unfoldable pub paging_init : Space → Space
paging_init sp =
    let (dir, space) = allocate_page sp in
    let allocated = record space { kernel_directory = dir } in
    if dir == 0 then allocated else fill_directory dir allocated

-- the value that `paging_enable` loads into CR3 before it turns paging on, if there is a directory
unfoldable pub paging_enable : Space → Option ℕ
paging_enable sp = if sp.kernel_directory == 0 then none else some sp.kernel_directory

-- `paging_switch_directory`, with the value that it loads into CR3
unfoldable pub paging_switch_directory : ℕ → Space → ℕ × Space
paging_switch_directory dir sp = (dir, record sp { current_directory = dir })
