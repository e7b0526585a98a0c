-- ===== src/Paging/Boot.antt =====
-- Where the entries of a page table go when `kmalloc` gives `paging_map_page` of src/kernel/paging.c
-- a block off a page boundary: the directory keeps the address of the page the block begins in.
use aether_os.Base.{
  ℕ, ◌+◌, ◌*◌, ◌%◌, ◌<◌, bit_or, ◌≡◌, sym, ap, ◌∙◌, false, arith, ◌≢◌, inl, if◌then◌else◌, ==_ne,
}
use aether_os.Base.Store.{store, store_self, store_ne}
use aether_os.Base.Words.{clear_low_bits}
use aether_os.Memory.{kmalloc}
use aether_os.Paging.{
  Space, page_entries, entry_at, paging_get_address, paging_is_present, paging_directory_index,
  paging_table_index, paging_page_offset, clear_entries, paging_create_entry, page_present,
  page_write, set_page, add_table, map_with, allocate_page, paging_map_page,
  paging_get_physical_address,
}
use aether_os.Paging.Entries.{get_address-create, is_present-create, table_flag}
use aether_os.Paging.Tables.{found, answer, pde_of, pte_of, physical_walk, answer-present}
use aether_os.Paging.NewTable.{clear_entries-outside}
use aether_os.Paging.Headers.{Off, headers, allocate_page-kept}
use aether_os.Paging.Map.{map_page-absent, frame}

-- Where the walk looks for the entry of `v` when its table was put at `table`.
abbrev pub looked_at : ℕ → ℕ → ℕ
looked_at table v = entry_at (clear_low_bits table 12) (paging_table_index v)

module _ (dir v p f table : ℕ) (sp : Space) (given : table ≢ 0)
    (front : 4 * paging_table_index v < table % 4096)
    (clear : entry_at table (paging_table_index v) ≢ entry_at dir (paging_directory_index v))
    (clear' : looked_at table v ≢ entry_at dir (paging_directory_index v)) where
  abbrev table_pde : ℕ
  table_pde = paging_create_entry table (bit_or (bit_or page_present page_write) f)

  mapped_words :
      (map_with dir v p f table sp).words
      ≡ store (entry_at table (paging_table_index v)) (frame p f) (
          store
            (entry_at dir (paging_directory_index v))
            table_pde
            (clear_entries table page_entries sp.words))
  unfolding map_with set_page add_table
  mapped_words =
      ap (λ b. (if b then sp else set_page table v p f (add_table dir v table f sp)).words)
        (==_ne table 0 given)

  mapped_pde : pde_of dir v (map_with dir v p f table sp).words ≡ table_pde
  mapped_pde =
      ap (pde_of dir v) mapped_words
      ∙ store_ne _ (frame p f) (entry_at dir (paging_directory_index v)) _ (λ e. clear (sym e))
      ∙ store_self _ table_pde (clear_entries table page_entries sp.words)

  mapped_looked :
      (map_with dir v p f table sp).words (looked_at table v) ≡ sp.words (looked_at table v)
  mapped_looked =
      ap (λ words. words (looked_at table v)) mapped_words
      ∙ store_ne _ (frame p f) (looked_at table v) _ (λ e. omega (arith, e, front))
      ∙ store_ne _ table_pde (looked_at table v) _ clear'
      ∙ clear_entries-outside table page_entries (looked_at table v) sp.words
          (inl (omega (arith, front)))

  mapped_walk :
      paging_get_physical_address dir v (map_with dir v p f table sp).words
      ≡ found (sp.words (looked_at table v)) (paging_page_offset v)
  mapped_walk =
      let after = (map_with dir v p f table sp).words in
      let flags = bit_or (bit_or page_present page_write) f in
      let pte : pte_of dir v after ≡ sp.words (looked_at table v) =
        ap (λ e. after (entry_at (paging_get_address e) (paging_table_index v))) mapped_pde
        ∙ ap (λ a. after (entry_at a (paging_table_index v))) (get_address-create table flags)
        ∙ mapped_looked in
      physical_walk dir v after
      ∙ ap (λ e. answer e (pte_of dir v after) (paging_page_offset v)) mapped_pde
      ∙ ap (λ e. answer table_pde e (paging_page_offset v)) pte
      ∙ answer-present table_pde (sp.words (looked_at table v)) (paging_page_offset v)
          (is_present-create table flags (table_flag f))

-- For a page whose table is missing, when `kmalloc` gives a block that begins so far into a page that the entry's
-- offset, counted from the page's begin, falls in front of it, when the word there is in none of the block
-- headers that `kmalloc` writes, and neither the entry written nor that word is the directory's entry for
-- the page: after `paging_map_page` the address is translated by the word that stood there before
-- the call, whatever physical address and flags were asked for.
pub paging_map_page-misplaced :
    (dir v p f : ℕ) (sp : Space)
    → paging_is_present (pde_of dir v sp.words) ≡ false
    → (kmalloc 4096 sp.heap).0 ≢ 0
    → 4 * paging_table_index v < (kmalloc 4096 sp.heap).0 % 4096
    → Off 4 (looked_at (kmalloc 4096 sp.heap).0 v) (headers sp)
    → entry_at (kmalloc 4096 sp.heap).0 (paging_table_index v)
      ≢ entry_at dir (paging_directory_index v)
    → looked_at (kmalloc 4096 sp.heap).0 v ≢ entry_at dir (paging_directory_index v)
    → paging_get_physical_address dir v (paging_map_page dir v p f sp).words
      ≡ found (sp.words (looked_at (kmalloc 4096 sp.heap).0 v)) (paging_page_offset v)
paging_map_page-misplaced dir v p f sp gone given front off clear clear' =
    let table = (kmalloc 4096 sp.heap).0 in
    ap (paging_get_physical_address dir v) (map_page-absent dir v p f sp gone)
    ∙ mapped_walk dir v p f table (allocate_page sp).1 given front clear clear'
    ∙ ap (λ a. found ((allocate_page sp).1.words a) (paging_page_offset v)) (here table)
    ∙ ap (λ w. found w (paging_page_offset v))
        (allocate_page-kept 4 (looked_at table v) 0 sp (omega arith) off)
    ∙ ap (λ a. found (sp.words a) (paging_page_offset v)) (sym (here table))
  where
    here : (table : ℕ) → looked_at table v ≡ looked_at table v + 0
    here table = omega arith
