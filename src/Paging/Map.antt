-- ===== src/Paging/Map.antt =====
-- `paging_map_page` and `paging_unmap_page` of src/kernel/paging.c, as `paging_get_physical_address`
-- sees them.
use aether_os.Base.{
  ℕ, ◌+◌, ◌<◌, ◌^◌, bit_or, ◌≡◌, refl, sym, ap, ◌∙◌, true, false, arith, ◌≢◌, ◌⊎◌, inl, inr,
  if◌then◌else◌, Bool-cases, subst, ==_ne,
}
use aether_os.Base.Store.{store}
use aether_os.Base.Words.{shr, clear_low_bits}
use aether_os.Memory.{kmalloc}
use aether_os.Paging.{
  Space, page_present, entry_at, paging_create_entry, paging_get_address, paging_is_present,
  paging_directory_index, paging_table_index, paging_page_offset, set_page, add_table, map_with,
  allocate_page, paging_map_page, paging_unmap_page, paging_get_physical_address,
}
use aether_os.Paging.Entries.{get_address-create, is_present-create, present_flag}
use aether_os.Paging.Tables.{
  WellFormed, pde_of, pte_of, physical_walk, answer-absent, written, written-WellFormed,
  written-on_page, written-elsewhere,
}
use aether_os.Paging.NewTable.{
  FreeTable, added, new_pde-table, new_pde-present, added-pde, added-WellFormed, added-walk,
}
use aether_os.Paging.Headers.{
  HeadersOff, kept-directory, allocated-WellFormed, allocated-FreeTable, allocated-walk,
  allocate_page-none,
}

-- `after` is `words` with the page of `v` translated as `physical` of the offset, and no other page
-- changed.
pub record Remapped (dir v : ℕ) (physical : ℕ → ℕ) (words after : ℕ → ℕ) : Type 0 where
  pub here :
      (w : ℕ)
      → shr w 12 ≡ shr v 12
      → paging_get_physical_address dir w after ≡ physical (paging_page_offset w)
  pub elsewhere :
      (w : ℕ)
      → w < 2 ^ 32
      → shr w 12 ≢ shr v 12
      → paging_get_physical_address dir w after ≡ paging_get_physical_address dir w words
  pub well_formed : WellFormed dir after

-- The directory has a table for the page of `v`, or the heap gives a page that can become one, and writes its
-- block headers off the directory and its tables.
abbrev pub TableReady : ℕ → ℕ → Space → Type 0
TableReady dir v sp =
    (paging_is_present (pde_of dir v sp.words) ≡ true)
    ⊎ (FreeTable dir sp.words (kmalloc 4096 sp.heap).0 × HeadersOff dir sp)

abbrev pub frame : ℕ → ℕ → ℕ
frame p f = paging_create_entry p (bit_or page_present f)

written-Remapped :
    (dir v p f : ℕ) (words : ℕ → ℕ)
    → v < 2 ^ 32
    → WellFormed dir words
    → paging_is_present (pde_of dir v words) ≡ true
    → Remapped dir v
        (λ offset. clear_low_bits p 12 + offset)
        words
        (written dir v (frame p f) words)
written-Remapped dir v p f words small ok here = record {
  here = λ w same.
      written-on_page dir v w (frame p f) words ok here same
      ∙ ap (λ b. if b then paging_get_address (frame p f) + paging_page_offset w else 0)
          (is_present-create p (bit_or page_present f) (present_flag f))
      ∙ ap (λ a. a + paging_page_offset w) (get_address-create p (bit_or page_present f));
  elsewhere =
      λ w small' other. written-elsewhere dir v (frame p f) words ok here w small small' other;
  well_formed = written-WellFormed dir v (frame p f) words ok here;
}

-- The words after a new table is entered and the page written, as the two steps.
map_with-written :
    (dir v p f table : ℕ) (sp : Space)
    → (ok : WellFormed dir sp.words) → (absent : paging_is_present (pde_of dir v sp.words) ≡ false)
    → (fit : FreeTable dir sp.words table)
    → (map_with dir v p f table sp).words
      ≡ written dir v (frame p f) (added dir v f table sp ok absent fit)
unfolding map_with set_page
map_with-written dir v p f table sp ok absent fit =
    let words = added dir v f table sp ok absent fit in
    let at : paging_get_address (pde_of dir v words) ≡ table =
      ap paging_get_address (added-pde dir v f table sp ok absent fit)
      ∙ new_pde-table dir v f table sp ok absent fit in
    ap (λ b. (if b then sp else set_page table v p f (add_table dir v table f sp)).words)
      (==_ne table 0 fit.given)
    ∙ ap (λ a. store (entry_at a (paging_table_index v)) (frame p f) words) (sym at)

pub map_page-present :
    (dir v p f : ℕ) (sp : Space)
    → paging_is_present (pde_of dir v sp.words) ≡ true
    → (paging_map_page dir v p f sp).words ≡ written dir v (frame p f) sp.words
unfolding paging_map_page set_page
map_page-present dir v p f sp here =
    ap
      (λ b.
        (if b
          then set_page (paging_get_address (pde_of dir v sp.words)) v p f sp
          else map_with dir v p f (allocate_page sp).0 (allocate_page sp).1).words)
      here

pub map_page-absent :
    (dir v p f : ℕ) (sp : Space)
    → paging_is_present (pde_of dir v sp.words) ≡ false
    → (paging_map_page dir v p f sp).words
      ≡ (map_with dir v p f (kmalloc 4096 sp.heap).0 (allocate_page sp).1).words
unfolding paging_map_page allocate_page
map_page-absent dir v p f sp gone =
    ap
      (λ b.
        (if b
          then set_page (paging_get_address (pde_of dir v sp.words)) v p f sp
          else map_with dir v p f (allocate_page sp).0 (allocate_page sp).1).words)
      gone

-- For an address below `2 ^ 32` and a well-formed directory that has a table for it, or a heap that
-- gives a page fit to be one without writing a block header into the directory or its tables: after `paging_map_page` every address of its page is translated to the frame of
-- the physical address at its own offset, every address on another page is translated as before,
-- and the directory is well-formed.
pub paging_map_page-Remapped :
    (dir v p f : ℕ) (sp : Space)
    → v < 2 ^ 32
    → WellFormed dir sp.words
    → TableReady dir v sp
    → Remapped dir v
        (λ offset. clear_low_bits p 12 + offset)
        sp.words
        (paging_map_page dir v p f sp).words
paging_map_page-Remapped dir v p f sp small ok ready =
    elim (Bool-cases (paging_is_present (pde_of dir v sp.words))) [
      | inl here ↦
          subst (Remapped dir v (λ offset. clear_low_bits p 12 + offset) sp.words)
            (sym (map_page-present dir v p f sp here))
            (written-Remapped dir v p f sp.words small ok here)
      | inr gone ↦ by_new_table gone ready
    ]
  where
    physical : ℕ → ℕ
    physical = λ offset. clear_low_bits p 12 + offset

    by_new_table :
        paging_is_present (pde_of dir v sp.words) ≡ false
        → (paging_is_present (pde_of dir v sp.words) ≡ true)
          ⊎ (FreeTable dir sp.words (kmalloc 4096 sp.heap).0 × HeadersOff dir sp)
        → Remapped dir v physical sp.words (paging_map_page dir v p f sp).words
    by_new_table gone (inl here) = cc
    by_new_table gone (inr (fit, off)) =
        let table = (kmalloc 4096 sp.heap).0 in
        let next = (allocate_page sp).1 in
        let ok' = allocated-WellFormed dir sp off ok in
        let fit' = allocated-FreeTable dir sp off table fit in
        let gone' : paging_is_present (pde_of dir v next.words) ≡ false =
          ap paging_is_present (kept-directory dir sp off (paging_directory_index v) (omega arith))
          ∙ gone in
        let words = added dir v f table next ok' gone' fit' in
        let mapped =
          written-Remapped dir v p f words small
            (added-WellFormed dir v f table next ok' gone' fit')
            (ap paging_is_present (added-pde dir v f table next ok' gone' fit')
              ∙ new_pde-present dir v f table next ok' gone' fit') in
        subst (Remapped dir v physical sp.words)
          (sym (
            map_page-absent dir v p f sp gone
            ∙ map_with-written dir v p f table next ok' gone' fit'))
          (record {
            here = mapped.here;
            elsewhere = λ w small' other.
                mapped.elsewhere w small' other
                ∙ added-walk dir v f table next ok' gone' fit' w
                ∙ allocated-walk dir sp off w;
            well_formed = mapped.well_formed;
          })

-- Without a table and without memory for one, `paging_map_page` writes no word.
pub map_page-NoMemory :
    (dir v p f : ℕ) (sp : Space)
    → paging_is_present (pde_of dir v sp.words) ≡ false
    → (kmalloc 4096 sp.heap).0 ≡ 0
    → (paging_map_page dir v p f sp).words ≡ sp.words
unfolding map_with
map_page-NoMemory dir v p f sp gone full =
    map_page-absent dir v p f sp gone
    ∙ ap (λ table. (map_with dir v p f table (allocate_page sp).1).words) full
    ∙ allocate_page-none sp full

unmap_page-present :
    (dir v : ℕ) (sp : Space)
    → paging_is_present (pde_of dir v sp.words) ≡ true
    → (paging_unmap_page dir v sp).words ≡ written dir v 0 sp.words
unfolding paging_unmap_page
unmap_page-present dir v sp here =
    ap (λ b. (if b then record sp { words = written dir v 0 sp.words } else sp).words) here

unmap_page-absent :
    (dir v : ℕ) (sp : Space)
    → paging_is_present (pde_of dir v sp.words) ≡ false
    → (paging_unmap_page dir v sp).words ≡ sp.words
unfolding paging_unmap_page
unmap_page-absent dir v sp gone =
    ap (λ b. (if b then record sp { words = written dir v 0 sp.words } else sp).words) gone

-- For an address below `2 ^ 32` and a well-formed directory: after `paging_unmap_page` no address of its
-- page has a translation, every address on another page is translated as before, and the directory is
-- well-formed.
pub paging_unmap_page-Remapped :
    (dir v : ℕ) (sp : Space)
    → v < 2 ^ 32
    → WellFormed dir sp.words
    → Remapped dir v (λ _. 0) sp.words (paging_unmap_page dir v sp).words
paging_unmap_page-Remapped dir v sp small ok =
    elim (Bool-cases (paging_is_present (pde_of dir v sp.words))) [
      | inl here ↦
          subst (Remapped dir v (λ _. 0) sp.words) (sym (unmap_page-present dir v sp here))
            (record {
              here = λ w same. written-on_page dir v w 0 sp.words ok here same;
              elsewhere =
                  λ w small' other. written-elsewhere dir v 0 sp.words ok here w small small' other;
              well_formed = written-WellFormed dir v 0 sp.words ok here;
            })
      | inr gone ↦
          subst (Remapped dir v (λ _. 0) sp.words) (sym (unmap_page-absent dir v sp gone)) (record {
            here = λ w same.
                let index : paging_directory_index w ≡ paging_directory_index v =
                  omega (arith, same) in
                physical_walk dir w sp.words
                ∙ answer-absent (pde_of dir w sp.words) (pte_of dir w sp.words)
                    (paging_page_offset w)
                    (ap (λ i. paging_is_present (sp.words (entry_at dir i))) index ∙ gone);
            elsewhere = λ w small' other. refl;
            well_formed = ok;
          })
    ]
