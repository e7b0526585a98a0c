-- ===== src/Paging/NewTable.antt =====
-- The branch of `paging_map_page` in src/kernel/paging.c that enters a new page table: `add_table`
-- keeps the directory well-formed and every translation as it was.
use aether_os.Base.{
  ℕ, zero, suc, ◌+◌, ◌*◌, ◌%◌, ◌≤◌, ◌<◌, bit_or, ◌≡◌, refl, sym, ap, ◌∙◌, true, false, ltb, arith,
  ◌≢◌, ◌⊎◌, inl, inr, Bool-cases, eq-cases, subst,
}
use aether_os.Base.Store.{store, store_self, store_ne}
use aether_os.Paging.{
  Space, page_present, page_write, page_entries, entry_at, paging_create_entry, paging_get_address,
  paging_is_present, paging_directory_index, paging_table_index, paging_page_offset, clear_entries,
  add_table, paging_get_physical_address,
}
use aether_os.Paging.Entries.{get_address-create, is_present-create, table_flag}
use aether_os.Paging.Tables.{
  Apart, WellFormed, answer, pde_of, pte_of, physical_walk, walk_agrees, answer-present,
  answer-absent,
}

-- A page at `table` that can become a page table of the directory at `dir`: on a page boundary, apart
-- from the directory and from the tables that it names.
pub record FreeTable (dir : ℕ) (words : ℕ → ℕ) (table : ℕ) : Type 0 where
  pub given : table ≢ 0
  pub aligned : table % 4096 ≡ 0
  pub off_directory : Apart table dir
  pub unused :
      (i : ℕ)
      → i < 1024
      → paging_is_present (words (entry_at dir i)) ≡ true
      → paging_get_address (words (entry_at dir i)) ≢ table

pub clear_entries-outside :
    (table n a : ℕ) (words : ℕ → ℕ)
    → (a < table) ⊎ (table + 4 * n ≤ a)
    → clear_entries table n words a ≡ words a
unfolding clear_entries
clear_entries-outside table zero a words out = refl
clear_entries-outside table (suc n) a words (inl below) =
    store_ne (entry_at table n) 0 a (clear_entries table n words) (λ e. omega (arith, below, e))
    ∙ clear_entries-outside table n a words (inl below)
clear_entries-outside table (suc n) a words (inr above) =
    store_ne (entry_at table n) 0 a (clear_entries table n words) (λ e. omega (arith, above, e))
    ∙ clear_entries-outside table n a words (inr (omega (arith, above)))

clear_entries-entry :
    (table n i : ℕ) (words : ℕ → ℕ) → i < n → clear_entries table n words (entry_at table i) ≡ 0
unfolding clear_entries
clear_entries-entry table zero i words small = absurd (omega (arith, small))
clear_entries-entry table (suc n) i words small = elim (eq-cases i n) [
  | inl same ↦
      ap (λ a. store (entry_at table n) 0 (clear_entries table n words) (entry_at table a)) same
      ∙ store_self (entry_at table n) 0 (clear_entries table n words)
  | inr ne ↦
      store_ne (entry_at table n) 0 (entry_at table i) (clear_entries table n words)
        (λ e. ne (omega (arith, e)))
      ∙ clear_entries-entry table n i words (omega (arith, small, ne))
]

module _ (dir v f table : ℕ) (sp : Space) (ok : WellFormed dir sp.words)
    (absent : paging_is_present (pde_of dir v sp.words) ≡ false)
    (fit : FreeTable dir sp.words table) where
  abbrev pub new_pde : ℕ
  new_pde = paging_create_entry table (bit_or (bit_or page_present page_write) f)

  abbrev pub added : ℕ → ℕ
  added = (add_table dir v table f sp).words

  pub new_pde-table : paging_get_address new_pde ≡ table
  new_pde-table =
      get_address-create table (bit_or (bit_or page_present page_write) f)
      ∙ omega (arith, fit.aligned)

  pub new_pde-present : paging_is_present new_pde ≡ true
  new_pde-present =
      is_present-create table (bit_or (bit_or page_present page_write) f) (table_flag f)

  pub added-pde : pde_of dir v added ≡ new_pde
  unfolding add_table
  added-pde = store_self _ new_pde (clear_entries table page_entries sp.words)

  -- Words outside the new table and the entry for it are kept.
  added-outside :
      (a : ℕ)
      → (a < table) ⊎ (table + 4096 ≤ a)
      → a ≢ entry_at dir (paging_directory_index v)
      → added a ≡ sp.words a
  unfolding add_table
  added-outside a out ne =
      store_ne (entry_at dir (paging_directory_index v)) new_pde a
        (clear_entries table page_entries sp.words) ne
      ∙ clear_entries-outside table page_entries a sp.words out

  added-directory :
      (i : ℕ)
      → i < 1024
      → i ≢ paging_directory_index v
      → added (entry_at dir i) ≡ sp.words (entry_at dir i)
  added-directory i small ne =
      added-outside (entry_at dir i)
        (elim fit.off_directory [
          | inl below ↦ inr (omega (arith, below))
          | inr above ↦ inl (omega (arith, above, small))
        ])
        (λ e. ne (omega (arith, e)))

  added-entry : (i : ℕ) → i < 1024 → added (entry_at table i) ≡ 0
  unfolding add_table
  added-entry i small =
      store_ne (entry_at dir (paging_directory_index v)) new_pde (entry_at table i)
        (clear_entries table page_entries sp.words)
        (elim fit.off_directory [
          | inl below ↦ λ e. omega (arith, below, small, e)
          | inr above ↦ λ e. omega (arith, above, e)
        ])
      ∙ clear_entries-entry table page_entries i sp.words small

  -- An index of the directory is the new one or holds what it held.
  added-index :
      (i : ℕ)
      → i < 1024
      → paging_is_present (added (entry_at dir i)) ≡ true
      → ((i ≡ paging_directory_index v) × (paging_get_address (added (entry_at dir i)) ≡ table))
        ⊎ ((i ≢ paging_directory_index v)
            × (paging_is_present (sp.words (entry_at dir i)) ≡ true)
            × (paging_get_address (added (entry_at dir i))
                ≡ paging_get_address (sp.words (entry_at dir i))))
  added-index i small here = elim (eq-cases i (paging_directory_index v)) [
    | inl same ↦ inl (
      same,
      ap (λ j. paging_get_address (added (entry_at dir j))) same
          ∙ ap paging_get_address added-pde
          ∙ new_pde-table,
    )
    | inr ne ↦
        let kept = added-directory i small ne in
        inr (ne, ap paging_is_present (sym kept) ∙ here, ap paging_get_address kept)
  ]

  pub added-WellFormed : WellFormed dir added
  added-WellFormed = record {
    off_directory = λ i small here. elim (added-index i small here) [
      | inl (_, at) ↦ subst (λ a. Apart a dir) (sym at) fit.off_directory
      | inr (_, there, at) ↦ subst (λ a. Apart a dir) (sym at) (ok.off_directory i small there)
    ];
    one_each = λ i j small small' ne here here'. elim (added-index i small here) [
      | inl (same, at) ↦ elim (added-index j small' here') [
        | inl (same', _) ↦ λ e. ne (same ∙ sym same')
        | inr (_, there', at') ↦ λ e. fit.unused j small' there' (sym at' ∙ sym e ∙ at)
      ]
      | inr (_, there, at) ↦ elim (added-index j small' here') [
        | inl (_, at') ↦ λ e. fit.unused i small there (sym at ∙ e ∙ at')
        | inr (_, there', at') ↦
            λ e. ok.one_each i j small small' ne there there' (sym at ∙ e ∙ at')
      ]
    ];
  }

  -- Every address is translated as before the table was added.
  pub added-walk :
      (w : ℕ) → paging_get_physical_address dir w added ≡ paging_get_physical_address dir w sp.words
  added-walk w = elim (eq-cases (paging_directory_index w) (paging_directory_index v)) [
    | inl same ↦
        let pde : pde_of dir w added ≡ new_pde =
          ap (λ i. added (entry_at dir i)) same ∙ added-pde in
        let pte : pte_of dir w added ≡ 0 =
          ap (λ a. added (entry_at a (paging_table_index w)))
            (ap paging_get_address pde ∙ new_pde-table)
          ∙ added-entry (paging_table_index w) (omega arith) in
        physical_walk dir w added
        ∙ ap (λ e. answer e (pte_of dir w added) (paging_page_offset w)) pde
        ∙ ap (λ e. answer new_pde e (paging_page_offset w)) pte
        ∙ answer-present new_pde 0 (paging_page_offset w) new_pde-present
        ∙ sym (
            answer-absent (pde_of dir w sp.words) (pte_of dir w sp.words) (paging_page_offset w)
              (ap (λ i. paging_is_present (sp.words (entry_at dir i))) same ∙ absent))
        ∙ sym (physical_walk dir w sp.words)
    | inr ne ↦
        walk_agrees dir w added sp.words
          (added-directory (paging_directory_index w) (omega arith) ne)
          (λ there.
            let other = fit.unused (paging_directory_index w) (omega arith) there in
            added-outside
              (entry_at (paging_get_address (pde_of dir w sp.words)) (paging_table_index w))
              (elim (Bool-cases (ltb (paging_get_address (pde_of dir w sp.words)) table)) [
                | inl less ↦ inl (ground (arith, less, fit.aligned))
                | inr more ↦ inr (ground (arith, more, other, fit.aligned))
              ])
              (elim (ok.off_directory (paging_directory_index w) (omega arith) there) [
                | inl below ↦ λ e. omega (arith, below, e)
                | inr above ↦ λ e. omega (arith, above, e)
              ]))
  ]
