-- ===== src/Paging/Tables.antt =====
-- Well-formed directories, and what a write to an entry of a table does to every translation.
use aether_os.Base.{
  ℕ, ◌+◌, ◌≤◌, ◌<◌, ◌^◌, ◌≡◌, refl, sym, ap, ◌∙◌, true, false, arith, ◌≢◌, ◌⊎◌, inl, inr,
  if◌then◌else◌, Bool-cases, eq-cases, subst,
}
use aether_os.Base.Store.{store, store_self, store_ne}
use aether_os.Base.Words.{shr}
use aether_os.Paging.{
  entry_at, paging_get_address, paging_is_present, paging_directory_index, paging_table_index,
  paging_page_offset, paging_get_physical_address,
}
use aether_os.Paging.Entries.{page_apart}

-- Two regions of one page at `a` and `b` do not overlap.
abbrev pub Apart : ℕ → ℕ → Type 0
Apart a b = (a + 4096 ≤ b) ⊎ (b + 4096 ≤ a)

-- The tables that the directory at `dir` names are apart from it, and no two indices share a table.
pub record WellFormed (dir : ℕ) (words : ℕ → ℕ) : Type 0 where
  pub off_directory :
      (i : ℕ)
      → i < 1024
      → paging_is_present (words (entry_at dir i)) ≡ true
      → Apart (paging_get_address (words (entry_at dir i))) dir
  pub one_each :
      (i j : ℕ)
      → i < 1024
      → j < 1024
      → i ≢ j
      → paging_is_present (words (entry_at dir i)) ≡ true
      → paging_is_present (words (entry_at dir j)) ≡ true
      → paging_get_address (words (entry_at dir i)) ≢ paging_get_address (words (entry_at dir j))

-- What a table entry answers for an offset.
abbrev pub found : ℕ → ℕ → ℕ
found pte offset = if paging_is_present pte then paging_get_address pte + offset else 0

-- What the walk answers for a directory entry, a table entry and an offset.
abbrev pub answer : ℕ → ℕ → ℕ → ℕ
answer pde pte offset = if paging_is_present pde then found pte offset else 0

pub answer-present :
    (pde pte offset : ℕ) → paging_is_present pde ≡ true → answer pde pte offset ≡ found pte offset
answer-present pde pte offset here = ap (λ b. if b then found pte offset else 0) here

pub answer-absent : (pde pte offset : ℕ) → paging_is_present pde ≡ false → answer pde pte offset ≡ 0
answer-absent pde pte offset gone = ap (λ b. if b then found pte offset else 0) gone

-- the directory entry and the table entry of an address
abbrev pub pde_of : ℕ → ℕ → (ℕ → ℕ) → ℕ
pde_of dir v words = words (entry_at dir (paging_directory_index v))

abbrev pub pte_of : ℕ → ℕ → (ℕ → ℕ) → ℕ
pte_of dir v words =
    words (entry_at (paging_get_address (pde_of dir v words)) (paging_table_index v))

pub physical_walk :
    (dir v : ℕ) (words : ℕ → ℕ)
    → paging_get_physical_address dir v words
      ≡ answer (pde_of dir v words) (pte_of dir v words) (paging_page_offset v)
unfolding paging_get_physical_address
physical_walk dir v words = refl

-- Where two memories agree on the entries of an address, so do the translations.
pub walk_agrees :
    (dir v : ℕ) (after words : ℕ → ℕ)
    → pde_of dir v after ≡ pde_of dir v words
    → (paging_is_present (pde_of dir v words) ≡ true
        → after (entry_at (paging_get_address (pde_of dir v words)) (paging_table_index v))
          ≡ pte_of dir v words)
    → paging_get_physical_address dir v after ≡ paging_get_physical_address dir v words
walk_agrees dir v after words pde pte =
    let offset = paging_page_offset v in
    let moved : pte_of dir v after
        ≡ after (entry_at (paging_get_address (pde_of dir v words)) (paging_table_index v)) =
      ap (λ e. after (entry_at (paging_get_address e) (paging_table_index v))) pde in
    physical_walk dir v after
    ∙ ap (λ e. answer e (pte_of dir v after) offset) pde
    ∙ ap (λ e. answer (pde_of dir v words) e offset) moved
    ∙ elim (Bool-cases (paging_is_present (pde_of dir v words))) [
      | inl here ↦ ap (λ e. answer (pde_of dir v words) e offset) (pte here)
      | inr gone ↦
          answer-absent (pde_of dir v words) _ offset gone
          ∙ sym (answer-absent (pde_of dir v words) (pte_of dir v words) offset gone)
    ]
    ∙ sym (physical_walk dir v words)

-- The directory keeps its entries, so it stays well-formed.
pub WellFormed-kept :
    (dir : ℕ) (after words : ℕ → ℕ)
    → ((i : ℕ) → i < 1024 → after (entry_at dir i) ≡ words (entry_at dir i))
    → WellFormed dir words
    → WellFormed dir after
WellFormed-kept dir after words same ok = record {
  off_directory = λ i small here.
      subst (λ e. Apart (paging_get_address e) dir) (sym (same i small))
        (ok.off_directory i small (ap paging_is_present (sym (same i small)) ∙ here));
  one_each = λ i j small small' ne here there e.
      ok.one_each i j small small' ne (ap paging_is_present (sym (same i small)) ∙ here)
        (ap paging_is_present (sym (same j small')) ∙ there)
        (ap paging_get_address (sym (same i small)) ∙ e ∙ ap paging_get_address (same j small'));
}

-- Memory after `entry` is written for `v` into its table.
abbrev pub written : ℕ → ℕ → ℕ → (ℕ → ℕ) → ℕ → ℕ
written dir v entry words =
    store (entry_at (paging_get_address (pde_of dir v words)) (paging_table_index v)) entry words

module _ (dir v entry : ℕ) (words : ℕ → ℕ) (ok : WellFormed dir words)
    (here : paging_is_present (pde_of dir v words) ≡ true) where
  pub written-directory :
      (i : ℕ) → i < 1024 → written dir v entry words (entry_at dir i) ≡ words (entry_at dir i)
  written-directory i small =
      store_ne (entry_at (paging_get_address (pde_of dir v words)) (paging_table_index v)) entry
        (entry_at dir i) words
        (elim (ok.off_directory (paging_directory_index v) (omega arith) here) [
          | inl below ↦ λ e. omega (arith, below, small, e)
          | inr above ↦ λ e. omega (arith, above, small, e)
        ])

  pub written-WellFormed : WellFormed dir (written dir v entry words)
  written-WellFormed = WellFormed-kept dir (written dir v entry words) words written-directory ok

  pub written-here :
      paging_get_physical_address dir v (written dir v entry words)
      ≡ found entry (paging_page_offset v)
  written-here =
      let after = written dir v entry words in
      let table = paging_get_address (pde_of dir v words) in
      let pde : pde_of dir v after ≡ pde_of dir v words =
        written-directory (paging_directory_index v) (omega arith) in
      let pte : pte_of dir v after ≡ entry =
        ap (λ e. after (entry_at (paging_get_address e) (paging_table_index v))) pde
        ∙ store_self (entry_at table (paging_table_index v)) entry words in
      physical_walk dir v after
      ∙ ap (λ e. answer e (pte_of dir v after) (paging_page_offset v)) pde
      ∙ ap (λ e. answer (pde_of dir v words) e (paging_page_offset v)) pte
      ∙ answer-present (pde_of dir v words) entry (paging_page_offset v) here

  -- Addresses on other pages are translated as before.
  pub written-elsewhere :
      (w : ℕ)
      → v < 2 ^ 32
      → w < 2 ^ 32
      → shr w 12 ≢ shr v 12
      → paging_get_physical_address dir w (written dir v entry words)
        ≡ paging_get_physical_address dir w words
  written-elsewhere w small small' other =
      let table = paging_get_address (pde_of dir v words) in
      let table' = paging_get_address (pde_of dir w words) in
      walk_agrees dir w (written dir v entry words) words
        (written-directory (paging_directory_index w) (omega arith))
        (λ there.
          store_ne (entry_at table (paging_table_index v)) entry
            (entry_at table' (paging_table_index w)) words
            (elim (eq-cases (paging_directory_index w) (paging_directory_index v)) [
              | inl same ↦ λ e.
                  let tables : table' ≡ table =
                    ap (λ i. paging_get_address (words (entry_at dir i))) same in
                  omega (arith, e, tables, page_apart v w small small' other same)
              | inr ne ↦ λ e.
                  ok.one_each (paging_directory_index w) (paging_directory_index v) (omega arith)
                    (omega arith) ne there here (omega (arith, e))
            ]))

-- Addresses on one page share their entries.
written-page :
    (dir v w entry : ℕ) (words : ℕ → ℕ)
    → shr w 12 ≡ shr v 12
    → written dir v entry words ≡ written dir w entry words
written-page dir v w entry words same =
    let index : paging_directory_index v ≡ paging_directory_index w = omega (arith, same) in
    let slot : paging_table_index v ≡ paging_table_index w = omega (arith, same) in
    ap
      (λ i.
        store (entry_at (paging_get_address (words (entry_at dir i))) (paging_table_index v)) entry
          words)
      index
    ∙ ap (λ j. store (entry_at (paging_get_address (pde_of dir w words)) j) entry words) slot

pub written-on_page :
    (dir v w entry : ℕ) (words : ℕ → ℕ)
    → WellFormed dir words
    → paging_is_present (pde_of dir v words) ≡ true
    → shr w 12 ≡ shr v 12
    → paging_get_physical_address dir w (written dir v entry words)
      ≡ found entry (paging_page_offset w)
written-on_page dir v w entry words ok here same =
    let index : paging_directory_index v ≡ paging_directory_index w = omega (arith, same) in
    ap (paging_get_physical_address dir w) (written-page dir v w entry words same)
    ∙ written-here dir w entry words ok
        (ap (λ i. paging_is_present (words (entry_at dir i))) (sym index) ∙ here)
