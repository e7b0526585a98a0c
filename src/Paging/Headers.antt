-- ===== src/Paging/Headers.antt =====
-- The header words that `kmalloc` writes for src/kernel/paging.c, and the directories that they leave alone.
use aether_os.Base.{
  ℕ, ◌+◌, ◌*◌, ◌≤◌, ◌<◌, ◌≡◌, refl, sym, ap, ◌∙◌, true, arith, ◌≢◌, ◌⊎◌, inl, inr, List, [], ◌∷◌,
  ◌==◌, if◌then◌else◌, eq-cases, subst, ==_ne,
}
use aether_os.Base.Store.{store_ne}
use aether_os.Memory.{Heap, MemoryBlock, kmalloc}
use aether_os.Paging.{
  Space, entry_at, paging_get_address, paging_is_present, paging_directory_index,
  paging_table_index, write_header, write_headers, touched, allocate_page,
  paging_get_physical_address,
}
use aether_os.Paging.Tables.{WellFormed, Apart, walk_agrees}
use aether_os.Paging.NewTable.{FreeTable}

-- The `size` bytes at `a` hold nothing of the headers of these blocks, 0 for none.
unfoldable pub Off : ℕ → ℕ → List ℕ → Type 0
Off size a [] = Unit {0}
Off size a (block ∷ others) =
    ((block ≡ 0) ⊎ ((a + size ≤ block) ⊎ (block + 16 ≤ a))) × Off size a others

-- The headers that a `kmalloc(4096)` may write.
abbrev pub headers : Space → List ℕ
headers sp = touched (kmalloc 4096 sp.heap).0 (kmalloc 4096 sp.heap).1

-- `kmalloc(4096)` writes no header in the directory or in a table that it names.
pub record HeadersOff (dir : ℕ) (sp : Space) : Type 0 where
  pub directory : Off 4096 dir (headers sp)
  pub tables :
      (i : ℕ)
      → i < 1024
      → paging_is_present (sp.words (entry_at dir i)) ≡ true
      → Off 4096 (paging_get_address (sp.words (entry_at dir i))) (headers sp)

write_header-outside :
    (block a : ℕ) (b : MemoryBlock) (words : ℕ → ℕ)
    → (a < block) ⊎ (block + 16 ≤ a)
    → write_header block b words a ≡ words a
unfolding write_header
write_header-outside block a b words (inl below) =
    store_ne block _ a _ (λ e. omega (arith, e, below))
    ∙ store_ne (block + 4) _ a _ (λ e. omega (arith, e, below))
    ∙ store_ne (block + 8) _ a _ (λ e. omega (arith, e, below))
    ∙ store_ne (block + 12) _ a _ (λ e. omega (arith, e, below))
write_header-outside block a b words (inr above) =
    store_ne block _ a _ (λ e. omega (arith, e, above))
    ∙ store_ne (block + 4) _ a _ (λ e. omega (arith, e, above))
    ∙ store_ne (block + 8) _ a _ (λ e. omega (arith, e, above))
    ∙ store_ne (block + 12) _ a _ (λ e. omega (arith, e, above))

write_headers-outside :
    (size a i : ℕ) (heap : Heap) (blocks : List ℕ) (words : ℕ → ℕ)
    → i < size
    → Off size a blocks
    → write_headers heap blocks words (a + i) ≡ words (a + i)
unfolding write_headers Off
write_headers-outside size a i heap [] words small off = refl
write_headers-outside size a i heap (block ∷ others) words small (off, offs) =
    elim (eq-cases block 0) [
      | inl none ↦
          ap
            (λ b.
              (if b == 0
                  then write_headers heap others words
                  else write_header block (heap.blocks block) (write_headers heap others words))
                (a + i))
            none
          ∙ write_headers-outside size a i heap others words small offs
      | inr ne ↦
          ap
            (λ b.
              (if b
                  then write_headers heap others words
                  else write_header block (heap.blocks block) (write_headers heap others words))
                (a + i))
            (==_ne block 0 ne)
          ∙ write_header-outside block (a + i) (heap.blocks block) (write_headers heap others words)
              (place off ne)
          ∙ write_headers-outside size a i heap others words small offs
    ]
  where
    place :
        (block ≡ 0) ⊎ ((a + size ≤ block) ⊎ (block + 16 ≤ a))
        → block ≢ 0
        → (a + i < block) ⊎ (block + 16 ≤ a + i)
    place (inl e) ne = absurd (ne e)
    place (inr (inl below)) ne = inl (omega (arith, below, small))
    place (inr (inr above)) ne = inr (omega (arith, above))

-- A word outside the headers is kept by the `kmalloc`.
pub allocate_page-kept :
    (size a i : ℕ) (sp : Space)
    → i < size
    → Off size a (headers sp)
    → (allocate_page sp).1.words (a + i) ≡ sp.words (a + i)
unfolding allocate_page
allocate_page-kept size a i sp small off = elim (eq-cases (kmalloc 4096 sp.heap).0 0) [
  | inl none ↦
      ap
        (λ ptr.
          (if ptr == 0
              then sp.words
              else write_headers (kmalloc 4096 sp.heap).1 (headers sp) sp.words)
            (a + i))
        none
  | inr ne ↦
      ap
        (λ b.
          (if b then sp.words else write_headers (kmalloc 4096 sp.heap).1 (headers sp) sp.words)
            (a + i))
        (==_ne (kmalloc 4096 sp.heap).0 0 ne)
      ∙ write_headers-outside size a i (kmalloc 4096 sp.heap).1 (headers sp) sp.words small off
]

pub allocate_page-none :
    (sp : Space) → (kmalloc 4096 sp.heap).0 ≡ 0 → (allocate_page sp).1.words ≡ sp.words
unfolding allocate_page
allocate_page-none sp full =
    ap
      (λ ptr.
        if ptr == 0 then sp.words else write_headers (kmalloc 4096 sp.heap).1 (headers sp) sp.words)
      full

module _ (dir : ℕ) (sp : Space) (off : HeadersOff dir sp) where
  pub kept-directory :
      (i : ℕ) → i < 1024 → (allocate_page sp).1.words (entry_at dir i) ≡ sp.words (entry_at dir i)
  kept-directory i small =
      allocate_page-kept 4096 dir (4 * i) sp (omega (arith, small)) off.directory

  pub allocated-WellFormed : WellFormed dir sp.words → WellFormed dir (allocate_page sp).1.words
  allocated-WellFormed ok = record {
    off_directory = λ i small.
        subst (λ e. paging_is_present e ≡ true → Apart (paging_get_address e) dir)
          (sym (kept-directory i small)) (ok.off_directory i small);
    one_each = λ i j small small' ne.
        subst
          (λ e.
            paging_is_present e ≡ true
            → paging_is_present ((allocate_page sp).1.words (entry_at dir j)) ≡ true
            → paging_get_address e
              ≢ paging_get_address ((allocate_page sp).1.words (entry_at dir j)))
          (sym (kept-directory i small))
          (subst
            (λ e.
              paging_is_present (sp.words (entry_at dir i)) ≡ true
              → paging_is_present e ≡ true
              → paging_get_address (sp.words (entry_at dir i)) ≢ paging_get_address e)
            (sym (kept-directory j small')) (ok.one_each i j small small' ne));
  }

  pub allocated-FreeTable :
      (table : ℕ) → FreeTable dir sp.words table → FreeTable dir (allocate_page sp).1.words table
  allocated-FreeTable table fit = record {
    given = fit.given;
    aligned = fit.aligned;
    off_directory = fit.off_directory;
    unused = λ i small.
        subst (λ e. paging_is_present e ≡ true → paging_get_address e ≢ table)
          (sym (kept-directory i small)) (fit.unused i small);
  }

  -- Every address is translated as before the `kmalloc`.
  pub allocated-walk :
      (w : ℕ)
      → paging_get_physical_address dir w (allocate_page sp).1.words
        ≡ paging_get_physical_address dir w sp.words
  allocated-walk w =
      walk_agrees dir w (allocate_page sp).1.words sp.words
        (kept-directory (paging_directory_index w) (omega arith))
        (λ there.
          allocate_page-kept 4096
            (paging_get_address (sp.words (entry_at dir (paging_directory_index w))))
            (4 * paging_table_index w) sp (omega arith)
            (off.tables (paging_directory_index w) (omega arith) there))
