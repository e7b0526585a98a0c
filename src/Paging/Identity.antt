-- ===== src/Paging/Identity.antt =====
-- `paging_identity_map` of src/kernel/paging.c over a range whose page tables exist.
use aether_os.Base.{
  ℕ, zero, suc, ◌+◌, ◌-◌, ◌*◌, ◌/◌, ◌%◌, ◌≤◌, ◌<◌, ◌^◌, ◌≡◌, refl, sym, ap, ◌∙◌, true, arith, ◌⊎◌,
  inl, inr, eq-cases, subst,
}
use aether_os.Base.Words.{shr, clear_low_bits}
use aether_os.Paging.{
  Space, page_size, page_align, paging_is_present, paging_directory_index, paging_map_page,
  paging_get_physical_address, map_pages, paging_identity_map,
}
use aether_os.Paging.Tables.{WellFormed, pde_of, written-directory}
use aether_os.Paging.Map.{paging_map_page-Remapped, map_page-present}

-- `after` translates the addresses `first .. last - 1` to themselves and the others as `words` does.
pub record Identity (dir first last : ℕ) (words after : ℕ → ℕ) : Type 0 where
  pub inside : (a : ℕ) → first ≤ a → a < last → paging_get_physical_address dir a after ≡ a
  pub outside :
      (a : ℕ)
      → a < 2 ^ 32
      → (a < first) ⊎ (last ≤ a)
      → paging_get_physical_address dir a after ≡ paging_get_physical_address dir a words
  pub well_formed : WellFormed dir after

-- The directory has a table for each address of the range.
abbrev pub HasTables : ℕ → ℕ → ℕ → (ℕ → ℕ) → Type 0
HasTables dir first last words =
    (a : ℕ) → first ≤ a → a < last → paging_is_present (pde_of dir a words) ≡ true

map_page-directory :
    (dir v f a : ℕ) (sp : Space)
    → WellFormed dir sp.words
    → paging_is_present (pde_of dir v sp.words) ≡ true
    → pde_of dir a (paging_map_page dir v v f sp).words ≡ pde_of dir a sp.words
map_page-directory dir v f a sp ok here =
    ap (λ words. pde_of dir a words) (map_page-present dir v v f sp here)
    ∙ written-directory dir v _ sp.words ok here (paging_directory_index a) (omega arith)

map_pages-Identity :
    (dir n first f : ℕ) (sp : Space)
    → first % 4096 ≡ 0
    → first + 4096 * n ≤ 2 ^ 32
    → WellFormed dir sp.words
    → HasTables dir first (first + 4096 * n) sp.words
    → Identity dir first (first + 4096 * n) sp.words (map_pages dir n first f sp).words
unfolding map_pages
map_pages-Identity dir zero first f sp aligned small ok tables = record {
  inside = λ a from below. absurd (omega (arith, from, below));
  outside = λ a bound out. refl;
  well_formed = ok;
}
map_pages-Identity dir (suc n) first f sp aligned small ok tables =
    let here : paging_is_present (pde_of dir first sp.words) ≡ true =
      tables first (omega arith) (omega arith) in
    let mapped =
      paging_map_page-Remapped dir first first f sp (omega (arith, small)) ok (inl here) in
    let later =
      map_pages-Identity dir n (first + 4096) f (paging_map_page dir first first f sp)
        (omega (arith, aligned)) (omega (arith, small)) mapped.well_formed
        (λ a from below.
          ap paging_is_present (map_page-directory dir first f a sp ok here)
          ∙ tables a (omega (arith, from)) (omega (arith, below))) in
    record {
      inside = λ a from below. elim (eq-cases (shr a 12) (shr first 12)) [
        | inl same ↦
            later.outside a (omega (arith, below, small)) (inl (omega (arith, same, aligned)))
            ∙ mapped.here a same
            ∙ omega (arith, same, aligned)
        | inr other ↦ later.inside a (omega (arith, from, other, aligned)) (omega (arith, below))
      ];
      outside = λ a bound out. elim out [
        | inl before ↦
            later.outside a bound (inl (omega (arith, before)))
            ∙ mapped.elsewhere a bound (λ e. omega (arith, e, before, aligned))
        | inr behind ↦
            later.outside a bound (inr (omega (arith, behind)))
            ∙ mapped.elsewhere a bound (λ e. omega (arith, e, behind, aligned))
      ];
      well_formed = later.well_formed;
    }

-- For a range that ends a page or more below `2 ^ 32`, a well-formed directory and a table for every
-- address of the range, widened to whole pages: `paging_identity_map` makes each of those addresses
-- translate to itself, leaves every other translation, and the directory is well-formed.
pub paging_identity_map-Identity :
    (dir start end f : ℕ) (sp : Space)
    → start ≤ end
    → end + 4096 ≤ 2 ^ 32
    → WellFormed dir sp.words
    → HasTables dir (clear_low_bits start 12) (page_align end) sp.words
    → Identity dir
        (clear_low_bits start 12)
        (page_align end)
        sp.words
        (paging_identity_map dir start end f sp).words
unfolding paging_identity_map
paging_identity_map-Identity dir start end f sp ordered small ok tables =
    let first = clear_low_bits start 12 in
    let n = (page_align end - first) / page_size in
    let whole : first + 4096 * n ≡ page_align end = omega (arith, ordered, small) in
    subst (λ last. Identity dir first last sp.words (map_pages dir n first f sp).words) whole
      (map_pages-Identity dir n first f sp (omega arith) (omega (arith, whole)) ok
        (subst (λ last. HasTables dir first last sp.words) (sym whole) tables))
