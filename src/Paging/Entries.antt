-- ===== src/Paging/Entries.antt =====
-- The entries of include/paging.h: what the helpers read back of `paging_create_entry`, and how an
-- address splits into its two indices.
use aether_os.Base.{
  ℕ, ◌+◌, ◌*◌, ◌/◌, ◌%◌, ◌<◌, ◌^◌, bit_or, ◌≡◌, refl, ap, ◌∙◌, true, ◌==◌, arith, ◌≢◌,
}
use aether_os.Base.Bits.{shift_left, bit_or-shifted, bit_or_odd}
use aether_os.Base.Words.{shr, low_bits, clear_low_bits}
use aether_os.Paging.{
  page_present, page_write, paging_create_entry, paging_get_address, paging_get_flags,
  paging_is_present, paging_directory_index, paging_table_index, paging_page_offset,
}

pub paging_create_entry_lem :
    (a f : ℕ) → paging_create_entry a f ≡ clear_low_bits a 12 + low_bits f 12
unfolding paging_create_entry
paging_create_entry_lem a f =
    let shifted : clear_low_bits a 12 ≡ shift_left 12 (a / 4096) = omega arith in
    ap (λ z. bit_or z (low_bits f 12)) shifted
    ∙ bit_or-shifted 12 (a / 4096) (low_bits f 12) (omega arith)
    ∙ omega arith

pub get_address-create :
    (a f : ℕ) → paging_get_address (paging_create_entry a f) ≡ clear_low_bits a 12
get_address-create a f = omega (arith, paging_create_entry_lem a f)

pub get_flags-create : (a f : ℕ) → paging_get_flags (paging_create_entry a f) ≡ low_bits f 12
get_flags-create a f = omega (arith, paging_create_entry_lem a f)

pub is_present-create : (a f : ℕ) → f % 2 ≡ 1 → paging_is_present (paging_create_entry a f) ≡ true
is_present-create a f odd =
    let lowest : low_bits (paging_create_entry a f) 1 ≡ 1 =
      omega (arith, paging_create_entry_lem a f, odd) in
    ap (λ z. z == 1) lowest

pub present_flag : (f : ℕ) → bit_or page_present f % 2 ≡ 1
present_flag f = bit_or_odd 1 f refl

pub table_flag : (f : ℕ) → bit_or (bit_or page_present page_write) f % 2 ≡ 1
table_flag f = bit_or_odd 3 f refl

-- Two addresses on different pages differ in one of their indices.
pub page_apart :
    (v w : ℕ)
    → v < 2 ^ 32
    → w < 2 ^ 32
    → shr w 12 ≢ shr v 12
    → paging_directory_index w ≡ paging_directory_index v
    → paging_table_index w ≢ paging_table_index v
page_apart v w small small' other same e = other (omega (arith, small, small', same, e))

pub address_split :
    (v : ℕ)
    → v < 2 ^ 32
    → paging_directory_index v * 2 ^ 22 + paging_table_index v * 2 ^ 12 + paging_page_offset v ≡ v
address_split v small = omega (arith, small)
