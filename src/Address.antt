-- ===== src/Address.antt =====
-- src/omap.rs: `AddressMap`, and the conversions between the four kinds of addresses.
pub mod Sections
use pdb.Prelude.{
  ℕ, zero, suc, ◌+◌, List, [], ◌∷◌, Bool, true, false, Option, none, some, ltb, leb, if◌then◌else◌,
  add32, sub32, get_elem?, u16_mod, ◌%◌,
}
use pdb.Pe.{ImageSectionHeader}
use pdb.Omap.Table.{OmapRecord, Range, RangeIter, lookup, lookup_range, identity_iter}

-- `Rva` and `PdbInternalRva` are 32-bit numbers; this is `SectionOffset` and `PdbInternalSectionOffset`.
pub record SectionOffset : Type 0 where
  pub offset : ℕ
  pub section : ℕ

pub record AddressMap : Type 0 where
  pub original_sections : List ImageSectionHeader
  pub transformed_sections : Option (List ImageSectionHeader)
  pub transformed_to_original : Option (List OmapRecord)
  pub original_to_transformed : Option (List OmapRecord)

infixl 5 ◌>>=◌
abbrev pub ◌>>=◌ : {A B : Type 0} → Option A → (A → Option B) → Option B
none >>= f = none
some a >>= f = f a

-- `take_while`, `enumerate` and `find`, from the index `i` on.
unfoldable pub find_section : ℕ → List ImageSectionHeader → ℕ → Option SectionOffset
find_section i [] address = none
find_section i (s ∷ rest) address =
    let others = find_section (i + 1) rest address in
    if leb s.virtual_address address
    then (if ltb address (add32 s.virtual_address s.size_of_raw_data)
        then some (record {
          section = (i % u16_mod + 1) % u16_mod;
          offset = sub32 address s.virtual_address;
        })
        else others)
    else none

unfoldable pub get_section_offset : List ImageSectionHeader → ℕ → Option SectionOffset
unfolding find_section
get_section_offset sections address = find_section 0 sections address

unfoldable pub get_virtual_address : List ImageSectionHeader → ℕ → ℕ → Option ℕ
get_virtual_address sections zero offset = none
get_virtual_address sections (suc i) offset = elim (get_elem? sections i) [
  | none ↦ none
  | some s ↦ some (add32 s.virtual_address offset)
]

-- The sections of the executable: the transformed ones, if there are any.
abbrev pub actual_sections : AddressMap → List ImageSectionHeader
actual_sections m = elim m.transformed_sections [
  | none ↦ m.original_sections
  | some sections ↦ sections
]

-- A translation by a table, where there is one.
abbrev pub through : Option (List OmapRecord) → ℕ → Option ℕ
through none address = some address
through (some omap) address = lookup omap address

-- `AddressMap::rva_ranges` and `internal_rva_ranges`.
abbrev pub ranges_through : Option (List OmapRecord) → Range → Option RangeIter
ranges_through none r = some (identity_iter r)
ranges_through (some omap) r = lookup_range omap r

unfoldable pub rva_ranges : AddressMap → Range → Option RangeIter
rva_ranges m r = ranges_through m.original_to_transformed r

unfoldable pub internal_rva_ranges : AddressMap → Range → Option RangeIter
internal_rva_ranges m r = ranges_through m.transformed_to_original r

-- `Rva::to_internal_rva`, `PdbInternalRva::to_rva`.
unfoldable pub rva_to_internal_rva : AddressMap → ℕ → Option ℕ
rva_to_internal_rva m rva = through m.transformed_to_original rva

unfoldable pub internal_rva_to_rva : AddressMap → ℕ → Option ℕ
internal_rva_to_rva m rva = through m.original_to_transformed rva

-- `Rva::to_section_offset`, `PdbInternalRva::to_internal_offset`.
unfoldable pub rva_to_section_offset : AddressMap → ℕ → Option SectionOffset
rva_to_section_offset m rva = get_section_offset (actual_sections m) rva

unfoldable pub internal_rva_to_internal_offset : AddressMap → ℕ → Option SectionOffset
internal_rva_to_internal_offset m rva = get_section_offset m.original_sections rva

-- `Rva::to_internal_offset`, `PdbInternalRva::to_section_offset`.
unfoldable pub rva_to_internal_offset : AddressMap → ℕ → Option SectionOffset
unfolding rva_to_internal_rva internal_rva_to_internal_offset
rva_to_internal_offset m rva = rva_to_internal_rva m rva >>= internal_rva_to_internal_offset m

unfoldable pub internal_rva_to_section_offset : AddressMap → ℕ → Option SectionOffset
unfolding internal_rva_to_rva rva_to_section_offset
internal_rva_to_section_offset m rva = internal_rva_to_rva m rva >>= rva_to_section_offset m

-- `SectionOffset::to_rva`, `to_internal_rva` and `to_internal_offset`.
unfoldable pub section_offset_to_rva : AddressMap → SectionOffset → Option ℕ
section_offset_to_rva m s = get_virtual_address (actual_sections m) s.section s.offset

unfoldable pub section_offset_to_internal_rva : AddressMap → SectionOffset → Option ℕ
unfolding section_offset_to_rva rva_to_internal_rva
section_offset_to_internal_rva m s = section_offset_to_rva m s >>= rva_to_internal_rva m

unfoldable pub section_offset_to_internal_offset : AddressMap → SectionOffset → Option SectionOffset
unfolding section_offset_to_internal_rva internal_rva_to_internal_offset
section_offset_to_internal_offset m s = elim m.transformed_sections [
  | none ↦ some s
  | some sections ↦ section_offset_to_internal_rva m s >>= internal_rva_to_internal_offset m
]

-- `PdbInternalSectionOffset::to_internal_rva`, `to_rva` and `to_section_offset`.
unfoldable pub internal_offset_to_internal_rva : AddressMap → SectionOffset → Option ℕ
internal_offset_to_internal_rva m s = get_virtual_address m.original_sections s.section s.offset

unfoldable pub internal_offset_to_rva : AddressMap → SectionOffset → Option ℕ
unfolding internal_offset_to_internal_rva internal_rva_to_rva
internal_offset_to_rva m s = internal_offset_to_internal_rva m s >>= internal_rva_to_rva m

unfoldable pub internal_offset_to_section_offset : AddressMap → SectionOffset → Option SectionOffset
unfolding internal_offset_to_rva rva_to_section_offset
internal_offset_to_section_offset m s = elim m.transformed_sections [
  | none ↦ some s
  | some sections ↦ internal_offset_to_rva m s >>= rva_to_section_offset m
]
