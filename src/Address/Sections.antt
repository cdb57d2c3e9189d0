-- ===== src/Address/Sections.antt =====
-- src/omap.rs: section offsets and virtual addresses convert into each other.
use pdb.Prelude.{
  ℕ, zero, suc, ◌+◌, ◌≤◌, ◌<◌, ◌≡◌, List, [], ◌∷◌, none, some, get_elem?, All, u16_mod, u32_mod,
  arith,
}
use pdb.Pe.{ImageSectionHeader}
use pdb.Address.{
  SectionOffset, AddressMap, actual_sections, ◌>>=◌, find_section, get_section_offset,
  get_virtual_address, section_offset_to_internal_offset, section_offset_to_internal_rva,
  internal_rva_to_internal_offset, internal_offset_to_section_offset, internal_offset_to_rva,
  rva_to_section_offset, section_offset_to_rva, rva_to_internal_rva,
  internal_offset_to_internal_rva, internal_rva_to_rva,
}

-- Section headers of an image: in ascending order, not overlapping, within 32 bits.
abbrev pub AreOrdered : List ImageSectionHeader → Type 0
AreOrdered [] = Unit
AreOrdered (s ∷ rest) =
    (s.virtual_address + s.size_of_raw_data < u32_mod)
    × All (λ t. s.virtual_address + s.size_of_raw_data ≤ t.virtual_address) rest
    × AreOrdered rest

All-at :
    (bound : ℕ) (sections : List ImageSectionHeader) (i : ℕ) (s : ImageSectionHeader)
    → All (λ t. bound ≤ t.virtual_address) sections
    → get_elem? sections i ≡ some s
    → bound ≤ s.virtual_address
All-at bound [] i s h e = cc
All-at bound (t ∷ rest) zero s (h, hs) e = ground arith
All-at bound (t ∷ rest) (suc i) s (h, hs) e = All-at bound rest i s hs e

find_section-at :
    (sections : List ImageSectionHeader) (k i : ℕ) (s : ImageSectionHeader) (offset : ℕ)
    → AreOrdered sections
    → get_elem? sections i ≡ some s
    → offset < s.size_of_raw_data
    → k + i + 1 < u16_mod
    → (find_section k sections (s.virtual_address + offset)
        ≡ some (record { section = k + i + 1; offset = offset }))
      × (s.virtual_address + offset < u32_mod)
unfolding find_section
find_section-at [] k i s offset ord e inside few = cc
find_section-at (t ∷ rest) k zero s offset (fits, above, ord) e inside few = ground arith
find_section-at (t ∷ rest) k (suc i) s offset (fits, above, ord) e inside few = ground (
  arith,
  All-at (t.virtual_address + t.size_of_raw_data) rest i s above e,
  find_section-at rest (k + 1) i s offset ord e inside (omega arith),
)

section-address :
    (sections : List ImageSectionHeader) (i : ℕ) (s : ImageSectionHeader) (offset : ℕ)
    → AreOrdered sections
    → get_elem? sections i ≡ some s
    → offset < s.size_of_raw_data
    → suc i < u16_mod
    → (get_virtual_address sections (suc i) offset ≡ some (s.virtual_address + offset))
      × (get_section_offset sections (s.virtual_address + offset)
          ≡ some (record { section = suc i; offset = offset }))
unfolding get_section_offset get_virtual_address
section-address sections i s offset ord e inside few =
    ground (arith, find_section-at sections 0 i s offset ord e inside (omega arith))

-- For an address map whose executable has ordered section headers, an offset inside the raw data of one
-- of the first 65535 sections converts to an `Rva` that is the section's address plus the offset, and
-- that `Rva` converts back to the same offset in the same section.
pub section_offset-rva :
    (m : AddressMap) (i : ℕ) (s : ImageSectionHeader) (offset : ℕ)
    → AreOrdered (actual_sections m)
    → get_elem? (actual_sections m) i ≡ some s
    → offset < s.size_of_raw_data
    → suc i < u16_mod
    → (section_offset_to_rva m (record { section = suc i; offset = offset })
        ≡ some (s.virtual_address + offset))
      × (rva_to_section_offset m (s.virtual_address + offset)
          ≡ some (record { section = suc i; offset = offset }))
unfolding section_offset_to_rva rva_to_section_offset
section_offset-rva m i s offset ord e inside few =
    section-address (actual_sections m) i s offset ord e inside few

-- For an address map with ordered original section headers, no transformed sections and no tables, an
-- offset inside the raw data of one of the first 65535 sections converts to an internal offset, and
-- back, by way of relative addresses or without them, to the same offset in the same section.
pub section_offset-internal_offset :
    (m : AddressMap) (i : ℕ) (s : ImageSectionHeader) (offset : ℕ)
    → m.transformed_sections ≡ none
    → m.transformed_to_original ≡ none
    → m.original_to_transformed ≡ none
    → AreOrdered m.original_sections
    → get_elem? m.original_sections i ≡ some s
    → offset < s.size_of_raw_data
    → suc i < u16_mod
    → (let o : SectionOffset = record { section = suc i; offset = offset } in
        (section_offset_to_internal_offset m o
          ≡ section_offset_to_internal_rva m o >>= internal_rva_to_internal_offset m)
        × (internal_offset_to_section_offset m o
            ≡ internal_offset_to_rva m o >>= rva_to_section_offset m)
        × (section_offset_to_internal_offset m o ≡ some o)
        × (internal_offset_to_section_offset m o ≡ some o))
unfolding section_offset_to_internal_offset section_offset_to_internal_rva
    internal_rva_to_internal_offset internal_offset_to_section_offset internal_offset_to_rva
    rva_to_section_offset section_offset_to_rva rva_to_internal_rva internal_offset_to_internal_rva
    internal_rva_to_rva
section_offset-internal_offset m i s offset a b c ord e inside few =
    ground (arith, section-address m.original_sections i s offset ord e inside few)
