-- ===== src/Dbi/SectionMap.antt =====
-- src/dbi.rs: the section map and the iterator over it.
use pdb.Prelude.{ℕ, Option}
use pdb.Scroll.{Scroll}
use pdb.Buffer.State.{Parser, ◌>>=◌, return, parse_u8, parse_u16, parse_u32}
use pdb.Buffer.Items.{unless_empty}

pub record DbiSectionMapItem : Type 0 where
  pub flags : ℕ
  pub section_type : ℕ
  pub overlay : ℕ
  pub group : ℕ
  pub section_number : ℕ
  pub seg_name_index : ℕ
  pub class_name_index : ℕ
  pub rva_offset : ℕ
  pub section_length : ℕ

-- `DBISectionMapIter` without its buffer.
pub record DbiSectionCounts : Type 0 where
  pub sec_count : ℕ
  pub sec_count_log : ℕ

module _ (sc : Scroll) where
  -- `DBISectionMapItem::parse`.
  unfoldable pub parse_map_item : Parser DbiSectionMapItem
  parse_map_item = do
    flags ← parse_u8 sc
    section_type ← parse_u8 sc
    overlay ← parse_u16 sc
    group ← parse_u16 sc
    section_number ← parse_u16 sc
    seg_name_index ← parse_u16 sc
    class_name_index ← parse_u16 sc
    rva_offset ← parse_u32 sc
    section_length ← parse_u32 sc
    return (record {
      flags = flags;
      section_type = section_type;
      overlay = overlay;
      group = group;
      section_number = section_number;
      seg_name_index = seg_name_index;
      class_name_index = class_name_index;
      rva_offset = rva_offset;
      section_length = section_length;
    })

  -- `DBISectionMapIter::parse`.
  unfoldable pub parse_section_map : Parser DbiSectionCounts
  parse_section_map = do
    sec_count ← parse_u16 sc
    sec_count_log ← parse_u16 sc
    return (record { sec_count = sec_count; sec_count_log = sec_count_log })

  -- `DBISectionMapIter::next`.
  unfoldable pub next_map_item : Parser (Option DbiSectionMapItem)
  next_map_item = unless_empty parse_map_item
