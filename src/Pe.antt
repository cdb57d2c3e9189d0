-- ===== src/Pe.antt =====
-- src/pe.rs: the section headers of an executable.
use pdb.Prelude.{ℕ, List}
use pdb.Scroll.{Scroll}
use pdb.Buffer.State.{Parser, ◌>>=◌, return, parse_u16, parse_u32, take_bytes}

-- `characteristics` is the bit field of `SectionCharacteristics`.
pub record ImageSectionHeader : Type 0 where
  pub name : List ℕ
  pub virtual_size : ℕ
  pub virtual_address : ℕ
  pub size_of_raw_data : ℕ
  pub pointer_to_raw_data : ℕ
  pub pointer_to_relocations : ℕ
  pub pointer_to_line_numbers : ℕ
  pub number_of_relocations : ℕ
  pub number_of_line_numbers : ℕ
  pub characteristics : ℕ

module _ (sc : Scroll) where
  -- `ImageSectionHeader::parse`.
  unfoldable pub parse_section : Parser ImageSectionHeader
  parse_section = do
    name ← take_bytes 8
    virtual_size ← parse_u32 sc
    virtual_address ← parse_u32 sc
    size_of_raw_data ← parse_u32 sc
    pointer_to_raw_data ← parse_u32 sc
    pointer_to_relocations ← parse_u32 sc
    pointer_to_line_numbers ← parse_u32 sc
    number_of_relocations ← parse_u16 sc
    number_of_line_numbers ← parse_u16 sc
    characteristics ← parse_u32 sc
    return (record {
      name = name;
      virtual_size = virtual_size;
      virtual_address = virtual_address;
      size_of_raw_data = size_of_raw_data;
      pointer_to_raw_data = pointer_to_raw_data;
      pointer_to_relocations = pointer_to_relocations;
      pointer_to_line_numbers = pointer_to_line_numbers;
      number_of_relocations = number_of_relocations;
      number_of_line_numbers = number_of_line_numbers;
      characteristics = characteristics;
    })
