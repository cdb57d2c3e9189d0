-- ===== src/Tests/Tables.antt =====
-- Sections, frames and annotations on small inputs.
use pdb.Prelude.{ℕ, ◌≡◌, refl, List, [], ◌∷◌, ◌++◌, arith, none, some, ◌⊎◌, ◌↔◌}
use pdb.Pe.{ImageSectionHeader}
use pdb.Address.{
  AddressMap, SectionOffset, ◌>>=◌, section_offset_to_rva, rva_to_section_offset,
  section_offset_to_internal_offset, section_offset_to_internal_rva,
  internal_rva_to_internal_offset, internal_offset_to_section_offset, internal_offset_to_rva,
}
use pdb.Address.Sections.{AreOrdered, section_offset-rva, section_offset-internal_offset}
use pdb.Frames.{OldFrameData, NewFrameData}
use pdb.Frames.Iter.{FrameDataIter, collect, next}
use pdb.Frames.Table.{old_range, binary_search_by_rva}
use pdb.Frames.Search.{AreDisjoint, Covers, binary_search_by_rva-Covers}
use pdb.Prelude.{zero, suc, ◌<◌, ◌+◌, ◌≤◌, get_elem?, u32_mod}
use pdb.Frames.Merge.{AscendFrom, starts, Has, collect-AscendFrom, collect-Has}
use pdb.Buffer.State.{from_bytes}
use pdb.Buffer.Yields.{Yields, from_bytes-Leaves}
use pdb.Annotations.Iter.{uncompress_next}
use pdb.Annotations.RoundTrip.{compress, uncompress_next-compress}
use pdb.Tests.Reader.{little_endian}

abbrev old_frame_at : ℕ → OldFrameData
old_frame_at start = record {
  code_start = start;
  code_size = 4;
  locals_size = 1;
  params_size = 2;
  attributes = 0x4305;
}

abbrev new_frame_at : ℕ → NewFrameData
new_frame_at start = record {
  code_start = start;
  code_size = 4;
  locals_size = 1;
  params_size = 2;
  max_stack_size = 3;
  frame_func = 4;
  prolog_size = 5;
  saved_regs_size = 6;
  flags = 7;
}

abbrev two_streams : FrameDataIter
two_streams = record {
  old_frames = old_frame_at 10 ∷ old_frame_at 20 ∷ [];
  new_frames = new_frame_at 5 ∷ new_frame_at 20 ∷ new_frame_at 30 ∷ [];
  old_index = 0;
  new_index = 1;
}

collect_run : starts (collect two_streams) ≡ (10 ∷ 20 ∷ 30 ∷ [])
unfolding collect next
collect_run = refl

collect-AscendFrom_example : AscendFrom 7 (starts (collect two_streams))
collect-AscendFrom_example =
    collect-AscendFrom two_streams 7 (omega arith, (omega arith, tt))
      (omega arith, (omega arith, tt))

collect-Has_example :
    Has 20 (starts (collect two_streams)) ↔ (Has 20 (10 ∷ 20 ∷ []) ⊎ Has 20 (20 ∷ 30 ∷ []))
collect-Has_example = collect-Has two_streams 20

uncompress_next-compress_example :
    Yields (uncompress_next little_endian) (from_bytes (compress 300 ++ (7 ∷ []))) 300 (7 ∷ [])
uncompress_next-compress_example =
    uncompress_next-compress little_endian (from_bytes (compress 300 ++ (7 ∷ []))) 300 (7 ∷ [])
      (omega arith) (from_bytes-Leaves (compress 300 ++ (7 ∷ [])) (omega arith))

abbrev section_at : ℕ → ℕ → ImageSectionHeader
section_at address size = record {
  name = [];
  virtual_size = size;
  virtual_address = address;
  size_of_raw_data = size;
  pointer_to_raw_data = 0;
  pointer_to_relocations = 0;
  pointer_to_line_numbers = 0;
  number_of_relocations = 0;
  number_of_line_numbers = 0;
  characteristics = 0;
}

abbrev sections : List ImageSectionHeader
sections = section_at 0x1000 0x200 ∷ section_at 0x2000 0x100 ∷ []

abbrev plain_map : AddressMap
plain_map = record {
  original_sections = sections;
  transformed_sections = none;
  transformed_to_original = none;
  original_to_transformed = none;
}

sections-AreOrdered : AreOrdered sections
sections-AreOrdered = (omega arith, (omega arith, tt), (omega arith, tt, tt))

abbrev place : SectionOffset
place = record { section = 2; offset = 0x10 }

section_offset-rva_example :
    (section_offset_to_rva plain_map place ≡ some 0x2010)
    × (rva_to_section_offset plain_map 0x2010 ≡ some place)
section_offset-rva_example =
    section_offset-rva plain_map 1 (section_at 0x2000 0x100) 0x10 sections-AreOrdered refl
      (omega arith) (omega arith)

section_offset-internal_offset_example :
    (section_offset_to_internal_offset plain_map place
      ≡ section_offset_to_internal_rva plain_map place
        >>= internal_rva_to_internal_offset plain_map)
    × (internal_offset_to_section_offset plain_map place
        ≡ internal_offset_to_rva plain_map place >>= rva_to_section_offset plain_map)
    × (section_offset_to_internal_offset plain_map place ≡ some place)
    × (internal_offset_to_section_offset plain_map place ≡ some place)
section_offset-internal_offset_example =
    section_offset-internal_offset plain_map 1 (section_at 0x2000 0x100) 0x10 refl refl refl
      sections-AreOrdered refl (omega arith) (omega arith)

abbrev two_frames : List OldFrameData
two_frames = old_frame_at 10 ∷ old_frame_at 20 ∷ []

two_frames_apart :
    (i j : ℕ) (f g : OldFrameData)
    → i < j
    → get_elem? two_frames i ≡ some f
    → get_elem? two_frames j ≡ some g
    → (f.code_start < g.code_start) × (f.code_start + f.code_size ≤ g.code_start)
two_frames_apart zero zero f g less p q = absurd (omega arith)
two_frames_apart zero (suc zero) f g less p q = ground arith
two_frames_apart zero (suc (suc j)) f g less p q = cc
two_frames_apart (suc zero) zero f g less p q = absurd (omega arith)
two_frames_apart (suc zero) (suc zero) f g less p q = absurd (omega arith)
two_frames_apart (suc zero) (suc (suc j)) f g less p q = cc
two_frames_apart (suc (suc i)) j f g less p q = cc

two_frames_bounded :
    (i : ℕ) (f : OldFrameData)
    → get_elem? two_frames i ≡ some f
    → f.code_start + f.code_size < u32_mod
two_frames_bounded zero f p = ground arith
two_frames_bounded (suc zero) f p = ground arith
two_frames_bounded (suc (suc i)) f p = cc

abbrev two_frames-AreDisjoint : AreDisjoint old_range two_frames
two_frames-AreDisjoint = record { apart = two_frames_apart; bounded = two_frames_bounded }

binary_search_by_rva-Covers_example :
    Covers old_range two_frames two_frames-AreDisjoint 12
      (binary_search_by_rva old_range two_frames 12)
binary_search_by_rva-Covers_example =
    binary_search_by_rva-Covers old_range two_frames two_frames-AreDisjoint 12
