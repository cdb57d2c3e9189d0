-- ===== src/Annotations/Opcode.antt =====
-- src/symbol/annotations.rs: the opcodes of binary annotations.
use pdb.Prelude.{ℕ, List, [], ◌∷◌, none, some, get_elem?}
use pdb.Errors.{Result, ok, err, unknown_binary_annotation}

pub data BinaryAnnotationOpcode : Type 0 where
  eof code_offset change_code_offset_base change_code_offset change_code_length :
      BinaryAnnotationOpcode
  change_file change_line_offset change_line_end_delta change_range_kind : BinaryAnnotationOpcode
  change_column_start change_column_end_delta change_code_offset_and_line_offset :
      BinaryAnnotationOpcode
  change_code_length_and_code_offset change_column_end : BinaryAnnotationOpcode

-- The opcodes in the order of their numbers.
abbrev opcodes : List BinaryAnnotationOpcode
opcodes =
    eof ∷ code_offset ∷ change_code_offset_base ∷ change_code_offset ∷ change_code_length
    ∷ change_file ∷ change_line_offset ∷ change_line_end_delta ∷ change_range_kind
    ∷ change_column_start ∷ change_column_end_delta ∷ change_code_offset_and_line_offset
    ∷ change_code_length_and_code_offset ∷ change_column_end ∷ []

-- `BinaryAnnotationOpcode::parse`.
unfoldable pub parse_opcode : ℕ → Result BinaryAnnotationOpcode
parse_opcode value = elim (get_elem? opcodes value) [
  | none ↦ err (unknown_binary_annotation value)
  | some op ↦ ok op
]
