-- ===== src/Annotations/Item.antt =====
-- src/symbol/annotations.rs: `BinaryAnnotation`.
use pdb.Prelude.Int.{ℤ}
use pdb.Prelude.{ℕ, Bool, true, false}

pub data BinaryAnnotation : Type 0 where
  code_offset : ℕ → BinaryAnnotation
  change_code_offset_base : ℕ → BinaryAnnotation
  change_code_offset : ℕ → BinaryAnnotation
  change_code_length : ℕ → BinaryAnnotation
  change_file : ℕ → BinaryAnnotation
  change_line_offset : ℤ → BinaryAnnotation
  change_line_end_delta : ℕ → BinaryAnnotation
  change_range_kind : ℕ → BinaryAnnotation
  change_column_start : ℕ → BinaryAnnotation
  change_column_end_delta : ℤ → BinaryAnnotation
  change_code_offset_and_line_offset : ℕ → ℤ → BinaryAnnotation
  change_code_length_and_code_offset : ℕ → ℕ → BinaryAnnotation
  change_column_end : ℕ → BinaryAnnotation

unfoldable pub emits_line_info : BinaryAnnotation → Bool
emits_line_info (change_code_offset n) = true
emits_line_info (change_code_offset_and_line_offset n m) = true
emits_line_info (change_code_length_and_code_offset n m) = true
emits_line_info _ = false
