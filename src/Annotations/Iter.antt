-- ===== src/Annotations/Iter.antt =====
-- src/symbol/annotations.rs: `BinaryAnnotationsIter`.
use pdb.Prelude.{
  ℕ, ◌*◌, ◌/◌, ◌%◌, ◌^◌, [], Option, none, some, bit_and, bit_or, ◌==◌, if◌then◌else◌, u32_mod,
}
use pdb.Errors.{Result, ok, invalid_compressed_annotation}
use pdb.Scroll.{Scroll}
use pdb.Buffer.State.{Parser, ◌>>=◌, ◌>>◌, return, fail, from_bytes, parse_u8, is_empty}
use pdb.Annotations.Opcode.{BinaryAnnotationOpcode, parse_opcode}
use pdb.Annotations.Item.{BinaryAnnotation}
use pdb.Prelude.Int.{ℤ, pos, neg}

-- A left shift of a 32-bit number.
abbrev pub shl32 : ℕ → ℕ → ℕ
shl32 a k = a * 2 ^ k % u32_mod

-- A result that moves no position.
abbrev pub lift : {A : Type 0} → Result A → Parser A
lift r b = (r, b)

-- `DecodeSignedInt32`.
unfoldable pub decode_signed_operand : ℕ → ℤ
decode_signed_operand value = if bit_and value 1 == 0 then pos (value / 2) else neg (value / 2)

-- The default buffer is empty: this ends the stream.
abbrev pub clear : Parser (Unit {0})
clear b = (ok tt, from_bytes [])

module _ (sc : Scroll) where
  -- The four bytes of the longest form, of which the first and the second are read.
  abbrev pub uncompress_long : ℕ → ℕ → Parser ℕ
  uncompress_long b1 b2 = do
    b3 ← parse_u8 sc
    b4 ← parse_u8 sc
    (if bit_and b1 0xe0 == 0xc0
        then return
            (bit_or (bit_or (bit_or (shl32 (bit_and b1 0x1f) 24) (shl32 b2 16)) (shl32 b3 8)) b4)
        else fail invalid_compressed_annotation)

  abbrev pub uncompress_longer : ℕ → Parser ℕ
  uncompress_longer b1 = do
    b2 ← parse_u8 sc
    (if bit_and b1 0xc0 == 0x80
        then return (bit_or (shl32 (bit_and b1 0x3f) 8) b2)
        else uncompress_long b1 b2)

  unfoldable pub uncompress_next : Parser ℕ
  uncompress_next = do
    b1 ← parse_u8 sc
    (if bit_and b1 0x80 == 0 then return b1 else uncompress_longer b1)

  abbrev pub operand : (ℕ → BinaryAnnotation) → Parser (Option BinaryAnnotation)
  operand make = do value ← uncompress_next; return (some (make value))

  abbrev pub signed_operand : (ℤ → BinaryAnnotation) → Parser (Option BinaryAnnotation)
  signed_operand make = do
    value ← uncompress_next
    return (some (make (decode_signed_operand value)))

  -- The match on the opcode.
  abbrev pub annotation_of : BinaryAnnotationOpcode → Parser (Option BinaryAnnotation)
  annotation_of BinaryAnnotationOpcode.eof = clear >> return none
  annotation_of BinaryAnnotationOpcode.code_offset = operand BinaryAnnotation.code_offset
  annotation_of BinaryAnnotationOpcode.change_code_offset_base =
      operand BinaryAnnotation.change_code_offset_base
  annotation_of BinaryAnnotationOpcode.change_code_offset =
      operand BinaryAnnotation.change_code_offset
  annotation_of BinaryAnnotationOpcode.change_code_length =
      operand BinaryAnnotation.change_code_length
  annotation_of BinaryAnnotationOpcode.change_file = operand BinaryAnnotation.change_file
  annotation_of BinaryAnnotationOpcode.change_line_offset =
      signed_operand BinaryAnnotation.change_line_offset
  annotation_of BinaryAnnotationOpcode.change_line_end_delta =
      operand BinaryAnnotation.change_line_end_delta
  annotation_of BinaryAnnotationOpcode.change_range_kind =
      operand BinaryAnnotation.change_range_kind
  annotation_of BinaryAnnotationOpcode.change_column_start =
      operand BinaryAnnotation.change_column_start
  annotation_of BinaryAnnotationOpcode.change_column_end_delta =
      signed_operand BinaryAnnotation.change_column_end_delta
  annotation_of BinaryAnnotationOpcode.change_code_offset_and_line_offset = do
    value ← uncompress_next
    return (
        some (
          BinaryAnnotation.change_code_offset_and_line_offset (bit_and value 0xf)
            (decode_signed_operand (value / 2 ^ 4))))
  annotation_of BinaryAnnotationOpcode.change_code_length_and_code_offset = do
    code_length ← uncompress_next
    code_offset ← uncompress_next
    return (some (BinaryAnnotation.change_code_length_and_code_offset code_length code_offset))
  annotation_of BinaryAnnotationOpcode.change_column_end =
      operand BinaryAnnotation.change_column_end

  unfoldable pub next_annotation : Parser (Option BinaryAnnotation)
  next_annotation = do op ← uncompress_next; opcode ← lift (parse_opcode op); annotation_of opcode

  unfoldable pub next : Parser (Option BinaryAnnotation)
  unfolding next_annotation
  next b = if is_empty b then (ok none, b) else next_annotation b
