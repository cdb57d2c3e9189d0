-- ===== src/Modi/Lines.antt =====
-- src/modi/c13.rs: line entries, column entries and their blocks.
pub mod Entries
pub mod Blocks
use pdb.Prelude.{
  ℕ, ◌+◌, ◌*◌, ◌/◌, ◌-◌, ◌^◌, ◌%◌, List, drop, take, length, Bool, not, Option, ltb, leb, ◌==◌,
  if◌then◌else◌, bit_and, bit_or, sub64, add32,
}
use pdb.Errors.{Result, ok, panic}
use pdb.Errors
use pdb.Scroll.{Scroll}
use pdb.Buffer.State.{
  at_once, ParseBuffer, Parser, ◌>>=◌, return, from_bytes, parse_u16, parse_u32, take_bytes,
}
use pdb.Buffer.Items.{unless_empty}

pub data LineMarkerKind : Type 0 where
  do_not_step_onto do_not_step_into : LineMarkerKind

pub data LineInfoKind : Type 0 where
  expression statement : LineInfoKind

-- `LineNumberHeader`.
pub record LineNumberHeader : Type 0 where
  pub offset : ℕ
  pub flags : ℕ

pub record LineNumberEntry : Type 0 where
  pub offset : ℕ
  pub start_line : ℕ
  pub end_line : ℕ
  pub kind : LineInfoKind

pub record LineMarkerEntry : Type 0 where
  pub offset : ℕ
  pub kind : LineMarkerKind

pub data LineEntry : Type 0 where
  number : LineNumberEntry → LineEntry
  marker : LineMarkerEntry → LineEntry

-- `self.flags & 0x7f00_0000 >> 24`: the shift binds more tightly than the conjunction.
abbrev pub line_delta : ℕ → ℕ
line_delta flags = bit_and flags (0x7f000000 / 2 ^ 24)

-- The end line, from the start line and the delta.
abbrev pub end_line_from : ℕ → ℕ → ℕ
end_line_from start_line delta =
    let end_line = bit_or (bit_and start_line 0xffffff80) delta in
    if ltb end_line start_line then add32 end_line (2 ^ 7) else end_line

-- `LineNumberHeader::parse`.
unfoldable pub line_entry : LineNumberHeader → LineEntry
line_entry header =
    let start_line = bit_and header.flags 0x00ffffff in
    if start_line == 0xfeefee
    then marker (record { offset = header.offset; kind = do_not_step_onto })
    else if start_line == 0xf00f00
    then marker (record { offset = header.offset; kind = do_not_step_into })
    else number (record {
      offset = header.offset;
      start_line = start_line;
      end_line = end_line_from start_line (line_delta header.flags);
      kind = if bit_and header.flags 0x80000000 == 0 then expression else statement;
    })

pub record ColumnNumberEntry : Type 0 where
  pub start_column : ℕ
  pub end_column : ℕ

pub record DebugLinesHeader : Type 0 where
  pub offset : ℕ
  pub section : ℕ
  pub flags : ℕ
  pub code_size : ℕ

-- `has_columns`.
abbrev pub has_columns : DebugLinesHeader → Bool
has_columns header = not (bit_and header.flags 1 == 0)

pub record DebugLinesBlockHeader : Type 0 where
  pub file_index : ℕ
  pub num_lines : ℕ
  pub block_size : ℕ

abbrev pub data_size : DebugLinesBlockHeader → ℕ
data_size header = sub64 header.block_size 12

abbrev pub line_size : DebugLinesBlockHeader → ℕ
line_size header = header.num_lines * 8

abbrev pub column_size : DebugLinesBlockHeader → DebugLinesHeader → ℕ
column_size header subsection = if has_columns subsection then header.num_lines * 4 else 0

pub record DebugLinesBlock : Type 0 where
  pub header : DebugLinesBlockHeader
  pub line_bytes : List ℕ
  pub column_bytes : List ℕ

-- `split_at`, which panics past the end.
abbrev pub split_at : ℕ → List ℕ → Parser (List ℕ × List ℕ)
split_at mid xs b = if leb mid (length xs) then (ok (take mid xs, drop mid xs), b) else (panic, b)

module _ (sc : Scroll) where
  unfoldable pub parse_line : Parser LineEntry
  parse_line = do
    offset ← parse_u32 sc
    flags ← parse_u32 sc
    return (line_entry (record { offset = offset; flags = flags }))

  -- `DebugLinesIterator::next`.
  unfoldable pub next_line : Parser (Option LineEntry)
  next_line = unless_empty (at_once parse_line)

  unfoldable pub parse_column : Parser ColumnNumberEntry
  parse_column = do
    start_column ← parse_u16 sc
    end_column ← parse_u16 sc
    return (record { start_column = start_column; end_column = end_column })

  -- `DebugColumnsIterator::next`.
  unfoldable pub next_column : Parser (Option ColumnNumberEntry)
  next_column = unless_empty (at_once parse_column)

  -- `DebugLinesHeader::try_from_ctx`.
  unfoldable pub parse_lines_header : Parser DebugLinesHeader
  parse_lines_header = do
    offset ← parse_u32 sc
    section ← parse_u16 sc
    flags ← parse_u16 sc
    code_size ← parse_u32 sc
    return (record { offset = offset; section = section; flags = flags; code_size = code_size })

  -- `DebugLinesBlockHeader::try_from_ctx`.
  unfoldable pub parse_block_header : Parser DebugLinesBlockHeader
  parse_block_header = do
    file_index ← parse_u32 sc
    num_lines ← parse_u32 sc
    block_size ← parse_u32 sc
    return (record { file_index = file_index; num_lines = num_lines; block_size = block_size })

  unfoldable pub parse_block : DebugLinesHeader → Parser DebugLinesBlock
  unfolding parse_block_header
  parse_block subsection = do
    header ← at_once parse_block_header
    bytes ← take_bytes (data_size header)
    (line_bytes, others) ← split_at (line_size header) bytes
    (column_bytes, remainder) ← split_at (column_size header subsection) others
    return (record { header = header; line_bytes = line_bytes; column_bytes = column_bytes })

  -- `DebugLinesBlockIterator::next`, without the assertion on the remainder of debug builds.
  unfoldable pub next_block : DebugLinesHeader → Parser (Option DebugLinesBlock)
  next_block subsection = unless_empty (parse_block subsection)
