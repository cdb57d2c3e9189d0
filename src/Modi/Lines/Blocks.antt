-- ===== src/Modi/Lines/Blocks.antt =====
-- src/modi/c13.rs: blocks of lines, and the line and column entries in them.
use pdb.Prelude.{
  ℕ, ◌+◌, ◌-◌, ◌*◌, ◌%◌, ◌==◌, ◌^◌, ◌<◌, ◌≡◌, refl, ap, ◌∙◌, List, ◌++◌, length, take, drop,
  length-drop, leb, if◌then◌else◌, le_bytes, arith, sub64, Bool-cases, inl, inr, Bool,
}
use pdb.Prelude.Bits.{bit_and-one}
use mathlib.Core.Path.{subst}
use pdb.Errors.{Result, ok, panic}
use pdb.Scroll.{Scroll, u32}
use pdb.Buffer.State.{ParseBuffer, Parser, ◌>>=◌, return}
use pdb.Buffer.Yields.{Leaves, Yields-parse_uint, Yields-take_bytes}
use pdb.Modi.Lines.{
  DebugLinesHeader, DebugLinesBlockHeader, DebugLinesBlock, parse_block, line_size, column_size,
  split_at,
}

-- A block: its header, for as many bytes as follow, and these bytes.
abbrev pub block_bytes : ℕ → ℕ → List ℕ → List ℕ → List ℕ
block_bytes file_index num_lines bytes rest =
    le_bytes 4 file_index
    ++ (le_bytes 4 num_lines ++ (le_bytes 4 (12 + length bytes) ++ (bytes ++ rest)))

abbrev pub block_header : ℕ → ℕ → List ℕ → DebugLinesBlockHeader
block_header file_index num_lines bytes = record {
  file_index = file_index;
  num_lines = num_lines;
  block_size = 12 + length bytes;
}

-- The lines, and behind them the columns, by the bytes that they take.
abbrev pub block_of : DebugLinesBlockHeader → ℕ → ℕ → List ℕ → DebugLinesBlock
block_of header lines columns bytes = record {
  header = header;
  line_bytes = take lines bytes;
  column_bytes = take columns (drop lines bytes);
}

-- Bit 0 of the flags says that there are columns.
abbrev pub columns_in : DebugLinesHeader → ℕ → ℕ
columns_in subsection num_lines = if subsection.flags % 2 == 1 then num_lines * 4 else 0

column_size_lem :
    (header : DebugLinesBlockHeader) (subsection : DebugLinesHeader)
    → column_size header subsection ≡ columns_in subsection header.num_lines
column_size_lem header subsection = rw (bit_and-one subsection.flags) (ground arith)

two_tests :
    {A : Type 0} (n m k : ℕ) (x y : A)
    → (if leb n k then (if leb m (k - n) then x else y) else y) ≡ (if leb (n + m) k then x else y)
two_tests n m k x y = ground arith

size_left : (n : ℕ) → 12 + n < 2 ^ 32 → sub64 (12 + n) 12 ≡ n
size_left n h = ground arith

module _ (sc : Scroll) where
  -- What `parse_block` does with the bytes that it took.
  abbrev split_block : DebugLinesBlockHeader → DebugLinesHeader → List ℕ → Parser DebugLinesBlock
  split_block header subsection bytes = do
    (line_bytes, others) ← split_at (line_size header) bytes
    (column_bytes, remainder) ← split_at (column_size header subsection) others
    return (record { header = header; line_bytes = line_bytes; column_bytes = column_bytes })

  -- Where both splits are within the bytes, and where one is not.
  abbrev split_off : (fits fits' : Bool) → DebugLinesBlock → Result DebugLinesBlock
  split_off fits fits' block = if fits then (if fits' then ok block else panic) else panic

  split_block_lem :
      (header : DebugLinesBlockHeader) (subsection : DebugLinesHeader) (bytes : List ℕ)
      (b : ParseBuffer)
      → (split_block header subsection bytes b).0
        ≡ split_off
            (leb (line_size header) (length bytes))
            (leb (column_size header subsection) (length (drop (line_size header) bytes)))
            (block_of header (line_size header) (column_size header subsection) bytes)
  split_block_lem header subsection bytes b =
      elim (Bool-cases (leb (line_size header) (length bytes))) [
        | inl fits ↦
            rw fits
              (elim (Bool-cases
                (leb (column_size header subsection) (length (drop (line_size header) bytes)))) [
                  | inl fits' ↦ rw fits' refl
                  | inr short ↦ rw short refl
                ])
        | inr short ↦ rw short refl
      ]

  parse_block-sizes :
      (file_index num_lines : ℕ) (bytes rest : List ℕ) (subsection : DebugLinesHeader)
      (b : ParseBuffer)
      → file_index < 2 ^ 32
      → num_lines < 2 ^ 32
      → 12 + length bytes < 2 ^ 32
      → Leaves b (block_bytes file_index num_lines bytes rest)
      → let header = block_header file_index num_lines bytes in
        (parse_block sc subsection b).0 ≡ (
          if leb (line_size header + column_size header subsection) (length bytes)
          then ok (block_of header (line_size header) (column_size header subsection) bytes)
          else panic)
  unfolding parse_block
  parse_block-sizes file_index num_lines bytes rest subsection b h h' h'' l =
      let header = block_header file_index num_lines bytes in
      let (b1, r1, l1) = Yields-parse_uint sc u32 b file_index _ (omega arith) l in
      let (b2, r2, l2) = Yields-parse_uint sc u32 b1 num_lines _ (omega arith) l1 in
      let (b3, r3, l3) = Yields-parse_uint sc u32 b2 (12 + length bytes) _ (omega arith) l2 in
      let (b4, r4, l4) = Yields-take_bytes (length bytes) b3 bytes rest refl l3 in
      rw (r1, r2, r3, size_left (length bytes) h'', r4)
        (split_block_lem header subsection bytes b4
          ∙ ap
              (λ (n : ℕ).
                split_off (leb (line_size header) (length bytes))
                  (leb (column_size header subsection) n)
                  (block_of header (line_size header) (column_size header subsection) bytes))
              (length-drop (line_size header) bytes)
          ∙ two_tests (line_size header) (column_size header subsection) (length bytes)
              (ok (block_of header (line_size header) (column_size header subsection) bytes)) panic)

  -- A block whose header gives the size of the block, with the bytes of the block behind it, is parsed
  -- into its lines of eight bytes each and, behind them and only if bit 0 of the subsection's flags is
  -- set, its columns of four bytes each, where the number of lines in the header leaves room for them,
  -- and panics where it does not; the numbers have to fit 32 bits.
  pub parse_block-block_bytes :
      (file_index num_lines : ℕ) (bytes rest : List ℕ) (subsection : DebugLinesHeader)
      (b : ParseBuffer)
      → file_index < 2 ^ 32
      → num_lines < 2 ^ 32
      → 12 + length bytes < 2 ^ 32
      → Leaves b (block_bytes file_index num_lines bytes rest)
      → let columns = if subsection.flags % 2 == 1 then num_lines * 4 else 0 in
        (parse_block sc subsection b).0 ≡ (
          if leb (num_lines * 8 + columns) (length bytes)
          then ok (record {
            header = block_header file_index num_lines bytes;
            line_bytes = take (num_lines * 8) bytes;
            column_bytes = take columns (drop (num_lines * 8) bytes);
          })
          else panic)
  parse_block-block_bytes file_index num_lines bytes rest subsection b h h' h'' l =
      let header = block_header file_index num_lines bytes in
      subst
        (λ (columns : ℕ). (parse_block sc subsection b).0 ≡ (
          if leb (num_lines * 8 + columns) (length bytes)
          then ok (block_of header (num_lines * 8) columns bytes)
          else panic))
        (column_size_lem header subsection)
        (parse_block-sizes file_index num_lines bytes rest subsection b h h' h'' l)
