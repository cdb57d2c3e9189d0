-- ===== src/Tests/Programs.antt =====
-- Modules, their streams and their line programs at small inputs.
use pdb.Prelude.{ℕ, List, [], ◌∷◌, ◌++◌, ◌≡◌, refl, arith}
use pdb.Errors.{ok}
use pdb.Buffer.State.{ParseBuffer, from_bytes}
use pdb.Buffer.Position.{IsValid}
use pdb.Buffer.Items.{collect, finished, Ends}
use pdb.Buffer.Laid.{laid}
use pdb.Dbi.Contributions.{DbiSectionContribution, v2, next_contribution}
use pdb.Dbi.SectionMap.{next_map_item}
use pdb.Dbi.Modules.{DbiModuleInfo, DbiModule, next_module}
use pdb.Dbi.Modules.Safety.{next_module-Ends}
use pdb.Dbi.Modules.RoundTrip.{IsModule, module_bytes, modules-module_bytes}
use pdb.Dbi.ExtraStreams
use pdb.Dbi.ExtraStreams.Indexes.{index_bytes, fields_of, parse-index_bytes}
use pdb.Modi.Lines.{DebugLinesHeader, line_entry, number, statement, parse_block}
use pdb.Modi.Lines.Entries.{flags_of, line_entry-flags_of}
use pdb.Modi.Lines.Blocks.{block_bytes, parse_block-block_bytes}
use pdb.Modi.Checksums.{FileChecksumEntry, no_checksum, md5, next_entry}
use pdb.Modi.Checksums.RoundTrip.{entry_bytes, entries-entry_bytes}
use pdb.Modi.Subsections.{next_subsection, next_inlinee}
use pdb.Modi.Lines.{next_line, next_column}
use pdb.Modi.Safety.{next_subsection-Ends}
use pdb.Tests.Reader.{little_endian}

abbrev some_bytes : ParseBuffer
some_bytes = from_bytes (1 ∷ 2 ∷ 3 ∷ 4 ∷ 5 ∷ 6 ∷ 7 ∷ 8 ∷ 9 ∷ [])

some_bytes-IsValid : IsValid some_bytes
some_bytes-IsValid = record { within = omega arith; small = omega arith }

next_module-Ends_example :
    Ends (collect 10 (next_module little_endian) some_bytes)
    × Ends (collect 10 (next_contribution little_endian v2) some_bytes)
    × Ends (collect 10 (next_map_item little_endian) some_bytes)
next_module-Ends_example = next_module-Ends little_endian v2 some_bytes some_bytes-IsValid

next_subsection-Ends_example :
    Ends (collect 10 (next_subsection little_endian) some_bytes)
    × Ends (collect 10 (next_inlinee little_endian 1) some_bytes)
    × Ends (collect 10 (next_line little_endian) some_bytes)
    × Ends (collect 10 (next_column little_endian) some_bytes)
    × Ends (collect 10 (next_entry little_endian) some_bytes)
next_subsection-Ends_example = next_subsection-Ends little_endian 1 some_bytes some_bytes-IsValid

abbrev contribution : DbiSectionContribution
contribution = record {
  place = record { offset = 16; section = 1 };
  size = 32;
  characteristics = 0x60000020;
  module_index = 0;
  data_crc = 7;
  reloc_crc = 8;
}

abbrev module_info : DbiModuleInfo
module_info = record {
  opened = 0;
  section = contribution;
  flags = 2;
  stream = 12;
  symbols_size = 100;
  lines_size = 0;
  c13_lines_size = 40;
  files = 3;
  padding = 0;
  filename_offsets = 0;
  source = 0;
  compiler = 0;
}

abbrev some_module : DbiModule
some_module = record { info = module_info; module_name = 97 ∷ []; object_file_name = 98 ∷ 99 ∷ [] }

some_module-IsModule : IsModule some_module
some_module-IsModule = record {
  info = record {
    opened = omega arith;
    section = record {
      section = omega arith;
      offset = omega arith;
      size = omega arith;
      characteristics = omega arith;
      module_index = omega arith;
      data_crc = omega arith;
      reloc_crc = omega arith;
    };
    flags = omega arith;
    stream = omega arith;
    symbols_size = omega arith;
    lines_size = omega arith;
    c13_lines_size = omega arith;
    files = omega arith;
    padding = omega arith;
    filename_offsets = omega arith;
    source = omega arith;
    compiler = omega arith;
  };
  module_name = (omega arith, tt);
  object_file_name = (omega arith, (omega arith, tt));
}

modules-module_bytes_example :
    collect 3
      (next_module little_endian)
      (from_bytes (laid module_bytes (some_module ∷ some_module ∷ [])))
    ≡ finished (some_module ∷ some_module ∷ [])
modules-module_bytes_example =
    modules-module_bytes little_endian (some_module ∷ some_module ∷ []) 3
      (some_module-IsModule, (some_module-IsModule, tt)) (omega arith) (omega arith)

parse-index_bytes_example :
    (ExtraStreams.parse little_endian (from_bytes (index_bytes (5 ∷ 0xffff ∷ 7 ∷ [])))).0
    ≡ ok (fields_of (5 ∷ 0xffff ∷ 7 ∷ []))
parse-index_bytes_example =
    parse-index_bytes little_endian (5 ∷ 0xffff ∷ 7 ∷ [])
      (omega arith, (omega arith, (omega arith, tt))) (omega arith)

-- A statement from line 130 to line 133.
line_entry-flags_of_example :
    line_entry (record { offset = 16; flags = flags_of 130 5 1 })
    ≡ number (record { offset = 16; start_line = 130; end_line = 130; kind = statement })
line_entry-flags_of_example =
    line_entry-flags_of 16 130 5 1 (omega arith) (omega arith) (omega arith) (omega arith)
      (omega arith)

abbrev one_line : List ℕ
one_line = 0 ∷ 0 ∷ 0 ∷ 0 ∷ 5 ∷ 0 ∷ 0 ∷ 128 ∷ []

abbrev with_columns : DebugLinesHeader
with_columns = record { offset = 0; section = 1; flags = 1; code_size = 64 }

abbrev one_column : List ℕ
one_column = 3 ∷ 0 ∷ 9 ∷ 0 ∷ []

parse_block-block_bytes_example :
    (parse_block little_endian with_columns
      (from_bytes (block_bytes 3 1 (one_line ++ one_column) []))).0
    ≡ ok (record {
      header = record { file_index = 3; num_lines = 1; block_size = 24 };
      line_bytes = one_line;
      column_bytes = one_column;
    })
parse_block-block_bytes_example =
    parse_block-block_bytes little_endian 3 1 (one_line ++ one_column) [] with_columns
      (from_bytes (block_bytes 3 1 (one_line ++ one_column) [])) (omega arith) (omega arith)
      (omega arith)
      (record { valid = record { within = omega arith; small = omega arith }; left = refl })

abbrev two_checksums : List FileChecksumEntry
two_checksums =
    record { name = 1; checksum = no_checksum }
    ∷ record { name = 20; checksum = md5 (7 ∷ 8 ∷ 9 ∷ []) }
    ∷ []

entries-entry_bytes_example :
    collect 3 (next_entry little_endian) (from_bytes (laid entry_bytes two_checksums))
    ≡ finished two_checksums
entries-entry_bytes_example =
    entries-entry_bytes little_endian two_checksums 3
      ((omega arith, omega arith), ((omega arith, omega arith), tt)) (omega arith) (omega arith)
