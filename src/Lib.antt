-- ===== src/Lib.antt =====
-- A library for reading PDB files: the multi-stream container, address translation, stack frames, binary
-- annotations, symbols, strings, debug information, line entries, types and ids.
--
-- Parts and how they interact.
-- - Prelude: names from the libraries, Boolean tests, 32-bit and 64-bit words, lists measured by native
--   numbers, little-endian bytes, and masks as arithmetic. `usize` has 64 bits. Sums and products wrap,
--   as in a release build, and `debug_assert!` is left out.
-- - Errors, Scroll (src/common.rs): `Error`, `Result` and the conversion of scroll's errors. A panic is
--   a third outcome of `Result`. The package scroll is a parameter, `Scroll`: a reader of integers
--   that gives the little-endian value of the bytes at the offset, or a short read if they are not
--   there.
-- - Buffer (src/common.rs): `ParseBuffer`. Buffer/State.antt has its operations as functions from a
--   buffer to a result and the buffer after it. Buffer/Parse, Buffer/Position and Buffer/Text are about
--   integers, positions and strings. Buffer/Yields, Buffer/Fields and Buffer/Padded have the rules by which
--   the other parts run parsers on bytes that are laid out ahead, Buffer/Advance those on how far a
--   parser moves on any bytes. Buffer/Items has the iterators that end with the buffer and a client
--   that calls them, Buffer/Loop those that skip some items, Buffer/Laid items that are laid out.
--   Buffer/Repeat has loops in the middle of a parser, Buffer/Onward the rules on how far a parser moves that may
--   panic, Buffer/Turns those on loops.
-- - Numeric (src/common.rs, src/tpi/data.rs): `Variant` and `parse_unsigned`, numbers behind a prefix.
-- - PdbInfo (src/pdbi.rs): `PDBInformation`, its `parse` and `stream_names`.
-- - Msf/PageList (src/msf/page_list.rs): `PageList`, its `push`, `truncate` and `len`. A list is read as
--   the positions in the file that its slices name, `covers`.
-- - Msf/Source (src/source.rs): `Source` is an interface that the program's user fills. Its `view` of
--   slices, where it succeeds, has the bytes of the slices; it may fail or panic. Msf/Source/ReadSeek.antt
--   has the source that the library makes of a reader, with its buffer, the panic of a capacity above
--   `isize::MAX` and those of the ranges in the buffer; a file is the list of its bytes.
-- - Msf/Header, Msf/Table, Msf/Stored, Msf/Big (src/msf/mod.rs): the big format. Msf/Stored has the
--   header on disk and the stages of the stream table, Msf/Table the lookup in the table, Msf/Big the
--   methods of `BigMSF` on an explicit state. Msf/Table/Encode writes a stream table out, and
--   Msf/Lookup and Msf/Big/Get run the lookup and `get` on it; Msf/Big/Found has the pages of the table
--   and Msf/Big/Within the views that stay on the pages of the file.
-- - Pe (src/pe.rs): section headers and their parser.
-- - Omap (src/omap.rs): Omap/Search is the binary search of Rust's library, Omap/Table the table, its
--   lookups and `RangeIter`. Omap/Governing, Omap/Ranges, Omap/Image and Omap/LookupRange are about them.
-- - Address (src/omap.rs): `AddressMap` and the conversions of `Rva`, `PdbInternalRva`, `SectionOffset`
--   and `PdbInternalSectionOffset`.
-- - Frames (src/framedata.rs): both frame formats, `FrameData`, `FrameDataIter`, `FrameTable` and its search. Where
--   the bytes of a stream lie in memory is given with them, since `cast_aligned` asks for it.
-- - Annotations (src/symbol/annotations.rs): opcodes, annotations and their iterator.
-- - Streams (src/common.rs): `StreamIndex`.
-- - StringTable (src/strings.rs): the table, its `parse` and its `get`.
-- - Symbols (src/symbol/mod.rs, src/symbol/constants.rs): a symbol, its kind and its name. Symbols/Iter has
--   `SymbolTable` and `SymbolIter`.
-- - Dbi (src/dbi.rs): `DebugInformation` and its header, in Dbi/Information and Dbi/Header. Dbi/Modules,
--   Dbi/Contributions and Dbi/SectionMap have the iterators over its parts, Dbi/ExtraStreams
--   `DBIExtraStreams`.
-- - Modi (src/modi/c13.rs): the subsections of a line program and the inlinees in Modi/Subsections, line
--   entries, column entries and blocks in Modi/Lines, file checksums in Modi/Checksums.
-- - Types (src/tpi): the header of a stream (header.rs) in Types/Header, items and their iterator (mod.rs)
--   in Types/Items, `ItemFinder` (mod.rs) in Types/Finder, primitive types (primitive.rs) in
--   Types/Primitive. Types/Records has `parse_type_data` (data.rs): the structures in Shapes, the bits of
--   properties and attributes in Attributes, the parts that leaves share in Parts, the leaves in Leaves,
--   Members (those of the fields of a list) and Loops,
--   and the match on the leaf, with the lists of fields, in Lists. `String::from_utf8_lossy`, which makes
--   text of the bytes of a name, is a parameter, `lossy`. Types/Ids has `IdData` (id.rs) and `parse` of
--   an item (mod.rs).
-- - Tests: definitions run on small inputs, and the theorems below applied at one input each.
--
-- Bounds and fuel. The loops that read a number of items recurse on that number. The loop of
-- `find_stream_table` runs on fuel, the number of bytes ahead, and each round reads four of them.
-- The binary search halves a window that is no longer than its fuel, the length of the list.
-- `RangeIter::next` moves on one record in each round, and its fuel is two more than the records
-- that are left. `FrameDataIter` moves one index or both in each call, and is collected with the
-- lengths of both lists as fuel. The loops of the iterators over symbols and subsections read
-- bytes in each round, and so do those of Buffer/Repeat and each call of `parse_type_data` by itself; their fuel
-- is one more than the bytes of the buffer, and a run out of fuel is a panic, or for
-- `parse_type_data_within` what its parameter `cut` says. The client that collects what an iterator gives has its own outcome for a run out
-- of fuel. Elsewhere a run out of fuel gives an empty answer, so that too little fuel would show
-- in what is collected.
--
-- Not modelled: the small format's `SmallMSF` and `open_msf`; the record layouts of symbols (other than
-- binary annotations); `LineIterator`, `InlineeLineIterator` and the imports and exports across modules; the front
-- in src/pdb.rs; registers; the characteristics of sections. `Display` and `Debug` only print.
pub mod Address
pub mod Annotations
pub mod Buffer
pub mod Dbi
pub mod Errors
pub mod Frames
pub mod Modi
pub mod Msf
pub mod Numeric
pub mod Omap
pub mod PdbInfo
pub mod Pe
pub mod Prelude
pub mod Scroll
pub mod Streams
pub mod StringTable
pub mod Symbols
pub mod Tests
pub mod Types
