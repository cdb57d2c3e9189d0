-- ===== src/Modi/Checksums.antt =====
-- src/modi/c13.rs: the checksums of source files.
pub mod RoundTrip
use pdb.Prelude.{ℕ, List, [], leb, if◌then◌else◌, Option, ◌==◌}
use pdb.Errors.{Result, ok, err, unimplemented_file_checksum_kind}
use pdb.Errors
use pdb.Scroll.{Scroll}
use pdb.Buffer.State.{
  at_once, ParseBuffer, Parser, ◌>>=◌, ◌>>◌, return, fail, from_bytes, parse_u8, parse_u32,
  take_bytes, align,
}
use pdb.Buffer.Items.{unless_empty}

-- `FileChecksum`.
pub data FileChecksum : Type 0 where
  no_checksum : FileChecksum
  md5 sha1 sha256 : List ℕ → FileChecksum

-- `FileChecksumKind::parse` and the match on the kind.
abbrev pub checksum_of : ℕ → List ℕ → Parser FileChecksum
checksum_of kind bytes =
    if kind == 0
    then return no_checksum
    else if kind == 1
    then return (md5 bytes)
    else if kind == 2
    then return (sha1 bytes)
    else if kind == 3
    then return (sha256 bytes)
    else fail (unimplemented_file_checksum_kind kind)

pub record FileChecksumHeader : Type 0 where
  pub name_offset : ℕ
  pub checksum_size : ℕ
  pub checksum_kind : ℕ

-- `FileChecksumEntry`, with the reference to its name as a number.
pub record FileChecksumEntry : Type 0 where
  pub name : ℕ
  pub checksum : FileChecksum

module _ (sc : Scroll) where
  -- `FileChecksumHeader::try_from_ctx`.
  unfoldable pub parse_checksum_header : Parser FileChecksumHeader
  parse_checksum_header = do
    name_offset ← parse_u32 sc
    checksum_size ← parse_u8 sc
    checksum_kind ← parse_u8 sc
    return (record {
      name_offset = name_offset;
      checksum_size = checksum_size;
      checksum_kind = checksum_kind;
    })

  unfoldable pub parse_entry : Parser FileChecksumEntry
  unfolding parse_checksum_header
  parse_entry = do
    header ← at_once parse_checksum_header
    checksum_bytes ← take_bytes header.checksum_size
    checksum ← checksum_of header.checksum_kind checksum_bytes
    align 4
    return (record { name = header.name_offset; checksum = checksum })

  -- `DebugFileChecksumsIterator::next`.
  unfoldable pub next_entry : Parser (Option FileChecksumEntry)
  next_entry = unless_empty parse_entry

-- `entries_at_offset`: the buffer of the iterator.
unfoldable pub entries_at_offset : List ℕ → ℕ → Result ParseBuffer
entries_at_offset bytes offset =
    let (skipped, buf) = take_bytes offset (from_bytes bytes) in
    Errors.◌>>=◌ skipped (λ skipped. ok buf)
