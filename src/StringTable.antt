-- ===== src/StringTable.antt =====
-- src/strings.rs: the global string table, which resolves offsets to strings.
pub mod Lookup
use pdb.Prelude.{ℕ, ◌+◌, ◌-◌, List, length, take, drop, ltb, leb, ◌==◌, ◌&&◌, if◌then◌else◌}
use pdb.Errors.{Result, ok, err, panic, unimplemented_feature, unexpected_eof}
use pdb.Errors
use pdb.Scroll.{Scroll}
use pdb.Buffer.State.{Parser, ParseBuffer, ◌>>=◌, return, parse_u32, parse_cstring, from_bytes, len}

-- `PDB_NMT_HDR`.
abbrev pub pdb_nmt_hdr : ℕ
pdb_nmt_hdr = 0xeffeeffe

pub data StringTableHashVersion : Type 0 where
  long_hash long_hash_v2 : StringTableHashVersion

-- `StringTableHashVersion::parse_u32`.
abbrev pub hash_version_of : ℕ → Result StringTableHashVersion
hash_version_of value =
    if value == 1
    then ok long_hash
    else if value == 2
    then ok long_hash_v2
    else err (unimplemented_feature "unknown string table hash version")

pub record StringTableHeader : Type 0 where
  pub magic : ℕ
  pub hash_version : ℕ
  pub names_size : ℕ

-- The size of the header.
abbrev pub names_start : ℕ
names_start = 12

abbrev pub names_end : StringTableHeader → ℕ
names_end header = names_start + header.names_size

-- `StringTable`, with its stream as bytes.
pub record StringTable : Type 0 where
  pub header : StringTableHeader
  pub hash_version : StringTableHashVersion
  pub stream : List ℕ

module _ (sc : Scroll) where
  -- `try_from_ctx` of the header.
  unfoldable pub parse_header : Parser StringTableHeader
  parse_header = do
    magic ← parse_u32 sc
    hash_version ← parse_u32 sc
    names_size ← parse_u32 sc
    return (record { magic = magic; hash_version = hash_version; names_size = names_size })

  -- What `parse` does with the header and the buffer behind it.
  abbrev pub checked : List ℕ → StringTableHeader → ParseBuffer → Result StringTable
  checked stream header buf =
      if header.magic == pdb_nmt_hdr
      then (if ltb (len buf) (names_end header)
          then err unexpected_eof
          else Errors.◌>>=◌ (hash_version_of header.hash_version) (λ hash_version.
            ok (record { header = header; hash_version = hash_version; stream = stream })))
      else err (unimplemented_feature "invalid string table signature")

  unfoldable pub parse : List ℕ → Result StringTable
  parse stream =
      let (header, buf) = parse_header (from_bytes stream) in
      Errors.◌>>=◌ header (λ header. checked stream header buf)

-- `&slice[start..end]`, which panics out of range.
abbrev pub slice_of : {A : Type 0} → List A → ℕ → ℕ → Result (List A)
slice_of xs start end_ =
    if leb start end_ && leb end_ (length xs)
    then ok (take (end_ - start) (drop start xs))
    else panic

-- `StringTable::get`.
unfoldable pub get : StringTable → ℕ → Result (List ℕ)
get table offset =
    if leb table.header.names_size offset
    then err unexpected_eof
    else Errors.◌>>=◌ (slice_of table.stream (names_start + offset) (names_end table.header))
        (λ names. (parse_cstring (from_bytes names)).0)
