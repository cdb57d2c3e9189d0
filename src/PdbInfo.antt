-- ===== src/PdbInfo.antt =====
-- src/pdbi.rs: the information stream, with the names of other streams. Streams are kept as bytes.
pub mod Written
pub mod Names
use pdb.Prelude.{ℕ, ◌+◌, ◌*◌, ◌%◌, ◌^◌, List, length, drop, leb, if◌then◌else◌}
use pdb.Errors.{Result, ok, panic}
use pdb.Errors
use pdb.Scroll.{Scroll}
use pdb.Buffer.State.{
  ParseBuffer, Parser, ◌>>=◌, ◌>>◌, return, parse_u16, parse_u32, take_bytes, from_bytes,
  parse_cstring,
}
use pdb.Buffer.Repeat.{repeat_times}
use pdb.Dbi.Header.{HeaderVersion, header_version}

-- What `Uuid::from_fields` is given.
pub record Guid : Type 0 where
  pub d1 : ℕ
  pub d2 : ℕ
  pub d3 : ℕ
  pub d4 : List ℕ

pub record Fields : Type 0 where
  pub version : HeaderVersion
  pub signature : ℕ
  pub age : ℕ
  pub guid : Guid
  pub names_size : ℕ

pub record PdbInformation : Type 0 where
  pub version : HeaderVersion
  pub signature : ℕ
  pub age : ℕ
  pub guid : Guid
  pub names_offset : ℕ
  pub names_size : ℕ
  pub stream : List ℕ

pub record StreamName : Type 0 where
  pub name : List ℕ
  pub stream_id : ℕ

-- `buf.pos()`.
abbrev pub position : Parser ℕ
position b = (ok b.pos, b)

-- A result on another buffer.
abbrev pub lift : {A : Type 0} → Result A → Parser A
lift result b = (result, b)

-- `&names_buf[name_offset..]`, which panics past the end, and the name there.
abbrev pub name_at : List ℕ → ℕ → Result (List ℕ)
name_at names name_offset =
    if leb name_offset (length names)
    then (parse_cstring (from_bytes (drop name_offset names))).0
    else panic

module _ (sc : Scroll) where
  -- The fields that are stored.
  unfoldable pub parse_fields : Parser Fields
  parse_fields = do
    version ← parse_u32 sc
    signature ← parse_u32 sc
    age ← parse_u32 sc
    d1 ← parse_u32 sc
    d2 ← parse_u16 sc
    d3 ← parse_u16 sc
    d4 ← take_bytes 8
    names_size ← parse_u32 sc
    return (record {
      version = header_version version;
      signature = signature;
      age = age;
      guid = record { d1 = d1; d2 = d2; d3 = d3; d4 = d4 };
      names_size = names_size;
    })

  abbrev pub parse_information : List ℕ → Parser PdbInformation
  parse_information stream = do
    fields ← parse_fields
    names_offset ← position
    return (record {
      version = fields.version;
      signature = fields.signature;
      age = fields.age;
      guid = fields.guid;
      names_offset = names_offset;
      names_size = fields.names_size;
      stream = stream;
    })

  -- `PDBInformation::parse`.
  unfoldable pub parse : List ℕ → Result PdbInformation
  unfolding parse_fields
  parse stream = (parse_information stream (from_bytes stream)).0

  -- The map in front of its entries, of which only the count is used.
  abbrev pub map_count : PdbInformation → Parser ℕ
  map_count info = do
    skipped ← take_bytes (info.names_offset + info.names_size)
    count ← parse_u32 sc
    entries_size ← parse_u32 sc
    ok_words ← parse_u32 sc
    ok_bits ← take_bytes (ok_words * 4)
    deleted_words ← parse_u32 sc
    deleted_bits ← take_bytes (deleted_words * 4)
    return count

  -- The names, with a reader of their own.
  abbrev pub names_of : PdbInformation → Result (List ℕ)
  names_of info =
      ((take_bytes info.names_offset >>= λ skipped. take_bytes info.names_size)
        (from_bytes info.stream)).0

  abbrev pub parse_entry : List ℕ → Parser StreamName
  parse_entry names = do
    name_offset ← parse_u32 sc
    stream_id ← parse_u32 sc
    name ← lift (name_at names name_offset)
    return (record { name = name; stream_id = stream_id % 2 ^ 16 })

  abbrev pub parse_names : PdbInformation → Parser (List StreamName)
  parse_names info = do
    count ← map_count info
    names ← lift (names_of info)
    repeat_times count (parse_entry names)

  -- `PDBInformation::stream_names`.
  unfoldable pub stream_names : PdbInformation → Result (List StreamName)
  unfolding repeat_times
  stream_names info = (parse_names info (from_bytes info.stream)).0
