-- ===== src/Types/Header.antt =====
-- src/tpi/header.rs: the header of a stream of types or ids.
use pdb.Prelude.{ℕ, ◌-◌, Bool, true, false, ltb, if◌then◌else◌, ◌%◌, u32_mod}
use pdb.Prelude.Int.{ℤ, pos, signed}
use pdb.Errors.{ok, invalid_type_information_header}
use pdb.Scroll.{u32, size_of, Scroll}
use pdb.Buffer.State.{Parser, ◌>>=◌, ◌>>◌, return, fail, is_empty, parse_u16, parse_u32, take_bytes}

pub record Slice : Type 0 where
  pub offset : ℤ
  pub size : ℕ

pub record Header : Type 0 where
  pub version : ℕ
  pub header_size : ℕ
  pub minimum_index : ℕ
  pub maximum_index : ℕ
  pub gprec_size : ℕ
  pub tpi_hash_stream : ℕ
  pub tpi_hash_pad_stream : ℕ
  pub hash_key_size : ℕ
  pub hash_bucket_size : ℕ
  pub hash_values : Slice
  pub ti_off : Slice
  pub hash_adj : Slice

abbrev empty_slice : Slice
empty_slice = record { offset = pos 0; size = 0 }

-- `Header::empty`.
unfoldable pub empty_header : Header
empty_header = record {
  version = 0;
  header_size = 0;
  minimum_index = 0;
  maximum_index = 0;
  gprec_size = 0;
  tpi_hash_stream = 0;
  tpi_hash_pad_stream = 0;
  hash_key_size = 0;
  hash_bucket_size = 0;
  hash_values = empty_slice;
  ti_off = empty_slice;
  hash_adj = empty_slice;
}

-- `buf.pos()`.
abbrev pub position : Parser ℕ
position b = (ok b.pos, b)

-- `if condition { return Err(..); }`.
abbrev pub reject : Bool → Parser (Unit {0}) → Parser (Unit {0})
reject condition failure = if condition then failure else return tt

module _ (sc : Scroll) where
  -- `parse` at `i32`.
  abbrev pub parse_i32 : Parser ℤ
  parse_i32 = do v ← parse_u32 sc; return (signed (size_of u32) v)

  abbrev pub parse_slice : Parser Slice
  parse_slice = do
    offset ← parse_i32
    size ← parse_u32 sc
    return (record { offset = offset; size = size })

  unfoldable pub parse_fields : Parser Header
  parse_fields = do
    version ← parse_u32 sc
    header_size ← parse_u32 sc
    minimum_index ← parse_u32 sc
    maximum_index ← parse_u32 sc
    gprec_size ← parse_u32 sc
    tpi_hash_stream ← parse_u16 sc
    tpi_hash_pad_stream ← parse_u16 sc
    hash_key_size ← parse_u32 sc
    hash_bucket_size ← parse_u32 sc
    hash_values ← parse_slice
    ti_off ← parse_slice
    hash_adj ← parse_slice
    return (record {
      version = version;
      header_size = header_size;
      minimum_index = minimum_index;
      maximum_index = maximum_index;
      gprec_size = gprec_size;
      tpi_hash_stream = tpi_hash_stream;
      tpi_hash_pad_stream = tpi_hash_pad_stream;
      hash_key_size = hash_key_size;
      hash_bucket_size = hash_bucket_size;
      hash_values = hash_values;
      ti_off = ti_off;
      hash_adj = hash_adj;
    })

-- What follows the fields: the tests on the sizes, the rest of the header, the tests on the indexes.
unfoldable pub validate : Header → Parser Header
validate header = do
  position_read ← position
  let bytes_read = position_read % u32_mod
  reject (ltb header.header_size bytes_read)
      (fail (invalid_type_information_header "header size is impossibly small"))
  reject (ltb 1024 header.header_size)
      (fail (invalid_type_information_header "header size is unreasonably large"))
  take_bytes (header.header_size - bytes_read)
  reject (ltb header.minimum_index 4096)
      (fail (invalid_type_information_header "minimum type index is < 4096"))
  reject (ltb header.maximum_index header.minimum_index)
      (fail (invalid_type_information_header "maximum type index is < minimum type index"))
  return header

module _ (sc : Scroll) where
  -- `Header::parse`. An empty buffer stands for a stream that is missing.
  unfoldable pub parse_header : Parser Header
  parse_header b = elim (is_empty b) [
    | true ↦ (ok empty_header, b)
    | false ↦ (parse_fields sc >>= validate) b
  ]
