-- ===== src/Tests/Records.antt =====
-- Types, ids and named streams on small inputs.
use pdb.Prelude.{
  ltb, if◌then◌else◌, ℕ, ◌≡◌, ◌≢◌, ◌↔◌, ◌≤◌, refl, List, [], ◌∷◌, ◌++◌, le_bytes, arith, some, none,
}
use pdb.Prelude.Int.{negsuc}
use pdb.Errors.{unexpected_eof, ok, panic}
use pdb.Buffer.State.{ParseBuffer, from_bytes, parse_u16, parse_uint}
use pdb.Buffer.Position.{IsValid}
use pdb.Buffer.Yields.{Yields, from_bytes-Leaves}
use pdb.Numeric.{Variant, of_i16, parse_variant, parse_unsigned}
use pdb.Numeric.RoundTrip.{
  variant_bytes, unsigned_bytes, parse_variant-variant_bytes, parse_unsigned-unsigned_bytes,
}
use pdb.Types.Records.Shapes.{TypeData, enumerate, member, field_list}
use pdb.Types.Records.Lists.{parse_type_data, parse_type_data_within, lf_fieldlist}
use pdb.Types.Records.RoundTrip.{fields_bytes, fields_of, parse_type_data-fields_bytes}
use pdb.Types.Records.Ends.{parse_type_data_within-fuel, parse_type_data-never-panics}
use pdb.Types.Records.Pointers.{mode_of, parse_type_data-panics}
use pdb.Types.Ids.{IdData, string, parse_id}
use pdb.Types.Ids.RoundTrip.{id_bytes, parse_id-id_bytes, parse_id-never-panics}
use pdb.PdbInfo.{parse, stream_names}
use pdb.PdbInfo.Written.{Written, IsWritten, stream_of, info_of, names_in}
use pdb.PdbInfo.Names.{parse-stream_names}
use pdb.Tests.Reader.{little_endian}

abbrev minus_two : Variant
minus_two = of_i16 (negsuc 1)

parse_variant-variant_bytes_example :
    Yields
      (parse_variant little_endian)
      (from_bytes (variant_bytes minus_two (9 ∷ [])))
      minus_two
      (9 ∷ [])
parse_variant-variant_bytes_example =
    parse_variant-variant_bytes little_endian (from_bytes (variant_bytes minus_two (9 ∷ [])))
      minus_two (9 ∷ []) (omega arith)
      (from_bytes-Leaves (variant_bytes minus_two (9 ∷ [])) (omega arith))

parse_unsigned-unsigned_bytes_example :
    Yields
      (parse_unsigned little_endian)
      (from_bytes (unsigned_bytes 0x9000 (9 ∷ [])))
      0x9000
      (9 ∷ [])
parse_unsigned-unsigned_bytes_example =
    parse_unsigned-unsigned_bytes little_endian (from_bytes (unsigned_bytes 0x9000 (9 ∷ []))) 0x9000
      (9 ∷ []) (omega arith) (from_bytes-Leaves (unsigned_bytes 0x9000 (9 ∷ [])) (omega arith))

-- Text of bytes, with the mark of replacement for each byte that is not ASCII.
abbrev ascii_text : List ℕ → List ℕ
ascii_text [] = []
ascii_text (ch ∷ rest) =
    if ltb ch 128 then ch ∷ ascii_text rest else 0xef ∷ 0xbf ∷ 0xbd ∷ ascii_text rest

-- An enumerate with a value, two bytes of padding, and a member.
abbrev two_fields : List (TypeData × ℕ)
two_fields =
    (enumerate (record { attributes = 3; value = minus_two; name = 65 ∷ [] }), 2)
    ∷ (member (record { attributes = 3; field_type = 0x74; offset = 8; name = 66 ∷ 200 ∷ [] }), 0)
    ∷ []

abbrev list_bytes : List ℕ
list_bytes = le_bytes 2 lf_fieldlist ++ fields_bytes two_fields (some 0x1003)

parse_type_data-fields_bytes_example :
    Yields
      (parse_type_data little_endian ascii_text)
      (from_bytes list_bytes)
      (field_list (fields_of ascii_text two_fields) (some 0x1003))
      []
parse_type_data-fields_bytes_example =
    parse_type_data-fields_bytes little_endian ascii_text (from_bytes list_bytes) two_fields
      (some 0x1003)
      (
        ((omega arith, omega arith, ((λ e. cc), tt)), omega arith),
        (((omega arith, omega arith, omega arith, ((λ e. cc), ((λ e. cc), tt))), omega arith), tt),
      )
      (omega arith) (from_bytes-Leaves list_bytes (omega arith))

list_bytes-IsValid : IsValid (from_bytes list_bytes)
list_bytes-IsValid = record { within = omega arith; small = omega arith }

parse_type_data_within-fuel_example :
    parse_type_data_within little_endian ascii_text none 40 (from_bytes list_bytes)
    ≡ parse_type_data_within little_endian ascii_text
        (some unexpected_eof)
        90
        (from_bytes list_bytes)
parse_type_data_within-fuel_example =
    parse_type_data_within-fuel little_endian ascii_text none (some unexpected_eof) 40 90
      (from_bytes list_bytes) list_bytes-IsValid (omega arith) (omega arith)

-- A bit field that is cut off.
abbrev cut_off : ParseBuffer
cut_off = from_bytes (0x05 ∷ 0x12 ∷ 1 ∷ [])

cut_off-IsValid : IsValid cut_off
cut_off-IsValid = record { within = omega arith; small = omega arith }

cut_off_leaf : parse_u16 little_endian cut_off ≡ (ok 0x1205, record cut_off { pos = 2 })
unfolding parse_uint
cut_off_leaf = refl

parse_type_data-never-panics_example : (parse_type_data little_endian ascii_text cut_off).0 ≢ panic
parse_type_data-never-panics_example =
    parse_type_data-never-panics little_endian ascii_text cut_off (record cut_off { pos = 2 })
      0x1205 cut_off-IsValid cut_off_leaf (λ e. omega (arith, e)) refl

-- A pointer with mode 5.
abbrev bad_pointer : List ℕ
bad_pointer = le_bytes 2 0x1002 ++ (le_bytes 4 0x74 ++ (le_bytes 4 0xa0 ++ []))

parse_type_data-panics_example :
    ((parse_type_data little_endian ascii_text (from_bytes bad_pointer)).0 ≡ panic)
    ↔ (5 ≤ mode_of 0xa0)
parse_type_data-panics_example =
    parse_type_data-panics little_endian ascii_text (from_bytes bad_pointer) 0x74 0xa0 []
      (omega arith) (omega arith) (from_bytes-Leaves bad_pointer (omega arith))

abbrev text_id : IdData
text_id = string (record { substrings = some 0x1000; name = 65 ∷ 66 ∷ [] })

parse_id-id_bytes_example : parse_id little_endian (id_bytes text_id) ≡ ok text_id
parse_id-id_bytes_example =
    parse_id-id_bytes little_endian text_id
      ((omega arith, omega arith), ((λ e. cc), ((λ e. cc), tt))) (omega arith)

parse_id-never-panics_example : parse_id little_endian (0x01 ∷ 0x16 ∷ 7 ∷ []) ≢ panic
parse_id-never-panics_example =
    parse_id-never-panics little_endian (0x01 ∷ 0x16 ∷ 7 ∷ []) (omega arith)

-- Two names, of which the second one in the map comes first.
abbrev two_names : Written
two_names = record {
  version = 20000404;
  signature = 1;
  age = 2;
  guid = record { d1 = 1; d2 = 2; d3 = 3; d4 = 0 ∷ 1 ∷ 2 ∷ 3 ∷ 4 ∷ 5 ∷ 6 ∷ 7 ∷ [] };
  names = 65 ∷ 0 ∷ 66 ∷ 67 ∷ 0 ∷ [];
  entries_size = 16;
  ok_words = 1;
  ok_bits = 3 ∷ 0 ∷ 0 ∷ 0 ∷ [];
  deleted_words = 0;
  deleted_bits = [];
  entries =
      (record { before = 65 ∷ 0 ∷ []; name = 66 ∷ 67 ∷ []; after = []; stream_id = 12 })
      ∷ (record { before = []; name = 65 ∷ []; after = 66 ∷ 67 ∷ 0 ∷ []; stream_id = 5 })
      ∷ [];
}

two_names-IsWritten : IsWritten two_names
two_names-IsWritten = record {
  version = omega arith;
  signature = omega arith;
  age = omega arith;
  d1 = omega arith;
  d2 = omega arith;
  d3 = omega arith;
  d4 = refl;
  names = omega arith;
  count = omega arith;
  entries_size = omega arith;
  ok_words = omega arith;
  ok_bits = refl;
  deleted_words = omega arith;
  deleted_bits = refl;
  entries = (
    (refl, ((λ e. cc), ((λ e. cc), tt)), omega arith),
    ((refl, ((λ e. cc), tt), omega arith), tt),
  );
  small = omega arith;
}

parse-stream_names_example :
    (parse little_endian (stream_of two_names) ≡ ok (info_of two_names))
    × (stream_names little_endian (info_of two_names) ≡ ok (names_in two_names.entries))
parse-stream_names_example = parse-stream_names little_endian two_names two_names-IsWritten
