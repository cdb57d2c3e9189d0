-- ===== src/Tests/Types.antt =====
-- The index of a stream of types at a stream of three items.
use pdb.Prelude.{some, ◌↔◌, ℕ, List, [], ◌∷◌, ◌≡◌, refl, arith}
use pdb.Prelude.Int.{pos}
use pdb.Errors.{ok, ◌>>=◌}
use pdb.Types.Header.{Slice}
use pdb.Types.Items.{ItemInformation, iter}
use pdb.Types.Finder.{ItemFinder, finder, find}
use pdb.Types.Finder.Stream.{IsStream}
use pdb.Types.Finder.Filled.{fill, find-filled}
use pdb.Types.Primitive.{type_data_for_primitive, i32, near64}
use pdb.Types.Primitive.Codes.{index_of, type_data_for_primitive-index_of}
use pdb.Tests.Reader.{little_endian}

abbrev nothing : Slice
nothing = record { offset = pos 0; size = 0 }

abbrev three_items : List (List ℕ)
three_items = (1 ∷ 2 ∷ []) ∷ (3 ∷ 4 ∷ 5 ∷ []) ∷ (6 ∷ 7 ∷ []) ∷ []

abbrev three_types : ItemInformation
three_types = record {
  stream = 9 ∷ 9 ∷ 9 ∷ 9 ∷ 2 ∷ 0 ∷ 1 ∷ 2 ∷ 3 ∷ 0 ∷ 3 ∷ 4 ∷ 5 ∷ 2 ∷ 0 ∷ 6 ∷ 7 ∷ [];
  header = record {
    version = 20040203;
    header_size = 4;
    minimum_index = 4096;
    maximum_index = 4099;
    gprec_size = 0;
    tpi_hash_stream = 0;
    tpi_hash_pad_stream = 0;
    hash_key_size = 0;
    hash_bucket_size = 0;
    hash_values = nothing;
    ti_off = nothing;
    hash_adj = nothing;
  };
}

three_types-IsStream : IsStream three_types (9 ∷ 9 ∷ 9 ∷ 9 ∷ []) three_items
three_types-IsStream = record {
  layout = refl;
  header_size = refl;
  maximum = refl;
  indexes = omega arith;
  well_formed =
      ((omega arith, omega arith), ((omega arith, omega arith), ((omega arith, omega arith), tt)));
  short = omega arith;
}

find-filled_example :
    (f : ItemFinder) × ((iter three_types >>= λ it. fill little_endian 4 it (finder three_types))
      ≡ ok f)
    × (find little_endian f 4097 ≡ ok (record { index = 4097; content = 3 ∷ 4 ∷ 5 ∷ [] }))
find-filled_example =
    find-filled little_endian three_types (9 ∷ 9 ∷ 9 ∷ 9 ∷ []) three_items three_types-IsStream 1
      (3 ∷ 4 ∷ 5 ∷ []) (omega arith) refl

-- A 64-bit pointer to a 32-bit integer.
type_data_for_primitive-index_of_example :
    (type_data_for_primitive 0x674 ≡ ok (record { kind = i32; indirection = some near64 }))
    ↔ (0x674 ≡ index_of (record { kind = i32; indirection = some near64 }))
type_data_for_primitive-index_of_example =
    type_data_for_primitive-index_of 0x674 (omega arith)
      (record { kind = i32; indirection = some near64 })
