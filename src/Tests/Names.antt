-- ===== src/Tests/Names.antt =====
-- The string table and the symbols at small inputs.
use pdb.Prelude.{ℕ, List, [], ◌∷◌, ◌++◌, ◌≡◌, refl, arith, some}
use pdb.Errors.{ok, err, unexpected_eof, ◌>>=◌}
use pdb.Buffer.State.{from_bytes}
use pdb.Buffer.Items.{collect, finished, Ends}
use pdb.Buffer.Laid.{laid}
use pdb.StringTable.{parse, get, long_hash}
use pdb.StringTable.Lookup.{stream_of, names_around, parse-stream_of, get-stream_of}
use pdb.Symbols.Iter.{next, skip_to, iter, iter_at}
use pdb.Symbols.Iter.Safety.{next-Ends}
use pdb.Symbols.Iter.Stream.{record_bytes, symbols-laid}
use pdb.Symbols.Iter.Seek.{skip_to-laid}
use pdb.Tests.Reader.{little_endian}

-- Three bytes of names, and eleven behind them.
parse-stream_of_example :
    parse little_endian
      (stream_of 1 3 (97 ∷ 98 ∷ 0 ∷ 1 ∷ 2 ∷ 3 ∷ 4 ∷ 5 ∷ 6 ∷ 7 ∷ 8 ∷ 9 ∷ 10 ∷ 11 ∷ []))
    ≡ err unexpected_eof
parse-stream_of_example =
    parse-stream_of little_endian 1 3 long_hash
      (97 ∷ 98 ∷ 0 ∷ 1 ∷ 2 ∷ 3 ∷ 4 ∷ 5 ∷ 6 ∷ 7 ∷ 8 ∷ 9 ∷ 10 ∷ 11 ∷ []) refl (omega arith)
      (omega arith) (omega arith)

abbrev hash_table : List ℕ
hash_table = 1 ∷ 2 ∷ 3 ∷ 4 ∷ 5 ∷ 6 ∷ 7 ∷ 8 ∷ 9 ∷ 10 ∷ 11 ∷ 12 ∷ []

get-stream_of_example :
    (parse little_endian
        (stream_of 1 6 (names_around (0 ∷ 97 ∷ 0 ∷ []) (98 ∷ 99 ∷ []) [] ++ hash_table))
      >>= λ table. get table 3)
    ≡ ok (98 ∷ 99 ∷ [])
get-stream_of_example =
    get-stream_of little_endian 1 long_hash (0 ∷ 97 ∷ 0 ∷ []) (98 ∷ 99 ∷ []) [] hash_table refl
      (omega arith) (omega arith, (omega arith, tt)) (omega arith) (omega arith) (omega arith)

-- A symbol of kind 6, padding, and another symbol.
abbrev three_records : List (List ℕ)
three_records = (6 ∷ 0 ∷ []) ∷ (2 ∷ 4 ∷ 0 ∷ 0 ∷ []) ∷ (14 ∷ 17 ∷ 1 ∷ 2 ∷ []) ∷ []

symbols-laid_example :
    collect 4 (next little_endian) (iter (laid record_bytes three_records))
    ≡ finished (
        record { index = 0; bytes = 6 ∷ 0 ∷ [] }
        ∷ record { index = 10; bytes = 14 ∷ 17 ∷ 1 ∷ 2 ∷ [] }
        ∷ [])
symbols-laid_example =
    symbols-laid little_endian three_records 4
      ((omega arith, omega arith), ((omega arith, omega arith), ((omega arith, omega arith), tt)))
      (omega arith) (omega arith)

skip_to-laid_example :
    ((skip_to little_endian 4 (record { bytes = 2 ∷ 0 ∷ 7 ∷ 0 ∷ 2 ∷ 0 ∷ 6 ∷ 0 ∷ []; pos = 8 })).0
      ≡ ok (some (record { index = 4; bytes = 6 ∷ 0 ∷ [] })))
    × (collect 2 (next little_endian) (iter_at (2 ∷ 0 ∷ 7 ∷ 0 ∷ 2 ∷ 0 ∷ 6 ∷ 0 ∷ []) 4)
        ≡ finished (record { index = 4; bytes = 6 ∷ 0 ∷ [] } ∷ []))
skip_to-laid_example =
    skip_to-laid little_endian ((7 ∷ 0 ∷ []) ∷ []) (6 ∷ 0 ∷ []) [] 8 2
      ((omega arith, omega arith), tt) refl (omega arith) (omega arith)

next-Ends_example : Ends (collect 6 (next little_endian) (from_bytes (2 ∷ 0 ∷ 2 ∷ 4 ∷ 9 ∷ [])))
next-Ends_example =
    next-Ends little_endian (from_bytes (2 ∷ 0 ∷ 2 ∷ 4 ∷ 9 ∷ []))
      (record { within = omega arith; small = omega arith })
