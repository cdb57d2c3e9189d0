-- ===== src/Tests/Files.antt =====
-- A small multi-stream file.
use pdb.Prelude.{ℕ, ◌-◌, ◌≡◌, List, [], ◌∷◌, ◌++◌, length, arith, take, some, true}
use pdb.Errors.{ok, err, stream_not_found}
use pdb.Msf.PageList.{PageList, covers}
use pdb.Msf.PageList.Push.{pages_range}
use pdb.Msf.Source.{Source, view, view_lem}
use pdb.Msf.Source.ReadSeek.{zeros, view_of, read_seek}
use pdb.Msf.Header.{Header, pages_needed_to_store}
use pdb.Msf.Stored.{header_only}
use pdb.Msf.Table.{look_up_in_table}
use pdb.Msf.Table.Encode.{Entry, absent, present, encode_table}
use pdb.Msf.Lookup.{IsHeader}
use pdb.Msf.Lookup.Streams.{IsTable, look_up_present, look_up_absent}
use pdb.Msf.Big.{BigMsf}
use pdb.Buffer.State.{from_bytes}
use pdb.Tests.Reader.{little_endian}

abbrev small_header : Header
small_header = record { page_size = 256; maximum_valid_page_number = 3 }

abbrev streams : List Entry
streams = absent ∷ present 3 (3 ∷ []) ∷ []

-- A page of 256 bytes that starts with the given ones.
abbrev page : List ℕ → List ℕ
page bytes = bytes ++ zeros (256 - length bytes)

-- Page 1 lists the page of the stream table, page 2 holds the table, page 3 a stream.
abbrev file : List ℕ
file =
    page [] ++ (page (2 ∷ 0 ∷ 0 ∷ 0 ∷ []) ++ (page (encode_table streams) ++ page (7 ∷ 8 ∷ 9 ∷ [])))

abbrev disk : Source
disk = read_seek file

abbrev location : PageList
location = record {
  page_size = 256;
  source_slices = record { offset = 256; size = 4 } ∷ [];
  last_page = some 1;
  truncated = true;
}

abbrev opened : BigMsf
opened = record { header = small_header; stream_table = header_only 16 location }

small-IsHeader : IsHeader small_header
small-IsHeader = omega arith

small-IsTable : IsTable small_header streams
unfolding pages_needed_to_store
small-IsTable = record { entries = omega arith; few = omega arith; short = omega arith }

look_up_present_example :
    (list : PageList) × ((look_up_in_table little_endian small_header 1
        (from_bytes (encode_table streams))).0
      ≡ ok list)
    × (covers list.source_slices ≡ take 3 (pages_range 256 (3 ∷ [])))
look_up_present_example =
    look_up_present little_endian small_header small-IsHeader (absent ∷ []) 3 (3 ∷ []) []
      small-IsTable

look_up_absent_example :
    (look_up_in_table little_endian small_header 0 (from_bytes (encode_table streams))).0
    ≡ err (stream_not_found 0)
look_up_absent_example =
    look_up_absent little_endian small_header small-IsHeader [] (present 3 (3 ∷ []) ∷ [])
      small-IsTable

view_lem_example : view disk location ≡ ok (2 ∷ 0 ∷ 0 ∷ 0 ∷ [])
unfolding view_of
view_lem_example = view_lem disk location (omega arith)
