-- ===== src/Msf/Big.antt =====
-- src/msf/mod.rs: `BigMSF`. Its stream table is read on the first lookup, in two steps.
pub mod Found
pub mod Within
pub mod Get
use pdb.Prelude.{
  ℕ, zero, suc, ◌+◌, ◌-◌, ◌*◌, ◌≤◌, ◌<◌, List, [], ◌∷◌, ◌++◌, Bool, true, false, ◌&&◌, leb, ◌==◌,
  if◌then◌else◌, take, drop, length, not, Option, none, some, mul64,
}
use pdb.Errors
use pdb.Errors.{Result, ok, err, panic, Error, unrecognized_file_format, invalid_page_size}
use pdb.Scroll.{Scroll, Width, u8, u16, u32}
use pdb.Buffer.State.{ParseBuffer, Parser, from_bytes, ◌>>=◌, ◌>>◌, return, fail}
use pdb.Msf.PageList.{PageList, truncate, empty}
use pdb.Msf.Source.{Source, view}
use pdb.Msf.Header.{Header, is_invalid_page_size, pages_needed_to_store}
use pdb.Msf.Stored.{
  StreamTable, header_only, table_found, available, RawHeader, big_raw_header, big_magic, bytes_eq,
  parse_struct,
}
use pdb.Msf.Table.{read_pages, read_pages_to_end, look_up_in_table}

pub record BigMsf : Type 0 where
  pub header : Header
  pub stream_table : StreamTable

-- A method that changes the file object: the object comes back also where the method fails.
abbrev pub Method : Type 0 → Type 0
Method A = BigMsf → Result A × BigMsf

-- The new state of the stream table, if there is one, is stored; an error leaves the old one.
abbrev pub store : Result StreamTable → Method (Unit {0})
store (ok t) m = (ok tt, record m { stream_table = t })
store (err e) m = (err e, m)
store panic m = (panic, m)

-- The next step of a method, where the one before succeeded.
abbrev pub and_next : {A B : Type 0} → Result A × BigMsf → (A → Method B) → Result B × BigMsf
and_next (ok a, m) k = k a m
and_next (err e, m) k = (err e, m)
and_next (panic, m) k = (panic, m)

-- The page list, cut to the limit if one is given.
abbrev pub limited : Option ℕ → PageList → PageList
limited none list = list
limited (some limit) list = truncate limit list

module _ (sc : Scroll) where
  -- The part of `new` behind the checks: the pages that list the pages of the stream table.
  unfoldable pub open_header : RawHeader → Parser BigMsf
  open_header raw =
      let h : Header = record {
        page_size = raw.page_size;
        maximum_valid_page_number = raw.pages_used;
      } in
      let pages_of_table = pages_needed_to_store h raw.directory_size in
      (do
        list ←
            read_pages sc u32 h (pages_needed_to_store h (mul64 pages_of_table 4))
              (empty raw.page_size)
        return (record {
          header = h;
          stream_table = header_only raw.directory_size (truncate (mul64 pages_of_table 4) list);
        }))

  unfoldable pub check_header : RawHeader → Parser BigMsf
  check_header raw =
      if not (bytes_eq raw.magic big_magic)
      then fail unrecognized_file_format
      else if is_invalid_page_size raw.page_size
      then fail (invalid_page_size raw.page_size)
      else open_header raw

  -- `BigMSF::new`, on the bytes of the first 4096 of the file.
  unfoldable pub new : List ℕ → Result BigMsf
  new header_view = ((parse_struct (big_raw_header sc) >>= check_header) (from_bytes header_view)).0

  -- The new stream table that `find_stream_table` makes of a header.
  unfoldable pub found_table : Header → ℕ → List ℕ → Result StreamTable
  found_table h size_in_bytes location =
      ((do
        list ← read_pages_to_end sc (suc (length location)) h (empty h.page_size)
        return (table_found (truncate size_in_bytes list)))
        (from_bytes location)).0

  module _ (source : Source) where
    unfoldable pub find_stream_table : Method (Unit {0})
    find_stream_table m = elim m.stream_table [
      | header_only size_in_bytes location_location ↦
          store (Errors.◌>>=◌ (view source location_location) (found_table m.header size_in_bytes))
            m
      | table_found location ↦ (ok tt, m)
      | available bytes ↦ (ok tt, m)
    ]

    -- The second step of `make_stream_table_available`, with its final assertion.
    unfoldable pub map_stream_table : Method (Unit {0})
    map_stream_table m = elim m.stream_table [
      | header_only size_in_bytes location_location ↦ (panic, m)
      | table_found location ↦
          store (Errors.◌>>=◌ (view source location) (λ bytes. ok (available bytes))) m
      | available bytes ↦ (ok tt, m)
    ]

    unfoldable pub make_stream_table_available : Method (Unit {0})
    make_stream_table_available m = and_next (find_stream_table m) (λ _. map_stream_table)

    unfoldable pub look_up_available : ℕ → Method PageList
    look_up_available stream_number m = elim m.stream_table [
      | available bytes ↦ ((look_up_in_table sc m.header stream_number (from_bytes bytes)).0, m)
      | header_only size_in_bytes location_location ↦ (panic, m)
      | table_found location ↦ (panic, m)
    ]

    unfoldable pub look_up_stream : ℕ → Method PageList
    look_up_stream stream_number m =
        and_next (make_stream_table_available m) (λ _. look_up_available stream_number)

    -- `get`: the stream is looked up, cut and viewed.
    unfoldable pub get : ℕ → Option ℕ → Method (List ℕ)
    get stream_number limit m =
        and_next (look_up_stream stream_number m)
          (λ list m'. (view source (limited limit list), m'))
