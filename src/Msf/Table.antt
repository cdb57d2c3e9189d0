-- ===== src/Msf/Table.antt =====
-- src/msf/mod.rs: reading page numbers, and looking a stream up in the stream table of a big file.
pub mod Encode
use pdb.Prelude.{
  ℕ, zero, suc, ◌+◌, ◌-◌, ◌*◌, List, [], ◌∷◌, Bool, true, false, ltb, leb, ◌==◌, if◌then◌else◌,
  u32_max, mul64, add64,
}
use pdb.Errors.{Result, ok, err, panic, Error, stream_not_found}
use pdb.Scroll.{Scroll, Width, u32}
use pdb.Buffer.State.{
  ParseBuffer, Parser, ◌>>=◌, ◌>>◌, return, fail, parse_uint, parse_u32, take_bytes, from_bytes,
  is_empty,
}
use pdb.Msf.PageList.{PageList, push, truncate, empty}
use pdb.Msf.Header.{Header, pages_needed_to_store, validate_page_number}

-- A step that does not read.
abbrev pub lift : {A : Type 0} → Result A → Parser A
lift r b = (r, b)

module _ (sc : Scroll) where
  -- `for _ in 0..count`: a page number is read, checked and pushed. Big files store it in 32 bits.
  unfoldable pub read_pages : Width → Header → ℕ → PageList → Parser PageList
  read_pages w h zero list = return list
  read_pages w h (suc count) list = do
    n ← parse_uint sc w
    page ← lift (validate_page_number h n)
    list' ← lift (push page list)
    read_pages w h count list'

  -- `while !buf.is_empty()`: the same, up to the end of the buffer. The fuel bounds the rounds.
  unfoldable pub read_pages_to_end : ℕ → Header → PageList → Parser PageList
  read_pages_to_end zero h list b = (panic, b)
  read_pages_to_end (suc fuel) h list b = elim (is_empty b) [
    | true ↦ (ok list, b)
    | false ↦
        (do
          n ← parse_u32 sc
          page ← lift (validate_page_number h n)
          list' ← lift (push page list)
          read_pages_to_end fuel h list')
          b
  ]

  -- `for _ in 0..stream_number`: the page numbers of the streams before the one that is looked up.
  unfoldable pub count_skipped : Header → ℕ → ℕ → Parser ℕ
  count_skipped h zero skipped = return skipped
  count_skipped h (suc streams) skipped = do
    bytes ← parse_u32 sc
    count_skipped h streams
        (if bytes == u32_max then skipped else add64 skipped (pages_needed_to_store h bytes))

  -- What `look_up_stream` does once the sizes before the stream's own are read.
  unfoldable pub read_stream : Header → ℕ → ℕ → ℕ → ℕ → Parser PageList
  read_stream h stream_number stream_count page_numbers_to_skip bytes_in_stream =
      if bytes_in_stream == u32_max then fail (stream_not_found stream_number) else (do
        take_bytes (mul64 (stream_count - stream_number - 1) 4)
        take_bytes (mul64 page_numbers_to_skip 4)
        list ← read_pages u32 h (pages_needed_to_store h bytes_in_stream) (empty h.page_size)
        return (truncate bytes_in_stream list))

  -- What `look_up_stream` does once the number of streams is read.
  unfoldable pub look_up_among : Header → ℕ → ℕ → Parser PageList
  look_up_among h stream_number stream_count =
      if leb stream_count stream_number then fail (stream_not_found stream_number) else (do
        page_numbers_to_skip ← count_skipped h stream_number 0
        bytes_in_stream ← parse_u32 sc
        read_stream h stream_number stream_count page_numbers_to_skip bytes_in_stream)

  -- `look_up_stream` of `BigMSF`, on the bytes of the available stream table.
  unfoldable pub look_up_in_table : Header → ℕ → Parser PageList
  look_up_in_table h stream_number = do
    stream_count ← parse_u32 sc
    look_up_among h stream_number stream_count
