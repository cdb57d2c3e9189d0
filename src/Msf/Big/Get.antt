-- ===== src/Msf/Big/Get.antt =====
-- src/msf/mod.rs: from the header of a big file to the bytes of a stream.
use pdb.Prelude.{ℕ, ◌*◌, ◌^◌, ◌<◌, ◌≡◌, List, map, length, take, All, Option, none, some}
use pdb.Scroll.{Scroll}
use pdb.Msf.PageList.{PageList, truncate, empty, covers}
use pdb.Msf.PageList.Push.{pushed_all, pages_range}
use pdb.Msf.Source.{Source, Reads}
use pdb.Msf.Stored.{header_only, available}
use pdb.Msf.Table.Encode.{Entry, words, encode_table, IsPage}
use pdb.Msf.Lookup.{IsHeader}
use pdb.Msf.Big.{BigMsf}
use pdb.Msf.Big.Within.{extent}

-- A file whose header has been read, with the pages of its stream table and the streams it lists.
pub record IsFile (source : Source) (m : BigMsf) (table_pages : List ℕ) (es : List Entry)
    : Type 0 where
  pub size_in_bytes : ℕ
  pub location : PageList
  pub unread : m.stream_table ≡ header_only size_in_bytes location
  pub location_small : length (covers location.source_slices) < 2 ^ 63
  pub location_within : All (λ p. p < extent m.header) (covers location.source_slices)
  pub lists_pages : map source.content (covers location.source_slices) ≡ words table_pages
  pub pages_valid : All (IsPage m.header) table_pages
  pub pages_room : m.header.page_size * length table_pages < 2 ^ 63
  pub lists_streams :
      map source.content (take size_in_bytes (pages_range m.header.page_size table_pages))
      ≡ encode_table es

-- The positions that a limit leaves.
abbrev pub limit_to : Option ℕ → List ℕ → List ℕ
limit_to none positions = positions
limit_to (some limit) positions = take limit positions

module _ (sc : Scroll) (source : Source) (m : BigMsf) (readable : Reads source (extent m.header))
    (header : IsHeader m.header) (table_pages : List ℕ) (es : List Entry)
    (file : IsFile source m table_pages es) where
  abbrev opened : BigMsf
  opened = record m { stream_table = available (encode_table es) }

  table_list : PageList
  table_list = truncate file.size_in_bytes (pushed_all table_pages (empty m.header.page_size))
