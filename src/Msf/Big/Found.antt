-- ===== src/Msf/Big/Found.antt =====
-- src/msf/mod.rs: the pages of the stream table, from the bytes that list them.
use pdb.Prelude.{
  ℕ, zero, suc, ◌+◌, ◌*◌, ◌^◌, ◌≤◌, ◌<◌, ◌≡◌, refl, ap, List, [], ◌∷◌, ◌++◌, length, All,
  length-drop, u64_mod, arith, true, false, le_bytes,
}
use pdb.Errors.{ok}
use pdb.Scroll.{Scroll, u32}
use pdb.Buffer.State.{ParseBuffer, from_bytes, is_empty, parse_uint, and_then, return}
use pdb.Buffer.Yields.{Yields, Leaves, Yields-bind, Yields-parse_uint, from_bytes-Leaves}
use pdb.Msf.PageList.{PageList, truncate, empty, covers, push}
use pdb.Msf.PageList.Push.{IsOpen, pushed, push_lem, pushed_all, empty-IsOpen}
use pdb.Msf.Header.{Header, validate_page_number}
use pdb.Msf.Stored.{table_found}
use pdb.Msf.Table.{read_pages_to_end}
use pdb.Msf.Table.Encode.{words, IsPage, length-words}
use pdb.Msf.Lookup.{IsHeader, validate_page_number_valid, push-room, Yields-lift}
use pdb.Msf.Big.{found_table}

is_empty_done : (b : ParseBuffer) → Leaves b [] → is_empty b ≡ true
unfolding is_empty
is_empty_done b l =
    ground (arith, l.valid.within, l.valid.small, length-drop b.pos b.bytes, ap length l.left)

is_empty_more :
    (b : ParseBuffer) (n : ℕ) (rest : List ℕ) → Leaves b (le_bytes 4 n ++ rest) → is_empty b ≡ false
unfolding is_empty
is_empty_more b n rest l =
    ground (arith, l.valid.within, l.valid.small, length-drop b.pos b.bytes, ap length l.left)

words_short :
    (page_size count : ℕ) → 0x100 ≤ page_size → page_size * count < 2 ^ 63 → 0x100 * count < 2 ^ 63
words_short page_size count large room = grind arith

module _ (sc : Scroll) (h : Header) where
  read_pages_to_end-Yields :
      (pages : List ℕ) (fuel : ℕ) (list : PageList) (b : ParseBuffer)
      → length pages < fuel
      → IsOpen list
      → All (IsPage h) pages
      → length (covers list.source_slices) + list.page_size * length pages < u64_mod
      → Leaves b (words pages)
      → Yields (read_pages_to_end sc fuel h list) b (pushed_all pages list) []
  unfolding read_pages_to_end
  read_pages_to_end-Yields [] zero list b few inv valid room l = absurd (omega arith)
  read_pages_to_end-Yields [] (suc fuel) list b few inv valid room l =
      rw (is_empty_done b l, read_pages_to_end) (b, refl, l)
  read_pages_to_end-Yields (page ∷ pages) zero list b few inv valid room l = absurd (omega arith)
  read_pages_to_end-Yields (page ∷ pages) (suc fuel) list b few inv (v, vs) room l =
      rw (is_empty_more b page (words pages) l, read_pages_to_end)
        (Yields-bind (parse_uint sc u32) _ b page (words pages) _ []
          (Yields-parse_uint sc u32 b page (words pages) v.2 l)
          λ b' l'.
            Yields-lift (validate_page_number h page) _ b' page _ []
              (validate_page_number_valid h page v)
              (Yields-lift (push page list) (read_pages_to_end sc fuel h) b' (pushed page list) _ []
                (push_lem list page inv v.2 (omega arith)).0
                (read_pages_to_end-Yields pages fuel (pushed page list) b' (omega arith)
                  (push_lem list page inv v.2 (omega arith)).2 vs
                  (push-room page pages list inv v.2 room) l')))

  -- The stream table is found from the bytes that list its pages.
  pub found_table_lem :
      (size : ℕ) (pages : List ℕ)
      → IsHeader h
      → All (IsPage h) pages
      → h.page_size * length pages < 2 ^ 63
      → found_table sc h size (words pages)
        ≡ ok (table_found (truncate size (pushed_all pages (empty h.page_size))))
  unfolding found_table
  found_table_lem size pages header valid room =
      let (b', runs, l) =
        read_pages_to_end-Yields pages (suc (length (words pages))) (empty h.page_size)
          (from_bytes (words pages)) (omega (arith, length-words pages))
          (empty-IsOpen h.page_size header.bounded) valid (unfold empty in omega arith)
          (from_bytes-Leaves (words pages) (
            omega (
              arith,
              length-words pages,
              words_short h.page_size (length pages) header.large room,
            ))) in
      ap (λ r. (and_then r (λ list. return (table_found (truncate size list)))).0) runs
