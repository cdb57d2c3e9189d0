-- ===== src/Msf/Lookup/Streams.antt =====
-- src/msf/mod.rs: what a lookup in a stream table answers, for every stream number.
use pdb.Prelude.{
  ℕ, suc, ◌+◌, ◌*◌, ◌^◌, ◌≤◌, ◌<◌, ◌≡◌, refl, ap, ◌∙◌, List, [], ◌∷◌, ◌++◌, length, take, All,
  le_bytes, length-append, u32_max, u32_mod, u64_mod, arith, false, leb, le→leb,
}
use mathlib.Core.Path.{subst}
use pdb.Errors.{ok, err, stream_not_found}
use pdb.Scroll.{Scroll, u32}
use pdb.Buffer.State.{ParseBuffer, parse_uint, from_bytes}
use pdb.Buffer.Yields.{Fails, Leaves, Fails-bind, Yields-parse_uint, from_bytes-Leaves}
use pdb.Msf.PageList.{PageList, empty, covers}
use pdb.Msf.PageList.Push.{pushed_all, push_all_lem, pages_range, empty-IsOpen}
use pdb.Msf.PageList.Cut.{truncate_lem}
use pdb.Msf.Header.{Header}
use pdb.Msf.Table.{count_skipped, read_stream, look_up_among, look_up_in_table}
use pdb.Msf.Table.Encode.{
  Entry, absent, present, entry_size, entry_pages, words, all_sizes, all_pages, encode_table,
  IsPage, IsEntry, length-words, encode_table-split,
}
use pdb.Msf.Lookup.{
  IsHeader, stream_list, stream-room, look_up_in_table-Yields, count_skipped-Yields,
}

-- Pages pushed onto an empty list and cut, as positions in the file.
pub cut_list-covers :
    (h : Header) (header : IsHeader h) (size : ℕ) (pages : List ℕ)
    → All (IsPage h) pages
    → h.page_size * length pages < u64_mod
    → covers (stream_list h size pages).source_slices ≡ take size (pages_range h.page_size pages)
unfolding empty
cut_list-covers h header size pages valid room =
    (truncate_lem size (pushed_all pages (empty h.page_size))).0
    ∙ ap (take size)
        (push_all_lem pages (empty h.page_size) (empty-IsOpen h.page_size header.bounded)
          (all_words pages valid) (omega arith)).1
  where
    all_words : (pages : List ℕ) → All (IsPage h) pages → All (λ page. page < u32_mod) pages
    all_words [] vs = tt
    all_words (page ∷ pages) (v, vs) = (v.2, all_words pages vs)

-- The pages of the stream, as positions in the file.
stream_list-covers :
    (h : Header) (header : IsHeader h) (size : ℕ) (pages : List ℕ)
    → IsEntry h (present size pages)
    → covers (stream_list h size pages).source_slices ≡ take size (pages_range h.page_size pages)
unfolding empty
stream_list-covers h header size pages v =
    cut_list-covers h header size pages v.2 (omega (arith, stream-room h size pages header v))

pub All-middle :
    (h : Header) (before : List Entry) (e : Entry) (behind : List Entry)
    → All (IsEntry h) (before ++ (e ∷ behind))
    → IsEntry h e × All (IsEntry h) before
All-middle h [] e behind (v, vs) = (v, tt)
All-middle h (x ∷ before) e behind (v, vs) =
    let (this, others) = All-middle h before e behind vs in (this, (v, others))

pages_short :
    (before : List Entry) (e : Entry) (behind : List Entry)
    → 4 * length (all_pages before) ≤ length (encode_table (before ++ (e ∷ behind)))
pages_short before e behind = omega (
  arith,
  ap length (encode_table-split before e behind),
  length-words (all_pages before),
  length-append (words (all_pages before)) (words (entry_pages e) ++ words (all_pages behind)),
  length-append (words (all_sizes behind))
      (words (all_pages before) ++ (words (entry_pages e) ++ words (all_pages behind))),
  length-append (words (all_sizes before)) (
      le_bytes 4 (entry_size e)
      ++ (words (all_sizes behind)
          ++ (words (all_pages before) ++ (words (entry_pages e) ++ words (all_pages behind))))),
)

read_stream_absent :
    (sc : Scroll) (h : Header) (n count skipped : ℕ) (b : ParseBuffer)
    → Fails (read_stream sc h n count skipped u32_max) b (stream_not_found n)
unfolding read_stream
read_stream_absent sc h n count skipped b = refl

-- A well-formed stream table: fewer than 2 ^ 32 streams, each absent or with as many pages, all in
-- range, as its size needs, and no more bytes than a slice can have.
pub record IsTable (h : Header) (es : List Entry) : Type 0 where
  pub entries : All (IsEntry h) es
  pub few : length es < u32_mod
  pub short : length (encode_table es) < 2 ^ 63

module _ (sc : Scroll) (h : Header) (header : IsHeader h) where
  -- In a well-formed stream table the lookup of a present stream succeeds. The page list names
  -- the bytes of the stream's own pages, in their order, cut to the size of the stream.
  pub look_up_present :
      (before : List Entry) (size : ℕ) (pages : List ℕ) (behind : List Entry)
      → IsTable h (before ++ (present size pages ∷ behind))
      → (list : PageList) × ((look_up_in_table sc h
            (length before)
            (from_bytes (encode_table (before ++ (present size pages ∷ behind))))).0
          ≡ ok list)
        × (covers list.source_slices ≡ take size (pages_range h.page_size pages))
  look_up_present before size pages behind t =
      let (b', runs, l) =
        look_up_in_table-Yields sc h header before behind size pages _ this.0 this.1 count room
          (from_bytes-Leaves _ t.short) in
      (stream_list h size pages, ap (λ r. r.0) runs, stream_list-covers h header size pages this.0)
    where
      this : IsEntry h (present size pages) × All (IsEntry h) before
      this = All-middle h before (present size pages) behind t.entries

      count : length before + suc (length behind) < u32_mod
      count = rw length-append at t.few

      room : 4 * length (all_pages before) < u64_mod
      room = omega (arith, t.short, pages_short before (present size pages) behind)

  -- In a well-formed stream table the lookup of a stream that is marked absent fails with
  -- `StreamNotFound`.
  pub look_up_absent :
      (before behind : List Entry)
      → IsTable h (before ++ (absent ∷ behind))
      → (look_up_in_table sc h
          (length before)
          (from_bytes (encode_table (before ++ (absent ∷ behind))))).0
        ≡ err (stream_not_found (length before))
  unfolding look_up_in_table look_up_among
  look_up_absent before behind t =
      Fails-bind (parse_uint sc u32) _ _ (length before + suc (length behind)) _ _
        (Yields-parse_uint sc u32 _ _ _ (omega (arith, count)) (
          subst (Leaves _) (encode_table-split before absent behind) (from_bytes-Leaves _ t.short)))
        λ b₁ l₁. rw inside (
          Fails-bind (count_skipped sc h (length before) 0) _ b₁ (0 + length (all_pages before)) _ _
            (count_skipped-Yields sc h before 0 b₁ _ (All-middle h before absent behind t.entries).1
              (omega (arith, room)) l₁)
            λ b₂ l₂.
              Fails-bind (parse_uint sc u32) _ b₂ u32_max _ _
                (Yields-parse_uint sc u32 b₂ u32_max _ (omega arith) l₂)
                λ b₃ l₃. read_stream_absent sc h (length before) _ _ b₃)
    where
      count : length before + suc (length behind) < u32_mod
      count = rw length-append at t.few

      room : 4 * length (all_pages before) < u64_mod
      room = omega (arith, t.short, pages_short before absent behind)

      inside : leb (length before + suc (length behind)) (length before) ≡ false
      inside = ground arith

  -- In a well-formed stream table the lookup of a number that the table does not reach fails with
  -- `StreamNotFound`.
  pub look_up_beyond :
      (es : List Entry) (stream_number : ℕ)
      → IsTable h es
      → length es ≤ stream_number
      → (look_up_in_table sc h stream_number (from_bytes (encode_table es))).0
        ≡ err (stream_not_found stream_number)
  unfolding look_up_in_table look_up_among
  look_up_beyond es stream_number t beyond =
      Fails-bind (parse_uint sc u32) _ _ (length es) _ _
        (Yields-parse_uint sc u32 _ _ _ (omega (arith, t.few)) (from_bytes-Leaves _ t.short))
        λ b₁ l₁. rw (le→leb _ _ beyond)
