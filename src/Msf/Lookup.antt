-- ===== src/Msf/Lookup.antt =====
-- src/msf/mod.rs: a lookup in a well-formed stream table finds the stream.
pub mod Streams
use pdb.Prelude.{
  ℕ, zero, suc, ◌+◌, ◌-◌, ◌*◌, ◌^◌, ◌≤◌, ◌<◌, ◌≡◌, refl, sym, ap, ◌∙◌, List, [], ◌∷◌, ◌++◌, map,
  length, take, All, le_bytes, length-le_bytes, length-append, length-range, append_assoc, u32_max,
  u32_mod, u64_mod, arith, true, false, Bool, add64, mul64, leb, le→leb, ◌==◌, if◌then◌else◌,
}
use mathlib.Core.Path.{subst}
use native.Mathlib.Nat.{add-zero, zero-add}
use pdb.Errors.{Result, ok, err, panic, Error, stream_not_found, page_reference_out_of_range}
use pdb.Scroll.{Scroll, Width, u32}
use pdb.Buffer.State.{
  ParseBuffer, Parser, and_then, ◌>>=◌, ◌>>◌, return, fail, parse_uint, parse_u32, take_bytes,
  from_bytes,
}
use pdb.Buffer.Yields.{
  Yields, Fails, Leaves, Yields-bind, Fails-bind, Yields-parse_uint, Yields-take_bytes,
  from_bytes-Leaves,
}
use pdb.Msf.PageList.{PageList, push, truncate, empty, covers, page_range}
use pdb.Msf.PageList.Push.{
  IsOpen, pushed, push_lem, pushed_all, push_all_lem, pages_range, length-pages_range, empty-IsOpen,
}
use pdb.Msf.PageList.Cut.{truncate_lem}
use pdb.Msf.Header.{Header, pages_needed_to_store, validate_page_number, pages_needed_lem}
use pdb.Msf.Table.{lift, read_pages, count_skipped, read_stream, look_up_among, look_up_in_table}
use pdb.Msf.Table.Encode.{
  Entry, absent, present, entry_size, entry_pages, words, all_sizes, all_pages, encode_table,
  IsPage, IsEntry, length-words, length-all_sizes, encode_table-split, all_pages-append,
  all_sizes-append, words-append,
}

pub validate_page_number_valid :
    (h : Header) (page : ℕ) → IsPage h page → validate_page_number h page ≡ ok page
unfolding validate_page_number
validate_page_number_valid h page v = ground arith

-- The facts about a header that opening the file checks.
pub record IsHeader (h : Header) : Type 0 where
  pub large : 0x100 ≤ h.page_size
  pub bounded : h.page_size ≤ 2 ^ 23

-- A step that reads nothing and succeeds.
pub Yields-lift :
    {A B : Type 0} (r : Result A) (k : A → Parser B) (b : ParseBuffer) (a : A) (c : B)
    (rest : List ℕ)
    → r ≡ ok a
    → Yields (k a) b c rest
    → Yields (lift r >>= k) b c rest
Yields-lift r k b a c rest e (b', runs, l) = (b', ap (λ q. and_then (q, b) k) e ∙ runs, l)

-- The room that is left for the other pages once one is pushed.
pub push-room :
    (page : ℕ) (pages : List ℕ) (list : PageList)
    → IsOpen list
    → page < u32_mod
    → length (covers list.source_slices) + list.page_size * length (page ∷ pages) < u64_mod
    → length (covers (pushed page list).source_slices) + (pushed page list).page_size * length pages
      < u64_mod
push-room page pages list inv word room =
    let (pushes, cover, inv', same) = push_lem list page inv word (omega arith) in
    rw (cover, same)
      (omega (
        arith,
        length-append (covers list.source_slices) (page_range list.page_size page),
        length-range (list.page_size * page) list.page_size,
      ))

-- The pages of the stream, pushed onto an empty list and cut to its size.
abbrev pub stream_list : Header → ℕ → List ℕ → PageList
stream_list h size pages = truncate size (pushed_all pages (empty h.page_size))

pub stream-room :
    (h : Header) (size : ℕ) (pages : List ℕ)
    → IsHeader h
    → IsEntry h (present size pages)
    → length (covers (empty h.page_size).source_slices)
        + (empty h.page_size).page_size * length pages
      < u64_mod
unfolding empty
stream-room h size pages header (small, count, valid) =
    rw count
      (omega (arith, (pages_needed_lem h size (omega (arith, header.large))).1, header.bounded))

module _ (sc : Scroll) (h : Header) where
  pub read_pages-Yields :
      (pages : List ℕ) (list : PageList) (b : ParseBuffer) (rest : List ℕ)
      → IsOpen list
      → All (IsPage h) pages
      → length (covers list.source_slices) + list.page_size * length pages < u64_mod
      → Leaves b (words pages ++ rest)
      → Yields (read_pages sc u32 h (length pages) list) b (pushed_all pages list) rest
  unfolding read_pages
  read_pages-Yields [] list b rest inv valid room l = (b, refl, l)
  read_pages-Yields (page ∷ pages) list b rest inv (v, vs) room l =
      Yields-bind (parse_uint sc u32) _ b page (words pages ++ rest) _ rest
        (Yields-parse_uint sc u32 b page (words pages ++ rest) v.2 l)
        λ b' l'.
          Yields-lift (validate_page_number h page) _ b' page _ rest
            (validate_page_number_valid h page v)
            (Yields-lift (push page list) (read_pages sc u32 h (length pages)) b' (pushed page list)
              _ rest (push_lem list page inv v.2 (omega arith)).0
              (read_pages-Yields pages (pushed page list) b' rest
                (push_lem list page inv v.2 (omega arith)).2 vs
                (push-room page pages list inv v.2 room) l'))

  -- A size that is skipped adds the pages of its stream.
  skip_entry :
      (e : Entry) (skipped : ℕ)
      → IsEntry h e
      → skipped + length (entry_pages e) < u64_mod
      → (if entry_size e == u32_max
          then skipped
          else add64 skipped (pages_needed_to_store h (entry_size e)))
        ≡ skipped + length (entry_pages e)
  skip_entry absent skipped v room = omega arith
  skip_entry (present size pages) skipped (small, count, valid) room = ground arith

  pub entry_size-lt : (e : Entry) → IsEntry h e → entry_size e < 256 ^ 4
  entry_size-lt absent v = omega arith
  entry_size-lt (present size pages) (small, count, valid) = omega arith

  pub count_skipped-Yields :
      (es : List Entry) (skipped : ℕ) (b : ParseBuffer) (rest : List ℕ)
      → All (IsEntry h) es
      → skipped + length (all_pages es) < u64_mod
      → Leaves b (words (all_sizes es) ++ rest)
      → Yields (count_skipped sc h (length es) skipped) b (skipped + length (all_pages es)) rest
  unfolding count_skipped
  count_skipped-Yields [] skipped b rest valid room l =
      (b, ap (λ (n : ℕ). (ok n, b)) (sym (add-zero skipped)), l)
  count_skipped-Yields (e ∷ es) skipped b rest (v, vs) room l =
      Yields-bind (parse_uint sc u32) _ b (entry_size e) (words (all_sizes es) ++ rest) _ rest
        (Yields-parse_uint sc u32 b (entry_size e) _ (entry_size-lt e v) l)
        λ b' l'.
          rw (skip_entry e skipped v (omega (arith, counts)), total)
            (count_skipped-Yields es (skipped + length (entry_pages e)) b' rest vs
              (omega (arith, counts)) l')
    where
      counts :
          length (entry_pages e ++ all_pages es) ≡ length (entry_pages e) + length (all_pages es)
      counts = length-append (entry_pages e) (all_pages es)

      total :
          skipped + length (entry_pages e ++ all_pages es)
          ≡ skipped + length (entry_pages e) + length (all_pages es)
      total = omega (arith, counts)

  module _ (header : IsHeader h) (before behind : List Entry) where
    read_stream-Yields :
        (size : ℕ) (pages : List ℕ) (b : ParseBuffer)
        → IsEntry h (present size pages)
        → 4 * length behind < u64_mod
        → 4 * length (all_pages before) < u64_mod
        → Leaves b (
            words (all_sizes behind)
            ++ (words (all_pages before) ++ (words pages ++ words (all_pages behind))))
        → Yields
            (read_stream sc h
              (length before)
              (length before + suc (length behind))
              (length (all_pages before))
              size)
            b
            (stream_list h size pages)
            (words (all_pages behind))
    unfolding read_stream
    read_stream-Yields size pages b (small, count, valid) room room' l = rw (skip size small) (
        Yields-bind (take_bytes _) _ b (words (all_sizes behind)) _ _ _
          (Yields-take_bytes _ b (words (all_sizes behind)) _ sizes l)
          λ b₁ l₁.
            Yields-bind (take_bytes _) _ b₁ (words (all_pages before)) _ _ _
              (Yields-take_bytes _ b₁ (words (all_pages before)) _ numbers l₁)
              λ b₂ l₂.
                Yields-bind (read_pages sc u32 h _ (empty h.page_size)) _ b₂
                  (pushed_all pages (empty h.page_size)) _ _ _
                  (rw (← count) (
                    read_pages-Yields pages (empty h.page_size) b₂ (words (all_pages behind))
                      (empty-IsOpen h.page_size header.bounded) valid
                      (stream-room h size pages header (small, count, valid)) l₂))
                  λ b₃ l₃. (b₃, refl, l₃))
      where
        skip : (size : ℕ) → size < u32_max → (size == u32_max) ≡ false
        skip size small = ground arith

        sizes :
            length (words (all_sizes behind))
            ≡ mul64 (length before + suc (length behind) - length before - 1) 4
        sizes = omega (arith, length-words (all_sizes behind), length-all_sizes behind)

        numbers : length (words (all_pages before)) ≡ mul64 (length (all_pages before)) 4
        numbers = omega (arith, length-words (all_pages before))

    pub look_up_in_table-Yields :
        (size : ℕ) (pages : List ℕ) (b : ParseBuffer)
        → IsEntry h (present size pages)
        → All (IsEntry h) before
        → length before + suc (length behind) < u32_mod
        → 4 * length (all_pages before) < u64_mod
        → Leaves b (encode_table (before ++ (present size pages ∷ behind)))
        → Yields
            (look_up_in_table sc h (length before))
            b
            (stream_list h size pages)
            (words (all_pages behind))
    unfolding look_up_in_table look_up_among
    look_up_in_table-Yields size pages b v vs few room l =
        Yields-bind (parse_uint sc u32) _ b (length before + suc (length behind)) _ _ _
          (Yields-parse_uint sc u32 b _ _ (omega arith)
            (subst (Leaves b) (encode_table-split before (present size pages) behind) l))
          λ b₁ l₁. rw inside (
            Yields-bind (count_skipped sc h (length before) 0) _ b₁ (0 + length (all_pages before))
              _ _ _ (count_skipped-Yields before 0 b₁ _ vs (omega arith) l₁)
              λ b₂ l₂.
                Yields-bind (parse_uint sc u32) _ b₂ size _ _ _
                  (Yields-parse_uint sc u32 b₂ size _ (omega (arith, v.0)) l₂)
                  λ b₃ l₃. rw zero-add (read_stream-Yields size pages b₃ v (omega arith) room l₃))
      where
        inside : leb (length before + suc (length behind)) (length before) ≡ false
        inside = ground arith
