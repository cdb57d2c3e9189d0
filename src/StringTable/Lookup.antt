-- ===== src/StringTable/Lookup.antt =====
-- src/strings.rs: which tables are accepted, and what is found in them.
use pdb.Prelude.{
  ℕ, ◌+◌, ◌-◌, ◌≤◌, ◌<◌, ◌^◌, ◌≡◌, refl, sym, ap, ◌∙◌, List, ◌∷◌, ◌++◌, append_assoc, length, take,
  drop, ltb, leb, if◌then◌else◌, le_bytes, length-append, length-drop, take_all, drop-drop, false,
  drop-append, take-append_le, arith, le→leb,
}
use pdb.Errors
use pdb.Errors.{Result, ok, err, panic, unexpected_eof}
use pdb.Scroll.{Scroll, u32}
use pdb.Buffer.State.{ParseBuffer, from_bytes, len, parse_cstring}
use pdb.Buffer.Position.{len_lem}
use pdb.Buffer.Yields.{Yields, from_bytes-Leaves}
use pdb.Buffer.Fields.{Yields-field}
use pdb.Buffer.Text.{IsText, parse_cstring-terminated}
use pdb.StringTable.{
  StringTableHeader, StringTable, StringTableHashVersion, hash_version_of, parse_header, checked,
  parse, get, pdb_nmt_hdr, slice_of,
}

-- The stream of a table: its header, and the names with what follows them.
abbrev pub stream_of : ℕ → ℕ → List ℕ → List ℕ
stream_of hash_version names_size rest =
    le_bytes 4 pdb_nmt_hdr ++ (le_bytes 4 hash_version ++ (le_bytes 4 names_size ++ rest))

abbrev pub header_of : ℕ → ℕ → StringTableHeader
header_of hash_version names_size = record {
  magic = pdb_nmt_hdr;
  hash_version = hash_version;
  names_size = names_size;
}

too_short :
    {A : Type 0} (names_size available : ℕ) (x y : A)
    → (if ltb available (12 + names_size) then x else y)
      ≡ (if leb (names_size + 12) available then y else x)
too_short names_size available x y = ground arith

module _ (sc : Scroll) where
  Yields-parse_header :
      (hash_version names_size : ℕ) (rest : List ℕ)
      → hash_version < 2 ^ 32
      → names_size < 2 ^ 32
      → length (stream_of hash_version names_size rest) < 2 ^ 63
      → Yields
          (parse_header sc)
          (from_bytes (stream_of hash_version names_size rest))
          (header_of hash_version names_size)
          rest
  unfolding parse_header
  Yields-parse_header hash_version names_size rest h1 h2 small =
      Yields-field sc u32 _ pdb_nmt_hdr _ _ _ rest (omega arith) (from_bytes-Leaves _ small)
        λ b1 l1. Yields-field sc u32 b1 hash_version _ _ _ rest (omega arith) l1 λ b2 l2.
          Yields-field sc u32 b2 names_size _ _ _ rest (omega arith) l2 λ b3 l3. (b3, refl, l3)

  abbrev after_header : List ℕ → Result StringTableHeader × ParseBuffer → Result StringTable
  after_header stream r = Errors.◌>>=◌ r.0 (λ header. checked sc stream header r.1)

  -- A stream that starts with the header of a table, with a known hash version, is accepted with what it
  -- says where the names and twelve bytes more follow the header, and is the end of the input
  -- otherwise, also where all names are there and fewer than twelve bytes follow them.
  pub parse-stream_of :
      (hash_version names_size : ℕ) (version : StringTableHashVersion) (rest : List ℕ)
      → hash_version_of hash_version ≡ ok version
      → hash_version < 2 ^ 32
      → names_size < 2 ^ 32
      → length (stream_of hash_version names_size rest) < 2 ^ 63
      → parse sc (stream_of hash_version names_size rest) ≡ (
          if leb (names_size + 12) (length rest)
          then ok (record {
            header = header_of hash_version names_size;
            hash_version = version;
            stream = stream_of hash_version names_size rest;
          })
          else err unexpected_eof)
  unfolding parse
  parse-stream_of hash_version names_size version rest known h1 h2 small =
      let (b, runs, l) = Yields-parse_header hash_version names_size rest h1 h2 small in
      let ahead : len b ≡ length rest =
        omega
          (arith, len_lem b l.valid, length-drop b.pos b.bytes, ap length l.left, l.valid.within) in
      ap (after_header (stream_of hash_version names_size rest)) runs
      ∙ rw (ahead, known) (too_short names_size (length rest) _ _)

slice_of_lem :
    (xs : List ℕ) (start end_ : ℕ)
    → start ≤ end_
    → end_ ≤ length xs
    → slice_of xs start end_ ≡ ok (take (end_ - start) (drop start xs))
slice_of_lem xs start end_ h h' = rw (le→leb _ _ h, le→leb _ _ h') refl

text_found :
    (s rest : List ℕ)
    → IsText s
    → length (s ++ (0 ∷ rest)) < 2 ^ 63
    → (parse_cstring (from_bytes (s ++ (0 ∷ rest)))).0 ≡ ok s
text_found s rest h small =
    ap (λ r. r.0)
      (parse_cstring-terminated (from_bytes (s ++ (0 ∷ rest))) s rest
        (record { within = omega arith; small = small }) h refl).0

-- The names of a table: `s` behind other names, ended by a zero byte.
abbrev pub names_around : List ℕ → List ℕ → List ℕ → List ℕ
names_around earlier s later = earlier ++ (s ++ (0 ∷ later))

cut_names :
    (earlier s later others : List ℕ)
    → take
        (length (names_around earlier s later) - length earlier)
        (drop (length earlier) (names_around earlier s later ++ others))
      ≡ s ++ (0 ∷ later)
cut_names earlier s later others =
    rw
      (
        append_assoc earlier (s ++ (0 ∷ later)) others,
        drop-append earlier ((s ++ (0 ∷ later)) ++ others),
        count,
      )
      (take-append_le (length (s ++ (0 ∷ later))) (s ++ (0 ∷ later)) others (omega arith)
        ∙ take_all _ _ (omega arith))
  where
    count : length (names_around earlier s later) - length earlier ≡ length (s ++ (0 ∷ later))
    count = omega (arith, length-append earlier (s ++ (0 ∷ later)))

get_lem :
    (table : StringTable) (earlier s later others : List ℕ)
    → IsText s
    → drop 12 table.stream ≡ names_around earlier s later ++ others
    → table.header.names_size ≡ length (names_around earlier s later)
    → length table.stream < 2 ^ 63
    → get table (length earlier) ≡ ok s
unfolding get
get_lem table earlier s later others text stream size small =
    rw (inside, cut)
      (ap (λ bytes. (parse_cstring (from_bytes bytes)).0) found
        ∙ text_found s later text (omega (arith, total, counts)))
  where
    counts : length (names_around earlier s later) ≡ length earlier + length (s ++ (0 ∷ later))
    counts = length-append earlier (s ++ (0 ∷ later))

    total : length table.stream - 12 ≡ length (names_around earlier s later) + length others
    total =
        sym (length-drop 12 table.stream)
        ∙ ap length stream
        ∙ length-append (names_around earlier s later) others

    some_text : 0 < length (s ++ (0 ∷ later))
    some_text = omega (arith, length-append s (0 ∷ later))

    inside : leb table.header.names_size (length earlier) ≡ false
    inside = ground (arith, size, counts, some_text)

    cut :
        slice_of table.stream (12 + length earlier) (12 + table.header.names_size)
        ≡ ok (
            take
              (12 + table.header.names_size - (12 + length earlier))
              (drop (12 + length earlier) table.stream))
    cut =
        slice_of_lem table.stream _ _ (omega (arith, size, counts))
          (omega (arith, size, total, some_text, counts))

    left :
        12 + table.header.names_size - (12 + length earlier)
        ≡ length (names_around earlier s later) - length earlier
    left = omega (arith, size)

    found :
        take
          (12 + table.header.names_size - (12 + length earlier))
          (drop (12 + length earlier) table.stream)
        ≡ s ++ (0 ∷ later)
    found =
        rw (left, sym (drop-drop 12 (length earlier) table.stream), stream)
          (cut_names earlier s later others)

module _ (sc : Scroll) where
  -- In the table that is parsed from a stream with a header of a known hash version, names, and at
  -- least twelve bytes more, `get` at the offset of a string gives this string, where the names end
  -- the string with its first zero byte and have at most 2^32 - 1 bytes.
  pub get-stream_of :
      (hash_version : ℕ) (version : StringTableHashVersion) (earlier s later others : List ℕ)
      → hash_version_of hash_version ≡ ok version
      → hash_version < 2 ^ 32
      → IsText s
      → length (names_around earlier s later) < 2 ^ 32
      → 12 ≤ length others
      → length others < 2 ^ 62
      → Errors.◌>>=◌
          (parse sc (
            stream_of hash_version
              (length (names_around earlier s later))
              (names_around earlier s later ++ others)))
          (λ table. get table (length earlier))
        ≡ ok s
  get-stream_of hash_version version earlier s later others known h1 text h2 enough short =
      rw
        (
          parse-stream_of sc hash_version (length names) version (names ++ others) known h1 h2
              (omega (arith, count)),
          le→leb (length names + 12) (length (names ++ others)) (omega (arith, count)),
        )
        (get_lem _ earlier s later others text refl refl (omega (arith, count)))
    where
      names : List ℕ
      names = names_around earlier s later

      count : length (names ++ others) ≡ length names + length others
      count = length-append names others
