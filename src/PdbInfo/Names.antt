-- ===== src/PdbInfo/Names.antt =====
-- src/pdbi.rs: the names that are found in an information stream that is written.
use pdb.Prelude.{
  ℕ, ◌+◌, ◌*◌, ◌%◌, ◌^◌, ◌<◌, ◌≡◌, refl, sym, ap, ◌∙◌, List, [], ◌∷◌, ◌++◌, append_assoc, length,
  drop, length-append, drop-append, le_bytes, arith, All, le→leb,
}
use mathlib.Core.Path.{subst}
use pdb.Errors.{ok}
use pdb.Scroll.{Scroll, u16, u32}
use pdb.Buffer.State.{ParseBuffer, ◌>>=◌, return, take_bytes, from_bytes, parse_cstring}
use pdb.Buffer.Padded.{Yields-parse_cstring}
use pdb.Buffer.Yields.{
  Leaves, Yields, Yields-bind, Yields-take_bytes, from_bytes-Leaves, Leaves-length,
}
use pdb.Buffer.Advance.{Forward-take_bytes}
use pdb.Buffer.Onward.{
  Onward, OnwardAt, Onward-bind, Onward-less, Onward-next, Onward-return, Forward-Onward,
}
use pdb.Buffer.Fields.{Yields-field}
use pdb.Buffer.Repeat.{repeat_times}
use pdb.PdbInfo.{parse_fields, lift, name_at, parse, map_count, names_of, parse_entry, stream_names}
use pdb.PdbInfo.Written.{
  Entry, Written, entry_bytes, map_bytes, front, stream_of, IsEntry, IsWritten, info_of, fields_of,
  names_in, named, length-front,
}

name_at_lem :
    (names : List ℕ) (e : Entry)
    → IsEntry names e
    → length names < 2 ^ 32
    → name_at names (length e.before) ≡ ok e.name
name_at_lem names e (same, text, id) small =
    rw
      (
        le→leb (length e.before) (length names)
            (omega (arith, ap length same, length-append e.before (e.name ++ (0 ∷ e.after)))),
        behind,
      )
      (ap (λ r. r.0) runs)
  where
    behind : drop (length e.before) names ≡ e.name ++ (0 ∷ e.after)
    behind = ap (drop (length e.before)) same ∙ drop-append e.before (e.name ++ (0 ∷ e.after))

    short : length (e.name ++ (0 ∷ e.after)) < 2 ^ 63
    short = omega (arith, small, ap length same, length-append e.before (e.name ++ (0 ∷ e.after)))

    read : Yields parse_cstring (from_bytes (e.name ++ (0 ∷ e.after))) e.name e.after
    read = Yields-parse_cstring _ e.name e.after text (from_bytes-Leaves _ short)

    runs : parse_cstring (from_bytes (e.name ++ (0 ∷ e.after))) ≡ (ok e.name, read.0)
    runs = read.1

module _ (sc : Scroll) where
  Onward-parse_fields : Onward (Unit {0}) (parse_fields sc) 0
  unfolding parse_fields
  Onward-parse_fields = Onward-next sc u32 λ version. Onward-next sc u32 λ signature.
      Onward-next sc u32 λ age. Onward-next sc u32 λ d1. Onward-next sc u16 λ d2.
        Onward-next sc u16 λ d3.
          Onward-bind (Onward-less 0 (omega arith) (Forward-Onward (Forward-take_bytes 8)))
            λ d4. Onward-next sc u32 λ names_size. Onward-return _

  parse_fields-Yields :
      (w : Written)
      → IsWritten w
      → Yields (parse_fields sc) (from_bytes (stream_of w)) (fields_of w) (w.names ++ map_bytes w)
  unfolding parse_fields
  parse_fields-Yields w is =
      let behind = w.names ++ map_bytes w in
      let l =
        subst (Leaves (from_bytes (stream_of w))) (regrouped behind)
          (from_bytes-Leaves (stream_of w) is.small) in
      Yields-field sc u32 _ w.version _ _ (fields_of w) behind (omega (arith, is.version)) l
        λ b1 l1.
          Yields-field sc u32 b1 w.signature _ _ (fields_of w) behind (omega (arith, is.signature))
            l1
            λ b2 l2.
              Yields-field sc u32 b2 w.age _ _ (fields_of w) behind (omega (arith, is.age)) l2
                λ b3 l3.
                  Yields-field sc u32 b3 w.guid.d1 _ _ (fields_of w) behind (omega (arith, is.d1))
                    l3
                    λ b4 l4.
                      Yields-field sc u16 b4 w.guid.d2 _ _ (fields_of w) behind
                        (omega (arith, is.d2)) l4
                        λ b5 l5.
                          Yields-field sc u16 b5 w.guid.d3 _ _ (fields_of w) behind
                            (omega (arith, is.d3)) l5
                            λ b6 l6.
                              Yields-bind (take_bytes 8) _ b6 w.guid.d4 _ (fields_of w) behind
                                (Yields-take_bytes 8 b6 w.guid.d4 _ is.d4 l6)
                                λ b7 l7.
                                  Yields-field sc u32 b7 (length w.names) _ behind (fields_of w)
                                    behind (omega (arith, is.names)) l7 λ b8 l8. (b8, refl, l8)
    where
      regrouped :
          (behind : List ℕ)
          → front w ++ behind
            ≡ le_bytes 4 w.version
              ++ (le_bytes 4 w.signature
                  ++ (le_bytes 4 w.age
                      ++ (le_bytes 4 w.guid.d1
                          ++ (le_bytes 2 w.guid.d2
                              ++ (le_bytes 2 w.guid.d3
                                  ++ (w.guid.d4 ++ (le_bytes 4 (length w.names) ++ behind)))))))
      regrouped behind =
          ap
            (λ t.
              le_bytes 4 w.version
              ++ (le_bytes 4 w.signature
                  ++ (le_bytes 4 w.age
                      ++ (le_bytes 4 w.guid.d1
                          ++ (le_bytes 2 w.guid.d2 ++ (le_bytes 2 w.guid.d3 ++ t))))))
            (append_assoc w.guid.d4 (le_bytes 4 (length w.names)) behind)

  -- The fields end at the 32nd byte.
  parse_lem : (w : Written) → IsWritten w → parse sc (stream_of w) ≡ ok (info_of w)
  unfolding parse
  parse_lem w is =
      let (after, runs, l) = parse_fields-Yields w is in
      let start = from_bytes-Leaves (stream_of w) is.small in
      let moved =
        subst (OnwardAt (Unit {0}) 0 (from_bytes (stream_of w))) runs
          (Onward-parse_fields.onward (from_bytes (stream_of w)) start.valid) in
      let at : after.pos ≡ 32 = omega (
        arith,
        ap length moved.0,
        Leaves-length after [] _ l,
        length-append (front w) (w.names ++ map_bytes w),
        length-front w is,
      ) in
      rw (parse, runs) (ap (λ (n : ℕ). ok (record (info_of w) { names_offset = n })) at)

  entries-Yields :
      (names : List ℕ) (es : List Entry) (b : ParseBuffer)
      → length names < 2 ^ 32
      → All (IsEntry names) es
      → Leaves b (entry_bytes es)
      → Yields (repeat_times (length es) (parse_entry sc names)) b (names_in es) []
  unfolding repeat_times
  entries-Yields names [] b small hs l = (b, refl, l)
  entries-Yields names (e ∷ es) b small ((same, text, id), hs) l =
      Yields-bind (parse_entry sc names) _ b (record { name = e.name; stream_id = e.stream_id })
        (entry_bytes es) (names_in (e ∷ es)) []
        (Yields-field sc u32 b (length e.before) _ _ _ (entry_bytes es)
          (omega (arith, ap length same, length-append e.before (e.name ++ (0 ∷ e.after)), small)) l
          λ b1 l1.
            Yields-field sc u32 b1 e.stream_id _ (entry_bytes es) _ (entry_bytes es)
              (omega (arith, id)) l1 λ b2 l2. (b2, found b2, l2))
        λ b3 l3.
          Yields-bind (repeat_times (length es) (parse_entry sc names)) _ b3 (names_in es) []
            (names_in (e ∷ es)) [] (entries-Yields names es b3 small hs l3) λ b4 l4. (b4, refl, l4)
    where
      found :
          (b : ParseBuffer)
          → (lift (name_at names (length e.before)) >>= λ name.
                return (named (e.stream_id % 2 ^ 16) name))
              b
            ≡ (ok (named e.stream_id e.name), b)
      found b =
          rw (name_at_lem names e (same, text, id) (omega arith))
            (ap (λ (n : ℕ). (ok (named n e.name), b)) (omega (arith, id)))

  map_count-Yields :
      (w : Written)
      → IsWritten w
      → Yields
          (map_count sc (info_of w))
          (from_bytes (stream_of w))
          (length w.entries)
          (entry_bytes w.entries)
  map_count-Yields w is =
      let rest = entry_bytes w.entries in
      let l =
        subst (Leaves (from_bytes (stream_of w)))
          (sym (append_assoc (front w) w.names (map_bytes w)))
          (from_bytes-Leaves (stream_of w) is.small) in
      Yields-bind (take_bytes (32 + length w.names)) _ (from_bytes (stream_of w))
        (front w ++ w.names) (map_bytes w) (length w.entries) rest
        (Yields-take_bytes (32 + length w.names) (from_bytes (stream_of w)) (front w ++ w.names)
          (map_bytes w) (omega (arith, length-append (front w) w.names, length-front w is)) l)
        λ b1 l1.
          Yields-field sc u32 b1 (length w.entries) _ _ (length w.entries) rest
            (omega (arith, is.count)) l1
            λ b2 l2.
              Yields-field sc u32 b2 w.entries_size _ _ (length w.entries) rest
                (omega (arith, is.entries_size)) l2
                λ b3 l3.
                  Yields-field sc u32 b3 w.ok_words _ _ (length w.entries) rest
                    (omega (arith, is.ok_words)) l3
                    λ b4 l4.
                      Yields-bind (take_bytes (w.ok_words * 4)) _ b4 w.ok_bits _ (length w.entries)
                        rest (Yields-take_bytes (w.ok_words * 4) b4 w.ok_bits _ is.ok_bits l4)
                        λ b5 l5.
                          Yields-field sc u32 b5 w.deleted_words _ _ (length w.entries) rest
                            (omega (arith, is.deleted_words)) l5
                            λ b6 l6.
                              Yields-bind (take_bytes (w.deleted_words * 4)) _ b6 w.deleted_bits
                                rest (length w.entries) rest
                                (Yields-take_bytes (w.deleted_words * 4) b6 w.deleted_bits rest
                                  is.deleted_bits l6)
                                λ b7 l7. (b7, refl, l7)

  names_of_lem : (w : Written) → IsWritten w → names_of sc (info_of w) ≡ ok w.names
  names_of_lem w is =
      let (after, runs, l) =
        Yields-bind (take_bytes 32) (λ skipped. take_bytes (length w.names))
          (from_bytes (stream_of w)) (front w) (w.names ++ map_bytes w) w.names (map_bytes w)
          (Yields-take_bytes 32 (from_bytes (stream_of w)) (front w) (w.names ++ map_bytes w)
            (length-front w is) (from_bytes-Leaves (stream_of w) is.small))
          λ b1 l1. Yields-take_bytes (length w.names) b1 w.names (map_bytes w) refl l1 in
      ap (λ r. r.0) runs

  stream_names_lem :
      (w : Written) → IsWritten w → stream_names sc (info_of w) ≡ ok (names_in w.entries)
  unfolding stream_names
  stream_names_lem w is =
      let (after, runs, l) =
        Yields-bind (map_count sc (info_of w)) _ (from_bytes (stream_of w)) (length w.entries)
          (entry_bytes w.entries) (names_in w.entries) [] (map_count-Yields w is)
          λ b1 l1.
            Yields-bind (lift (names_of sc (info_of w)))
              (λ names. repeat_times (length w.entries) (parse_entry sc names)) b1 w.names
              (entry_bytes w.entries) (names_in w.entries) []
              (b1, ap (λ r. (r, b1)) (names_of_lem w is), l1)
              λ b2 l2.
                entries-Yields w.names w.entries b2 (omega (arith, is.names)) is.entries l2 in
      ap (λ r. r.0) runs

  -- An information stream of fewer than 2 ^ 63 bytes whose numbers fit their sizes, and whose sets have four
  -- bytes for each word, with a name without null bytes for each entry of its map that starts where the entry
  -- says and ends at the next null byte, whatever stands between the names and in what order, gives its
  -- fields by `parse` and the name and the stream of each entry, in the order of the entries, by
  -- `stream_names`.
  pub parse-stream_names :
      (w : Written)
      → IsWritten w
      → (parse sc (stream_of w) ≡ ok (info_of w))
        × (stream_names sc (info_of w) ≡ ok (names_in w.entries))
  parse-stream_names w is = (parse_lem w is, stream_names_lem w is)
