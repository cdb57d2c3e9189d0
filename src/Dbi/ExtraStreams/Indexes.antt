-- ===== src/Dbi/ExtraStreams/Indexes.antt =====
-- The fields of `DBIExtraStreams` as an array that may be cut short.
use pdb.Prelude.{
  ℕ, zero, suc, ◌%◌, ◌^◌, ◌<◌, ◌≡◌, refl, ap, List, [], ◌∷◌, length, All, true, le_bytes,
  length-le_bytes, length-append, arith, ◌==◌,
}
use pdb.Errors.{ok}
use pdb.Scroll.{Scroll, u16}
use pdb.Buffer.State.{ParseBuffer, Parser, ◌>>=◌, len, from_bytes}
use pdb.Buffer.Position.{len_lem}
use pdb.Buffer.Yields.{Leaves, Yields, Yields-bind, Yields-parse_uint, from_bytes-Leaves}
use pdb.Buffer.Laid.{laid, is_empty-Leaves-nil, is_empty-Leaves-cons}
use pdb.Streams.{StreamIndex, no_stream}
use pdb.Dbi.ExtraStreams.{DbiExtraStreams, next_index, parse_indexes, parse}

-- Numbers of streams as they are stored.
abbrev pub index_bytes : List ℕ → List ℕ
index_bytes = laid (le_bytes 2)

abbrev first_or_none : List ℕ → StreamIndex
first_or_none [] = no_stream
first_or_none (s ∷ streams) = s

abbrev others : List ℕ → List ℕ
others [] = []
others (s ∷ streams) = streams

-- The number at a place, or no stream.
abbrev pub index_at : ℕ → List ℕ → StreamIndex
index_at zero streams = first_or_none streams
index_at (suc i) streams = index_at i (others streams)

abbrev pub IsIndex : ℕ → Type 0
IsIndex s = s < 2 ^ 16

-- The fields by their places.
abbrev pub fields_of : List ℕ → DbiExtraStreams
fields_of streams = record {
  fpo = index_at 0 streams;
  exception = index_at 1 streams;
  fixup = index_at 2 streams;
  omap_to_src = index_at 3 streams;
  omap_from_src = index_at 4 streams;
  section_headers = index_at 5 streams;
  token_rid_map = index_at 6 streams;
  xdata = index_at 7 streams;
  pdata = index_at 8 streams;
  framedata = index_at 9 streams;
  original_section_headers = index_at 10 streams;
}

All-others : (streams : List ℕ) → All IsIndex streams → All IsIndex (others streams)
All-others [] h = tt
All-others (s ∷ streams) h = h.1

module _ (sc : Scroll) where
  Yields-next_index :
      (b : ParseBuffer) (streams : List ℕ)
      → All IsIndex streams
      → Leaves b (index_bytes streams)
      → Yields (next_index sc) b (first_or_none streams) (index_bytes (others streams))
  unfolding next_index
  Yields-next_index b [] h l = rw (next_index, is_empty-Leaves-nil b l) (b, refl, l)
  Yields-next_index b (s ∷ streams) h l =
      rw (next_index, is_empty-Leaves-cons b (index_bytes (s ∷ streams)) some_bytes l)
        (Yields-parse_uint sc u16 b s (index_bytes streams) h.0 l)
    where
      some_bytes : 0 < length (index_bytes (s ∷ streams))
      some_bytes =
          omega (arith, length-append (le_bytes 2 s) (index_bytes streams), length-le_bytes 2 s)

  Yields-next :
      {B : Type 0} (b : ParseBuffer) (streams : List ℕ) (k : StreamIndex → Parser B) (c : B)
      (rest : List ℕ)
      → All IsIndex streams
      → Leaves b (index_bytes streams)
      → ((after : ParseBuffer)
          → All IsIndex (others streams)
          → Leaves after (index_bytes (others streams))
          → Yields (k (first_or_none streams)) after c rest)
      → Yields (next_index sc >>= k) b c rest
  Yields-next b streams k c rest h l further =
      Yields-bind (next_index sc) k b (first_or_none streams) (index_bytes (others streams)) c rest
        (Yields-next_index b streams h l) λ after l'. further after (All-others streams h) l'

  Yields-parse_indexes :
      (b : ParseBuffer) (streams : List ℕ)
      → All IsIndex streams
      → Leaves b (index_bytes streams)
      → (rest : List ℕ) × Yields (parse_indexes sc) b (fields_of streams) rest
  unfolding parse_indexes
  Yields-parse_indexes b streams h l = (
    _,
    Yields-next b (streams) _ _ _ h l λ b1 h1 l1.
        Yields-next b1 (others streams) _ _ _ h1 l1 λ b2 h2 l2.
          Yields-next b2 (others (others streams)) _ _ _ h2 l2 λ b3 h3 l3.
            Yields-next b3 (others (others (others streams))) _ _ _ h3 l3 λ b4 h4 l4.
              Yields-next b4 (others (others (others (others streams)))) _ _ _ h4 l4 λ b5 h5 l5.
                Yields-next b5 (others (others (others (others (others streams))))) _ _ _ h5 l5
                  λ b6 h6 l6.
                    Yields-next b6 (others (others (others (others (others (others streams)))))) _ _
                      _ h6 l6
                      λ b7 h7 l7.
                        Yields-next b7
                          (others (others (others (others (others (others (others streams))))))) _ _
                          _ h7 l7
                          λ b8 h8 l8.
                            Yields-next b8
                              (others (
                                others
                                  (others (others (others (others (others (others streams))))))))
                              _ _ _ h8 l8
                              λ b9 h9 l9.
                                Yields-next b9
                                  (others (
                                    others (
                                      others (
                                        others
                                          (others (others (others (others (others streams)))))))))
                                  _ _ _ h9 l9
                                  λ b10 h10 l10.
                                    Yields-next b10
                                      (others (
                                        others (
                                          others (
                                            others (
                                              others (
                                                others
                                                  (others (others (others (others streams))))))))))
                                      _ _ _ h10 l10 λ b11 h11 l11. (b11, refl, l11),
  )

even : (streams : List ℕ) → length (index_bytes streams) % 2 ≡ 0
even [] = omega arith
even (s ∷ streams) =
    omega
      (arith, even streams, length-append (le_bytes 2 s) (index_bytes streams), length-le_bytes 2 s)

-- Stored numbers of streams, fewer than 2 ^ 63 bytes of them, read back: each field of
-- `DBIExtraStreams` is the number at its place, or no stream where there are fewer numbers.
pub parse-index_bytes :
    (sc : Scroll) (streams : List ℕ)
    → All IsIndex streams
    → length (index_bytes streams) < 2 ^ 63
    → (parse sc (from_bytes (index_bytes streams))).0 ≡ ok (fields_of streams)
unfolding parse
parse-index_bytes sc streams small few =
    let l : Leaves (from_bytes (index_bytes streams)) (index_bytes streams) =
      from_bytes-Leaves _ few in
    let (rest, (after, runs, l')) =
      Yields-parse_indexes sc (from_bytes (index_bytes streams)) streams small l in
    rw (parse, whole l) (ap (λ r. r.0) runs)
  where
    whole :
        Leaves (from_bytes (index_bytes streams)) (index_bytes streams)
        → (len (from_bytes (index_bytes streams)) % 2 == 0) ≡ true
    whole l = ground (arith, len_lem (from_bytes (index_bytes streams)) l.valid, even streams)
