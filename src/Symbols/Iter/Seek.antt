-- ===== src/Symbols/Iter/Seek.antt =====
-- src/symbol/mod.rs: moving the iterator to a symbol of a table.
use pdb.Prelude.{
  ℕ, ◌<◌, ◌^◌, ◌≡◌, refl, sym, ap, ◌∙◌, List, [], ◌∷◌, ◌++◌, append_assoc, length, length-append,
  arith, false, some, All, min, drop-append,
}
use pdb.Errors.{ok}
use pdb.Scroll.{Scroll}
use pdb.Buffer.State.{ParseBuffer, seek}
use pdb.Buffer.Yields.{Leaves}
use pdb.Buffer.Items.{collect, finished}
use pdb.Buffer.Laid.{laid, is_empty-Leaves-cons}
use pdb.Symbols.Iter.{next, skip_to, iter, iter_at}
use pdb.Symbols.Iter.Stream.{
  record_bytes, IsRecord, symbol_at, skipped, symbols_from, round_lem, read_symbol_lem,
  is_padding_lem, collect_lem,
}

module _ (sc : Scroll) where
  laid-append :
      (xs ys : List (List ℕ))
      → laid record_bytes (xs ++ ys) ≡ laid record_bytes xs ++ laid record_bytes ys
  laid-append [] ys = refl
  laid-append (x ∷ xs) ys =
      ap (λ t. record_bytes x ++ t) (laid-append xs ys)
      ∙ sym (append_assoc (record_bytes x) (laid record_bytes xs) (laid record_bytes ys))

  seek-Leaves :
      (b : ParseBuffer) (xs rest : List ℕ)
      → b.bytes ≡ xs ++ rest
      → length b.bytes < 2 ^ 63
      → Leaves (seek (length xs) b) rest × ((seek (length xs) b).pos ≡ length xs)
  unfolding seek
  seek-Leaves b xs rest h small = (
    record {
      valid = record { within = omega arith; small = small };
      left = rw (place, h) (drop-append xs rest);
    },
    place,
  )
    where
      place : min (length xs) (length b.bytes) ≡ length xs
      place = omega (arith, ap length h, length-append xs rest)

  first_symbol :
      (b : ParseBuffer) (bytes rest : List ℕ) (index : ℕ)
      → b.pos ≡ index
      → IsRecord bytes
      → skipped bytes ≡ false
      → Leaves b (record_bytes bytes ++ rest)
      → (next sc b).0 ≡ ok (some (symbol_at index bytes))
  unfolding next
  first_symbol b bytes rest index place v kept l =
      let (after, runs, l') = read_symbol_lem sc b bytes rest v l in
      let kept_here = is_padding_lem sc b.pos bytes v ∙ kept in
      ap (λ r. r.0)
        (round_lem sc (length b.bytes) b after bytes (is_empty-Leaves-cons b _ (omega arith) l) runs
          false kept_here)
      ∙ ap (λ (n : ℕ). ok (some (symbol_at n bytes))) place

  -- In a table of records, moving an iterator to the index of a record that is no padding gives this
  -- record's symbol, wherever the iterator stood before, and an iterator that starts at this index
  -- gives the symbol and all that follow it.
  pub skip_to-laid :
      (earlier : List (List ℕ)) (bytes : List ℕ) (later : List (List ℕ)) (pos fuel : ℕ)
      → All IsRecord (bytes ∷ later)
      → skipped bytes ≡ false
      → length (laid record_bytes (earlier ++ (bytes ∷ later))) < 2 ^ 63
      → length (bytes ∷ later) < fuel
      → let table = laid record_bytes (earlier ++ (bytes ∷ later)) in
        let index = length (laid record_bytes earlier) in
        ((skip_to sc index (record { bytes = table; pos = pos })).0
          ≡ ok (some (symbol_at index bytes)))
        × (collect fuel (next sc) (iter_at table index)
            ≡ finished (symbols_from index (bytes ∷ later)))
  unfolding skip_to iter_at
  skip_to-laid earlier bytes later pos fuel v kept small enough =
      let table = laid record_bytes (earlier ++ (bytes ∷ later)) in
      let split = laid-append earlier (bytes ∷ later) in
      let there =
        seek-Leaves (record { bytes = table; pos = pos }) (laid record_bytes earlier) _ split
          small in
      let begun = seek-Leaves (iter table) (laid record_bytes earlier) _ split small in
      (
        first_symbol _ bytes _ _ there.1 v.0 kept there.0,
        collect_lem sc fuel (bytes ∷ later) _ v begun.0 enough
            ∙ ap (λ (n : ℕ). finished (symbols_from n (bytes ∷ later))) begun.1,
      )
