-- ===== src/Symbols/Iter/Stream.antt =====
-- src/symbol/mod.rs: what the iterator gives on a table as it is laid out.
use pdb.Prelude.{
  ℕ, zero, suc, ◌+◌, ◌%◌, ◌≤◌, ◌<◌, ◌^◌, ◌≡◌, refl, sym, ap, ◌∙◌, List, [], ◌∷◌, ◌++◌, append_assoc,
  append-nil, length, length-append, le_bytes, arith, Bool, true, false, Option, none, some, ltb,
  Bool-cases, inl, inr, All, le_value, take, ◌||◌, ◌==◌, if◌then◌else◌, ◌⊎◌, u32_mod, le→ltb,
}
use mathlib.Core.Path.{subst}
use pdb.Errors.{Result, ok, err, panic}
use pdb.Scroll.{Scroll, Scrolled, read, failed, u16}
use pdb.Buffer.State.{ParseBuffer, is_empty, take_bytes}
use pdb.Buffer.Yields.{
  Leaves, Leaves-length, Yields, Yields-bind, Yields-take_bytes, from_bytes-Leaves,
}
use pdb.Buffer.Fields.{Yields-field}
use pdb.Buffer.Padded.{moved_by}
use pdb.Buffer.Items.{collect, finished, before, go_on}
use pdb.Buffer.Laid.{laid, is_empty-Leaves-nil, is_empty-Leaves-cons}
use pdb.Buffer.Loop.{while_more}
use pdb.Types.Header.{reject}
use pdb.Symbols.{Symbol, is_padding, raw_kind}
use pdb.Symbols.Iter.{unless_padding, read_symbol, choose, next, iter}
use pdb.Symbols.Iter.Safety.{read_symbol-Forward}

-- A record of a table: its length in 16 bits, and its bytes.
abbrev pub record_bytes : List ℕ → List ℕ
record_bytes bytes = le_bytes 2 (length bytes) ++ bytes

abbrev pub IsRecord : List ℕ → Type 0
IsRecord bytes = (2 ≤ length bytes) × (length bytes < 2 ^ 16)

abbrev pub symbol_at : ℕ → List ℕ → Symbol
symbol_at pos bytes = record { index = pos % u32_mod; bytes = bytes }

-- A record that is padding or is to be skipped, by the kind in its first two bytes.
abbrev pub skipped : List ℕ → Bool
skipped bytes = (le_value (take 2 bytes) == 0x0402) || (le_value (take 2 bytes) == 7)

-- The records that are not skipped, each with the position where it begins.
abbrev pub symbols_from : ℕ → List (List ℕ) → List Symbol
symbols_from pos [] = []
symbols_from pos (bytes ∷ records) =
    let rest = symbols_from (pos + length (record_bytes bytes)) records in
    if skipped bytes then rest else symbol_at pos bytes ∷ rest

module _ (sc : Scroll) where
  raw_kind_lem :
      (symbol : Symbol)
      → 2 ≤ length symbol.bytes
      → raw_kind sc symbol ≡ le_value (take 2 symbol.bytes)
  unfolding raw_kind
  raw_kind_lem symbol h = ap kind_in (sc.pread-fits u16 symbol.bytes 0 (omega (arith, h)))
    where
      kind_in : Scrolled → ℕ
      kind_in (read kind) = kind
      kind_in (failed e) = 0

  pub is_padding_lem :
      (pos : ℕ) (bytes : List ℕ)
      → IsRecord bytes
      → is_padding sc (symbol_at pos bytes) ≡ skipped bytes
  unfolding is_padding
  is_padding_lem pos bytes h =
      ap (λ (kind : ℕ). (kind == 0x0402) || (kind == 7)) (raw_kind_lem (symbol_at pos bytes) h.0)

  pub read_symbol_lem :
      (b : ParseBuffer) (bytes rest : List ℕ)
      → IsRecord bytes
      → Leaves b (record_bytes bytes ++ rest)
      → Yields (read_symbol sc) b (symbol_at b.pos bytes) rest
  unfolding read_symbol
  read_symbol_lem b bytes rest h l =
      Yields-field sc u16 b (length bytes) _ _ (symbol_at b.pos bytes) rest (omega arith)
        (subst (Leaves b) (append_assoc (le_bytes 2 (length bytes)) bytes rest) l)
        λ b1 l1.
          Yields-bind (reject (ltb (length bytes) 2) _) _ b1 tt (bytes ++ rest) _ rest
            (b1, rw (le→ltb _ _ h.0) refl, l1)
            λ b2 l2.
              Yields-bind (take_bytes (length bytes)) _ b2 bytes rest _ rest
                (Yields-take_bytes _ b2 bytes rest refl l2) λ b3 l3. (b3, refl, l3)

  -- What a call gives: no symbol, where all records that are left are padding, or the first symbol.
  abbrev Served : List (List ℕ) → ParseBuffer → Result (Option Symbol) × ParseBuffer → Type 0
  Served records b r =
      ((r.0 ≡ ok none) × (symbols_from b.pos records ≡ []))
      ⊎ ((symbol : Symbol) × (remaining : List (List ℕ)) × (after : ParseBuffer) × (r
            ≡ (ok (some symbol), after))
          × Leaves after (laid record_bytes remaining)
          × (symbols_from b.pos records ≡ symbol ∷ symbols_from after.pos remaining)
          × All IsRecord remaining
          × (length remaining < length records))

  -- Behind a record of padding.
  Served-padding :
      (bytes : List ℕ) (records : List (List ℕ)) (b after : ParseBuffer)
      (r : Result (Option Symbol) × ParseBuffer)
      → skipped bytes ≡ true
      → after.pos ≡ b.pos + length (record_bytes bytes)
      → Served records after r
      → Served (bytes ∷ records) b r
  Served-padding bytes records b after r padding moved (inl (done, nothing)) =
      inl (done, one_less ∙ nothing)
    where
      one_less : symbols_from b.pos (bytes ∷ records) ≡ symbols_from after.pos records
      one_less = rw (padding, moved) refl
  Served-padding bytes records b after r padding moved
        (inr (symbol, remaining, last, runs, l, same, v, fewer)) =
      inr (symbol, remaining, last, runs, l, one_less ∙ same, v, omega arith)
    where
      one_less : symbols_from b.pos (bytes ∷ records) ≡ symbols_from after.pos records
      one_less = rw (padding, moved) refl

  pub round_lem :
      (fuel : ℕ) (b after : ParseBuffer) (bytes : List ℕ)
      → is_empty b ≡ false
      → read_symbol sc b ≡ (ok (symbol_at b.pos bytes), after)
      → (padding : Bool) → is_padding sc (symbol_at b.pos bytes) ≡ padding
      → while_more (read_symbol sc) (choose sc) (suc fuel) b
        ≡ unless_padding padding
            (symbol_at b.pos bytes)
            (while_more (read_symbol sc) (choose sc) fuel)
            after
  unfolding while_more
  round_lem fuel b after bytes more runs padding h =
      rw (more, runs)
        (ap
          (λ p.
            unless_padding p (symbol_at b.pos bytes) (while_more (read_symbol sc) (choose sc) fuel)
              after)
          h)

  while_more_lem :
      (records : List (List ℕ)) (fuel : ℕ) (b : ParseBuffer)
      → All IsRecord records
      → Leaves b (laid record_bytes records)
      → length records < fuel
      → Served records b (while_more (read_symbol sc) (choose sc) fuel b)
  unfolding while_more
  while_more_lem records zero b v l h = absurd (omega arith)
  while_more_lem [] (suc fuel) b v l h = inl (rw (is_empty-Leaves-nil b l) refl, refl)
  while_more_lem (bytes ∷ records) (suc fuel) b (v, vs) l h =
      let (after, runs, l') = read_symbol_lem b bytes (laid record_bytes records) v l in
      let moved =
        moved_by (read_symbol sc) 2 b after _ (record_bytes bytes) _ (read_symbol-Forward sc) runs l
          l' in
      let more = is_empty-Leaves-cons b _ (omega arith) l in
      let same = is_padding_lem b.pos bytes v in
      elim (Bool-cases (skipped bytes)) [
        | inl padding ↦
            subst (Served (bytes ∷ records) b)
              (sym (round_lem fuel b after bytes more runs true (same ∙ padding)))
              (Served-padding bytes records b after _ padding moved
                (while_more_lem records fuel after vs l' (omega arith)))
        | inr kept ↦ inr (
          symbol_at b.pos bytes,
          records,
          after,
          round_lem fuel b after bytes more runs false (same ∙ kept),
          l',
          rw (kept, moved) refl,
          vs,
          omega arith,
        )
      ]

  laid_count : (records : List (List ℕ)) → length records ≤ length (laid record_bytes records)
  laid_count [] = omega arith
  laid_count (bytes ∷ records) =
      omega
        (arith, laid_count records, length-append (record_bytes bytes) (laid record_bytes records))

  next_lem :
      (records : List (List ℕ)) (b : ParseBuffer)
      → All IsRecord records
      → Leaves b (laid record_bytes records)
      → Served records b (next sc b)
  unfolding next
  next_lem records b v l = while_more_lem records (suc (length b.bytes)) b v l (
      omega (
        arith,
        laid_count records,
        Leaves-length b (laid record_bytes records) [] (subst (Leaves b) (sym (append-nil _)) l),
      ))

  collect_round :
      (fuel : ℕ) (records : List (List ℕ)) (b : ParseBuffer)
      (r : Result (Option Symbol) × ParseBuffer)
      → ((remaining : List (List ℕ)) (after : ParseBuffer)
          → All IsRecord remaining
          → Leaves after (laid record_bytes remaining)
          → length remaining < length records
          → collect fuel (next sc) after ≡ finished (symbols_from after.pos remaining))
      → Served records b r
      → go_on r (collect fuel (next sc)) ≡ finished (symbols_from b.pos records)
  collect_round fuel records b (ok none, after) onward (inl (done, nothing)) =
      ap finished (sym nothing)
  collect_round fuel records b (ok (some symbol), after) onward (inl (done, nothing)) = cc
  collect_round fuel records b (err e, after) onward (inl (done, nothing)) = cc
  collect_round fuel records b (panic, after) onward (inl (done, nothing)) = cc
  collect_round fuel records b r onward (inr (symbol, remaining, after, runs, l, same, v, fewer)) =
      ap (λ r. go_on r (collect fuel (next sc))) runs
      ∙ ap (before symbol) (onward remaining after v l fewer)
      ∙ ap finished (sym same)

  pub collect_lem :
      (fuel : ℕ) (records : List (List ℕ)) (b : ParseBuffer)
      → All IsRecord records
      → Leaves b (laid record_bytes records)
      → length records < fuel
      → collect fuel (next sc) b ≡ finished (symbols_from b.pos records)
  unfolding collect
  collect_lem zero records b v l h = absurd (omega arith)
  collect_lem (suc fuel) records b v l h =
      collect_round fuel records b (next sc b)
        (λ remaining after v' l' fewer. collect_lem fuel remaining after v' l' (omega arith))
        (next_lem records b v l)

  -- A table of records, each behind its length in 16 bits and of two bytes or more, gives when it is
  -- iterated over exactly the records whose kind is neither padding nor a skipped record, in order,
  -- each with the offset of its length field as its index; the table has to fit in a slice.
  pub symbols-laid :
      (records : List (List ℕ)) (fuel : ℕ)
      → All IsRecord records
      → length (laid record_bytes records) < 2 ^ 63
      → length records < fuel
      → collect fuel (next sc) (iter (laid record_bytes records))
        ≡ finished (symbols_from 0 records)
  symbols-laid records fuel v small enough =
      collect_lem fuel records _ v (from_bytes-Leaves _ small) enough
