-- ===== src/Omap/LookupRange.antt =====
-- src/omap.rs: looking a range up yields the translations of its addresses, one by one and in order.
use pdb.Prelude.{
  ℕ, zero, suc, ◌-◌, ◌≤◌, ◌<◌, ◌≡◌, refl, sym, ap, ◌∙◌, List, [], ◌∷◌, false, length, Option, none,
  some, drop, get_elem?, All, leb, leb→le, leb→lt, arith, inl, inr, Bool-cases, range, u32_mod,
}
use mathlib.Core.Path.{subst}
use mathlib.Core.Option.{some-injective}
use pdb.Omap.Search.{Found, found, insert_at, binary_search, key_at, Answers, binary_search-Answers}
use pdb.Omap.Table.{
  OmapRecord, omap_record, RangeIter, sources, starting_at, lookup, lookup_range, empty_iter,
  collect, mapped_by,
}
use pdb.Omap.Governing.{
  governing, governed, IsAscending, IsAscending-IsSorted, lookup-governing, length-sources,
  get_elem?-some, governing-high,
}
use pdb.Omap.Ranges.{collect-walk}
use pdb.Omap.Image.{
  addresses, collect_some, collect_some-congr, governed_from, governed_by, governed_from-high,
  Ascends, Ahead, walk-governed,
}

-- The records of the table ascend, and no translation passes the end of the 32-bit addresses.
abbrev pub Fits : List OmapRecord → ℕ → Type 0
Fits [] end = Unit
Fits (r ∷ rest) end = Ascends r rest end

pub record IsTable (records : List OmapRecord) (end : ℕ) : Type 0 where
  pub ascending : IsAscending records
  pub fits : Fits records end
  pub words : All (λ r. r.source_address < u32_mod) records

-- The record at an index, with those behind it, governs what the whole table does from its address on.
Fits-drop :
    (records : List OmapRecord) (end i : ℕ) (q : OmapRecord)
    → Fits records end
    → get_elem? records i ≡ some q
    → Ascends q (drop (suc i) records) end
Fits-drop [] end i q f e = cc
Fits-drop (r ∷ rest) end zero q f e =
    subst (λ (x : OmapRecord). Ascends x rest end) (some-injective _ _ e) f
Fits-drop (r ∷ []) end (suc i) q f e = cc
Fits-drop (r ∷ s ∷ rest) end (suc i) q f e = Fits-drop (s ∷ rest) end i q f.2 e

governed-from :
    (r : OmapRecord) (rest : List OmapRecord) (a : ℕ)
    → r.source_address ≤ a
    → governed (r ∷ rest) a ≡ governed_from r rest a
unfolding governed
governed-from r rest a h = ap by_record (governing-high r rest a h) ∙ settled (governing rest a)
  where
    by_record : Option OmapRecord → Option ℕ
    by_record o = elim o [ none ↦ none | some q ↦ mapped_by q a ]

    settled :
        (o : Option OmapRecord)
        → by_record (elim o [ none ↦ some r | some q ↦ some q ]) ≡ governed_by r a o
    settled none = refl
    settled (some q) = refl

governed_from-drop :
    (records : List OmapRecord) (i : ℕ) (q : OmapRecord) (a : ℕ)
    → ((j : ℕ) → j < suc i → key_at (sources records) j ≤ a)
    → get_elem? records i ≡ some q
    → governed_from q (drop (suc i) records) a ≡ governed records a
governed_from-drop [] i q a low e = cc
governed_from-drop (r ∷ rest) zero q a low e =
    subst (λ (x : OmapRecord). governed_from x rest a ≡ governed (r ∷ rest) a)
      (some-injective _ _ e) (sym (governed-from r rest a (low 0 (omega arith))))
governed_from-drop (r ∷ []) (suc i) q a low e = cc
governed_from-drop (r ∷ s ∷ rest) (suc i) q a low e =
    governed_from-drop (s ∷ rest) i q a (λ j p. low (suc j) (omega arith)) e
    ∙ governed-from s rest a (low 1 (omega arith))
    ∙ sym (governed_from-high r s rest a (low 1 (omega arith)))
    ∙ sym (governed-from r (s ∷ rest) a (low 0 (omega arith)))

key_at-drop :
    (records : List OmapRecord) (i : ℕ) (b : ℕ)
    → ((j : ℕ) → suc i ≤ j → j < length (sources records) → b ≤ key_at (sources records) j)
    → Ahead b (drop (suc i) records)
key_at-drop [] i b h = tt
key_at-drop (r ∷ []) zero b h = tt
key_at-drop (r ∷ s ∷ rest) zero b h = h 1 (omega arith) (omega arith)
key_at-drop (r ∷ rest) (suc i) b h =
    key_at-drop rest i b (λ j p q. h (suc j) (omega arith) (omega arith))

-- The current record and the records ahead, as a lookup of the range finds them.
record Starts (records : List OmapRecord) (start end : ℕ) (current : OmapRecord)
    (next : List OmapRecord) : Type 0 where
  low : current.source_address ≤ start
  ahead : Ahead start next
  ascends : Ascends current next end
  same : (a : ℕ) → start ≤ a → governed_from current next a ≡ governed records a

key_at-sources :
    (records : List OmapRecord) (i : ℕ) (q : OmapRecord)
    → get_elem? records i ≡ some q
    → key_at (sources records) i ≡ q.source_address
key_at-sources [] i q e = cc
key_at-sources (r ∷ rest) zero q e =
    ap (λ (x : OmapRecord). x.source_address) (some-injective _ _ e)
key_at-sources (r ∷ rest) (suc i) q e = key_at-sources rest i q e

module _ (records : List OmapRecord) (start end : ℕ) (t : IsTable records end)
    (some_range : start < end) (word : end < u32_mod) where
  Starts-at :
      (i : ℕ) (q : OmapRecord)
      → get_elem? records i ≡ some q
      → ((j : ℕ) → j < suc i → key_at (sources records) j ≤ start)
      → ((j : ℕ) → suc i ≤ j → j < length (sources records) → start ≤ key_at (sources records) j)
      → Starts records start end q (drop (suc i) records)
  Starts-at i q e low high = record {
    low = omega (arith, key_at-sources records i q e, low i (omega arith));
    ahead = key_at-drop records i start high;
    ascends = Fits-drop records end i q t.fits e;
    same = λ a p. governed_from-drop records i q a (λ j lt. omega (arith, low j lt)) e;
  }

  before_ahead :
      (records : List OmapRecord)
      → ((j : ℕ) → 0 ≤ j → j < length (sources records) → start < key_at (sources records) j)
      → Ahead start records
  before_ahead [] high = tt
  before_ahead (r ∷ rest) high = omega (arith, high 0 (omega arith) (omega arith))

  before-Ascends :
      (records : List OmapRecord)
      → Fits records end
      → All (λ r. r.source_address < u32_mod) records
      → ((j : ℕ) → 0 ≤ j → j < length (sources records) → start < key_at (sources records) j)
      → Ascends (omap_record 0 0) records end
  before-Ascends [] f ws high = omega arith
  before-Ascends (r ∷ rest) f (w, ws) high =
      (omega (arith, high 0 (omega arith) (omega arith)), omega arith, f)

  before_same : (a : ℕ) → governed_from (omap_record 0 0) records a ≡ governed records a
  unfolding governed mapped_by
  before_same a = settled (governing records a)
    where
      settled :
          (o : Option OmapRecord)
          → governed_by (omap_record 0 0) a o ≡ elim o [ none ↦ none | some q ↦ mapped_by q a ]
      settled none = refl
      settled (some q) = refl

  Starts-before :
      ((j : ℕ) → 0 ≤ j → j < length (sources records) → start < key_at (sources records) j)
      → Starts records start end (omap_record 0 0) records
  Starts-before high = record {
    low = omega arith;
    ahead = before_ahead records high;
    ascends = before-Ascends records t.fits t.words high;
    same = λ a p. before_same a;
  }

  -- The state from which the iterator starts.
  starting_at-Starts :
      (f : Found)
      → Answers (sources records) start (IsAscending-IsSorted records t.ascending) f
      → (current : OmapRecord) × (next : List OmapRecord) × (starting_at f records
          ≡ some (current, next))
        × Starts records start end current next
  unfolding starting_at
  starting_at-Starts (found i) (within, same) =
      pick (get_elem?-some records i (omega (arith, length-sources records)))
    where
      pick :
          (q : OmapRecord) × (get_elem? records i ≡ some q)
          → (current : OmapRecord) × (next : List OmapRecord) × (starting_at (found i) records
              ≡ some (current, next))
            × Starts records start end current next
      pick (q, e) = (
        q,
        drop (suc i) records,
        rw (e, starting_at),
        Starts-at i q e
            (λ j p.
              omega
                (arith, same, IsAscending-IsSorted records t.ascending j i (omega arith) within))
            (λ j p lt. omega (arith, same, t.ascending i j p lt)),
      )
  starting_at-Starts (insert_at zero) (within, low, high) =
      (omap_record 0 0, records, refl, Starts-before high)
  starting_at-Starts (insert_at (suc i)) (within, low, high) =
      pick (get_elem?-some records i (omega (arith, length-sources records)))
    where
      pick :
          (q : OmapRecord) × (get_elem? records i ≡ some q)
          → (current : OmapRecord) × (next : List OmapRecord) × (starting_at
                (insert_at (suc i))
                records
              ≡ some (current, next))
            × Starts records start end current next
      pick (q, e) = (
        q,
        drop (suc i) records,
        rw (e, starting_at),
        Starts-at i q e (λ j p. omega (arith, low j p)) (λ j p lt. omega (arith, high j p lt)),
      )

-- Looking a range up. On a table with ascending records whose translations stay within 32 bits, the
-- lookup of any range that ends within 32 bits gives an iterator, which runs to its end; the addresses
-- of the ranges that it yields are the translations of the addresses of the range that have one, in
-- order and none twice.
pub lookup_range-lookup :
    (records : List OmapRecord) (start end : ℕ)
    → IsTable records end
    → end < u32_mod
    → (it : RangeIter) × (lookup_range records (record { start = start; end = end }) ≡ some it)
      × (addresses (collect it) ≡ collect_some (lookup records) (range start (end - start)))
unfolding lookup_range
lookup_range-lookup records start end t word = elim (Bool-cases (leb end start)) [
  | inl empty ↦ (empty_iter, rw empty, no_addresses (leb→le _ _ empty))
  | inr full ↦ go full (
      starting_at-Starts records start end t (leb→lt _ _ full) word _
        (binary_search-Answers (sources records) start (IsAscending-IsSorted records t.ascending)))
]
  where
    no_addresses :
        end ≤ start
        → addresses (collect empty_iter) ≡ collect_some (lookup records) (range start (end - start))
    no_addresses h =
        let e : end - start ≡ 0 = omega arith in
        rw e (unfold collect addresses collect_some in refl)

    go :
        leb end start ≡ false
        → (current : OmapRecord) × (next : List OmapRecord) × (starting_at
              (binary_search (sources records) start)
              records
            ≡ some (current, next))
          × Starts records start end current next
        → (it : RangeIter) × (lookup_range records (record { start = start; end = end }) ≡ some it)
          × (addresses (collect it) ≡ collect_some (lookup records) (range start (end - start)))
    go full (current, next, e, s) = (
      record { records = next; current = current; addr = start; end = end },
      rw (full, e, lookup_range),
      ap addresses (collect-walk _)
          ∙ walk-governed next current start end (λ p. s.low) s.ahead s.ascends word
          ∙ collect_some-congr _ _ start (end - start)
              (λ a p q. s.same a p ∙ sym (lookup-governing records t.ascending a)),
    )
