-- ===== src/Omap/Governing.antt =====
-- src/omap.rs: `lookup` finds the record that governs an address, as a scan of the table defines it.
use pdb.Prelude.{
  ℕ, zero, suc, ◌≤◌, ◌<◌, ◌≡◌, refl, sym, ap, ◌∙◌, ◌+◌, ◌-◌, ◌%◌, ◌^◌, ◌==◌, List, [], ◌∷◌, true,
  false, length, get_elem?, Option, none, some, ltb, le→ltb, lt→ltb, if◌then◌else◌, arith, ◌⊎◌, inl,
  inr, Bool-cases,
}
use pdb.Omap.Search.{
  Found, found, insert_at, binary_search, key_at, IsSorted, Answers, binary_search-Answers,
}
use pdb.Omap.Table.{OmapRecord, sources, mapped_by, translate, governor, lookup}
use mathlib.Core.Path.{subst}
use mathlib.Core.Option.{some-injective}

-- The last record whose source address is not above `a`: record n applies to the addresses from its own
-- source address up to that of record n + 1.
unfoldable pub governing : List OmapRecord → ℕ → Option OmapRecord
governing [] a = none
governing (r ∷ rest) a =
    let later = governing rest a in
    if ltb a r.source_address then none else elim later [ none ↦ some r | some q ↦ some q ]

pub governing-low :
    (r : OmapRecord) (rest : List OmapRecord) (a : ℕ)
    → a < r.source_address
    → governing (r ∷ rest) a ≡ none
unfolding governing
governing-low r rest a h = rw (lt→ltb _ _ h)

pub governing-high :
    (r : OmapRecord) (rest : List OmapRecord) (a : ℕ)
    → r.source_address ≤ a
    → governing (r ∷ rest) a ≡ elim (governing rest a) [ none ↦ some r | some q ↦ some q ]
unfolding governing
governing-high r rest a h = rw (le→ltb _ _ h)

-- The translation of an address that the table defines.
unfoldable pub governed : List OmapRecord → ℕ → Option ℕ
unfolding governing mapped_by
governed records a = elim (governing records a) [ none ↦ none | some r ↦ mapped_by r a ]

-- Strictly ascending source addresses, as the format has them.
abbrev pub IsAscending : List OmapRecord → Type 0
IsAscending records =
    (i j : ℕ)
    → i < j
    → j < length (sources records)
    → key_at (sources records) i < key_at (sources records) j

pub IsAscending-IsSorted :
    (records : List OmapRecord) → IsAscending records → IsSorted (sources records)
IsAscending-IsSorted records asc zero zero p q = omega arith
IsAscending-IsSorted records asc zero (suc j) p q = omega (arith, asc zero (suc j) (omega arith) q)
IsAscending-IsSorted records asc (suc i) zero p q = absurd (omega arith)
IsAscending-IsSorted records asc (suc i) (suc j) p q = go (Bool-cases (ltb i j))
  where
    go :
        (ltb i j ≡ true) ⊎ (ltb i j ≡ false)
        → key_at (sources records) (suc i) ≤ key_at (sources records) (suc j)
    go (inl less) = omega (arith, asc (suc i) (suc j) (ground arith) q)
    go (inr same) = let e : i ≡ j = ground arith in rw e (omega arith)

pub length-sources : (records : List OmapRecord) → length (sources records) ≡ length records
length-sources [] = refl
length-sources (r ∷ rest) = ap suc (length-sources rest)

abbrev before : ℕ → List OmapRecord → Option OmapRecord
before zero records = none
before (suc i) records = get_elem? records i

pub get_elem?-some :
    (records : List OmapRecord) (i : ℕ)
    → i < length records
    → (r : OmapRecord) × (get_elem? records i ≡ some r)
get_elem?-some [] i h = absurd (omega arith)
get_elem?-some (r ∷ rest) zero h = (r, refl)
get_elem?-some (r ∷ rest) (suc i) h = get_elem?-some rest i (omega arith)

governing-before :
    (records : List OmapRecord) (a n : ℕ)
    → n ≤ length (sources records)
    → ((j : ℕ) → j < n → key_at (sources records) j ≤ a)
    → ((j : ℕ) → n ≤ j → j < length (sources records) → a < key_at (sources records) j)
    → governing records a ≡ before n records
unfolding governing
governing-before [] a zero within low high = refl
governing-before [] a (suc n) within low high = absurd (omega arith)
governing-before (r ∷ rest) a zero within low high =
    rw (lt→ltb _ _ (high 0 (omega arith) (omega arith)))
governing-before (r ∷ rest) a (suc zero) within low high = rw (
  le→ltb _ _ (low 0 (omega arith)),
  governing-before rest a 0 (omega arith) (λ j p. absurd (omega arith))
      (λ j p q. high (suc j) (omega arith) (omega arith)),
)
governing-before (r ∷ rest) a (suc (suc n)) within low high =
    let (q, e) = get_elem?-some rest n (omega (arith, length-sources rest)) in
    rw
      (
        le→ltb _ _ (low 0 (omega arith)),
        governing-before rest a (suc n) (omega arith) (λ j p. low (suc j) (omega arith))
            (λ j p q. high (suc j) (omega arith) (omega arith)),
        e,
      )
      refl

governing-below :
    (records : List OmapRecord) (a : ℕ) (r : OmapRecord)
    → governing records a ≡ some r
    → r.source_address ≤ a
unfolding governing
governing-below [] a r e = cc
governing-below (q ∷ rest) a r e = elim (Bool-cases (ltb a q.source_address)) [
  | inl above ↦ cc (rw above at e)
  | inr reached ↦
      later (λ p e'. governing-below rest a p e') (governing rest a) refl (rw reached at e)
]
  where
    later :
        ((p : OmapRecord) → governing rest a ≡ some p → p.source_address ≤ a)
        → (o : Option OmapRecord) → governing rest a ≡ o
        → elim o [ none ↦ some q | some p ↦ some p ] ≡ some r
        → r.source_address ≤ a
    later below none same e' =
        let e'' : q ≡ r = some-injective _ _ e' in
        subst (λ (p : OmapRecord). p.source_address ≤ a) e'' (ground arith)
    later below (some p) same e' = below r (same ∙ e')

-- `a`, moved by the distance from the source to the target of the record.
abbrev moved : OmapRecord → ℕ → Option ℕ
moved r a =
    if r.target_address == 0
    then none
    else some ((a - r.source_address + r.target_address) % 2 ^ 32)

mapped_by-moved : (r : OmapRecord) (a : ℕ) → r.source_address ≤ a → mapped_by r a ≡ moved r a
unfolding mapped_by translate
mapped_by-moved r a low =
    let same : translate r a ≡ (a - r.source_address + r.target_address) % 2 ^ 32 = omega arith in
    ap (λ (t : ℕ). if r.target_address == 0 then none else some t) same

governed-moved :
    (records : List OmapRecord) (a : ℕ)
    → governed records a ≡ elim (governing records a) [ none ↦ none | some r ↦ moved r a ]
unfolding governed
governed-moved records a = go (governing records a) (governing-below records a)
  where
    go :
        (o : Option OmapRecord)
        → ((r : OmapRecord) → o ≡ some r → r.source_address ≤ a)
        → elim o [ none ↦ none | some r ↦ mapped_by r a ]
          ≡ elim o [ none ↦ none | some r ↦ moved r a ]
    go none low = refl
    go (some r) low = mapped_by-moved r a (low r refl)

-- What the index that the search answers with says of the addresses around it.
module _ (records : List OmapRecord) (asc : IsAscending records) where
  governor-governing :
      (a : ℕ) (f : Found)
      → Answers (sources records) a (IsAscending-IsSorted records asc) f
      → governor f records ≡ governing records a
  unfolding governor
  governor-governing a (found i) (within, same) = sym (
      governing-before records a (suc i) within
        (λ j p. omega (arith, same, IsAscending-IsSorted records asc j i (omega arith) within))
        (λ j p q. omega (arith, asc i j p q)))
  governor-governing a (insert_at zero) (within, low, high) =
      sym (governing-before records a 0 (omega arith) (λ j p. absurd (omega arith)) high)
  governor-governing a (insert_at (suc i)) (within, low, high) =
      sym (governing-before records a (suc i) within (λ j p. omega (arith, low j p)) high)

  pub lookup-governing : (a : ℕ) → lookup records a ≡ governed records a
  unfolding lookup governed
  lookup-governing a = rw (
    governor-governing a (binary_search (sources records) a)
        (binary_search-Answers (sources records) a (IsAscending-IsSorted records asc)),
    lookup,
    governed,
  )

  -- On a table with ascending source addresses, for every address, `lookup` is decided by the last
  -- record whose source address is not above it: the address less the source address, plus the target
  -- address, modulo 2 ^ 32, and none where there is no such record or where its target address is 0.
  pub lookup-governed :
      (a : ℕ)
      → lookup records a ≡ (elim (governing records a) [
        | none ↦ none
        | some r ↦
            if r.target_address == 0
            then none
            else some ((a - r.source_address + r.target_address) % 2 ^ 32)
      ])
  unfolding governed
  lookup-governed a = lookup-governing a ∙ governed-moved records a
