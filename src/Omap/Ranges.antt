-- ===== src/Omap/Ranges.antt =====
-- src/omap.rs: the ranges that the iterator yields, read as a walk along the records.
use pdb.Prelude.{
  ℕ, zero, suc, ◌+◌, ◌≤◌, ◌<◌, min, ◌≡◌, refl, sym, ap, ◌∙◌, append-nil, List, [], ◌∷◌, ◌++◌, true,
  false, length, Option, none, some, ltb, le→ltb, if◌then◌else◌, arith, inl, inr, Bool-cases,
}
use pdb.Omap.Table.{
  OmapRecord, Range, RangeIter, later_records, subrange_end, moved, is_skipped, translated,
  next_within, next, collect_within, collect,
}

-- The range of one round, if it is not skipped.
abbrev pub emitted : RangeIter → List Range
emitted it = if is_skipped it then [] else translated it ∷ []

-- The ranges of all rounds, by the records that are left.
unfoldable pub walk : List OmapRecord → OmapRecord → ℕ → ℕ → List Range
walk [] current addr end =
    if ltb addr end
    then emitted (record { records = []; current = current; addr = addr; end = end })
    else []
walk (r ∷ rest) current addr end =
    let later = walk rest r (min r.source_address end) end in
    if ltb addr end
    then emitted (record { records = r ∷ rest; current = current; addr = addr; end = end }) ++ later
    else []

abbrev pub walk_of : RangeIter → List Range
walk_of it = walk it.records it.current it.addr it.end

-- The rounds that an iterator has before it.
rounds : RangeIter → ℕ
rounds it = if ltb it.addr it.end then length it.records + 1 else 0

abbrev pub iter : List OmapRecord → OmapRecord → ℕ → ℕ → RangeIter
iter records current addr end = record {
  records = records;
  current = current;
  addr = addr;
  end = end;
}

pub walk-nil :
    (records : List OmapRecord) (current : OmapRecord) (addr end : ℕ)
    → ltb addr end ≡ false
    → walk records current addr end ≡ []
unfolding walk
walk-nil [] current addr end h = rw h
walk-nil (r ∷ rest) current addr end h = rw h

pub walk-last :
    (current : OmapRecord) (addr end : ℕ)
    → ltb addr end ≡ true
    → walk [] current addr end ≡ emitted (iter [] current addr end)
unfolding walk
walk-last current addr end h = rw h

pub walk-next :
    (r : OmapRecord) (rest : List OmapRecord) (current : OmapRecord) (addr end : ℕ)
    → ltb addr end ≡ true
    → walk (r ∷ rest) current addr end
      ≡ emitted (iter (r ∷ rest) current addr end) ++ walk rest r (min r.source_address end) end
unfolding walk
walk-next r rest current addr end h = rw h

walk-cons :
    (records : List OmapRecord) (current : OmapRecord) (addr end : ℕ)
    → ltb addr end ≡ true
    → walk records current addr end
      ≡ emitted (iter records current addr end) ++ walk_of (moved (iter records current addr end))
unfolding moved
walk-cons [] current addr end h = unfold walk in rw (h, self) (sym (append-nil _))
  where
    self : ltb (min end end) end ≡ false
    self = le→ltb _ _ (omega arith)
walk-cons (r ∷ rest) current addr end h = unfold walk in rw h

rounds-moved : (it : RangeIter) → ltb it.addr it.end ≡ true → rounds (moved it) < rounds it
unfolding rounds moved
rounds-moved it h = fewer it.records it.addr it.end h
  where
    fewer :
        (records : List OmapRecord) (addr end : ℕ)
        → ltb addr end ≡ true
        → (if ltb (subrange_end (iter records it.current addr end)) end
            then length (later_records (iter records it.current addr end)) + 1
            else 0)
          < (if ltb addr end then length records + 1 else 0)
    fewer [] addr end h = ground arith
    fewer (r ∷ rest) addr end h = ground arith

-- What `next` answers: it ends where the walk does, and else takes the walk's first range.
abbrev Takes : RangeIter → Option Range × RangeIter → Type 0
Takes it (none, it') = walk_of it ≡ []
Takes it (some r, it') = (walk_of it ≡ r ∷ walk_of it') × (rounds it' < rounds it)

Takes-moved :
    (it : RangeIter) (o : Option Range × RangeIter)
    → ltb it.addr it.end ≡ true
    → is_skipped it ≡ true
    → Takes (moved it) o
    → Takes it o
Takes-moved it (none, it') h skip t = walk-cons it.records it.current it.addr it.end h ∙ rw skip t
Takes-moved it (some r, it') h skip (t, fewer) =
    (walk-cons it.records it.current it.addr it.end h ∙ rw skip t, omega (arith, rounds-moved it h))

next_within-Takes : (fuel : ℕ) (it : RangeIter) → rounds it < fuel → Takes it (next_within fuel it)
unfolding next_within
next_within-Takes zero it few = absurd (omega arith)
next_within-Takes (suc fuel) it few = elim (Bool-cases (ltb it.addr it.end)) [
  | inr done ↦ rw (done, next_within) (walk-nil it.records it.current it.addr it.end done)
  | inl more ↦ elim (Bool-cases (is_skipped it)) [
    | inl skip ↦
        rw (more, skip, next_within)
          (Takes-moved it (next_within fuel (moved it)) more skip
            (next_within-Takes fuel (moved it) (omega (arith, rounds-moved it more))))
    | inr keep ↦
        rw (more, keep, next_within)
          (walk-cons it.records it.current it.addr it.end more ∙ rw keep, rounds-moved it more)
  ]
]

rounds-le : (it : RangeIter) → rounds it ≤ length it.records + 1
unfolding rounds
rounds-le it = ground arith

next-Takes : (it : RangeIter) → Takes it (next it)
unfolding next
next-Takes it = next_within-Takes (length it.records + 2) it (omega (arith, rounds-le it))

collect_within-walk :
    (fuel : ℕ) (it : RangeIter) → rounds it < fuel → collect_within fuel it ≡ walk_of it
unfolding collect_within
collect_within-walk zero it few = absurd (omega arith)
collect_within-walk (suc fuel) it few =
    go (next it) refl (next-Takes it) (collect_within-walk fuel (next it).1)
  where
    go :
        (o : Option Range × RangeIter)
        → next it ≡ o
        → Takes it o
        → (rounds (next it).1 < fuel → collect_within fuel (next it).1 ≡ walk_of (next it).1)
        → collect_within (suc fuel) it ≡ walk_of it
    go (none, it') e t ih =
        let first : (next it).0 ≡ none = ap (λ o. o.0) e in rw (first, collect_within) (sym t)
    go (some r, it') e (t, fewer) ih =
        let first : (next it).0 ≡ some r = ap (λ o. o.0) e in
        let second : (next it).1 ≡ it' = ap (λ o. o.1) e in
        rw (first, collect_within)
          (ap (λ l. r ∷ l) (ih (rw second (omega arith)) ∙ ap (λ i. walk_of i) second) ∙ sym t)

-- The iterator runs to its end, and yields the ranges of the walk.
pub collect-walk : (it : RangeIter) → collect it ≡ walk it.records it.current it.addr it.end
unfolding collect
collect-walk it = collect_within-walk (length it.records + 2) it (omega (arith, rounds-le it))
