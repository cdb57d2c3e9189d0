-- ===== src/Omap/Table.antt =====
-- src/omap.rs: `OMAPRecord`, `OMAPTable` and `RangeIter`.
use pdb.Prelude.{
  ℕ, zero, suc, ◌+◌, ◌%◌, min, List, [], ◌∷◌, Bool, ◌||◌, ◌&&◌, length, drop, get_elem?, Option,
  none, some, ltb, leb, ◌==◌, if◌then◌else◌, add32, sub32, le_value,
}
use pdb.Errors.{Result, ok, err, invalid_stream_length}
use pdb.Omap.Search.{Found, found, insert_at, binary_search}

pub record OmapRecord : Type 0 where
  pub source_address : ℕ
  pub target_address : ℕ

-- `OMAPRecord::new`. The fields are kept in little-endian order and read back by the accessors.
abbrev pub omap_record : ℕ → ℕ → OmapRecord
omap_record source target = record { source_address = source; target_address = target }

unfoldable pub translate : OmapRecord → ℕ → ℕ
translate r address = add32 (sub32 address r.source_address) r.target_address

-- The records that the bytes of a stream hold, eight bytes to each.
unfoldable pub decode_records : List ℕ → List OmapRecord
decode_records (a ∷ b ∷ c ∷ d ∷ e ∷ f ∷ g ∷ h ∷ rest) =
    omap_record (le_value (a ∷ b ∷ c ∷ d ∷ [])) (le_value (e ∷ f ∷ g ∷ h ∷ []))
    ∷ decode_records rest
decode_records _ = []

-- `cast_aligned`: the number of bytes is a multiple of the size, and the data is aligned. Where the
-- data lies in memory is for the caller to say.
unfoldable pub cast_aligned : {A : Type 0} → ℕ → (List ℕ → List A) → Bool → List ℕ → Option (List A)
cast_aligned size decode aligned bytes =
    if (length bytes % size == 0) && aligned then some (decode bytes) else none

-- `OMAPTable::parse` with `records`.
unfoldable pub parse : Bool → List ℕ → Result (List OmapRecord)
unfolding cast_aligned decode_records
parse aligned stream = elim (cast_aligned 8 decode_records aligned stream) [
  | some records ↦ ok records
  | none ↦ err (invalid_stream_length "OMAP")
]

abbrev pub sources : List OmapRecord → List ℕ
sources [] = []
sources (r ∷ rest) = r.source_address ∷ sources rest

-- What `lookup` does with the record that governs the address.
unfoldable pub mapped_by : OmapRecord → ℕ → Option ℕ
unfolding translate
mapped_by r address = if r.target_address == 0 then none else some (translate r address)

-- An index out of range would panic; it never is (see the properties of the search).
abbrev pub at_index : List OmapRecord → ℕ → Option OmapRecord
at_index records i = get_elem? records i

unfoldable pub governor : Found → List OmapRecord → Option OmapRecord
governor (found i) records = at_index records i
governor (insert_at zero) records = none
governor (insert_at (suc i)) records = at_index records i

unfoldable pub lookup : List OmapRecord → ℕ → Option ℕ
unfolding governor mapped_by
lookup records address = elim (governor (binary_search (sources records) address) records) [
  | none ↦ none
  | some r ↦ mapped_by r address
]

-- `Range<u32>`.
pub record Range : Type 0 where
  pub start : ℕ
  pub end : ℕ

pub record RangeIter : Type 0 where
  pub records : List OmapRecord
  pub current : OmapRecord
  pub addr : ℕ
  pub end : ℕ

-- `RangeIter::empty` and `RangeIter::identity`.
unfoldable pub empty_iter : RangeIter
empty_iter = record { records = []; current = omap_record 0 0; addr = 0; end = 0 }

unfoldable pub identity_iter : Range → RangeIter
identity_iter r = record {
  records = [];
  current = omap_record r.start r.start;
  addr = r.start;
  end = r.end;
}

-- The record that spans the start of a range, and the records behind it.
unfoldable pub starting_at : Found → List OmapRecord → Option (OmapRecord × List OmapRecord)
starting_at (found i) records = elim (at_index records i) [
  | some r ↦ some (r, drop (suc i) records)
  | none ↦ none
]
starting_at (insert_at zero) records = some (omap_record 0 0, records)
starting_at (insert_at (suc i)) records = elim (at_index records i) [
  | some r ↦ some (r, drop (suc i) records)
  | none ↦ none
]

-- `lookup_range`. `none` would be an index out of range.
unfoldable pub lookup_range : List OmapRecord → Range → Option RangeIter
unfolding starting_at empty_iter
lookup_range records range =
    if leb range.end range.start
    then some empty_iter
    else elim (starting_at (binary_search (sources records) range.start) records) [
      | some (r, next) ↦
          some (record { records = next; current = r; addr = range.start; end = range.end })
      | none ↦ none
    ]

-- One round of the loop of `next`: the iterator moves to the next record, or to the end of the range.
abbrev pub next_record : RangeIter → OmapRecord
next_record it = elim it.records [ r ∷ rest ↦ r | [] ↦ omap_record it.end 0 ]

abbrev pub later_records : RangeIter → List OmapRecord
later_records it = elim it.records [ r ∷ rest ↦ rest | [] ↦ [] ]

abbrev pub subrange_end : RangeIter → ℕ
subrange_end it = min (next_record it).source_address it.end

unfoldable pub moved : RangeIter → RangeIter
moved it = record it {
  records = later_records it;
  current = next_record it;
  addr = subrange_end it;
}

abbrev pub is_skipped : RangeIter → Bool
is_skipped it = leb (subrange_end it) it.addr || (it.current.target_address == 0)

abbrev pub translated : RangeIter → Range
translated it = record {
  start = translate it.current it.addr;
  end = translate it.current (subrange_end it);
}

-- `RangeIter::next`. A round takes a record or reaches the end, so two rounds more than there are
-- records are enough.
unfoldable pub next_within : ℕ → RangeIter → Option Range × RangeIter
unfolding moved
next_within zero it = (none, it)
next_within (suc fuel) it =
    let rest = next_within fuel (moved it) in
    if ltb it.addr it.end
    then (if is_skipped it then rest else (some (translated it), moved it))
    else (none, it)

unfoldable pub next : RangeIter → Option Range × RangeIter
unfolding next_within
next it = next_within (length it.records + 2) it

-- All ranges that the iterator yields.
unfoldable pub collect_within : ℕ → RangeIter → List Range
collect_within zero it = []
collect_within (suc fuel) it = elim (next it).0 [
  | none ↦ []
  | some r ↦ r ∷ collect_within fuel (next it).1
]

unfoldable pub collect : RangeIter → List Range
unfolding collect_within next
collect it = collect_within (length it.records + 2) it
