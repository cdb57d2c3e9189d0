-- ===== src/Tests/Addresses.antt =====
-- Address translation on a small table.
use pdb.Prelude.{zero, suc, ◌≡◌, refl, List, [], ◌∷◌, arith, some, none, range}
use pdb.Omap.Search.{binary_search}
use pdb.Omap.Table.{OmapRecord, omap_record, Range, RangeIter, lookup, lookup_range, collect}
use pdb.Omap.Governing.{governing, IsAscending, lookup-governed}
use pdb.Omap.Image.{addresses, collect_some}
use pdb.Omap.LookupRange.{lookup_range-lookup}

abbrev records : List OmapRecord
records = omap_record 10 100 ∷ omap_record 20 0 ∷ omap_record 30 50 ∷ []

abbrev whole : Range
whole = record { start = 5; end = 33 }

lookup_run : lookup records 33 ≡ some 53
unfolding lookup binary_search
lookup_run = refl

lookup_gone : lookup records 25 ≡ none
unfolding lookup binary_search
lookup_gone = refl

ascending : IsAscending records
ascending zero zero p q = absurd (omega arith)
ascending zero (suc zero) p q = omega arith
ascending zero (suc (suc zero)) p q = omega arith
ascending zero (suc (suc (suc j))) p q = absurd (omega arith)
ascending (suc zero) zero p q = absurd (omega arith)
ascending (suc zero) (suc zero) p q = absurd (omega arith)
ascending (suc zero) (suc (suc zero)) p q = omega arith
ascending (suc zero) (suc (suc (suc j))) p q = absurd (omega arith)
ascending (suc (suc i)) zero p q = absurd (omega arith)
ascending (suc (suc i)) (suc zero) p q = absurd (omega arith)
ascending (suc (suc i)) (suc (suc zero)) p q = absurd (omega arith)
ascending (suc (suc i)) (suc (suc (suc j))) p q = absurd (omega arith)

lookup-governed_example : lookup records 33 ≡ some 53
unfolding governing
lookup-governed_example = lookup-governed records ascending 33

lookup_range-lookup_example :
    (it : RangeIter) × (lookup_range records whole ≡ some it)
    × (addresses (collect it) ≡ collect_some (lookup records) (range 5 28))
lookup_range-lookup_example =
    lookup_range-lookup records 5 33
      (record { ascending = ascending; fits = omega arith; words = omega arith }) (omega arith)
