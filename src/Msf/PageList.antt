-- ===== src/Msf/PageList.antt =====
-- src/msf/page_list.rs, and `SourceSlice` of src/source.rs.
pub mod Push
pub mod Cut
use pdb.Prelude.{
  ℕ, suc, ◌+◌, ◌*◌, ◌-◌, ◌<◌, Bool, true, false, ◌&&◌, not, Option, none, some, List, [], ◌∷◌, ◌++◌,
  ltb, ◌==◌, if◌then◌else◌, add64, mul64, u32_mod, range,
}
use pdb.Errors.{Result, ok, panic, ◌>>=◌, ◌>>◌, assert}

pub record SourceSlice : Type 0 where
  pub offset : ℕ
  pub size : ℕ

pub record PageList : Type 0 where
  pub page_size : ℕ
  pub source_slices : List SourceSlice
  pub last_page : Option ℕ
  pub truncated : Bool

-- `PageList::new`.
unfoldable pub empty : ℕ → PageList
empty page_size = record {
  page_size = page_size;
  source_slices = [];
  last_page = none;
  truncated = false;
}

-- `n.checked_add(1) == Some(page)`, on 32 bits.
abbrev pub is_continuous : Option ℕ → ℕ → Bool
is_continuous none page = false
is_continuous (some n) page = ltb (n + 1) u32_mod && (n + 1 == page)

-- `last_mut().unwrap()` and `size += page_size`.
unfoldable pub extend_last : ℕ → List SourceSlice → Result (List SourceSlice)
extend_last page_size [] = panic
extend_last page_size (s ∷ []) = ok (record s { size = add64 s.size page_size } ∷ [])
extend_last page_size (s ∷ t ∷ rest) = do tail ← extend_last page_size (t ∷ rest); ok (s ∷ tail)

abbrev pub page_slice : ℕ → ℕ → SourceSlice
page_slice page_size page = record { offset = mul64 page_size page; size = page_size }

unfoldable pub push : ℕ → PageList → Result PageList
push page p = do
  assert (not p.truncated)
  slices ←
      (if is_continuous p.last_page page
        then extend_last p.page_size p.source_slices
        else ok (p.source_slices ++ (page_slice p.page_size page ∷ [])))
  ok (record p { source_slices = slices; last_page = some page })

-- The loop of `truncate`: a slice that is needed is cut to the bytes that remain, and kept.
unfoldable pub truncate_slices : ℕ → List SourceSlice → List SourceSlice
truncate_slices bytes [] = []
truncate_slices bytes (s ∷ rest) =
    let kept = record s { size = if ltb bytes s.size then bytes else s.size } in
    let others = truncate_slices (bytes - kept.size) rest in
    if ltb 0 bytes then kept ∷ others else []

unfoldable pub truncate : ℕ → PageList → PageList
unfolding truncate_slices
truncate bytes p = record p {
  source_slices = truncate_slices bytes p.source_slices;
  truncated = true;
}

unfoldable pub sum_sizes : ℕ → List SourceSlice → ℕ
sum_sizes acc [] = acc
sum_sizes acc (s ∷ rest) = sum_sizes (add64 acc s.size) rest

unfoldable pub total_len : PageList → ℕ
unfolding sum_sizes
total_len p = sum_sizes 0 p.source_slices

-- The positions in the file that the slices name, in order: the view that the source gives of them
-- has a byte for each.
abbrev pub covers : List SourceSlice → List ℕ
covers [] = []
covers (s ∷ rest) = range s.offset s.size ++ covers rest

-- The positions of a page.
abbrev pub page_range : ℕ → ℕ → List ℕ
page_range page_size page = range (page_size * page) page_size
