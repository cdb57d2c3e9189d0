-- ===== src/Tests/Pages.antt =====
-- Page lists: the runs of the tests of the repository, and the theorems.
use pdb.Prelude.{ℕ, ◌+◌, ◌*◌, ◌≤◌, ◌<◌, ◌≡◌, refl, [], ◌∷◌, ◌++◌, arith, take, some, false}
use pdb.Errors.{ok, panic}
use pdb.Msf.PageList.{SourceSlice, PageList, empty, push, extend_last, truncate, total_len, covers}
use pdb.Msf.PageList.Push.{IsOpen, pushed_all, push_all, push_all_lem, pages_range}
use pdb.Prelude.{false, ◌*◌, ◌^◌, ◌≤◌}
use pdb.Msf.Header.{count_ones, is_invalid_page_size}
use pdb.Msf.Header.PageSize.{is_invalid_page_size_lem}
use pdb.Msf.PageList.Cut.{truncate_lem}
use pdb.Msf.Header.{Header, pages_needed_to_store, pages_needed_lem}

abbrev slice : ℕ → ℕ → SourceSlice
slice offset size = record { offset = offset; size = size }

abbrev after_test_push : PageList
after_test_push = record {
  page_size = 4096;
  source_slices = slice 0 8192 ∷ slice 16384 8192 ∷ slice 8192 4096 ∷ slice 8192 4096 ∷ [];
  last_page = some 2;
  truncated = false;
}

-- `test_push`.
push_run : push_all (0 ∷ 1 ∷ 4 ∷ 5 ∷ 2 ∷ 2 ∷ []) (empty 4096) ≡ ok after_test_push
unfolding push_all push extend_last empty
push_run = refl

-- `test_truncate`.
truncate_run : (truncate 10000 after_test_push).source_slices ≡ slice 0 8192 ∷ slice 16384 1808 ∷ []
unfolding truncate
truncate_run = refl

total_len_run : total_len after_test_push ≡ 24576
unfolding total_len
total_len_run = refl

abbrev one_page : PageList
one_page = record {
  page_size = 4;
  source_slices = slice 8 4 ∷ [];
  last_page = some 2;
  truncated = false;
}

one_page-IsOpen : IsOpen one_page
one_page-IsOpen = record { not_truncated = refl; page_bound = omega arith; behind = refl }

push_all_lem_example :
    (push_all (3 ∷ 7 ∷ []) one_page ≡ ok (pushed_all (3 ∷ 7 ∷ []) one_page))
    × (covers (pushed_all (3 ∷ 7 ∷ []) one_page).source_slices
        ≡ covers one_page.source_slices ++ pages_range 4 (3 ∷ 7 ∷ []))
    × IsOpen (pushed_all (3 ∷ 7 ∷ []) one_page)
push_all_lem_example =
    push_all_lem (3 ∷ 7 ∷ []) one_page one_page-IsOpen (omega arith) (omega arith)

truncate_lem_example :
    (covers (truncate 3 one_page).source_slices ≡ take 3 (covers one_page.source_slices))
    × ((page : ℕ) → push page (truncate 3 one_page) ≡ panic)
truncate_lem_example = truncate_lem 3 one_page

pages_needed_lem_example :
    let h : Header = record { page_size = 4096; maximum_valid_page_number = 9 } in
    (5000 ≤ 4096 * pages_needed_to_store h 5000)
    × (4096 * pages_needed_to_store h 5000 < 5000 + 4096)
pages_needed_lem_example =
    pages_needed_lem (record { page_size = 4096; maximum_valid_page_number = 9 }) 5000 (omega arith)

accepts_4096 : is_invalid_page_size 4096 ≡ false
unfolding is_invalid_page_size count_ones
accepts_4096 = refl

is_invalid_page_size_lem_example :
    (k : ℕ) × (4096 ≡ 2 ^ k) × (0x100 ≤ 4096) × (4096 ≤ 128 * 0x10000)
is_invalid_page_size_lem_example = is_invalid_page_size_lem 4096 (omega arith) accepts_4096
