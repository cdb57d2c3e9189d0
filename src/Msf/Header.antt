-- ===== src/Msf/Header.antt =====
-- src/msf/mod.rs: the header of a multi-stream file, and its page arithmetic.
pub mod PageSize
use pdb.Prelude.{
  ℕ, zero, suc, ◌+◌, ◌*◌, ◌/◌, ◌%◌, ◌≤◌, ◌<◌, Bool, ◌||◌, not, ltb, ◌==◌, if◌then◌else◌, arith,
}
use native.Mathlib.Nat.{div-add-mod, mod-lt}
use pdb.Errors.{Result, ok, err, page_reference_out_of_range}

-- Page sizes are positive, since a header is made only after they are checked.
pub record Header : Type 0 where
  pub page_size : ℕ
  pub maximum_valid_page_number : ℕ

-- `div_ceil`.
unfoldable pub pages_needed_to_store : Header → ℕ → ℕ
pages_needed_to_store h bytes = bytes / h.page_size + (if 0 == bytes % h.page_size then 0 else 1)

unfoldable pub validate_page_number : Header → ℕ → Result ℕ
validate_page_number h page_number =
    if page_number == 0 || ltb h.maximum_valid_page_number page_number
    then err (page_reference_out_of_range page_number)
    else ok page_number

-- `u32::count_ones`, by the binary digits.
unfoldable pub count_ones : ℕ → ℕ → ℕ
count_ones zero n = 0
count_ones (suc bits) n = n % 2 + count_ones bits (n / 2)

-- The test on `page_size` that both kinds of file make.
unfoldable pub is_invalid_page_size : ℕ → Bool
unfolding count_ones
is_invalid_page_size n = not (count_ones 32 n == 1) || ltb n 0x100 || ltb (128 * 0x10000) n

-- For a page size that is not 0, the number of pages is enough for the bytes, and one page fewer
-- would not be.
pub pages_needed_lem :
    (h : Header) (bytes : ℕ)
    → 0 < h.page_size
    → (bytes ≤ h.page_size * pages_needed_to_store h bytes)
      × (h.page_size * pages_needed_to_store h bytes < bytes + h.page_size)
unfolding pages_needed_to_store
pages_needed_lem h bytes pos = ground (arith, div-add-mod bytes h.page_size, mod-lt bytes pos)
