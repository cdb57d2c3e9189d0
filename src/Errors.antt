-- ===== src/Errors.antt =====
-- src/common.rs: the error type of the crate, its result type, and the conversion of scroll's errors.
use pdb.Prelude.{ℕ, ◌≡◌, refl, Bool, true, false, ◌⊎◌, inl, inr}
use Prim.Native.String.{String}

-- `std::io::Error` by its kind: the library asks for nothing else.
pub data IoErrorKind : Type 0 where
  unexpected_eof other : IoErrorKind

-- `scroll::Error`.
pub data ScrollError : Type 0 where
  bad_offset : ℕ → ScrollError
  too_big : ℕ → ℕ → ScrollError
  bad_input : String → ScrollError
  custom : String → ScrollError

pub data Error : Type 0 where
  unrecognized_file_format : Error
  invalid_page_size : ℕ → Error
  page_reference_out_of_range : ℕ → Error
  stream_not_found : ℕ → Error
  stream_name_not_found : Error
  invalid_stream_length : String → Error
  io_error : IoErrorKind → Error
  unexpected_eof : Error
  unimplemented_feature : String → Error
  global_symbols_not_found : Error
  symbol_too_short : Error
  unimplemented_symbol_kind : ℕ → Error
  invalid_type_information_header : String → Error
  type_too_short : Error
  type_not_found : ℕ → Error
  type_not_indexed : ℕ → ℕ → Error
  unimplemented_type_kind : ℕ → Error
  not_a_cross_module_ref : ℕ → Error
  cross_module_ref_not_found : ℕ → Error
  unexpected_numeric_prefix : ℕ → Error
  address_map_not_found : Error
  scroll_error : ScrollError → Error
  unimplemented_debug_subsection : ℕ → Error
  unimplemented_file_checksum_kind : ℕ → Error
  invalid_file_checksum_offset : ℕ → Error
  lines_not_found : Error
  invalid_compressed_annotation : Error
  unknown_binary_annotation : ℕ → Error
  unknown_register : ℕ → Error

-- `Result<T>`. `panic` is no Rust value: an assertion failed or an index was out of range.
pub data Result {ℓ} (T : Type ℓ) : Type ℓ where
  panic : Result T
  err : Error → Result T
  ok : T → Result T

-- `assert!`.
abbrev pub assert : Bool → Result (Unit {0})
assert condition = elim condition [ false ↦ panic | true ↦ ok tt ]

-- `?`: an error or a panic leaves the function.
infixl 5 ◌>>=◌ ◌>>◌
abbrev pub ◌>>=◌ {κ ℓ} : {S : Type κ} {T : Type ℓ} → Result S → (S → Result T) → Result T
panic >>= next = panic
err reason >>= next = err reason
ok value >>= next = next value

abbrev pub ◌>>◌ {κ} : {T : Type κ} → Result (Unit {0}) → Result T → Result T
first >> second = first >>= λ done. second

-- `From<scroll::Error> for Error`.
abbrev pub from_scroll : ScrollError → Error
from_scroll (bad_offset n) = unexpected_eof
from_scroll (too_big n m) = unexpected_eof
from_scroll e = scroll_error e

-- A sequence that succeeds: so did its first step, and the second on what the first returned.
pub both_steps_ok {κ ℓ} :
    {S : Type κ} {T : Type ℓ} (first : Result S) {next : S → Result T} {value : T}
    → (first >>= next) ≡ ok value
    → (got : S) × (first ≡ ok got) × (next got ≡ ok value)
both_steps_ok panic e = cc
both_steps_ok (err reason) e = cc
both_steps_ok (ok got) e = (got, refl, e)

-- A sequence that panics: one of its steps did.
pub some_step_panics {κ ℓ} :
    {S : Type κ} {T : Type ℓ} (first : Result S) {next : S → Result T}
    → (first >>= next) ≡ panic
    → (first ≡ panic) ⊎ ((got : S) × (first ≡ ok got) × (next got ≡ panic))
some_step_panics panic e = inl refl
some_step_panics (err reason) e = cc
some_step_panics (ok got) e = inr (got, refl, e)
