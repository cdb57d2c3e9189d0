-- ===== src/Numeric.antt =====
-- src/common.rs and src/tpi/data.rs: numbers that are stored behind a prefix for their size.
pub mod RoundTrip
use pdb.Prelude.{ℕ, List, [], ◌∷◌, Option, none, some, ltb, if◌then◌else◌}
use pdb.Prelude.Int.{ℤ, signed}
use pdb.Prelude.Arms.{arm}
use pdb.Errors.{unexpected_numeric_prefix}
use pdb.Scroll.{Scroll, Width, u8, u16, u32, u64, size_of}
use pdb.Buffer.State.{Parser, ◌>>=◌, return, fail, parse_uint, at_once}

pub data Variant : Type 0 where
  of_u8 of_u16 of_u32 of_u64 : ℕ → Variant
  of_i8 of_i16 of_i32 of_i64 : ℤ → Variant

-- `LF_NUMERIC`.
abbrev pub lf_numeric : ℕ
lf_numeric = 0x8000

-- The arm that is taken, or the error of the last arm, which a debug build never reaches.
abbrev pub prefixed : {A : Type 0} → ℕ → Option (Parser A) → Parser A
prefixed leaf none = fail (unexpected_numeric_prefix leaf)
prefixed leaf (some read) = read

module _ (sc : Scroll) where
  abbrev pub unsigned_at : Width → (ℕ → Variant) → Parser Variant
  unsigned_at w make = do v ← parse_uint sc w; return (make v)

  abbrev pub signed_at : Width → (ℤ → Variant) → Parser Variant
  signed_at w make = do v ← parse_uint sc w; return (make (signed (size_of w) v))

  -- The arms of `Variant`, from `LF_CHAR` to `LF_UQUADWORD`.
  abbrev pub variant_arms : List (ℕ × Parser Variant)
  variant_arms =
      (0x8000, signed_at u8 of_i8)
      ∷ (0x8001, signed_at u16 of_i16)
      ∷ (0x8003, signed_at u32 of_i32)
      ∷ (0x8009, signed_at u64 of_i64)
      ∷ (0x8002, unsigned_at u16 of_u16)
      ∷ (0x8004, unsigned_at u32 of_u32)
      ∷ (0x800a, unsigned_at u64 of_u64)
      ∷ []

  -- `try_from_ctx` of `Variant`, in a release build.
  unfoldable pub read_variant : Parser Variant
  read_variant = do
    value ← parse_uint sc u16
    (if ltb value lf_numeric
        then return (of_u16 value)
        else prefixed value (arm variant_arms value))

  -- `parse` at `Variant`.
  unfoldable pub parse_variant : Parser Variant
  parse_variant = at_once read_variant

  abbrev pub unsigned_arms : List (ℕ × Parser ℕ)
  unsigned_arms =
      (0x8000, parse_uint sc u8)
      ∷ (0x8002, parse_uint sc u16)
      ∷ (0x8004, parse_uint sc u32)
      ∷ (0x800a, parse_uint sc u64)
      ∷ []

  unfoldable pub parse_unsigned : Parser ℕ
  parse_unsigned = do
    leaf ← parse_uint sc u16
    (if ltb leaf lf_numeric then return leaf else prefixed leaf (arm unsigned_arms leaf))
