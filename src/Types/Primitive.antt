-- ===== src/Types/Primitive.antt =====
-- src/tpi/primitive.rs: primitive types, which are encoded in their index.
pub mod Codes
use pdb.Prelude.{ℕ, List, [], ◌∷◌, Option, none, some, ltb, ◌==◌, if◌then◌else◌, bit_and}
use pdb.Prelude.Arms.{arm}
use pdb.Errors.{Result, ok, err, panic, type_not_found}
use pdb.Errors

pub data PrimitiveKind : Type 0 where
  no_type void char uchar rchar wchar rchar16 rchar32 char8 i8 u8 short ushort i16 u16 long ulong
        i32 u32 quad uquad i64 u64 octa uocta i128 u128 f16 f32 f32pp f48 f64 f80 f128 complex32
        complex64 complex80 complex128 bool8 bool16 bool32 bool64 hresult :
      PrimitiveKind

pub data Indirection : Type 0 where
  near16 far16 huge16 near32 far32 near64 near128 : Indirection

pub record PrimitiveType : Type 0 where
  pub kind : PrimitiveKind
  pub indirection : Option Indirection

-- The match on the bits of the indirection.
abbrev pub indirections : List (ℕ × Option Indirection)
indirections =
    (0x000, none)
    ∷ (0x100, some near16)
    ∷ (0x200, some far16)
    ∷ (0x300, some huge16)
    ∷ (0x400, some near32)
    ∷ (0x500, some far32)
    ∷ (0x600, some near64)
    ∷ (0x700, some near128)
    ∷ []

-- The match on the lowest octet.
abbrev pub kinds : List (ℕ × PrimitiveKind)
kinds =
    (0x00, no_type)
    ∷ (0x03, void)
    ∷ (0x08, hresult)
    ∷ (0x10, char)
    ∷ (0x20, uchar)
    ∷ (0x68, i8)
    ∷ (0x69, u8)
    ∷ (0x70, rchar)
    ∷ (0x71, wchar)
    ∷ (0x7a, rchar16)
    ∷ (0x7b, rchar32)
    ∷ (0x7c, char8)
    ∷ (0x11, short)
    ∷ (0x21, ushort)
    ∷ (0x72, i16)
    ∷ (0x73, u16)
    ∷ (0x12, long)
    ∷ (0x22, ulong)
    ∷ (0x74, i32)
    ∷ (0x75, u32)
    ∷ (0x13, quad)
    ∷ (0x23, uquad)
    ∷ (0x76, i64)
    ∷ (0x77, u64)
    ∷ (0x14, octa)
    ∷ (0x24, uocta)
    ∷ (0x78, i128)
    ∷ (0x79, u128)
    ∷ (0x46, f16)
    ∷ (0x40, f32)
    ∷ (0x45, f32pp)
    ∷ (0x44, f48)
    ∷ (0x41, f64)
    ∷ (0x42, f80)
    ∷ (0x43, f128)
    ∷ (0x50, complex32)
    ∷ (0x51, complex64)
    ∷ (0x52, complex80)
    ∷ (0x53, complex128)
    ∷ (0x30, bool8)
    ∷ (0x31, bool16)
    ∷ (0x32, bool32)
    ∷ (0x33, bool64)
    ∷ []

-- An arm, or the error of the arm for all other numbers.
abbrev pub or_not_found : {A : Type 0} → ℕ → Option A → Result A
or_not_found index none = err (type_not_found index)
or_not_found index (some a) = ok a

-- `type_data_for_primitive`. An index that is not below 0x1000 fails the assertion.
unfoldable pub type_data_for_primitive : ℕ → Result PrimitiveType
type_data_for_primitive index =
    let indirection = arm indirections (bit_and index 0xf00) in
    let kind = arm kinds (bit_and index 0xff) in
    if ltb index 0x1000
    then Errors.◌>>=◌ (or_not_found index indirection) (λ indirection.
      Errors.◌>>=◌ (or_not_found index kind)
        (λ kind. ok (record { kind = kind; indirection = indirection })))
    else panic
