-- ===== src/Numeric/RoundTrip.antt =====
-- src/common.rs and src/tpi/data.rs: numbers that are written behind their prefix.
use pdb.Prelude.{
  ℕ, ◌-◌, ◌/◌, ◌^◌, ◌<◌, ◌≡◌, refl, ap, List, ◌++◌, le_bytes, ltb, if◌then◌else◌, arith, lt→ltb,
  ltb→lt, Bool-cases, inl, inr,
}
use mathlib.Core.Path.{subst}
use pdb.Prelude.Int.{ℤ, pos, negsuc, signed}
use pdb.Scroll.{Scroll, Width, u8, u16, u32, u64, size_of}
use pdb.Buffer.State.{ParseBuffer, Parser, back_to, at_once}
use pdb.Errors.{ok}
use pdb.Buffer.Yields.{Leaves, Yields, Yields-parse_uint}
use pdb.Buffer.Fields.{Yields-field}
use pdb.Numeric.{
  Variant, of_u8, of_u16, of_u32, of_u64, of_i8, of_i16, of_i32, of_i64, read_variant,
  parse_variant, parse_unsigned, signed_at,
}

-- The two's complement in `bytes` bytes.
abbrev pub stored : ℕ → ℤ → ℕ
stored bytes (pos n) = n
stored bytes (negsuc n) = 256 ^ bytes - 1 - n

abbrev pub Fits : ℕ → ℤ → Type 0
Fits bytes (pos n) = n < 256 ^ bytes / 2
Fits bytes (negsuc n) = n < 256 ^ bytes / 2

signed-stored :
    (w : Width) (z : ℤ) → Fits (size_of w) z → signed (size_of w) (stored (size_of w) z) ≡ z
signed-stored w (pos n) h = rw (lt→ltb _ _ h) refl
signed-stored u8 (negsuc n) h = ground arith
signed-stored u16 (negsuc n) h = ground arith
signed-stored u32 (negsuc n) h = ground arith
signed-stored u64 (negsuc n) h = ground arith

stored_small : (w : Width) (z : ℤ) → Fits (size_of w) z → stored (size_of w) z < 256 ^ size_of w
stored_small u8 (pos n) h = omega (arith, h)
stored_small u16 (pos n) h = omega (arith, h)
stored_small u32 (pos n) h = omega (arith, h)
stored_small u64 (pos n) h = omega (arith, h)
stored_small u8 (negsuc n) h = omega arith
stored_small u16 (negsuc n) h = omega arith
stored_small u32 (negsuc n) h = omega arith
stored_small u64 (negsuc n) h = omega arith

-- A number in 16 bits where it is less than the prefixes, and behind a prefix otherwise.
abbrev pub variant_bytes : Variant → List ℕ → List ℕ
variant_bytes (of_u8 n) rest = le_bytes 2 n ++ rest
variant_bytes (of_u16 n) rest =
    if ltb n 0x8000 then le_bytes 2 n ++ rest else le_bytes 2 0x8002 ++ (le_bytes 2 n ++ rest)
variant_bytes (of_u32 n) rest = le_bytes 2 0x8004 ++ (le_bytes 4 n ++ rest)
variant_bytes (of_u64 n) rest = le_bytes 2 0x800a ++ (le_bytes 8 n ++ rest)
variant_bytes (of_i8 z) rest = le_bytes 2 0x8000 ++ (le_bytes 1 (stored 1 z) ++ rest)
variant_bytes (of_i16 z) rest = le_bytes 2 0x8001 ++ (le_bytes 2 (stored 2 z) ++ rest)
variant_bytes (of_i32 z) rest = le_bytes 2 0x8003 ++ (le_bytes 4 (stored 4 z) ++ rest)
variant_bytes (of_i64 z) rest = le_bytes 2 0x8009 ++ (le_bytes 8 (stored 8 z) ++ rest)

-- The number fits its size. There is no prefix for an unsigned byte.
abbrev pub IsVariant : Variant → Type 0
IsVariant (of_u8 n) = ⊥
IsVariant (of_u16 n) = n < 2 ^ 16
IsVariant (of_u32 n) = n < 2 ^ 32
IsVariant (of_u64 n) = n < 2 ^ 64
IsVariant (of_i8 z) = Fits 1 z
IsVariant (of_i16 z) = Fits 2 z
IsVariant (of_i32 z) = Fits 4 z
IsVariant (of_i64 z) = Fits 8 z

-- An unsigned number in the shortest of the four forms that are known.
abbrev pub unsigned_bytes : ℕ → List ℕ → List ℕ
unsigned_bytes n rest =
    if ltb n 0x8000
    then le_bytes 2 n ++ rest
    else if ltb n (2 ^ 16)
    then le_bytes 2 0x8002 ++ (le_bytes 2 n ++ rest)
    else if ltb n (2 ^ 32)
    then le_bytes 2 0x8004 ++ (le_bytes 4 n ++ rest)
    else le_bytes 2 0x800a ++ (le_bytes 8 n ++ rest)

Yields-back_to :
    {A : Type 0} (m : Parser A) (b : ParseBuffer) (a : A) (rest : List ℕ)
    → Yields m b a rest
    → Yields (at_once m) b a rest
Yields-back_to m b a rest (after, runs, l) = (after, ap (back_to b) runs, l)

module _ (sc : Scroll) where
  -- A prefix, and the number behind it.
  Yields-signed :
      (w : Width) (make : ℤ → Variant) (b : ParseBuffer) (z : ℤ) (rest : List ℕ)
      → Fits (size_of w) z
      → Leaves b (le_bytes (size_of w) (stored (size_of w) z) ++ rest)
      → Yields (signed_at sc w make) b (make z) rest
  Yields-signed w make b z rest h l =
      Yields-field sc w b (stored (size_of w) z) _ _ (make z) rest (stored_small w z h) l
        λ b1 l1. (b1, ap (λ z. (ok (make z), b1)) (signed-stored w z h), l1)

  Yields-read_variant :
      (b : ParseBuffer) (v : Variant) (rest : List ℕ)
      → IsVariant v
      → Leaves b (variant_bytes v rest)
      → Yields (read_variant sc) b v rest
  unfolding read_variant
  Yields-read_variant b (of_u8 n) rest h l = absurd h
  Yields-read_variant b (of_u16 n) rest h l = elim (Bool-cases (ltb n 0x8000)) [
    | inl small ↦
        Yields-field sc u16 b n _ _ (of_u16 n) rest (omega (arith, h))
          (let e : variant_bytes (of_u16 n) rest ≡ le_bytes 2 n ++ rest = rw small refl in
            subst (Leaves b) e l)
          λ b1 l1. (b1, rw small refl, l1)
    | inr large ↦
        Yields-field sc u16 b 0x8002 _ (le_bytes 2 n ++ rest) (of_u16 n) rest (omega arith)
          (let e : variant_bytes (of_u16 n) rest ≡ le_bytes 2 0x8002 ++ (le_bytes 2 n ++ rest) =
              rw large refl in
            subst (Leaves b) e l)
          λ b1 l1.
            Yields-field sc u16 b1 n _ _ (of_u16 n) rest (omega (arith, h)) l1
              λ b2 l2. (b2, refl, l2)
  ]
  Yields-read_variant b (of_u32 n) rest h l =
      Yields-field sc u16 b 0x8004 _ _ (of_u32 n) rest (omega arith) l λ b1 l1.
        Yields-field sc u32 b1 n _ _ (of_u32 n) rest (omega (arith, h)) l1 λ b2 l2. (b2, refl, l2)
  Yields-read_variant b (of_u64 n) rest h l =
      Yields-field sc u16 b 0x800a _ _ (of_u64 n) rest (omega arith) l λ b1 l1.
        Yields-field sc u64 b1 n _ _ (of_u64 n) rest (omega (arith, h)) l1 λ b2 l2. (b2, refl, l2)
  Yields-read_variant b (of_i8 z) rest h l =
      Yields-field sc u16 b 0x8000 _ _ (of_i8 z) rest (omega arith) l
        λ b1 l1. Yields-signed u8 of_i8 b1 z rest h l1
  Yields-read_variant b (of_i16 z) rest h l =
      Yields-field sc u16 b 0x8001 _ _ (of_i16 z) rest (omega arith) l
        λ b1 l1. Yields-signed u16 of_i16 b1 z rest h l1
  Yields-read_variant b (of_i32 z) rest h l =
      Yields-field sc u16 b 0x8003 _ _ (of_i32 z) rest (omega arith) l
        λ b1 l1. Yields-signed u32 of_i32 b1 z rest h l1
  Yields-read_variant b (of_i64 z) rest h l =
      Yields-field sc u16 b 0x8009 _ _ (of_i64 z) rest (omega arith) l
        λ b1 l1. Yields-signed u64 of_i64 b1 z rest h l1

  -- A number of any of the seven stored kinds that fits its kind, written in front of other bytes with its
  -- prefix, or in 16 bits if it is an unsigned one of 16 bits below the prefixes, is read back by `parse` at
  -- `Variant`, and the other bytes are left.
  pub parse_variant-variant_bytes :
      (b : ParseBuffer) (v : Variant) (rest : List ℕ)
      → IsVariant v
      → Leaves b (variant_bytes v rest)
      → Yields (parse_variant sc) b v rest
  unfolding parse_variant
  parse_variant-variant_bytes b v rest h l =
      Yields-back_to (read_variant sc) b v rest (Yields-read_variant b v rest h l)

  -- A number of less than 64 bits, written in front of other bytes in the shortest of the four unsigned forms, is read
  -- back by `parse_unsigned`, and the other bytes are left.
  pub parse_unsigned-unsigned_bytes :
      (b : ParseBuffer) (n : ℕ) (rest : List ℕ)
      → n < 2 ^ 64
      → Leaves b (unsigned_bytes n rest)
      → Yields (parse_unsigned sc) b n rest
  unfolding parse_unsigned
  parse_unsigned-unsigned_bytes b n rest h l = elim (Bool-cases (ltb n 0x8000)) [
    | inl small ↦
        Yields-field sc u16 b n _ rest n rest (omega (arith, ltb→lt _ _ small))
          (let e : unsigned_bytes n rest ≡ le_bytes 2 n ++ rest = rw small refl in
            subst (Leaves b) e l)
          λ b1 l1. (b1, rw small refl, l1)
    | inr large ↦ elim (Bool-cases (ltb n (2 ^ 16))) [
      | inl small ↦
          Yields-field sc u16 b 0x8002 _ _ n rest (omega arith)
            (let e : unsigned_bytes n rest ≡ le_bytes 2 0x8002 ++ (le_bytes 2 n ++ rest) =
                rw (large, small) refl in
              subst (Leaves b) e l)
            λ b1 l1. Yields-parse_uint sc u16 b1 n rest (omega (arith, ltb→lt _ _ small)) l1
      | inr larger ↦ elim (Bool-cases (ltb n (2 ^ 32))) [
        | inl small ↦
            Yields-field sc u16 b 0x8004 _ _ n rest (omega arith)
              (let e : unsigned_bytes n rest ≡ le_bytes 2 0x8004 ++ (le_bytes 4 n ++ rest) =
                  rw (large, larger, small) refl in
                subst (Leaves b) e l)
              λ b1 l1. Yields-parse_uint sc u32 b1 n rest (omega (arith, ltb→lt _ _ small)) l1
        | inr largest ↦
            Yields-field sc u16 b 0x800a _ _ n rest (omega arith)
              (let e : unsigned_bytes n rest ≡ le_bytes 2 0x800a ++ (le_bytes 8 n ++ rest) =
                  rw (large, larger, largest) refl in
                subst (Leaves b) e l)
              λ b1 l1. Yields-parse_uint sc u64 b1 n rest (omega arith) l1
      ]
    ]
  ]
