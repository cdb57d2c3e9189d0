-- ===== src/Types/Primitive/Codes.antt =====
-- src/tpi/primitive.rs: which index stands for which primitive type.
use pdb.Prelude.{
  ℕ, ◌+◌, ◌*◌, ◌/◌, ◌%◌, ◌^◌, ◌<◌, ◌≡◌, ◌↔◌, refl, sym, ap, ◌∙◌, All, Option, none, some, lt→ltb,
  bit_and, arith,
}
use pdb.Prelude.Bits.{bit_and-ones, bit_and-ones_low, bit_and-shifted}
use pdb.Errors.{Result, ok, err, panic, type_not_found}
use pdb.Errors
use pdb.Prelude.Arms.{arm, arm-All}
use pdb.Types.Primitive.{
  PrimitiveKind, Indirection, PrimitiveType, indirections, kinds, or_not_found,
  type_data_for_primitive, near16, far16, huge16, near32, far32, near64, near128, no_type, void,
  char, uchar, rchar, wchar, rchar16, rchar32, char8, i8, u8, short, ushort, i16, u16, long, ulong,
  i32, u32, quad, uquad, i64, u64, octa, uocta, i128, u128, f16, f32, f32pp, f48, f64, f80, f128,
  complex32, complex64, complex80, complex128, bool8, bool16, bool32, bool64, hresult,
}

-- The numbers of the kinds and of the indirections, as the reference lists them.
abbrev pub kind_code : PrimitiveKind → ℕ
kind_code no_type = 0x00
kind_code void = 0x03
kind_code char = 0x10
kind_code uchar = 0x20
kind_code rchar = 0x70
kind_code wchar = 0x71
kind_code rchar16 = 0x7a
kind_code rchar32 = 0x7b
kind_code char8 = 0x7c
kind_code i8 = 0x68
kind_code u8 = 0x69
kind_code short = 0x11
kind_code ushort = 0x21
kind_code i16 = 0x72
kind_code u16 = 0x73
kind_code long = 0x12
kind_code ulong = 0x22
kind_code i32 = 0x74
kind_code u32 = 0x75
kind_code quad = 0x13
kind_code uquad = 0x23
kind_code i64 = 0x76
kind_code u64 = 0x77
kind_code octa = 0x14
kind_code uocta = 0x24
kind_code i128 = 0x78
kind_code u128 = 0x79
kind_code f16 = 0x46
kind_code f32 = 0x40
kind_code f32pp = 0x45
kind_code f48 = 0x44
kind_code f64 = 0x41
kind_code f80 = 0x42
kind_code f128 = 0x43
kind_code complex32 = 0x50
kind_code complex64 = 0x51
kind_code complex80 = 0x52
kind_code complex128 = 0x53
kind_code bool8 = 0x30
kind_code bool16 = 0x31
kind_code bool32 = 0x32
kind_code bool64 = 0x33
kind_code hresult = 0x08

abbrev pub indirection_code : Option Indirection → ℕ
indirection_code none = 0
indirection_code (some near16) = 0x100
indirection_code (some far16) = 0x200
indirection_code (some huge16) = 0x300
indirection_code (some near32) = 0x400
indirection_code (some far32) = 0x500
indirection_code (some near64) = 0x600
indirection_code (some near128) = 0x700

abbrev pub index_of : PrimitiveType → ℕ
index_of t = indirection_code t.indirection + kind_code t.kind

-- Each kind has its arm, and each arm the number of its kind.
kind_arm : (k : PrimitiveKind) → arm kinds (kind_code k) ≡ some k
kind_arm no_type = refl
kind_arm void = refl
kind_arm char = refl
kind_arm uchar = refl
kind_arm rchar = refl
kind_arm wchar = refl
kind_arm rchar16 = refl
kind_arm rchar32 = refl
kind_arm char8 = refl
kind_arm i8 = refl
kind_arm u8 = refl
kind_arm short = refl
kind_arm ushort = refl
kind_arm i16 = refl
kind_arm u16 = refl
kind_arm long = refl
kind_arm ulong = refl
kind_arm i32 = refl
kind_arm u32 = refl
kind_arm quad = refl
kind_arm uquad = refl
kind_arm i64 = refl
kind_arm u64 = refl
kind_arm octa = refl
kind_arm uocta = refl
kind_arm i128 = refl
kind_arm u128 = refl
kind_arm f16 = refl
kind_arm f32 = refl
kind_arm f32pp = refl
kind_arm f48 = refl
kind_arm f64 = refl
kind_arm f80 = refl
kind_arm f128 = refl
kind_arm complex32 = refl
kind_arm complex64 = refl
kind_arm complex80 = refl
kind_arm complex128 = refl
kind_arm bool8 = refl
kind_arm bool16 = refl
kind_arm bool32 = refl
kind_arm bool64 = refl
kind_arm hresult = refl

indirection_arm : (i : Option Indirection) → arm indirections (indirection_code i) ≡ some i
indirection_arm none = refl
indirection_arm (some near16) = refl
indirection_arm (some far16) = refl
indirection_arm (some huge16) = refl
indirection_arm (some near32) = refl
indirection_arm (some far32) = refl
indirection_arm (some near64) = refl
indirection_arm (some near128) = refl

abbrev KindArm : ℕ → PrimitiveKind → Type 0
KindArm number kind = (kind_code kind ≡ number) × (number < 256)

abbrev IndirectionArm : ℕ → Option Indirection → Type 0
IndirectionArm number indirection = (indirection_code indirection ≡ number) × (number % 256 ≡ 0)

kinds-kind_code : All (λ (number, kind). KindArm number kind) kinds
kinds-kind_code = (
  (refl, omega arith),
  (
    (refl, omega arith),
    (
      (refl, omega arith),
      (
        (refl, omega arith),
        (
          (refl, omega arith),
          (
            (refl, omega arith),
            (
              (refl, omega arith),
              (
                (refl, omega arith),
                (
                  (refl, omega arith),
                  (
                    (refl, omega arith),
                    (
                      (refl, omega arith),
                      (
                        (refl, omega arith),
                        (
                          (refl, omega arith),
                          (
                            (refl, omega arith),
                            (
                              (refl, omega arith),
                              (
                                (refl, omega arith),
                                (
                                  (refl, omega arith),
                                  (
                                    (refl, omega arith),
                                    (
                                      (refl, omega arith),
                                      (
                                        (refl, omega arith),
                                        (
                                          (refl, omega arith),
                                          (
                                            (refl, omega arith),
                                            (
                                              (refl, omega arith),
                                              (
                                                (refl, omega arith),
                                                (
                                                  (refl, omega arith),
                                                  (
                                                    (refl, omega arith),
                                                    (
                                                      (refl, omega arith),
                                                      (
                                                        (refl, omega arith),
                                                        (
                                                          (refl, omega arith),
                                                          (
                                                            (refl, omega arith),
                                                            (
                                                            (refl, omega arith),
                                                            (
                                                            (refl, omega arith),
                                                            (
                                                            (refl, omega arith),
                                                            (
                                                            (refl, omega arith),
                                                            (
                                                            (refl, omega arith),
                                                            (
                                                            (refl, omega arith),
                                                            (
                                                            (refl, omega arith),
                                                            (
                                                            (refl, omega arith),
                                                            (
                                                            (refl, omega arith),
                                                            (
                                                            (refl, omega arith),
                                                            (
                                                            (refl, omega arith),
                                                            (
                                                            (refl, omega arith),
                                                            ((refl, omega arith), tt),
                                                            ),
                                                            ),
                                                            ),
                                                            ),
                                                            ),
                                                            ),
                                                            ),
                                                            ),
                                                            ),
                                                            ),
                                                            ),
                                                            ),
                                                          ),
                                                        ),
                                                      ),
                                                    ),
                                                  ),
                                                ),
                                              ),
                                            ),
                                          ),
                                        ),
                                      ),
                                    ),
                                  ),
                                ),
                              ),
                            ),
                          ),
                        ),
                      ),
                    ),
                  ),
                ),
              ),
            ),
          ),
        ),
      ),
    ),
  ),
)

indirections-indirection_code :
    All (λ (number, indirection). IndirectionArm number indirection) indirections
indirections-indirection_code = (
  (refl, omega arith),
  (
    (refl, omega arith),
    (
      (refl, omega arith),
      (
        (refl, omega arith),
        (
          (refl, omega arith),
          ((refl, omega arith), ((refl, omega arith), ((refl, omega arith), tt))),
        ),
      ),
    ),
  ),
)

decoded :
    (index : ℕ) (i : Option (Option Indirection)) (k : Option PrimitiveKind) (t : PrimitiveType)
    → Errors.◌>>=◌ (or_not_found index i) (λ indirection.
      Errors.◌>>=◌
        (or_not_found index k)
        (λ kind. ok (record { kind = kind; indirection = indirection })))
      ≡ ok t
    → (i ≡ some t.indirection) × (k ≡ some t.kind)
decoded index none k t h = cc
decoded index (some indirection) none t h = cc
decoded index (some indirection) (some kind) t h =
    let e = same_type (record { kind = kind; indirection = indirection }) t h in
    (ap (λ t. some t.indirection) e, ap (λ t. some t.kind) e)
  where
    same_type : (t t' : PrimitiveType) → ok t ≡ ok t' → t ≡ t'
    same_type t t' e = cc

module _ (index : ℕ) (small : index < 0x1000) where
  split : index ≡ index / 256 * 2 ^ 8 + index % 256
  split = omega arith

  high_bits : bit_and index 0xf00 ≡ index / 256 * 256
  high_bits =
      ap (λ (n : ℕ). bit_and n 0xf00) split
      ∙ bit_and-shifted 8 (index / 256) (index % 256) 0xf (omega arith)
      ∙ ap (λ (n : ℕ). n * 2 ^ 8) (bit_and-ones 4 (index / 256) (omega arith))

  low_bits : bit_and index 0xff ≡ index % 256
  low_bits =
      ap (λ (n : ℕ). bit_and n 0xff) split
      ∙ bit_and-ones_low 8 (index / 256) (index % 256) (omega arith)

  outcome :
      type_data_for_primitive index
      ≡ Errors.◌>>=◌ (or_not_found index (arm indirections (index / 256 * 256))) (λ indirection.
        Errors.◌>>=◌
          (or_not_found index (arm kinds (index % 256)))
          (λ kind. ok (record { kind = kind; indirection = indirection })))
  unfolding type_data_for_primitive
  outcome = rw (lt→ltb _ _ small, high_bits, low_bits) refl

  both_arms :
      (t : PrimitiveType)
      → type_data_for_primitive index ≡ ok t
      → (arm indirections (index / 256 * 256) ≡ some t.indirection)
        × (arm kinds (index % 256) ≡ some t.kind)
  both_arms t h = decoded index _ _ t (sym outcome ∙ h)

  -- An index below 0x1000 is decoded to a primitive type exactly where it is the sum of the numbers of
  -- its kind and of its indirection: every type is decoded from its number, and no other index is
  -- decoded to it.
  pub type_data_for_primitive-index_of :
      (t : PrimitiveType) → (type_data_for_primitive index ≡ ok t) ↔ (index ≡ index_of t)
  type_data_for_primitive-index_of t = (there, back)
    where
      there : type_data_for_primitive index ≡ ok t → index ≡ index_of t
      there h =
          let (i, k) = both_arms t h in
          let high =
            arm-All IndirectionArm indirections (index / 256 * 256) t.indirection
              indirections-indirection_code i in
          let low = arm-All KindArm kinds (index % 256) t.kind kinds-kind_code k in
          omega (arith, high.0, low.0)

      back : index ≡ index_of t → type_data_for_primitive index ≡ ok t
      back h =
          let high =
            arm-All IndirectionArm indirections (indirection_code t.indirection) t.indirection
              indirections-indirection_code (indirection_arm t.indirection) in
          let low =
            arm-All KindArm kinds (kind_code t.kind) t.kind kinds-kind_code (kind_arm t.kind) in
          let high_there : index / 256 * 256 ≡ indirection_code t.indirection =
            omega (arith, h, high.1, low.1) in
          let low_there : index % 256 ≡ kind_code t.kind = omega (arith, h, high.1, low.1) in
          outcome ∙ rw (high_there, low_there, indirection_arm t.indirection, kind_arm t.kind) refl
