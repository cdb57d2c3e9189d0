-- ===== src/Annotations/RoundTrip.antt =====
-- Compressed numbers of src/symbol/annotations.rs: the compressed form, and what reads it back.
use pdb.Prelude.{
  ℕ, ◌+◌, ◌*◌, ◌/◌, ◌%◌, ◌^◌, ◌<◌, ◌≤◌, ◌≡◌, refl, ap, ◌∙◌, List, [], ◌∷◌, ◌++◌, ltb, if◌then◌else◌,
  bit_and, bit_or, arith, Bool-cases, inl, inr, ltb→lt, ltb→le,
}
use mathlib.Core.Path.{subst}
use pdb.Prelude.Bits.{
  bit_or-shifted, bit_and_x1f, bit_and_x3f, bit_and_x80, bit_and_xc0, bit_and_xe0,
}
use pdb.Scroll.{Scroll, u8}
use pdb.Buffer.State.{ParseBuffer, parse_uint}
use pdb.Buffer.Yields.{Leaves, Yields, Yields-bind, Yields-parse_uint}
use pdb.Annotations.Iter.{shl32, uncompress_next}

-- `CVCompressData` for numbers below 2^29: one, two or four bytes, the highest byte first.
abbrev pub compress : ℕ → List ℕ
compress v =
    if ltb v 0x80
    then v ∷ []
    else if ltb v 0x4000
    then (0x80 + v / 256) ∷ (v % 256) ∷ []
    else (0xc0 + v / 2 ^ 24) ∷ (v / 2 ^ 16 % 256) ∷ (v / 2 ^ 8 % 256) ∷ (v % 256) ∷ []

-- The lowest bits of the first byte with the second byte below them.
two_bytes : (v : ℕ) → v < 0x4000 → bit_or (shl32 (bit_and (0x80 + v / 256) 0x3f) 8) (v % 256) ≡ v
two_bytes v h = rw high (omega (arith, bit_or-shifted 8 (v / 256) (v % 256) (omega arith)))
  where
    high : shl32 (bit_and (0x80 + v / 256) 0x3f) 8 ≡ v / 256 * 2 ^ 8
    high = omega (arith, bit_and_x3f (0x80 + v / 256))

four_bytes :
    (v : ℕ)
    → v < 2 ^ 29
    → bit_or
        (bit_or
          (bit_or (shl32 (bit_and (0xc0 + v / 2 ^ 24) 0x1f) 24) (shl32 (v / 2 ^ 16 % 256) 16))
          (shl32 (v / 2 ^ 8 % 256) 8))
        (v % 256)
      ≡ v
four_bytes v h =
    ap
      (λ (a : ℕ).
        bit_or (bit_or (bit_or a (shl32 (v / 2 ^ 16 % 256) 16)) (shl32 (v / 2 ^ 8 % 256) 8))
          (v % 256))
      first
    ∙ ap (λ (a : ℕ). bit_or (bit_or a (shl32 (v / 2 ^ 8 % 256) 8)) (v % 256)) second
    ∙ ap (λ (a : ℕ). bit_or a (v % 256)) third
    ∙ last
  where
    first : shl32 (bit_and (0xc0 + v / 2 ^ 24) 0x1f) 24 ≡ v / 2 ^ 24 * 2 ^ 24
    first = omega (arith, bit_and_x1f (0xc0 + v / 2 ^ 24))

    second : bit_or (v / 2 ^ 24 * 2 ^ 24) (shl32 (v / 2 ^ 16 % 256) 16) ≡ v / 2 ^ 16 * 2 ^ 16
    second =
        omega (arith, bit_or-shifted 24 (v / 2 ^ 24) (shl32 (v / 2 ^ 16 % 256) 16) (omega arith))

    third : bit_or (v / 2 ^ 16 * 2 ^ 16) (shl32 (v / 2 ^ 8 % 256) 8) ≡ v / 2 ^ 8 * 2 ^ 8
    third = omega (arith, bit_or-shifted 16 (v / 2 ^ 16) (shl32 (v / 2 ^ 8 % 256) 8) (omega arith))

    last : bit_or (v / 2 ^ 8 * 2 ^ 8) (v % 256) ≡ v
    last = omega (arith, bit_or-shifted 8 (v / 2 ^ 8) (v % 256) (omega arith))

module _ (sc : Scroll) where
  Yields-byte :
      (b : ParseBuffer) (v : ℕ) (rest : List ℕ)
      → v < 256
      → Leaves b (v ∷ rest)
      → Yields (parse_uint sc u8) b v rest
  Yields-byte b v rest h l =
      let same : v ≡ v % 256 = omega arith in
      Yields-parse_uint sc u8 b v rest h (subst (λ (n : ℕ). Leaves b (n ∷ rest)) same l)

  -- The three forms of the code.
  Yields-one :
      (b : ParseBuffer) (v : ℕ) (rest : List ℕ)
      → v < 0x80
      → Leaves b (v ∷ rest)
      → Yields (uncompress_next sc) b v rest
  unfolding uncompress_next
  Yields-one b v rest h l =
      Yields-bind (parse_uint sc u8) _ b v rest v rest (Yields-byte b v rest (omega arith) l)
        λ b' l'.
          let low : bit_and v 0x80 ≡ 0 = omega (arith, bit_and_x80 v) in rw low (b', refl, l')

  Yields-two :
      (b : ParseBuffer) (v : ℕ) (rest : List ℕ)
      → 0x80 ≤ v
      → v < 0x4000
      → Leaves b ((0x80 + v / 256) ∷ (v % 256) ∷ rest)
      → Yields (uncompress_next sc) b v rest
  unfolding uncompress_next
  Yields-two b v rest low high l =
      Yields-bind (parse_uint sc u8) _ b b1 (b2 ∷ rest) v rest
        (Yields-byte b b1 (b2 ∷ rest) (omega arith) l)
        λ b' l'. rw marked (
          Yields-bind (parse_uint sc u8) _ b' b2 rest v rest
            (Yields-byte b' b2 rest (omega arith) l')
            λ b'' l''. rw (same, two_bytes v high) (b'', refl, l''))
    where
      b1 : ℕ
      b1 = 0x80 + v / 256

      b2 : ℕ
      b2 = v % 256

      marked : bit_and b1 0x80 ≡ 0x80
      marked = omega (arith, bit_and_x80 b1)

      same : bit_and b1 0xc0 ≡ 0x80
      same = omega (arith, bit_and_xc0 b1)

  Yields-four :
      (b : ParseBuffer) (v : ℕ) (rest : List ℕ)
      → 0x4000 ≤ v
      → v < 2 ^ 29
      → Leaves b ((0xc0 + v / 2 ^ 24) ∷ (v / 2 ^ 16 % 256) ∷ (v / 2 ^ 8 % 256) ∷ (v % 256) ∷ rest)
      → Yields (uncompress_next sc) b v rest
  unfolding uncompress_next
  Yields-four b v rest low high l =
      Yields-bind (parse_uint sc u8) _ b b1 (b2 ∷ b3 ∷ b4 ∷ rest) v rest
        (Yields-byte b b1 (b2 ∷ b3 ∷ b4 ∷ rest) (omega arith) l)
        λ c l1. rw marked (
          Yields-bind (parse_uint sc u8) _ c b2 (b3 ∷ b4 ∷ rest) v rest
            (Yields-byte c b2 (b3 ∷ b4 ∷ rest) (omega arith) l1)
            λ c l2. rw longer (
              Yields-bind (parse_uint sc u8) _ c b3 (b4 ∷ rest) v rest
                (Yields-byte c b3 (b4 ∷ rest) (omega arith) l2)
                λ c l3.
                  Yields-bind (parse_uint sc u8) _ c b4 rest v rest
                    (Yields-byte c b4 rest (omega arith) l3)
                    λ c l4. rw (longest, four_bytes v high) (c, refl, l4)))
    where
      b1 : ℕ
      b1 = 0xc0 + v / 2 ^ 24

      b2 : ℕ
      b2 = v / 2 ^ 16 % 256

      b3 : ℕ
      b3 = v / 2 ^ 8 % 256

      b4 : ℕ
      b4 = v % 256

      marked : bit_and b1 0x80 ≡ 0x80
      marked = omega (arith, bit_and_x80 b1)

      longer : bit_and b1 0xc0 ≡ 0xc0
      longer = omega (arith, bit_and_xc0 b1)

      longest : bit_and b1 0xe0 ≡ 0xc0
      longest = omega (arith, bit_and_xe0 b1)

  -- A number below 2^29, compressed, reads back as itself on any valid buffer that has its bytes
  -- ahead, and the bytes after it stay ahead.
  pub uncompress_next-compress :
      (b : ParseBuffer) (v : ℕ) (rest : List ℕ)
      → v < 2 ^ 29
      → Leaves b (compress v ++ rest)
      → Yields (uncompress_next sc) b v rest
  uncompress_next-compress b v rest h l = elim (Bool-cases (ltb v 0x80)) [
    | inl one ↦ Yields-one b v rest (ltb→lt _ _ one) (simp one at l)
    | inr more ↦ elim (Bool-cases (ltb v 0x4000)) [
      | inl two ↦ Yields-two b v rest (ltb→le _ _ more) (ltb→lt _ _ two) (simp (more, two) at l)
      | inr four ↦ Yields-four b v rest (ltb→le _ _ four) h (simp (more, four) at l)
    ]
  ]
