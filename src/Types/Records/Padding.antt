-- ===== src/Types/Records/Padding.antt =====
-- src/tpi/data.rs: `parse_padding` on padding that is written as the compilers do.
use pdb.Prelude.{
  ℕ, zero, suc, ◌+◌, ◌-◌, ◌%◌, ◌^◌, ◌<◌, ◌≡◌, refl, ap, ◌∙◌, List, [], ◌∷◌, ◌++◌, length, false,
  le_bytes, arith, bit_and, leb, lt→ltb, le→leb,
}
use mathlib.Core.Path.{subst}
use pdb.Prelude.Bits.{bit_and_xf}
use pdb.Errors.{ok}
use pdb.Scroll.{Scroll, Width, size_of, u8}
use pdb.Buffer.State.{ParseBuffer, Parser, return, and_then, peek_uint, take_bytes}
use pdb.Buffer.Parse.{peek-parse_uint}
use pdb.Buffer.Yields.{
  Leaves, Yields, Yields-bind, Yields-parse_uint, Yields-take_bytes, Leaves-length,
}
use pdb.Buffer.Fields.{Yields-field}
use pdb.Buffer.Laid.{is_empty-Leaves-nil, is_empty-Leaves-cons}
use pdb.Buffer.Repeat.{Turn, again, done, after_turn, repeat_within, repeat}
use pdb.Types.Records.Parts.{parse_padding, padding_round, skip_padding}

-- Each byte has, besides its mark, the number of bytes of padding from it on.
abbrev pub padding_bytes : ℕ → List ℕ
padding_bytes zero = []
padding_bytes (suc more) = (0xf1 + more) ∷ padding_bytes more

length-padding_bytes : (n : ℕ) → length (padding_bytes n) ≡ n
length-padding_bytes zero = refl
length-padding_bytes (suc more) = ap suc (length-padding_bytes more)

-- What cannot be taken for padding.
abbrev pub IsStart : List ℕ → Type 0
IsStart [] = Unit
IsStart (first ∷ rest) = first < 0xf0

-- A round that goes on, in front of what the others come to.
pub repeat_within-again :
    {S A : Type 0} (step : S → Parser (Turn S A)) (fuel : ℕ) (s s' : S) (b b' : ParseBuffer) (a : A)
    (rest : List ℕ)
    → step s b ≡ (ok (again s'), b')
    → Yields (repeat_within step fuel s') b' a rest
    → Yields (repeat_within step (suc fuel) s) b a rest
unfolding repeat_within
repeat_within-again step fuel s s' b b' a rest e (last, runs, l) =
    (last, ap (λ r. and_then r (after_turn (repeat_within step fuel))) e ∙ runs, l)

pub repeat_within-done :
    {S A : Type 0} (step : S → Parser (Turn S A)) (fuel : ℕ) (s : S) (b : ParseBuffer) (a : A)
    (rest : List ℕ)
    → step s b ≡ (ok (done a), b)
    → Leaves b rest
    → Yields (repeat_within step (suc fuel) s) b a rest
unfolding repeat_within
repeat_within-done step fuel s b a rest e l =
    (b, ap (λ r. and_then r (after_turn (repeat_within step fuel))) e, l)

module _ (sc : Scroll) where
  pub peek_uint-Leaves :
      (w : Width) (b : ParseBuffer) (v : ℕ) (rest : List ℕ)
      → v < 256 ^ size_of w
      → Leaves b (le_bytes (size_of w) v ++ rest)
      → peek_uint sc w b ≡ (ok v, b)
  peek_uint-Leaves w b v rest small l =
      let (after, runs, l') = Yields-parse_uint sc w b v rest small l in
      peek-parse_uint sc w b ∙ ap (λ r. (r.0, b)) runs

  byte_ahead :
      (b : ParseBuffer) (x : ℕ) (rest : List ℕ)
      → x < 256
      → Leaves b (x ∷ rest)
      → Leaves b (le_bytes 1 x ++ rest)
  byte_ahead b x rest h l =
      let e : x ≡ x % 256 = omega (arith, h) in subst (λ (y : ℕ). Leaves b (y ∷ rest)) e l

  padding_round-done :
      (b : ParseBuffer) (rest : List ℕ)
      → IsStart rest
      → Leaves b rest
      → padding_round sc tt b ≡ (ok (done tt), b)
  padding_round-done b [] h l = rw (is_empty-Leaves-nil b l) refl
  padding_round-done b (first ∷ rest) h l =
      rw
        (
          is_empty-Leaves-cons b (first ∷ rest) (omega arith) l,
          peek_uint-Leaves u8 b first rest (omega (arith, h))
              (byte_ahead b first rest (omega (arith, h)) l),
          not_leb h,
        )
        refl
    where
      not_leb : first < 0xf0 → leb 0xf0 first ≡ false
      not_leb h = ground arith

  skip_padding-Yields :
      (b : ParseBuffer) (more : ℕ) (rest : List ℕ)
      → more < 15
      → Leaves b (padding_bytes (suc more) ++ rest)
      → Yields (skip_padding sc) b (again tt) rest
  skip_padding-Yields b more rest h l =
      Yields-field sc u8 b (0xf1 + more) _ (padding_bytes more ++ rest) (again tt) rest
        (omega (arith, h))
        (byte_ahead b (0xf1 + more) (padding_bytes more ++ rest) (omega (arith, h)) l)
        λ b1 l1. rw (lt→ltb 0xf0 (0xf1 + more) (omega arith)) (
          Yields-bind (take_bytes (bit_and (0xf1 + more) 0x0f - 1)) (λ skipped. return (again tt))
            b1 (padding_bytes more) rest (again tt) rest
            (Yields-take_bytes _ b1 (padding_bytes more) rest
              (omega (arith, length-padding_bytes more, bit_and_xf (0xf1 + more), h)) l1)
            λ b2 l2. (b2, refl, l2))

  -- Padding of less than 16 bytes is skipped, up to what follows it.
  pub parse_padding-padding_bytes :
      (b : ParseBuffer) (n : ℕ) (rest : List ℕ)
      → n < 16
      → IsStart rest
      → Leaves b (padding_bytes n ++ rest)
      → Yields (parse_padding sc) b tt rest
  unfolding parse_padding repeat
  parse_padding-padding_bytes b zero rest h start l =
      repeat_within-done (padding_round sc) (length b.bytes) tt b tt rest
        (padding_round-done b rest start l) l
  parse_padding-padding_bytes b (suc more) rest h start l =
      let (b1, runs, l1) = skip_padding-Yields b more rest (omega (arith, h)) l in
      let (fuel, enough) =
        pred_of (length b.bytes)
          (omega (arith, Leaves-length b (padding_bytes (suc more)) rest l)) in
      rw enough (
        repeat_within-again (padding_round sc) (suc fuel) tt tt b b1 tt rest
          (rw
            (
              is_empty-Leaves-cons b (padding_bytes (suc more) ++ rest) (omega arith) l,
              peek_uint-Leaves u8 b (0xf1 + more) (padding_bytes more ++ rest) (omega (arith, h))
                  (byte_ahead b (0xf1 + more) (padding_bytes more ++ rest) (omega (arith, h)) l),
              le→leb 0xf0 (0xf1 + more) (omega arith),
            )
            runs)
          (repeat_within-done (padding_round sc) fuel tt b1 tt rest
            (padding_round-done b1 rest start l1) l1))
    where
      pred_of : (n : ℕ) → 0 < n → (m : ℕ) × (n ≡ suc m)
      pred_of zero h = absurd (omega (arith, h))
      pred_of (suc m) h = (m, refl)
