-- ===== src/Buffer/Padded.antt =====
-- Texts and padding that lie ahead of the buffer, and the position behind them.
use pdb.Prelude.{
  ℕ, zero, suc, ◌+◌, ◌%◌, ◌≤◌, ◌<◌, ◌≡◌, refl, sym, ap, ◌∙◌, List, [], ◌∷◌, ◌++◌, append_assoc,
  length, length-append, length-drop, arith, le→leb,
}
use mathlib.Core.Path.{subst}
use pdb.Errors.{ok}
use pdb.Buffer.State.{ParseBuffer, Parser, parse_cstring, align}
use pdb.Buffer.Parse.{advance}
use pdb.Buffer.Position.{padding, align_lem}
use pdb.Buffer.Text.{IsText, parse_cstring-terminated}
use pdb.Buffer.Yields.{Leaves, Yields, Leaves-advance}
use pdb.Buffer.Advance.{Forward, Advances}

pub Yields-parse_cstring :
    (b : ParseBuffer) (s rest : List ℕ)
    → IsText s
    → Leaves b (s ++ (0 ∷ rest))
    → Yields parse_cstring b s rest
Yields-parse_cstring b s rest text l = (
  advance (length s + 1) b,
  (parse_cstring-terminated b s rest l.valid text l.left).0,
  subst (λ (n : ℕ). Leaves (advance n b) rest) count
      (Leaves-advance b (s ++ (0 ∷ [])) rest
        (subst (Leaves b) (sym (append_assoc s (0 ∷ []) rest)) l)),
)
  where
    count : length (s ++ (0 ∷ [])) ≡ length s + 1
    count = omega (arith, length-append s (0 ∷ []))

-- How far a parser has moved that yields what lies behind some bytes.
pub moved_by :
    {A : Type 0} (m : Parser A) (n : ℕ) (b after : ParseBuffer) (a : A) (xs rest : List ℕ)
    → Forward m n
    → m b ≡ (ok a, after)
    → Leaves b (xs ++ rest)
    → Leaves after rest
    → after.pos ≡ b.pos + length xs
moved_by m n b after a xs rest f runs l l' =
    let (same, onward, within) = subst (Advances n b) runs (f.advances b l.valid) in
    omega (
      arith,
      ap length same,
      length-drop b.pos b.bytes,
      length-drop after.pos after.bytes,
      ap length l.left,
      ap length l'.left,
      length-append xs rest,
      l.valid.within,
      within,
    )

abbrev pub zeros : ℕ → List ℕ
zeros zero = []
zeros (suc n) = 0 ∷ zeros n

pub length-zeros : (n : ℕ) → length (zeros n) ≡ n
length-zeros zero = refl
length-zeros (suc n) = ap suc (length-zeros n)

-- The padding behind a multiple of four bytes.
pub padding_shift : (p n : ℕ) → p % 4 ≡ 0 → padding 4 (p + n) ≡ padding 4 n
padding_shift p n h = let same : (p + n) % 4 ≡ n % 4 = omega (arith, h) in rw same refl

pub Yields-align :
    (n : ℕ) (b : ParseBuffer) (rest : List ℕ)
    → 0 < n
    → Leaves b (zeros (padding n b.pos) ++ rest)
    → Yields (align n) b tt rest
Yields-align n b rest positive l = (
  advance (padding n b.pos) b,
  align_lem n b positive l.valid ∙ rw (le→leb _ _ fits) refl,
  subst (λ (k : ℕ). Leaves (advance k b) rest) (length-zeros (padding n b.pos))
      (Leaves-advance b (zeros (padding n b.pos)) rest l),
)
  where
    fits : b.pos + padding n b.pos ≤ length b.bytes
    fits = omega (
      arith,
      length-drop b.pos b.bytes,
      ap length l.left,
      length-append (zeros (padding n b.pos)) rest,
      length-zeros (padding n b.pos),
      l.valid.within,
    )
