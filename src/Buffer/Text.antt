-- ===== src/Buffer/Text.antt =====
-- src/common.rs: NUL-terminated and length-prefixed strings.
use pdb.Prelude.{
  ℕ, ◌+◌, ◌≡◌, ◌≢◌, refl, List, [], ◌∷◌, ◌++◌, length, take, drop, arith, length-append, Option,
  none, some, All, take-append_le, take_all, drop-drop, drop-append, ap, sym, ◌∙◌, le→ltb,
  append_assoc,
}
use pdb.Errors.{Result, ok, err, unexpected_eof}
use pdb.Buffer.State.{ParseBuffer, parse_cstring, null_position}
use pdb.Buffer.Parse.{advance, ahead}
use pdb.Buffer.Position.{IsValid}

abbrev pub IsText : List ℕ → Type 0
IsText s = All (λ ch. ch ≢ 0) s

pub null_position-append :
    (s rest : List ℕ) → IsText s → null_position (s ++ (0 ∷ rest)) ≡ some (length s)
unfolding null_position
null_position-append [] rest h = refl
null_position-append (ch ∷ s) rest (h, hs) = ground (arith, null_position-append s rest hs)

null_position-none : (s : List ℕ) → IsText s → null_position s ≡ none
unfolding null_position
null_position-none [] h = refl
null_position-none (ch ∷ s) (h, hs) = ground (arith, null_position-none s hs)

-- Where a text and its terminator lie ahead, `parse_cstring` returns the text and moves past the
-- terminator, so that what follows lies ahead.
pub parse_cstring-terminated :
    (b : ParseBuffer) (s rest : List ℕ)
    → IsValid b
    → IsText s
    → ahead b ≡ s ++ (0 ∷ rest)
    → (parse_cstring b ≡ (ok s, advance (length s + 1) b))
      × (ahead (advance (length s + 1) b) ≡ rest)
unfolding parse_cstring
parse_cstring-terminated b s rest v hs h = (
  rw (le→ltb _ _ v.within) (ap outcome found ∙ ap (λ l. (ok l, advance (length s + 1) b)) front),
  sym (drop-drop b.pos (length s + 1) b.bytes) ∙ ap (drop (length s + 1)) h ∙ behind,
)
  where
    outcome : Option ℕ → Result (List ℕ) × ParseBuffer
    outcome none = (err unexpected_eof, b)
    outcome (some i) = (ok (take i (ahead b)), advance (i + 1) b)

    found : null_position (ahead b) ≡ some (length s)
    found = ap null_position h ∙ null_position-append s rest hs

    front : take (length s) (ahead b) ≡ s
    front = ap (take (length s)) h ∙ take-append_le _ s _ (omega arith) ∙ take_all _ s (omega arith)

    split : s ++ (0 ∷ rest) ≡ (s ++ (0 ∷ [])) ++ rest
    split = sym (append_assoc s (0 ∷ []) rest)

    count : length s + 1 ≡ length (s ++ (0 ∷ []))
    count = omega (arith, length-append s (0 ∷ []))

    behind : drop (length s + 1) (s ++ (0 ∷ rest)) ≡ rest
    behind = rw (split, count) (drop-append (s ++ (0 ∷ [])) rest)

-- With no terminator ahead of a valid buffer, `parse_cstring` reports the end of the input and leaves
-- the position.
pub parse_cstring-unterminated :
    (b : ParseBuffer) → IsValid b → IsText (ahead b) → parse_cstring b ≡ (err unexpected_eof, b)
unfolding parse_cstring
parse_cstring-unterminated b v h = rw (le→ltb _ _ v.within, null_position-none _ h)
