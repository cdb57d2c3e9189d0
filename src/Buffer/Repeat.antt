-- ===== src/Buffer/Repeat.antt =====
-- Loops in the middle of a parser, which end at a test or at an error.
use pdb.Prelude.{ℕ, zero, suc, List, [], ◌∷◌, length}
use pdb.Errors.{panic}
use pdb.Buffer.State.{Parser, ◌>>=◌, return}

-- What a round comes to: a state for the next round, or the result of the loop.
pub data Turn (S A : Type 0) : Type 0 where
  again : S → Turn S A
  done : A → Turn S A

abbrev pub after_turn : {S A : Type 0} → (S → Parser A) → Turn S A → Parser A
after_turn more (again s) = more s
after_turn more (done a) = return a

unfoldable pub repeat_within : {S A : Type 0} → (S → Parser (Turn S A)) → ℕ → S → Parser A
repeat_within step zero s b = (panic, b)
repeat_within step (suc fuel) s b = (step s >>= after_turn (repeat_within step fuel)) b

-- A round that goes on reads something, so that a round for each byte is fuel enough.
unfoldable pub repeat : {S A : Type 0} → (S → Parser (Turn S A)) → S → Parser A
unfolding repeat_within
repeat step s b = repeat_within step (suc (length b.bytes)) s b

-- As many of one kind as are counted.
unfoldable pub repeat_times : {A : Type 0} → ℕ → Parser A → Parser (List A)
repeat_times zero item = return []
repeat_times (suc count) item = do
  first ← item
  rest ← repeat_times count item
  return (first ∷ rest)
