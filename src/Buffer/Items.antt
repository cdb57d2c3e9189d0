-- ===== src/Buffer/Items.antt =====
-- The iterators over a buffer that the parts of the library share: `next` parses an item until the
-- buffer is empty, and a client calls it until there is no item or an error.
use pdb.Prelude.{
  ℕ, zero, suc, ◌-◌, ◌≤◌, ◌<◌, ◌≡◌, ap, ◌∙◌, List, [], ◌∷◌, length, arith, Option, none, some,
  Bool-cases, inl, inr, if◌then◌else◌,
}
use pdb.Errors.{Result, ok, err, panic, Error}
use pdb.Buffer.State.{ParseBuffer, Parser, and_then, ◌>>=◌, return, is_empty}
use pdb.Buffer.Position.{IsValid}
use pdb.Buffer.Advance.{Advances, Forward}

-- `if self.buf.is_empty() { return Ok(None); }`, and an item otherwise.
abbrev pub unless_empty : {A : Type 0} → Parser A → Parser (Option A)
unless_empty item b = if is_empty b then (ok none, b) else (item >>= λ a. return (some a)) b

-- What a client has when it stops calling `next`.
pub data Run (A : Type 0) : Type 0 where
  finished : List A → Run A
  failed : List A → Error → Run A
  panicked : Run A
  out_of_fuel : Run A

abbrev pub before : {A : Type 0} → A → Run A → Run A
before a (finished rest) = finished (a ∷ rest)
before a (failed rest e) = failed (a ∷ rest) e
before a panicked = panicked
before a out_of_fuel = out_of_fuel

-- The client's loop, from what a call returned on.
abbrev pub go_on : {A : Type 0} → Result (Option A) × ParseBuffer → (ParseBuffer → Run A) → Run A
go_on (ok none, after) rest = finished []
go_on (ok (some a), after) rest = before a (rest after)
go_on (err e, after) rest = failed [] e
go_on (panic, after) rest = panicked

unfoldable pub collect : {A : Type 0} → ℕ → Parser (Option A) → ParseBuffer → Run A
collect zero next b = out_of_fuel
collect (suc fuel) next b = go_on (next b) (collect fuel next)

-- The loop comes to its end: at the last item or at an error.
abbrev pub Ends : {A : Type 0} → Run A → Type 0
Ends (finished items) = Unit
Ends (failed items e) = Unit
Ends panicked = ⊥
Ends out_of_fuel = ⊥

-- A call that gives an item has moved on, and none panics.
abbrev pub StepsAt : {A : Type 0} → ParseBuffer → Result (Option A) × ParseBuffer → Type 0
StepsAt b (ok (some a), after) =
    (after.bytes ≡ b.bytes) × (b.pos < after.pos) × (after.pos ≤ length b.bytes)
StepsAt b (ok none, after) = Unit
StepsAt b (err e, after) = Unit
StepsAt b (panic, after) = ⊥

pub record Steps {A : Type 0} (next : Parser (Option A)) : Type 0 where
  pub steps : (b : ParseBuffer) → IsValid b → StepsAt b (next b)

-- A later call moves on from where an earlier one came to.
pub StepsAt-onward :
    {A : Type 0} (b after : ParseBuffer) (r : Result (Option A) × ParseBuffer)
    → after.bytes ≡ b.bytes
    → b.pos ≤ after.pos
    → StepsAt after r
    → StepsAt b r
StepsAt-onward b after (ok (some a), last) same le h =
    (h.0 ∙ same, omega (arith, h.1), omega (arith, h.2, ap length same))
StepsAt-onward b after (ok none, last) same le h = tt
StepsAt-onward b after (err e, last) same le h = tt
StepsAt-onward b after (panic, last) same le h = h

StepsAt-unless_empty :
    {A : Type 0} (b : ParseBuffer) (r : Result A × ParseBuffer)
    → Advances 1 b r
    → StepsAt b (and_then r (λ a. return (some a)))
StepsAt-unless_empty b (ok a, after) h = (h.0, omega (arith, h.1), h.2)
StepsAt-unless_empty b (err e, after) h = tt
StepsAt-unless_empty b (panic, after) h = h

pub Steps-unless_empty : {A : Type 0} (item : Parser A) → Forward item 1 → Steps (unless_empty item)
Steps-unless_empty item f = record {
  steps = λ b v. elim (Bool-cases (is_empty b)) [
    | inl done ↦ rw done tt
    | inr more ↦ rw more (StepsAt-unless_empty b (item b) (f.advances b v))
  ];
}

Ends-before : {A : Type 0} (a : A) (r : Run A) → Ends r → Ends (before a r)
Ends-before a (finished items) h = tt
Ends-before a (failed items e) h = tt
Ends-before a panicked h = h
Ends-before a out_of_fuel h = h

Ends-go_on :
    {A : Type 0} (b : ParseBuffer) (r : Result (Option A) × ParseBuffer)
    (rest : ParseBuffer → Run A)
    → IsValid b
    → StepsAt b r
    → ((after : ParseBuffer)
        → IsValid after
        → length after.bytes - after.pos < length b.bytes - b.pos
        → Ends (rest after))
    → Ends (go_on r rest)
Ends-go_on b (ok none, after) rest v h ends = tt
Ends-go_on b (ok (some a), after) rest v h ends = Ends-before a (rest after) (
    ends after
      (record {
        within = omega (arith, h.2, ap length h.0);
        small = omega (arith, v.small, ap length h.0);
      })
      (omega (arith, h.1, h.2, ap length h.0)))
Ends-go_on b (err e, after) rest v h ends = tt
Ends-go_on b (panic, after) rest v h ends = h

-- With as much fuel as there are bytes ahead, and one round more, the loop ends.
pub collect-Ends :
    {A : Type 0} (next : Parser (Option A)) (fuel : ℕ) (b : ParseBuffer)
    → Steps next
    → IsValid b
    → length b.bytes - b.pos < fuel
    → Ends (collect fuel next b)
unfolding collect
collect-Ends next zero b s v h = absurd (omega arith)
collect-Ends next (suc fuel) b s v h =
    Ends-go_on b (next b) (collect fuel next) v (s.steps b v)
      (λ after v' less. collect-Ends next fuel after s v' (omega arith))
