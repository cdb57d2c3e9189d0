-- ===== src/Buffer/Turns.antt =====
-- Loops whose rounds move on: they end before their fuel, and any fuel that is enough gives the same.
use pdb.Prelude.{
  ℕ, zero, suc, ◌+◌, ◌-◌, ◌≤◌, ◌<◌, ◌≡◌, refl, ap, ◌∙◌, [], ◌∷◌, length, arith, Bool, true, false,
  if◌then◌else◌,
}
use mathlib.Core.Path.{subst}
use pdb.Errors.{Result, ok, err, panic}
use pdb.Buffer.State.{ParseBuffer, Parser, and_then, ◌>>=◌, return}
use pdb.Buffer.Position.{IsValid}
use pdb.Buffer.Repeat.{Turn, again, done, after_turn, repeat_within, repeat, repeat_times}
use pdb.Buffer.Onward.{
  OnwardAt, Onward, OnwardAt-later, Onward-less, Onward-bind, Onward-return, moved-IsValid,
}

-- A round that goes on has moved on, and no round moves back.
abbrev pub TurnAt : Type 0 → {S A : Type 0} → ParseBuffer → Result (Turn S A) × ParseBuffer → Type 0
TurnAt Q b (ok (again s), after) =
    (after.bytes ≡ b.bytes) × (b.pos < after.pos) × (after.pos ≤ length b.bytes)
TurnAt Q b (ok (done a), after) =
    (after.bytes ≡ b.bytes) × (b.pos ≤ after.pos) × (after.pos ≤ length b.bytes)
TurnAt Q b (err e, after) = Unit
TurnAt Q b (panic, after) = Q

pub record TurnOf (Q : Type 0) {S A : Type 0} (m : Parser (Turn S A)) : Type 0 where
  pub turn : (b : ParseBuffer) → IsValid b → TurnAt Q b (m b)

-- The bytes that are left.
abbrev pub left_in : ParseBuffer → ℕ
left_in b = length b.bytes - b.pos

-- Two parsers that do the same wherever at most `k` bytes are left.
pub record Agree {A : Type 0} (k : ℕ) (m m' : Parser A) : Type 0 where
  pub agrees : (b : ParseBuffer) → IsValid b → left_in b ≤ k → m b ≡ m' b

module _ (Q : Type 0) {S A : Type 0} where
  OnwardAt-again :
      (b : ParseBuffer) (r : Result (Turn S A) × ParseBuffer) → OnwardAt Q 1 b r → TurnAt Q b r
  OnwardAt-again b (ok (again s), after) h = (h.0, omega (arith, h.1), h.2)
  OnwardAt-again b (ok (done a), after) h = (h.0, omega (arith, h.1), h.2)
  OnwardAt-again b (err e, after) h = tt
  OnwardAt-again b (panic, after) h = h

  TurnAt-later :
      (b after : ParseBuffer) (r : Result (Turn S A) × ParseBuffer)
      → after.bytes ≡ b.bytes
      → b.pos ≤ after.pos
      → TurnAt Q after r
      → TurnAt Q b r
  TurnAt-later b after (ok (again s), last) same le h =
      (h.0 ∙ same, omega (arith, h.1), omega (arith, h.2, ap length same))
  TurnAt-later b after (ok (done a), last) same le h =
      (h.0 ∙ same, omega (arith, h.1), omega (arith, h.2, ap length same))
  TurnAt-later b after (err e, last) same le h = tt
  TurnAt-later b after (panic, last) same le h = h

  TurnAt-bind :
      {B : Type 0} (b : ParseBuffer) (r : Result B × ParseBuffer) (k : B → Parser (Turn S A))
      → IsValid b
      → ((x : B) → TurnOf Q (k x))
      → OnwardAt Q 0 b r
      → TurnAt Q b (and_then r k)
  TurnAt-bind b (ok x, after) k v g h =
      TurnAt-later b after (k x after) h.0 (omega (arith, h.1))
        ((g x).turn after (moved-IsValid b after v h.0 h.2))
  TurnAt-bind b (err e, after) k v g h = tt
  TurnAt-bind b (panic, after) k v g h = h

  round-agrees :
      (b : ParseBuffer) (r : Result (Turn S A) × ParseBuffer) (more more' : S → Parser A)
      → IsValid b
      → TurnAt Q b r
      → ((s : S) (after : ParseBuffer)
          → IsValid after
          → left_in after < left_in b
          → more s after ≡ more' s after)
      → and_then r (after_turn more) ≡ and_then r (after_turn more')
  round-agrees b (ok (again s), after) more more' v h same =
      same s after (moved-IsValid b after v h.0 h.2) (omega (arith, h.1, h.2, ap length h.0))
  round-agrees b (ok (done a), after) more more' v h same = refl
  round-agrees b (err e, after) more more' v h same = refl
  round-agrees b (panic, after) more more' v h same = refl

  -- Loops of steps that agree are the same, whatever fuel they have, if it is enough.
  repeat_within-agrees :
      (k : ℕ) (step step' : S → Parser (Turn S A)) (fuel fuel' : ℕ) (s : S) (b : ParseBuffer)
      → ((s : S) → Agree k (step s) (step' s))
      → ((s : S) → TurnOf Q (step s))
      → IsValid b
      → left_in b ≤ k
      → left_in b < fuel
      → left_in b < fuel'
      → repeat_within step fuel s b ≡ repeat_within step' fuel' s b
  unfolding repeat_within
  repeat_within-agrees k step step' zero fuel' s b agree t v le h h' = absurd (omega arith)
  repeat_within-agrees k step step' (suc fuel) zero s b agree t v le h h' = absurd (omega arith)
  repeat_within-agrees k step step' (suc fuel) (suc fuel') s b agree t v le h h' =
      round-agrees b (step s b) (repeat_within step fuel) (repeat_within step' fuel') v
        ((t s).turn b v)
        (λ s after v' less.
          repeat_within-agrees k step step' fuel fuel' s after agree t v' (omega arith)
            (omega arith) (omega arith))
      ∙ ap (λ r. and_then r (after_turn (repeat_within step' fuel'))) ((agree s).agrees b v le)

  round-OnwardAt :
      (b : ParseBuffer) (r : Result (Turn S A) × ParseBuffer) (more : S → Parser A)
      → IsValid b
      → TurnAt Q b r
      → ((s : S) (after : ParseBuffer)
          → IsValid after
          → left_in after < left_in b
          → OnwardAt Q 0 after (more s after))
      → OnwardAt Q 0 b (and_then r (after_turn more))
  round-OnwardAt b (ok (again s), after) more v h onward =
      OnwardAt-later Q 0 b after (more s after) h.0 (omega (arith, h.1))
        (onward s after (moved-IsValid b after v h.0 h.2) (omega (arith, h.1, h.2, ap length h.0)))
  round-OnwardAt b (ok (done a), after) more v h onward = (h.0, omega (arith, h.1), h.2)
  round-OnwardAt b (err e, after) more v h onward = tt
  round-OnwardAt b (panic, after) more v h onward = h

  repeat_within-OnwardAt :
      (step : S → Parser (Turn S A)) (fuel : ℕ) (s : S) (b : ParseBuffer)
      → ((s : S) → TurnOf Q (step s))
      → IsValid b
      → left_in b < fuel
      → OnwardAt Q 0 b (repeat_within step fuel s b)
  unfolding repeat_within
  repeat_within-OnwardAt step zero s b t v h = absurd (omega arith)
  repeat_within-OnwardAt step (suc fuel) s b t v h =
      round-OnwardAt b (step s b) (repeat_within step fuel) v ((t s).turn b v)
        (λ s after v' less. repeat_within-OnwardAt step fuel s after t v' (omega arith))

module _ {Q : Type 0} {S A : Type 0} where
  -- A round that moves on in any case.
  pub TurnOf-Onward : {m : Parser (Turn S A)} → Onward Q m 1 → TurnOf Q m
  TurnOf-Onward {m = m} f = record { turn = λ b v. OnwardAt-again Q b (m b) (f.onward b v) }

  pub TurnOf-done : (a : A) → TurnOf Q {S = S} (return (done a))
  TurnOf-done a = record { turn = λ b v. (refl, omega arith, v.within) }

  pub TurnOf-bind :
      {B : Type 0} {m : Parser B} {k : B → Parser (Turn S A)}
      → Onward Q m 0
      → ((x : B) → TurnOf Q (k x))
      → TurnOf Q (m >>= k)
  TurnOf-bind {m = m} {k = k} f g = record {
    turn = λ b v. TurnAt-bind Q b (m b) k v g (f.onward b v);
  }

  pub TurnOf-if :
      {m k : Parser (Turn S A)} (c : Bool) → TurnOf Q m → TurnOf Q k → TurnOf Q (if c then m else k)
  TurnOf-if true f g = f
  TurnOf-if false f g = g

  pub repeat-agrees :
      (k : ℕ) (step step' : S → Parser (Turn S A)) (s : S)
      → ((s : S) → Agree k (step s) (step' s))
      → ((s : S) → TurnOf Q (step s))
      → Agree k (repeat step s) (repeat step' s)
  unfolding repeat
  repeat-agrees k step step' s agree t = record {
    agrees = λ b v le.
        repeat_within-agrees Q k step step' (suc (length b.bytes)) (suc (length b.bytes)) s b agree
          t v le (omega arith) (omega arith);
  }

  pub Onward-repeat :
      (step : S → Parser (Turn S A)) (s : S)
      → ((s : S) → TurnOf Q (step s))
      → Onward Q (repeat step s) 0
  unfolding repeat
  Onward-repeat step s t = record {
    onward = λ b v. repeat_within-OnwardAt Q step (suc (length b.bytes)) s b t v (omega arith);
  }

pub Onward-repeat_times :
    {Q A : Type 0} {m : Parser A} {n : ℕ} (count : ℕ)
    → Onward Q m n
    → Onward Q (repeat_times count m) 0
unfolding repeat_times
Onward-repeat_times zero f = Onward-return []
Onward-repeat_times (suc count) f = Onward-less 0 (omega arith) (
    Onward-bind f
      λ first. Onward-bind (Onward-repeat_times count f) λ rest. Onward-return (first ∷ rest))

-- Rules for parsers that agree.
pub Agree-refl : {A : Type 0} (k : ℕ) (m : Parser A) → Agree k m m
Agree-refl k m = record { agrees = λ b v le. refl }

pub Agree-if :
    {A : Type 0} (k : ℕ) {m m' n n' : Parser A} (c : Bool)
    → Agree k m m'
    → Agree k n n'
    → Agree k (if c then m else n) (if c then m' else n')
Agree-if k true f g = f
Agree-if k false f g = g

pub Agree-first :
    {A B : Type 0} (k : ℕ) {m m' : Parser A} (f : A → Parser B)
    → Agree k m m'
    → Agree k (m >>= f) (m' >>= f)
Agree-first k f agree = record { agrees = λ b v le. ap (λ r. and_then r f) (agree.agrees b v le) }

module _ (Q : Type 0) {A B : Type 0} where
  pub and_then-agrees :
      (b : ParseBuffer) (r : Result A × ParseBuffer) (n : ℕ) (f f' : A → Parser B)
      → IsValid b
      → OnwardAt Q n b r
      → ((x : A) (after : ParseBuffer)
          → IsValid after
          → left_in after + n ≤ left_in b
          → f x after ≡ f' x after)
      → and_then r f ≡ and_then r f'
  and_then-agrees b (ok x, after) n f f' v h same =
      same x after (moved-IsValid b after v h.0 h.2) (omega (arith, h.1, h.2, ap length h.0))
  and_then-agrees b (err e, after) n f f' v h same = refl
  and_then-agrees b (panic, after) n f f' v h same = refl

pub Agree-rest :
    {Q A B : Type 0} (k : ℕ) {m : Parser A} {f f' : A → Parser B}
    → Onward Q m 0
    → ((x : A) → Agree k (f x) (f' x))
    → Agree k (m >>= f) (m >>= f')
Agree-rest {Q = Q} k {m = m} {f = f} {f' = f'} o agree = record {
  agrees = λ b v le.
      and_then-agrees Q b (m b) 0 f f' v (o.onward b v)
        (λ x after v' less. (agree x).agrees after v' (omega arith));
}

-- A round that goes on leaves fewer bytes.
pub TurnOf-left_in :
    {Q S A : Type 0} {m : Parser (Turn S A)} (b after : ParseBuffer) (s : S)
    → TurnOf Q m
    → IsValid b
    → m b ≡ (ok (again s), after)
    → left_in after < left_in b
TurnOf-left_in {Q = Q} b after s t v e =
    let h = subst (TurnAt Q b) e (t.turn b v) in omega (arith, h.1, h.2, ap length h.0)
