-- ===== src/Prelude/Arms.antt =====
-- A match on a number whose arms are a list.
use pdb.Prelude.Tests.{◌==◌, ==_iff, if◌then◌else◌, Bool-cases}
use pdb.Prelude.Lists.{All}
use Prim.Native.Nat.{ℕ}
use mathlib.Core.Path.{◌≡◌, refl, sym, ◌∙◌, subst}
use mathlib.Core.Logic.{inl, inr}
use mathlib.Core.List.{List, [], ◌∷◌}
use mathlib.Core.Option.{Option, none, some}

-- The arms of a match on a number: the first one that it equals.
abbrev pub arm : {A : Type 0} → List (ℕ × A) → ℕ → Option A
arm [] value = none
arm ((number, result) ∷ arms) value = if value == number then some result else arm arms value

-- What holds of all arms holds of the arm that is taken.
pub arm-All :
    {A : Type 0} (P : ℕ → A → Type 0) (arms : List (ℕ × A)) (value : ℕ) (a : A)
    → All (λ (number, result). P number result) arms
    → arm arms value ≡ some a
    → P value a
arm-All P [] value a h e = cc
arm-All P ((number, result) ∷ arms) value a (h, hs) e = elim (Bool-cases (value == number)) [
  | inl same ↦
      let given : arm ((number, result) ∷ arms) value ≡ some result = rw same refl in
      subst (P value) (some_same result a (sym given ∙ e))
        (subst (λ (n : ℕ). P n result) (sym ((==_iff value number).0 same)) h)
  | inr other ↦
      let later : arm ((number, result) ∷ arms) value ≡ arm arms value = rw other refl in
      arm-All P arms value a hs (sym later ∙ e)
]
  where
    some_same : {A : Type 0} (a b : A) → some a ≡ some b → a ≡ b
    some_same a b e = cc
