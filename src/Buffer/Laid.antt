-- ===== src/Buffer/Laid.antt =====
-- Iteration over items that are laid out one after the other in the buffer.
use pdb.Prelude.{
  ℕ, zero, suc, ◌<◌, ◌≡◌, refl, sym, ap, ◌∙◌, List, [], ◌∷◌, ◌++◌, append_assoc, append-nil, length,
  length-drop, arith, true, false, Option, none, some, Bool-cases, inl, inr, All, length-append,
}
use mathlib.Core.Path.{subst}
use pdb.Errors.{Result, ok, err, panic}
use pdb.Buffer.State.{ParseBuffer, Parser, and_then, return, is_empty}
use pdb.Buffer.Position.{is_empty_iff}
use pdb.Buffer.Yields.{Leaves}
use pdb.Buffer.Items.{unless_empty, finished, before, go_on, collect}

-- The bytes of all items.
abbrev pub laid : {A : Type 0} → (A → List ℕ) → List A → List ℕ
laid bytes_of [] = []
laid bytes_of (a ∷ items) = bytes_of a ++ laid bytes_of items

-- Success with `a`, with `rest` ahead, and with a position of which `At` holds.
abbrev pub YieldsAt : {A : Type 0} → (ℕ → Type 0) → Result A × ParseBuffer → A → List ℕ → Type 0
YieldsAt At r a rest =
    (after : ParseBuffer) × (r ≡ (ok a, after)) × Leaves after rest × At after.pos

module _ {A : Type 0} (bytes_of : A → List ℕ) (At : ℕ → Type 0) (next : Parser (Option A)) where
  -- From every position of which `At` holds, `next` gives the item whose bytes lie ahead.
  abbrev pub GivesItem : A → Type 0
  GivesItem a =
      (b : ParseBuffer) (rest : List ℕ)
      → At b.pos
      → Leaves b (bytes_of a ++ rest)
      → YieldsAt At (next b) (some a) rest

  pub collect-laid :
      (tail : List ℕ)
      → ((b : ParseBuffer) → Leaves b tail → (next b).0 ≡ ok none)
      → (items : List A) (fuel : ℕ) (b : ParseBuffer) → All GivesItem items
      → At b.pos
      → Leaves b (laid bytes_of items ++ tail)
      → length items < fuel
      → collect fuel next b ≡ finished items
  unfolding collect
  collect-laid tail ends items zero b gives at l h = absurd (omega arith)
  collect-laid tail ends [] (suc fuel) b gives at l h = stop (next b) (ends b l)
    where
      stop :
          (r : Result (Option A) × ParseBuffer)
          → r.0 ≡ ok none
          → go_on r (collect fuel next) ≡ finished []
      stop (ok none, after) e = refl
      stop (ok (some a), after) e = cc
      stop (err x, after) e = cc
      stop (panic, after) e = cc
  collect-laid tail ends (a ∷ items) (suc fuel) b (give, gives) at l h =
      let (after, runs, l', at') =
        give b (laid bytes_of items ++ tail) at
          (subst (Leaves b) (append_assoc (bytes_of a) (laid bytes_of items) tail) l) in
      ap (λ r. go_on r (collect fuel next)) runs
      ∙ ap (before a) (collect-laid tail ends items fuel after gives at' l' (omega arith))

pub is_empty-Leaves-nil : (b : ParseBuffer) → Leaves b [] → is_empty b ≡ true
is_empty-Leaves-nil b l =
    (is_empty_iff b l.valid).1
      (omega (arith, length-drop b.pos b.bytes, ap length l.left, l.valid.within))

pub is_empty-Leaves-cons :
    (b : ParseBuffer) (xs : List ℕ) → 0 < length xs → Leaves b xs → is_empty b ≡ false
is_empty-Leaves-cons b xs some_left l = elim (Bool-cases (is_empty b)) [
  | inl done ↦
      absurd (
        omega (arith, (is_empty_iff b l.valid).0 done, length-drop b.pos b.bytes, ap length l.left))
  | inr more ↦ more
]

-- The iterators that stop at the end of the buffer.
module _ {A : Type 0} (bytes_of : A → List ℕ) (At : ℕ → Type 0) (item : Parser A) where
  unless_empty-GivesItem :
      (a : A)
      → 0 < length (bytes_of a)
      → ((b : ParseBuffer) (rest : List ℕ)
          → At b.pos
          → Leaves b (bytes_of a ++ rest)
          → YieldsAt At (item b) a rest)
      → GivesItem bytes_of At (unless_empty item) a
  unless_empty-GivesItem a some_bytes yields b rest at l =
      let (after, runs, l', at') = yields b rest at l in
      (
        after,
        rw
            (is_empty-Leaves-cons b (bytes_of a ++ rest)
              (omega (arith, length-append (bytes_of a) rest)) l)
            (ap (λ r. and_then r (λ a. return (some a))) runs),
        l',
        at',
      )

  -- Items that the parser yields, one after the other up to the end of the buffer.
  pub collect-unless_empty :
      (items : List A) (fuel : ℕ) (b : ParseBuffer)
      → All
          (λ a.
            (0 < length (bytes_of a))
            × ((b : ParseBuffer) (rest : List ℕ)
                → At b.pos
                → Leaves b (bytes_of a ++ rest)
                → YieldsAt At (item b) a rest))
          items
      → At b.pos
      → Leaves b (laid bytes_of items)
      → length items < fuel
      → collect fuel (unless_empty item) b ≡ finished items
  collect-unless_empty items fuel b gives at l h =
      collect-laid bytes_of At (unless_empty item) [] (λ b l. rw (is_empty-Leaves-nil b l) refl)
        items fuel b (all_give items gives) at
        (subst (Leaves b) (sym (append-nil (laid bytes_of items))) l) h
    where
      all_give :
          (items : List A)
          → All
              (λ a.
                (0 < length (bytes_of a))
                × ((b : ParseBuffer) (rest : List ℕ)
                    → At b.pos
                    → Leaves b (bytes_of a ++ rest)
                    → YieldsAt At (item b) a rest))
              items
          → All (GivesItem bytes_of At (unless_empty item)) items
      all_give [] h = tt
      all_give (a ∷ items) ((some_bytes, yields), h) =
          (unless_empty-GivesItem a some_bytes yields, all_give items h)
