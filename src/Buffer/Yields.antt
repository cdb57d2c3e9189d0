-- ===== src/Buffer/Yields.antt =====
-- How a parser runs on bytes that are laid out ahead of it: rules for each step and for a sequence.
use pdb.Prelude.{
  ℕ, ◌+◌, ◌^◌, ◌<◌, ◌≡◌, refl, sym, ap, ◌∙◌, List, ◌++◌, length, take, drop, le→ltb, le→leb,
  length-append, length-drop, drop-append, drop-drop, take-append_le, take_all, le_bytes,
  length-le_bytes, arith,
}
use mathlib.Core.Path.{subst}
use pdb.Errors.{Result, ok, err, panic, Error}
use pdb.Scroll.{Width, size_of, Scroll}
use pdb.Buffer.State.{ParseBuffer, Parser, and_then, ◌>>=◌, from_bytes, parse_uint, take_bytes}
use pdb.Buffer.Parse.{advance, ahead, parse_uint-le_bytes}
use pdb.Buffer.Position.{IsValid}

-- A valid buffer with `rest` ahead.
pub record Leaves (b : ParseBuffer) (rest : List ℕ) : Type 0 where
  pub valid : IsValid b
  pub left : ahead b ≡ rest

-- The parser succeeds with `a`, and leaves `rest` ahead.
abbrev pub Yields : {A : Type 0} → Parser A → ParseBuffer → A → List ℕ → Type 0
Yields m b a rest = (b' : ParseBuffer) × (m b ≡ (ok a, b')) × Leaves b' rest

-- The parser fails with `e`.
abbrev pub Fails : {A : Type 0} → Parser A → ParseBuffer → Error → Type 0
Fails m b e = (m b).0 ≡ err e

pub Yields-bind :
    {A B : Type 0} (m : Parser A) (k : A → Parser B) (b : ParseBuffer) (a : A) (mid : List ℕ)
    (c : B) (rest : List ℕ)
    → Yields m b a mid
    → ((b' : ParseBuffer) → Leaves b' mid → Yields (k a) b' c rest)
    → Yields (m >>= k) b c rest
Yields-bind m k b a mid c rest (b', runs, l) next =
    let (b'', runs', l') = next b' l in (b'', ap (λ r. and_then r k) runs ∙ runs', l')

pub Fails-bind :
    {A B : Type 0} (m : Parser A) (k : A → Parser B) (b : ParseBuffer) (a : A) (mid : List ℕ)
    (e : Error)
    → Yields m b a mid
    → ((b' : ParseBuffer) → Leaves b' mid → Fails (k a) b' e)
    → Fails (m >>= k) b e
Fails-bind m k b a mid e (b', runs, l) next = ap (λ r. (and_then r k).0) runs ∙ next b' l

pub Fails-bind_now :
    {A B : Type 0} (m : Parser A) (k : A → Parser B) (b : ParseBuffer) (e : Error)
    → Fails m b e
    → Fails (m >>= k) b e
Fails-bind_now {A} {B} m k b e h = now (m b) h
  where
    now : (r : Result A × ParseBuffer) → r.0 ≡ err e → (and_then {B = B} r k).0 ≡ err e
    now (ok a, b') h = cc
    now (err e', b') h = ap error_of h
      where
        error_of : Result A → Result B
        error_of (err x) = err x
        error_of _ = panic
    now (panic, b') h = cc

pub Leaves-length :
    (b : ParseBuffer) (xs rest : List ℕ)
    → Leaves b (xs ++ rest)
    → b.pos + (length xs + length rest) ≡ length b.bytes
Leaves-length b xs rest l =
    omega
      (arith, l.valid.within, length-drop b.pos b.bytes, ap length l.left, length-append xs rest)

pub Leaves-advance :
    (b : ParseBuffer) (xs rest : List ℕ)
    → Leaves b (xs ++ rest)
    → Leaves (advance (length xs) b) rest
Leaves-advance b xs rest l = record {
  valid = record { within = omega (arith, Leaves-length b xs rest l); small = l.valid.small };
  left =
      sym (drop-drop b.pos (length xs) b.bytes)
      ∙ ap (drop (length xs)) l.left
      ∙ drop-append xs rest;
}

pub from_bytes-Leaves : (bytes : List ℕ) → length bytes < 2 ^ 63 → Leaves (from_bytes bytes) bytes
from_bytes-Leaves bytes h = record {
  valid = record { within = omega arith; small = h };
  left = refl;
}

module _ (sc : Scroll) where
  pub Yields-parse_uint :
      (w : Width) (b : ParseBuffer) (v : ℕ) (rest : List ℕ)
      → v < 256 ^ size_of w
      → Leaves b (le_bytes (size_of w) v ++ rest)
      → Yields (parse_uint sc w) b v rest
  Yields-parse_uint w b v rest small l =
      (advance (size_of w) b, (parse_uint-le_bytes sc w b v rest small l.left).0, moved)
    where
      moved : Leaves (advance (size_of w) b) rest
      moved =
          subst (λ (n : ℕ). Leaves (advance n b) rest) (length-le_bytes (size_of w) v)
            (Leaves-advance b (le_bytes (size_of w) v) rest l)

pub Yields-take_bytes :
    (n : ℕ) (b : ParseBuffer) (xs rest : List ℕ)
    → length xs ≡ n
    → Leaves b (xs ++ rest)
    → Yields (take_bytes n) b xs rest
Yields-take_bytes n b xs rest count l = (
  advance n b,
  runs ∙ ap (λ ys. (ok ys, advance n b)) front,
  subst (λ (m : ℕ). Leaves (advance m b) rest) count (Leaves-advance b xs rest l),
)
  where
    runs : take_bytes n b ≡ (ok (take n (ahead b)), advance n b)
    runs =
        unfold take_bytes in
        rw (
          le→ltb _ _ l.valid.within,
          le→leb n (length (ahead b))
              (omega (arith, Leaves-length b xs rest l, length-drop b.pos b.bytes)),
        )

    front : take n (ahead b) ≡ xs
    front =
        ap (take n) l.left
        ∙ take-append_le n xs rest (omega (arith, count))
        ∙ take_all n xs (omega (arith, count))
