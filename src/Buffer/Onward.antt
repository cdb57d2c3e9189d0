-- ===== src/Buffer/Onward.antt =====
-- How far a parser moves where it succeeds, and what a panic of it would promise: `⊥` that there is none, and
-- `Unit` nothing.
use pdb.Prelude.{ℕ, ◌+◌, ◌≤◌, ◌≡◌, refl, ap, ◌∙◌, length, arith, Bool, true, false, if◌then◌else◌}
use pdb.Errors.{Result, ok, err, panic, Error, from_scroll}
use pdb.Scroll.{Scroll, Scrolled, Width, read, failed}
use pdb.Buffer.State.{
  ParseBuffer, Parser, and_then, back_to, at_once, ◌>>=◌, return, fail, parse_uint, peek_uint,
}
use pdb.Buffer.Position.{IsValid}
use pdb.Buffer.Advance.{Advances, Forward, Forward-parse_uint}
use pdb.Buffer.Parse.{size_of-pos}

abbrev pub OnwardAt : Type 0 → {A : Type 0} → ℕ → ParseBuffer → Result A × ParseBuffer → Type 0
OnwardAt Q n b (ok a, after) =
    (after.bytes ≡ b.bytes) × (b.pos + n ≤ after.pos) × (after.pos ≤ length b.bytes)
OnwardAt Q n b (err e, after) = Unit
OnwardAt Q n b (panic, after) = Q

pub record Onward (Q : Type 0) {A : Type 0} (m : Parser A) (n : ℕ) : Type 0 where
  pub onward : (b : ParseBuffer) → IsValid b → OnwardAt Q n b (m b)

pub moved-IsValid :
    (b after : ParseBuffer)
    → IsValid b
    → after.bytes ≡ b.bytes
    → after.pos ≤ length b.bytes
    → IsValid after
moved-IsValid b after v same le = record {
  within = omega (arith, le, ap length same);
  small = omega (arith, v.small, ap length same);
}

module _ (Q : Type 0) where
  Advances-OnwardAt :
      {A : Type 0} (n : ℕ) (b : ParseBuffer) (r : Result A × ParseBuffer)
      → Advances n b r
      → OnwardAt Q n b r
  Advances-OnwardAt n b (ok a, after) h = h
  Advances-OnwardAt n b (err e, after) h = tt
  Advances-OnwardAt n b (panic, after) h = absurd h

  OnwardAt-less :
      {A : Type 0} (n k : ℕ) (b : ParseBuffer) (r : Result A × ParseBuffer)
      → k ≤ n
      → OnwardAt Q n b r
      → OnwardAt Q k b r
  OnwardAt-less n k b (ok a, after) le h = (h.0, omega (arith, h.1), h.2)
  OnwardAt-less n k b (err e, after) le h = tt
  OnwardAt-less n k b (panic, after) le h = h

  pub OnwardAt-later :
      {A : Type 0} (n : ℕ) (b after : ParseBuffer) (r : Result A × ParseBuffer)
      → after.bytes ≡ b.bytes
      → b.pos + n ≤ after.pos
      → OnwardAt Q 0 after r
      → OnwardAt Q n b r
  OnwardAt-later n b after (ok a, last) same le h =
      (h.0 ∙ same, omega (arith, h.1), omega (arith, h.2, ap length same))
  OnwardAt-later n b after (err e, last) same le h = tt
  OnwardAt-later n b after (panic, last) same le h = h

  OnwardAt-bind :
      {A B : Type 0} (n : ℕ) (b : ParseBuffer) (r : Result A × ParseBuffer) (k : A → Parser B)
      → IsValid b
      → ((a : A) → Onward Q (k a) 0)
      → OnwardAt Q n b r
      → OnwardAt Q n b (and_then r k)
  OnwardAt-bind n b (ok a, after) k v g h =
      OnwardAt-later n b after (k a after) h.0 h.1
        ((g a).onward after (moved-IsValid b after v h.0 h.2))
  OnwardAt-bind n b (err e, after) k v g h = tt
  OnwardAt-bind n b (panic, after) k v g h = h

  -- A result that moves no position.
  OnwardAt-still :
      {A : Type 0} (b : ParseBuffer) (r : Result A)
      → IsValid b
      → (r ≡ panic → Q)
      → OnwardAt Q 0 b (r, b)
  OnwardAt-still b (ok a) v q = (refl, omega arith, v.within)
  OnwardAt-still b (err e) v q = tt
  OnwardAt-still b panic v q = q refl

  OnwardAt-back_to :
      {A : Type 0} (n : ℕ) (b : ParseBuffer) (r : Result A × ParseBuffer)
      → OnwardAt Q n b r
      → OnwardAt Q n b (back_to b r)
  OnwardAt-back_to n b (ok a, after) h = h
  OnwardAt-back_to n b (err e, after) h = tt
  OnwardAt-back_to n b (panic, after) h = h

module _ {Q : Type 0} where
  pub Onward-at_once : {A : Type 0} {m : Parser A} {n : ℕ} → Onward Q m n → Onward Q (at_once m) n
  Onward-at_once {m = m} {n = n} f = record {
    onward = λ b v. OnwardAt-back_to Q n b (m b) (f.onward b v);
  }

  pub Forward-Onward : {A : Type 0} {m : Parser A} {n : ℕ} → Forward m n → Onward Q m n
  Forward-Onward {m = m} {n = n} f = record {
    onward = λ b v. Advances-OnwardAt Q n b (m b) (f.advances b v);
  }

  pub Onward-less :
      {A : Type 0} {m : Parser A} {n : ℕ} (k : ℕ) → k ≤ n → Onward Q m n → Onward Q m k
  Onward-less {m = m} {n = n} k le f = record {
    onward = λ b v. OnwardAt-less Q n k b (m b) le (f.onward b v);
  }

  pub Onward-bind :
      {A B : Type 0} {m : Parser A} {k : A → Parser B} {n : ℕ}
      → Onward Q m n
      → ((a : A) → Onward Q (k a) 0)
      → Onward Q (m >>= k) n
  Onward-bind {m = m} {k = k} {n = n} f g = record {
    onward = λ b v. OnwardAt-bind Q n b (m b) k v g (f.onward b v);
  }

  pub Onward-return : {A : Type 0} (a : A) → Onward Q (return a) 0
  Onward-return a = record { onward = λ b v. (refl, omega arith, v.within) }

  pub Onward-fail : {A : Type 0} (e : Error) (n : ℕ) → Onward Q (fail {A = A} e) n
  Onward-fail e n = record { onward = λ b v. tt }

  pub Onward-if :
      {A : Type 0} {m k : Parser A} {n : ℕ} (c : Bool)
      → Onward Q m n
      → Onward Q k n
      → Onward Q (if c then m else k) n
  Onward-if true f g = f
  Onward-if false f g = g

  pub Onward-still :
      {A : Type 0} (r : ParseBuffer → Result A)
      → ((b : ParseBuffer) → r b ≡ panic → Q)
      → Onward Q (λ b. (r b, b)) 0
  Onward-still r q = record { onward = λ b v. OnwardAt-still Q b (r b) v (q b) }

  module _ (sc : Scroll) where
    pub Onward-peek_uint : (w : Width) → Onward Q (peek_uint sc w) 0
    unfolding peek_uint
    Onward-peek_uint w = record { onward = λ b v. peeked b (sc.pread w b.bytes b.pos) v }
      where
        peeked :
            (b : ParseBuffer) (r : Scrolled)
            → IsValid b
            → OnwardAt Q {A = ℕ} 0 b
                (elim r [ read v ↦ (ok v, b) | failed e ↦ (err (from_scroll e), b) ])
        peeked b (read v) valid = (refl, omega arith, valid.within)
        peeked b (failed e) valid = tt

    -- A number in front moves on by a byte at least.
    pub Onward-field :
        {B : Type 0} {k : ℕ → Parser B} (w : Width)
        → ((v : ℕ) → Onward Q (k v) 0)
        → Onward Q (parse_uint sc w >>= k) 1
    Onward-field w further =
        Onward-bind (Onward-less 1 (size_of-pos w) (Forward-Onward (Forward-parse_uint sc w)))
          further

    pub Onward-next :
        {B : Type 0} {k : ℕ → Parser B} (w : Width)
        → ((v : ℕ) → Onward Q (k v) 0)
        → Onward Q (parse_uint sc w >>= k) 0
    Onward-next w further = Onward-less 0 (omega arith) (Onward-field w further)
