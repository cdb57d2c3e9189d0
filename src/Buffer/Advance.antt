-- ===== src/Buffer/Advance.antt =====
-- How far a parser moves: on any valid buffer it does not panic, and where it succeeds it has moved on
-- by at least a number of bytes and not past the end.
use pdb.Prelude.{
  [], ◌∷◌, ◌∙◌, le→ltb, ℕ, suc, ◌+◌, ◌≤◌, ◌<◌, ◌≡◌, refl, ap, List, length, length-drop, arith, inl,
  inr, Bool-cases, some, leb→le, leb→lt, leb, ◌==◌, Option-cases,
}
use pdb.Errors.{Result, ok, err, panic, Error}
use pdb.Scroll.{Width, u8, size_of, Scroll}
use pdb.Buffer.State.{
  ParseBuffer, Parser, and_then, back_to, at_once, ◌>>=◌, return, fail, parse_uint, take_bytes,
  parse_cstring, align, null_position, parse_u8_pascal_string,
}
use pdb.Buffer.Parse.{advance, ahead, parse_uint_fits, parse_uint_short}
use pdb.Buffer.Position.{IsValid, take_bytes_lem, align_lem, padding}

abbrev pub Advances : {A : Type 0} → ℕ → ParseBuffer → Result A × ParseBuffer → Type 0
Advances n b (ok a, after) =
    (after.bytes ≡ b.bytes) × (b.pos + n ≤ after.pos) × (after.pos ≤ length b.bytes)
Advances n b (err e, after) = Unit
Advances n b (panic, after) = ⊥

pub record Forward {A : Type 0} (m : Parser A) (n : ℕ) : Type 0 where
  pub advances : (b : ParseBuffer) → IsValid b → Advances n b (m b)

Advances-IsValid :
    (b after : ParseBuffer)
    → IsValid b
    → after.bytes ≡ b.bytes
    → after.pos ≤ length b.bytes
    → IsValid after
Advances-IsValid b after v same le = record {
  within = omega (arith, le, ap length same);
  small = omega (arith, v.small, ap length same);
}

pub Forward-return : {A : Type 0} (a : A) → Forward (return a) 0
Forward-return a = record { advances = λ b v. (refl, omega arith, v.within) }

pub Forward-fail : {A : Type 0} (e : Error) → Forward (fail {A = A} e) 0
Forward-fail e = record { advances = λ b v. tt }

Advances-less :
    {A : Type 0} (n : ℕ) (b : ParseBuffer) (r : Result A × ParseBuffer)
    → Advances n b r
    → Advances 0 b r
Advances-less n b (ok a, after) h = (h.0, omega (arith, h.1), h.2)
Advances-less n b (err e, after) h = tt
Advances-less n b (panic, after) h = h

pub Forward-less : {A : Type 0} {m : Parser A} {n : ℕ} → Forward m n → Forward m 0
Forward-less {m = m} {n = n} f = record {
  advances = λ b v. Advances-less n b (m b) (f.advances b v);
}

Advances-one :
    {A : Type 0} (n : ℕ) (b : ParseBuffer) (r : Result A × ParseBuffer)
    → Advances (suc n) b r
    → Advances 1 b r
Advances-one n b (ok a, after) h = (h.0, omega (arith, h.1), h.2)
Advances-one n b (err e, after) h = tt
Advances-one n b (panic, after) h = h

pub Forward-one : {A : Type 0} {m : Parser A} {n : ℕ} → Forward m (suc n) → Forward m 1
Forward-one {m = m} {n = n} f = record { advances = λ b v. Advances-one n b (m b) (f.advances b v) }

-- What a later step does from where an earlier one left the buffer.
Advances-onward :
    {A : Type 0} (n : ℕ) (b after : ParseBuffer) (r : Result A × ParseBuffer)
    → after.bytes ≡ b.bytes
    → b.pos + n ≤ after.pos
    → Advances 0 after r
    → Advances n b r
Advances-onward n b after (ok a, last) same le h =
    (h.0 ∙ same, omega (arith, h.1), omega (arith, h.2, ap length same))
Advances-onward n b after (err e, last) same le h = tt
Advances-onward n b after (panic, last) same le h = h

Advances-bind :
    {A B : Type 0} (n : ℕ) (b : ParseBuffer) (r : Result A × ParseBuffer) (k : A → Parser B)
    → IsValid b
    → ((a : A) → Forward (k a) 0)
    → Advances n b r
    → Advances n b (and_then r k)
Advances-bind n b (ok a, after) k v g h =
    Advances-onward n b after (k a after) h.0 h.1
      ((g a).advances after (Advances-IsValid b after v h.0 h.2))
Advances-bind n b (err e, after) k v g h = tt
Advances-bind n b (panic, after) k v g h = h

Advances-back_to :
    {A : Type 0} (n : ℕ) (b : ParseBuffer) (r : Result A × ParseBuffer)
    → Advances n b r
    → Advances n b (back_to b r)
Advances-back_to n b (ok a, after) h = h
Advances-back_to n b (err e, after) h = tt
Advances-back_to n b (panic, after) h = h

pub Forward-at_once : {A : Type 0} {m : Parser A} {n : ℕ} → Forward m n → Forward (at_once m) n
Forward-at_once {m = m} {n = n} f = record {
  advances = λ b v. Advances-back_to n b (m b) (f.advances b v);
}

pub Forward-bind :
    {A B : Type 0} {m : Parser A} {k : A → Parser B} {n : ℕ}
    → Forward m n
    → ((a : A) → Forward (k a) 0)
    → Forward (m >>= k) n
Forward-bind {m = m} {k = k} {n = n} f g = record {
  advances = λ b v. Advances-bind n b (m b) k v g (f.advances b v);
}

-- The reads: too short a rest is an error, and otherwise they move on by what they read.
Advances-short :
    {A : Type 0} (n : ℕ) (b : ParseBuffer) {r : Result A × ParseBuffer} (e : Error)
    → r ≡ (err e, b)
    → Advances n b r
Advances-short n b e h = rw h tt

Advances-read :
    {A : Type 0} (n : ℕ) (b : ParseBuffer) {r : Result A × ParseBuffer} (a : A)
    → r ≡ (ok a, advance n b)
    → b.pos + n ≤ length b.bytes
    → Advances n b r
Advances-read n b a h le = rw h (refl, omega arith, le)

module _ (sc : Scroll) where
  pub Forward-parse_uint : (w : Width) → Forward (parse_uint sc w) (size_of w)
  Forward-parse_uint w = record {
    advances = λ b v. elim (Bool-cases (leb (b.pos + size_of w) (length b.bytes))) [
      | inl fits ↦
          Advances-read (size_of w) b _ (parse_uint_fits sc w b (leb→le _ _ fits)) (leb→le _ _ fits)
      | inr short ↦ Advances-short (size_of w) b _ (parse_uint_short sc w b (leb→lt _ _ short))
    ];
  }

pub Forward-take_bytes : (n : ℕ) → Forward (take_bytes n) n
Forward-take_bytes n = record {
  advances = λ b v. elim (take_bytes_lem n b v) [
    | inl fits ↦ Advances-read n b _ fits.0 fits.1
    | inr short ↦ Advances-short n b _ short.0
  ];
}

pub Forward-align : (n : ℕ) → 0 < n → Forward (align n) 0
Forward-align n pos = record {
  advances = λ b v.
      rw (align_lem n b pos v) (elim (Bool-cases (leb (b.pos + padding n b.pos) (length b.bytes))) [
        | inl fits ↦ rw fits (refl, omega arith, leb→le _ _ fits)
        | inr short ↦ rw short tt
      ]);
}

null_position-lt-length : (s : List ℕ) (i : ℕ) → null_position s ≡ some i → i < length s
unfolding null_position
null_position-lt-length [] i h = cc
null_position-lt-length (ch ∷ s) i h = elim (Bool-cases (ch == 0)) [
  | inl null ↦ ground arith
  | inr more ↦ elim (Option-cases (null_position s)) [
    | inl missing ↦ ground arith
    | inr (j, there) ↦ ground (arith, null_position-lt-length s j there)
  ]
]

pub Forward-parse_cstring : Forward parse_cstring 1
unfolding parse_cstring
Forward-parse_cstring = record {
  advances = λ b v. elim (Option-cases (null_position (ahead b))) [
    | inl missing ↦ rw (parse_cstring, le→ltb _ _ v.within, missing) tt
    | inr (i, there) ↦
        rw (parse_cstring, le→ltb _ _ v.within, there)
          (
            refl,
            omega arith,
            omega (
              arith,
              null_position-lt-length (ahead b) i there,
              length-drop b.pos b.bytes,
              v.within,
            ),
          )
  ];
}

module _ (sc : Scroll) where
  pub Forward-parse_u8_pascal_string : Forward (parse_u8_pascal_string sc) 1
  unfolding parse_u8_pascal_string
  Forward-parse_u8_pascal_string =
      Forward-bind (Forward-parse_uint sc u8) (λ n. Forward-less (Forward-take_bytes n))
