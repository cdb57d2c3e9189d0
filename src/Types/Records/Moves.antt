-- ===== src/Types/Records/Moves.antt =====
-- src/tpi/data.rs: how far the parts and the leaves of `parse_type_data` move, and what cannot panic.
pub mod Arms
pub mod Whole
use pdb.Prelude.{
  ℕ, ◌+◌, ◌-◌, ◌≤◌, ◌<◌, ◌≡◌, refl, ap, sym, ◌∙◌, List, [], ◌∷◌, arith, Bool, true, false,
  Bool-cases, inl, inr, Option, none, some, Option-cases, bit_and, ltb, leb, ltb→lt, ◌==◌,
  if◌then◌else◌,
}
use pdb.Prelude.Arms.{arm, arm-All}
use pdb.Prelude.{All}
use pdb.Errors.{Result, ok, err, panic, unexpected_numeric_prefix}
use pdb.Scroll.{Scroll, Width, size_of, u8, u16, u32, u64}
use pdb.Prelude.Int.{ℤ, signed}
use pdb.Buffer.State.{
  Parser, ParseBuffer, ◌>>=◌, return, parse_uint, parse_cstring, take_bytes, is_empty,
}
use pdb.Buffer.Advance.{
  Forward, Forward-parse_uint, Forward-parse_cstring, Forward-parse_u8_pascal_string,
  Forward-take_bytes, Forward-at_once,
}
use pdb.Buffer.Repeat.{Turn, again, done, repeat}
use pdb.Buffer.Onward.{
  Onward, Onward-at_once, Forward-Onward, Onward-less, Onward-bind, Onward-return, Onward-fail,
  Onward-if, Onward-still, Onward-peek_uint, Onward-field, Onward-next,
}
use pdb.Buffer.Turns.{TurnOf-Onward, TurnOf-done, TurnOf-bind, TurnOf-if, Onward-repeat, TurnOf}
use pdb.Numeric.{
  parse_unsigned, parse_variant, read_variant, prefixed, unsigned_arms, variant_arms, unsigned_at,
  signed_at, lf_numeric, Variant, of_u16, of_u32, of_u64, of_i8, of_i16, of_i32, of_i64,
}
use pdb.Types.Records.Attributes.{has_unique_name}
use pdb.Types.Records.Parts.{
  parse_optional_type_index, parse_string, parse_unique_name, parse_name, parse_padding,
  padding_round, skip_padding, at_end, lf_st_max,
}

module _ {Q : Type 0} where
  pub Onward-at_end : Onward Q at_end 0
  unfolding is_empty
  Onward-at_end = Onward-still (λ b. ok (is_empty b)) (λ b e. cc)

  -- A rule for every arm is one for the arm that is taken.
  pub Onward-prefixed :
      {A : Type 0} (arms : List (ℕ × Parser A)) (leaf : ℕ)
      → All (λ (number, read). Onward Q read 0) arms
      → Onward Q (prefixed leaf (arm arms leaf)) 0
  Onward-prefixed arms leaf all = elim (Option-cases (arm arms leaf)) [
    | inl missing ↦ rw missing (Onward-fail (unexpected_numeric_prefix leaf) 0)
    | inr (read, taken) ↦
        rw taken (arm-All (λ number read. Onward Q read 0) arms leaf read all taken)
  ]

  module _ (sc : Scroll) where
    pub Onward-parse_uint : (w : Width) → Onward Q (parse_uint sc w) 0
    Onward-parse_uint w = Onward-less 0 (omega arith) (Forward-Onward (Forward-parse_uint sc w))

    pub Onward-parse_unsigned : Onward Q (parse_unsigned sc) 1
    unfolding parse_unsigned
    Onward-parse_unsigned = Onward-field sc u16 λ leaf.
        Onward-if (ltb leaf lf_numeric) (Onward-return leaf) (
          Onward-prefixed (unsigned_arms sc) leaf (
            Onward-parse_uint u8,
            (Onward-parse_uint u16, (Onward-parse_uint u32, (Onward-parse_uint u64, tt))),
          ))

    Onward-read_variant : Onward Q (read_variant sc) 1
    unfolding read_variant
    Onward-read_variant = Onward-field sc u16 λ value.
        Onward-if (ltb value lf_numeric) (Onward-return (of_u16 value)) (
          Onward-prefixed (variant_arms sc) value (
            signed_next u8 of_i8,
            (
              signed_next u16 of_i16,
              (
                signed_next u32 of_i32,
                (
                  signed_next u64 of_i64,
                  (
                    unsigned_next u16 of_u16,
                    (unsigned_next u32 of_u32, (unsigned_next u64 of_u64, tt)),
                  ),
                ),
              ),
            ),
          ))
      where
        unsigned_next : (w : Width) (make : ℕ → Variant) → Onward Q (unsigned_at sc w make) 0
        unsigned_next w make = Onward-next sc w λ v. Onward-return (make v)

        signed_next : (w : Width) (make : ℤ → Variant) → Onward Q (signed_at sc w make) 0
        signed_next w make = Onward-next sc w λ v. Onward-return (make (signed (size_of w) v))

    -- The rules for what a leaf reads, each with what comes behind it.
    pub Onward-variant :
        {B : Type 0} {k : Variant → Parser B}
        → ((v : Variant) → Onward Q (k v) 0)
        → Onward Q (parse_variant sc >>= k) 0
    unfolding parse_variant
    Onward-variant further =
        Onward-bind (Onward-less 0 (omega arith) (Onward-at_once Onward-read_variant)) further

    pub Onward-unsigned :
        {B : Type 0} {k : ℕ → Parser B}
        → ((v : ℕ) → Onward Q (k v) 0)
        → Onward Q (parse_unsigned sc >>= k) 0
    Onward-unsigned further =
        Onward-bind (Onward-less 0 (omega arith) Onward-parse_unsigned) further

    pub Onward-optional :
        {B : Type 0} {k : Option ℕ → Parser B}
        → ((v : Option ℕ) → Onward Q (k v) 0)
        → Onward Q (parse_optional_type_index sc >>= k) 0
    unfolding parse_optional_type_index
    Onward-optional further = Onward-bind (Onward-next sc u32 λ index. Onward-return _) further

    Onward-parse_string : (leaf : ℕ) → Onward Q (parse_string sc leaf) 0
    unfolding parse_string
    Onward-parse_string leaf =
        Onward-if (ltb lf_st_max leaf)
          (Onward-less 0 (omega arith) (Forward-Onward Forward-parse_cstring))
          (Onward-less 0 (omega arith) (Forward-Onward (Forward-parse_u8_pascal_string sc)))

    pub Onward-string :
        {B : Type 0} {k : List ℕ → Parser B} (leaf : ℕ)
        → ((v : List ℕ) → Onward Q (k v) 0)
        → Onward Q (parse_string sc leaf >>= k) 0
    Onward-string leaf further = Onward-bind (Onward-parse_string leaf) further

    pub Onward-name :
        {B : Type 0} {k : List ℕ → Parser B} (lossy : List ℕ → List ℕ) (leaf : ℕ)
        → ((v : List ℕ) → Onward Q (k v) 0)
        → Onward Q (parse_name sc lossy leaf >>= k) 0
    unfolding parse_name
    Onward-name lossy leaf further =
        Onward-bind (Onward-string leaf λ raw. Onward-return (lossy raw)) further

    pub Onward-unique :
        {B : Type 0} {k : Option (List ℕ) → Parser B} (lossy : List ℕ → List ℕ)
        (leaf properties : ℕ)
        → ((v : Option (List ℕ)) → Onward Q (k v) 0)
        → Onward Q (parse_unique_name sc lossy leaf properties >>= k) 0
    unfolding parse_unique_name
    Onward-unique lossy leaf properties further =
        Onward-bind
          (Onward-if (has_unique_name properties)
            (Onward-name lossy leaf λ name. Onward-return (some name)) (Onward-return none))
          further

    Onward-skip_padding : Onward Q (skip_padding sc) 1
    Onward-skip_padding = Onward-field sc u8 λ padding.
        Onward-if (ltb 0xf0 padding)
          (Onward-bind
            (Onward-less 0 (omega arith)
              (Forward-Onward (Forward-take_bytes (bit_and padding 0x0f - 1))))
            λ skipped. Onward-return (again tt))
          (Onward-return (again tt))

    pub Onward-parse_padding : Onward Q (parse_padding sc) 0
    unfolding parse_padding
    Onward-parse_padding = Onward-repeat (padding_round sc) tt turns
      where
        turns : (s : Unit {0}) → TurnOf Q (padding_round sc s)
        turns tt = TurnOf-bind Onward-at_end λ empty. TurnOf-if empty (TurnOf-done tt) (
            TurnOf-bind (Onward-peek_uint sc u8) λ next.
              TurnOf-if (leb 0xf0 next) (TurnOf-Onward Onward-skip_padding) (TurnOf-done tt))

-- A leaf is proved to move on by a rule for each of its fields.
pub ruleset leaf_moves = (
  Onward-next, Onward-optional, Onward-unsigned, Onward-variant, Onward-name, Onward-unique,
  Onward-return,
)
