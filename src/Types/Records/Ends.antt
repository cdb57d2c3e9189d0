-- ===== src/Types/Records/Ends.antt =====
-- src/tpi/data.rs: the recursion of `parse_type_data`, and its panics.
use pdb.Prelude.{
  List, ℕ, zero, suc, ◌<◌, ◌≡◌, ◌≢◌, arith, ◌==◌, none, false, ==_iff, Bool-cases, inl, inr,
}
use pdb.Prelude.Arms.{arm}
use mathlib.Core.Path.{subst}
use pdb.Errors.{Result, ok, err, panic, unimplemented_type_kind}
use pdb.Scroll.{Scroll, u16}
use pdb.Buffer.State.{ParseBuffer, Parser, return, parse_uint, parse_u16}
use pdb.Buffer.Position.{IsValid}
use pdb.Buffer.Repeat.{done}
use pdb.Buffer.Onward.{
  Onward, OnwardAt, Onward-peek_uint, Onward-fail, Forward-Onward, moved-IsValid,
}
use pdb.Buffer.Advance.{Forward-parse_uint}
use pdb.Buffer.Turns.{
  Agree, Agree-refl, Agree-if, Agree-first, Agree-rest, and_then-agrees, left_in, repeat-agrees,
}
use pdb.Types.Records.Shapes.{TypeData, no_fields, push_field}
use pdb.Types.Records.Lists.{
  Cut, FieldState, lf_fieldlist, lf_index, panicking_arms, field_or_index, continue_at, padded,
  next_field, field_round, field_list_leaf, type_data_with, parse_type_data_within, parse_type_data,
}
use pdb.Types.Records.Parts.{at_end}
use pdb.Types.Records.Moves.{Onward-at_end}
use pdb.Types.Records.Moves.Whole.{
  TurnOf-field_round, Onward-parse_type_data_within, Onward-simple_leaf,
}

module _ (sc : Scroll) (lossy : List ℕ → List ℕ) (k : ℕ) (item item' : Parser TypeData)
    (agree : Agree k item item') where
  field_or_index-agrees :
      (state : FieldState) (next : ℕ)
      → Agree k (field_or_index sc lossy item state next) (field_or_index sc lossy item' state next)
  field_or_index-agrees (fields, continuation) next =
      Agree-if k (next == lf_index) (Agree-refl k (continue_at sc lossy fields))
        (Agree-first k (λ field. return (push_field fields field, continuation)) agree)

  field_round-agrees :
      (state : FieldState)
      → Agree k (field_round sc lossy item state) (field_round sc lossy item' state)
  field_round-agrees state = Agree-rest {Q = Unit} k {m = at_end} Onward-at_end λ empty.
      Agree-if k {m = return (done state)} {n = next_field sc lossy item state}
        {n' = next_field sc lossy item' state} empty (Agree-refl k (return (done state)))
        (Agree-rest {Q = Unit} k (Onward-peek_uint sc u16)
          λ next. Agree-first k (padded sc lossy) (field_or_index-agrees state next))

  type_data_with-agrees :
      (leaf : ℕ)
      → Onward (Unit {0}) item 1
      → Agree k (type_data_with sc lossy item leaf) (type_data_with sc lossy item' leaf)
  unfolding field_list_leaf
  type_data_with-agrees leaf moves =
      Agree-if k (leaf == lf_fieldlist)
        (Agree-first k _ (
          repeat-agrees k (field_round sc lossy item) (field_round sc lossy item') (no_fields, none)
            field_round-agrees (TurnOf-field_round sc lossy item moves)))
        (Agree-refl k _)

module _ (sc : Scroll) (lossy : List ℕ → List ℕ) where
  -- On a valid buffer, the recursion of `parse_type_data` for the fields of a list never comes to a bound that is
  -- above the number of bytes that are left: with any two such bounds, and with any errors or a panic to stand for
  -- the calls beyond them, the result and the buffer after it are the same.
  pub parse_type_data_within-fuel :
      (cut cut' : Cut) (fuel fuel' : ℕ) (b : ParseBuffer)
      → IsValid b
      → left_in b < fuel
      → left_in b < fuel'
      → parse_type_data_within sc lossy cut fuel b ≡ parse_type_data_within sc lossy cut' fuel' b
  unfolding parse_type_data_within
  parse_type_data_within-fuel cut cut' zero fuel' b v h h' = absurd (omega arith)
  parse_type_data_within-fuel cut cut' (suc fuel) zero b v h h' = absurd (omega arith)
  parse_type_data_within-fuel cut cut' (suc fuel) (suc fuel') b v h h' =
      let inner = parse_type_data_within sc lossy cut fuel in
      let inner' = parse_type_data_within sc lossy cut' fuel' in
      and_then-agrees (Unit {0}) b (parse_uint sc u16 b) 2 (type_data_with sc lossy inner)
        (type_data_with sc lossy inner') v ((Forward-Onward (Forward-parse_uint sc u16)).onward b v)
        (λ leaf after v' less.
          (type_data_with-agrees sc lossy (left_in after) inner inner'
              (record {
                agrees = λ b'' v'' le.
                    parse_type_data_within-fuel cut cut' fuel fuel' b'' v'' (omega arith)
                      (omega arith);
              })
              leaf (Onward-parse_type_data_within sc lossy cut fuel)).agrees
            after v' (omega arith))

  -- On a valid buffer, a record whose leaf can be read and is neither a pointer, a shape of a table, a table
  -- nor a list of fields is parsed without a panic, whatever its other bytes are.
  pub parse_type_data-never-panics :
      (b after : ParseBuffer) (leaf : ℕ)
      → IsValid b
      → parse_u16 sc b ≡ (ok leaf, after)
      → leaf ≢ lf_fieldlist
      → arm (panicking_arms sc lossy) leaf ≡ none
      → (parse_type_data sc lossy b).0 ≢ panic
  unfolding parse_type_data parse_type_data_within
  parse_type_data-never-panics b after leaf v reads other missing =
      let moved =
        subst (OnwardAt ⊥ 2 b) reads ((Forward-Onward (Forward-parse_uint sc u16)).onward b v) in
      let simple =
        Onward-simple_leaf {Q = ⊥} sc lossy leaf
          (rw missing (Onward-fail (unimplemented_type_kind leaf) 0)) in
      rw (reads, not_list)
        (never after _ (simple.onward after (moved-IsValid b after v moved.0 moved.2)))
    where
      not_list : (leaf == lf_fieldlist) ≡ false
      not_list = elim (Bool-cases (leaf == lf_fieldlist)) [
        | inl same ↦ absurd (other ((==_iff leaf lf_fieldlist).0 same))
        | inr differs ↦ differs
      ]

      never : (b : ParseBuffer) (r : Result TypeData × ParseBuffer) → OnwardAt ⊥ 0 b r → r.0 ≢ panic
      never b (ok t, last) h e = cc
      never b (err error, last) h e = cc
      never b (panic, last) h e = h
