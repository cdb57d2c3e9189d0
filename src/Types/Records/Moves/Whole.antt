-- ===== src/Types/Records/Moves/Whole.antt =====
-- src/tpi/data.rs: `parse_type_data` as a whole: how far it moves.
use pdb.Prelude.{
  ℕ, zero, suc, ◌+◌, ◌/◌, ◌^◌, List, [], length, inl, inr, none, some, Option-cases, bit_and, ltb,
  ◌==◌,
}
use pdb.Prelude.Arms.{arm, arm-All}
use pdb.Errors.{Result, unimplemented_type_kind}
use pdb.Scroll.{Scroll, u8, u16, u32}
use pdb.Buffer.State.{Parser, return}
use pdb.Buffer.Advance.{Forward-parse_cstring}
use pdb.Buffer.Repeat.{again}
use pdb.Buffer.Onward.{
  Onward, Forward-Onward, Onward-bind, Onward-return, Onward-fail, Onward-if, Onward-still,
  Onward-peek_uint, Onward-field, Onward-next,
}
use pdb.Buffer.Turns.{TurnOf, TurnOf-Onward, TurnOf-done, TurnOf-bind, TurnOf-if, Onward-repeat}
use pdb.Types.Records.Attributes.{VirtualTableShapeDescriptor, from_u4, pointer_to_member}
use pdb.Types.Records.Shapes.{TypeData, no_fields, field_list}
use pdb.Types.Records.Leaves.{computed, pointer_leaf}
use pdb.Types.Records.Loops.{
  vtshape_leaf, vftable_leaf, name_round, descriptor_round, parse_descriptors,
}
use pdb.Types.Records.Lists.{
  Cut, FieldState, lf_fieldlist, lf_index, leaf_arms, panicking_arms, known, simple_leaf,
  field_or_index, field_round, field_list_leaf, parse_type_data_within,
}
use pdb.Types.Records.Moves.{Onward-at_end, Onward-unsigned, Onward-parse_padding}
use pdb.Types.Records.Moves.Arms.{leaf_arms_move}

module _ {Q : Type 0} (sc : Scroll) (lossy : List ℕ → List ℕ) where
  Onward-field_or_index :
      (item : Parser TypeData) (state : FieldState) (next : ℕ)
      → Onward Q item 1
      → Onward Q (field_or_index sc lossy item state next) 1
  Onward-field_or_index item state next f =
      Onward-if (next == lf_index)
        (Onward-field sc u16
          λ leaf. Onward-next sc u16 λ padding. Onward-next sc u32 λ index. Onward-return _)
        (Onward-bind f λ field. Onward-return _)

  pub TurnOf-field_round :
      (item : Parser TypeData)
      → Onward Q item 1
      → (state : FieldState) → TurnOf Q (field_round sc lossy item state)
  TurnOf-field_round item f state = TurnOf-bind Onward-at_end λ empty.
      TurnOf-if empty (TurnOf-done state) (
        TurnOf-bind (Onward-peek_uint sc u16) λ next. TurnOf-Onward (
          Onward-bind (Onward-field_or_index item state next f)
            λ more. Onward-bind (Onward-parse_padding sc) λ skipped. Onward-return (again more)))

  Onward-field_list_leaf :
      (item : Parser TypeData) → Onward Q item 1 → Onward Q (field_list_leaf sc lossy item) 0
  unfolding field_list_leaf
  Onward-field_list_leaf item f =
      Onward-bind
        (Onward-repeat (field_round sc lossy item) (no_fields, none) (TurnOf-field_round item f))
        listed
    where
      listed : (state : FieldState) → Onward Q (return (field_list state.0 state.1)) 0
      listed state = Onward-return (field_list state.0 state.1)

  -- A leaf that is known and cannot panic, or none at all.
  pub Onward-simple_leaf :
      (leaf : ℕ)
      → Onward Q (known sc lossy leaf (arm (panicking_arms sc lossy) leaf)) 0
      → Onward Q (simple_leaf sc lossy leaf (arm (leaf_arms sc lossy) leaf)) 0
  Onward-simple_leaf leaf other = elim (Option-cases (arm (leaf_arms sc lossy) leaf)) [
    | inl missing ↦ rw missing other
    | inr (read, taken) ↦ rw taken (
        arm-All (λ number read. (leaf : ℕ) → Onward Q (read leaf) 0) (leaf_arms sc lossy) leaf read
          (leaf_arms_move sc lossy) taken leaf)
  ]

module _ (sc : Scroll) (lossy : List ℕ → List ℕ) where
  abbrev Moves : {A : Type 0} → Parser A → ℕ → Type 0
  Moves m n = Onward (Unit {0}) m n

  Onward-computed : {A : Type 0} (r : Result A) → Moves (computed r) 0
  Onward-computed r = Onward-still (λ b. r) (λ b e. tt)

  Onward-pointer_leaf : Moves (pointer_leaf sc lossy) 0
  Onward-pointer_leaf = Onward-next sc u32 λ underlying_type. Onward-next sc u32 λ attributes.
      Onward-bind (Onward-computed (pointer_to_member attributes)) λ to_member.
        Onward-bind
          (Onward-if to_member (Onward-next sc u32 λ owner. Onward-return (some owner))
            (Onward-return none))
          λ containing. Onward-return _

  Onward-parse_descriptors :
      (rounds count : ℕ) (ds : List VirtualTableShapeDescriptor)
      → Moves (parse_descriptors sc lossy rounds count ds) 0
  unfolding parse_descriptors
  Onward-parse_descriptors zero count ds = Onward-return ds
  Onward-parse_descriptors (suc rounds) count ds =
      Onward-bind round (λ more. Onward-parse_descriptors rounds count more)
    where
      round : Moves (descriptor_round sc lossy count ds) 0
      round = Onward-next sc u8 λ desc.
          Onward-bind (Onward-computed (from_u4 (bit_and desc 0xf))) λ low.
            Onward-if (ltb (length ds + 1) count)
              (Onward-bind (Onward-computed (from_u4 (desc / 2 ^ 4))) λ high. Onward-return _)
              (Onward-return _)

  Onward-vtshape_leaf : Moves (vtshape_leaf sc lossy) 0
  Onward-vtshape_leaf = Onward-next sc u16 λ count.
      Onward-bind (Onward-parse_descriptors ((count + 1) / 2) count []) λ ds. Onward-return _

  TurnOf-name_round :
      (names_length : ℕ) (s : ℕ × List (List ℕ))
      → TurnOf (Unit {0}) (name_round sc lossy names_length s)
  TurnOf-name_round names_length (taken, names) =
      TurnOf-if (ltb taken names_length)
        (TurnOf-Onward (Onward-bind (Forward-Onward Forward-parse_cstring) λ s. Onward-return _))
        (TurnOf-if (taken == names_length) (TurnOf-done names) (record { turn = λ b v. tt }))

  Onward-vftable_leaf : Moves (vftable_leaf sc lossy) 0
  unfolding vftable_leaf
  Onward-vftable_leaf = Onward-next sc u32 λ owner. Onward-next sc u32 λ base.
      Onward-unsigned sc λ object_offset. Onward-unsigned sc λ names_length.
        Onward-bind
          (Onward-repeat (name_round sc lossy names_length) (0, [])
            (TurnOf-name_round names_length))
          λ names. Onward-return _

  Onward-known : (leaf : ℕ) → Moves (known sc lossy leaf (arm (panicking_arms sc lossy) leaf)) 0
  Onward-known leaf = elim (Option-cases (arm (panicking_arms sc lossy) leaf)) [
    | inl missing ↦ rw missing (Onward-fail (unimplemented_type_kind leaf) 0)
    | inr (read, taken) ↦ rw taken (
        arm-All (λ number read. (leaf : ℕ) → Moves (read leaf) 0) (panicking_arms sc lossy) leaf
          read
          (
            λ leaf. Onward-pointer_leaf,
            (λ leaf. Onward-vtshape_leaf, (λ leaf. Onward-vftable_leaf, tt)),
          )
          taken leaf)
  ]

  pub Onward-parse_type_data_within :
      (cut : Cut) (fuel : ℕ) → Moves (parse_type_data_within sc lossy cut fuel) 1
  unfolding parse_type_data_within
  Onward-parse_type_data_within none zero = record { onward = λ b v. tt }
  Onward-parse_type_data_within (some e) zero = record { onward = λ b v. tt }
  Onward-parse_type_data_within cut (suc fuel) = Onward-field sc u16 λ leaf.
      Onward-if (leaf == lf_fieldlist)
        (Onward-field_list_leaf sc lossy (parse_type_data_within sc lossy cut fuel)
          (Onward-parse_type_data_within cut fuel))
        (Onward-simple_leaf sc lossy leaf (Onward-known leaf))
