-- ===== src/Types/Records/Lists.antt =====
-- src/tpi/data.rs: `parse_type_data`, which calls itself for the fields of a list.
use pdb.Prelude.{
  ℕ, zero, suc, List, [], ◌∷◌, length, true, false, Option, none, some, ◌==◌, if◌then◌else◌,
}
use pdb.Prelude.Arms.{arm}
use pdb.Errors.{Result, err, Error, panic, unimplemented_type_kind}
use pdb.Scroll.{Scroll, u16}
use pdb.Buffer.State.{Parser, ◌>>=◌, return, fail, peek_uint, parse_u16, parse_u32}
use pdb.Buffer.Repeat.{Turn, again, done, repeat}
use pdb.Types.Records.Parts.{parse_padding, at_end}
use pdb.Types.Records.Shapes.{
  TypeData, Fields, no_fields, push_field, field_list, class, structure, interface,
}
use pdb.Types.Records.Leaves.{
  class_leaf, class2_leaf, member_function_leaf, pointer_leaf, procedure_leaf, modifier_leaf,
  enumeration_leaf, union_leaf, union2_leaf, alias_leaf, bitfield_leaf,
}
use pdb.Types.Records.Members.{
  member_leaf, nested_leaf, overloaded_method_leaf, method_leaf, base_class_leaf, vfunctab_leaf,
  static_member_leaf, enumerate_leaf, virtual_base_class_leaf,
}
use pdb.Types.Records.Loops.{
  array_leaf, vtshape_leaf, vftable_leaf, argument_list_leaf, method_list_leaf,
}

-- `LF_INDEX`.
abbrev pub lf_index : ℕ
lf_index = 0x1404

-- `LF_FIELDLIST`.
abbrev pub lf_fieldlist : ℕ
lf_fieldlist = 0x1203

-- How a recursion may be cut off: by an error, or by a panic.
abbrev pub Cut : Type 0
Cut = Option Error

abbrev pub cut_result : {A : Type 0} → Cut → Result A
cut_result none = panic
cut_result (some e) = err e

-- The fields so far, and where they go on.
abbrev pub FieldState : Type 0
FieldState = Fields × Option ℕ

module _ (sc : Scroll) (lossy : List ℕ → List ℕ) where
  -- The leaves that hold no other leaf, whose parsers take the leaf.
  abbrev pub leaf_arms : List (ℕ × (ℕ → Parser TypeData))
  leaf_arms =
      (0x1504, class_leaf sc lossy class)
      ∷ (0x1004, class_leaf sc lossy class)
      ∷ (0x1505, class_leaf sc lossy structure)
      ∷ (0x1005, class_leaf sc lossy structure)
      ∷ (0x1519, class_leaf sc lossy interface)
      ∷ (0x1608, class2_leaf sc lossy class)
      ∷ (0x1609, class2_leaf sc lossy structure)
      ∷ (0x160b, class2_leaf sc lossy interface)
      ∷ (0x150d, member_leaf sc lossy)
      ∷ (0x1405, member_leaf sc lossy)
      ∷ (0x1510, nested_leaf sc lossy false)
      ∷ (0x1408, nested_leaf sc lossy false)
      ∷ (0x1512, nested_leaf sc lossy true)
      ∷ (0x140d, nested_leaf sc lossy true)
      ∷ (0x1009, λ leaf. member_function_leaf sc lossy)
      ∷ (0x150f, overloaded_method_leaf sc lossy)
      ∷ (0x1407, overloaded_method_leaf sc lossy)
      ∷ (0x1511, method_leaf sc lossy)
      ∷ (0x140b, method_leaf sc lossy)
      ∷ (0x1400, λ leaf. base_class_leaf sc lossy class)
      ∷ (0x151a, λ leaf. base_class_leaf sc lossy interface)
      ∷ (0x1409, λ leaf. vfunctab_leaf sc lossy)
      ∷ (0x150e, static_member_leaf sc lossy)
      ∷ (0x1406, static_member_leaf sc lossy)
      ∷ (0x1008, λ leaf. procedure_leaf sc lossy)
      ∷ (0x1001, λ leaf. modifier_leaf sc lossy)
      ∷ (0x1507, enumeration_leaf sc lossy)
      ∷ (0x1007, enumeration_leaf sc lossy)
      ∷ (0x1502, enumerate_leaf sc lossy)
      ∷ (0x0403, enumerate_leaf sc lossy)
      ∷ (0x1503, λ leaf. array_leaf sc lossy false)
      ∷ (0x1003, λ leaf. array_leaf sc lossy false)
      ∷ (0x1516, λ leaf. array_leaf sc lossy true)
      ∷ (0x1506, union_leaf sc lossy)
      ∷ (0x1006, union_leaf sc lossy)
      ∷ (0x150a, alias_leaf sc lossy)
      ∷ (0x1010, alias_leaf sc lossy)
      ∷ (0x160a, union2_leaf sc lossy)
      ∷ (0x1205, λ leaf. bitfield_leaf sc lossy)
      ∷ (0x1401, λ leaf. virtual_base_class_leaf sc lossy true)
      ∷ (0x1402, λ leaf. virtual_base_class_leaf sc lossy false)
      ∷ (0x1201, λ leaf. argument_list_leaf sc lossy)
      ∷ (0x1206, λ leaf. method_list_leaf sc lossy)
      ∷ []

  -- The leaves whose arms can panic.
  abbrev pub panicking_arms : List (ℕ × (ℕ → Parser TypeData))
  panicking_arms =
      (0x1002, λ leaf. pointer_leaf sc lossy)
      ∷ (0x000a, λ leaf. vtshape_leaf sc lossy)
      ∷ (0x151d, λ leaf. vftable_leaf sc lossy)
      ∷ []

  -- The arm that is taken, or the last one.
  abbrev pub known : ℕ → Option (ℕ → Parser TypeData) → Parser TypeData
  known leaf none = fail (unimplemented_type_kind leaf)
  known leaf (some read) = read leaf

  abbrev pub simple_leaf : ℕ → Option (ℕ → Parser TypeData) → Parser TypeData
  simple_leaf leaf none = known leaf (arm panicking_arms leaf)
  simple_leaf leaf (some read) = read leaf

  -- `LF_INDEX`: the leaf, which was only peeked at, the padding, and the index.
  abbrev pub continue_at : Fields → Parser FieldState
  continue_at fields = do
    leaf ← parse_u16 sc
    padding ← parse_u16 sc
    index ← parse_u32 sc
    return (fields, some index)

  abbrev pub field_or_index : Parser TypeData → FieldState → ℕ → Parser FieldState
  field_or_index item (fields, continuation) next =
      if next == lf_index
      then continue_at fields
      else (item >>= λ field. return (push_field fields field, continuation))

  abbrev pub padded : FieldState → Parser (Turn FieldState FieldState)
  padded state = parse_padding sc >>= λ skipped. return (again state)

  abbrev pub next_field : Parser TypeData → FieldState → Parser (Turn FieldState FieldState)
  next_field item state = peek_uint sc u16 >>= λ next. field_or_index item state next >>= padded

  abbrev pub field_round : Parser TypeData → FieldState → Parser (Turn FieldState FieldState)
  field_round item state =
      at_end >>= λ empty. if empty then return (done state) else next_field item state

  unfoldable pub field_list_leaf : Parser TypeData → Parser TypeData
  unfolding repeat
  field_list_leaf item = do
    (fields, continuation) ← repeat (field_round item) (no_fields, none)
    return (field_list fields continuation)

  -- The match on the leaf, with the parser of the fields of a list.
  abbrev pub type_data_with : Parser TypeData → ℕ → Parser TypeData
  type_data_with item leaf =
      if leaf == lf_fieldlist then field_list_leaf item else simple_leaf leaf (arm leaf_arms leaf)

  -- `cut` says what stands for a call beyond the bound.
  unfoldable pub parse_type_data_within : Cut → ℕ → Parser TypeData
  parse_type_data_within cut zero b = (cut_result cut, b)
  parse_type_data_within cut (suc fuel) b =
      (parse_u16 sc >>= type_data_with (parse_type_data_within cut fuel)) b

  -- Each call reads its leaf, so that a call for each byte is fuel enough.
  unfoldable pub parse_type_data : Parser TypeData
  unfolding parse_type_data_within
  parse_type_data b = parse_type_data_within none (suc (length b.bytes)) b
