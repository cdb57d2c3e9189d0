-- ===== src/Types/Records/Leaves.antt =====
-- src/tpi/data.rs: `parse_type_data`, the arms of types, behind the number of their leaf.
use pdb.Prelude.{List, ℕ, ◌%◌, ◌^◌, Bool, Option, none, some, if◌then◌else◌}
use pdb.Errors.{Result}
use pdb.Scroll.{Scroll}
use pdb.Buffer.State.{Parser, ◌>>=◌, return, parse_u8, parse_u16, parse_u32}
use pdb.Numeric.{parse_unsigned}
use pdb.Types.Records.Attributes.{has, pointer_to_member}
use pdb.Types.Records.Parts.{parse_optional_type_index, parse_name, parse_unique_name}
use pdb.Types.Records.Shapes.{
  ClassKind, TypeData, class_type, member_function, procedure, pointer, modifier, enumeration,
  union, alias, bitfield,
}

-- A value, or the panic of the code that computes it.
abbrev pub computed : {A : Type 0} → Result A → Parser A
computed result b = (result, b)

-- `as u32`.
abbrev pub as_u32 : ℕ → ℕ
as_u32 n = n % 2 ^ 32

module _ (sc : Scroll) (lossy : List ℕ → List ℕ) where
  abbrev pub class_leaf : ClassKind → ℕ → Parser TypeData
  class_leaf kind leaf = do
    count ← parse_u16 sc
    properties ← parse_u16 sc
    fields ← parse_optional_type_index sc
    derived_from ← parse_optional_type_index sc
    vtable_shape ← parse_optional_type_index sc
    size ← parse_unsigned sc
    name ← parse_name sc lossy leaf
    unique_name ← parse_unique_name sc lossy leaf properties
    return (
        class_type (record {
          kind = kind;
          count = count;
          properties = properties;
          fields = fields;
          derived_from = derived_from;
          vtable_shape = vtable_shape;
          size = size;
          name = name;
          unique_name = unique_name;
        }))

  abbrev pub class2_leaf : ClassKind → ℕ → Parser TypeData
  class2_leaf kind leaf = do
    properties ← parse_u32 sc
    fields ← parse_optional_type_index sc
    derived_from ← parse_optional_type_index sc
    vtable_shape ← parse_optional_type_index sc
    count ← parse_u16 sc
    size ← parse_unsigned sc
    name ← parse_name sc lossy leaf
    unique_name ← parse_unique_name sc lossy leaf (properties % 2 ^ 16)
    return (
        class_type (record {
          kind = kind;
          count = count;
          properties = properties % 2 ^ 16;
          fields = fields;
          derived_from = derived_from;
          vtable_shape = vtable_shape;
          size = size;
          name = name;
          unique_name = unique_name;
        }))

  abbrev pub member_function_leaf : Parser TypeData
  member_function_leaf = do
    return_type ← parse_u32 sc
    owner ← parse_u32 sc
    this_pointer_type ← parse_optional_type_index sc
    attributes ← parse_u16 sc
    parameter_count ← parse_u16 sc
    arguments ← parse_u32 sc
    this_adjustment ← parse_u32 sc
    return (
        member_function (record {
          return_type = return_type;
          class_type = owner;
          this_pointer_type = this_pointer_type;
          attributes = attributes;
          parameter_count = parameter_count;
          argument_list = arguments;
          this_adjustment = this_adjustment;
        }))

  -- The class of a pointer to a member.
  abbrev pub containing_class_if : Bool → Parser (Option ℕ)
  containing_class_if to_member =
      if to_member then (parse_u32 sc >>= λ owner. return (some owner)) else return none

  abbrev pub pointer_leaf : Parser TypeData
  pointer_leaf = do
    underlying_type ← parse_u32 sc
    attributes ← parse_u32 sc
    to_member ← computed (pointer_to_member attributes)
    containing_class ← containing_class_if to_member
    return (
        pointer (record {
          underlying_type = underlying_type;
          attributes = attributes;
          containing_class = containing_class;
        }))

  abbrev pub procedure_leaf : Parser TypeData
  procedure_leaf = do
    return_type ← parse_optional_type_index sc
    attributes ← parse_u16 sc
    parameter_count ← parse_u16 sc
    arguments ← parse_u32 sc
    return (
        procedure (record {
          return_type = return_type;
          attributes = attributes;
          parameter_count = parameter_count;
          argument_list = arguments;
        }))

  abbrev pub modifier_leaf : Parser TypeData
  modifier_leaf = do
    underlying_type ← parse_u32 sc
    flags ← parse_u16 sc
    return (
        modifier (record {
          underlying_type = underlying_type;
          constant = has 0x01 flags;
          volatile = has 0x02 flags;
          unaligned = has 0x04 flags;
        }))

  abbrev pub enumeration_leaf : ℕ → Parser TypeData
  enumeration_leaf leaf = do
    count ← parse_u16 sc
    properties ← parse_u16 sc
    underlying_type ← parse_u32 sc
    fields ← parse_u32 sc
    name ← parse_name sc lossy leaf
    unique_name ← parse_unique_name sc lossy leaf properties
    return (
        enumeration (record {
          count = count;
          properties = properties;
          underlying_type = underlying_type;
          fields = fields;
          name = name;
          unique_name = unique_name;
        }))

  abbrev pub union_leaf : ℕ → Parser TypeData
  union_leaf leaf = do
    count ← parse_u16 sc
    properties ← parse_u16 sc
    fields ← parse_u32 sc
    size ← parse_unsigned sc
    name ← parse_name sc lossy leaf
    unique_name ← parse_unique_name sc lossy leaf properties
    return (
        union (record {
          count = count;
          properties = properties;
          fields = fields;
          size = size;
          name = name;
          unique_name = unique_name;
        }))

  abbrev pub union2_leaf : ℕ → Parser TypeData
  union2_leaf leaf = do
    properties ← parse_u32 sc
    fields ← parse_u32 sc
    count ← parse_u16 sc
    size ← parse_unsigned sc
    name ← parse_name sc lossy leaf
    unique_name ← parse_unique_name sc lossy leaf (properties % 2 ^ 16)
    return (
        union (record {
          count = count;
          properties = properties % 2 ^ 16;
          fields = fields;
          size = size;
          name = name;
          unique_name = unique_name;
        }))

  abbrev pub alias_leaf : ℕ → Parser TypeData
  alias_leaf leaf = do
    underlying_type ← parse_u32 sc
    name ← parse_name sc lossy leaf
    return (alias (record { underlying_type = underlying_type; name = name }))

  abbrev pub bitfield_leaf : Parser TypeData
  bitfield_leaf = do
    underlying_type ← parse_u32 sc
    bits ← parse_u8 sc
    position ← parse_u8 sc
    return
        (bitfield (record { underlying_type = underlying_type; bits = bits; position = position }))
