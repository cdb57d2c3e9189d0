-- ===== src/Types/Records/Members.antt =====
-- src/tpi/data.rs: `parse_type_data`, the arms of the fields of classes and enumerations, behind the number of their leaf.
use pdb.Prelude.{List, ℕ, Bool, Option, none, some, if◌then◌else◌}
use pdb.Scroll.{Scroll}
use pdb.Buffer.State.{Parser, ◌>>=◌, return, parse_u16, parse_u32}
use pdb.Numeric.{parse_variant, parse_unsigned}
use pdb.Types.Records.Attributes.{is_intro_virtual}
use pdb.Types.Records.Parts.{parse_name}
use pdb.Types.Records.Shapes.{
  ClassKind, TypeData, member, overloaded_method, method, static_member, nested, base_class,
  virtual_base_class, virtual_function_table_pointer, enumerate,
}
use pdb.Types.Records.Leaves.{as_u32}

module _ (sc : Scroll) (lossy : List ℕ → List ℕ) where
  abbrev pub member_leaf : ℕ → Parser TypeData
  member_leaf leaf = do
    attributes ← parse_u16 sc
    field_type ← parse_u32 sc
    offset ← parse_unsigned sc
    name ← parse_name sc lossy leaf
    return (
        member (record {
          attributes = attributes;
          field_type = field_type;
          offset = offset;
          name = name;
        }))

  -- Only the kinds with `EX` have attributes in front, the others padding.
  abbrev pub nested_leaf : Bool → ℕ → Parser TypeData
  nested_leaf extended leaf = do
    raw ← parse_u16 sc
    nested_type ← parse_u32 sc
    name ← parse_name sc lossy leaf
    return (
        nested (record {
          attributes = if extended then raw else 0;
          nested_type = nested_type;
          name = name;
        }))

  abbrev pub overloaded_method_leaf : ℕ → Parser TypeData
  overloaded_method_leaf leaf = do
    count ← parse_u16 sc
    methods ← parse_u32 sc
    name ← parse_name sc lossy leaf
    return (overloaded_method (record { count = count; method_list = methods; name = name }))

  -- An offset in the table is there only for a method that introduces a virtual one.
  abbrev pub vtable_offset_of : ℕ → Parser (Option ℕ)
  vtable_offset_of attributes =
      if is_intro_virtual attributes
      then (parse_u32 sc >>= λ offset. return (some offset))
      else return none

  abbrev pub method_leaf : ℕ → Parser TypeData
  method_leaf leaf = do
    attributes ← parse_u16 sc
    method_type ← parse_u32 sc
    vtable_offset ← vtable_offset_of attributes
    name ← parse_name sc lossy leaf
    return (
        method (record {
          attributes = attributes;
          method_type = method_type;
          vtable_offset = vtable_offset;
          name = name;
        }))

  abbrev pub base_class_leaf : ClassKind → Parser TypeData
  base_class_leaf kind = do
    attributes ← parse_u16 sc
    base ← parse_u32 sc
    offset ← parse_unsigned sc
    return (
        base_class (record {
          kind = kind;
          attributes = attributes;
          base_class = base;
          offset = as_u32 offset;
        }))

  abbrev pub vfunctab_leaf : Parser TypeData
  vfunctab_leaf = do
    padding ← parse_u16 sc
    table ← parse_u32 sc
    return (virtual_function_table_pointer (record { table = table }))

  abbrev pub static_member_leaf : ℕ → Parser TypeData
  static_member_leaf leaf = do
    attributes ← parse_u16 sc
    field_type ← parse_u32 sc
    name ← parse_name sc lossy leaf
    return
        (static_member (record { attributes = attributes; field_type = field_type; name = name }))

  abbrev pub enumerate_leaf : ℕ → Parser TypeData
  enumerate_leaf leaf = do
    attributes ← parse_u16 sc
    value ← parse_variant sc
    name ← parse_name sc lossy leaf
    return (enumerate (record { attributes = attributes; value = value; name = name }))

  abbrev pub virtual_base_class_leaf : Bool → Parser TypeData
  virtual_base_class_leaf direct = do
    attributes ← parse_u16 sc
    base ← parse_u32 sc
    base_pointer ← parse_u32 sc
    base_pointer_offset ← parse_unsigned sc
    virtual_base_offset ← parse_unsigned sc
    return (
        virtual_base_class (record {
          direct = direct;
          attributes = attributes;
          base_class = base;
          base_pointer = base_pointer;
          base_pointer_offset = as_u32 base_pointer_offset;
          virtual_base_offset = as_u32 virtual_base_offset;
        }))
