-- ===== src/Types/Records/Loops.antt =====
-- src/tpi/data.rs: `parse_type_data`, the arms with a loop of their own.
use pdb.Prelude.{
  ℕ, zero, suc, ◌+◌, ◌-◌, ◌/◌, ◌^◌, List, [], ◌∷◌, ◌++◌, length, Bool, Option, none, some, bit_and,
  ltb, ◌==◌, if◌then◌else◌,
}
use pdb.Errors.{panic, unimplemented_feature, unexpected_eof}
use pdb.Scroll.{Scroll, u8}
use pdb.Buffer.State.{
  Parser, ◌>>=◌, return, fail, peek_uint, parse_u8, parse_u16, parse_u32, parse_cstring,
}
use pdb.Buffer.Repeat.{Turn, again, done, repeat, repeat_times}
use pdb.Numeric.{parse_unsigned}
use pdb.Types.Records.Attributes.{from_u4, VirtualTableShapeDescriptor}
use pdb.Types.Records.Parts.{parse_padding, at_end}
use pdb.Types.Records.Leaves.{computed, as_u32}
use pdb.Types.Records.Members.{vtable_offset_of}
use pdb.Types.Records.Shapes.{
  TypeData, virtual_function_table, virtual_table_shape, array, argument_list, method_list,
  MethodListEntry,
}

module _ (sc : Scroll) (lossy : List ℕ → List ℕ) where
  -- What follows a dimension: the null byte behind the last one, or another one.
  abbrev pub after_dimension : List ℕ → ℕ → Parser (Turn (List ℕ) (List ℕ))
  after_dimension dimensions next =
      if next == 0
      then (parse_u8 sc >>= λ null. return (done dimensions))
      else return (again dimensions)

  abbrev pub dimension_round : List ℕ → Parser (Turn (List ℕ) (List ℕ))
  dimension_round dimensions = do
    dim ← parse_unsigned sc
    (if ltb (2 ^ 32 - 1) dim
        then fail (unimplemented_feature "u64 array sizes")
        else (at_end >>= λ empty.
            if empty
            then fail unexpected_eof
            else (peek_uint sc u8 >>= after_dimension (dimensions ++ (dim ∷ [])))))

  abbrev pub stride_if : Bool → Parser (Option ℕ)
  stride_if strided =
      if strided then (parse_u32 sc >>= λ stride. return (some stride)) else return none

  unfoldable pub array_leaf : Bool → Parser TypeData
  unfolding repeat
  array_leaf strided = do
    element_type ← parse_u32 sc
    indexing_type ← parse_u32 sc
    stride ← stride_if strided
    dimensions ← repeat dimension_round []
    skipped ← parse_padding sc
    return (
        array (record {
          element_type = element_type;
          indexing_type = indexing_type;
          stride = stride;
          dimensions = dimensions;
        }))

  -- The descriptors of a byte, whose high half is left out behind the last one.
  abbrev pub descriptor_round :
      ℕ → List VirtualTableShapeDescriptor → Parser (List VirtualTableShapeDescriptor)
  descriptor_round count descriptors = do
    desc ← parse_u8 sc
    low ← computed (from_u4 (bit_and desc 0xf))
    (if ltb (length descriptors + 1) count
        then (computed (from_u4 (desc / 2 ^ 4)) >>= λ high.
            return (descriptors ++ (low ∷ high ∷ [])))
        else return (descriptors ++ (low ∷ [])))

  unfoldable pub parse_descriptors :
      ℕ → ℕ → List VirtualTableShapeDescriptor → Parser (List VirtualTableShapeDescriptor)
  parse_descriptors zero count descriptors = return descriptors
  parse_descriptors (suc rounds) count descriptors =
      descriptor_round count descriptors >>= parse_descriptors rounds count

  abbrev pub vtshape_leaf : Parser TypeData
  vtshape_leaf = do
    count ← parse_u16 sc
    descriptors ← parse_descriptors ((count + 1) / 2) count []
    return (virtual_table_shape (record { descriptors = descriptors }))

  -- The state is the number of bytes that the names take so far, and the names.
  abbrev pub name_round : ℕ → ℕ × List (List ℕ) → Parser (Turn (ℕ × List (List ℕ)) (List (List ℕ)))
  name_round names_length (taken, names) =
      if ltb taken names_length
      then (parse_cstring >>= λ s. return (again (taken + (length s + 1), names ++ (lossy s ∷ []))))
      else if taken == names_length
      then return (done names)
      else computed panic

  unfoldable pub vftable_leaf : Parser TypeData
  unfolding repeat
  vftable_leaf = do
    owner ← parse_u32 sc
    base ← parse_u32 sc
    object_offset ← parse_unsigned sc
    names_length ← parse_unsigned sc
    names ← repeat (name_round names_length) (0, [])
    return (
        virtual_function_table (record {
          owner = owner;
          base = base;
          object_offset = as_u32 object_offset;
          names = names;
        }))

  unfoldable pub argument_list_leaf : Parser TypeData
  unfolding repeat_times
  argument_list_leaf = do
    count ← parse_u32 sc
    arguments ← repeat_times count (parse_u32 sc)
    return (argument_list (record { arguments = arguments }))

  abbrev pub method_entry : Parser MethodListEntry
  method_entry = do
    attributes ← parse_u16 sc
    padding ← parse_u16 sc
    method_type ← parse_u32 sc
    vtable_offset ← vtable_offset_of sc lossy attributes
    return (record {
      attributes = attributes;
      method_type = method_type;
      vtable_offset = vtable_offset;
    })

  abbrev pub method_round :
      List MethodListEntry → Parser (Turn (List MethodListEntry) (List MethodListEntry))
  method_round methods = do
    empty ← at_end
    (if empty
        then return (done methods)
        else (method_entry >>= λ entry. return (again (methods ++ (entry ∷ [])))))

  unfoldable pub method_list_leaf : Parser TypeData
  unfolding repeat
  method_list_leaf = do
    methods ← repeat method_round []
    return (method_list (record { methods = methods }))
