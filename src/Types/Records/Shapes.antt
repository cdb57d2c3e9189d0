-- ===== src/Types/Records/Shapes.antt =====
-- src/tpi/data.rs: the structures of types. Names are kept as bytes.
use pdb.Prelude.{ℕ, List, Bool, Option, none, some}
use pdb.Types.Primitive.{PrimitiveType}
use pdb.Numeric.{Variant}
use pdb.Types.Records.Attributes.{VirtualTableShapeDescriptor}

pub data ClassKind : Type 0 where
  class structure interface : ClassKind

pub record ClassType : Type 0 where
  pub kind : ClassKind
  pub count : ℕ
  pub properties : ℕ
  pub fields : Option ℕ
  pub derived_from : Option ℕ
  pub vtable_shape : Option ℕ
  pub size : ℕ
  pub name : List ℕ
  pub unique_name : Option (List ℕ)

pub record MemberType : Type 0 where
  pub attributes : ℕ
  pub field_type : ℕ
  pub offset : ℕ
  pub name : List ℕ

pub record MemberFunctionType : Type 0 where
  pub return_type : ℕ
  pub class_type : ℕ
  pub this_pointer_type : Option ℕ
  pub attributes : ℕ
  pub parameter_count : ℕ
  pub argument_list : ℕ
  pub this_adjustment : ℕ

pub record OverloadedMethodType : Type 0 where
  pub count : ℕ
  pub method_list : ℕ
  pub name : List ℕ

pub record MethodType : Type 0 where
  pub attributes : ℕ
  pub method_type : ℕ
  pub vtable_offset : Option ℕ
  pub name : List ℕ

pub record StaticMemberType : Type 0 where
  pub attributes : ℕ
  pub field_type : ℕ
  pub name : List ℕ

pub record NestedType : Type 0 where
  pub attributes : ℕ
  pub nested_type : ℕ
  pub name : List ℕ

pub record BaseClassType : Type 0 where
  pub kind : ClassKind
  pub attributes : ℕ
  pub base_class : ℕ
  pub offset : ℕ

pub record VirtualBaseClassType : Type 0 where
  pub direct : Bool
  pub attributes : ℕ
  pub base_class : ℕ
  pub base_pointer : ℕ
  pub base_pointer_offset : ℕ
  pub virtual_base_offset : ℕ

pub record VirtualFunctionTablePointerType : Type 0 where
  pub table : ℕ

pub record VirtualTableShapeType : Type 0 where
  pub descriptors : List VirtualTableShapeDescriptor

pub record VirtualFunctionTableType : Type 0 where
  pub owner : ℕ
  pub base : ℕ
  pub object_offset : ℕ
  pub names : List (List ℕ)

pub record ProcedureType : Type 0 where
  pub return_type : Option ℕ
  pub attributes : ℕ
  pub parameter_count : ℕ
  pub argument_list : ℕ

pub record PointerType : Type 0 where
  pub underlying_type : ℕ
  pub attributes : ℕ
  pub containing_class : Option ℕ

pub record ModifierType : Type 0 where
  pub underlying_type : ℕ
  pub constant : Bool
  pub volatile : Bool
  pub unaligned : Bool

pub record EnumerationType : Type 0 where
  pub count : ℕ
  pub properties : ℕ
  pub underlying_type : ℕ
  pub fields : ℕ
  pub name : List ℕ
  pub unique_name : Option (List ℕ)

pub record EnumerateType : Type 0 where
  pub attributes : ℕ
  pub value : Variant
  pub name : List ℕ

pub record ArrayType : Type 0 where
  pub element_type : ℕ
  pub indexing_type : ℕ
  pub stride : Option ℕ
  pub dimensions : List ℕ

pub record UnionType : Type 0 where
  pub count : ℕ
  pub properties : ℕ
  pub fields : ℕ
  pub size : ℕ
  pub name : List ℕ
  pub unique_name : Option (List ℕ)

pub record AliasType : Type 0 where
  pub underlying_type : ℕ
  pub name : List ℕ

pub record BitfieldType : Type 0 where
  pub underlying_type : ℕ
  pub bits : ℕ
  pub position : ℕ

pub record ArgumentList : Type 0 where
  pub arguments : List ℕ

pub record MethodListEntry : Type 0 where
  pub attributes : ℕ
  pub method_type : ℕ
  pub vtable_offset : Option ℕ

pub record MethodList : Type 0 where
  pub methods : List MethodListEntry

mutual
  -- `TypeData`. `field_list` has the fields and the continuation of `FieldList`.
  pub data TypeData : Type 0 where
    primitive : PrimitiveType → TypeData
    class_type : ClassType → TypeData
    member : MemberType → TypeData
    member_function : MemberFunctionType → TypeData
    overloaded_method : OverloadedMethodType → TypeData
    method : MethodType → TypeData
    static_member : StaticMemberType → TypeData
    nested : NestedType → TypeData
    base_class : BaseClassType → TypeData
    virtual_base_class : VirtualBaseClassType → TypeData
    virtual_function_table : VirtualFunctionTableType → TypeData
    virtual_table_shape : VirtualTableShapeType → TypeData
    virtual_function_table_pointer : VirtualFunctionTablePointerType → TypeData
    procedure : ProcedureType → TypeData
    pointer : PointerType → TypeData
    modifier : ModifierType → TypeData
    enumeration : EnumerationType → TypeData
    enumerate : EnumerateType → TypeData
    array : ArrayType → TypeData
    union : UnionType → TypeData
    alias : AliasType → TypeData
    bitfield : BitfieldType → TypeData
    field_list : Fields → Option ℕ → TypeData
    argument_list : ArgumentList → TypeData
    method_list : MethodList → TypeData

  -- `Vec<TypeData>`.
  pub data Fields : Type 0 where
    no_fields : Fields
    with_field : TypeData → Fields → Fields

-- `push`.
abbrev pub push_field : Fields → TypeData → Fields
push_field no_fields field = with_field field no_fields
push_field (with_field first rest) field = with_field first (push_field rest field)

-- `TypeData::name`.
unfoldable pub name_of : TypeData → Option (List ℕ)
name_of (class_type t) = some t.name
name_of (member t) = some t.name
name_of (overloaded_method t) = some t.name
name_of (static_member t) = some t.name
name_of (nested t) = some t.name
name_of (enumeration t) = some t.name
name_of (enumerate t) = some t.name
name_of (union t) = some t.name
name_of (alias t) = some t.name
name_of _ = none
