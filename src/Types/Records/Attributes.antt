-- ===== src/Types/Records/Attributes.antt =====
-- src/tpi/data.rs: the bits of properties and attributes.
use pdb.Prelude.{
  ℕ, ◌/◌, ◌^◌, List, [], ◌∷◌, Bool, true, false, not, ◌||◌, Option, none, some, bit_and, ◌==◌,
  if◌then◌else◌,
}
use pdb.Prelude.Arms.{arm}
use pdb.Errors.{Result, ok, panic}
use pdb.Errors

-- `self.0 & mask != 0`.
abbrev pub has : ℕ → ℕ → Bool
has mask bits = not (bit_and bits mask == 0)

-- `TypeProperties`, 16 bits.
abbrev pub packed : ℕ → Bool
packed = has 0x0001

abbrev pub constructors : ℕ → Bool
constructors = has 0x0002

abbrev pub overloaded_operators : ℕ → Bool
overloaded_operators = has 0x0004

abbrev pub is_nested_type : ℕ → Bool
is_nested_type = has 0x0008

abbrev pub contains_nested_types : ℕ → Bool
contains_nested_types = has 0x0010

abbrev pub overloaded_assignment : ℕ → Bool
overloaded_assignment = has 0x0020

abbrev pub overloaded_casting : ℕ → Bool
overloaded_casting = has 0x0040

abbrev pub forward_reference : ℕ → Bool
forward_reference = has 0x0080

abbrev pub scoped_definition : ℕ → Bool
scoped_definition = has 0x0100

abbrev pub has_unique_name : ℕ → Bool
has_unique_name = has 0x0200

abbrev pub is_sealed : ℕ → Bool
is_sealed = has 0x0400

abbrev pub intrinsic_type : ℕ → Bool
intrinsic_type = has 0x1000

abbrev pub hfa : ℕ → ℕ
hfa properties = bit_and properties 0x1800 / 2 ^ 11

abbrev pub mocom : ℕ → ℕ
mocom properties = bit_and properties 0x6000 / 2 ^ 14

-- `FieldAttributes`, 16 bits.
abbrev pub access : ℕ → ℕ
access attributes = bit_and attributes 0x0003

abbrev pub method_properties : ℕ → ℕ
method_properties attributes = bit_and attributes 0x001c / 2 ^ 2

abbrev pub is_static : ℕ → Bool
is_static attributes = method_properties attributes == 0x02

abbrev pub is_virtual : ℕ → Bool
is_virtual attributes = method_properties attributes == 0x01

abbrev pub is_pure_virtual : ℕ → Bool
is_pure_virtual attributes = method_properties attributes == 0x05

abbrev pub is_intro_virtual : ℕ → Bool
is_intro_virtual attributes =
    (method_properties attributes == 0x04) || (method_properties attributes == 0x06)

abbrev pub is_pseudo : ℕ → Bool
is_pseudo = has 0x0020

abbrev pub noinherit : ℕ → Bool
noinherit = has 0x0040

abbrev pub noconstruct : ℕ → Bool
noconstruct = has 0x0080

abbrev pub is_compgenx : ℕ → Bool
is_compgenx = has 0x0100

abbrev pub field_sealed : ℕ → Bool
field_sealed = has 0x0200

-- `FunctionAttributes`, 16 bits.
abbrev pub calling_convention : ℕ → ℕ
calling_convention attributes = bit_and attributes 0xff

abbrev pub cxx_return_udt : ℕ → Bool
cxx_return_udt = has 0x0100

abbrev pub is_constructor : ℕ → Bool
is_constructor = has 0x0200

abbrev pub is_constructor_with_virtual_bases : ℕ → Bool
is_constructor_with_virtual_bases = has 0x0400

pub data PointerKind : Type 0 where
  near16 far16 huge16 base_seg base_val base_seg_val base_addr base_seg_addr : PointerKind
  base_type base_self near32 far32 ptr64 : PointerKind

pub data PointerMode : Type 0 where
  pointer lvalue_reference member member_function rvalue_reference : PointerMode

-- An arm, or `unreachable!()`.
abbrev pub reachable : {A : Type 0} → Option A → Result A
reachable none = panic
reachable (some a) = ok a

-- `PointerAttributes`, 32 bits.
unfoldable pub pointer_kind : ℕ → Result PointerKind
pointer_kind attributes = reachable (
    arm
      ((0x00, near16)
        ∷ (0x01, far16)
        ∷ (0x02, huge16)
        ∷ (0x03, base_seg)
        ∷ (0x04, base_val)
        ∷ (0x05, base_seg_val)
        ∷ (0x06, base_addr)
        ∷ (0x07, base_seg_addr)
        ∷ (0x08, base_type)
        ∷ (0x09, base_self)
        ∷ (0x0a, near32)
        ∷ (0x0b, far32)
        ∷ (0x0c, ptr64)
        ∷ [])
      (bit_and attributes 0x1f))

abbrev pub pointer_modes : List (ℕ × PointerMode)
pointer_modes =
    (0x00, pointer)
    ∷ (0x01, lvalue_reference)
    ∷ (0x02, member)
    ∷ (0x03, member_function)
    ∷ (0x04, rvalue_reference)
    ∷ []

unfoldable pub pointer_mode : ℕ → Result PointerMode
pointer_mode attributes = reachable (arm pointer_modes (bit_and (attributes / 2 ^ 5) 0x7))

abbrev pub is_member : PointerMode → Bool
is_member member = true
is_member member_function = true
is_member _ = false

unfoldable pub pointer_to_member : ℕ → Result Bool
pointer_to_member attributes = Errors.◌>>=◌ (pointer_mode attributes) (λ mode. ok (is_member mode))

abbrev pub is_reference_mode : PointerMode → Bool
is_reference_mode lvalue_reference = true
is_reference_mode rvalue_reference = true
is_reference_mode _ = false

unfoldable pub is_reference : ℕ → Result Bool
is_reference attributes =
    Errors.◌>>=◌ (pointer_mode attributes) (λ mode. ok (is_reference_mode mode))

-- The size of a kind of pointer whose size is not stored.
abbrev pub kind_size : PointerKind → ℕ
kind_size near32 = 4
kind_size far32 = 4
kind_size ptr64 = 8
kind_size _ = 0

unfoldable pub pointer_size : ℕ → Result ℕ
pointer_size attributes =
    let stored = bit_and (attributes / 2 ^ 13) 0x3f in
    if stored == 0
    then Errors.◌>>=◌ (pointer_kind attributes) (λ kind. ok (kind_size kind))
    else ok stored

abbrev pub is_flat_32 : ℕ → Bool
is_flat_32 = has 0x100

abbrev pub is_volatile : ℕ → Bool
is_volatile = has 0x200

abbrev pub is_const : ℕ → Bool
is_const = has 0x400

abbrev pub is_unaligned : ℕ → Bool
is_unaligned = has 0x800

abbrev pub is_restrict : ℕ → Bool
is_restrict = has 0x1000

abbrev pub is_mocom : ℕ → Bool
is_mocom = has 0x40000

pub data VirtualTableShapeDescriptor : Type 0 where
  near far thin outer meta near32 far32 unused : VirtualTableShapeDescriptor

-- `from_u4`.
unfoldable pub from_u4 : ℕ → Result VirtualTableShapeDescriptor
from_u4 val = reachable (
    arm
      ((0x00, near)
        ∷ (0x01, far)
        ∷ (0x02, thin)
        ∷ (0x03, outer)
        ∷ (0x04, meta)
        ∷ (0x05, VirtualTableShapeDescriptor.near32)
        ∷ (0x06, VirtualTableShapeDescriptor.far32)
        ∷ (0x07, unused)
        ∷ [])
      val)
