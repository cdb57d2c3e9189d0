-- ===== src/Types/Records/Written.antt =====
-- src/tpi/data.rs: the fields of a list as they are written, and the rules for reading them.
use pdb.Prelude.{
  ℕ, suc, ◌^◌, ◌<◌, ◌≡◌, refl, ap, List, ◌∷◌, ◌++◌, true, false, Option, none, some, le_bytes,
  arith, ltb,
}
use pdb.Errors.{ok}
use pdb.Scroll.{Scroll, u16, u32}
use pdb.Buffer.State.{ParseBuffer, Parser, ◌>>=◌, return}
use pdb.Buffer.Text.{IsText}
use pdb.Buffer.Padded.{Yields-parse_cstring}
use pdb.Buffer.Yields.{Leaves, Yields, Yields-bind}
use pdb.Buffer.Fields.{Yields-field}
use pdb.Numeric.{parse_variant, parse_unsigned}
use pdb.Numeric.RoundTrip.{
  IsVariant, variant_bytes, unsigned_bytes, parse_variant-variant_bytes,
  parse_unsigned-unsigned_bytes,
}
use pdb.Types.Records.Attributes.{is_intro_virtual}
use pdb.Types.Records.Shapes.{
  ClassKind, class, structure, interface, TypeData, member, overloaded_method, method,
  static_member, nested, base_class, virtual_function_table_pointer, enumerate, primitive,
  class_type, member_function, virtual_base_class, virtual_function_table, virtual_table_shape,
  procedure, pointer, modifier, enumeration, array, union, alias, bitfield, field_list,
  argument_list, method_list,
}
use pdb.Types.Records.Parts.{parse_string, parse_name}
use pdb.Types.Records.Leaves.{as_u32}
use pdb.Types.Records.Members.{vtable_offset_of, base_class_leaf}
use pdb.Types.Records.Lists.{Cut, parse_type_data_within}

abbrev pub text_bytes : List ℕ → List ℕ → List ℕ
text_bytes name rest = name ++ (0 ∷ rest)

-- The offset of a method that introduces a virtual one.
abbrev pub offset_bytes : Option ℕ → List ℕ → List ℕ
offset_bytes none rest = rest
offset_bytes (some offset) rest = le_bytes 4 offset ++ rest

abbrev pub base_leaf : ClassKind → ℕ
base_leaf interface = 0x151a
base_leaf _ = 0x1400

-- A field of a class or of an enumeration.
abbrev pub field_bytes : TypeData → List ℕ → List ℕ
field_bytes (member t) rest =
    le_bytes 2 0x150d
    ++ (le_bytes 2 t.attributes
        ++ (le_bytes 4 t.field_type ++ unsigned_bytes t.offset (text_bytes t.name rest)))
field_bytes (enumerate t) rest =
    le_bytes 2 0x1502 ++ (le_bytes 2 t.attributes ++ variant_bytes t.value (text_bytes t.name rest))
field_bytes (static_member t) rest =
    le_bytes 2 0x150e
    ++ (le_bytes 2 t.attributes ++ (le_bytes 4 t.field_type ++ text_bytes t.name rest))
field_bytes (nested t) rest =
    le_bytes 2 0x1512
    ++ (le_bytes 2 t.attributes ++ (le_bytes 4 t.nested_type ++ text_bytes t.name rest))
field_bytes (overloaded_method t) rest =
    le_bytes 2 0x150f
    ++ (le_bytes 2 t.count ++ (le_bytes 4 t.method_list ++ text_bytes t.name rest))
field_bytes (method t) rest =
    le_bytes 2 0x1511
    ++ (le_bytes 2 t.attributes
        ++ (le_bytes 4 t.method_type ++ offset_bytes t.vtable_offset (text_bytes t.name rest)))
field_bytes (base_class t) rest =
    le_bytes 2 (base_leaf t.kind)
    ++ (le_bytes 2 t.attributes ++ (le_bytes 4 t.base_class ++ unsigned_bytes t.offset rest))
field_bytes (virtual_function_table_pointer t) rest =
    le_bytes 2 0x1409 ++ (le_bytes 2 0 ++ (le_bytes 4 t.table ++ rest))
field_bytes _ rest = rest

abbrev IsIndex : ℕ → Type 0
IsIndex n = n < 2 ^ 32

abbrev IsShort : ℕ → Type 0
IsShort n = n < 2 ^ 16

-- There is an offset exactly if the attributes say so.
abbrev IsOffset : ℕ → Option ℕ → Type 0
IsOffset attributes none = is_intro_virtual attributes ≡ false
IsOffset attributes (some offset) = (is_intro_virtual attributes ≡ true) × IsIndex offset

abbrev pub IsBase : ClassKind → Type 0
IsBase structure = ⊥
IsBase _ = Unit

-- A field that can be written: its numbers fit, and no name has a null byte.
abbrev pub IsField : TypeData → Type 0
IsField (member t) =
    IsShort t.attributes × IsIndex t.field_type × (t.offset < 2 ^ 64) × IsText t.name
IsField (enumerate t) = IsShort t.attributes × IsVariant t.value × IsText t.name
IsField (static_member t) = IsShort t.attributes × IsIndex t.field_type × IsText t.name
IsField (nested t) = IsShort t.attributes × IsIndex t.nested_type × IsText t.name
IsField (overloaded_method t) = IsShort t.count × IsIndex t.method_list × IsText t.name
IsField (method t) =
    IsShort t.attributes
    × IsIndex t.method_type
    × IsOffset t.attributes t.vtable_offset
    × IsText t.name
IsField (base_class t) =
    IsBase t.kind × IsShort t.attributes × IsIndex t.base_class × IsIndex t.offset
IsField (virtual_function_table_pointer t) = IsIndex t.table
IsField _ = ⊥

-- What a field is read back as: its name is made text.
abbrev pub as_read : (List ℕ → List ℕ) → TypeData → TypeData
as_read lossy (member t) = member (record t { name = lossy t.name })
as_read lossy (enumerate t) = enumerate (record t { name = lossy t.name })
as_read lossy (static_member t) = static_member (record t { name = lossy t.name })
as_read lossy (nested t) = nested (record t { name = lossy t.name })
as_read lossy (overloaded_method t) = overloaded_method (record t { name = lossy t.name })
as_read lossy (method t) = method (record t { name = lossy t.name })
as_read lossy t = t

module _ (sc : Scroll) where
  -- The last part of a leaf.
  pub Yields-last :
      {A B : Type 0} (m : Parser A) (f : A → B) (b : ParseBuffer) (a : A) (rest : List ℕ)
      → Yields m b a rest
      → Yields (m >>= λ a. return (f a)) b (f a) rest
  Yields-last m f b a rest y =
      Yields-bind m (λ a. return (f a)) b a rest (f a) rest y λ b' l. (b', refl, l)

  pub Yields-parse_string :
      (leaf : ℕ) (b : ParseBuffer) (name rest : List ℕ)
      → ltb 0x1500 leaf ≡ true
      → IsText name
      → Leaves b (text_bytes name rest)
      → Yields (parse_string sc leaf) b name rest
  unfolding parse_string
  Yields-parse_string leaf b name rest modern text l =
      rw modern (Yields-parse_cstring b name rest text l)

module _ (sc : Scroll) (lossy : List ℕ → List ℕ) where
  Yields-parse_name :
      (leaf : ℕ) (b : ParseBuffer) (name rest : List ℕ)
      → ltb 0x1500 leaf ≡ true
      → IsText name
      → Leaves b (text_bytes name rest)
      → Yields (parse_name sc lossy leaf) b (lossy name) rest
  unfolding parse_name
  Yields-parse_name leaf b name rest modern text l =
      Yields-bind (parse_string sc leaf) (λ raw. return (lossy raw)) b name rest (lossy name) rest
        (Yields-parse_string sc leaf b name rest modern text l) λ b' l'. (b', refl, l')

  Yields-vtable_offset :
      (b : ParseBuffer) (attributes : ℕ) (offset : Option ℕ) (rest : List ℕ)
      → IsOffset attributes offset
      → Leaves b (offset_bytes offset rest)
      → Yields (vtable_offset_of sc lossy attributes) b offset rest
  Yields-vtable_offset b attributes none rest h l = rw h (b, refl, l)
  Yields-vtable_offset b attributes (some offset) rest h l = rw h.0 (
      Yields-field sc u32 b offset _ rest (some offset) rest (omega (arith, h.1)) l
        λ b1 l1. (b1, refl, l1))

  Yields-base_fields :
      (b : ParseBuffer) (kind : ClassKind) (attributes base offset : ℕ) (rest : List ℕ)
      → IsShort attributes
      → IsIndex base
      → IsIndex offset
      → Leaves b (le_bytes 2 attributes ++ (le_bytes 4 base ++ unsigned_bytes offset rest))
      → Yields
          (base_class_leaf sc lossy kind)
          b
          (base_class
            (record { kind = kind; attributes = attributes; base_class = base; offset = offset }))
          rest
  Yields-base_fields b kind attributes base offset rest h1 h2 h3 l =
      Yields-field sc u16 b attributes _ _ _ rest (omega (arith, h1)) l λ b1 l1.
        Yields-field sc u32 b1 base _ _ _ rest (omega (arith, h2)) l1 λ b2 l2.
          Yields-bind (parse_unsigned sc) _ b2 offset rest _ rest
            (parse_unsigned-unsigned_bytes sc b2 offset rest (omega (arith, h3)) l2)
            λ b3 l3. (b3, ap (λ (n : ℕ). (ok (of_offset n), b3)) (cut h3), l3)
    where
      of_offset : ℕ → TypeData
      of_offset n =
          base_class
            (record { kind = kind; attributes = attributes; base_class = base; offset = n })

      cut : IsIndex offset → as_u32 offset ≡ offset
      cut h = omega (arith, h)

  -- A base class, whose offset is cut to 32 bits.
  Yields-base_class :
      (cut : Cut) (fuel : ℕ) (b : ParseBuffer) (kind : ClassKind) (attributes base offset : ℕ)
      (rest : List ℕ)
      → IsBase kind
      → IsShort attributes
      → IsIndex base
      → IsIndex offset
      → Leaves b (
          le_bytes 2 (base_leaf kind)
          ++ (le_bytes 2 attributes ++ (le_bytes 4 base ++ unsigned_bytes offset rest)))
      → Yields
          (parse_type_data_within sc lossy cut (suc fuel))
          b
          (base_class
            (record { kind = kind; attributes = attributes; base_class = base; offset = offset }))
          rest
  unfolding parse_type_data_within
  Yields-base_class cut fuel b structure attributes base offset rest h h1 h2 h3 l = absurd h
  Yields-base_class cut fuel b class attributes base offset rest h h1 h2 h3 l =
      Yields-field sc u16 b 0x1400 _ _ _ rest (omega arith) l
        λ b1 l1. Yields-base_fields b1 class attributes base offset rest h1 h2 h3 l1
  Yields-base_class cut fuel b interface attributes base offset rest h h1 h2 h3 l =
      Yields-field sc u16 b 0x151a _ _ _ rest (omega arith) l
        λ b1 l1. Yields-base_fields b1 interface attributes base offset rest h1 h2 h3 l1

  -- A field that is written in front of other bytes is read back.
  pub Yields-field_bytes :
      (cut : Cut) (fuel : ℕ) (b : ParseBuffer) (t : TypeData) (rest : List ℕ)
      → IsField t
      → Leaves b (field_bytes t rest)
      → Yields (parse_type_data_within sc lossy cut (suc fuel)) b (as_read lossy t) rest
  unfolding parse_type_data_within
  Yields-field_bytes cut fuel b (member t) rest (h1, h2, h3, h4) l =
      Yields-field sc u16 b 0x150d _ _ (as_read lossy (member t)) rest (omega arith) l λ b1 l1.
        Yields-field sc u16 b1 t.attributes _ _ (as_read lossy (member t)) rest (omega (arith, h1))
          l1
          λ b2 l2.
            Yields-field sc u32 b2 t.field_type _ _ (as_read lossy (member t)) rest
              (omega (arith, h2)) l2
              λ b3 l3.
                Yields-bind (parse_unsigned sc) _ b3 t.offset _ (as_read lossy (member t)) rest
                  (parse_unsigned-unsigned_bytes sc b3 t.offset _ h3 l3)
                  λ b4 l4.
                    Yields-last sc (parse_name sc lossy 0x150d) _ b4 (lossy t.name) rest
                      (Yields-parse_name 0x150d b4 t.name rest refl h4 l4)
  Yields-field_bytes cut fuel b (enumerate t) rest (h1, h2, h3) l =
      Yields-field sc u16 b 0x1502 _ _ (as_read lossy (enumerate t)) rest (omega arith) l λ b1 l1.
        Yields-field sc u16 b1 t.attributes _ _ (as_read lossy (enumerate t)) rest
          (omega (arith, h1)) l1
          λ b2 l2.
            Yields-bind (parse_variant sc) _ b2 t.value _ (as_read lossy (enumerate t)) rest
              (parse_variant-variant_bytes sc b2 t.value _ h2 l2)
              λ b3 l3.
                Yields-last sc (parse_name sc lossy 0x1502) _ b3 (lossy t.name) rest
                  (Yields-parse_name 0x1502 b3 t.name rest refl h3 l3)
  Yields-field_bytes cut fuel b (static_member t) rest (h1, h2, h3) l =
      Yields-field sc u16 b 0x150e _ _ (as_read lossy (static_member t)) rest (omega arith) l
        λ b1 l1.
          Yields-field sc u16 b1 t.attributes _ _ (as_read lossy (static_member t)) rest
            (omega (arith, h1)) l1
            λ b2 l2.
              Yields-field sc u32 b2 t.field_type _ _ (as_read lossy (static_member t)) rest
                (omega (arith, h2)) l2
                λ b3 l3.
                  Yields-last sc (parse_name sc lossy 0x150e) _ b3 (lossy t.name) rest
                    (Yields-parse_name 0x150e b3 t.name rest refl h3 l3)
  Yields-field_bytes cut fuel b (nested t) rest (h1, h2, h3) l =
      Yields-field sc u16 b 0x1512 _ _ (as_read lossy (nested t)) rest (omega arith) l λ b1 l1.
        Yields-field sc u16 b1 t.attributes _ _ (as_read lossy (nested t)) rest (omega (arith, h1))
          l1
          λ b2 l2.
            Yields-field sc u32 b2 t.nested_type _ _ (as_read lossy (nested t)) rest
              (omega (arith, h2)) l2
              λ b3 l3.
                Yields-last sc (parse_name sc lossy 0x1512) _ b3 (lossy t.name) rest
                  (Yields-parse_name 0x1512 b3 t.name rest refl h3 l3)
  Yields-field_bytes cut fuel b (overloaded_method t) rest (h1, h2, h3) l =
      Yields-field sc u16 b 0x150f _ _ (as_read lossy (overloaded_method t)) rest (omega arith) l
        λ b1 l1.
          Yields-field sc u16 b1 t.count _ _ (as_read lossy (overloaded_method t)) rest
            (omega (arith, h1)) l1
            λ b2 l2.
              Yields-field sc u32 b2 t.method_list _ _ (as_read lossy (overloaded_method t)) rest
                (omega (arith, h2)) l2
                λ b3 l3.
                  Yields-last sc (parse_name sc lossy 0x150f) _ b3 (lossy t.name) rest
                    (Yields-parse_name 0x150f b3 t.name rest refl h3 l3)
  Yields-field_bytes cut fuel b (method t) rest (h1, h2, h3, h4) l =
      Yields-field sc u16 b 0x1511 _ _ (as_read lossy (method t)) rest (omega arith) l λ b1 l1.
        Yields-field sc u16 b1 t.attributes _ _ (as_read lossy (method t)) rest (omega (arith, h1))
          l1
          λ b2 l2.
            Yields-field sc u32 b2 t.method_type _ _ (as_read lossy (method t)) rest
              (omega (arith, h2)) l2
              λ b3 l3.
                Yields-bind (vtable_offset_of sc lossy t.attributes) _ b3 t.vtable_offset _
                  (as_read lossy (method t)) rest
                  (Yields-vtable_offset b3 t.attributes t.vtable_offset _ h3 l3)
                  λ b4 l4.
                    Yields-last sc (parse_name sc lossy 0x1511) _ b4 (lossy t.name) rest
                      (Yields-parse_name 0x1511 b4 t.name rest refl h4 l4)
  Yields-field_bytes cut fuel b (virtual_function_table_pointer t) rest h l =
      Yields-field sc u16 b 0x1409 _ _ (virtual_function_table_pointer t) rest (omega arith) l
        λ b1 l1.
          Yields-field sc u16 b1 0 _ _ (virtual_function_table_pointer t) rest (omega arith) l1
            λ b2 l2.
              Yields-field sc u32 b2 t.table _ _ (virtual_function_table_pointer t) rest
                (omega (arith, h)) l2 λ b3 l3. (b3, refl, l3)
  Yields-field_bytes cut fuel b (base_class t) rest (h1, h2, h3, h4) l =
      Yields-base_class cut fuel b t.kind t.attributes t.base_class t.offset rest h1 h2 h3 h4 l
  Yields-field_bytes cut fuel b (primitive _) rest h l = absurd h
  Yields-field_bytes cut fuel b (class_type _) rest h l = absurd h
  Yields-field_bytes cut fuel b (member_function _) rest h l = absurd h
  Yields-field_bytes cut fuel b (virtual_base_class _) rest h l = absurd h
  Yields-field_bytes cut fuel b (virtual_function_table _) rest h l = absurd h
  Yields-field_bytes cut fuel b (virtual_table_shape _) rest h l = absurd h
  Yields-field_bytes cut fuel b (procedure _) rest h l = absurd h
  Yields-field_bytes cut fuel b (pointer _) rest h l = absurd h
  Yields-field_bytes cut fuel b (modifier _) rest h l = absurd h
  Yields-field_bytes cut fuel b (enumeration _) rest h l = absurd h
  Yields-field_bytes cut fuel b (array _) rest h l = absurd h
  Yields-field_bytes cut fuel b (union _) rest h l = absurd h
  Yields-field_bytes cut fuel b (alias _) rest h l = absurd h
  Yields-field_bytes cut fuel b (bitfield _) rest h l = absurd h
  Yields-field_bytes cut fuel b (argument_list _) rest h l = absurd h
  Yields-field_bytes cut fuel b (method_list _) rest h l = absurd h
  Yields-field_bytes cut fuel b (field_list _ _) rest h l = absurd h
