-- ===== src/Types/Records/RoundTrip.antt =====
-- src/tpi/data.rs: a list of fields as it is written, and the rounds that read it.
use pdb.Prelude.{
  ℕ, zero, suc, ◌^◌, ◌%◌, ◌<◌, ◌≡◌, refl, sym, ap, ◌∙◌, List, [], ◌∷◌, ◌++◌, length, false, Option,
  none, some, le_bytes, length-le_bytes, arith, ◌==◌, All,
}
use mathlib.Core.Path.{subst}
use pdb.Errors.{ok}
use pdb.Scroll.{Scroll, u16, u32}
use pdb.Buffer.State.{ParseBuffer, Parser, ◌>>=◌, return}
use pdb.Buffer.Yields.{Leaves, Yields, Yields-bind, Leaves-length}
use pdb.Buffer.Fields.{Yields-field}
use pdb.Buffer.Laid.{is_empty-Leaves-nil, is_empty-Leaves-cons}
use pdb.Buffer.Repeat.{again, done, repeat_within, repeat}
use pdb.Buffer.Turns.{left_in, TurnOf-left_in}
use pdb.Types.Records.Shapes.{
  TypeData, Fields, no_fields, with_field, push_field, field_list, member, enumerate, static_member,
  nested, overloaded_method, method, base_class, virtual_function_table_pointer, ClassKind,
  structure, class, interface, primitive, class_type, member_function, virtual_base_class,
  virtual_function_table, virtual_table_shape, procedure, pointer, modifier, enumeration, array,
  union, alias, bitfield, argument_list, method_list,
}
use pdb.Numeric.RoundTrip.{unsigned_bytes}
use pdb.Types.Records.Written.{as_read, field_bytes, base_leaf, IsBase, IsField, Yields-field_bytes}
use pdb.Types.Records.Padding.{
  padding_bytes, IsStart, parse_padding-padding_bytes, repeat_within-again, repeat_within-done,
  peek_uint-Leaves,
}
use pdb.Types.Records.Parts.{parse_padding}
use pdb.Types.Records.Lists.{
  FieldState, lf_fieldlist, lf_index, continue_at, field_or_index, padded, field_round,
  field_list_leaf, parse_type_data_within, parse_type_data,
}
use pdb.Types.Records.Moves.Whole.{TurnOf-field_round, Onward-parse_type_data_within}

-- The fields, each with the amount of the padding behind it, and the index at which they go on.
abbrev pub fields_bytes : List (TypeData × ℕ) → Option ℕ → List ℕ
fields_bytes [] none = []
fields_bytes [] (some index) = le_bytes 2 lf_index ++ (le_bytes 2 0 ++ (le_bytes 4 index ++ []))
fields_bytes ((field, padding) ∷ fields) continuation =
    field_bytes field (padding_bytes padding ++ fields_bytes fields continuation)

abbrev pub fields_of : (List ℕ → List ℕ) → List (TypeData × ℕ) → Fields
fields_of lossy [] = no_fields
fields_of lossy ((field, padding) ∷ fields) =
    with_field (as_read lossy field) (fields_of lossy fields)

abbrev pub IsPadded : TypeData × ℕ → Type 0
IsPadded (field, padding) = IsField field × (padding < 16)

abbrev pub IsContinuation : Option ℕ → Type 0
IsContinuation none = Unit
IsContinuation (some index) = index < 2 ^ 32

-- The fields in front, and those behind them.
abbrev join : Fields → Fields → Fields
join no_fields fields = fields
join (with_field first rest) fields = with_field first (join rest fields)

join-push_field :
    (before : Fields) (field : TypeData) (rest : Fields)
    → join (push_field before field) rest ≡ join before (with_field field rest)
join-push_field no_fields field rest = refl
join-push_field (with_field first before) field rest =
    ap (with_field first) (join-push_field before field rest)

join-no_fields : (fields : Fields) → join fields no_fields ≡ fields
join-no_fields no_fields = refl
join-no_fields (with_field first rest) = ap (with_field first) (join-no_fields rest)

-- The leaf in front of a field is not that of a continuation, and does not begin like padding.
abbrev IsLeaf : ℕ → Type 0
IsLeaf leaf = (leaf < 2 ^ 16) × ((leaf == lf_index) ≡ false) × (leaf % 256 < 0xf0)

abbrev Leading : List ℕ → Type 0
Leading bytes = (leaf : ℕ) × (tail : List ℕ) × (bytes ≡ le_bytes 2 leaf ++ tail) × IsLeaf leaf

leading : (t : TypeData) (rest : List ℕ) → IsField t → Leading (field_bytes t rest)
leading (member t) rest h = (0x150d, _, refl, (omega arith, refl, omega arith))
leading (enumerate t) rest h = (0x1502, _, refl, (omega arith, refl, omega arith))
leading (static_member t) rest h = (0x150e, _, refl, (omega arith, refl, omega arith))
leading (nested t) rest h = (0x1512, _, refl, (omega arith, refl, omega arith))
leading (overloaded_method t) rest h = (0x150f, _, refl, (omega arith, refl, omega arith))
leading (method t) rest h = (0x1511, _, refl, (omega arith, refl, omega arith))
leading (virtual_function_table_pointer t) rest h =
    (0x1409, _, refl, (omega arith, refl, omega arith))
leading (base_class t) rest h = base t.kind h.0
  where
    base :
        (kind : ClassKind)
        → IsBase kind
        → Leading (
            le_bytes 2 (base_leaf kind)
            ++ (le_bytes 2 t.attributes
                ++ (le_bytes 4 t.base_class ++ unsigned_bytes t.offset rest)))
    base structure h = absurd h
    base class h = (0x1400, _, refl, (omega arith, refl, omega arith))
    base interface h = (0x151a, _, refl, (omega arith, refl, omega arith))
leading (primitive _) rest h = absurd h
leading (class_type _) rest h = absurd h
leading (member_function _) rest h = absurd h
leading (virtual_base_class _) rest h = absurd h
leading (virtual_function_table _) rest h = absurd h
leading (virtual_table_shape _) rest h = absurd h
leading (procedure _) rest h = absurd h
leading (pointer _) rest h = absurd h
leading (modifier _) rest h = absurd h
leading (enumeration _) rest h = absurd h
leading (array _) rest h = absurd h
leading (union _) rest h = absurd h
leading (alias _) rest h = absurd h
leading (bitfield _) rest h = absurd h
leading (argument_list _) rest h = absurd h
leading (method_list _) rest h = absurd h
leading (field_list _ _) rest h = absurd h

IsStart-fields_bytes :
    (fields : List (TypeData × ℕ)) (continuation : Option ℕ)
    → All IsPadded fields
    → IsStart (fields_bytes fields continuation)
IsStart-fields_bytes [] none h = tt
IsStart-fields_bytes [] (some index) h = omega arith
IsStart-fields_bytes ((field, padding) ∷ fields) continuation ((is, small), hs) =
    let (leaf, tail, same, (small, differs, start)) =
      leading field (padding_bytes padding ++ fields_bytes fields continuation) is in
    subst IsStart (sym same) start

module _ (sc : Scroll) (lossy : List ℕ → List ℕ) (fuel : ℕ) where
  abbrev item : Parser TypeData
  item = parse_type_data_within sc lossy none (suc fuel)

  -- Any round in front of bytes that are left.
  round_of :
      (state : FieldState) (b : ParseBuffer) (leaf : ℕ) (rest : List ℕ)
      → leaf < 2 ^ 16
      → Leaves b (le_bytes 2 leaf ++ rest)
      → field_round sc lossy item state b
        ≡ (field_or_index sc lossy item state leaf >>= padded sc lossy) b
  round_of state b leaf rest small l =
      rw
        (
          is_empty-Leaves-cons b (le_bytes 2 leaf ++ rest) (omega arith) l,
          peek_uint-Leaves sc u16 b leaf rest (omega (arith, small)) l,
        )
        refl

  -- A field, and the padding behind it.
  field_round-field :
      (before : Fields) (continuation : Option ℕ) (b : ParseBuffer) (field : TypeData) (padding : ℕ)
      (rest : List ℕ)
      → IsField field
      → padding < 16
      → IsStart rest
      → Leaves b (field_bytes field (padding_bytes padding ++ rest))
      → Yields
          (field_round sc lossy item (before, continuation))
          b
          (again (push_field before (as_read lossy field), continuation))
          rest
  field_round-field before continuation b field padding rest is small start l =
      let (leaf, tail, same, (fits, differs, begins)) =
        leading field (padding_bytes padding ++ rest) is in
      let (after, runs, l') =
        Yields-bind (item >>= λ field. return (push_field before field, continuation))
          (padded sc lossy) b (push_field before (as_read lossy field), continuation)
          (padding_bytes padding ++ rest)
          (again (push_field before (as_read lossy field), continuation)) rest
          (Yields-bind item (λ field. return (push_field before field, continuation)) b
            (as_read lossy field) (padding_bytes padding ++ rest)
            (push_field before (as_read lossy field), continuation) (padding_bytes padding ++ rest)
            (Yields-field_bytes sc lossy none fuel b field (padding_bytes padding ++ rest) is l)
            λ b1 l1. (b1, refl, l1))
          λ b2 l2.
            Yields-bind (parse_padding sc) _ b2 tt rest _ rest
              (parse_padding-padding_bytes sc b2 padding rest small start l2)
              λ b3 l3. (b3, refl, l3) in
      (
        after,
        round_of (before, continuation) b leaf tail fits (subst (Leaves b) same l)
            ∙ rw differs runs,
        l',
      )

  -- The continuation.
  field_round-index :
      (before : Fields) (continuation : Option ℕ) (b : ParseBuffer) (index : ℕ)
      → index < 2 ^ 32
      → Leaves b (fields_bytes [] (some index))
      → Yields (field_round sc lossy item (before, continuation)) b (again (before, some index)) []
  field_round-index before continuation b index small l =
      let (after, runs, l') =
        Yields-bind (continue_at sc lossy before) (padded sc lossy) b (before, some index) []
          (again (before, some index)) []
          (Yields-field sc u16 b lf_index _ _ _ [] (omega arith) l λ b1 l1.
            Yields-field sc u16 b1 0 _ _ _ [] (omega arith) l1 λ b2 l2.
              Yields-field sc u32 b2 index _ _ _ [] (omega (arith, small)) l2
                λ b3 l3. (b3, refl, l3))
          λ b4 l4.
            Yields-bind (parse_padding sc) _ b4 tt [] _ []
              (parse_padding-padding_bytes sc b4 0 [] (omega arith) tt l4)
              λ b5 l5. (b5, refl, l5) in
      (after, round_of (before, continuation) b lf_index _ (omega arith) l ∙ runs, l')

  field_round-empty :
      (state : FieldState) (b : ParseBuffer)
      → Leaves b []
      → field_round sc lossy item state b ≡ (ok (done state), b)
  field_round-empty state b l = rw (is_empty-Leaves-nil b l) refl

  fewer :
      (state state' : FieldState) (b b' : ParseBuffer) (rest : List ℕ)
      → Leaves b rest
      → field_round sc lossy item state b ≡ (ok (again state'), b')
      → left_in b' < left_in b
  fewer state state' b b' rest l e =
      TurnOf-left_in b b' state'
        (TurnOf-field_round sc lossy item (Onward-parse_type_data_within sc lossy none (suc fuel))
          state)
        l.valid e

  repeat_fields :
      (fields : List (TypeData × ℕ)) (continuation : Option ℕ) (turns : ℕ) (before : Fields)
      (b : ParseBuffer)
      → All IsPadded fields
      → IsContinuation continuation
      → Leaves b (fields_bytes fields continuation)
      → left_in b < turns
      → Yields
          (repeat_within (field_round sc lossy item) turns (before, none))
          b
          (join before (fields_of lossy fields), continuation)
          []
  repeat_fields fields continuation zero before b hs h l enough = absurd (omega arith)
  repeat_fields [] none (suc turns) before b hs h l enough = rw (join-no_fields before) (
      repeat_within-done (field_round sc lossy item) turns (before, none) b (before, none) []
        (field_round-empty (before, none) b l) l)
  repeat_fields [] (some index) (suc zero) before b hs h l enough =
      let (b1, runs, l1) = field_round-index before none b index h l in
      absurd (omega (arith, fewer (before, none) (before, some index) b b1 _ l runs))
  repeat_fields [] (some index) (suc (suc turns)) before b hs h l enough =
      let (b1, runs, l1) = field_round-index before none b index h l in
      rw (join-no_fields before) (
        repeat_within-again (field_round sc lossy item) (suc turns) (before, none)
          (before, some index) b b1 (before, some index) [] runs
          (repeat_within-done (field_round sc lossy item) turns (before, some index) b1
            (before, some index) [] (field_round-empty (before, some index) b1 l1) l1))
  repeat_fields ((field, padding) ∷ fields) continuation (suc turns) before b ((is, small), hs) h l
        enough =
      let (b1, runs, l1) =
        field_round-field before none b field padding (fields_bytes fields continuation) is small
          (IsStart-fields_bytes fields continuation hs) l in
      rw⁻¹ (join-push_field before (as_read lossy field) (fields_of lossy fields)) (
        repeat_within-again (field_round sc lossy item) turns (before, none)
          (push_field before (as_read lossy field), none) b b1
          (join (push_field before (as_read lossy field)) (fields_of lossy fields), continuation) []
          runs
          (repeat_fields fields continuation turns (push_field before (as_read lossy field)) b1 hs h
            l1
            (omega (
              arith,
              fewer (before, none) (push_field before (as_read lossy field), none) b b1 _ l runs,
            ))))

-- A list of fields, that is of members, static members, enumerates, nested types, methods, overloaded
-- methods, base classes and pointers to tables, in any order, each with any padding of less than 16 bytes
-- behind it, and with or without the index of a list in which it goes on, is read back by `parse_type_data`
-- as those fields, with their names made text by `lossy`, in their order and that index, to the end of the
-- buffer. The numbers of the fields fit
-- their sizes, no name has a null byte, a base class is a class or an interface, and a method has an offset
-- in the table exactly if its attributes say that it introduces a virtual one.
pub parse_type_data-fields_bytes :
    (sc : Scroll) (lossy : List ℕ → List ℕ) (b : ParseBuffer) (fields : List (TypeData × ℕ))
    (continuation : Option ℕ)
    → All IsPadded fields
    → IsContinuation continuation
    → Leaves b (le_bytes 2 lf_fieldlist ++ fields_bytes fields continuation)
    → Yields (parse_type_data sc lossy) b (field_list (fields_of lossy fields) continuation) []
unfolding parse_type_data parse_type_data_within field_list_leaf repeat
parse_type_data-fields_bytes sc lossy b fields continuation hs h l =
    let (fuel, enough) = pred_of (length b.bytes) (
      omega
        (arith, Leaves-length b (le_bytes 2 lf_fieldlist) _ l, length-le_bytes 2 lf_fieldlist)) in
    rw enough (
      Yields-field sc u16 b lf_fieldlist _ (fields_bytes fields continuation) _ [] (omega arith) l
        λ b1 l1.
          Yields-bind (repeat (field_round sc lossy (item sc lossy fuel)) (no_fields, none)) _ b1
            (fields_of lossy fields, continuation) [] _ []
            (repeat_fields sc lossy fuel fields continuation (suc (length b1.bytes)) no_fields b1 hs
              h l1 (omega arith))
            λ b2 l2. (b2, refl, l2))
  where
    pred_of : (n : ℕ) → 0 < n → (m : ℕ) × (n ≡ suc m)
    pred_of zero h = absurd (omega (arith, h))
    pred_of (suc m) h = (m, refl)
