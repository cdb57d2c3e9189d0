-- ===== src/Types/Records/Moves/Arms.antt =====
-- src/tpi/data.rs: how far the leaves of `parse_type_data` move.
use pdb.Prelude.{
  ℕ, ◌-◌, ◌^◌, List, [], ◌∷◌, ◌++◌, Bool, true, false, Option, none, some, ltb, ◌==◌, All,
}
use pdb.Errors.{unimplemented_feature, unexpected_eof}
use pdb.Scroll.{Scroll, u8, u16, u32}
use pdb.Buffer.State.{Parser, ◌>>=◌}
use pdb.Buffer.Repeat.{again, done}
use pdb.Buffer.Onward.{
  Onward, Onward-bind, Onward-return, Onward-fail, Onward-if, Onward-peek_uint, Onward-field,
  Onward-next,
}
use pdb.Buffer.Turns.{
  TurnOf-Onward, TurnOf-done, TurnOf-bind, TurnOf-if, Onward-repeat, Onward-repeat_times, TurnOf,
}
use pdb.Types.Records.Attributes.{is_intro_virtual}
use pdb.Types.Records.Shapes.{ClassKind, class, structure, interface, MethodListEntry}
use pdb.Types.Records.Leaves.{
  class_leaf, class2_leaf, member_function_leaf, procedure_leaf, modifier_leaf, enumeration_leaf,
  union_leaf, union2_leaf, alias_leaf, bitfield_leaf,
}
use pdb.Types.Records.Members.{
  member_leaf, nested_leaf, overloaded_method_leaf, method_leaf, base_class_leaf, vfunctab_leaf,
  static_member_leaf, enumerate_leaf, virtual_base_class_leaf, vtable_offset_of,
}
use pdb.Types.Records.Loops.{
  after_dimension, dimension_round, array_leaf, argument_list_leaf, method_entry, method_round,
  method_list_leaf,
}
use pdb.Types.Records.Moves.{
  Onward-at_end, Onward-parse_uint, Onward-parse_unsigned, Onward-parse_padding, leaf_moves,
}
use pdb.Types.Records.Lists.{leaf_arms}

module _ {Q : Type 0} (sc : Scroll) (lossy : List ℕ → List ℕ) where
  Onward-class_leaf : (kind : ClassKind) (leaf : ℕ) → Onward Q (class_leaf sc lossy kind leaf) 0
  Onward-class_leaf kind leaf = search leaf_moves depth 12 parts 0

  Onward-class2_leaf : (kind : ClassKind) (leaf : ℕ) → Onward Q (class2_leaf sc lossy kind leaf) 0
  Onward-class2_leaf kind leaf = search leaf_moves depth 12 parts 0

  Onward-member_leaf : (leaf : ℕ) → Onward Q (member_leaf sc lossy leaf) 0
  Onward-member_leaf leaf = search leaf_moves depth 12 parts 0

  Onward-nested_leaf :
      (extended : Bool) (leaf : ℕ) → Onward Q (nested_leaf sc lossy extended leaf) 0
  Onward-nested_leaf extended leaf = search leaf_moves depth 12 parts 0

  Onward-member_function_leaf : Onward Q (member_function_leaf sc lossy) 0
  Onward-member_function_leaf = search leaf_moves depth 12 parts 0

  Onward-overloaded_method_leaf : (leaf : ℕ) → Onward Q (overloaded_method_leaf sc lossy leaf) 0
  Onward-overloaded_method_leaf leaf = search leaf_moves depth 12 parts 0

  Onward-vtable_offset :
      {B : Type 0} {k : Option ℕ → Parser B} (attributes : ℕ)
      → ((v : Option ℕ) → Onward Q (k v) 0)
      → Onward Q (vtable_offset_of sc lossy attributes >>= k) 0
  Onward-vtable_offset attributes further =
      Onward-bind
        (Onward-if (is_intro_virtual attributes)
          (Onward-next sc u32 λ offset. Onward-return (some offset)) (Onward-return none))
        further

  Onward-method_leaf : (leaf : ℕ) → Onward Q (method_leaf sc lossy leaf) 0
  Onward-method_leaf leaf = search (leaf_moves, Onward-vtable_offset) depth 12 parts 0

  Onward-base_class_leaf : (kind : ClassKind) → Onward Q (base_class_leaf sc lossy kind) 0
  Onward-base_class_leaf kind = search leaf_moves depth 12 parts 0

  Onward-vfunctab_leaf : Onward Q (vfunctab_leaf sc lossy) 0
  Onward-vfunctab_leaf = search leaf_moves depth 12 parts 0

  Onward-static_member_leaf : (leaf : ℕ) → Onward Q (static_member_leaf sc lossy leaf) 0
  Onward-static_member_leaf leaf = search leaf_moves depth 12 parts 0

  Onward-procedure_leaf : Onward Q (procedure_leaf sc lossy) 0
  Onward-procedure_leaf = search leaf_moves depth 12 parts 0

  Onward-modifier_leaf : Onward Q (modifier_leaf sc lossy) 0
  Onward-modifier_leaf = search leaf_moves depth 12 parts 0

  Onward-enumeration_leaf : (leaf : ℕ) → Onward Q (enumeration_leaf sc lossy leaf) 0
  Onward-enumeration_leaf leaf = search leaf_moves depth 12 parts 0

  Onward-enumerate_leaf : (leaf : ℕ) → Onward Q (enumerate_leaf sc lossy leaf) 0
  Onward-enumerate_leaf leaf = search leaf_moves depth 12 parts 0

  Onward-union_leaf : (leaf : ℕ) → Onward Q (union_leaf sc lossy leaf) 0
  Onward-union_leaf leaf = search leaf_moves depth 12 parts 0

  Onward-union2_leaf : (leaf : ℕ) → Onward Q (union2_leaf sc lossy leaf) 0
  Onward-union2_leaf leaf = search leaf_moves depth 12 parts 0

  Onward-alias_leaf : (leaf : ℕ) → Onward Q (alias_leaf sc lossy leaf) 0
  Onward-alias_leaf leaf = search leaf_moves depth 12 parts 0

  Onward-bitfield_leaf : Onward Q (bitfield_leaf sc lossy) 0
  Onward-bitfield_leaf = search leaf_moves depth 12 parts 0

  Onward-virtual_base_class_leaf :
      (direct : Bool) → Onward Q (virtual_base_class_leaf sc lossy direct) 0
  Onward-virtual_base_class_leaf direct = search leaf_moves depth 12 parts 0

  TurnOf-dimension_round : (dimensions : List ℕ) → TurnOf Q (dimension_round sc lossy dimensions)
  TurnOf-dimension_round dimensions = TurnOf-Onward (
      Onward-bind (Onward-parse_unsigned sc) λ dim.
        Onward-if (ltb (2 ^ 32 - 1) dim) (Onward-fail (unimplemented_feature "u64 array sizes") 0) (
          Onward-bind Onward-at_end λ empty.
            Onward-if empty (Onward-fail unexpected_eof 0)
              (Onward-bind (Onward-peek_uint sc u8) λ next. after (dimensions ++ (dim ∷ [])) next)))
    where
      after :
          (dimensions : List ℕ) (next : ℕ) → Onward Q (after_dimension sc lossy dimensions next) 0
      after dimensions next =
          Onward-if (next == 0) (Onward-next sc u8 λ null. Onward-return (done dimensions))
            (Onward-return (again dimensions))

  Onward-array_leaf : (strided : Bool) → Onward Q (array_leaf sc lossy strided) 0
  unfolding array_leaf
  Onward-array_leaf strided = Onward-next sc u32 λ element_type. Onward-next sc u32 λ indexing_type.
      Onward-bind
        (Onward-if strided (Onward-next sc u32 λ stride. Onward-return (some stride))
          (Onward-return none))
        λ stride.
          Onward-bind (Onward-repeat (dimension_round sc lossy) [] TurnOf-dimension_round)
            λ dimensions. Onward-bind (Onward-parse_padding sc) λ skipped. Onward-return _

  Onward-argument_list_leaf : Onward Q (argument_list_leaf sc lossy) 0
  unfolding argument_list_leaf
  Onward-argument_list_leaf = Onward-next sc u32 λ count.
      Onward-bind (Onward-repeat_times count (Onward-parse_uint sc u32))
        λ arguments. Onward-return _

  Onward-method_list_leaf : Onward Q (method_list_leaf sc lossy) 0
  unfolding method_list_leaf
  Onward-method_list_leaf =
      Onward-bind (Onward-repeat (method_round sc lossy) [] rounds) λ methods. Onward-return _
    where
      entry : Onward Q (method_entry sc lossy) 1
      entry = Onward-field sc u16 λ attributes. Onward-next sc u16 λ padding.
          Onward-next sc u32
            λ method_type. Onward-vtable_offset attributes λ offset. Onward-return _

      rounds : (methods : List MethodListEntry) → TurnOf Q (method_round sc lossy methods)
      rounds methods = TurnOf-bind Onward-at_end λ empty. TurnOf-if empty (TurnOf-done methods) (
          TurnOf-Onward
            (Onward-bind entry λ entry. Onward-return (again (methods ++ (entry ∷ [])))))

  -- No simple leaf panics, and none moves back.
  pub leaf_arms_move :
      All (λ (number, read). (leaf : ℕ) → Onward Q (read leaf) 0) (leaf_arms sc lossy)
  leaf_arms_move = (
    Onward-class_leaf class,
    (
      Onward-class_leaf class,
      (
        Onward-class_leaf structure,
        (
          Onward-class_leaf structure,
          (
            Onward-class_leaf interface,
            (
              Onward-class2_leaf class,
              (
                Onward-class2_leaf structure,
                (
                  Onward-class2_leaf interface,
                  (
                    Onward-member_leaf,
                    (
                      Onward-member_leaf,
                      (
                        Onward-nested_leaf false,
                        (
                          Onward-nested_leaf false,
                          (
                            Onward-nested_leaf true,
                            (
                              Onward-nested_leaf true,
                              (
                                λ leaf. Onward-member_function_leaf,
                                (
                                  Onward-overloaded_method_leaf,
                                  (
                                    Onward-overloaded_method_leaf,
                                    (
                                      Onward-method_leaf,
                                      (
                                        Onward-method_leaf,
                                        (
                                          λ leaf. Onward-base_class_leaf class,
                                          (
                                            λ leaf. Onward-base_class_leaf interface,
                                            (
                                              λ leaf. Onward-vfunctab_leaf,
                                              (
                                                Onward-static_member_leaf,
                                                (
                                                  Onward-static_member_leaf,
                                                  (
                                                    λ leaf. Onward-procedure_leaf,
                                                    (
                                                      λ leaf. Onward-modifier_leaf,
                                                      (
                                                        Onward-enumeration_leaf,
                                                        (
                                                          Onward-enumeration_leaf,
                                                          (
                                                            Onward-enumerate_leaf,
                                                            (
                                                            Onward-enumerate_leaf,
                                                            (
                                                            λ leaf. Onward-array_leaf false,
                                                            (
                                                            λ leaf. Onward-array_leaf false,
                                                            (
                                                            λ leaf. Onward-array_leaf true,
                                                            (
                                                            Onward-union_leaf,
                                                            (
                                                            Onward-union_leaf,
                                                            (
                                                            Onward-alias_leaf,
                                                            (
                                                            Onward-alias_leaf,
                                                            (
                                                            Onward-union2_leaf,
                                                            (
                                                            λ leaf. Onward-bitfield_leaf,
                                                            (
                                                            λ leaf.
                                                            Onward-virtual_base_class_leaf true,
                                                            (
                                                            λ leaf.
                                                            Onward-virtual_base_class_leaf false,
                                                            (
                                                            λ leaf. Onward-argument_list_leaf,
                                                            (λ leaf. Onward-method_list_leaf, tt),
                                                            ),
                                                            ),
                                                            ),
                                                            ),
                                                            ),
                                                            ),
                                                            ),
                                                            ),
                                                            ),
                                                            ),
                                                            ),
                                                            ),
                                                            ),
                                                          ),
                                                        ),
                                                      ),
                                                    ),
                                                  ),
                                                ),
                                              ),
                                            ),
                                          ),
                                        ),
                                      ),
                                    ),
                                  ),
                                ),
                              ),
                            ),
                          ),
                        ),
                      ),
                    ),
                  ),
                ),
              ),
            ),
          ),
        ),
      ),
    ),
  )
