-- ===== src/Types/Records/Pointers.antt =====
-- src/tpi/data.rs: the pointers that make `parse_type_data` panic.
use pdb.Prelude.{
  ℕ, ◌/◌, ◌%◌, ◌^◌, ◌≤◌, ◌<◌, ◌≡◌, ◌↔◌, refl, sym, ap, ◌∙◌, List, ◌++◌, Bool, le_bytes, arith,
  Option, some, none,
}
use pdb.Prelude.Bits.{bit_and_x7}
use pdb.Errors
use pdb.Errors.{Result, ok, err, panic}
use pdb.Scroll.{Scroll, Width, size_of, u16, u32}
use pdb.Buffer.State.{ParseBuffer, Parser, and_then, ◌>>=◌, return, parse_uint}
use pdb.Buffer.Yields.{Leaves, Yields-parse_uint}
use pdb.Buffer.Onward.{Onward, OnwardAt, Onward-bind, Onward-if, Onward-next, Onward-return}
use pdb.Prelude.Arms.{arm}
use pdb.Types.Records.Attributes.{
  is_member, pointer_modes, reachable, pointer_mode, pointer_to_member,
}
use pdb.Types.Records.Shapes.{TypeData, pointer}
use pdb.Types.Records.Leaves.{computed, containing_class_if}
use pdb.Types.Records.Lists.{parse_type_data, parse_type_data_within}

-- The three bits of the mode.
abbrev pub mode_of : ℕ → ℕ
mode_of attributes = attributes / 32 % 8

mode_panics :
    (m : ℕ)
    → m < 8
    → (Errors.◌>>=◌ (reachable (arm pointer_modes m)) (λ mode. ok (is_member mode)) ≡ panic)
      ↔ (5 ≤ m)
mode_panics m h = ((λ e. ground arith), (λ le. ground arith))

pointer_to_member-panics :
    (attributes : ℕ) → (pointer_to_member attributes ≡ panic) ↔ (5 ≤ mode_of attributes)
unfolding pointer_to_member pointer_mode
pointer_to_member-panics attributes =
    rw (bit_and_x7 (attributes / 2 ^ 5)) (mode_panics (mode_of attributes) (omega arith))

module _ (sc : Scroll) (lossy : List ℕ → List ℕ) where
  -- The rest of the arm, behind the attributes.
  abbrev member_pointer : ℕ → ℕ → Result Bool → Parser TypeData
  member_pointer underlying_type attributes to_member = computed to_member >>= λ to_member.
      containing_class_if sc lossy to_member >>= λ containing_class. return (
        pointer (record {
          underlying_type = underlying_type;
          attributes = attributes;
          containing_class = containing_class;
        }))

  member_pointer-panics :
      (underlying_type attributes : ℕ) (r : Result Bool) (b : ParseBuffer) (rest : List ℕ)
      → Leaves b rest
      → ((member_pointer underlying_type attributes r b).0 ≡ panic) ↔ (r ≡ panic)
  member_pointer-panics u attributes panic b rest l = ((λ e. refl), (λ e. refl))
  member_pointer-panics u attributes (err e) b rest l = ((λ h. cc), (λ h. cc))
  member_pointer-panics u attributes (ok to_member) b rest l =
      ((λ h. absurd (never _ (moves.onward b l.valid) h)), (λ h. cc))
    where
      made : Option ℕ → TypeData
      made owner =
          pointer
            (record { underlying_type = u; attributes = attributes; containing_class = owner })

      moves : Onward ⊥ (containing_class_if sc lossy to_member >>= λ owner. return (made owner)) 0
      moves =
          Onward-bind
            (Onward-if to_member (Onward-next sc u32 λ owner. Onward-return (some owner))
              (Onward-return none))
            λ owner. Onward-return (made owner)

      never : (r : Result TypeData × ParseBuffer) → OnwardAt ⊥ 0 b r → r.0 ≡ panic → ⊥
      never (ok t, last) h e = cc
      never (err error, last) h e = cc
      never (panic, last) h e = h

  behind_field :
      {B : Type 0} (w : Width) (b : ParseBuffer) (v : ℕ) (rest : List ℕ) (k : ℕ → Parser B)
      → v < 256 ^ size_of w
      → Leaves b (le_bytes (size_of w) v ++ rest)
      → (b' : ParseBuffer) × Leaves b' rest × ((parse_uint sc w >>= k) b ≡ k v b')
  behind_field w b v rest k small l =
      let (b', runs, l') = Yields-parse_uint sc w b v rest small l in
      (b', l', ap (λ r. and_then r k) runs)

  -- The record of a pointer, whose type and attributes are numbers of 32 bits, makes `parse_type_data` panic
  -- exactly if the three bits of its mode are 5, 6 or 7, whatever follows its attributes.
  pub parse_type_data-panics :
      (b : ParseBuffer) (underlying_type attributes : ℕ) (rest : List ℕ)
      → underlying_type < 2 ^ 32
      → attributes < 2 ^ 32
      → Leaves b
          (le_bytes 2 0x1002 ++ (le_bytes 4 underlying_type ++ (le_bytes 4 attributes ++ rest)))
      → ((parse_type_data sc lossy b).0 ≡ panic) ↔ (5 ≤ mode_of attributes)
  unfolding parse_type_data parse_type_data_within
  parse_type_data-panics b u attributes rest h1 h2 l =
      let small : u < 256 ^ size_of u32 = omega (arith, h1) in
      let small' : attributes < 256 ^ size_of u32 = omega (arith, h2) in
      let (b1, l1, e1) = behind_field u16 b 0x1002 _ _ (omega arith) l in
      let (b2, l2, e2) = behind_field u32 b1 u _ _ small l1 in
      let (b3, l3, e3) = behind_field u32 b2 attributes rest _ small' l2 in
      let same : (parse_type_data sc lossy b).0
          ≡ (member_pointer u attributes (pointer_to_member attributes) b3).0 =
        ap (λ r. r.0) (e1 ∙ e2 ∙ e3) in
      let tail = member_pointer-panics u attributes (pointer_to_member attributes) b3 rest l3 in
      let mode = pointer_to_member-panics attributes in
      ((λ e. mode.0 (tail.0 (sym same ∙ e))), (λ le. same ∙ tail.1 (mode.1 le)))
