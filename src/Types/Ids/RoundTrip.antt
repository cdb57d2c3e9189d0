-- ===== src/Types/Ids/RoundTrip.antt =====
-- src/tpi/id.rs: ids as they are written, and how far their parsers move.
use pdb.Prelude.{
  ℕ, ◌^◌, ◌<◌, ◌≡◌, ◌≢◌, refl, ap, List, [], ◌∷◌, ◌++◌, length, inl, inr, false, Option, none, some,
  Option-cases, le_bytes, arith, ◌==◌, All,
}
use pdb.Prelude.Arms.{arm, arm-All}
use pdb.Errors.{Result, ok, err, panic, unimplemented_type_kind}
use pdb.Scroll.{Scroll, u16, u32}
use pdb.Buffer.State.{ParseBuffer, Parser, ◌>>=◌, back_to, from_bytes, parse_uint}
use pdb.Buffer.Text.{IsText}
use pdb.Buffer.Yields.{Leaves, Yields, Yields-bind, from_bytes-Leaves}
use pdb.Buffer.Fields.{Yields-field}
use pdb.Buffer.Repeat.{repeat_times}
use pdb.Buffer.Onward.{
  Onward, OnwardAt, Onward-bind, Onward-return, Onward-fail, Onward-if, Onward-next, Onward-field,
  Onward-at_once,
}
use pdb.Buffer.Turns.{Onward-repeat_times}
use pdb.Types.Records.Written.{text_bytes, Yields-last, Yields-parse_string}
use pdb.Types.Records.Parts.{parse_string}
use pdb.Types.Records.Moves.{Onward-parse_uint, Onward-string}
use pdb.Types.Ids.{
  IdData, function, member_function, build_info, string_list, string, user_defined_type_source,
  UserDefinedTypeSourceFileRef, local, remote, parse_optional_id_index, source_line_leaf, id_arms,
  read_id, parse_id,
}

-- An index that may be missing, which is stored as 0.
abbrev pub optional_bytes : Option ℕ → List ℕ → List ℕ
optional_bytes none rest = le_bytes 4 0 ++ rest
optional_bytes (some index) rest = le_bytes 4 index ++ rest

abbrev pub indexes_bytes : List ℕ → List ℕ
indexes_bytes [] = []
indexes_bytes (index ∷ indexes) = le_bytes 4 index ++ indexes_bytes indexes

abbrev pub source_bytes : ℕ → UserDefinedTypeSourceFileRef → ℕ → List ℕ
source_bytes udt (local file) line =
    le_bytes 2 0x1606 ++ (le_bytes 4 udt ++ (le_bytes 4 file ++ (le_bytes 4 line ++ [])))
source_bytes udt (remote module_index file) line =
    le_bytes 2 0x1607
    ++ (le_bytes 4 udt ++ (le_bytes 4 file ++ (le_bytes 4 line ++ (le_bytes 2 module_index ++ []))))

abbrev pub id_bytes : IdData → List ℕ
id_bytes (function t) =
    le_bytes 2 0x1601 ++ optional_bytes t.scope (le_bytes 4 t.function_type ++ text_bytes t.name [])
id_bytes (member_function t) =
    le_bytes 2 0x1602
    ++ (le_bytes 4 t.parent ++ (le_bytes 4 t.function_type ++ text_bytes t.name []))
id_bytes (build_info t) =
    le_bytes 2 0x1603 ++ (le_bytes 2 (length t.arguments) ++ indexes_bytes t.arguments)
id_bytes (string_list t) =
    le_bytes 2 0x1604 ++ (le_bytes 4 (length t.substrings) ++ indexes_bytes t.substrings)
id_bytes (string t) = le_bytes 2 0x1605 ++ optional_bytes t.substrings (text_bytes t.name [])
id_bytes (user_defined_type_source t) = source_bytes t.udt t.source_file t.line

abbrev IsIndex : ℕ → Type 0
IsIndex n = n < 2 ^ 32

abbrev IsOptional : Option ℕ → Type 0
IsOptional none = Unit
IsOptional (some index) = (0 < index) × IsIndex index

abbrev IsFile : UserDefinedTypeSourceFileRef → Type 0
IsFile (local file) = IsIndex file
IsFile (remote module_index file) = (module_index < 2 ^ 16) × IsIndex file

-- An id that can be written: its numbers fit, an index that is there is not 0, and no name has a null byte.
abbrev pub IsId : IdData → Type 0
IsId (function t) = IsOptional t.scope × IsIndex t.function_type × IsText t.name
IsId (member_function t) = IsIndex t.parent × IsIndex t.function_type × IsText t.name
IsId (build_info t) = (length t.arguments < 2 ^ 16) × All IsIndex t.arguments
IsId (string_list t) = (length t.substrings < 2 ^ 32) × All IsIndex t.substrings
IsId (string t) = IsOptional t.substrings × IsText t.name
IsId (user_defined_type_source t) = IsIndex t.udt × IsFile t.source_file × IsIndex t.line

module _ (sc : Scroll) where
  Yields-optional :
      {B : Type 0} (b : ParseBuffer) (index : Option ℕ) (k : Option ℕ → Parser B) (mid : List ℕ)
      (c : B) (rest : List ℕ)
      → IsOptional index
      → Leaves b (optional_bytes index mid)
      → ((b' : ParseBuffer) → Leaves b' mid → Yields (k index) b' c rest)
      → Yields (parse_optional_id_index sc >>= k) b c rest
  unfolding parse_optional_id_index
  Yields-optional b none k mid c rest h l further =
      Yields-bind (parse_optional_id_index sc) k b none mid c rest
        (Yields-field sc u32 b 0 _ mid none mid (omega arith) l λ b1 l1. (b1, refl, l1)) further
  Yields-optional b (some index) k mid c rest h l further =
      Yields-bind (parse_optional_id_index sc) k b (some index) mid c rest
        (Yields-field sc u32 b index _ mid (some index) mid (omega (arith, h.1)) l
          λ b1 l1. (b1, rw (not_zero index h.0) refl, l1))
        further
    where
      not_zero : (n : ℕ) → 0 < n → (n == 0) ≡ false
      not_zero n h = ground arith

  Yields-indexes :
      (b : ParseBuffer) (indexes : List ℕ)
      → All IsIndex indexes
      → Leaves b (indexes_bytes indexes)
      → Yields (repeat_times (length indexes) (parse_uint sc u32)) b indexes []
  unfolding repeat_times
  Yields-indexes b [] hs l = (b, refl, l)
  Yields-indexes b (index ∷ indexes) (h, hs) l =
      Yields-field sc u32 b index _ (indexes_bytes indexes) (index ∷ indexes) [] (omega (arith, h))
        l
        λ b1 l1.
          Yields-last sc (repeat_times (length indexes) (parse_uint sc u32)) (λ rest. index ∷ rest)
            b1 indexes [] (Yields-indexes b1 indexes hs l1)

  Yields-source :
      (b : ParseBuffer) (udt : ℕ) (file : UserDefinedTypeSourceFileRef) (line : ℕ)
      → IsIndex udt
      → IsFile file
      → IsIndex line
      → Leaves b (source_bytes udt file line)
      → Yields
          (read_id sc)
          b
          (user_defined_type_source (record { udt = udt; source_file = file; line = line }))
          []
  unfolding read_id
  Yields-source b udt (local file) line h1 h2 h3 l =
      Yields-field sc u16 b 0x1606 _ _ _ [] (omega arith) l λ b1 l1.
        Yields-field sc u32 b1 udt _ _ _ [] (omega (arith, h1)) l1 λ b2 l2.
          Yields-field sc u32 b2 file _ _ _ [] (omega (arith, h2)) l2 λ b3 l3.
            Yields-field sc u32 b3 line _ _ _ [] (omega (arith, h3)) l3 λ b4 l4. (b4, refl, l4)
  Yields-source b udt (remote module_index file) line h1 h2 h3 l =
      Yields-field sc u16 b 0x1607 _ _ _ [] (omega arith) l λ b1 l1.
        Yields-field sc u32 b1 udt _ _ _ [] (omega (arith, h1)) l1 λ b2 l2.
          Yields-field sc u32 b2 file _ _ _ [] (omega (arith, h2)) l2 λ b3 l3.
            Yields-field sc u32 b3 line _ _ _ [] (omega (arith, h3)) l3 λ b4 l4.
              Yields-field sc u16 b4 module_index _ _ _ [] (omega (arith, h2)) l4
                λ b5 l5. (b5, refl, l5)

  Yields-read_id :
      (b : ParseBuffer) (id : IdData)
      → IsId id
      → Leaves b (id_bytes id)
      → Yields (read_id sc) b id []
  unfolding read_id
  Yields-read_id b (function t) (h1, h2, h3) l =
      Yields-field sc u16 b 0x1601 _ _ (function t) [] (omega arith) l λ b1 l1.
        Yields-optional b1 t.scope _ _ (function t) [] h1 l1 λ b2 l2.
          Yields-field sc u32 b2 t.function_type _ _ (function t) [] (omega (arith, h2)) l2 λ b3 l3.
            Yields-last sc (parse_string sc 0x1601) (λ name. function (record t { name = name })) b3
              t.name [] (Yields-parse_string sc 0x1601 b3 t.name [] refl h3 l3)
  Yields-read_id b (member_function t) (h1, h2, h3) l =
      Yields-field sc u16 b 0x1602 _ _ (member_function t) [] (omega arith) l λ b1 l1.
        Yields-field sc u32 b1 t.parent _ _ (member_function t) [] (omega (arith, h1)) l1 λ b2 l2.
          Yields-field sc u32 b2 t.function_type _ _ (member_function t) [] (omega (arith, h2)) l2
            λ b3 l3.
              Yields-last sc (parse_string sc 0x1602)
                (λ name. member_function (record t { name = name })) b3 t.name []
                (Yields-parse_string sc 0x1602 b3 t.name [] refl h3 l3)
  Yields-read_id b (build_info t) (h1, h2) l =
      Yields-field sc u16 b 0x1603 _ _ (build_info t) [] (omega arith) l λ b1 l1.
        Yields-field sc u16 b1 (length t.arguments) _ _ (build_info t) [] (omega (arith, h1)) l1
          λ b2 l2.
            Yields-last sc (repeat_times (length t.arguments) (parse_uint sc u32))
              (λ x. build_info (record { arguments = x })) b2 t.arguments []
              (Yields-indexes b2 t.arguments h2 l2)
  Yields-read_id b (string_list t) (h1, h2) l =
      Yields-field sc u16 b 0x1604 _ _ (string_list t) [] (omega arith) l λ b1 l1.
        Yields-field sc u32 b1 (length t.substrings) _ _ (string_list t) [] (omega (arith, h1)) l1
          λ b2 l2.
            Yields-last sc (repeat_times (length t.substrings) (parse_uint sc u32))
              (λ x. string_list (record { substrings = x })) b2 t.substrings []
              (Yields-indexes b2 t.substrings h2 l2)
  Yields-read_id b (string t) (h1, h2) l =
      Yields-field sc u16 b 0x1605 _ _ (string t) [] (omega arith) l λ b1 l1.
        Yields-optional b1 t.substrings _ _ (string t) [] h1 l1 λ b2 l2.
          Yields-last sc (parse_string sc 0x1605) (λ name. string (record t { name = name })) b2
            t.name [] (Yields-parse_string sc 0x1605 b2 t.name [] refl h2 l2)
  Yields-read_id b (user_defined_type_source t) (h1, h2, h3) l =
      Yields-source b t.udt t.source_file t.line h1 h2 h3 l

  -- An id of any of the six kinds, written as the linker lays it out in fewer than 2 ^ 63 bytes, is read back
  -- by `parse` at an item of the stream of ids, if its numbers fit, no optional index that is there is 0 and
  -- no name has a null byte.
  pub parse_id-id_bytes :
      (id : IdData) → IsId id → length (id_bytes id) < 2 ^ 63 → parse_id sc (id_bytes id) ≡ ok id
  unfolding parse_id
  parse_id-id_bytes id h small =
      let (after, runs, l) =
        Yields-read_id (from_bytes (id_bytes id)) id h (from_bytes-Leaves (id_bytes id) small) in
      ap (λ r. (back_to (from_bytes (id_bytes id)) r).0) runs

module _ {Q : Type 0} (sc : Scroll) where
  Onward-optional_id :
      {B : Type 0} {k : Option ℕ → Parser B}
      → ((v : Option ℕ) → Onward Q (k v) 0)
      → Onward Q (parse_optional_id_index sc >>= k) 0
  unfolding parse_optional_id_index
  Onward-optional_id further = Onward-bind (Onward-next sc u32 λ index. Onward-return _) further

  Onward-indexes :
      {B : Type 0} {k : List ℕ → Parser B} (count : ℕ)
      → ((v : List ℕ) → Onward Q (k v) 0)
      → Onward Q (repeat_times count (parse_uint sc u32) >>= k) 0
  Onward-indexes count further =
      Onward-bind (Onward-repeat_times count (Onward-parse_uint sc u32)) further

  Onward-source_line : (leaf : ℕ) → Onward Q (source_line_leaf sc leaf) 0
  Onward-source_line leaf = Onward-next sc u32 λ udt. Onward-next sc u32 λ file.
      Onward-next sc u32 λ line.
        Onward-if (leaf == 0x1606) (Onward-return _)
          (Onward-next sc u16 λ module_index. Onward-return _)

  id_arms_move : All (λ (number, read). (leaf : ℕ) → Onward Q (read leaf) 0) (id_arms sc)
  id_arms_move = (
    λ leaf. search (Onward-next, Onward-optional_id, Onward-string, Onward-return) depth 12 parts 0,
    (
      λ leaf. search (Onward-next, Onward-string, Onward-return) depth 12 parts 0,
      (
        λ leaf. search (Onward-next, Onward-indexes, Onward-return) depth 12 parts 0,
        (
          λ leaf. search (Onward-next, Onward-indexes, Onward-return) depth 12 parts 0,
          (
            λ leaf. search (Onward-optional_id, Onward-string, Onward-return) depth 12 parts 0,
            (Onward-source_line, (Onward-source_line, tt)),
          ),
        ),
      ),
    ),
  )

  Onward-read_id : Onward Q (read_id sc) 1
  unfolding read_id
  Onward-read_id = Onward-field sc u16 λ leaf. elim (Option-cases (arm (id_arms sc) leaf)) [
    | inl missing ↦ rw missing (Onward-fail (unimplemented_type_kind leaf) 0)
    | inr (read, taken) ↦ rw taken (
        arm-All (λ number read. (leaf : ℕ) → Onward Q (read leaf) 0) (id_arms sc) leaf read
          id_arms_move taken leaf)
  ]

-- No record of the stream of ids, of fewer than 2 ^ 63 bytes, makes `parse` panic, whatever its bytes are.
pub parse_id-never-panics :
    (sc : Scroll) (bytes : List ℕ) → length bytes < 2 ^ 63 → parse_id sc bytes ≢ panic
unfolding parse_id
parse_id-never-panics sc bytes small = never _ (
    (Onward-at_once (Onward-read_id {Q = ⊥} sc)).onward (from_bytes bytes)
      (from_bytes-Leaves bytes small).valid)
  where
    never : (r : Result IdData × ParseBuffer) → OnwardAt ⊥ 1 (from_bytes bytes) r → r.0 ≢ panic
    never (ok t, last) h e = cc
    never (err error, last) h e = cc
    never (panic, last) h e = h
