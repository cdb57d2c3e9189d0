-- ===== src/Types/Ids.antt =====
-- src/tpi/id.rs: the records of the stream of ids. src/tpi/mod.rs: `parse` of an item. Names are kept as bytes.
pub mod RoundTrip
use pdb.Prelude.{ℕ, List, [], ◌∷◌, Option, none, some, ltb, ◌==◌, if◌then◌else◌}
use pdb.Prelude.Arms.{arm}
use pdb.Errors.{Result, unimplemented_type_kind}
use pdb.Errors
use pdb.Scroll.{Scroll}
use pdb.Buffer.State.{Parser, ◌>>=◌, return, fail, parse_u16, parse_u32, at_once, from_bytes}
use pdb.Buffer.Repeat.{repeat_times}
use pdb.Types.Primitive.{type_data_for_primitive}
use pdb.Types.Records.Shapes.{TypeData, primitive}
use pdb.Types.Records.Parts.{parse_string}
use pdb.Types.Records.Lists.{parse_type_data}

pub record FunctionId : Type 0 where
  pub scope : Option ℕ
  pub function_type : ℕ
  pub name : List ℕ

pub record MemberFunctionId : Type 0 where
  pub parent : ℕ
  pub function_type : ℕ
  pub name : List ℕ

pub record BuildInfoId : Type 0 where
  pub arguments : List ℕ

pub record StringListId : Type 0 where
  pub substrings : List ℕ

pub record StringId : Type 0 where
  pub substrings : Option ℕ
  pub name : List ℕ

-- `remote` has the module and the reference into its string table.
pub data UserDefinedTypeSourceFileRef : Type 0 where
  local : ℕ → UserDefinedTypeSourceFileRef
  remote : ℕ → ℕ → UserDefinedTypeSourceFileRef

pub record UserDefinedTypeSourceId : Type 0 where
  pub udt : ℕ
  pub source_file : UserDefinedTypeSourceFileRef
  pub line : ℕ

pub data IdData : Type 0 where
  function : FunctionId → IdData
  member_function : MemberFunctionId → IdData
  build_info : BuildInfoId → IdData
  string_list : StringListId → IdData
  string : StringId → IdData
  user_defined_type_source : UserDefinedTypeSourceId → IdData

module _ (sc : Scroll) where
  unfoldable pub parse_optional_id_index : Parser (Option ℕ)
  parse_optional_id_index = do
    index ← parse_u32 sc
    return (if index == 0 then none else some index)

  abbrev pub function_leaf : ℕ → Parser IdData
  function_leaf leaf = do
    scope ← parse_optional_id_index
    function_type ← parse_u32 sc
    name ← parse_string sc leaf
    return (function (record { scope = scope; function_type = function_type; name = name }))

  abbrev pub member_function_leaf : ℕ → Parser IdData
  member_function_leaf leaf = do
    parent ← parse_u32 sc
    function_type ← parse_u32 sc
    name ← parse_string sc leaf
    return
        (member_function (record { parent = parent; function_type = function_type; name = name }))

  abbrev pub build_info_leaf : ℕ → Parser IdData
  build_info_leaf leaf = do
    count ← parse_u16 sc
    arguments ← repeat_times count (parse_u32 sc)
    return (build_info (record { arguments = arguments }))

  abbrev pub string_list_leaf : ℕ → Parser IdData
  string_list_leaf leaf = do
    count ← parse_u32 sc
    substrings ← repeat_times count (parse_u32 sc)
    return (string_list (record { substrings = substrings }))

  abbrev pub string_leaf : ℕ → Parser IdData
  string_leaf leaf = do
    substrings ← parse_optional_id_index
    name ← parse_string sc leaf
    return (string (record { substrings = substrings; name = name }))

  -- The file is an id of the same module, or a string of another module, whose number comes last.
  abbrev pub source_line_leaf : ℕ → Parser IdData
  source_line_leaf leaf = do
    udt ← parse_u32 sc
    file_id ← parse_u32 sc
    line ← parse_u32 sc
    (if leaf == 0x1606
        then return (
            user_defined_type_source
              (record { udt = udt; source_file = local file_id; line = line }))
        else (parse_u16 sc >>= λ module_index. return (
            user_defined_type_source
              (record { udt = udt; source_file = remote module_index file_id; line = line }))))

  abbrev pub id_arms : List (ℕ × (ℕ → Parser IdData))
  id_arms =
      (0x1601, function_leaf)
      ∷ (0x1602, member_function_leaf)
      ∷ (0x1603, build_info_leaf)
      ∷ (0x1604, string_list_leaf)
      ∷ (0x1605, string_leaf)
      ∷ (0x1606, source_line_leaf)
      ∷ (0x1607, source_line_leaf)
      ∷ []

  abbrev pub known_id : ℕ → Option (ℕ → Parser IdData) → Parser IdData
  known_id leaf none = fail (unimplemented_type_kind leaf)
  known_id leaf (some read) = read leaf

  -- `try_from_ctx` of `IdData`, on the bytes of the record.
  unfoldable pub read_id : Parser IdData
  read_id = do leaf ← parse_u16 sc; known_id leaf (arm id_arms leaf)

  -- `parse` at an item of the stream of ids.
  unfoldable pub parse_id : List ℕ → Result IdData
  unfolding read_id
  parse_id bytes = (at_once read_id (from_bytes bytes)).0

-- `parse` at an item of the stream of types. `lossy` makes text of the bytes of a name.
module _ (sc : Scroll) (lossy : List ℕ → List ℕ) where
  unfoldable pub parse_type : ℕ → List ℕ → Result TypeData
  unfolding parse_type_data type_data_for_primitive
  parse_type index bytes =
      if ltb index 0x1000
      then Errors.◌>>=◌ (type_data_for_primitive index) (λ found. Errors.ok (primitive found))
      else (parse_type_data sc lossy (from_bytes bytes)).0
