-- ===== src/Types/Records/Parts.antt =====
-- src/tpi/data.rs: the parts that the leaves share: optional indexes, names and padding.
use pdb.Prelude.{
  ℕ, ◌-◌, List, Bool, ◌||◌, Option, none, some, bit_and, ltb, leb, ◌==◌, if◌then◌else◌,
}
use pdb.Scroll.{Scroll, u8}
use pdb.Buffer.State.{
  Parser, ◌>>=◌, return, peek_uint, parse_u8, parse_u32, parse_cstring, parse_u8_pascal_string,
  take_bytes, is_empty,
}
use pdb.Buffer.Repeat.{Turn, again, done, repeat}
use pdb.Types.Records.Attributes.{has_unique_name}
use pdb.Errors.{ok}

-- `LF_ST_MAX`.
abbrev pub lf_st_max : ℕ
lf_st_max = 0x1500

-- `buf.is_empty()`.
abbrev pub at_end : Parser Bool
at_end b = (ok (is_empty b), b)

-- A round of `parse_padding`, behind the test of its loop.
abbrev pub skip_padding : Scroll → Parser (Turn (Unit {0}) (Unit {0}))
skip_padding sc = do
  padding ← parse_u8 sc
  (if ltb 0xf0 padding
      then (take_bytes (bit_and padding 0x0f - 1) >>= λ skipped. return (again tt))
      else return (again tt))

module _ (sc : Scroll) where
  unfoldable pub parse_optional_type_index : Parser (Option ℕ)
  parse_optional_type_index = do
    index ← parse_u32 sc
    return (if (index == 0) || (index == 0xffff) then none else some index)

  unfoldable pub parse_string : ℕ → Parser (List ℕ)
  parse_string leaf = if ltb lf_st_max leaf then parse_cstring else parse_u8_pascal_string sc

  -- A round of `parse_padding`.
  abbrev pub padding_round : Unit {0} → Parser (Turn (Unit {0}) (Unit {0}))
  padding_round tt = do
    empty ← at_end
    (if empty
        then return (done tt)
        else (peek_uint sc u8 >>= λ next.
            if leb 0xf0 next then skip_padding sc else return (done tt)))

  unfoldable pub parse_padding : Parser (Unit {0})
  unfolding repeat
  parse_padding = repeat padding_round tt

-- `String::from_utf8_lossy`, by which `to_string` makes text of the bytes of a name, belongs to Rust's library:
-- it is a parameter.
module _ (sc : Scroll) (lossy : List ℕ → List ℕ) where
  unfoldable pub parse_name : ℕ → Parser (List ℕ)
  unfolding parse_string
  parse_name leaf = parse_string sc leaf >>= λ raw. return (lossy raw)

  -- The name behind the name, if the properties say that there is one.
  unfoldable pub parse_unique_name : ℕ → ℕ → Parser (Option (List ℕ))
  unfolding parse_name
  parse_unique_name leaf properties =
      if has_unique_name properties
      then (parse_name leaf >>= λ name. return (some name))
      else return none
