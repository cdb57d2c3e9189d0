-- ===== src/Symbols.antt =====
-- src/symbol/mod.rs and src/symbol/constants.rs: symbols, their kinds and their names.
pub mod Iter
use pdb.Prelude.{ℕ, List, [], ◌∷◌, Bool, false, ◌||◌, Option, none, some, ltb, ◌==◌, if◌then◌else◌}
use pdb.Scroll.{Scroll, u16, read, failed}
use pdb.Buffer.State.{Parser, ◌>>=◌, return, parse_u32, parse_cstring, parse_u8_pascal_string}

pub record Symbol : Type 0 where
  pub index : ℕ
  pub bytes : List ℕ

-- `S_ALIGN`, `S_SKIP` and `S_ST_MAX`.
abbrev pub s_align : ℕ
s_align = 0x0402

abbrev pub s_skip : ℕ
s_skip = 0x0007

abbrev pub s_st_max : ℕ
s_st_max = 0x1100

-- The kinds of `starts_scope`, in the order of the match.
abbrev pub scope_starts : List ℕ
scope_starts =
    0x0105 ∷ 0x1110 ∷ 0x100b ∷ 0x1115 ∷ 0x1011 ∷ 0x1119 ∷ 0x1016 ∷ 0x0104 ∷ 0x110f ∷ 0x100a ∷ 0x1155
    ∷ 0x1114 ∷ 0x1010 ∷ 0x1118 ∷ 0x1015 ∷ 0x1156 ∷ 0x1147 ∷ 0x1149 ∷ 0x114b ∷ 0x0107 ∷ 0x1103
    ∷ 0x0207 ∷ 0x0108 ∷ 0x1104 ∷ 0x0208 ∷ 0x0106 ∷ 0x1102 ∷ 0x0206 ∷ 0x1132 ∷ 0x112a ∷ 0x101a
    ∷ 0x112b ∷ 0x101b ∷ 0x114d ∷ 0x115d ∷ []

-- The kinds of `ends_scope`.
abbrev pub scope_ends : List ℕ
scope_ends = 0x0006 ∷ 0x114f ∷ 0x114e ∷ []

abbrev among : List ℕ → ℕ → Bool
among [] kind = false
among (k ∷ kinds) kind = (kind == k) || among kinds kind

module _ (sc : Scroll) where
  -- `Symbol::raw_kind`, 0 where there are fewer than two bytes.
  unfoldable pub raw_kind : Symbol → ℕ
  raw_kind symbol = elim (sc.pread u16 symbol.bytes 0) [ read kind ↦ kind | failed e ↦ 0 ]

  unfoldable pub starts_scope : Symbol → Bool
  starts_scope symbol = among scope_starts (raw_kind symbol)

  unfoldable pub ends_scope : Symbol → Bool
  ends_scope symbol = among scope_ends (raw_kind symbol)

  -- `match symbol.raw_kind() { S_ALIGN | S_SKIP => .. }`.
  unfoldable pub is_padding : Symbol → Bool
  is_padding symbol = (raw_kind symbol == s_align) || (raw_kind symbol == s_skip)

  unfoldable pub parse_symbol_name : ℕ → Parser (List ℕ)
  parse_symbol_name kind = if ltb kind s_st_max then parse_u8_pascal_string sc else parse_cstring

  unfoldable pub parse_optional_name : ℕ → Parser (Option (List ℕ))
  parse_optional_name kind =
      if ltb kind s_st_max then return none else parse_cstring >>= λ name. return (some name)

  unfoldable pub parse_optional_index : Parser (Option ℕ)
  parse_optional_index = do index ← parse_u32 sc; return (if index == 0 then none else some index)
