-- ===== src/Symbols/Iter.antt =====
-- src/symbol/mod.rs: the symbol table and its iterator.
pub mod Stream
pub mod Seek
pub mod Safety
use pdb.Prelude.{
  ℕ, zero, suc, ◌%◌, List, length, Bool, true, false, Option, none, some, ltb, u32_mod,
  if◌then◌else◌,
}
use pdb.Errors.{Result, ok, panic, symbol_too_short}
use pdb.Scroll.{Scroll}
use pdb.Buffer.State.{
  ParseBuffer, Parser, ◌>>=◌, ◌>>◌, return, fail, from_bytes, is_empty, seek, parse_u16, take_bytes,
}
use pdb.Buffer.Loop.{while_more}
use pdb.Types.Header.{reject}
use pdb.Symbols.{Symbol, is_padding}

-- The match on the kind, where the symbol is padding or not.
abbrev pub unless_padding : Bool → Symbol → Parser (Option Symbol) → Parser (Option Symbol)
unless_padding true symbol more = more
unless_padding false symbol more = return (some symbol)

module _ (sc : Scroll) where
  -- One round of the loop of `next`, up to the test of the kind.
  unfoldable pub read_symbol : Parser Symbol
  read_symbol b =
      (do
        symbol_length ← parse_u16 sc
        reject (ltb symbol_length 2) (fail symbol_too_short)
        bytes ← take_bytes symbol_length
        return (record { index = b.pos % u32_mod; bytes = bytes }))
        b

  -- What a round of the loop does with the symbol.
  abbrev pub choose : Symbol → Parser (Option Symbol) → Parser (Option Symbol)
  choose symbol more = unless_padding (is_padding sc symbol) symbol more

  -- `SymbolIter::next`.
  unfoldable pub next : Parser (Option Symbol)
  unfolding while_more
  next b = while_more read_symbol choose (suc (length b.bytes)) b

  -- `SymbolIter::skip_to`.
  unfoldable pub skip_to : ℕ → Parser (Option Symbol)
  skip_to index b = next (seek index b)

-- `SymbolTable::iter`, with the stream of the table as bytes.
abbrev pub iter : List ℕ → ParseBuffer
iter stream = from_bytes stream

-- `SymbolTable::iter_at`.
unfoldable pub iter_at : List ℕ → ℕ → ParseBuffer
iter_at stream index = seek index (iter stream)
