-- ===== src/Types/Items.antt =====
-- src/tpi/mod.rs: `ItemInformation`, `Item` and `ItemIter`.
use pdb.Prelude.{
  ℕ, ◌*◌, ◌==◌, List, [], ◌∷◌, Bool, Option, none, some, length, ltb, if◌then◌else◌, add32, sub32,
  bit_or, ◌^◌,
}
use pdb.Errors.{Result, ok, err, panic, type_too_short}
use pdb.Scroll.{Scroll}
use pdb.Buffer.State.{
  ParseBuffer, Parser, ◌>>=◌, ◌>>◌, return, fail, from_bytes, is_empty, parse_u16, take_bytes,
}
use pdb.Types.Header.{Header, parse_header, reject}

pub record ItemInformation : Type 0 where
  pub stream : List ℕ
  pub header : Header

-- `Item`. Both kinds of indexes are 32-bit numbers.
pub record Item : Type 0 where
  pub index : ℕ
  pub content : List ℕ

pub record ItemIter : Type 0 where
  pub buf : ParseBuffer
  pub index : ℕ

-- `Item::raw_kind` indexes the bytes, and panics where there are fewer than two.
unfoldable pub raw_kind : Item → Result ℕ
raw_kind item = elim item.content [
  | [] ↦ panic
  | low ∷ rest ↦ elim rest [ [] ↦ panic | high ∷ others ↦ ok (bit_or low (high * 2 ^ 8)) ]
]

-- `ItemInformation::len` and `is_empty`.
unfoldable pub information_len : ItemInformation → ℕ
information_len info = sub32 info.header.maximum_index info.header.minimum_index

unfoldable pub information_is_empty : ItemInformation → Bool
unfolding information_len
information_is_empty info = information_len info == 0

-- `expect` panics on an error.
abbrev pub expect : {A B : Type 0} → Result A × ParseBuffer → (ParseBuffer → B) → Result B
expect (ok a, after) use_it = ok (use_it after)
expect (err e, after) use_it = panic
expect (panic, after) use_it = panic

-- `ItemInformation::iter`.
unfoldable pub iter : ItemInformation → Result ItemIter
iter info =
    expect (take_bytes info.header.header_size (from_bytes info.stream))
      (λ buf. record { buf = buf; index = info.header.minimum_index })

-- What `next` returns, by the bytes that it read.
abbrev pub received : ItemIter → Result (List ℕ) × ParseBuffer → Result (Option Item) × ItemIter
received it (ok type_buf, buf) = (
  ok (some (record { index = it.index; content = type_buf })),
  record { buf = buf; index = add32 it.index 1 },
)
received it (err e, buf) = (err e, record it { buf = buf })
received it (panic, buf) = (panic, record it { buf = buf })

module _ (sc : Scroll) where
  -- `ItemInformation::parse`.
  unfoldable pub parse : List ℕ → Result ItemInformation
  parse stream =
      ((parse_header sc >>= λ header. return (record { stream = stream; header = header }))
        (from_bytes stream)).0

  unfoldable pub read_item : Parser (List ℕ)
  read_item = do
    length ← parse_u16 sc
    reject (ltb length 2) (fail type_too_short)
    take_bytes length

  -- `ItemIter::next`.
  unfoldable pub next : ItemIter → Result (Option Item) × ItemIter
  unfolding read_item
  next it = if is_empty it.buf then (ok none, it) else received it (read_item it.buf)
