-- ===== src/Buffer/State.antt =====
-- src/common.rs: the operations of `ParseBuffer`.
use pdb.Prelude.{
  ℕ, suc, ◌+◌, ◌-◌, ◌%◌, min, Bool, Option, none, some, List, [], ◌∷◌, length, take, drop, ltb, leb,
  ◌==◌, if◌then◌else◌, sub64,
}
use pdb.Errors.{Result, ok, err, panic, Error, unexpected_eof, from_scroll}
use pdb.Scroll.{Width, u8, u16, u32, u64, size_of, read, failed, Scroll}

-- `ParseBuffer(&[u8], usize)`: the parent slice and the position in it.
pub record ParseBuffer : Type 0 where
  pub bytes : List ℕ
  pub pos : ℕ

abbrev pub Parser : Type 0 → Type 0
Parser A = ParseBuffer → Result A × ParseBuffer

-- What follows a step: an error or a panic ends the run with the buffer as it stands.
abbrev pub and_then :
    {A B : Type 0} → Result A × ParseBuffer → (A → Parser B) → Result B × ParseBuffer
and_then (ok a, b) f = f a b
and_then (err e, b) f = (err e, b)
and_then (panic, b) f = (panic, b)

infixl 5 ◌>>=◌ ◌>>◌
abbrev pub ◌>>=◌ : {A B : Type 0} → Parser A → (A → Parser B) → Parser B
◌>>=◌ m f b = and_then (m b) f

abbrev pub ◌>>◌ : {A B : Type 0} → Parser A → Parser B → Parser B
m >> k = m >>= λ _. k

abbrev pub return : {A : Type 0} → A → Parser A
return a b = (ok a, b)

abbrev pub fail : {A : Type 0} → Error → Parser A
fail e b = (err e, b)

-- `parse` at a structure: `gread_with` moves the position only if all of it can be read.
abbrev pub back_to : {A : Type 0} → ParseBuffer → Result A × ParseBuffer → Result A × ParseBuffer
back_to b (ok a, after) = (ok a, after)
back_to b (err e, after) = (err e, b)
back_to b (panic, after) = (panic, b)

abbrev pub at_once : {A : Type 0} → Parser A → Parser A
at_once m b = back_to b (m b)

-- `ParseBuffer::from`.
abbrev pub from_bytes : List ℕ → ParseBuffer
from_bytes bytes = record { bytes = bytes; pos = 0 }

-- `self.0.len() - self.1`, a `usize`.
unfoldable pub len : ParseBuffer → ℕ
len b = sub64 (length b.bytes) b.pos

unfoldable pub is_empty : ParseBuffer → Bool
unfolding len
is_empty b = len b == 0

unfoldable pub seek : ℕ → ParseBuffer → ParseBuffer
seek pos b = record b { pos = min pos (length b.bytes) }

unfoldable pub truncate : ℕ → Parser (Unit {0})
truncate n b =
    if leb n (length b.bytes)
    then (ok tt, record b { bytes = take n b.bytes })
    else (err unexpected_eof, b)

-- A remainder by 0 panics.
unfoldable pub align : ℕ → Parser (Unit {0})
unfolding len
align alignment b =
    let diff = b.pos % alignment in
    if alignment == 0
    then (panic, b)
    else if ltb 0 diff
    then (if ltb (len b) (alignment - diff)
        then (err unexpected_eof, b)
        else (ok tt, record b { pos = b.pos + (alignment - diff) }))
    else (ok tt, b)

-- `&self.0[self.1..]` panics where the position lies past the end.
unfoldable pub take_bytes : ℕ → Parser (List ℕ)
take_bytes n b =
    let input = drop b.pos b.bytes in
    if ltb (length b.bytes) b.pos
    then (panic, b)
    else if leb n (length input)
    then (ok (take n input), record b { pos = b.pos + n })
    else (err unexpected_eof, b)

-- `iter().position(|ch| *ch == 0)`.
unfoldable pub null_position : List ℕ → Option ℕ
null_position [] = none
null_position (ch ∷ rest) =
    if ch == 0 then some 0 else elim (null_position rest) [ none ↦ none | some i ↦ some (suc i) ]

unfoldable pub parse_cstring : Parser (List ℕ)
parse_cstring b =
    let input = drop b.pos b.bytes in
    if ltb (length b.bytes) b.pos then (panic, b) else elim (null_position input) [
      | none ↦ (err unexpected_eof, b)
      | some i ↦ (ok (take i input), record b { pos = b.pos + (i + 1) })
    ]

module _ (sc : Scroll) where
  -- `parse` at an integer type: `gread_with` moves the position only if the read succeeds.
  unfoldable pub parse_uint : Width → Parser ℕ
  parse_uint w b = elim (sc.pread w b.bytes b.pos) [
    | read v ↦ (ok v, record b { pos = b.pos + size_of w })
    | failed e ↦ (err (from_scroll e), b)
  ]

  -- `peek_u8` and `peek_u16`.
  unfoldable pub peek_uint : Width → Parser ℕ
  peek_uint w b = elim (sc.pread w b.bytes b.pos) [
    | read v ↦ (ok v, b)
    | failed e ↦ (err (from_scroll e), b)
  ]

  abbrev pub parse_u8 : Parser ℕ
  parse_u8 = parse_uint u8

  abbrev pub parse_u16 : Parser ℕ
  parse_u16 = parse_uint u16

  abbrev pub parse_u32 : Parser ℕ
  parse_u32 = parse_uint u32

  abbrev pub parse_u64 : Parser ℕ
  parse_u64 = parse_uint u64

  unfoldable pub parse_u8_pascal_string : Parser (List ℕ)
  parse_u8_pascal_string = do n ← parse_u8; take_bytes n
