-- ===== src/Tests/Buffers.antt =====
-- `ParseBuffer` on concrete bytes.
use pdb.Prelude.{ℕ, ◌≡◌, refl, List, [], ◌∷◌, arith}
use pdb.Errors.{ok, err, unexpected_eof}
use pdb.Scroll.{u16, u32}
use pdb.Buffer.State.{
  ParseBuffer, from_bytes, parse_uint, take_bytes, len, truncate, parse_u8_pascal_string,
}
use pdb.Buffer.Parse.{advance}
use pdb.Buffer.Position.{IsValid}
use pdb.Tests.Reader.{little_endian}

abbrev bytes : List ℕ
bytes = 1 ∷ 2 ∷ 3 ∷ 4 ∷ []

abbrev second : ParseBuffer
second = record { bytes = bytes; pos = 1 }

parse_u16_run :
    parse_uint little_endian u16 (from_bytes bytes) ≡ (ok 0x0201, advance 2 (from_bytes bytes))
unfolding parse_uint
parse_u16_run = refl

parse_u32_short : parse_uint little_endian u32 second ≡ (err unexpected_eof, second)
unfolding parse_uint
parse_u32_short = refl

pascal_run :
    parse_u8_pascal_string little_endian (from_bytes (2 ∷ b'h' ∷ b'i' ∷ 7 ∷ []))
    ≡ (ok (b'h' ∷ b'i' ∷ []), record { bytes = 2 ∷ b'h' ∷ b'i' ∷ 7 ∷ []; pos = 3 })
unfolding parse_u8_pascal_string parse_uint take_bytes
pascal_run = refl

truncate_behind : len (truncate 0 second).1 ≡ 0xffff_ffff_ffff_ffff
unfolding len truncate
truncate_behind = refl

second-IsValid : IsValid second
second-IsValid = omega arith

abbrev text : ParseBuffer
text = record { bytes = 9 ∷ b'o' ∷ b'k' ∷ 0 ∷ 5 ∷ []; pos = 1 }
