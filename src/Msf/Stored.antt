-- ===== src/Msf/Stored.antt =====
-- src/msf/mod.rs: the headers as stored on disk, and the pieces that both kinds of file share.
use pdb.Prelude.{
  ℕ, zero, suc, ◌+◌, List, [], ◌∷◌, Bool, true, false, ◌&&◌, leb, ◌==◌, take, drop, length,
}
use pdb.Errors.{Result, ok, err, panic}
use pdb.Scroll.{Scroll, Width, u16, u32}
use pdb.Buffer.State.{
  ParseBuffer, Parser, ◌>>=◌, return, parse_uint, parse_u8, parse_u32, from_bytes,
}
use pdb.Msf.PageList.{PageList}

-- `StreamTable`.
pub data StreamTable : Type 0 where
  header_only : ℕ → PageList → StreamTable
  table_found : PageList → StreamTable
  available : List ℕ → StreamTable

-- Equality of byte slices.
unfoldable pub bytes_eq : List ℕ → List ℕ → Bool
bytes_eq [] [] = true
bytes_eq [] (y ∷ ys) = false
bytes_eq (x ∷ xs) [] = false
bytes_eq (x ∷ xs) (y ∷ ys) = (x == y) && bytes_eq xs ys

-- `b"Microsoft C/C++ MSF 7.00\r\n\x1a\x44\x53\x00\x00\x00"`.
abbrev pub big_magic : List ℕ
big_magic =
    b'M' ∷ b'i' ∷ b'c' ∷ b'r' ∷ b'o' ∷ b's' ∷ b'o' ∷ b'f' ∷ b't' ∷ b' ' ∷ b'C' ∷ b'/' ∷ b'C' ∷ b'+'
    ∷ b'+' ∷ b' ' ∷ b'M' ∷ b'S' ∷ b'F' ∷ b' ' ∷ b'7' ∷ b'.' ∷ b'0' ∷ b'0' ∷ 13 ∷ 10 ∷ 0x1a ∷ 0x44
    ∷ 0x53 ∷ 0 ∷ 0 ∷ 0 ∷ []

-- `b"Microsoft C/C++ program database 2.00\r\n\x1a\x4a\x47\x00\x00"`.
abbrev pub small_magic : List ℕ
small_magic =
    b'M' ∷ b'i' ∷ b'c' ∷ b'r' ∷ b'o' ∷ b's' ∷ b'o' ∷ b'f' ∷ b't' ∷ b' ' ∷ b'C' ∷ b'/' ∷ b'C' ∷ b'+'
    ∷ b'+' ∷ b' ' ∷ b'p' ∷ b'r' ∷ b'o' ∷ b'g' ∷ b'r' ∷ b'a' ∷ b'm' ∷ b' ' ∷ b'd' ∷ b'a' ∷ b't'
    ∷ b'a' ∷ b'b' ∷ b'a' ∷ b's' ∷ b'e' ∷ b' ' ∷ b'2' ∷ b'.' ∷ b'0' ∷ b'0' ∷ 13 ∷ 10 ∷ 0x1a ∷ 0x4a
    ∷ 0x47 ∷ 0 ∷ 0 ∷ []

-- `header_matches`: the slice begins with the magic bytes.
unfoldable pub header_matches : List ℕ → List ℕ → Bool
unfolding bytes_eq
header_matches actual expected =
    leb (length expected) (length actual) && bytes_eq (take (length expected) actual) expected

pub record RawHeader : Type 0 where
  pub magic : List ℕ
  pub page_size : ℕ
  pub free_page_map : ℕ
  pub pages_used : ℕ
  pub directory_size : ℕ
  pub reserved : ℕ

-- `parse` at a structure: its `try_from_ctx` reads the slice from the position on with an offset of
-- its own, and the position moves by what it took only if it succeeds.
unfoldable pub parse_struct : {A : Type 0} → Parser A → Parser A
parse_struct {A} m b = landed (m (from_bytes (drop b.pos b.bytes)))
  where
    landed : Result A × ParseBuffer → Result A × ParseBuffer
    landed (ok a, inner) = (ok a, record b { pos = b.pos + inner.pos })
    landed (err e, inner) = (err e, b)
    landed (panic, inner) = (panic, b)

module _ (sc : Scroll) where
  -- `gread_inout_with` on an array of bytes.
  unfoldable pub read_array : ℕ → Parser (List ℕ)
  read_array zero = return []
  read_array (suc n) = do x ← parse_u8 sc; xs ← read_array n; return (x ∷ xs)

  -- `try_from_ctx` of the header of a big file, and of a small one.
  unfoldable pub raw_header : ℕ → Width → Parser RawHeader
  unfolding read_array
  raw_header magic_size w = do
    magic ← read_array magic_size
    page_size ← parse_u32 sc
    free_page_map ← parse_uint sc w
    pages_used ← parse_uint sc w
    directory_size ← parse_u32 sc
    reserved ← parse_u32 sc
    return (record {
      magic = magic;
      page_size = page_size;
      free_page_map = free_page_map;
      pages_used = pages_used;
      directory_size = directory_size;
      reserved = reserved;
    })

  abbrev pub big_raw_header : Parser RawHeader
  big_raw_header = raw_header 32 u32

  abbrev pub small_raw_header : Parser RawHeader
  small_raw_header = raw_header 44 u16
