-- ===== src/Scroll.antt =====
-- The byte reader that the parsers call. The package scroll is not part of the repository, so its
-- `Pread` is a parameter: a reader of little-endian integers, with what its documentation promises.
use pdb.Prelude.{ℕ, ◌+◌, ◌≤◌, ◌<◌, ◌≡◌, List, length, take, drop, le_value}
use pdb.Errors.{ScrollError, bad_offset, too_big, bad_input, custom}

-- The unsigned integer types.
pub data Width : Type 0 where
  u8 u16 u32 u64 : Width

abbrev pub size_of : Width → ℕ
size_of u8 = 1
size_of u16 = 2
size_of u32 = 4
size_of u64 = 8

-- `scroll::Result`.
pub data Scrolled : Type 0 where
  read : ℕ → Scrolled
  failed : ScrollError → Scrolled

-- A read that ran over the end of the data.
abbrev pub IsShort : Scrolled → Type 0
IsShort (failed (bad_offset n)) = Unit
IsShort (failed (too_big n m)) = Unit
IsShort (failed (bad_input s)) = ⊥
IsShort (failed (custom s)) = ⊥
IsShort (read v) = ⊥

-- `pread_with(offset, LE)` at an integer type: it reads the bytes from the offset on if there are
-- enough of them, and reports a short read if not.
pub record Scroll : Type 0 where
  pub pread : Width → List ℕ → ℕ → Scrolled
  pub pread-fits :
      (w : Width) (bytes : List ℕ) (offset : ℕ)
      → offset + size_of w ≤ length bytes
      → pread w bytes offset ≡ read (le_value (take (size_of w) (drop offset bytes)))
  pub pread-short :
      (w : Width) (bytes : List ℕ) (offset : ℕ)
      → length bytes < offset + size_of w
      → IsShort (pread w bytes offset)
