-- ===== src/Tests/Reader.antt =====
-- A reader that keeps the promises of `Scroll`.
use pdb.Prelude.{
  ℕ, ◌+◌, ◌≤◌, ◌<◌, ◌≡◌, List, length, take, drop, le_value, leb, le→leb, if◌then◌else◌, arith,
  false,
}
use pdb.Errors.{too_big}
use pdb.Scroll.{Width, size_of, Scrolled, read, failed, IsShort, Scroll}

abbrev pub read_le : Width → List ℕ → ℕ → Scrolled
read_le w bytes offset =
    if leb (offset + size_of w) (length bytes)
    then read (le_value (take (size_of w) (drop offset bytes)))
    else failed (too_big (size_of w) (length bytes))

pub read_le-fits :
    (w : Width) (bytes : List ℕ) (offset : ℕ)
    → offset + size_of w ≤ length bytes
    → read_le w bytes offset ≡ read (le_value (take (size_of w) (drop offset bytes)))
read_le-fits w bytes offset h = rw (le→leb (offset + size_of w) (length bytes) h)

pub read_le-IsShort :
    (w : Width) (bytes : List ℕ) (offset : ℕ)
    → length bytes < offset + size_of w
    → IsShort (read_le w bytes offset)
read_le-IsShort w bytes offset h = rw (not_le h) tt
  where
    not_le : length bytes < offset + size_of w → leb (offset + size_of w) (length bytes) ≡ false
    not_le h = ground arith

abbrev pub little_endian : Scroll
little_endian = record { pread = read_le; pread-fits = read_le-fits; pread-short = read_le-IsShort }
