-- ===== src/Modi/Checksums/RoundTrip.antt =====
-- src/modi/c13.rs: a list of file checksums as it is stored, and its iteration.
use pdb.Prelude.{
  ℕ, ◌+◌, ◌%◌, ◌^◌, ◌<◌, ◌≡◌, refl, sym, ap, ◌∙◌, List, [], ◌∷◌, ◌++◌, append_assoc, length,
  length-append, length-le_bytes, le_bytes, All, arith,
}
use mathlib.Core.Path.{subst}
use pdb.Errors.{ok}
use pdb.Scroll.{Scroll, Width, size_of, u8, u32}
use pdb.Buffer.State.{ParseBuffer, from_bytes, take_bytes, align, parse_uint}
use pdb.Buffer.Position.{padding, padding_lem}
use pdb.Buffer.Advance.{Forward-parse_uint, Forward-take_bytes, Forward-align}
use pdb.Buffer.Yields.{Leaves, Yields-parse_uint, Yields-take_bytes, from_bytes-Leaves}
use pdb.Buffer.Padded.{padding_shift, Yields-align, moved_by, zeros, length-zeros}
use pdb.Buffer.Items.{collect, finished}
use pdb.Buffer.Laid.{laid, YieldsAt, collect-unless_empty}
use pdb.Modi.Checksums.{
  FileChecksum, no_checksum, md5, sha1, sha256, checksum_of, FileChecksumEntry, parse_entry,
  next_entry,
}

-- The number of the kind of a checksum, and its bytes.
abbrev pub kind_number : FileChecksum → ℕ
kind_number no_checksum = 0
kind_number (md5 bytes) = 1
kind_number (sha1 bytes) = 2
kind_number (sha256 bytes) = 3

abbrev pub checksum_bytes : FileChecksum → List ℕ
checksum_bytes no_checksum = []
checksum_bytes (md5 bytes) = bytes
checksum_bytes (sha1 bytes) = bytes
checksum_bytes (sha256 bytes) = bytes

-- An entry in front of other bytes, and with its padding.
abbrev pub unpadded : FileChecksumEntry → List ℕ → List ℕ
unpadded e rest =
    le_bytes 4 e.name
    ++ (le_bytes 1 (length (checksum_bytes e.checksum))
        ++ (le_bytes 1 (kind_number e.checksum) ++ (checksum_bytes e.checksum ++ rest)))

abbrev pub entry_bytes : FileChecksumEntry → List ℕ
entry_bytes e = unpadded e (zeros (padding 4 (length (unpadded e []))))

abbrev pub IsEntry : FileChecksumEntry → Type 0
IsEntry e = (e.name < 2 ^ 32) × (length (checksum_bytes e.checksum) < 256)

checksum_of_lem :
    (c : FileChecksum) (b : ParseBuffer)
    → checksum_of (kind_number c) (checksum_bytes c) b ≡ (ok c, b)
checksum_of_lem no_checksum b = refl
checksum_of_lem (md5 bytes) b = refl
checksum_of_lem (sha1 bytes) b = refl
checksum_of_lem (sha256 bytes) b = refl

kind_number_small : (c : FileChecksum) → kind_number c < 256
kind_number_small no_checksum = omega arith
kind_number_small (md5 bytes) = omega arith
kind_number_small (sha1 bytes) = omega arith
kind_number_small (sha256 bytes) = omega arith

unpadded-append :
    (e : FileChecksumEntry) (xs rest : List ℕ) → unpadded e xs ++ rest ≡ unpadded e (xs ++ rest)
unpadded-append e xs rest = simp append_assoc

length-unpadded :
    (e : FileChecksumEntry) → length (unpadded e []) ≡ 6 + length (checksum_bytes e.checksum)
length-unpadded e = omega (arith, length-append (checksum_bytes e.checksum) [])

abbrev IsAligned : ℕ → Type 0
IsAligned pos = pos % 4 ≡ 0

module _ (sc : Scroll) where
  -- A number that is read, and how far.
  number_at :
      (w : Width) (b : ParseBuffer) (v : ℕ) (rest : List ℕ)
      → v < 256 ^ size_of w
      → Leaves b (le_bytes (size_of w) v ++ rest)
      → (after : ParseBuffer) × (parse_uint sc w b ≡ (ok v, after))
        × Leaves after rest
        × (after.pos ≡ b.pos + size_of w)
  number_at w b v rest h l =
      let (after, runs, l') = Yields-parse_uint sc w b v rest h l in
      (
        after,
        runs,
        l',
        omega (
          arith,
          length-le_bytes (size_of w) v,
          moved_by (parse_uint sc w) (size_of w) b after v (le_bytes (size_of w) v) rest
              (Forward-parse_uint sc w) runs l l',
        ),
      )

  parse_entry_run :
      (e : FileChecksumEntry) (b b1 b2 b3 b4 b5 : ParseBuffer)
      → parse_uint sc u32 b ≡ (ok e.name, b1)
      → parse_uint sc u8 b1 ≡ (ok (length (checksum_bytes e.checksum)), b2)
      → parse_uint sc u8 b2 ≡ (ok (kind_number e.checksum), b3)
      → take_bytes (length (checksum_bytes e.checksum)) b3 ≡ (ok (checksum_bytes e.checksum), b4)
      → align 4 b4 ≡ (ok tt, b5)
      → parse_entry sc b ≡ (ok e, b5)
  unfolding parse_entry
  parse_entry_run e b b1 b2 b3 b4 b5 h1 h2 h3 h4 h5 =
      rw (h1, h2, h3, h4, checksum_of_lem e.checksum b4, h5) refl

  parse_entry-YieldsAt :
      (e : FileChecksumEntry) (b : ParseBuffer) (rest : List ℕ)
      → IsEntry e
      → IsAligned b.pos
      → Leaves b (entry_bytes e ++ rest)
      → YieldsAt IsAligned (parse_entry sc b) e rest
  parse_entry-YieldsAt e b rest h at l =
      let bytes = checksum_bytes e.checksum in
      let pad = padding 4 (length (unpadded e [])) in
      let l0 = subst (Leaves b) (unpadded-append e (zeros pad) rest) l in
      let (b1, r1, l1, m1) = number_at u32 b e.name _ (omega (arith, h.0)) l0 in
      let (b2, r2, l2, m2) = number_at u8 b1 (length bytes) _ (omega (arith, h.1)) l1 in
      let (b3, r3, l3, m3) =
        number_at u8 b2 (kind_number e.checksum) _ (omega (arith, kind_number_small e.checksum))
          l2 in
      let (b4, r4, l4) = Yields-take_bytes (length bytes) b3 bytes (zeros pad ++ rest) refl l3 in
      let m4 =
        moved_by (take_bytes (length bytes)) (length bytes) b3 b4 bytes bytes _
          (Forward-take_bytes _) r4 l3 l4 in
      let place : b4.pos ≡ b.pos + length (unpadded e []) =
        omega (arith, length-unpadded e, m1, m2, m3, m4) in
      let same : padding 4 b4.pos ≡ pad = ap (padding 4) place ∙ padding_shift b.pos _ at in
      let (b5, r5, l5) =
        Yields-align 4 b4 rest (omega arith)
          (subst (λ (n : ℕ). Leaves b4 (zeros n ++ rest)) (sym same) l4) in
      let m5 =
        moved_by (align 4) 0 b4 b5 tt (zeros pad) rest (Forward-align 4 (omega arith)) r5 l4 l5 in
      let aligned : IsAligned b5.pos =
        omega (arith, m5, length-zeros pad, same, (padding_lem 4 b4.pos (omega arith)).1) in
      (b5, parse_entry_run e b b1 b2 b3 b4 b5 r1 r2 r3 r4 r5, l5, aligned)

  -- A list of file checksums of at most 255 bytes and of any kind, each padded with zeros to a multiple
  -- of four bytes, gives exactly these checksums in order when it is iterated over, where the
  -- references to the names fit 32 bits and the whole fits in a slice.
  pub entries-entry_bytes :
      (entries : List FileChecksumEntry) (fuel : ℕ)
      → All IsEntry entries
      → length (laid entry_bytes entries) < 2 ^ 63
      → length entries < fuel
      → collect fuel (next_entry sc) (from_bytes (laid entry_bytes entries)) ≡ finished entries
  unfolding next_entry
  entries-entry_bytes entries fuel v small enough =
      collect-unless_empty entry_bytes IsAligned (parse_entry sc) entries fuel
        (from_bytes (laid entry_bytes entries)) (gives entries v) refl (from_bytes-Leaves _ small)
        enough
    where
      gives :
          (entries : List FileChecksumEntry)
          → All IsEntry entries
          → All
              (λ e.
                (0 < length (entry_bytes e))
                × ((b : ParseBuffer) (rest : List ℕ)
                    → IsAligned b.pos
                    → Leaves b (entry_bytes e ++ rest)
                    → YieldsAt IsAligned (parse_entry sc b) e rest))
              entries
      gives [] h = tt
      gives (e ∷ entries) (h, hs) =
          ((omega arith, λ b rest at l. parse_entry-YieldsAt e b rest h at l), gives entries hs)
