-- ===== src/Msf/Source/ReadSeek/Within.antt =====
-- src/source.rs: a view that stays within the file of a reader.
use pdb.Prelude.{
  ℕ, zero, suc, ◌+◌, ◌^◌, ◌≤◌, ◌<◌, ◌≡◌, refl, ap, ◌∙◌, true, ◌||◌, List, [], ◌∷◌, ◌++◌, length,
  take, drop, leb, lt→ltb, if◌then◌else◌, ◌==◌, range, arith, All, All-split, length-append,
  length-drop, u64_mod,
}
use pdb.Errors.{ok, err, io_error, IoErrorKind}
use pdb.Msf.PageList.{SourceSlice, sum_sizes, covers}
use pdb.Msf.PageList.Cut.{sum_sizes_lem}
use pdb.Msf.Source.{Reads}
use pdb.Msf.Source.ReadSeek.{
  read_exact_at, read_slices, zeros, view_of, read_exact_at_lem, length-map-range, length-zeros,
  length-covers, read_slices-round, read_seek,
}

range_end : (o n extent : ℕ) → All (λ p. p < extent) (range o (suc n)) → o + suc n ≤ extent
range_end o zero extent (p, ps) = omega arith
range_end o (suc n) extent (p, ps) = omega (arith, range_end (o + 1) n extent ps)

read_exact_at-reads :
    (file : List ℕ) (s : SourceSlice)
    → All (λ p. p < length file) (range s.offset s.size)
    → read_exact_at file s ≡ ok (take s.size (drop s.offset file))
unfolding read_exact_at
read_exact_at-reads file s within = read s.size within
  where
    read :
        (n : ℕ)
        → All (λ p. p < length file) (range s.offset n)
        → (if n == 0 || leb (s.offset + n) (length file)
            then ok (take n (drop s.offset file))
            else err (io_error IoErrorKind.unexpected_eof))
          ≡ ok (take n (drop s.offset file))
    read zero inside = refl
    read (suc n) inside =
        let last = range_end s.offset n (length file) inside in
        let test : (suc n == 0 || leb (s.offset + suc n) (length file)) ≡ true = ground arith in
        rw test refl

read_slices-reads :
    (file filled left : List ℕ) (slices : List SourceSlice)
    → length filled + length left < u64_mod
    → length left ≡ length (covers slices)
    → All (λ p. p < length file) (covers slices)
    → (bytes : List ℕ) × (read_slices file (length filled) (filled ++ left) slices ≡ ok bytes)
unfolding read_slices
read_slices-reads file filled left [] few same within = (filled ++ left, refl)
read_slices-reads file filled left (s ∷ rest) few same within =
    let total = length-covers s rest in
    let part = take s.size (drop s.offset file) in
    let (here, there) =
      All-split (λ p. p < length file) (range s.offset s.size) (covers rest) within in
    let first = read_exact_at-reads file s here in
    let count : length part ≡ s.size =
      ap length (read_exact_at_lem file s part first) ∙ length-map-range file s.offset s.size in
    let (bytes, reads) =
      read_slices-reads file (filled ++ part) (drop s.size left) rest
        (omega (arith, length-append filled part, length-drop s.size left))
        (omega (arith, length-drop s.size left)) there in
    (bytes, read_slices-round file filled left s rest few (omega arith) part count first ∙ reads)

-- Within the file, and below 2 ^ 63 bytes in all, the view succeeds.
pub read_seek-Reads : (file : List ℕ) → Reads (read_seek file) (length file)
unfolding view_of
read_seek-Reads file slices within small =
    let total = sum_sizes_lem 0 slices (omega arith) in
    let count = length-zeros (sum_sizes 0 slices) in
    let (bytes, reads) =
      read_slices-reads file [] (zeros (sum_sizes 0 slices)) slices (omega arith) (omega arith)
        within in
    (bytes, rw (lt→ltb (sum_sizes 0 slices) (2 ^ 63) (omega arith)) reads)
