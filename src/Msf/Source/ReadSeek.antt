-- ===== src/Msf/Source/ReadSeek.antt =====
-- src/source.rs: the implementation of `Source` for `Read + Seek`, over a file of fixed content.
pub mod Within
use pdb.Prelude.{
  ℕ, zero, suc, ◌+◌, ◌^◌, ◌≤◌, ◌<◌, ◌≡◌, refl, sym, ap, ◌∙◌, append_assoc, true, ◌||◌, ◌&&◌, List,
  [], ◌∷◌, ◌++◌, map, length, take, drop, leb, ltb, le→leb, lt→ltb, Bool-cases, inl, inr,
  if◌then◌else◌, ◌==◌, range, arith, All, All-split, length-append, length-range, length-drop,
  take-append_le, take_all, drop-drop, drop-append, add64, u64_mod,
}
use pdb.Errors.{Result, ok, err, panic, io_error, IoErrorKind, ◌>>=◌, both_steps_ok}
use pdb.Msf.PageList.{SourceSlice, sum_sizes, covers}
use pdb.Msf.PageList.Cut.{sum_sizes_lem}
use pdb.Msf.Source.{Source, Reads}
use mathlib.Core.List.{map-append}

-- `seek` and `read_exact`: fewer bytes than asked for is the error `UnexpectedEof`.
unfoldable pub read_exact_at : List ℕ → SourceSlice → Result (List ℕ)
read_exact_at file s =
    if s.size == 0 || leb (s.offset + s.size) (length file)
    then ok (take s.size (drop s.offset file))
    else err (io_error IoErrorKind.unexpected_eof)

-- The loop of `view`: `bytes` is the buffer, filled up to `output_offset`. A range that ends before it
-- starts, or behind the buffer, panics.
unfoldable pub read_slices : List ℕ → ℕ → List ℕ → List SourceSlice → Result (List ℕ)
unfolding read_exact_at
read_slices file output_offset bytes [] = ok bytes
read_slices file output_offset bytes (s ∷ rest) =
    let end = add64 output_offset s.size in
    if leb output_offset end && leb end (length bytes)
    then (do
      part ← read_exact_at file s
      read_slices file end (take output_offset bytes ++ (part ++ drop end bytes)) rest)
    else panic

abbrev pub zeros : ℕ → List ℕ
zeros zero = []
zeros (suc n) = 0 ∷ zeros n

-- `view`: a capacity above `isize::MAX` panics.
unfoldable pub view_of : List ℕ → List SourceSlice → Result (List ℕ)
unfolding read_slices sum_sizes
view_of file slices =
    let len = sum_sizes 0 slices in
    if ltb len (2 ^ 63) then read_slices file 0 (zeros len) slices else panic

abbrev pub byte_at : List ℕ → ℕ → ℕ
byte_at [] i = 0
byte_at (x ∷ file) zero = x
byte_at (x ∷ file) (suc i) = byte_at file i

shift :
    (x : ℕ) (file : List ℕ) (i n : ℕ)
    → map (byte_at (x ∷ file)) (range (suc i) n) ≡ map (byte_at file) (range i n)
shift x file i zero = refl
shift x file i (suc n) = ap (λ l. byte_at file i ∷ l) (next ∙ shift x file (i + 1) n)
  where
    next :
        map (byte_at (x ∷ file)) (range (suc i + 1) n)
        ≡ map (byte_at (x ∷ file)) (range (suc (i + 1)) n)
    next =
        let e : suc i + 1 ≡ suc (i + 1) = omega arith in
        ap (λ (k : ℕ). map (byte_at (x ∷ file)) (range k n)) e

cut-map-range :
    (file : List ℕ) (o n : ℕ)
    → o + n ≤ length file
    → take n (drop o file) ≡ map (byte_at file) (range o n)
cut-map-range file zero zero h = refl
cut-map-range [] zero (suc n) h = absurd (omega arith)
cut-map-range (x ∷ file) zero (suc n) h =
    ap (λ l. x ∷ l) (cut-map-range file zero n (omega arith) ∙ sym (shift x file 0 n))
cut-map-range [] (suc o) zero h = absurd (omega arith)
cut-map-range [] (suc o) (suc n) h = absurd (omega arith)
cut-map-range (x ∷ file) (suc o) n h = cut-map-range file o n (omega arith) ∙ sym (shift x file o n)

cut_or_empty :
    (file : List ℕ) (o n : ℕ)
    → (n == 0 || leb (o + n) (length file)) ≡ true
    → take n (drop o file) ≡ map (byte_at file) (range o n)
cut_or_empty file o zero h = refl
cut_or_empty file o (suc n) h = cut-map-range file o (suc n) (ground arith)

pub read_exact_at_lem :
    (file : List ℕ) (s : SourceSlice) (bytes : List ℕ)
    → read_exact_at file s ≡ ok bytes
    → bytes ≡ map (byte_at file) (range s.offset s.size)
unfolding read_exact_at
read_exact_at_lem file s bytes h =
    elim (Bool-cases (s.size == 0 || leb (s.offset + s.size) (length file))) [
      | inl t ↦ cc (rw t at h) ∙ cut_or_empty file s.offset s.size t
      | inr f ↦ cc (rw f at h)
    ]

pub length-map-range : (file : List ℕ) (o n : ℕ) → length (map (byte_at file) (range o n)) ≡ n
length-map-range file o zero = refl
length-map-range file o (suc n) = ap suc (length-map-range file (o + 1) n)

pub length-zeros : (n : ℕ) → length (zeros n) ≡ n
length-zeros zero = refl
length-zeros (suc n) = ap suc (length-zeros n)

pub length-covers :
    (s : SourceSlice) (rest : List SourceSlice)
    → length (covers (s ∷ rest)) ≡ s.size + length (covers rest)
length-covers s rest =
    omega (arith, length-append (range s.offset s.size) (covers rest), length-range s.offset s.size)

-- What is filled, `part` behind it, and what is left of the buffer.
fill :
    (filled part left : List ℕ) (n : ℕ)
    → take (length filled) (filled ++ left) ++ (part ++ drop (length filled + n) (filled ++ left))
      ≡ (filled ++ part) ++ drop n left
fill filled part left n =
    rw
      (
        take-append_le (length filled) filled left (omega arith),
        take_all (length filled) filled (omega arith),
        sym (drop-drop (length filled) n (filled ++ left)),
        drop-append filled left,
      )
      (sym (append_assoc filled part (drop n left)))

-- A round of the loop with room in the buffer for the slice.
module _ (file filled left : List ℕ) (s : SourceSlice) (rest : List SourceSlice)
    (few : length filled + length left < u64_mod) (room : s.size ≤ length left) where
  pub read_slices-round :
      (part : List ℕ)
      → length part ≡ s.size
      → read_exact_at file s ≡ ok part
      → read_slices file (length filled) (filled ++ left) (s ∷ rest)
        ≡ read_slices file (length (filled ++ part)) ((filled ++ part) ++ drop s.size left) rest
  unfolding read_slices
  read_slices-round part count reads =
      let e : add64 (length filled) s.size ≡ length filled + s.size = omega arith in
      let e' : length (filled ++ part) ≡ length filled + s.size =
        omega (arith, length-append filled part, count) in
      rw
        (
          e,
          le→leb (length filled) (length filled + s.size) (omega arith),
          le→leb (length filled + s.size) (length (filled ++ left))
              (omega (arith, length-append filled left)),
          reads,
          e',
          fill filled part left s.size,
        )
        refl

  read_slices-step :
      (bytes : List ℕ)
      → read_slices file (length filled) (filled ++ left) (s ∷ rest) ≡ ok bytes
      → (part : List ℕ) × (read_exact_at file s ≡ ok part)
  unfolding read_slices
  read_slices-step bytes h =
      let e : add64 (length filled) s.size ≡ length filled + s.size = omega arith in
      let (part, first, others) = both_steps_ok (read_exact_at file s) (
        rw
          (
            e,
            le→leb (length filled) (length filled + s.size) (omega arith),
            le→leb (length filled + s.size) (length (filled ++ left))
                (omega (arith, length-append filled left)),
          )
          at h) in
      (part, first)

read_slices_lem :
    (file filled left : List ℕ) (slices : List SourceSlice) (bytes : List ℕ)
    → length filled + length left < u64_mod
    → length left ≡ length (covers slices)
    → read_slices file (length filled) (filled ++ left) slices ≡ ok bytes
    → bytes ≡ filled ++ map (byte_at file) (covers slices)
unfolding read_slices
read_slices_lem file filled [] [] bytes few same h = cc
read_slices_lem file filled (x ∷ left) [] bytes few same h = absurd (omega (arith, same))
read_slices_lem file filled left (s ∷ rest) bytes few same h =
    let total = length-covers s rest in
    let (part, first) = read_slices-step file filled left s rest few (omega arith) bytes h in
    let content = read_exact_at_lem file s part first in
    let count : length part ≡ s.size = ap length content ∙ length-map-range file s.offset s.size in
    read_slices_lem file (filled ++ part) (drop s.size left) rest bytes
      (omega (arith, length-append filled part, length-drop s.size left))
      (omega (arith, length-drop s.size left))
      (sym (read_slices-round file filled left s rest few (omega arith) part count first) ∙ h)
    ∙ append_assoc filled part (map (byte_at file) (covers rest))
    ∙ ap (λ l. filled ++ (l ++ map (byte_at file) (covers rest))) content
    ∙ ap (λ l. filled ++ l) (sym (map-append (byte_at file) (range s.offset s.size) (covers rest)))

pub view_of-content :
    (file : List ℕ) (slices : List SourceSlice) (bytes : List ℕ)
    → length (covers slices) < u64_mod
    → view_of file slices ≡ ok bytes
    → bytes ≡ map (byte_at file) (covers slices)
unfolding view_of
view_of-content file slices bytes small h =
    let total = sum_sizes_lem 0 slices (omega arith) in
    let count = length-zeros (sum_sizes 0 slices) in
    elim (Bool-cases (ltb (sum_sizes 0 slices) (2 ^ 63))) [
      | inl fits ↦
          read_slices_lem file [] (zeros (sum_sizes 0 slices)) slices bytes (omega arith)
            (omega arith) (rw fits at h)
      | inr large ↦ cc (rw large at h)
    ]

-- A file of fixed content is a source: the default implementation keeps the promise of the trait.
abbrev pub read_seek : List ℕ → Source
read_seek file = record {
  view = view_of file;
  content = byte_at file;
  view-content = view_of-content file;
}
