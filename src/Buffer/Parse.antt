-- ===== src/Buffer/Parse.antt =====
-- src/common.rs: what the integer reads of `ParseBuffer` return, and where they leave the position.
use pdb.Prelude.{
  ℕ, ◌+◌, ◌^◌, ◌≤◌, ◌<◌, ◌≡◌, refl, sym, ap, ◌∙◌, inl, inr, List, ◌++◌, length, take, drop, leb,
  if◌then◌else◌, leb→le, leb→lt, Bool-cases, length-append, length-drop, drop-append, drop-drop,
  take-append_le, take_all, le_value, le_bytes, length-le_bytes, le_value-le_bytes, arith,
}
use pdb.Errors.{
  Result, ok, err, unexpected_eof, ScrollError, bad_offset, too_big, bad_input, custom, from_scroll,
}
use pdb.Scroll.{Width, u8, u16, u32, u64, size_of, Scrolled, read, failed, Scroll, IsShort}
use pdb.Buffer.State.{ParseBuffer, parse_uint, peek_uint}

-- The buffer with its position moved on by `n` bytes.
abbrev pub advance : ℕ → ParseBuffer → ParseBuffer
advance n b = record b { pos = b.pos + n }

-- What lies ahead of the position.
abbrev pub ahead : ParseBuffer → List ℕ
ahead b = drop b.pos b.bytes

pub size_of-pos : (w : Width) → 1 ≤ size_of w
size_of-pos u8 = omega arith
size_of-pos u16 = omega arith
size_of-pos u32 = omega arith
size_of-pos u64 = omega arith

IsShort-from_scroll : (e : ScrollError) → IsShort (failed e) → from_scroll e ≡ unexpected_eof
IsShort-from_scroll (bad_offset n) h = refl
IsShort-from_scroll (too_big n m) h = refl
IsShort-from_scroll (bad_input s) h = absurd h
IsShort-from_scroll (custom s) h = absurd h

module _ (sc : Scroll) where
  -- The step that `parse_uint` takes on what the reader returns.
  abbrev landed : Width → ParseBuffer → Scrolled → Result ℕ × ParseBuffer
  landed w b (read v) = (ok v, advance (size_of w) b)
  landed w b (failed e) = (err (from_scroll e), b)

  abbrev peeked : ParseBuffer → Scrolled → Result ℕ × ParseBuffer
  peeked b (read v) = (ok v, b)
  peeked b (failed e) = (err (from_scroll e), b)

  landed_short :
      (w : Width) (b : ParseBuffer) (r : Scrolled)
      → IsShort r
      → landed w b r ≡ (err unexpected_eof, b)
  landed_short w b (read v) h = absurd h
  landed_short w b (failed e) h = rw (IsShort-from_scroll e h)

  peeked_short : (b : ParseBuffer) (r : Scrolled) → IsShort r → peeked b r ≡ (err unexpected_eof, b)
  peeked_short b (read v) h = absurd h
  peeked_short b (failed e) h = rw (IsShort-from_scroll e h)

  parse_uint-landed :
      (w : Width) (b : ParseBuffer) → parse_uint sc w b ≡ landed w b (sc.pread w b.bytes b.pos)
  unfolding parse_uint
  parse_uint-landed w b = ground arith

  peek_uint-peeked :
      (w : Width) (b : ParseBuffer) → peek_uint sc w b ≡ peeked b (sc.pread w b.bytes b.pos)
  unfolding peek_uint
  peek_uint-peeked w b = ground arith

  pub parse_uint_fits :
      (w : Width) (b : ParseBuffer)
      → b.pos + size_of w ≤ length b.bytes
      → parse_uint sc w b ≡ (ok (le_value (take (size_of w) (ahead b))), advance (size_of w) b)
  parse_uint_fits w b h = parse_uint-landed w b ∙ ap (landed w b) (sc.pread-fits w b.bytes b.pos h)

  pub parse_uint_short :
      (w : Width) (b : ParseBuffer)
      → length b.bytes < b.pos + size_of w
      → parse_uint sc w b ≡ (err unexpected_eof, b)
  parse_uint_short w b h =
      parse_uint-landed w b ∙ landed_short w b _ (sc.pread-short w b.bytes b.pos h)

  -- An integer read at any position, well inside the slice or not: it reads the little-endian value
  -- of its bytes and moves past them if they are all there, and otherwise reports the end of the
  -- input and leaves the position.
  pub parse_uint_lem :
      (w : Width) (b : ParseBuffer)
      → parse_uint sc w b ≡ (
          if leb (b.pos + size_of w) (length b.bytes)
          then (ok (le_value (take (size_of w) (ahead b))), advance (size_of w) b)
          else (err unexpected_eof, b))
  parse_uint_lem w b = elim (Bool-cases (leb (b.pos + size_of w) (length b.bytes))) [
    | inl fits ↦ rw fits (parse_uint_fits w b (leb→le _ _ fits))
    | inr short ↦ rw short (parse_uint_short w b (leb→lt _ _ short))
  ]

  -- Peeking returns what reading would, and never moves the position.
  pub peek-parse_uint :
      (w : Width) (b : ParseBuffer) → peek_uint sc w b ≡ ((parse_uint sc w b).0, b)
  peek-parse_uint w b =
      peek_uint-peeked w b
      ∙ same (sc.pread w b.bytes b.pos)
      ∙ ap (λ (r : Result ℕ × ParseBuffer). (r.0, b)) (sym (parse_uint-landed w b))
    where
      same : (r : Scrolled) → peeked b r ≡ ((landed w b r).0, b)
      same (read v) = refl
      same (failed e) = refl

  fits_of_ahead :
      (n : ℕ) (b : ParseBuffer) (xs ys : List ℕ)
      → 1 ≤ n
      → length xs ≡ n
      → ahead b ≡ xs ++ ys
      → b.pos + n ≤ length b.bytes
  fits_of_ahead n b xs ys pos lx h =
      omega (arith, length-drop b.pos b.bytes, ap length h, length-append xs ys)

  -- Round trip: where the bytes ahead are a number's little-endian bytes, a read returns the number
  -- and leaves what follows them ahead.
  pub parse_uint-le_bytes :
      (w : Width) (b : ParseBuffer) (v : ℕ) (rest : List ℕ)
      → v < 256 ^ size_of w
      → ahead b ≡ le_bytes (size_of w) v ++ rest
      → (parse_uint sc w b ≡ (ok v, advance (size_of w) b)) × (ahead (advance (size_of w) b) ≡ rest)
  parse_uint-le_bytes w b v rest hv h = (
    parse_uint_fits w b (fits_of_ahead _ b _ rest (size_of-pos w) (length-le_bytes _ v) h)
        ∙ ap (λ (n : ℕ). (ok n, advance (size_of w) b)) value,
    sym (drop-drop b.pos (size_of w) b.bytes) ∙ ap (drop (size_of w)) h ∙ left,
  )
    where
      count : length (le_bytes (size_of w) v) ≡ size_of w
      count = length-le_bytes (size_of w) v

      front : take (size_of w) (le_bytes (size_of w) v ++ rest) ≡ le_bytes (size_of w) v
      front = take-append_le _ _ rest (omega (arith, count)) ∙ take_all _ _ (omega (arith, count))

      value : le_value (take (size_of w) (ahead b)) ≡ v
      value =
          ap (λ l. le_value (take (size_of w) l)) h ∙ ap le_value front ∙ le_value-le_bytes _ v hv

      left : drop (size_of w) (le_bytes (size_of w) v ++ rest) ≡ rest
      left =
          ap (λ (n : ℕ). drop n (le_bytes (size_of w) v ++ rest)) (sym count)
          ∙ drop-append (le_bytes (size_of w) v) rest
