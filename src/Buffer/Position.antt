-- ===== src/Buffer/Position.antt =====
-- src/common.rs: where the operations of `ParseBuffer` leave the position.
use pdb.Prelude.{
  ℕ, ◌+◌, ◌-◌, ◌%◌, ◌^◌, ◌≤◌, ◌<◌, ◌≡◌, ap, length, take, arith, ◌⊎◌, inl, inr, ◌↔◌, true,
  length-drop, leb, ◌==◌, if◌then◌else◌, Bool-cases, ==_iff, sym, ◌∙◌, false,
}
use native.Mathlib.Nat.{mod-lt, mod_self, mod-add-mod, add-zero}
use pdb.Errors.{ok, err, unexpected_eof}
use pdb.Buffer.State.{ParseBuffer, len, is_empty, seek, align, take_bytes}
use pdb.Buffer.Parse.{advance, ahead}

-- The position lies in the slice, and the slice is no longer than Rust allows a slice to be.
pub record IsValid (b : ParseBuffer) : Type 0 where
  pub within : b.pos ≤ length b.bytes
  pub small : length b.bytes < 2 ^ 63

pub len_lem : (b : ParseBuffer) → IsValid b → len b ≡ length b.bytes - b.pos
unfolding len
len_lem b v = ground arith

pub is_empty_iff : (b : ParseBuffer) → IsValid b → (is_empty b ≡ true) ↔ (b.pos ≡ length b.bytes)
unfolding is_empty
is_empty_iff b v = (λ h. ground arith, λ h. ground arith)

pub seek-IsValid : (n : ℕ) (b : ParseBuffer) → IsValid b → IsValid (seek n b)
unfolding seek
seek-IsValid n b v = omega arith

pub take_bytes_lem :
    (n : ℕ) (b : ParseBuffer)
    → IsValid b
    → ((take_bytes n b ≡ (ok (take n (ahead b)), advance n b)) × (b.pos + n ≤ length b.bytes))
      ⊎ ((take_bytes n b ≡ (err unexpected_eof, b)) × (length b.bytes < b.pos + n))
unfolding take_bytes
take_bytes_lem n b v = ground (arith, length-drop b.pos b.bytes)

-- The bytes from a position to the next multiple of `alignment`.
abbrev pub padding : ℕ → ℕ → ℕ
padding alignment pos = if pos % alignment == 0 then 0 else alignment - pos % alignment

pub padding_lem :
    (alignment pos : ℕ)
    → 0 < alignment
    → (padding alignment pos < alignment) × ((pos + padding alignment pos) % alignment ≡ 0)
padding_lem alignment pos h = (grind (arith, mod-lt), multiple (Bool-cases (pos % alignment == 0)))
  where
    bound : pos % alignment < alignment
    bound = mod-lt pos h

    fill : pos % alignment + (alignment - pos % alignment) ≡ alignment
    fill = omega (arith, bound)

    multiple :
        ((pos % alignment == 0) ≡ true) ⊎ ((pos % alignment == 0) ≡ false)
        → (pos + padding alignment pos) % alignment ≡ 0
    multiple (inl e) = rw e (rw add-zero ((==_iff _ _).0 e))
    multiple (inr e) = rw e (
        sym (mod-add-mod pos alignment (alignment - pos % alignment))
        ∙ ap (λ (n : ℕ). n % alignment) fill
        ∙ mod_self alignment)

-- `align` from a valid buffer, for any alignment but 0: it moves to the next multiple, which may be the
-- position itself, or fails and stays where that multiple lies past the end.
pub align_lem :
    (alignment : ℕ) (b : ParseBuffer)
    → 0 < alignment
    → IsValid b
    → align alignment b ≡ (
        if leb (b.pos + padding alignment b.pos) (length b.bytes)
        then (ok tt, advance (padding alignment b.pos) b)
        else (err unexpected_eof, b))
unfolding align
align_lem alignment b pos v = ground (arith, mod-lt b.pos {m = alignment})
