-- ===== src/Modi/Lines/Entries.antt =====
-- src/modi/c13.rs: what a line entry says.
use pdb.Prelude.{
  ℕ, ◌+◌, ◌*◌, ◌/◌, ◌^◌, ◌%◌, ◌<◌, ◌≡◌, ◌≢◌, refl, sym, ap, ◌∙◌, ltb, ◌==◌, if◌then◌else◌, bit_and,
  bit_or, arith, false, add32,
}
use pdb.Prelude.Bits.{ones, bit_and-ones, bit_and-ones_low, bit_and-shifted, bit_or-shifted}
use pdb.Modi.Lines.{LineInfoKind, statement, expression, number, line_entry, end_line_from}

low_digits : (k x q r : ℕ) → x ≡ q * 2 ^ k + r → r < 2 ^ k → bit_and x (ones k) ≡ r
low_digits k x q r e h = rw e (bit_and-ones_low k q r h)

end_line_lem : (start : ℕ) → start < 2 ^ 24 → end_line_from start (start % 128) ≡ start
end_line_lem start h = rw joined same
  where
    split : start ≡ start / 128 * 2 ^ 7 + start % 128
    split = omega arith

    high : bit_and start 0xffffff80 ≡ start / 128 * 2 ^ 7
    high =
        ap (λ (t : ℕ). bit_and t 0xffffff80) split
        ∙ bit_and-shifted 7 (start / 128) (start % 128) 0x1ffffff (omega arith)
        ∙ ap (λ (t : ℕ). t * 2 ^ 7) (bit_and-ones 25 (start / 128) (omega arith))

    joined : bit_or (bit_and start 0xffffff80) (start % 128) ≡ start
    joined =
        ap (λ (t : ℕ). bit_or t (start % 128)) high
        ∙ bit_or-shifted 7 (start / 128) (start % 128) (omega arith)
        ∙ sym split

    same : (if ltb start start then add32 start 128 else start) ≡ start
    same = ground arith

-- The flags of a line: where it starts, the digits of where it ends, and whether it is a statement.
abbrev pub flags_of : ℕ → ℕ → ℕ → ℕ
flags_of start ending kind = start + ending * 2 ^ 24 + kind * 2 ^ 31

abbrev pub kind_of : ℕ → LineInfoKind
kind_of kind = if kind == 0 then expression else statement

kind_lem :
    (start ending kind : ℕ)
    → start < 2 ^ 24
    → ending < 128
    → kind < 2
    → bit_and (flags_of start ending kind) 0x80000000 ≡ kind * 2 ^ 31
kind_lem start ending kind h h' h'' =
    ap (λ (t : ℕ). bit_and t 0x80000000) split
    ∙ bit_and-shifted 31 kind (start + ending * 2 ^ 24) 1 (omega arith)
    ∙ ap (λ (t : ℕ). t * 2 ^ 31) (bit_and-ones 1 kind (omega arith))
  where
    split : flags_of start ending kind ≡ kind * 2 ^ 31 + (start + ending * 2 ^ 24)
    split = omega arith

test_fails : (a b : ℕ) → a ≢ b → (a == b) ≡ false
test_fails a b h = ground arith

-- A line entry that is no marker is read as the line and the kind that it was written with, and with
-- an end line that equals the start line: the seven digits of the end line in the flags, whatever they
-- are, have no effect.
pub line_entry-flags_of :
    (offset start ending kind : ℕ)
    → start < 2 ^ 24
    → ending < 128
    → kind < 2
    → start ≢ 0xfeefee
    → start ≢ 0xf00f00
    → line_entry (record { offset = offset; flags = flags_of start ending kind })
      ≡ number
          (record { offset = offset; start_line = start; end_line = start; kind = kind_of kind })
unfolding line_entry
line_entry-flags_of offset start ending kind h h' h'' no_step no_enter =
    rw
      (
        start_there,
        delta_there,
        kind_there,
        test_fails start _ no_step,
        test_fails start _ no_enter,
        end_line_lem start h,
      )
      refl
  where
    start_there : bit_and (flags_of start ending kind) (ones 24) ≡ start
    start_there = low_digits 24 _ (ending + kind * 2 ^ 7) start (omega arith) h

    delta_there : bit_and (flags_of start ending kind) (ones 7) ≡ start % 128
    delta_there =
        low_digits 7 _ (start / 128 + ending * 2 ^ 17 + kind * 2 ^ 24) (start % 128) (omega arith)
          (omega arith)

    kind_there : (bit_and (flags_of start ending kind) 0x80000000 == 0) ≡ (kind == 0)
    kind_there = rw (kind_lem start ending kind h h' h'') (ground arith)
