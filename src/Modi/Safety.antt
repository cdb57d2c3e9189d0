-- ===== src/Modi/Safety.antt =====
-- src/modi/c13.rs: the iterators over subsections, inlinees, lines and checksums, on any bytes.
use pdb.Prelude.{
  ℕ, suc, ◌≤◌, ◌<◌, ◌≡◌, ◌≢◌, refl, length, List, arith, Bool, true, false, Option, none, some,
  if◌then◌else◌, ◌==◌,
}
use pdb.Errors.{Result, ok, err, panic}
use pdb.Scroll.{Scroll, u16, u32}
use pdb.Buffer.State.{ParseBuffer, Parser}
use pdb.Buffer.Position.{IsValid}
use pdb.Buffer.Advance.{
  Forward-at_once, Forward, Forward-bind, Forward-one, Forward-less, Forward-return, Forward-fail,
  Forward-take_bytes, Forward-align,
}
use pdb.Buffer.Fields.{Forward-first, Forward-field}
use pdb.Buffer.Items.{Steps, StepsAt, Steps-unless_empty, collect, Ends, collect-Ends}
use pdb.Buffer.Loop.{Chooses, Steps-while_more}
use pdb.Modi.Subsections.{
  DebugSubsection, DebugSubsectionKind, by_kind, has_extra_files, subsection_kind, read_subsection,
  choose, next_subsection, parse_inlinee, next_inlinee,
}
use pdb.Modi.Lines.{parse_line, next_line, parse_column, next_column}
use pdb.Modi.Checksums.{parse_checksum_header, checksum_of, parse_entry, next_entry}

Forward-if :
    {A : Type 0} {m k : Parser A} (c : Bool)
    → Forward m 0
    → Forward k 0
    → Forward (if c then m else k) 0
Forward-if true f g = f
Forward-if false f g = g

subsection_kind_cases : (kind : ℕ) → subsection_kind kind ≢ panic
unfolding subsection_kind
subsection_kind_cases kind = ground arith

-- A kind that is unknown is an error, and no kind makes the loop panic.
Chooses-choose : (sc : Scroll) → Chooses (read_subsection sc) choose
Chooses-choose sc = record {
  chosen = λ (kind, bytes). by_case (subsection_kind kind) (subsection_kind_cases kind) bytes;
}
  where
    by_case :
        (r : Result (Option DebugSubsectionKind))
        → (r ≢ panic)
        → (bytes : List ℕ) (more : Parser (Option DebugSubsection)) (b after : ParseBuffer)
        → after.bytes ≡ b.bytes
        → b.pos < after.pos
        → after.pos ≤ length b.bytes
        → StepsAt b (more after)
        → StepsAt b (by_kind r bytes more after)
    by_case (ok none) known bytes more b after same onward within h = h
    by_case (ok (some kind)) known bytes more b after same onward within h = (same, onward, within)
    by_case (err e) known bytes more b after same onward within h = tt
    by_case panic known bytes more b after same onward within h = absurd (known refl)

module _ (sc : Scroll) where
  Forward-read_subsection : Forward (read_subsection sc) 4
  unfolding read_subsection
  Forward-read_subsection =
      Forward-bind
        (Forward-at_once
          (Forward-first sc u32 λ kind. Forward-field sc u32 λ len. Forward-return (kind, len)))
        λ (kind, len).
          Forward-bind (Forward-less (Forward-take_bytes len)) λ bytes. Forward-return _

  Forward-parse_inlinee : (signature : ℕ) → Forward (parse_inlinee sc signature) 4
  unfolding parse_inlinee
  Forward-parse_inlinee signature = Forward-first sc u32 λ inlinee. Forward-field sc u32 λ file_id.
      Forward-field sc u32 λ line.
        Forward-bind
          (Forward-if (has_extra_files signature)
            (Forward-field sc u32 λ count. Forward-less (Forward-take_bytes _)) (Forward-return _))
          λ extra_files. Forward-return _

  Forward-parse_line : Forward (parse_line sc) 4
  unfolding parse_line
  Forward-parse_line = Forward-first sc u32 λ offset. search (Forward-field, Forward-return)

  Forward-parse_column : Forward (parse_column sc) 2
  unfolding parse_column
  Forward-parse_column = Forward-first sc u16 λ start_column. search (Forward-field, Forward-return)

  Forward-checksum_of : (kind : ℕ) (bytes : List ℕ) → Forward (checksum_of kind bytes) 0
  Forward-checksum_of kind bytes = Forward-if (kind == 0) (Forward-return _) (
      Forward-if (kind == 1) (Forward-return _) (
        Forward-if (kind == 2) (Forward-return _)
          (Forward-if (kind == 3) (Forward-return _) (Forward-fail _))))

  Forward-parse_checksum_header : Forward (parse_checksum_header sc) 4
  unfolding parse_checksum_header
  Forward-parse_checksum_header =
      Forward-first sc u32 λ name. search (Forward-field, Forward-return)

  Forward-parse_entry : Forward (parse_entry sc) 4
  unfolding parse_entry
  Forward-parse_entry = Forward-bind (Forward-at_once Forward-parse_checksum_header) λ header.
      Forward-bind (Forward-less (Forward-take_bytes header.checksum_size)) λ bytes.
        Forward-bind (Forward-checksum_of header.checksum_kind bytes)
          λ checksum. Forward-bind (Forward-align 4 (omega arith)) λ aligned. Forward-return _

  Steps-next_subsection : Steps (next_subsection sc)
  unfolding next_subsection
  Steps-next_subsection =
      Steps-while_more (read_subsection sc) choose (Forward-one Forward-read_subsection)
        (Chooses-choose sc)

  -- On any bytes that a slice can hold, from any position in them, the iterations over subsections, over
  -- inlinees in either format, over the line entries and the column entries of a block, and over file
  -- checksums come to an end, with all items or at an error, within one call more than there are
  -- bytes, and never panic.
  pub next_subsection-Ends :
      (signature : ℕ) (b : ParseBuffer)
      → IsValid b
      → Ends (collect (suc (length b.bytes)) (next_subsection sc) b)
        × Ends (collect (suc (length b.bytes)) (next_inlinee sc signature) b)
        × Ends (collect (suc (length b.bytes)) (next_line sc) b)
        × Ends (collect (suc (length b.bytes)) (next_column sc) b)
        × Ends (collect (suc (length b.bytes)) (next_entry sc) b)
  unfolding next_inlinee next_line next_column next_entry
  next_subsection-Ends signature b v = (
    ends Steps-next_subsection,
    ends (Steps-unless_empty _ (Forward-one (Forward-at_once (Forward-parse_inlinee signature)))),
    ends (Steps-unless_empty _ (Forward-one (Forward-at_once Forward-parse_line))),
    ends (Steps-unless_empty _ (Forward-one (Forward-at_once Forward-parse_column))),
    ends (Steps-unless_empty _ (Forward-one Forward-parse_entry)),
  )
    where
      ends :
          {A : Type 0} {next : Parser (Option A)}
          → Steps next
          → Ends (collect (suc (length b.bytes)) next b)
      ends {next = next} steps = collect-Ends next (suc (length b.bytes)) b steps v (omega arith)
