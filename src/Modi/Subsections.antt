-- ===== src/Modi/Subsections.antt =====
-- src/modi/c13.rs: the subsections of the line program of a module, and the inlinees.
use pdb.Prelude.{
  ℕ, suc, ◌*◌, List, [], length, drop, Bool, Option, none, some, leb, ◌==◌, ◌&&◌, if◌then◌else◌,
}
use pdb.Errors.{Result, ok, err, panic, unimplemented_debug_subsection}
use pdb.Errors
use pdb.Scroll.{Scroll}
use pdb.Buffer.State.{at_once, Parser, ◌>>=◌, return, fail, from_bytes, parse_u32, take_bytes}
use pdb.Buffer.Loop.{while_more}
use pdb.Buffer.Items.{unless_empty}

-- The kinds of subsections by their number, from `Symbols` at 0xf1 to `CoffSymbolRva` at 0xfd.
abbrev pub DebugSubsectionKind : Type 0
DebugSubsectionKind = ℕ

-- `DEBUG_S_IGNORE`.
abbrev pub debug_s_ignore : ℕ
debug_s_ignore = 0x80000000

-- `DebugSubsectionKind::parse`.
unfoldable pub subsection_kind : ℕ → Result (Option DebugSubsectionKind)
subsection_kind value =
    if leb 0xf1 value && leb value 0xfd
    then ok (some value)
    else if value == debug_s_ignore
    then ok none
    else err (unimplemented_debug_subsection value)

pub record DebugSubsection : Type 0 where
  pub kind : DebugSubsectionKind
  pub bytes : List ℕ

-- What the loop does with the kind: an error, the next round, or a subsection.
abbrev pub by_kind :
    Result (Option DebugSubsectionKind)
    → List ℕ
    → Parser (Option DebugSubsection)
    → Parser (Option DebugSubsection)
by_kind (ok none) bytes more = more
by_kind (ok (some kind)) bytes more = return (some (record { kind = kind; bytes = bytes }))
by_kind (err e) bytes more = fail e
by_kind panic bytes more = λ b. (panic, b)

abbrev pub choose : ℕ × List ℕ → Parser (Option DebugSubsection) → Parser (Option DebugSubsection)
choose (kind, bytes) more = by_kind (subsection_kind kind) bytes more

-- `DebugInlineeLinesHeader::has_extra_files` for its signature.
abbrev pub has_extra_files : ℕ → Bool
has_extra_files signature = signature == 1

pub record InlineeSourceLine : Type 0 where
  pub inlinee : ℕ
  pub file_id : ℕ
  pub line : ℕ
  pub extra_files : List ℕ

-- `DebugInlineeLinesSubsection`: the signature, and the bytes behind it.
pub record DebugInlineeLinesSubsection : Type 0 where
  pub signature : ℕ
  pub bytes : List ℕ

module _ (sc : Scroll) where
  unfoldable pub read_subsection : Parser (ℕ × List ℕ)
  read_subsection = do
    (kind, len) ← at_once (parse_u32 sc >>= λ kind. parse_u32 sc >>= λ len. return (kind, len))
    bytes ← take_bytes len
    return (kind, bytes)

  -- `DebugSubsectionIterator::next`.
  unfoldable pub next_subsection : Parser (Option DebugSubsection)
  unfolding while_more
  next_subsection b = while_more read_subsection choose (suc (length b.bytes)) b

  -- `InlineeSourceLine::try_from_ctx`.
  unfoldable pub parse_inlinee : ℕ → Parser InlineeSourceLine
  parse_inlinee signature = do
    inlinee ← parse_u32 sc
    file_id ← parse_u32 sc
    line ← parse_u32 sc
    extra_files ←
        if has_extra_files signature
        then (parse_u32 sc >>= λ file_count. take_bytes (file_count * 4))
        else return []
    return (record { inlinee = inlinee; file_id = file_id; line = line; extra_files = extra_files })

  -- `DebugInlineeLinesIterator::next`.
  unfoldable pub next_inlinee : ℕ → Parser (Option InlineeSourceLine)
  next_inlinee signature = unless_empty (at_once (parse_inlinee signature))

  -- `DebugInlineeLinesSubsection::parse`.
  unfoldable pub inlinees_of : List ℕ → Result DebugInlineeLinesSubsection
  inlinees_of bytes =
      let (signature, buf) = parse_u32 sc (from_bytes bytes) in
      Errors.◌>>=◌ signature
        (λ signature. ok (record { signature = signature; bytes = drop buf.pos bytes }))
