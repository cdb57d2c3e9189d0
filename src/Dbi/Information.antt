-- ===== src/Dbi/Information.antt =====
-- src/dbi.rs: `DebugInformation` and the parts of its stream.
use pdb.Prelude.{ℕ, List, Bool, not, Option, none, some, bit_and, ◌==◌, if◌then◌else◌, add64}
use pdb.Errors.{Result, ok, err, panic}
use pdb.Scroll.{Scroll}
use pdb.Buffer.State.{ParseBuffer, Parser, ◌>>=◌, ◌>>◌, return, from_bytes, take_bytes}
use pdb.Dbi.Header.{DbiHeader, parse_header, MachineType, machine_type_of}
use pdb.Dbi.Contributions.{DbiSectionContributionStreamVersion, parse_contributions}
use pdb.Dbi.SectionMap.{DbiSectionCounts, parse_section_map}
use pdb.Types.Header.{position}

pub record DebugInformation : Type 0 where
  pub stream : List ℕ
  pub header : DbiHeader
  pub header_len : ℕ

unfoldable pub machine_type : DebugInformation → Result MachineType
unfolding machine_type_of
machine_type d = ok (machine_type_of d.header.machine_type)

unfoldable pub age : DebugInformation → Option ℕ
age d = if d.header.age == 0 then none else some d.header.age

unfoldable pub is_stripped : DebugInformation → Bool
is_stripped d = not (bit_and d.header.flags 0x2 == 0)

-- The bytes of a part that lies behind `offset` bytes of the stream.
unfoldable pub part_of : ℕ → ℕ → DebugInformation → Result (List ℕ)
part_of offset size d = ((take_bytes offset >> take_bytes size) (from_bytes d.stream)).0

-- An iterator starts behind what its own parser reads of the part.
abbrev pub opened : {A : Type 0} → Parser A → Result (List ℕ) → Result (A × ParseBuffer)
opened parser (ok bytes) = elim (parser (from_bytes bytes)).0 [
  | ok a ↦ ok (a, (parser (from_bytes bytes)).1)
  | err e ↦ err e
  | panic ↦ panic
]
opened parser (err e) = err e
opened parser panic = panic

-- The buffer of the iterator over the modules.
unfoldable pub modules : DebugInformation → Result ParseBuffer
unfolding part_of
modules d = elim (part_of d.header_len d.header.module_list_size d) [
  | ok bytes ↦ ok (from_bytes bytes)
  | err e ↦ err e
  | panic ↦ panic
]

module _ (sc : Scroll) where
  -- `DebugInformation::parse`.
  unfoldable pub parse : List ℕ → Result DebugInformation
  parse stream =
      ((do
        header ← parse_header sc
        header_len ← position
        return (record { stream = stream; header = header; header_len = header_len }))
        (from_bytes stream)).0

  unfoldable pub section_contributions :
      DebugInformation → Result (DbiSectionContributionStreamVersion × ParseBuffer)
  unfolding part_of
  section_contributions d =
      opened (parse_contributions sc) (
        part_of (add64 d.header_len d.header.module_list_size) d.header.section_contribution_size d)

  unfoldable pub section_map : DebugInformation → Result (DbiSectionCounts × ParseBuffer)
  unfolding part_of
  section_map d = opened (parse_section_map sc) (
      part_of
        (add64 (add64 d.header_len d.header.module_list_size) d.header.section_contribution_size)
        d.header.section_map_size d)
