-- ===== src/Streams.antt =====
-- src/common.rs: `StreamIndex`, the number of a stream or the absence of one.
use pdb.Prelude.{ℕ, Bool, not, Option, none, some, ◌==◌, if◌then◌else◌}
use pdb.Scroll.{Scroll}
use pdb.Buffer.State.{Parser, parse_u16}

-- A 16-bit number.
abbrev pub StreamIndex : Type 0
StreamIndex = ℕ

-- `StreamIndex::none`.
abbrev pub no_stream : StreamIndex
no_stream = 0xffff

abbrev pub is_none : StreamIndex → Bool
is_none s = s == no_stream

abbrev pub is_some : StreamIndex → Bool
is_some s = not (s == no_stream)

unfoldable pub msf_number : StreamIndex → Option ℕ
msf_number s = if s == no_stream then none else some s

-- `parse` at `StreamIndex`.
abbrev pub parse_stream_index : Scroll → Parser StreamIndex
parse_stream_index sc = parse_u16 sc
