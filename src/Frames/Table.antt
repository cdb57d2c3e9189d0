-- ===== src/Frames/Table.antt =====
-- src/framedata.rs: `AddrRange`, `binary_search_by_rva` and `FrameTable`.
use pdb.Prelude.{
  ℕ, zero, suc, ◌/◌, List, [], ◌∷◌, Bool, true, false, ◌&&◌, Option, none, some, length, take, drop,
  map, get_elem?, le_value, leb, ltb, if◌then◌else◌, add32,
}
use pdb.Errors.{Result, ok, err, panic, invalid_stream_length, Error, ◌>>=◌, ◌>>◌}
use pdb.Omap.Search.{Found, found, insert_at, binary_search}
use pdb.Omap.Table.{cast_aligned}
use pdb.Frames.{OldFrameData, NewFrameData}
use pdb.Frames.Iter.{FrameDataIter}

pub record AddrRange (R : Type 0) : Type 0 where
  pub start : R → ℕ
  pub size : R → ℕ

abbrev pub old_range : AddrRange OldFrameData
old_range = record { start = λ f. f.code_start; size = λ f. f.code_size }

abbrev pub new_range : AddrRange NewFrameData
new_range = record { start = λ f. f.code_start; size = λ f. f.code_size }

module _ {R : Type 0} (a : AddrRange R) where
  abbrev pub end : R → ℕ
  end f = add32 (a.start f) (a.size f)

  abbrev pub contains : R → ℕ → Bool
  contains f rva = leb (a.start f) rva && ltb rva (end f)

  -- The index that a search gives, or the one before where that frame contains the address.
  unfoldable pub settle : List R → ℕ → Found → ℕ
  settle frames rva (found index) = index
  settle frames rva (insert_at zero) = zero
  settle frames rva (insert_at (suc before)) = elim (get_elem? frames before) [
    | none ↦ suc before
    | some f ↦ if contains f rva then before else suc before
  ]

  unfoldable pub binary_search_by_rva : List R → ℕ → ℕ
  unfolding settle
  binary_search_by_rva frames rva = settle frames rva (binary_search (map a.start frames) rva)

-- The bytes cut into pieces of a size, as many as are asked for.
abbrev pub chunks : ℕ → ℕ → List ℕ → List (List ℕ)
chunks zero size bytes = []
chunks (suc count) size bytes = take size bytes ∷ chunks count size (drop size bytes)

abbrev pub field : List ℕ → ℕ → ℕ → ℕ
field bytes offset size = le_value (take size (drop offset bytes))

-- `#[repr(C)]` lays the fields out in their order, without padding here.
abbrev pub old_frame : List ℕ → OldFrameData
old_frame b = record {
  code_start = field b 0 4;
  code_size = field b 4 4;
  locals_size = field b 8 4;
  params_size = field b 12 2;
  attributes = field b 14 2;
}

abbrev pub new_frame : List ℕ → NewFrameData
new_frame b = record {
  code_start = field b 0 4;
  code_size = field b 4 4;
  locals_size = field b 8 4;
  params_size = field b 12 4;
  max_stack_size = field b 16 4;
  frame_func = field b 20 4;
  prolog_size = field b 24 2;
  saved_regs_size = field b 26 2;
  flags = field b 28 4;
}

abbrev pub decode_old : List ℕ → List OldFrameData
decode_old bytes = map old_frame (chunks (length bytes / 16) 16 bytes)

abbrev pub decode_new : List ℕ → List NewFrameData
decode_new bytes = map new_frame (chunks (length bytes / 32) 32 bytes)

-- A stream by its bytes, and whether they are aligned in memory.
pub record FrameStream : Type 0 where
  pub bytes : List ℕ
  pub aligned : Bool

pub record FrameTable : Type 0 where
  pub old_stream : Option FrameStream
  pub new_stream : Option FrameStream

abbrev pub old_of : FrameStream → Option (List OldFrameData)
old_of s = cast_aligned 16 decode_old s.aligned s.bytes

abbrev pub new_of : FrameStream → Option (List NewFrameData)
new_of s = cast_aligned 32 decode_new s.aligned s.bytes

-- `cast_aligned(..).is_none()` is an error, where there is a stream.
abbrev pub check_stream :
    {A : Type 0} → (FrameStream → Option (List A)) → Error → Option FrameStream → Result (Unit {0})
check_stream cast e none = ok tt
check_stream cast e (some s) = elim (cast s) [ none ↦ err e | some frames ↦ ok tt ]

unfoldable pub parse : Option FrameStream → Option FrameStream → Result FrameTable
parse old_stream new_stream =
    check_stream old_of (invalid_stream_length "FrameData") old_stream
    >> check_stream new_of (invalid_stream_length "FPO") new_stream
    >> ok (record { old_stream = old_stream; new_stream = new_stream })

-- `unwrap` panics where the cast fails.
abbrev pub frames_of :
    {A : Type 0} → (FrameStream → Option (List A)) → Option FrameStream → Result (List A)
frames_of cast none = ok []
frames_of cast (some s) = elim (cast s) [ none ↦ panic | some frames ↦ ok frames ]

unfoldable pub old_frames : FrameTable → Result (List OldFrameData)
old_frames t = frames_of old_of t.old_stream

unfoldable pub new_frames : FrameTable → Result (List NewFrameData)
new_frames t = frames_of new_of t.new_stream

unfoldable pub iter : FrameTable → Result FrameDataIter
unfolding old_frames new_frames
iter t = do
  old ← old_frames t
  new ← new_frames t
  ok (record { old_frames = old; new_frames = new; old_index = 0; new_index = 0 })

unfoldable pub iter_at_rva : FrameTable → ℕ → Result FrameDataIter
unfolding old_frames new_frames binary_search_by_rva
iter_at_rva t rva = do
  old ← old_frames t
  new ← new_frames t
  ok (record {
    old_frames = old;
    new_frames = new;
    old_index = binary_search_by_rva old_range old rva;
    new_index = binary_search_by_rva new_range new rva;
  })

abbrev pub none_in : {A : Type 0} → List A → Bool
none_in [] = true
none_in (x ∷ xs) = false

-- `&&` leaves its right side alone where the left one is false.
unfoldable pub is_empty : FrameTable → Result Bool
unfolding old_frames new_frames
is_empty t = do
  new ← new_frames t
  (if none_in new then (old_frames t >>= λ old. ok (none_in old)) else ok false)
