-- ===== src/Frames/Iter.antt =====
-- src/framedata.rs: `FrameDataIter`.
use pdb.Prelude.{
  ℕ, zero, suc, ◌+◌, List, [], ◌∷◌, Option, none, some, length, get_elem?, ltb, ◌==◌, if◌then◌else◌,
}
use pdb.Frames.{OldFrameData, NewFrameData, FrameData, from_old, from_new}

pub record FrameDataIter : Type 0 where
  pub old_frames : List OldFrameData
  pub new_frames : List NewFrameData
  pub old_index : ℕ
  pub new_index : ℕ

abbrev pub newer : FrameDataIter → FrameDataIter
newer it = record it { new_index = it.new_index + 1 }

abbrev pub older : FrameDataIter → FrameDataIter
older it = record it { old_index = it.old_index + 1 }

-- The match on the frames at the two indexes.
abbrev pub choose :
    FrameDataIter → Option OldFrameData → Option NewFrameData → Option FrameData × FrameDataIter
choose it none none = (none, it)
choose it none (some new) = (some (from_new new), newer it)
choose it (some old) none = (some (from_old old), older it)
choose it (some old) (some new) =
    if ltb new.code_start old.code_start
    then (some (from_new new), newer it)
    else if new.code_start == old.code_start
    then (some (from_new new), older (newer it))
    else (some (from_old old), older it)

-- The next frame, if there is one, and the iterator after it.
unfoldable pub next : FrameDataIter → Option FrameData × FrameDataIter
next it = choose it (get_elem? it.old_frames it.old_index) (get_elem? it.new_frames it.new_index)

abbrev pub before : Option FrameData → List FrameData → List FrameData
before none rest = []
before (some frame) rest = frame ∷ rest

-- The items of the iterator, for as many calls of `next` as there is fuel.
unfoldable pub collect_within : ℕ → FrameDataIter → List FrameData
collect_within zero it = []
collect_within (suc fuel) it =
    let (item, after) = next it in before item (collect_within fuel after)

unfoldable pub collect : FrameDataIter → List FrameData
unfolding collect_within
collect it = collect_within (length it.old_frames + length it.new_frames) it
