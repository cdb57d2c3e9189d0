-- ===== src/Frames/Merge.antt =====
-- The order and the completeness of the frames that the iterator of src/framedata.rs gives.
use pdb.Prelude.{
  length-drop, ◌↔◌, Bool-cases, ℕ, zero, suc, ◌+◌, ◌≤◌, ◌≡◌, refl, ap, ◌∙◌, List, [], ◌∷◌, Option,
  none, some, length, drop, get_elem?, ltb, ◌==◌, if◌then◌else◌, map, arith, ◌⊎◌, inl, inr,
}
use pdb.Frames.{OldFrameData, NewFrameData, FrameData, from_old, from_new}
use pdb.Frames.Iter.{before, choose, newer, older, FrameDataIter, next, collect_within, collect}

-- Strictly ascending numbers, from a bound on.
abbrev pub AscendFrom : ℕ → List ℕ → Type 0
AscendFrom bound [] = Unit
AscendFrom bound (a ∷ rest) = (bound ≤ a) × AscendFrom (suc a) rest

abbrev pub starts : List FrameData → List ℕ
starts frames = map (λ f. f.code_start) frames

abbrev pub old_starts : List OldFrameData → List ℕ
old_starts frames = map (λ f. f.code_start) frames

abbrev pub new_starts : List NewFrameData → List ℕ
new_starts frames = map (λ f. f.code_start) frames

-- Is the number in the list?
abbrev pub Has : ℕ → List ℕ → Type 0
Has a [] = ⊥
Has a (x ∷ xs) = (a ≡ x) ⊎ Has a xs

module _ {A : Type 0} where
  drop-none : (xs : List A) (i : ℕ) → get_elem? xs i ≡ none → drop i xs ≡ []
  drop-none [] zero e = refl
  drop-none [] (suc i) e = refl
  drop-none (x ∷ xs) zero e = cc
  drop-none (x ∷ xs) (suc i) e = drop-none xs i e

  drop_behind :
      (xs : List A) (i : ℕ) (x : A) → get_elem? xs i ≡ some x → drop i xs ≡ x ∷ drop (suc i) xs
  drop_behind [] i x e = cc
  drop_behind (y ∷ xs) zero x e = cc
  drop_behind (y ∷ xs) (suc i) x e = drop_behind xs i x e

  drop-some :
      (xs : List A) (i : ℕ) (x : A) → get_elem? xs i ≡ some x → drop i xs ≡ x ∷ drop (i + 1) xs
  drop-some xs i x e =
      drop_behind xs i x e
      ∙ (let same : suc i ≡ i + 1 = omega arith in ap (λ (k : ℕ). x ∷ drop k xs) same)

-- The iterator on the frames that are ahead of its indexes.
unfoldable merged : ℕ → List OldFrameData → List NewFrameData → List FrameData
merged zero old new = []
merged (suc fuel) [] [] = []
merged (suc fuel) (o ∷ old) [] = from_old o ∷ merged fuel old []
merged (suc fuel) [] (n ∷ new) = from_new n ∷ merged fuel [] new
merged (suc fuel) (o ∷ old) (n ∷ new) =
    let newer = merged fuel (o ∷ old) new in
    let both = merged fuel old new in
    let older = merged fuel old (n ∷ new) in
    if ltb n.code_start o.code_start
    then from_new n ∷ newer
    else if n.code_start == o.code_start
    then from_new n ∷ both
    else from_old o ∷ older

abbrev old_ahead : FrameDataIter → List OldFrameData
old_ahead it = drop it.old_index it.old_frames

abbrev new_ahead : FrameDataIter → List NewFrameData
new_ahead it = drop it.new_index it.new_frames

unfoldable emitted : ℕ → Option FrameData × FrameDataIter → List FrameData
emitted fuel r = before r.0 (collect_within fuel r.1)

-- What the iterator collects from one match on, by the frames ahead of it.
choose-merged :
    (fuel : ℕ) (it : FrameDataIter) (o? : Option OldFrameData) (n? : Option NewFrameData)
    → get_elem? it.old_frames it.old_index ≡ o?
    → get_elem? it.new_frames it.new_index ≡ n?
    → ((after : FrameDataIter)
        → collect_within fuel after ≡ merged fuel (old_ahead after) (new_ahead after))
    → emitted fuel (choose it o? n?) ≡ merged (suc fuel) (old_ahead it) (new_ahead it)
unfolding emitted merged
choose-merged fuel it none none p q ih = rw (drop-none _ _ p, drop-none _ _ q) refl
choose-merged fuel it none (some n) p q ih =
    rw (drop-none _ _ p, drop-some _ _ n q, ih (newer it), drop-none _ _ p) refl
choose-merged fuel it (some o) none p q ih =
    rw (drop-some _ _ o p, drop-none _ _ q, ih (older it), drop-none _ _ q) refl
choose-merged fuel it (some o) (some n) p q ih =
    rw (drop-some _ _ o p, drop-some _ _ n q)
      (elim (Bool-cases (ltb n.code_start o.code_start)) [
        | inl less ↦ rw (less, ih (newer it), drop-some _ _ o p) refl
        | inr more ↦ rw more (elim (Bool-cases (n.code_start == o.code_start)) [
          | inl same ↦ rw (same, ih (older (newer it))) refl
          | inr other ↦ rw (other, ih (older it), drop-some _ _ n q) refl
        ])
      ])

within-merged :
    (fuel : ℕ) (it : FrameDataIter)
    → collect_within fuel it ≡ merged fuel (old_ahead it) (new_ahead it)
unfolding collect_within next merged emitted
within-merged zero it = refl
within-merged (suc fuel) it = choose-merged fuel it _ _ refl refl (within-merged fuel)

merged-AscendFrom :
    (fuel bound : ℕ) (old : List OldFrameData) (new : List NewFrameData)
    → AscendFrom bound (old_starts old)
    → AscendFrom bound (new_starts new)
    → AscendFrom bound (starts (merged fuel old new))
unfolding merged
merged-AscendFrom zero bound old new p q = tt
merged-AscendFrom (suc fuel) bound [] [] p q = tt
merged-AscendFrom (suc fuel) bound (o ∷ old) [] (p, ps) q =
    (p, merged-AscendFrom fuel (suc o.code_start) old [] ps tt)
merged-AscendFrom (suc fuel) bound [] (n ∷ new) p (q, qs) =
    (q, merged-AscendFrom fuel (suc n.code_start) [] new tt qs)
merged-AscendFrom (suc fuel) bound (o ∷ old) (n ∷ new) (p, ps) (q, qs) = ground (
  arith,
  merged-AscendFrom fuel (suc n.code_start) (o ∷ old) new,
  merged-AscendFrom fuel (suc n.code_start) old new,
  merged-AscendFrom fuel (suc o.code_start) old (n ∷ new),
)

merged-Has :
    (fuel : ℕ) (old : List OldFrameData) (new : List NewFrameData)
    → length old + length new ≤ fuel
    → (a : ℕ)
    → Has a (starts (merged fuel old new)) ↔ (Has a (old_starts old) ⊎ Has a (new_starts new))
unfolding merged
merged-Has zero [] [] enough a = ground arith
merged-Has zero (o ∷ old) new enough a = absurd (omega arith)
merged-Has zero [] (n ∷ new) enough a = absurd (omega arith)
merged-Has (suc fuel) [] [] enough a = ground arith
merged-Has (suc fuel) (o ∷ old) [] enough a = ground (arith, merged-Has fuel old [] (omega arith) a)
merged-Has (suc fuel) [] (n ∷ new) enough a = ground (arith, merged-Has fuel [] new (omega arith) a)
merged-Has (suc fuel) (o ∷ old) (n ∷ new) enough a = ground (
  arith,
  merged-Has fuel (o ∷ old) new (omega arith) a,
  merged-Has fuel old new (omega arith) a,
  merged-Has fuel old (n ∷ new) (omega arith) a,
)

-- Where the old and the new frames that are ahead of the iterator ascend strictly from a bound on, so
-- do the frames that it gives.
pub collect-AscendFrom :
    (it : FrameDataIter) (bound : ℕ)
    → AscendFrom bound (old_starts (drop it.old_index it.old_frames))
    → AscendFrom bound (new_starts (drop it.new_index it.new_frames))
    → AscendFrom bound (starts (collect it))
unfolding collect
collect-AscendFrom it bound old new =
    let fuel = length it.old_frames + length it.new_frames in
    rw (within-merged fuel it) (merged-AscendFrom fuel bound (old_ahead it) (new_ahead it) old new)

-- An address is the start of a frame that the iterator gives exactly if it is the start of an old or
-- of a new frame ahead of the iterator.
pub collect-Has :
    (it : FrameDataIter) (a : ℕ)
    → Has a (starts (collect it)) ↔ (
        Has a (old_starts (drop it.old_index it.old_frames))
        ⊎ Has a (new_starts (drop it.new_index it.new_frames)))
unfolding collect
collect-Has it a =
    let fuel = length it.old_frames + length it.new_frames in
    rw (within-merged fuel it) (merged-Has fuel (old_ahead it) (new_ahead it) enough a)
  where
    enough :
        length (old_ahead it) + length (new_ahead it) ≤ length it.old_frames + length it.new_frames
    enough =
        omega
          (arith, length-drop it.old_index it.old_frames, length-drop it.new_index it.new_frames)
