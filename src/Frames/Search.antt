-- ===== src/Frames/Search.antt =====
-- src/framedata.rs: where `binary_search_by_rva` ends up.
use pdb.Prelude.{
  ℕ, zero, suc, ◌+◌, ◌≤◌, ◌<◌, ◌≡◌, refl, sym, ap, ◌∙◌, List, [], ◌∷◌, true, false, some, length,
  get_elem?, map, ltb, u32_mod, arith, ◌⊎◌, inl, inr, Bool-cases,
}
use mathlib.Core.Path.{subst}
use pdb.Omap.Search.{Found, found, insert_at, key_at, IsSorted, Answers, binary_search-Answers}
use pdb.Frames.Table.{AddrRange, contains, settle, binary_search_by_rva}

module _ {R : Type 0} (a : AddrRange R) where
  -- Frames in strictly ascending order that do not overlap and end within 32 bits.
  pub record AreDisjoint (frames : List R) : Type 0 where
    pub apart :
        (i j : ℕ) (f g : R)
        → i < j
        → get_elem? frames i ≡ some f
        → get_elem? frames j ≡ some g
        → (a.start f < a.start g) × (a.start f + a.size f ≤ a.start g)
    pub bounded : (i : ℕ) (f : R) → get_elem? frames i ≡ some f → a.start f + a.size f < u32_mod

  key_at-map :
      (frames : List R) (i : ℕ) (f : R)
      → get_elem? frames i ≡ some f
      → key_at (map a.start frames) i ≡ a.start f
  key_at-map [] i f e = cc
  key_at-map (g ∷ frames) zero f e = cc
  key_at-map (g ∷ frames) (suc i) f e = key_at-map frames i f e

  element_within :
      (frames : List R) (i : ℕ)
      → i < length (map a.start frames)
      → (f : R) × (get_elem? frames i ≡ some f)
  element_within [] i h = absurd (omega arith)
  element_within (g ∷ frames) zero h = (g, refl)
  element_within (g ∷ frames) (suc i) h = element_within frames i (omega arith)

  index_within :
      (frames : List R) (i : ℕ) (f : R)
      → get_elem? frames i ≡ some f
      → i < length (map a.start frames)
  index_within [] i f e = cc
  index_within (g ∷ frames) zero f e = omega arith
  index_within (g ∷ frames) (suc i) f e = omega (arith, index_within frames i f e)

  module _ (frames : List R) (d : AreDisjoint frames) (rva : ℕ) where
    starts-IsSorted : IsSorted (map a.start frames)
    starts-IsSorted i j le within =
        let (f, at_i) = element_within frames i (omega arith) in
        let (g, at_j) = element_within frames j within in
        elim (Bool-cases (ltb i j)) [
          | inl less ↦ omega (
            arith,
            key_at-map frames i f at_i,
            key_at-map frames j g at_j,
            (d.apart i j f g (ground arith) at_i at_j).0,
          )
          | inr more ↦
              (let same : i ≡ j = ground arith in
                omega (arith, ap (λ (k : ℕ). key_at (map a.start frames) k) same))
        ]

    -- No frame before the index covers the address; a frame from the index on covers it or starts at
    -- or after it.
    pub record Covers (index : ℕ) : Type 0 where
      pub none_before :
          (j : ℕ) (f : R) → j < index → get_elem? frames j ≡ some f → contains a f rva ≡ false
      pub from_index :
          (j : ℕ) (f : R)
          → index ≤ j
          → get_elem? frames j ≡ some f
          → (contains a f rva ≡ true) ⊎ (rva ≤ a.start f)

    -- A frame that ends before the address.
    ended :
        (f : R)
        → a.start f + a.size f < u32_mod
        → a.start f + a.size f ≤ rva
        → contains a f rva ≡ false
    ended f small le = ground arith

    -- The frames before one that starts at or before the address.
    ended_before :
        (i : ℕ) (g : R)
        → get_elem? frames i ≡ some g
        → a.start g ≤ rva
        → (j : ℕ) (f : R) → j < i
        → get_elem? frames j ≡ some f
        → contains a f rva ≡ false
    ended_before i g at_i le j f less at_j =
        ended f (d.bounded j f at_j) (omega (arith, (d.apart j i f g less at_j at_i).1, le))

    settle_covered :
        (before : ℕ) (g : R)
        → get_elem? frames before ≡ some g
        → contains a g rva ≡ true
        → settle a frames rva (insert_at (suc before)) ≡ before
    unfolding settle
    settle_covered before g at_before covered = rw (settle, at_before, covered)

    settle_uncovered :
        (before : ℕ) (g : R)
        → get_elem? frames before ≡ some g
        → contains a g rva ≡ false
        → settle a frames rva (insert_at (suc before)) ≡ suc before
    unfolding settle
    settle_uncovered before g at_before not_covered = rw (settle, at_before, not_covered)

    settle-Covers :
        (r : Found)
        → Answers (map a.start frames) rva starts-IsSorted r
        → Covers (settle a frames rva r)
    unfolding settle
    settle-Covers (found index) (within, key) =
        let (g, at_index) = element_within frames index within in
        record {
          none_before =
              ended_before index g at_index (omega (arith, key_at-map frames index g at_index));
          from_index = λ j f le at_j. inr (
              omega (
                arith,
                starts-IsSorted index j le (index_within frames j f at_j),
                key_at-map frames j f at_j,
              ));
        }
    settle-Covers (insert_at zero) (within, below, above) = record {
      none_before = λ j f less at_j. absurd (omega arith);
      from_index = λ j f le at_j. inr (
          omega (
            arith,
            above j (omega arith) (index_within frames j f at_j),
            key_at-map frames j f at_j,
          ));
    }
    settle-Covers (insert_at (suc before)) (within, below, above) =
        let (g, at_before) = element_within frames before (omega arith) in
        elim (Bool-cases (contains a g rva)) [
          | inl covered ↦ subst Covers (sym (settle_covered before g at_before covered)) (record {
            none_before = ended_before before g at_before (starts_below g at_before);
            from_index = λ j f le at_j. elim (Bool-cases (ltb before j)) [
              | inl less ↦ inr (
                  omega (
                    arith,
                    above j (ground arith) (index_within frames j f at_j),
                    key_at-map frames j f at_j,
                  ))
              | inr more ↦
                  let same : before ≡ j = ground arith in
                  let again : some f ≡ some g =
                    sym at_j ∙ ap (get_elem? frames) (sym same) ∙ at_before in
                  inl (cc)
            ];
          })
          | inr not_covered ↦
              subst Covers (sym (settle_uncovered before g at_before not_covered)) (record {
                none_before = λ j f less at_j. elim (Bool-cases (ltb j before)) [
                  | inl earlier ↦
                      ended_before before g at_before (starts_below g at_before) j f (ground arith)
                        at_j
                  | inr last ↦
                      let same : before ≡ j = ground arith in
                      let again : some f ≡ some g =
                        sym at_j ∙ ap (get_elem? frames) (sym same) ∙ at_before in
                      cc
                ];
                from_index = λ j f le at_j. inr (
                    omega (
                      arith,
                      above j le (index_within frames j f at_j),
                      key_at-map frames j f at_j,
                    ));
              })
        ]
      where
        starts_below : (g : R) → get_elem? frames before ≡ some g → a.start g ≤ rva
        starts_below g at_before =
            omega (arith, below before (omega arith), key_at-map frames before g at_before)

    -- The index that `binary_search_by_rva` gives for disjoint frames in ascending order: no frame
    -- before it covers the address, and every frame from it on covers the address or does not start
    -- before it.
    pub binary_search_by_rva-Covers : Covers (binary_search_by_rva a frames rva)
    unfolding binary_search_by_rva
    binary_search_by_rva-Covers =
        settle-Covers _ (binary_search-Answers (map a.start frames) rva starts-IsSorted)
