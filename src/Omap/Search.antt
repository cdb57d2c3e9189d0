-- ===== src/Omap/Search.antt =====
-- The binary search of the standard library, `binary_search_by_key`, on the list of keys.
use pdb.Prelude.{
  ℕ, zero, suc, ◌+◌, ◌-◌, ◌/◌, ◌≤◌, ◌<◌, ◌≡◌, refl, List, [], ◌∷◌, length, ltb, leb, ◌==◌,
  if◌then◌else◌, arith, ◌⊎◌, inl, inr, Bool-cases, leb→le, leb→lt, ==_iff, ltb→lt, ltb→le,
}

pub data Found : Type 0 where
  found : ℕ → Found
  insert_at : ℕ → Found

abbrev pub key_at : List ℕ → ℕ → ℕ
key_at [] i = 0
key_at (x ∷ xs) zero = x
key_at (x ∷ xs) (suc i) = key_at xs i

-- The window of `size` keys from `base` on is halved until one is left.
unfoldable pub narrow : ℕ → List ℕ → ℕ → ℕ → ℕ → ℕ
narrow zero keys k size base = base
narrow (suc fuel) keys k size base =
    let half = size / 2 in
    let next = (if ltb k (key_at keys (base + half)) then base else base + half) in
    let rest = narrow fuel keys k (size - half) next in if leb size 1 then base else rest

unfoldable pub binary_search : List ℕ → ℕ → Found
unfolding narrow
binary_search keys k =
    let base = narrow (length keys) keys k (length keys) 0 in
    if length keys == 0
    then insert_at 0
    else if key_at keys base == k
    then found base
    else if ltb (key_at keys base) k
    then insert_at (base + 1)
    else insert_at base

abbrev pub IsSorted : List ℕ → Type 0
IsSorted keys = (i j : ℕ) → i ≤ j → j < length keys → key_at keys i ≤ key_at keys j

-- What is known of the key at which the window ends up.
abbrev Split : List ℕ → ℕ → ℕ → Type 0
Split keys k b =
    (b < length keys)
    × ((b ≡ 0) ⊎ (key_at keys b ≤ k))
    × ((j : ℕ) → b < j → j < length keys → k < key_at keys j)

module _ (keys : List ℕ) (k : ℕ) (sorted : IsSorted keys) where
  narrow-Split :
      (fuel size base : ℕ)
      → size ≤ fuel
      → 1 ≤ size
      → base + size ≤ length keys
      → ((base ≡ 0) ⊎ (key_at keys base ≤ k))
      → ((j : ℕ) → base + size ≤ j → j < length keys → k < key_at keys j)
      → Split keys k (narrow fuel keys k size base)
  unfolding narrow
  narrow-Split zero size base f pos fits low high = absurd (omega arith)
  narrow-Split (suc fuel) size base f pos fits low high = elim (Bool-cases (leb size 1)) [
    | inl one ↦ rw one (omega arith, low, λ j p q. high j (omega (arith, leb→le size 1 one)) q)
    | inr more ↦ rw more (elim (Bool-cases (ltb k (key_at keys (base + size / 2)))) [
      | inl above ↦ rw above (
          narrow-Split fuel (size - size / 2) base (omega (arith, leb→lt size 1 more))
            (omega (arith, leb→lt size 1 more)) (omega arith) low
            (λ j p q. omega (arith, ltb→lt _ _ above, sorted (base + size / 2) j (omega arith) q)))
      | inr below ↦ rw below (
          narrow-Split fuel (size - size / 2) (base + size / 2) (omega (arith, leb→lt size 1 more))
            (omega (arith, leb→lt size 1 more)) (omega arith) (inr (ltb→le _ _ below))
            (λ j p q. high j (omega arith) q))
    ])
  ]

  -- On sorted keys: an index that is found holds the key; otherwise the keys before the index are
  -- smaller and those from it on are larger.
  abbrev pub Answers : Found → Type 0
  Answers (found i) = (i < length keys) × (key_at keys i ≡ k)
  Answers (insert_at i) =
      (i ≤ length keys)
      × ((j : ℕ) → j < i → key_at keys j < k)
      × ((j : ℕ) → i ≤ j → j < length keys → k < key_at keys j)

  answer :
      (b : ℕ)
      → Split keys k b
      → Answers (
          if key_at keys b == k
          then found b
          else if ltb (key_at keys b) k
          then insert_at (b + 1)
          else insert_at b)
  answer b (within, low, high) = elim (Bool-cases (key_at keys b == k)) [
    | inl same ↦ rw same (within, (==_iff _ _).0 same)
    | inr other ↦ rw other (elim (Bool-cases (ltb (key_at keys b) k)) [
      | inl below ↦ rw below (
        omega arith,
        (λ j p. omega (arith, ltb→lt _ _ below, sorted j b (omega arith) within)),
        (λ j p q. high j (omega arith) q),
      )
      | inr above ↦
          rw above
            (omega arith, (λ j p. ground (arith, low)), (λ j p q. ground (arith, sorted b j p q)))
    ])
  ]

  pub binary_search-Answers : Answers (binary_search keys k)
  unfolding binary_search
  binary_search-Answers = elim (Bool-cases (length keys == 0)) [
    | inl empty ↦ rw empty (omega arith, (λ j p. absurd (omega arith)), (λ j p q. ground arith))
    | inr some_left ↦ rw some_left (
        answer _ (
          narrow-Split (length keys) (length keys) 0 (omega arith) (ground arith) (omega arith)
            (inl refl) (λ j p q. absurd (omega arith))))
  ]
