-- ===== src/Msf/PageList/Cut.antt =====
-- src/msf/page_list.rs: truncation keeps a prefix of the bytes, and `len` counts them.
use pdb.Prelude.{
  ℕ, suc, zero, ◌+◌, ◌-◌, ◌≤◌, ◌<◌, min, ◌≡◌, refl, sym, ap, ◌∙◌, List, [], ◌∷◌, ◌++◌, length, take,
  add64, u64_mod, range, take-range, length-range, length-append, length-take, take-append_le,
  take-append_ge, arith, inl, inr, Bool-cases, ltb, ltb→lt, ltb→le, lt→ltb, le→ltb, append-nil,
}
use pdb.Errors.{panic}
use native.Mathlib.Nat.{sub_self}
use pdb.Msf.PageList.Push.{push_truncated}
use pdb.Msf.PageList.{
  SourceSlice, PageList, truncate_slices, truncate, sum_sizes, total_len, push, covers,
}

truncate_slices-zero : (slices : List SourceSlice) → truncate_slices 0 slices ≡ []
unfolding truncate_slices
truncate_slices-zero [] = refl
truncate_slices-zero (s ∷ rest) = refl

truncate_slices_cut :
    (bytes : ℕ) (s : SourceSlice) (rest : List SourceSlice)
    → 0 < bytes
    → bytes < s.size
    → truncate_slices bytes (s ∷ rest)
      ≡ record s { size = bytes } ∷ truncate_slices (bytes - bytes) rest
unfolding truncate_slices
truncate_slices_cut bytes s rest pos h = rw (lt→ltb _ _ h, lt→ltb _ _ pos)

truncate_slices_whole :
    (bytes : ℕ) (s : SourceSlice) (rest : List SourceSlice)
    → 0 < bytes
    → s.size ≤ bytes
    → truncate_slices bytes (s ∷ rest) ≡ s ∷ truncate_slices (bytes - s.size) rest
unfolding truncate_slices
truncate_slices_whole bytes s rest pos h = rw (le→ltb _ _ h, lt→ltb _ _ pos)

truncate_slices_lem :
    (bytes : ℕ) (slices : List SourceSlice)
    → covers (truncate_slices bytes slices) ≡ take bytes (covers slices)
truncate_slices_lem zero slices = ap covers (truncate_slices-zero slices)
truncate_slices_lem (suc bytes) [] = unfold truncate_slices in refl
truncate_slices_lem (suc bytes) (s ∷ rest) = elim (Bool-cases (ltb (suc bytes) s.size)) [
  | inl cut ↦ cut_case (ltb→lt _ _ cut)
  | inr whole ↦ whole_case (truncate_slices_lem (suc bytes - s.size) rest) (ltb→le _ _ whole)
]
  where
    all : List ℕ
    all = range s.offset s.size

    cut_case :
        suc bytes < s.size
        → covers (truncate_slices (suc bytes) (s ∷ rest)) ≡ take (suc bytes) (all ++ covers rest)
    cut_case h =
        rw
          (
            truncate_slices_cut (suc bytes) s rest (omega arith) h,
            sub_self (suc bytes),
            truncate_slices-zero rest,
          )
          (append-nil (range s.offset (suc bytes))
            ∙ sym (take-range s.offset (suc bytes) s.size (omega arith))
            ∙ sym (
                take-append_le (suc bytes) all (covers rest)
                  (omega (arith, length-range s.offset s.size))))

    whole_case :
        covers (truncate_slices (suc bytes - s.size) rest) ≡ take (suc bytes - s.size) (covers rest)
        → s.size ≤ suc bytes
        → covers (truncate_slices (suc bytes) (s ∷ rest)) ≡ take (suc bytes) (all ++ covers rest)
    whole_case ih h = rw (truncate_slices_whole (suc bytes) s rest (omega arith) h) (
        ap (λ l. all ++ l) ih
        ∙ ap (λ (n : ℕ). all ++ take (suc bytes - n) (covers rest))
            (sym (length-range s.offset s.size))
        ∙ sym (
            take-append_ge (suc bytes) all (covers rest)
              (omega (arith, length-range s.offset s.size))))

-- Truncation to any number of bytes keeps that prefix of the bytes of the list, which is all of them
-- where it has no more, and a push onto the truncated list panics.
pub truncate_lem :
    (bytes : ℕ) (p : PageList)
    → (covers (truncate bytes p).source_slices ≡ take bytes (covers p.source_slices))
      × ((page : ℕ) → push page (truncate bytes p) ≡ panic)
unfolding truncate
truncate_lem bytes p =
    (truncate_slices_lem bytes p.source_slices, λ page. push_truncated page _ refl)

pub sum_sizes_lem :
    (acc : ℕ) (slices : List SourceSlice)
    → acc + length (covers slices) < u64_mod
    → sum_sizes acc slices ≡ acc + length (covers slices)
unfolding sum_sizes
sum_sizes_lem acc [] h = omega arith
sum_sizes_lem acc (s ∷ rest) h =
    omega (arith, sum_sizes_lem (add64 acc s.size) rest small, parts, wrap)
  where
    parts : length (covers (s ∷ rest)) ≡ s.size + length (covers rest)
    parts =
        omega
          (arith, length-append (range s.offset s.size) (covers rest), length-range s.offset s.size)

    wrap : add64 acc s.size ≡ acc + s.size
    wrap = omega (arith, parts)

    small : add64 acc s.size + length (covers rest) < u64_mod
    small = omega (arith, parts)

-- `len` is the number of bytes that the slices name.
pub total_len-covers :
    (p : PageList)
    → length (covers p.source_slices) < u64_mod
    → total_len p ≡ length (covers p.source_slices)
unfolding total_len
total_len-covers p h = omega (arith, sum_sizes_lem 0 p.source_slices)

-- For a list of fewer than 2 ^ 64 bytes, its `len` after truncation to a number of bytes is the
-- smaller of that number and its `len` before.
pub total_len-truncate :
    (bytes : ℕ) (p : PageList)
    → length (covers p.source_slices) < u64_mod
    → total_len (truncate bytes p) ≡ min bytes (total_len p)
total_len-truncate bytes p h =
    total_len-covers (truncate bytes p)
      (rw (truncate_lem bytes p).0 (omega (arith, length-take bytes (covers p.source_slices))))
    ∙ rw (truncate_lem bytes p).0
        (length-take bytes (covers p.source_slices) ∙ rw (total_len-covers p h))
