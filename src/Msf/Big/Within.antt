-- ===== src/Msf/Big/Within.antt =====
-- src/msf/mod.rs: views of positions on the pages of a file.
use pdb.Prelude.{
  ℕ, zero, suc, ◌+◌, ◌*◌, ◌^◌, ◌≤◌, ◌<◌, ◌≡◌, ap, ◌∙◌, List, [], ◌∷◌, map, length, All, range,
  All-join, arith,
}
use pdb.Errors.{ok}
use native.Mathlib.Nat.{mul-le-mul_left}
use pdb.Msf.PageList.{PageList, covers, page_range}
use pdb.Msf.PageList.Push.{pages_range}
use pdb.Msf.Source.{Source, Reads, view, view_lem}
use pdb.Msf.Header.{Header}
use pdb.Msf.Table.Encode.{IsPage}

-- The positions of the pages up to the last valid one.
abbrev pub extent : Header → ℕ
extent h = h.page_size * (h.maximum_valid_page_number + 1)

range-below : (o n k : ℕ) → o + n ≤ k → All (λ p. p < k) (range o n)
range-below o zero k h = tt
range-below o (suc n) k h = (omega arith, range-below (o + 1) n k (omega arith))

pub pages_range-below :
    (h : Header) (pages : List ℕ)
    → All (IsPage h) pages
    → All (λ p. p < extent h) (pages_range h.page_size pages)
pages_range-below h [] valid = tt
pages_range-below h (page ∷ pages) (v, vs) =
    All-join (λ p. p < extent h) (page_range h.page_size page) (pages_range h.page_size pages)
      (range-below (h.page_size * page) h.page_size (extent h)
        (omega (arith, mul-le-mul_left h.page_size v.1)))
      (pages_range-below h pages vs)

-- Within the pages of the file, a view is the content at the positions of the list.
pub view-content :
    (source : Source) (p : PageList) (n : ℕ)
    → Reads source n
    → All (λ i. i < n) (covers p.source_slices)
    → length (covers p.source_slices) < 2 ^ 63
    → view source p ≡ ok (map source.content (covers p.source_slices))
view-content source p n readable within small =
    let (bytes, reads) = readable p.source_slices within small in
    view_lem source p (omega arith)
    ∙ reads
    ∙ ap ok (source.view-content p.source_slices bytes (omega arith) reads)
