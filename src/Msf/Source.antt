-- ===== src/Msf/Source.antt =====
-- src/source.rs: sources of file bytes. A source is given by the interface of the trait; the default
-- implementation, over `Read` and `Seek`, fills it.
pub mod ReadSeek
use pdb.Prelude.{
  ℕ, suc, ◌+◌, ◌-◌, ◌≤◌, ◌<◌, ◌≡◌, refl, sym, ap, ◌∙◌, Bool, true, false, List, [], ◌∷◌, ◌++◌, map,
  length, take, drop, leb, leb→le, Bool-cases, inl, inr, if◌then◌else◌, ◌==◌, ==_iff, range, arith,
  length-append, length-range, All, ◌^◌, u64_mod,
}
use pdb.Errors.{Result, ok, err, panic, io_error, IoErrorKind, ◌>>=◌, ◌>>◌, assert}
use pdb.Msf.PageList.{SourceSlice, PageList, total_len, covers}
use pdb.Msf.PageList.Cut.{total_len-covers}
use mathlib.Core.List.{map-append}

-- The trait `Source`. `content` is the byte at a position of the file, and `view` answers with the
-- bytes that the slices name, in order, or does not answer with bytes. Of a view that has 2 ^ 64 bytes
-- or more nothing is asked.
pub record Source : Type 0 where
  pub view : List SourceSlice → Result (List ℕ)
  pub content : ℕ → ℕ
  pub view-content :
      (slices : List SourceSlice) (bytes : List ℕ)
      → length (covers slices) < u64_mod
      → view slices ≡ ok bytes
      → bytes ≡ map content (covers slices)

-- Every view of fewer than 2 ^ 63 bytes that stays below `extent` succeeds.
abbrev pub Reads : Source → ℕ → Type 0
Reads source extent =
    (slices : List SourceSlice)
    → All (λ p. p < extent) (covers slices)
    → length (covers slices) < 2 ^ 63
    → (bytes : List ℕ) × (source.view slices ≡ ok bytes)

-- `view` of src/msf/mod.rs, with its assertion on the length.
unfoldable pub view : Source → PageList → Result (List ℕ)
view source p = do
  bytes ← source.view p.source_slices
  assert (length bytes == total_len p)
  ok bytes

length-map : (f : ℕ → ℕ) (xs : List ℕ) → length (map f xs) ≡ length xs
length-map f [] = refl
length-map f (x ∷ xs) = ap suc (length-map f xs)

-- The assertion in `view` holds for a page list of fewer than 2 ^ 64 bytes: `view` gives what the
-- source gives, an error or a panic of the source included.
pub view_lem :
    (source : Source) (p : PageList)
    → length (covers p.source_slices) < u64_mod
    → view source p ≡ source.view p.source_slices
unfolding view
view_lem source p small = go (source.view p.source_slices) refl
  where
    go :
        (r : Result (List ℕ))
        → source.view p.source_slices ≡ r
        → (r >>= λ bytes. assert (length bytes == total_len p) >> ok bytes) ≡ r
    go (ok bytes) e = rw ((==_iff (length bytes) (total_len p)).1 count)
      where
        count : length bytes ≡ total_len p
        count =
            ap length (source.view-content p.source_slices bytes small e)
            ∙ length-map source.content (covers p.source_slices)
            ∙ sym (total_len-covers p small)
    go (err x) e = refl
    go panic e = refl
