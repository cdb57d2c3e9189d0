-- ===== src/Msf/Table/Encode.antt =====
-- src/msf/mod.rs: the stream table as its comment describes it, from the streams that it lists.
use pdb.Prelude.{
  ℕ, suc, ◌+◌, ◌*◌, ◌≤◌, ◌<◌, ◌≡◌, refl, sym, ap, ◌∙◌, List, [], ◌∷◌, ◌++◌, map, length, All,
  le_bytes, length-append, append_assoc, u32_max, u32_mod, arith,
}
use pdb.Msf.Header.{Header, pages_needed_to_store}

-- A stream is absent, or has a size in bytes and the numbers of its pages.
pub data Entry : Type 0 where
  absent : Entry
  present : ℕ → List ℕ → Entry

abbrev pub entry_size : Entry → ℕ
entry_size absent = u32_max
entry_size (present size pages) = size

abbrev pub entry_pages : Entry → List ℕ
entry_pages absent = []
entry_pages (present size pages) = pages

-- Numbers in four bytes each.
abbrev pub words : List ℕ → List ℕ
words [] = []
words (n ∷ ns) = le_bytes 4 n ++ words ns

abbrev pub all_sizes : List Entry → List ℕ
all_sizes es = map entry_size es

abbrev pub all_pages : List Entry → List ℕ
all_pages [] = []
all_pages (e ∷ es) = entry_pages e ++ all_pages es

-- The number of streams, the size of each, and the page numbers of each.
abbrev pub encode_table : List Entry → List ℕ
encode_table es = le_bytes 4 (length es) ++ (words (all_sizes es) ++ words (all_pages es))

abbrev pub IsPage : Header → ℕ → Type 0
IsPage h page = (1 ≤ page) × (page ≤ h.maximum_valid_page_number) × (page < u32_mod)

-- An entry that a file with this header can hold: as many pages as the size needs.
abbrev pub IsEntry : Header → Entry → Type 0
IsEntry h absent = Unit
IsEntry h (present size pages) =
    (size < u32_max) × (length pages ≡ pages_needed_to_store h size) × All (IsPage h) pages

pub length-words : (ns : List ℕ) → length (words ns) ≡ 4 * length ns
length-words [] = omega arith
length-words (n ∷ ns) = omega (arith, length-append (le_bytes 4 n) (words ns), length-words ns)

pub words-append : (xs ys : List ℕ) → words (xs ++ ys) ≡ words xs ++ words ys
words-append [] ys = refl
words-append (x ∷ xs) ys =
    ap (λ l. le_bytes 4 x ++ l) (words-append xs ys)
    ∙ sym (append_assoc (le_bytes 4 x) (words xs) (words ys))

pub length-all_sizes : (es : List Entry) → length (all_sizes es) ≡ length es
length-all_sizes [] = refl
length-all_sizes (e ∷ es) = ap suc (length-all_sizes es)

pub all_sizes-append : (xs ys : List Entry) → all_sizes (xs ++ ys) ≡ all_sizes xs ++ all_sizes ys
all_sizes-append [] ys = refl
all_sizes-append (x ∷ xs) ys = ap (λ l. entry_size x ∷ l) (all_sizes-append xs ys)

pub all_pages-append : (xs ys : List Entry) → all_pages (xs ++ ys) ≡ all_pages xs ++ all_pages ys
all_pages-append [] ys = refl
all_pages-append (x ∷ xs) ys =
    ap (λ l. entry_pages x ++ l) (all_pages-append xs ys)
    ∙ sym (append_assoc (entry_pages x) (all_pages xs) (all_pages ys))

-- The table with one entry singled out: the layout that a lookup walks.
pub encode_table-split :
    (before : List Entry) (e : Entry) (behind : List Entry)
    → encode_table (before ++ (e ∷ behind))
      ≡ le_bytes 4 (length before + suc (length behind))
        ++ (words (all_sizes before)
            ++ (le_bytes 4 (entry_size e)
                ++ (words (all_sizes behind)
                    ++ (words (all_pages before)
                        ++ (words (entry_pages e) ++ words (all_pages behind))))))
encode_table-split before e behind =
    ap
      (λ (n : ℕ).
        le_bytes 4 n
        ++ (words (all_sizes (before ++ (e ∷ behind)))
            ++ words (all_pages (before ++ (e ∷ behind)))))
      (length-append before (e ∷ behind))
    ∙ ap (λ l. le_bytes 4 (length before + suc (length behind)) ++ l)
        (rw
          (
            all_sizes-append, all_pages-append, words-append, words-append, words-append,
            append_assoc, append_assoc,
          )
          refl)
