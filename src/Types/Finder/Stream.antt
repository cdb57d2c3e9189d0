-- ===== src/Types/Finder/Stream.antt =====
-- A stream of items as it is laid out: a header, and each item behind its length.
use pdb.Prelude.{
  ℕ, zero, suc, ◌+◌, ◌^◌, ◌≤◌, ◌<◌, ◌≡◌, refl, sym, ap, ◌∙◌, List, [], ◌∷◌, ◌++◌, append_assoc,
  length, take, drop, All, false, ltb, le_bytes, u32_max, u32_mod, arith,
}
use mathlib.Core.Path.{subst}
use pdb.Scroll.{Scroll, u16}
use pdb.Buffer.State.{ParseBuffer, parse_uint, take_bytes}
use pdb.Buffer.Yields.{Leaves, Yields, Yields-bind, Yields-parse_uint, Yields-take_bytes}
use pdb.Buffer.Laid.{laid}
use pdb.Types.Items.{ItemInformation, read_item}
use pdb.Types.Finder.{skip_records, read_at}

-- The length of an item in 16 bits, and the item.
abbrev pub item_bytes : List ℕ → List ℕ
item_bytes content = le_bytes 2 (length content) ++ content

abbrev pub IsItem : List ℕ → Type 0
IsItem content = (2 ≤ length content) × (length content < 2 ^ 16)

-- A stream with a header of as many bytes as the header says, and items with consecutive indexes.
pub record IsStream (info : ItemInformation) (header_bytes : List ℕ) (items : List (List ℕ))
    : Type 0 where
  pub layout : info.stream ≡ header_bytes ++ laid item_bytes items
  pub header_size : info.header.header_size ≡ length header_bytes
  pub maximum : info.header.maximum_index ≡ info.header.minimum_index + length items
  pub indexes : info.header.minimum_index + length items < u32_mod
  pub well_formed : All IsItem items
  pub short : length info.stream < u32_max

pub laid-take-drop :
    {A : Type 0} (f : A → List ℕ) (k : ℕ) (xs : List A)
    → laid f xs ≡ laid f (take k xs) ++ laid f (drop k xs)
laid-take-drop f zero xs = refl
laid-take-drop f (suc k) [] = refl
laid-take-drop f (suc k) (x ∷ xs) =
    ap (λ t. f x ++ t) (laid-take-drop f k xs) ∙ sym (append_assoc (f x) _ _)

pub All-drop : {A : Type 0} (P : A → Type 0) (k : ℕ) (xs : List A) → All P xs → All P (drop k xs)
All-drop P zero xs h = h
All-drop P (suc k) [] h = tt
All-drop P (suc k) (x ∷ xs) h = All-drop P k xs h.1

module _ (sc : Scroll) where
  pub Yields-read_item :
      (b : ParseBuffer) (content rest : List ℕ)
      → IsItem content
      → Leaves b (item_bytes content ++ rest)
      → Yields (read_item sc) b content rest
  unfolding read_item
  Yields-read_item b content rest h l =
      Yields-bind (parse_uint sc u16) _ b (length content) (content ++ rest) content rest
        (Yields-parse_uint sc u16 b (length content) (content ++ rest) (omega arith)
          (subst (Leaves b) (append_assoc (le_bytes 2 (length content)) content rest) l))
        λ b' l'. rw long_enough (Yields-take_bytes (length content) b' content rest refl l')
    where
      long_enough : ltb (length content) 2 ≡ false
      long_enough = ground arith

  pub Yields-skip_records :
      (n : ℕ) (b : ParseBuffer) (items : List (List ℕ))
      → n ≤ length items
      → All IsItem items
      → Leaves b (laid item_bytes items)
      → Yields (skip_records sc n) b tt (laid item_bytes (drop n items))
  unfolding skip_records
  Yields-skip_records zero b items h valid l = (b, refl, l)
  Yields-skip_records (suc n) b [] h valid l = absurd (omega arith)
  Yields-skip_records (suc n) b (content ∷ items) h (v, valid) l =
      Yields-bind (parse_uint sc u16) _ b (length content) (content ++ laid item_bytes items) tt _
        (Yields-parse_uint sc u16 b (length content) (content ++ laid item_bytes items)
          (omega arith)
          (subst (Leaves b)
            (append_assoc (le_bytes 2 (length content)) content (laid item_bytes items)) l))
        λ b₁ l₁.
          Yields-bind (take_bytes (length content)) _ b₁ content (laid item_bytes items) tt _
            (Yields-take_bytes (length content) b₁ content (laid item_bytes items) refl l₁)
            λ b₂ l₂. Yields-skip_records n b₂ items (omega arith) valid l₂

  -- Reading from the start of the item `k`, past `n` others.
  pub Yields-read_at :
      (header_bytes : List ℕ) (items : List (List ℕ)) (k n : ℕ) (content : List ℕ)
      (rest : List (List ℕ)) (b : ParseBuffer)
      → n ≤ length (drop k items)
      → drop n (drop k items) ≡ content ∷ rest
      → All IsItem items
      → Leaves b (header_bytes ++ laid item_bytes items)
      → Yields
          (read_at sc (length (header_bytes ++ laid item_bytes (take k items))) n)
          b
          content
          (laid item_bytes rest)
  unfolding read_at
  Yields-read_at header_bytes items k n content rest b h e valid l =
      Yields-bind (take_bytes _) _ b front (laid item_bytes (drop k items)) content _
        (Yields-take_bytes _ b front (laid item_bytes (drop k items)) refl
          (subst (Leaves b) split l))
        λ b₁ l₁.
          Yields-bind (skip_records sc n) _ b₁ tt (laid item_bytes (content ∷ rest)) content _
            (subst (λ xs. Yields (skip_records sc n) b₁ tt (laid item_bytes xs)) e
              (Yields-skip_records n b₁ (drop k items) h (All-drop IsItem k items valid) l₁))
            λ b₂ l₂.
              Yields-bind (parse_uint sc u16) _ b₂ (length content)
                (content ++ laid item_bytes rest) content _
                (Yields-parse_uint sc u16 b₂ (length content) (content ++ laid item_bytes rest)
                  (omega (arith, small.1))
                  (subst (Leaves b₂)
                    (append_assoc (le_bytes 2 (length content)) content (laid item_bytes rest)) l₂))
                λ b₃ l₃.
                  Yields-take_bytes (length content) b₃ content (laid item_bytes rest) refl l₃
    where
      front : List ℕ
      front = header_bytes ++ laid item_bytes (take k items)

      split : header_bytes ++ laid item_bytes items ≡ front ++ laid item_bytes (drop k items)
      split =
          ap (λ t. header_bytes ++ t) (laid-take-drop item_bytes k items)
          ∙ sym (append_assoc header_bytes _ _)

      small : IsItem content
      small =
          (subst (All IsItem) e
            (All-drop IsItem n (drop k items) (All-drop IsItem k items valid))).0
