-- ===== src/Msf/PageList/Push.antt =====
-- src/msf/page_list.rs: pushing a page appends its bytes, whether the page extends the last slice or not.
use pdb.Prelude.{
  ℕ, ◌+◌, ◌*◌, ◌^◌, ◌≤◌, ◌<◌, ◌≡◌, refl, sym, ap, ◌∙◌, true, false, Option, none, some, List, [],
  ◌∷◌, ◌++◌, length, add64, mul64, u32_mod, u64_mod, range, range-append, length-range,
  length-append, append_assoc, append-nil, arith, inl, inr, Bool-cases, if◌then◌else◌, All,
}
use mathlib.Core.Path.{subst}
use pdb.Errors.{Result, ok, panic, ◌>>=◌}
use pdb.Msf.PageList.{
  SourceSlice, PageList, is_continuous, extend_last, page_slice, push, covers, page_range, empty,
}

-- The last slice ends where `end` says.
abbrev pub Ends : List SourceSlice → ℕ → Type 0
Ends [] end = ⊥
Ends (s ∷ []) end = s.offset + s.size ≡ end
Ends (s ∷ t ∷ rest) end = Ends (t ∷ rest) end

-- The last slice ends behind the page that was pushed last.
abbrev pub EndsBehind : ℕ → List SourceSlice → Option ℕ → Type 0
EndsBehind page_size slices none = Unit
EndsBehind page_size slices (some n) = Ends slices (page_size * (n + 1))

pub record IsOpen (p : PageList) : Type 0 where
  pub not_truncated : p.truncated ≡ false
  pub page_bound : p.page_size ≤ 2 ^ 23
  pub behind : EndsBehind p.page_size p.source_slices p.last_page

Ends-append :
    (slices : List SourceSlice) (s : SourceSlice) → Ends (slices ++ (s ∷ [])) (s.offset + s.size)
Ends-append [] s = refl
Ends-append (t ∷ []) s = refl
Ends-append (t ∷ u ∷ rest) s = Ends-append (u ∷ rest) s

covers-append : (xs ys : List SourceSlice) → covers (xs ++ ys) ≡ covers xs ++ covers ys
covers-append [] ys = refl
covers-append (s ∷ xs) ys =
    ap (λ l. range s.offset s.size ++ l) (covers-append xs ys)
    ∙ sym (append_assoc (range s.offset s.size) (covers xs) (covers ys))

pub product_fits : (a b : ℕ) → a ≤ 2 ^ 23 → b < u32_mod → a * b < 2 ^ 55
product_fits a b p q = grind arith

-- The slices with the last one longer, in plain arithmetic.
pub grown : ℕ → List SourceSlice → List SourceSlice
grown page_size [] = []
grown page_size (s ∷ []) = record s { size = s.size + page_size } ∷ []
grown page_size (s ∷ t ∷ rest) = s ∷ grown page_size (t ∷ rest)

extend_last-grown :
    (page_size end : ℕ) (slices : List SourceSlice)
    → Ends slices end
    → length (covers slices) + page_size < u64_mod
    → extend_last page_size slices ≡ ok (grown page_size slices)
unfolding extend_last grown
extend_last-grown page_size end [] h room = absurd h
extend_last-grown page_size end (s ∷ []) h room =
    ap (λ (n : ℕ). ok (record s { size = n } ∷ [])) fits
  where
    fits : add64 s.size page_size ≡ s.size + page_size
    fits = omega (arith, length-append (range s.offset s.size) [], length-range s.offset s.size)
extend_last-grown page_size end (s ∷ t ∷ rest) h room =
    rw (extend_last-grown page_size end (t ∷ rest) h tail)
  where
    tail : length (covers (t ∷ rest)) + page_size < u64_mod
    tail = omega (arith, length-append (range s.offset s.size) (covers (t ∷ rest)))

covers-grown :
    (page_size end : ℕ) (slices : List SourceSlice)
    → Ends slices end
    → covers (grown page_size slices) ≡ covers slices ++ range end page_size
unfolding grown
covers-grown page_size end [] h = absurd h
covers-grown page_size end (s ∷ []) h =
    append-nil (range s.offset (s.size + page_size))
    ∙ range-append s.offset s.size page_size
    ∙ rw (append-nil, h)
covers-grown page_size end (s ∷ t ∷ rest) h =
    ap (λ l. range s.offset s.size ++ l) (covers-grown page_size end (t ∷ rest) h)
    ∙ sym (append_assoc (range s.offset s.size) (covers (t ∷ rest)) (range end page_size))

Ends-grown :
    (page_size end : ℕ) (slices : List SourceSlice)
    → Ends slices end
    → Ends (grown page_size slices) (end + page_size)
unfolding grown
Ends-grown page_size end [] h = absurd h
Ends-grown page_size end (s ∷ []) h = omega arith
Ends-grown page_size end (s ∷ t ∷ []) h = omega arith
Ends-grown page_size end (s ∷ t ∷ u ∷ rest) h = Ends-grown page_size end (t ∷ u ∷ rest) h

-- The state after a page was pushed that follows the last one, and after any other.
abbrev pub joined : ℕ → PageList → PageList
joined page p = record p {
  source_slices = grown p.page_size p.source_slices;
  last_page = some page;
}

abbrev pub added : ℕ → PageList → PageList
added page p = record p {
  source_slices = p.source_slices ++ (page_slice p.page_size page ∷ []);
  last_page = some page;
}

abbrev pub pushed : ℕ → PageList → PageList
pushed page p = if is_continuous p.last_page page then joined page p else added page p

continuous_page :
    (last : Option ℕ) (page : ℕ)
    → is_continuous last page ≡ true
    → (n : ℕ) × (last ≡ some n) × (n + 1 ≡ page)
continuous_page none page h = cc
continuous_page (some n) page h = (n, refl, ground arith)

module _ (p : PageList) (page : ℕ) (inv : IsOpen p) (word : page < u32_mod)
    (room : length (covers p.source_slices) + p.page_size < u64_mod) where
  page_offset : mul64 p.page_size page ≡ p.page_size * page
  page_offset = omega (arith, product_fits p.page_size page inv.page_bound word)

  ends : is_continuous p.last_page page ≡ true → Ends p.source_slices (p.page_size * page)
  ends c =
      let (n, last, next) = continuous_page p.last_page page c in
      subst (λ (m : ℕ). Ends p.source_slices (p.page_size * m)) next
        (subst (EndsBehind p.page_size p.source_slices) last inv.behind)

  next_end : p.page_size * page + p.page_size ≡ p.page_size * (page + 1)
  next_end = omega arith

  rest_of :
      (slices : List SourceSlice)
      → Ends slices (p.page_size * page + p.page_size)
      → Ends slices (p.page_size * (page + 1))
  rest_of slices h = subst (Ends slices) next_end h

  push-pushed : push page p ≡ ok (pushed page p)
  unfolding push
  push-pushed = elim (Bool-cases (is_continuous p.last_page page)) [
    | inl c ↦
        rw (inv.not_truncated, c, extend_last-grown p.page_size _ p.source_slices (ends c) room)
    | inr c ↦ rw (inv.not_truncated, c)
  ]

  covers-pushed :
      covers (pushed page p).source_slices ≡ covers p.source_slices ++ page_range p.page_size page
  covers-pushed = elim (Bool-cases (is_continuous p.last_page page)) [
    | inl c ↦ rw c (covers-grown p.page_size (p.page_size * page) p.source_slices (ends c))
    | inr c ↦ rw c (
        covers-append p.source_slices (page_slice p.page_size page ∷ [])
        ∙ ap (λ l. covers p.source_slices ++ l)
            (append-nil _ ∙ ap (λ (n : ℕ). range n p.page_size) page_offset))
  ]

  pushed-IsOpen : IsOpen (pushed page p)
  pushed-IsOpen = elim (Bool-cases (is_continuous p.last_page page)) [
    | inl c ↦ rw c (record {
      not_truncated = inv.not_truncated;
      page_bound = inv.page_bound;
      behind =
          rest_of (grown p.page_size p.source_slices)
            (Ends-grown p.page_size (p.page_size * page) p.source_slices (ends c));
    })
    | inr c ↦ rw c (record {
      not_truncated = inv.not_truncated;
      page_bound = inv.page_bound;
      behind = rest_of (p.source_slices ++ (page_slice p.page_size page ∷ [])) (
          subst
            (λ (n : ℕ).
              Ends (p.source_slices ++ (page_slice p.page_size page ∷ [])) (n + p.page_size))
            page_offset (Ends-append p.source_slices (page_slice p.page_size page)));
    })
  ]

  -- A push of a 32-bit page number onto an open list whose bytes stay below 2 ^ 64 succeeds. The slices then name the bytes that
  -- they named before and behind them those of the page, and the list can be pushed to again.
  pub push_lem :
      (push page p ≡ ok (pushed page p))
      × (covers (pushed page p).source_slices
          ≡ covers p.source_slices ++ page_range p.page_size page)
      × IsOpen (pushed page p)
      × ((pushed page p).page_size ≡ p.page_size)
  push_lem = (push-pushed, covers-pushed, pushed-IsOpen, same)
    where
      same : (pushed page p).page_size ≡ p.page_size
      same = elim (Bool-cases (is_continuous p.last_page page)) [ inl c ↦ rw c | inr c ↦ rw c ]

-- A list of pages pushed in turn, as the loops that read page numbers do.
unfoldable pub push_all : List ℕ → PageList → Result PageList
push_all [] p = ok p
push_all (page ∷ pages) p = do q ← push page p; push_all pages q

abbrev pub pushed_all : List ℕ → PageList → PageList
pushed_all [] p = p
pushed_all (page ∷ pages) p = pushed_all pages (pushed page p)

-- The bytes of pages, one after the other.
abbrev pub pages_range : ℕ → List ℕ → List ℕ
pages_range page_size [] = []
pages_range page_size (page ∷ pages) = page_range page_size page ++ pages_range page_size pages

pub length-pages_range :
    (page_size : ℕ) (pages : List ℕ)
    → length (pages_range page_size pages) ≡ page_size * length pages
length-pages_range page_size [] = omega arith
length-pages_range page_size (page ∷ pages) = omega (
  arith,
  length-append (page_range page_size page) (pages_range page_size pages),
  length-range (page_size * page) page_size,
  length-pages_range page_size pages,
)

-- Pushing 32-bit page numbers in turn onto an open list whose bytes stay below 2 ^ 64 succeeds. The
-- slices then name the bytes that they named before and behind them those of the pages in their order,
-- and the list can be pushed to again.
pub push_all_lem :
    (pages : List ℕ) (p : PageList)
    → IsOpen p
    → All (λ page. page < u32_mod) pages
    → length (covers p.source_slices) + p.page_size * length pages < u64_mod
    → (push_all pages p ≡ ok (pushed_all pages p))
      × (covers (pushed_all pages p).source_slices
          ≡ covers p.source_slices ++ pages_range p.page_size pages)
      × IsOpen (pushed_all pages p)
unfolding push_all
push_all_lem [] p inv words room = (refl, sym (append-nil _), inv)
push_all_lem (page ∷ pages) p inv (word, words) room =
    chain (push_all_lem pages (pushed page p) step.2 words next_room)
  where
    slices' : List SourceSlice
    slices' = (pushed page p).source_slices

    step :
        (push page p ≡ ok (pushed page p))
        × (covers slices' ≡ covers p.source_slices ++ page_range p.page_size page)
        × IsOpen (pushed page p)
        × ((pushed page p).page_size ≡ p.page_size)
    step = push_lem p page inv word (omega arith)

    next_room : length (covers slices') + (pushed page p).page_size * length pages < u64_mod
    next_room =
        rw (step.1, step.3)
          (omega (
            arith,
            length-append (covers p.source_slices) (page_range p.page_size page),
            length-range (p.page_size * page) p.page_size,
          ))

    chain :
        (push_all pages (pushed page p) ≡ ok (pushed_all pages (pushed page p)))
          × (covers (pushed_all pages (pushed page p)).source_slices
              ≡ covers slices' ++ pages_range (pushed page p).page_size pages)
          × IsOpen (pushed_all pages (pushed page p))
        → (push_all (page ∷ pages) p ≡ ok (pushed_all pages (pushed page p)))
          × (covers (pushed_all pages (pushed page p)).source_slices
              ≡ covers p.source_slices ++ pages_range p.page_size (page ∷ pages))
          × IsOpen (pushed_all pages (pushed page p))
    chain ih = (
      ap (λ r. r >>= push_all pages) step.0 ∙ ih.0,
      ih.1
          ∙ ap (λ l. l ++ pages_range (pushed page p).page_size pages) step.1
          ∙ ap
              (λ (n : ℕ).
                (covers p.source_slices ++ page_range p.page_size page) ++ pages_range n pages)
              step.3
          ∙ append_assoc (covers p.source_slices) (page_range p.page_size page)
              (pages_range p.page_size pages),
      ih.2,
    )

-- From an empty list.
pub empty-IsOpen : (page_size : ℕ) → page_size ≤ 2 ^ 23 → IsOpen (empty page_size)
unfolding empty
empty-IsOpen page_size h = record { not_truncated = refl; page_bound = h; behind = tt }

-- Once truncated, a list takes no page: the assertion fails.
pub push_truncated : (page : ℕ) (p : PageList) → p.truncated ≡ true → push page p ≡ panic
unfolding push
push_truncated page p h = rw h
