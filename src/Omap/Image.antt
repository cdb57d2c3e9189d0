-- ===== src/Omap/Image.antt =====
-- src/omap.rs: the ranges that the iterator yields are the translations of the addresses of the range.
use pdb.Prelude.{
  ℕ, zero, suc, ◌+◌, ◌-◌, ◌≤◌, ◌<◌, min, ◌≡◌, refl, sym, ap, ◌∙◌, append-nil, append_assoc, List,
  [], ◌∷◌, ◌++◌, Bool, true, false, Option, none, some, ltb, leb, ltb→lt, ltb→le, arith, ◌⊎◌, inl,
  inr, Bool-cases, ◌||◌, ◌==◌, range, range-append, u32_mod,
}
use pdb.Omap.Table.{OmapRecord, Range, RangeIter, translate, mapped_by, subrange_end, translated}
use pdb.Omap.Governing.{governing, governing-low, governing-high}
use mathlib.Core.Path.{ap₂}
use pdb.Omap.Ranges.{walk, walk-last, walk-next, emitted, iter, walk-nil}

-- The values that are there, in order.
unfoldable pub collect_some : (ℕ → Option ℕ) → List ℕ → List ℕ
collect_some f [] = []
collect_some f (a ∷ l) =
    let rest = collect_some f l in elim (f a) [ none ↦ rest | some t ↦ t ∷ rest ]

-- The addresses of ranges, one after the other.
unfoldable pub addresses : List Range → List ℕ
addresses [] = []
addresses (r ∷ rest) = range r.start (r.end - r.start) ++ addresses rest

-- The translation where the records ahead do not yet apply up to their source addresses.
abbrev pub governed_from : OmapRecord → List OmapRecord → ℕ → Option ℕ
governed_from current records a = elim (governing records a) [
  | none ↦ mapped_by current a
  | some q ↦ mapped_by q a
]

-- The records ahead ascend, and no record's part of the range reaches past the end of the addresses.
abbrev pub Ascends : OmapRecord → List OmapRecord → ℕ → Type 0
Ascends current [] end = end - current.source_address + current.target_address < u32_mod
Ascends current (r ∷ rest) end =
    (current.source_address < r.source_address)
    × (r.source_address - current.source_address + current.target_address < u32_mod)
    × Ascends r rest end

collect_some-append :
    (f : ℕ → Option ℕ) (xs ys : List ℕ)
    → collect_some f (xs ++ ys) ≡ collect_some f xs ++ collect_some f ys
unfolding collect_some
collect_some-append f [] ys = refl
collect_some-append f (x ∷ xs) ys = ground (arith, collect_some-append f xs ys)

pub collect_some-congr :
    (f g : ℕ → Option ℕ) (s n : ℕ)
    → ((a : ℕ) → s ≤ a → a < s + n → f a ≡ g a)
    → collect_some f (range s n) ≡ collect_some g (range s n)
unfolding collect_some
collect_some-congr f g s zero h = refl
collect_some-congr f g s (suc n) h = ground (
  arith,
  h s (omega arith) (omega arith),
  collect_some-congr f g (s + 1) n (λ a p q. h a (omega arith) (omega arith)),
)

collect_some-some :
    (f : ℕ → Option ℕ) (a t : ℕ) (l : List ℕ)
    → f a ≡ some t
    → collect_some f (a ∷ l) ≡ t ∷ collect_some f l
unfolding collect_some
collect_some-some f a t l h = rw (h, collect_some)

collect_some-none :
    (f : ℕ → Option ℕ) (a : ℕ) (l : List ℕ) → f a ≡ none → collect_some f (a ∷ l) ≡ collect_some f l
unfolding collect_some
collect_some-none f a l h = rw (h, collect_some)

mapped_by_there :
    (r : OmapRecord) (a : ℕ)
    → (r.target_address == 0) ≡ false
    → mapped_by r a ≡ some (translate r a)
unfolding mapped_by
mapped_by_there r a h = rw h

mapped_by_gone : (r : OmapRecord) (a : ℕ) → (r.target_address == 0) ≡ true → mapped_by r a ≡ none
unfolding mapped_by
mapped_by_gone r a h = rw h

translate_exact :
    (r : OmapRecord) (a : ℕ)
    → r.source_address ≤ a
    → a < u32_mod
    → a - r.source_address + r.target_address < u32_mod
    → translate r a ≡ a - r.source_address + r.target_address
unfolding translate
translate_exact r a low word fits = omega arith

-- A stretch of addresses under one record.
stretch_mapped :
    (r : OmapRecord) (s n : ℕ)
    → r.source_address ≤ s
    → s + n < u32_mod
    → s + n - r.source_address + r.target_address < u32_mod
    → (r.target_address == 0) ≡ false
    → collect_some (mapped_by r) (range s n) ≡ range (s - r.source_address + r.target_address) n
stretch_mapped r s zero low word fits there = unfold collect_some in refl
stretch_mapped r s (suc n) low word fits there =
    collect_some-some (mapped_by r) s (s - r.source_address + r.target_address) (range (s + 1) n)
      first
    ∙ ap (λ l. (s - r.source_address + r.target_address) ∷ l)
        (stretch_mapped r (s + 1) n (omega arith) (omega arith) (omega arith) there
          ∙ ap (λ (k : ℕ). range k n) next)
  where
    first : mapped_by r s ≡ some (s - r.source_address + r.target_address)
    first =
        mapped_by_there r s there
        ∙ ap {B = Option ℕ} some (translate_exact r s low (omega arith) (omega arith))

    next : s + 1 - r.source_address + r.target_address ≡ s - r.source_address + r.target_address + 1
    next = omega arith

stretch_unmapped :
    (r : OmapRecord) (s n : ℕ)
    → (r.target_address == 0) ≡ true
    → collect_some (mapped_by r) (range s n) ≡ []
stretch_unmapped r s zero gone = unfold collect_some in refl
stretch_unmapped r s (suc n) gone =
    collect_some-none (mapped_by r) s (range (s + 1) n) (mapped_by_gone r s gone)
    ∙ stretch_unmapped r (s + 1) n gone

-- One round emits the translations of its stretch.
emitted_stretch :
    (it : RangeIter)
    → it.current.source_address ≤ it.addr
    → it.addr ≤ subrange_end it
    → subrange_end it < u32_mod
    → subrange_end it - it.current.source_address + it.current.target_address < u32_mod
    → addresses (emitted it)
      ≡ collect_some (mapped_by it.current) (range it.addr (subrange_end it - it.addr))
unfolding collect_some
emitted_stretch it low forward word fits = elim (Bool-cases (it.current.target_address == 0)) [
  | inl gone ↦
      rw (gone, or_true (leb (subrange_end it) it.addr))
        (nothing ∙ sym (stretch_unmapped it.current it.addr _ gone))
  | inr there ↦ elim (Bool-cases (leb (subrange_end it) it.addr)) [
    | inl stuck ↦ rw stuck (
        nothing
        ∙ ap (λ (n : ℕ). collect_some (mapped_by it.current) (range it.addr n))
            (empty_stretch stuck))
    | inr more ↦
        rw (more, there)
          (one_range
            ∙ sym (
                stretch_mapped it.current it.addr (subrange_end it - it.addr) low (omega arith)
                  (omega arith) there))
  ]
]
  where
    or_true : (b : Bool) → (b || true) ≡ true
    or_true true = refl
    or_true false = refl

    nothing : addresses [] ≡ []
    nothing = unfold addresses in refl

    empty_stretch : leb (subrange_end it) it.addr ≡ true → 0 ≡ subrange_end it - it.addr
    empty_stretch h = ground arith

    base : ℕ
    base = it.addr - it.current.source_address + it.current.target_address

    starts : translate it.current it.addr ≡ base
    starts = translate_exact it.current it.addr low (omega arith) (omega arith)

    ends :
        translate it.current (subrange_end it)
        ≡ subrange_end it - it.current.source_address + it.current.target_address
    ends = translate_exact it.current (subrange_end it) (omega arith) word fits

    one_range : addresses (translated it ∷ []) ≡ range base (subrange_end it - it.addr)
    one_range =
        unfold addresses in
        append-nil _ ∙ rw (starts, ends) (ap (λ (n : ℕ). range base n) (omega arith))

addresses-append : (xs ys : List Range) → addresses (xs ++ ys) ≡ addresses xs ++ addresses ys
unfolding addresses
addresses-append [] ys = refl
addresses-append (r ∷ xs) ys =
    ap (λ l. range r.start (r.end - r.start) ++ l) (addresses-append xs ys)
    ∙ sym (append_assoc (range r.start (r.end - r.start)) (addresses xs) (addresses ys))

-- The outcome by the governing record.
abbrev pub governed_by : OmapRecord → ℕ → Option OmapRecord → Option ℕ
governed_by current a o = elim o [ none ↦ mapped_by current a | some q ↦ mapped_by q a ]

pub governed_from-low :
    (current r : OmapRecord) (rest : List OmapRecord) (a : ℕ)
    → a < r.source_address
    → governed_from current (r ∷ rest) a ≡ mapped_by current a
governed_from-low current r rest a h = ap (governed_by current a) (governing-low r rest a h)

pub governed_from-high :
    (current r : OmapRecord) (rest : List OmapRecord) (a : ℕ)
    → r.source_address ≤ a
    → governed_from current (r ∷ rest) a ≡ governed_from r rest a
governed_from-high current r rest a h =
    ap (governed_by current a) (governing-high r rest a h) ∙ settled (governing rest a)
  where
    settled :
        (o : Option OmapRecord)
        → governed_by current a (elim o [ none ↦ some r | some q ↦ some q ]) ≡ governed_by r a o
    settled none = refl
    settled (some q) = refl

-- The first record ahead begins no earlier than the address.
abbrev pub Ahead : ℕ → List OmapRecord → Type 0
Ahead addr [] = Unit
Ahead addr (r ∷ rest) = addr ≤ r.source_address

min_self : (n : ℕ) → min n n ≡ n
min_self n = omega arith

governed_from-nil :
    (current : OmapRecord) (l : List ℕ)
    → collect_some (mapped_by current) l ≡ collect_some (governed_from current []) l
unfolding governing
governed_from-nil current l = refl

pub nothing_ahead :
    (current : OmapRecord) (records : List OmapRecord) (addr end : ℕ)
    → ltb addr end ≡ false
    → addresses [] ≡ collect_some (governed_from current records) (range addr (end - addr))
unfolding addresses collect_some
nothing_ahead current records addr end done =
    ap (λ (n : ℕ). collect_some (governed_from current records) (range addr n)) (empty done)
  where
    empty : ltb addr end ≡ false → 0 ≡ end - addr
    empty done = ground arith

ascending_ahead :
    (rest : List OmapRecord) (r : OmapRecord) (end : ℕ)
    → Ascends r rest end
    → Ahead (min r.source_address end) rest
ascending_ahead [] r end asc = tt
ascending_ahead (q ∷ rest) r end asc = omega arith

pub walk-governed :
    (records : List OmapRecord) (current : OmapRecord) (addr end : ℕ)
    → (addr < end → current.source_address ≤ addr)
    → Ahead addr records
    → Ascends current records end
    → end < u32_mod
    → addresses (walk records current addr end)
      ≡ collect_some (governed_from current records) (range addr (end - addr))
walk-governed [] current addr end low ahead asc word = elim (Bool-cases (ltb addr end)) [
  | inr done ↦ rw (walk-nil [] current addr end done) (nothing_ahead current [] addr end done)
  | inl more ↦ rw (walk-last current addr end more) (
      emitted_stretch (iter [] current addr end) (low (ltb→lt _ _ more)) (ground arith)
        (omega arith) (omega arith)
      ∙ ap (λ (n : ℕ). collect_some (mapped_by current) (range addr (n - addr))) (min_self end)
      ∙ governed_from-nil current (range addr (end - addr)))
]
walk-governed (r ∷ rest) current addr end low ahead asc word = elim (Bool-cases (ltb addr end)) [
  | inr done ↦
      rw (walk-nil (r ∷ rest) current addr end done)
        (nothing_ahead current (r ∷ rest) addr end done)
  | inl more ↦ rw (walk-next r rest current addr end more) (
      addresses-append (emitted (iter (r ∷ rest) current addr end))
        (walk rest r (min r.source_address end) end)
      ∙ ap₂ (λ xs ys. xs ++ ys)
          (emitted_stretch (iter (r ∷ rest) current addr end) (low (ltb→lt _ _ more)) (ground arith)
            (omega arith) (omega arith))
          (walk-governed rest r (min r.source_address end) end (λ p. omega arith)
            (ascending_ahead rest r end asc.2) asc.2 word)
      ∙ joined (ltb→lt _ _ more))
]
  where
    joined :
        addr < end
        → collect_some (mapped_by current) (range addr (min r.source_address end - addr))
            ++ collect_some
                (governed_from r rest)
                (range (min r.source_address end) (end - min r.source_address end))
          ≡ collect_some (governed_from current (r ∷ rest)) (range addr (end - addr))
    joined more =
        ap₂ (λ xs ys. xs ++ ys) (sym here) (sym (there (Bool-cases (ltb r.source_address end))))
        ∙ sym (
            collect_some-append (governed_from current (r ∷ rest)) (range addr (mid - addr))
              (range mid (end - mid)))
        ∙ ap (collect_some (governed_from current (r ∷ rest))) (sym pieces)
      where
        mid : ℕ
        mid = min r.source_address end

        here :
            collect_some (governed_from current (r ∷ rest)) (range addr (mid - addr))
            ≡ collect_some (mapped_by current) (range addr (mid - addr))
        here =
            collect_some-congr _ _ addr (mid - addr)
              (λ a p q. governed_from-low current r rest a (omega arith))

        there :
            (ltb r.source_address end ≡ true) ⊎ (ltb r.source_address end ≡ false)
            → collect_some (governed_from current (r ∷ rest)) (range mid (end - mid))
              ≡ collect_some (governed_from r rest) (range mid (end - mid))
        there (inl inside) =
            collect_some-congr _ _ mid (end - mid)
              (λ a p q. governed_from-high current r rest a (omega (arith, ltb→lt _ _ inside)))
        there (inr outside) =
            let none_left : end - mid ≡ 0 = omega (arith, ltb→le _ _ outside) in
            rw none_left (unfold collect_some in refl)

        pieces : range addr (end - addr) ≡ range addr (mid - addr) ++ range mid (end - mid)
        pieces =
            ap (λ (n : ℕ). range addr n)
              (let e : end - addr ≡ (mid - addr) + (end - mid) = omega (arith, ahead) in e)
            ∙ range-append addr (mid - addr) (end - mid)
            ∙ ap (λ (n : ℕ). range addr (mid - addr) ++ range n (end - mid))
                (let e : addr + (mid - addr) ≡ mid = omega (arith, ahead) in e)
