-- ===== src/Types/Finder/Filled.antt =====
-- An `ItemFinder` that is updated along a whole iteration, and what it finds.
use pdb.Prelude.{
  ℕ, zero, suc, ◌+◌, ◌*◌, ◌/◌, ◌%◌, ◌≤◌, ◌<◌, ◌≡◌, refl, sym, ap, ◌∙◌, List, [], ◌∷◌, ◌++◌, map,
  append_assoc, append-nil, length, take, drop, get_elem?, All, Bool, true, false, Option, none,
  some, ltb, ◌==◌, length-append, length-drop, drop-append, drop-drop, u32_max, u32_mod, add32,
  sub32, arith, range, range-append, get_elem?-some, get_elem?-lt, drop-get_elem?, Bool-cases, inl,
  inr, le→ltb, lt→ltb, le_bytes, length-le_bytes,
}
use mathlib.Core.Path.{subst}
use mathlib.Core.List.{map-append}
use pdb.Prelude.Bits.{bit_and_x7, bit_and-xfffffff8}
use pdb.Errors.{Result, ok, err, panic, ◌>>=◌}
use pdb.Scroll.{Scroll, u16}
use pdb.Buffer.State.{ParseBuffer, from_bytes, take_bytes}
use pdb.Buffer.Yields.{Leaves, from_bytes-Leaves, Yields-take_bytes}
use pdb.Buffer.Advance.{
  Advances, Forward, Forward-bind, Forward-less, Forward-return, Forward-fail, Forward-parse_uint,
  Forward-take_bytes,
}
use pdb.Buffer.Laid.{laid, is_empty-Leaves-nil, is_empty-Leaves-cons}
use pdb.Types.Header.{reject}
use pdb.Errors.{type_too_short}
use pdb.Buffer.State.{fail}
use pdb.Types.Items.{ItemInformation, Item, ItemIter, iter, read_item, next}
use pdb.Types.Finder.{ItemFinder, finder, new, shifted_count, resolve, update, find}
use pdb.Types.Finder.Stream.{
  item_bytes, IsItem, IsStream, Yields-read_item, Yields-read_at, All-drop, laid-take-drop,
}

-- The loop that fills an index: `next`, then `update`, until there is no item.
abbrev pub fill_on :
    Result (Option Item) × ItemIter
    → ItemFinder
    → (ItemIter → ItemFinder → Result ItemFinder)
    → Result ItemFinder
fill_on (ok none, it) f rest = ok f
fill_on (ok (some x), it) f rest = update it f >>= rest it
fill_on (err e, it) f rest = err e
fill_on (panic, it) f rest = panic

unfoldable pub fill : Scroll → ℕ → ItemIter → ItemFinder → Result ItemFinder
fill sc zero it f = panic
fill sc (suc fuel) it f = fill_on (next sc it) f (fill sc fuel)

Forward-read_item : (sc : Scroll) → Forward (read_item sc) 2
unfolding read_item
Forward-read_item sc =
    Forward-bind (Forward-parse_uint sc u16)
      λ n. Forward-bind {n = 0} (reject_short (ltb n 2)) λ _. Forward-less (Forward-take_bytes n)
  where
    reject_short : (short : Bool) → Forward (reject short (fail type_too_short)) 0
    reject_short true = Forward-fail type_too_short
    reject_short false = Forward-return tt

drop_all : {A : Type 0} (n : ℕ) (xs : List A) → length xs ≤ n → drop n xs ≡ []
drop_all zero [] h = refl
drop_all zero (x ∷ xs) h = absurd (omega arith)
drop_all (suc n) [] h = refl
drop_all (suc n) (x ∷ xs) h = drop_all n xs (omega arith)

get_elem?-map-range :
    (f : ℕ → ℕ) (start n j : ℕ) → j < n → get_elem? (map f (range start n)) j ≡ some (f (start + j))
get_elem?-map-range f start zero j h = absurd (omega arith)
get_elem?-map-range f start (suc n) zero h =
    let e : start ≡ start + 0 = omega arith in ap (λ (k : ℕ). some (f k)) e
get_elem?-map-range f start (suc n) (suc j) h =
    get_elem?-map-range f (start + 1) n j (omega arith)
    ∙ (let e : start + 1 + j ≡ start + suc j = omega arith in ap (λ (k : ℕ). some (f k)) e)

length-map-range : (f : ℕ → ℕ) (start n : ℕ) → length (map f (range start n)) ≡ n
length-map-range f start zero = refl
length-map-range f start (suc n) = ap suc (length-map-range f (start + 1) n)

few : (items : List (List ℕ)) → 2 * length items ≤ length (laid item_bytes items)
few [] = omega arith
few (content ∷ items) = omega (
  arith,
  few items,
  length-append (item_bytes content) (laid item_bytes items),
  length-append (le_bytes 2 (length content)) content,
  length-le_bytes 2 (length content),
)

module _ (sc : Scroll) (info : ItemInformation) (header_bytes : List ℕ) (items : List (List ℕ))
    (s : IsStream info header_bytes items) where
  -- Where the item `k` starts.
  abbrev offset : ℕ → ℕ
  offset k = length (header_bytes ++ laid item_bytes (take k items))

  abbrev iter_at : ℕ → ItemIter
  iter_at k = record {
    buf = record { bytes = info.stream; pos = offset k };
    index = info.header.minimum_index + k;
  }

  abbrev positions_at : ℕ → List ℕ
  positions_at k = map (λ j. offset (8 * j)) (range 0 (k / 8 + 1))

  -- The index once `k` items have been seen.
  abbrev finder_at : ℕ → ItemFinder
  finder_at k = record {
    buffer = from_bytes info.stream;
    minimum_index = info.header.minimum_index;
    maximum_index = info.header.maximum_index;
    positions = positions_at k;
    shift = 3;
  }

  split_at :
      (k : ℕ)
      → info.stream
        ≡ (header_bytes ++ laid item_bytes (take k items)) ++ laid item_bytes (drop k items)
  split_at k =
      s.layout
      ∙ ap (λ t. header_bytes ++ t) (laid-take-drop item_bytes k items)
      ∙ sym (append_assoc header_bytes _ _)

  offset_lem : (k : ℕ) → offset k + length (laid item_bytes (drop k items)) ≡ length info.stream
  offset_lem k = omega (
    arith,
    ap length (split_at k),
    length-append (header_bytes ++ laid item_bytes (take k items)) (laid item_bytes (drop k items)),
  )

  iter_at-Leaves : (k : ℕ) → Leaves (iter_at k).buf (laid item_bytes (drop k items))
  iter_at-Leaves k = record {
    valid = record { within = omega (arith, offset_lem k); small = omega (arith, s.short) };
    left =
        ap (drop (offset k)) (split_at k)
        ∙ drop-append (header_bytes ++ laid item_bytes (take k items))
            (laid item_bytes (drop k items));
  }

  same_place :
      (k : ℕ) (b : ParseBuffer)
      → b.bytes ≡ info.stream
      → Leaves b (laid item_bytes (drop k items))
      → b ≡ (iter_at k).buf
  same_place k b bytes l = λ i. record { bytes = bytes i; pos = there i }
    where
      there : b.pos ≡ offset k
      there = omega (
        arith,
        offset_lem k,
        length-drop b.pos b.bytes,
        ap length l.left,
        ap length bytes,
        l.valid.within,
      )

  next_at :
      (k : ℕ) (content : List ℕ)
      → get_elem? items k ≡ some content
      → next sc (iter_at k) ≡ (
        ok (some (record { index = info.header.minimum_index + k; content = content })),
        iter_at (suc k),
      )
  unfolding next
  next_at k content at_k =
      let split : drop k items ≡ content ∷ drop (suc k) items =
        drop-get_elem? items k content at_k in
      let l : Leaves (iter_at k).buf (item_bytes content ++ laid item_bytes (drop (suc k) items)) =
        subst (λ xs. Leaves (iter_at k).buf (laid item_bytes xs)) split (iter_at-Leaves k) in
      let (after, runs, l') =
        Yields-read_item sc (iter_at k).buf content (laid item_bytes (drop (suc k) items))
          (subst (All IsItem) split (All-drop IsItem k items s.well_formed)).0 l in
      rw (is_empty-Leaves-cons (iter_at k).buf _ positive l, runs)
        (λ i. (
          ok (some (record { index = info.header.minimum_index + k; content = content })),
          record {
            buf = same_place (suc k) after (bytes_kept after runs) l' i;
            index = one_more i;
          },
        ))
    where
      positive : 0 < length (item_bytes content ++ laid item_bytes (drop (suc k) items))
      positive = omega (
        arith,
        length-append (item_bytes content) (laid item_bytes (drop (suc k) items)),
        length-append (le_bytes 2 (length content)) content,
        length-le_bytes 2 (length content),
      )

      one_more : add32 (info.header.minimum_index + k) 1 ≡ info.header.minimum_index + suc k
      one_more = omega (arith, s.indexes, get_elem?-lt items k content at_k)

      bytes_kept :
          (after : ParseBuffer)
          → read_item sc (iter_at k).buf ≡ (ok content, after)
          → after.bytes ≡ info.stream
      bytes_kept after runs =
          (subst (Advances 2 (iter_at k).buf) runs
            ((Forward-read_item sc).advances (iter_at k).buf (iter_at-Leaves k).valid)).0

  next_end : (k : ℕ) → length items ≤ k → next sc (iter_at k) ≡ (ok none, iter_at k)
  unfolding next
  next_end k h = rw (
      is_empty-Leaves-nil (iter_at k).buf (
        subst (λ xs. Leaves (iter_at k).buf (laid item_bytes xs)) (drop_all k items h)
          (iter_at-Leaves k)))

  -- The index gets a position exactly when the item that comes next is an eighth one.
  update_at :
      (k : ℕ) → k < length items → update (iter_at (suc k)) (finder_at k) ≡ ok (finder_at (suc k))
  unfolding update resolve
  update_at k h =
      rw (raw, bit_and_x7 (suc k), length-map-range (λ j. offset (8 * j)) 0 (k / 8 + 1))
        (elim (Bool-cases (suc k % 8 == 0)) [
          | inl eighth ↦
              rw (eighth, lt→ltb _ _ small, next_row eighth) (ap finder_with (grown eighth))
          | inr other ↦ rw other (same_row other)
        ])
    where
      raw : sub32 (info.header.minimum_index + suc k) info.header.minimum_index ≡ suc k
      raw = omega (arith, s.indexes)

      finder_with : List ℕ → Result ItemFinder
      finder_with positions = ok (record (finder_at k) { positions = positions })

      small : offset (suc k) < u32_max
      small = omega (arith, offset_lem (suc k), s.short)

      next_row : (suc k % 8 == 0) ≡ true → (suc k / 8 == k / 8 + 1) ≡ true
      next_row eighth = ground arith

      same_row :
          (suc k % 8 == 0) ≡ false
          → finder_with (positions_at k) ≡ finder_with (positions_at (suc k))
      same_row other =
          let e : k / 8 ≡ suc k / 8 = ground arith in
          ap (λ (row : ℕ). finder_with (map (λ j. offset (8 * j)) (range 0 (row + 1)))) e

      grown :
          (suc k % 8 == 0) ≡ true
          → positions_at k ++ (offset (suc k) % u32_mod ∷ []) ≡ positions_at (suc k)
      grown eighth =
          let word : offset (suc k) % u32_mod ≡ offset (suc k) = omega (arith, small) in
          let place : suc k ≡ 8 * (0 + (k / 8 + 1)) = ground arith in
          let rows : k / 8 + 1 + 1 ≡ suc k / 8 + 1 = ground arith in
          ap (λ (n : ℕ). positions_at k ++ (n ∷ [])) word
          ∙ ap (λ (n : ℕ). positions_at k ++ (offset n ∷ [])) place
          ∙ sym (map-append (λ j. offset (8 * j)) (range 0 (k / 8 + 1)) (range (0 + (k / 8 + 1)) 1))
          ∙ ap (map (λ j. offset (8 * j))) (sym (range-append 0 (k / 8 + 1) 1))
          ∙ ap (λ (n : ℕ). map (λ j. offset (8 * j)) (range 0 n)) rows

  fill_at :
      (left fuel k : ℕ)
      → k + left ≡ length items
      → left < fuel
      → fill sc fuel (iter_at k) (finder_at k) ≡ ok (finder_at (length items))
  unfolding fill
  fill_at left zero k e h = absurd (omega arith)
  fill_at zero (suc fuel) k e h =
      ap (λ r. fill_on r (finder_at k) (fill sc fuel)) (next_end k (omega arith))
      ∙ (let last : k ≡ length items = omega arith in ap (λ (n : ℕ). ok (finder_at n)) last)
  fill_at (suc left) (suc fuel) k e h =
      let (content, at_k) = get_elem?-some items k (omega arith) in
      ap (λ r. fill_on r (finder_at k) (fill sc fuel)) (next_at k content at_k)
      ∙ ap (λ r. r >>= fill sc fuel (iter_at (suc k))) (update_at k (omega arith))
      ∙ fill_at left fuel (suc k) (omega arith) (omega arith)

  resolve_at :
      (k i : ℕ)
      → info.header.minimum_index + i < u32_mod
      → resolve (finder_at k) (info.header.minimum_index + i) ≡ (i / 8, i % 8)
  unfolding resolve
  resolve_at k i h = rw (raw, bit_and_x7 i)
    where
      raw : sub32 (info.header.minimum_index + i) info.header.minimum_index ≡ i
      raw = omega (arith, h)

  find_at :
      (i : ℕ) (content : List ℕ)
      → get_elem? items i ≡ some content
      → find sc (finder_at (length items)) (info.header.minimum_index + i)
        ≡ ok (record { index = info.header.minimum_index + i; content = content })
  unfolding find
  find_at i content at_i =
      let (after, runs, l) =
        Yields-read_at sc header_bytes items (8 * (i / 8)) (i % 8) content (drop (suc i) items)
          (from_bytes info.stream) enough here s.well_formed
          (subst (Leaves (from_bytes info.stream)) s.layout
            (from_bytes-Leaves info.stream (omega (arith, s.short)))) in
      rw (resolved, not_low, not_high, position, resolved, runs)
    where
      inside : i < length items
      inside = get_elem?-lt items i content at_i

      resolved : resolve (finder_at (length items)) (info.header.minimum_index + i) ≡ (i / 8, i % 8)
      resolved = resolve_at (length items) i (omega (arith, s.indexes, inside))

      not_low : ltb (info.header.minimum_index + i) info.header.minimum_index ≡ false
      not_low = le→ltb _ _ (omega arith)

      not_high : ltb info.header.maximum_index (info.header.minimum_index + i) ≡ false
      not_high = le→ltb _ _ (omega (arith, s.maximum, inside))

      position : get_elem? (positions_at (length items)) (i / 8) ≡ some (offset (8 * (i / 8)))
      position =
          get_elem?-map-range (λ j. offset (8 * j)) 0 (length items / 8 + 1) (i / 8)
            (omega (arith, inside))
          ∙ (let e : 0 + i / 8 ≡ i / 8 = omega arith in ap (λ (j : ℕ). some (offset (8 * j))) e)

      enough : i % 8 ≤ length (drop (8 * (i / 8)) items)
      enough = omega (arith, length-drop (8 * (i / 8)) items, inside)

      here : drop (i % 8) (drop (8 * (i / 8)) items) ≡ content ∷ drop (suc i) items
      here =
          drop-drop (8 * (i / 8)) (i % 8) items
          ∙ (let e : 8 * (i / 8) + i % 8 ≡ i = omega arith in ap (λ (n : ℕ). drop n items) e)
          ∙ drop-get_elem? items i content at_i

  no_header : length (header_bytes ++ []) ≡ length header_bytes
  no_header = ap length (append-nil header_bytes)

  iter_start : iter info ≡ ok (iter_at 0)
  unfolding iter
  iter_start =
      let (after, runs, l) =
        Yields-take_bytes info.header.header_size (from_bytes info.stream) header_bytes
          (laid item_bytes items) (sym s.header_size)
          (subst (Leaves (from_bytes info.stream)) s.layout
            (from_bytes-Leaves info.stream (omega (arith, s.short)))) in
      rw runs (λ i.
        ok (record { buf = same_place 0 after (bytes_kept after runs) l i; index = first_index i }))
    where
      first_index : info.header.minimum_index ≡ info.header.minimum_index + 0
      first_index = omega arith

      bytes_kept :
          (after : ParseBuffer)
          → take_bytes info.header.header_size (from_bytes info.stream) ≡ (ok header_bytes, after)
          → after.bytes ≡ info.stream
      bytes_kept after runs =
          (subst (Advances info.header.header_size (from_bytes info.stream)) runs (
            (Forward-take_bytes info.header.header_size).advances (from_bytes info.stream)
              (from_bytes-Leaves info.stream (omega (arith, s.short))).valid)).0

  finder_start : 0 < length items → finder info ≡ finder_at 0
  unfolding finder shifted_count new
  finder_start some_items =
      rw (raw, bit_and-xfffffff8 (add32 (length items) 7) (omega arith), counted)
        (λ i. record (finder_at 0) { positions = first i ∷ [] })
    where
      raw : sub32 info.header.maximum_index info.header.minimum_index ≡ length items
      raw = omega (arith, s.maximum, s.indexes)

      counted : ltb 0 (add32 (length items) 7 / 8 * 8 / 8) ≡ true
      counted = lt→ltb _ _ (
          omega (
            arith,
            some_items,
            few items,
            ap length s.layout,
            s.short,
            length-append header_bytes (laid item_bytes items),
          ))

      first : info.header.header_size ≡ offset (8 * 0)
      first = s.header_size ∙ sym no_header

  -- A stream with a header and items that are well-formed, one at least, of fewer than 2 ^ 32 - 1 bytes,
  -- and an index that is updated after each step of an iteration over the whole of it. The iteration
  -- succeeds, and then `find` returns each item under its index, which is the minimum index plus its
  -- place.
  pub find-filled :
      (i : ℕ) (content : List ℕ)
      → 0 < length items
      → get_elem? items i ≡ some content
      → (f : ItemFinder) × ((iter info >>= λ it. fill sc (suc (length items)) it (finder info))
          ≡ ok f)
        × (find sc f (info.header.minimum_index + i)
            ≡ ok (record { index = info.header.minimum_index + i; content = content }))
  find-filled i content items_exist there =
      (finder_at (length items), filled, find_at i content there)
    where
      filled :
          (iter info >>= λ it. fill sc (suc (length items)) it (finder info))
          ≡ ok (finder_at (length items))
      filled =
          ap (λ r. r >>= λ it. fill sc (suc (length items)) it (finder info)) iter_start
          ∙ ap (fill sc (suc (length items)) (iter_at 0)) (finder_start items_exist)
          ∙ fill_at (length items) (suc (length items)) 0 (omega arith) (omega arith)
