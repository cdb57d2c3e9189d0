-- ===== src/Types/Finder.antt =====
-- src/tpi/mod.rs: `ItemFinder`, an index of a stream of items by every eighth position.
pub mod Stream
pub mod Filled
use pdb.Prelude.{
  ℕ, zero, suc, ◌+◌, ◌-◌, ◌*◌, ◌/◌, ◌%◌, ◌^◌, List, [], ◌∷◌, ◌++◌, Bool, true, false, ◌&&◌, Option,
  none, some, length, get_elem?, ltb, leb, ◌==◌, if◌then◌else◌, add32, sub32, bit_and, u32_max,
  u32_mod,
}
use pdb.Errors.{Result, ok, err, panic, assert, type_not_found, type_not_indexed}
use pdb.Errors
use pdb.Scroll.{Scroll}
use pdb.Buffer.State.{ParseBuffer, Parser, ◌>>=◌, ◌>>◌, return, from_bytes, parse_u16, take_bytes}
use pdb.Types.Items.{ItemInformation, Item, ItemIter}

pub record ItemFinder : Type 0 where
  pub buffer : ParseBuffer
  pub minimum_index : ℕ
  pub maximum_index : ℕ
  pub positions : List ℕ
  pub shift : ℕ

-- `PRIMITIVE_TYPE`.
abbrev pub primitive_type : List ℕ
primitive_type = 0xff ∷ 0xff ∷ []

-- How many positions the index is to hold.
unfoldable pub shifted_count : ℕ → ℕ → ℕ
shifted_count count shift =
    let round_base = 2 ^ shift - 1 in
    bit_and (add32 count round_base) (u32_max - round_base) / 2 ^ shift

-- `ItemFinder::new`. `ItemInformation::finder` calls it with 3.
unfoldable pub new : ItemInformation → ℕ → ItemFinder
unfolding shifted_count
new info shift = record {
  buffer = from_bytes info.stream;
  minimum_index = info.header.minimum_index;
  maximum_index = info.header.maximum_index;
  positions =
      if ltb 0 (shifted_count (sub32 info.header.maximum_index info.header.minimum_index) shift)
      then info.header.header_size ∷ []
      else [];
  shift = shift;
}

unfoldable pub finder : ItemInformation → ItemFinder
unfolding new
finder info = new info 3

unfoldable pub resolve : ItemFinder → ℕ → ℕ × ℕ
resolve f type_index =
    let raw = sub32 type_index f.minimum_index in (raw / 2 ^ f.shift, bit_and raw (2 ^ f.shift - 1))

unfoldable pub max_index : ItemFinder → ℕ
max_index f =
    if length f.positions == 0
    then 0
    else sub32 (add32 (length f.positions * 2 ^ f.shift % u32_mod) f.minimum_index) 1

unfoldable pub update : ItemIter → ItemFinder → Result ItemFinder
unfolding resolve
update iterator f =
    let (vec_index, iteration_count) = resolve f iterator.index in
    if (iteration_count == 0) && (vec_index == length f.positions)
    then Errors.◌>>◌ (assert (ltb iterator.buf.pos u32_max))
        (ok (record f { positions = f.positions ++ (iterator.buf.pos % u32_mod ∷ []) }))
    else ok f

module _ (sc : Scroll) where
  -- `for _ in 0..iteration_count`: a record is skipped.
  unfoldable pub skip_records : ℕ → Parser (Unit {0})
  skip_records zero = return tt
  skip_records (suc count) = do length ← parse_u16 sc; take_bytes length; skip_records count

  -- The reads of `find`, from the start of the stream.
  unfoldable pub read_at : ℕ → ℕ → Parser (List ℕ)
  unfolding skip_records
  read_at pos iteration_count = do
    take_bytes pos
    skip_records iteration_count
    length ← parse_u16 sc
    take_bytes length

  unfoldable pub find : ItemFinder → ℕ → Result Item
  find f index =
      let (vec_index, iteration_count) = resolve f index in
      if ltb index f.minimum_index
      then ok (record { index = index; content = primitive_type })
      else if ltb f.maximum_index index
      then err (type_not_found index)
      else elim (get_elem? f.positions vec_index) [
        | none ↦ err (type_not_indexed index (max_index f))
        | some pos ↦
            Errors.◌>>=◌ (read_at pos iteration_count f.buffer).0
              (λ content. ok (record { index = index; content = content }))
      ]
