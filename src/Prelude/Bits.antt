-- ===== src/Prelude/Bits.antt =====
-- Masks and shifts as arithmetic, at variables.
use Prim.Native.Nat.{
  ℕ, zero, suc, ◌+◌, ◌-◌, ◌*◌, ◌/◌, ◌%◌, ◌^◌, ◌≤◌, ◌<◌, max, min, bit_and, bit_or, digits, bitwise,
  bit_or-bitwise, bit_and-bitwise,
}
use mathlib.Core.Path.{◌≡◌, refl, sym, ap, ◌∙◌}
use native.Mathlib.Omega.{arith}

-- The native operations count their digits down from the first number. A larger count changes nothing.
module _ (rest : ℕ → ℕ) (op : ℕ → ℕ → ℕ) where
  one_more_digit :
      (count x y : ℕ) → x ≤ count → digits rest op (suc count) x y ≡ digits rest op count x y
  one_more_digit zero zero y le = refl
  one_more_digit zero (suc x) y le = absurd (omega arith)
  one_more_digit (suc count) zero y le = refl
  one_more_digit (suc count) (suc x) y le =
      ap (λ (t : ℕ). t * 2 + op (suc x % 2) (y % 2))
        (one_more_digit count (suc x / 2) (y / 2) (omega arith))

  more_digits : (extra x y : ℕ) → digits rest op (extra + x) x y ≡ bitwise rest op x y
  more_digits zero x y =
      let none_extra : 0 + x ≡ x = omega arith in ap (λ (t : ℕ). digits rest op t x y) none_extra
  more_digits (suc extra) x y =
      (let regroup : suc extra + x ≡ suc (extra + x) = omega arith in
        ap (λ (t : ℕ). digits rest op t x y) regroup)
      ∙ one_more_digit (extra + x) x y (omega arith)
      ∙ more_digits extra x y

  bitwise_lowest :
      (x y : ℕ)
      → bitwise rest op (suc x) y ≡ bitwise rest op (suc x / 2) (y / 2) * 2 + op (suc x % 2) (y % 2)
  bitwise_lowest x y =
      ap (λ (t : ℕ). t * 2 + op (suc x % 2) (y % 2))
        (enlarge ∙ more_digits (x - suc x / 2) (suc x / 2) (y / 2))
    where
      enlarge :
          digits rest op x (suc x / 2) (y / 2)
          ≡ digits rest op (x - suc x / 2 + suc x / 2) (suc x / 2) (y / 2)
      enlarge =
          let split : x ≡ x - suc x / 2 + suc x / 2 = omega arith in
          ap (λ (t : ℕ). digits rest op t (suc x / 2) (y / 2)) split

-- The lowest digit of a disjunction and of a conjunction, and the digits above it.
bit_or_lowest : (x y : ℕ) → bit_or x y ≡ bit_or (x / 2) (y / 2) * 2 + max (x % 2) (y % 2)
bit_or_lowest zero y = omega (arith, bit_or-bitwise 0 y, bit_or-bitwise 0 (y / 2))
bit_or_lowest (suc x) y = omega (
  arith,
  bitwise_lowest (λ d. d) max x y,
  bit_or-bitwise (suc x) y,
  bit_or-bitwise (suc x / 2) (y / 2),
)

bit_and_lowest : (x y : ℕ) → bit_and x y ≡ bit_and (x / 2) (y / 2) * 2 + min (x % 2) (y % 2)
bit_and_lowest zero y = omega (arith, bit_and-bitwise 0 y, bit_and-bitwise 0 (y / 2))
bit_and_lowest (suc x) y = omega (
  arith,
  bitwise_lowest (λ d. zero) min x y,
  bit_and-bitwise (suc x) y,
  bit_and-bitwise (suc x / 2) (y / 2),
)

-- With zero as the second operand.
and_nothing : (count x : ℕ) → digits (λ d. zero) min count x 0 ≡ 0
and_nothing zero x = refl
and_nothing (suc count) zero = refl
and_nothing (suc count) (suc x) = omega (arith, and_nothing count (suc x / 2))

bit_and-nothing : (x : ℕ) → bit_and x 0 ≡ 0
bit_and-nothing x = bit_and-bitwise x 0 ∙ and_nothing x x

or_nothing : (count x : ℕ) → x ≤ count → digits (λ d. d) max count x 0 ≡ x
or_nothing count zero le = or_zero count
  where
    or_zero : (count : ℕ) → digits (λ d. d) max count 0 0 ≡ 0
    or_zero zero = refl
    or_zero (suc count) = refl
or_nothing zero (suc x) le = absurd (omega arith)
or_nothing (suc count) (suc x) le = omega (arith, or_nothing count (suc x / 2) (omega arith))

bit_or-nothing : (x : ℕ) → bit_or x 0 ≡ x
bit_or-nothing x = bit_or-bitwise x 0 ∙ or_nothing x x (omega arith)

one_more_shift : (k x : ℕ) → x * 2 ^ suc k ≡ x * 2 ^ k * 2
one_more_shift k x =
    let power : 2 ^ suc k ≡ 2 * 2 ^ k = omega arith in omega (arith, ap (λ (t : ℕ). x * t) power)

shift_back : (k q r : ℕ) → (q * 2 ^ suc k + r) / 2 ≡ q * 2 ^ k + r / 2
shift_back k q r = omega (arith, one_more_shift k q)

-- `hi << k | lo` is a sum where `lo` fits into the `k` bits.
pub bit_or-shifted : (k hi lo : ℕ) → lo < 2 ^ k → bit_or (hi * 2 ^ k) lo ≡ hi * 2 ^ k + lo
bit_or-shifted zero hi zero h = omega (arith, bit_or-nothing (hi * 2 ^ 0))
bit_or-shifted zero hi (suc lo) h = absurd (omega arith)
bit_or-shifted (suc k) hi lo h = omega (
  arith,
  bit_or_lowest (hi * 2 ^ suc k) lo,
  double,
  half,
  low,
  bit_or-shifted k hi (lo / 2) (omega arith),
)
  where
    double : hi * 2 ^ suc k ≡ hi * 2 ^ k * 2
    double = one_more_shift k hi

    half : bit_or (hi * 2 ^ suc k / 2) (lo / 2) ≡ bit_or (hi * 2 ^ k) (lo / 2)
    half =
        let e : hi * 2 ^ suc k / 2 ≡ hi * 2 ^ k = omega (arith, double) in
        λ i. bit_or (e i) (lo / 2)

    low : hi * 2 ^ suc k % 2 ≡ 0
    low = omega (arith, double)

-- Conjunction with one, three, seven, … is a remainder.
pub bit_and-one : (x : ℕ) → bit_and x 1 ≡ x % 2
bit_and-one x = omega (arith, bit_and-nothing (x / 2), bit_and_lowest x 1)

-- A mask with one digit more at its low end, set or not.
bit_and_odd : (x m r : ℕ) → bit_and (x / 2) m ≡ r → bit_and x (m * 2 + 1) ≡ r * 2 + x % 2
bit_and_odd x m r e = omega (arith, bit_and_lowest x (m * 2 + 1), half, e)
  where
    half : bit_and (x / 2) ((m * 2 + 1) / 2) ≡ bit_and (x / 2) m
    half = let same : (m * 2 + 1) / 2 ≡ m = omega arith in ap (λ (t : ℕ). bit_and (x / 2) t) same

bit_and_three : (x : ℕ) → bit_and x 3 ≡ x % 4
bit_and_three x = omega (arith, bit_and_odd x 1 (x / 2 % 2) (bit_and-one (x / 2)))

pub bit_and_x7 : (x : ℕ) → bit_and x 7 ≡ x % 8
bit_and_x7 x = omega (arith, bit_and_odd x 3 (x / 2 % 4) (bit_and_three (x / 2)))

pub bit_and_xf : (x : ℕ) → bit_and x 0xf ≡ x % 16
bit_and_xf x = omega (arith, bit_and_odd x 7 (x / 2 % 8) (bit_and_x7 (x / 2)))

pub bit_and_x1f : (x : ℕ) → bit_and x 0x1f ≡ x % 32
bit_and_x1f x = omega (arith, bit_and_odd x 0xf (x / 2 % 16) (bit_and_xf (x / 2)))

pub bit_and_x3f : (x : ℕ) → bit_and x 0x3f ≡ x % 64
bit_and_x3f x = omega (arith, bit_and_odd x 0x1f (x / 2 % 32) (bit_and_x1f (x / 2)))

bit_and_even : (a m : ℕ) → bit_and a (m * 2) ≡ bit_and (a / 2) m * 2
bit_and_even a m = omega (arith, bit_and_lowest a (m * 2), half)
  where
    half : bit_and (a / 2) (m * 2 / 2) ≡ bit_and (a / 2) m
    half = let e : m * 2 / 2 ≡ m = omega arith in ap (λ (t : ℕ). bit_and (a / 2) t) e

pub bit_and_x80 : (a : ℕ) → bit_and a 0x80 ≡ a / 128 % 2 * 128
bit_and_x80 a = omega (
  arith,
  bit_and_even a 64,
  bit_and_even (a / 2) 32,
  bit_and_even (a / 2 / 2) 16,
  bit_and_even (a / 2 / 2 / 2) 8,
  bit_and_even (a / 2 / 2 / 2 / 2) 4,
  bit_and_even (a / 2 / 2 / 2 / 2 / 2) 2,
  bit_and_even (a / 2 / 2 / 2 / 2 / 2 / 2) 1,
  bit_and-one (a / 2 / 2 / 2 / 2 / 2 / 2 / 2),
)

pub bit_and_xc0 : (a : ℕ) → bit_and a 0xc0 ≡ a / 64 % 4 * 64
bit_and_xc0 a = omega (
  arith,
  bit_and_even a 0x60,
  bit_and_even (a / 2) 0x30,
  bit_and_even (a / 2 / 2) 0x18,
  bit_and_even (a / 2 / 2 / 2) 0xc,
  bit_and_even (a / 2 / 2 / 2 / 2) 6,
  bit_and_even (a / 2 / 2 / 2 / 2 / 2) 3,
  bit_and_three (a / 2 / 2 / 2 / 2 / 2 / 2),
)

pub bit_and_xe0 : (a : ℕ) → bit_and a 0xe0 ≡ a / 32 % 8 * 32
bit_and_xe0 a = omega (
  arith,
  bit_and_even a 0x70,
  bit_and_even (a / 2) 0x38,
  bit_and_even (a / 2 / 2) 0x1c,
  bit_and_even (a / 2 / 2 / 2) 0xe,
  bit_and_even (a / 2 / 2 / 2 / 2) 7,
  bit_and_x7 (a / 2 / 2 / 2 / 2 / 2),
)

-- The mask of the lowest `k` digits.
abbrev pub ones : ℕ → ℕ
ones zero = 0
ones (suc k) = ones k * 2 + 1

pub bit_and-ones : (k x : ℕ) → x < 2 ^ k → bit_and x (ones k) ≡ x
bit_and-ones zero x h = bit_and-nothing x ∙ omega arith
bit_and-ones (suc k) x h =
    bit_and_odd x (ones k) (x / 2) (bit_and-ones k (x / 2) (omega (arith, power))) ∙ omega arith
  where
    power : 2 ^ suc k ≡ 2 * 2 ^ k
    power = omega arith

-- A mask without the three lowest digits of 32.
pub bit_and-xfffffff8 : (x : ℕ) → x < 2 ^ 32 → bit_and x 0xffff_fff8 ≡ x / 8 * 8
bit_and-xfffffff8 x h = omega (
  arith,
  bit_and_even x 0x7fff_fffc,
  bit_and_even (x / 2) 0x3fff_fffe,
  bit_and_even (x / 2 / 2) 0x1fff_ffff,
  bit_and-ones 29 (x / 2 / 2 / 2) (omega arith),
)

-- The lowest `k` digits of a number.
pub bit_and-ones_low : (k q r : ℕ) → r < 2 ^ k → bit_and (q * 2 ^ k + r) (ones k) ≡ r
bit_and-ones_low zero q r h = bit_and-nothing (q * 1 + r) ∙ omega arith
bit_and-ones_low (suc k) q r h =
    bit_and_odd _ (ones k) (r / 2) (
      ap (λ (t : ℕ). bit_and t (ones k)) (shift_back k q r)
      ∙ bit_and-ones_low k q (r / 2) (omega arith))
    ∙ omega (arith, one_more_shift k q)

-- A mask that is shifted by `k` digits.
pub bit_and-shifted :
    (k q r m : ℕ) → r < 2 ^ k → bit_and (q * 2 ^ k + r) (m * 2 ^ k) ≡ bit_and q m * 2 ^ k
bit_and-shifted zero q r m h =
    let e : q * 1 + r ≡ q = omega arith in
    let e' : m * 1 ≡ m = omega arith in rw (e, e') (omega arith)
bit_and-shifted (suc k) q r m h =
    ap (λ (t : ℕ). bit_and (q * 2 ^ suc k + r) t) (one_more_shift k m)
    ∙ bit_and_even (q * 2 ^ suc k + r) (m * 2 ^ k)
    ∙ ap (λ (t : ℕ). bit_and t (m * 2 ^ k) * 2) (shift_back k q r)
    ∙ ap (λ (t : ℕ). t * 2) (bit_and-shifted k q (r / 2) m (omega arith))
    ∙ sym (one_more_shift k (bit_and q m))
