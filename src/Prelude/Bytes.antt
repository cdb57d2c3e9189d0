-- ===== src/Prelude/Bytes.antt =====
-- Little-endian numbers, and runs of consecutive positions.
use Prim.Native.Nat.{ℕ, zero, suc, ◌+◌, ◌*◌, ◌/◌, ◌%◌, ◌^◌, ◌≤◌, ◌<◌}
use mathlib.Core.Path.{◌≡◌, refl, ap, ◌∙◌}
use mathlib.Core.List.{List, [], ◌∷◌, ◌++◌}
use native.Mathlib.Nat.{zero-add, add-zero}
use native.Mathlib.Omega.{arith}
use Prim.Native.Nat.add
use pdb.Prelude.Lists.{length, take}

abbrev pub IsByte : ℕ → Type 0
IsByte b = b < 256

-- The number that a list of bytes spells, the lowest byte first.
abbrev pub le_value : List ℕ → ℕ
le_value [] = 0
le_value (b ∷ bs) = b + 256 * le_value bs

-- The `n` lowest bytes of a number.
abbrev pub le_bytes : ℕ → ℕ → List ℕ
le_bytes zero v = []
le_bytes (suc n) v = (v % 256) ∷ le_bytes n (v / 256)

pub length-le_bytes : (n v : ℕ) → length (le_bytes n v) ≡ n
length-le_bytes zero v = refl
length-le_bytes (suc n) v = ap suc (length-le_bytes n (v / 256))

pub le_value-le_bytes : (n v : ℕ) → v < 256 ^ n → le_value (le_bytes n v) ≡ v
le_value-le_bytes zero v h = omega arith
le_value-le_bytes (suc n) v h = omega (arith, le_value-le_bytes n (v / 256) (omega arith))

-- The positions `start`, `start + 1`, …, `n` of them.
abbrev pub range : ℕ → ℕ → List ℕ
range start zero = []
range start (suc n) = start ∷ range (start + 1) n

pub length-range : (start n : ℕ) → length (range start n) ≡ n
length-range start zero = refl
length-range start (suc n) = ap suc (length-range (start + 1) n)

pub range-append : (start m n : ℕ) → range start (m + n) ≡ range start m ++ range (start + m) n
range-append start zero n = simp (zero-add, add-zero)
range-append start (suc m) n =
    rw add.suc (ap (λ t. start ∷ t) (range-append (start + 1) m n ∙ tail))
  where
    regroup : start + 1 + m ≡ start + suc m
    regroup = omega arith

    tail :
        range (start + 1) m ++ range (start + 1 + m) n
        ≡ range (start + 1) m ++ range (start + suc m) n
    tail = ap (λ (k : ℕ). range (start + 1) m ++ range k n) regroup

pub take-range : (start m n : ℕ) → m ≤ n → take m (range start n) ≡ range start m
take-range start zero n h = refl
take-range start (suc m) zero h = absurd (omega arith)
take-range start (suc m) (suc n) h = ap (λ t. start ∷ t) (take-range (start + 1) m n (omega arith))
