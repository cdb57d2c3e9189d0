-- ===== src/Prelude/Int.antt =====
-- Signed integers, and the two's complement in which they are stored.
use Prim.Native.Nat.{ℕ, zero, suc, ◌-◌, ◌^◌, ◌/◌}
use pdb.Prelude.Tests.{ltb, if◌then◌else◌}

-- `negsuc n` is -(n + 1).
pub data ℤ : Type 0 where
  pos : ℕ → ℤ
  negsuc : ℕ → ℤ

abbrev pub neg : ℕ → ℤ
neg zero = pos zero
neg (suc n) = negsuc n

-- A stored number of `bytes` bytes, read as a signed one.
abbrev pub signed : ℕ → ℕ → ℤ
signed bytes v = if ltb v (256 ^ bytes / 2) then pos v else negsuc (256 ^ bytes - 1 - v)
