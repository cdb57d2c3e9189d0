-- ===== src/Msf/Header/PageSize.antt =====
-- src/msf/mod.rs: the page sizes that both kinds of file accept.
use pdb.Prelude.{
  ℕ, zero, suc, ◌*◌, ◌/◌, ◌%◌, ◌^◌, ◌≤◌, ◌<◌, ◌≡◌, false, arith, ◌⊎◌, inl, inr, u32_mod,
}
use pdb.Msf.Header.{count_ones, is_invalid_page_size}

no_ones : (bits n : ℕ) → n < 2 ^ bits → count_ones bits n ≡ 0 → n ≡ 0
unfolding count_ones
no_ones zero n h e = omega arith
no_ones (suc bits) n h e = omega (arith, no_ones bits (n / 2) (omega arith) (omega arith))

-- A number with one binary digit that is set is a power of two.
one_one : (bits n : ℕ) → n < 2 ^ bits → count_ones bits n ≡ 1 → (k : ℕ) × (n ≡ 2 ^ k)
unfolding count_ones
one_one zero n h e = absurd (omega arith)
one_one (suc bits) n h e = elim (parity n) [
  | inl even ↦
      let (k, power) = one_one bits (n / 2) (omega arith) (omega (arith, even)) in
      (suc k, omega (arith, even, power))
  | inr odd ↦ (0, omega (arith, odd, no_ones bits (n / 2) (omega arith) (omega (arith, odd))))
]
  where
    parity : (n : ℕ) → (n % 2 ≡ 0) ⊎ (n % 2 ≡ 1)
    parity n = ground arith

-- A 32-bit page size that passes the test is a power of two from 0x100 to 128 * 0x10000.
pub is_invalid_page_size_lem :
    (page_size : ℕ)
    → page_size < u32_mod
    → is_invalid_page_size page_size ≡ false
    → (k : ℕ) × (page_size ≡ 2 ^ k) × (0x100 ≤ page_size) × (page_size ≤ 128 * 0x10000)
unfolding is_invalid_page_size
is_invalid_page_size_lem page_size small passes =
    let (k, power) = one_one 32 page_size small ones in (k, power, ground arith, ground arith)
  where
    ones : count_ones 32 page_size ≡ 1
    ones = ground arith
