-- ===== src/Base/Bits.antt =====
-- `&` with a mask of low ones is a remainder.
use Prim.Native.Nat.{
  ℕ, zero, suc, ◌+◌, ◌-◌, ◌*◌, ◌/◌, ◌%◌, ◌^◌, ◌≤◌, ◌<◌, min, bit_and, digits, bit_and-bitwise,
}
use mathlib.Core.Path.{◌≡◌, sym, ap, ◌∙◌}
use native.Mathlib.Nat.{
  pow-suc, one-le-pow, add-mul-mod_self_right, mod-eq_of_lt, div-add-mod', mod-lt, mul_assoc,
  zero-mod,
}
use native.Mathlib.Omega.{arith}

-- A remainder by an even number is that of the half, and the lowest bit.
mod-double : (a p : ℕ) → 0 < p → a % (p * 2) ≡ a / 2 % p * 2 + a % 2
mod-double a p h =
    ap (λ (t : ℕ). t % (p * 2)) split
    ∙ add-mul-mod_self_right (a / 2 % p * 2 + a % 2) (a / 2 / p) (p * 2)
    ∙ mod-eq_of_lt (omega (arith, mod-lt (a / 2) h))
  where
    split : a ≡ a / 2 % p * 2 + a % 2 + a / 2 / p * (p * 2)
    split = omega (arith, div-add-mod' (a / 2) p, mul_assoc (a / 2 / p) p 2)

-- A mask of one more low one: its half and its lowest bit.
half-ones : (k : ℕ) → ((2 ^ suc k - 1) / 2 ≡ 2 ^ k - 1) × ((2 ^ suc k - 1) % 2 ≡ 1)
half-ones k = omega (arith, pow-suc 2 k, one-le-pow k 2 (omega arith))

-- The binary recursion that `bit_and` stands for, on a mask of `k` low ones.
low_ones : (rounds k a : ℕ) → a ≤ rounds → digits (λ b. zero) min rounds a (2 ^ k - 1) ≡ a % 2 ^ k
low_ones zero k zero h = sym (zero-mod (2 ^ k))
low_ones zero k (suc a) h = elim h [ ]
low_ones (suc rounds) k zero h = sym (zero-mod (2 ^ k))
low_ones (suc rounds) zero (suc a) h = omega (arith, low_ones rounds zero (suc a / 2) (omega arith))
low_ones (suc rounds) (suc k) (suc a) h =
    let (half, odd) = half-ones k in
    let ih = low_ones rounds k (suc a / 2) (omega arith) in
    rw (half, odd, ih, pow-suc)
      (omega (arith, mod-double (suc a) (2 ^ k) (one-le-pow k 2 (omega arith))))

pub bit_and-low_ones : (k a : ℕ) → bit_and a (2 ^ k - 1) ≡ a % 2 ^ k
bit_and-low_ones k a = bit_and-bitwise a (2 ^ k - 1) ∙ low_ones a k a (omega arith)
