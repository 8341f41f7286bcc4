-- ===== src/Base/Modular.antt =====
-- Remainders: residues of powers of two, and positions that differ by less than the modulus.
use Prim.Native.Nat.{ℕ, zero, suc, ◌+◌, ◌-◌, ◌%◌, ◌^◌, ◌≤◌, ◌<◌, ◌∣◌}
use mathlib.Core.Path.{◌≡◌, sym, ◌∙◌}
use mathlib.Core.Logic.{◌≢◌}
use native.Mathlib.Nat.{
  pow-suc, mod-add-mod, mod-eq_of_lt, mod-lt, mod-mod_of_dvd, mod-eq-sub-mod, dvd-mul_right_of_dvd,
  dvd_refl, add-zero,
}
use native.Mathlib.Decide.{dec_lt}
use native.Mathlib.Omega.{arith}

-- The number of values of a machine word.
abbrev pub word : ℕ
word = 2 ^ 64

-- `usize::wrapping_add` and `usize::wrapping_sub`.
abbrev pub wrapping_add : ℕ → ℕ → ℕ
wrapping_add a b = (a + b) % word

abbrev pub wrapping_sub : ℕ → ℕ → ℕ
wrapping_sub a b = (a + word - b) % word

-- The distance of two wrapped positions that are less than a word apart.
pub wrapping_sub-mod : (a d : ℕ) → d < word → wrapping_sub ((a + d) % word) (a % word) ≡ d
wrapping_sub-mod a d h = omega arith

pub wrapping_add-mod : (a b : ℕ) → wrapping_add (a % word) b ≡ (a + b) % word
wrapping_add-mod a b = omega arith

-- Wrapped positions are equal only where the positions are.
pub eq_of_mod-eq : (a d : ℕ) → d < word → a % word ≡ (a + d) % word → d ≡ 0
eq_of_mod-eq a d h e = omega arith

pow-dvd-pow_add : (k d : ℕ) → 2 ^ k ∣ 2 ^ (k + d)
pow-dvd-pow_add k zero = rw add-zero (dvd_refl (2 ^ k))
pow-dvd-pow_add k (suc d) =
    let e : k + suc d ≡ suc (k + d) = omega arith in
    rw (e, pow-suc) (dvd-mul_right_of_dvd (2 ^ k) (pow-dvd-pow_add k d) 2)

pub pow-dvd-pow : {k w : ℕ} → k ≤ w → 2 ^ k ∣ 2 ^ w
pow-dvd-pow {k} {w} h = let e : w ≡ k + (w - k) = omega arith in rw e (pow-dvd-pow_add k (w - k))

pub mod-pow-mod : (n : ℕ) {k w : ℕ} → k ≤ w → n % 2 ^ w % 2 ^ k ≡ n % 2 ^ k
mod-pow-mod n {k} {w} h = mod-mod_of_dvd (2 ^ k) n (pow-dvd-pow h)

ne_of_lt-mod : {m d : ℕ} (r : ℕ) → 0 < d → d < m → r < m → (r + d) % m ≢ r
ne_of_lt-mod {m} {d} r p q hr = elim (dec_lt (r + d) m) [
  | yes below ↦ omega (arith, mod-eq_of_lt below)
  | no above ↦ omega (
    arith,
    mod-eq-sub-mod {n = r + d} {m = m} (omega arith),
    mod-eq_of_lt {n = r + d - m} {m = m} (omega arith),
  )
]

-- Fewer than `m` steps round a ring of `m` places do not come back.
pub mod-ne-mod : {m d : ℕ} (a : ℕ) → 0 < d → d < m → a % m ≢ (a + d) % m
mod-ne-mod {m} {d} a p q e =
    ne_of_lt-mod (a % m) p q (mod-lt a (omega arith)) (mod-add-mod a m d ∙ sym e)
