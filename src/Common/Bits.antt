-- ===== src/Common/Bits.antt =====
-- `&` with a mask of consecutive ones and `|` of disjoint fields, as arithmetic, at every width.
use Prim.Native.Nat.{
  ℕ, zero, suc, ◌+◌, ◌-◌, ◌*◌, ◌/◌, ◌%◌, ◌^◌, ◌≤◌, ◌<◌, min, max, bit_and, bit_or, digits, bitwise,
  bit_and-bitwise, bit_or-bitwise,
}
use mathlib.Core.Path.{◌≡◌, refl, sym, ap}
use native.Mathlib.Nat.{pow-suc, one-le-pow, le_refl, div-div-eq-div-mul, div-add-mod'}
use native.Mathlib.Omega.{arith}

module _ (base : ℕ → ℕ) (digit : ℕ → ℕ → ℕ) where
  enough_fuel : (m n a b : ℕ) → a ≤ m → a ≤ n → digits base digit m a b ≡ digits base digit n a b
  enough_fuel zero zero a b p q = refl
  enough_fuel zero (suc n) zero b p q = refl
  enough_fuel (suc m) zero zero b p q = refl
  enough_fuel (suc m) (suc n) zero b p q = refl
  enough_fuel zero (suc n) (suc a) b p q = absurd (omega arith)
  enough_fuel (suc m) zero (suc a) b p q = absurd (omega arith)
  enough_fuel (suc m) (suc n) (suc a) b p q =
      rw (enough_fuel m n (suc a / 2) (b / 2) (omega arith) (omega arith))

  bitwise_low :
      (a b : ℕ)
      → bitwise base digit (suc a) b
        ≡ bitwise base digit (suc a / 2) (b / 2) * 2 + digit (suc a % 2) (b % 2)
  bitwise_low a b =
      omega (arith, enough_fuel a (suc a / 2) (suc a / 2) (b / 2) (omega arith) (le_refl _))

-- The lowest digit of `&` and of `|`.
pub bit_and_low : (a b : ℕ) → bit_and a b ≡ bit_and (a / 2) (b / 2) * 2 + min (a % 2) (b % 2)
bit_and_low zero b = simp bit_and-bitwise (omega arith)
bit_and_low (suc a) b = simp bit_and-bitwise (bitwise_low (λ y. 0) min a b)

pub bit_or_low : (a b : ℕ) → bit_or a b ≡ bit_or (a / 2) (b / 2) * 2 + max (a % 2) (b % 2)
bit_or_low zero b = simp bit_or-bitwise (omega arith)
bit_or_low (suc a) b = simp bit_or-bitwise (bitwise_low (λ y. y) max a b)

zero_and : (a : ℕ) → bit_and a 0 ≡ 0
zero_and a = by_fuel a a (omega arith)
  where
    by_fuel : (f n : ℕ) → n ≤ f → bit_and n 0 ≡ 0
    by_fuel zero zero h = refl
    by_fuel zero (suc n) h = absurd (omega arith)
    by_fuel (suc f) zero h = refl
    by_fuel (suc f) (suc n) h =
        omega (arith, bit_and_low (suc n) 0, by_fuel f (suc n / 2) (omega arith))

or_zero : (a : ℕ) → bit_or a 0 ≡ a
or_zero a = by_fuel a a (omega arith)
  where
    by_fuel : (f n : ℕ) → n ≤ f → bit_or n 0 ≡ n
    by_fuel zero zero h = refl
    by_fuel zero (suc n) h = absurd (omega arith)
    by_fuel (suc f) zero h = refl
    by_fuel (suc f) (suc n) h =
        omega (arith, bit_or_low (suc n) 0, by_fuel f (suc n / 2) (omega arith))

double_pow : (q k : ℕ) → q * 2 ^ suc k ≡ 2 * (q * 2 ^ k)
double_pow q k = omega (arith, ap (λ (t : ℕ). q * t) (pow-suc 2 k))

div_double : (n p : ℕ) → n / (2 * p) ≡ n / 2 / p
div_double n p = sym (div-div-eq-div-mul n 2 p)

mod_double : (n p : ℕ) → n % (2 * p) ≡ n / 2 % p * 2 + n % 2
mod_double n p = omega (
  arith,
  div-add-mod' n (2 * p),
  div-add-mod' (n / 2) p,
  ap (λ (t : ℕ). t * (2 * p)) (div_double n p),
)

-- `n & mask` for the mask of the lowest `w` bits.
pub bit_and_mask : (w n : ℕ) → bit_and n (2 ^ w - 1) ≡ n % 2 ^ w
bit_and_mask zero n = omega (arith, zero_and n)
bit_and_mask (suc w) n = ground (
  arith,
  bit_and_low n (2 ^ suc w - 1),
  bit_and_mask w (n / 2),
  pow-suc 2 w,
  one-le-pow w 2 (omega arith),
  mod_double n (2 ^ w),
)

-- `n & (mask << k)` for the mask of `w` bits.
pub bit_and_field : (k w n : ℕ) → bit_and n ((2 ^ w - 1) * 2 ^ k) ≡ n / 2 ^ k % 2 ^ w * 2 ^ k
bit_and_field zero w n = ground (arith, bit_and_mask w n)
bit_and_field (suc k) w n = ground (
  arith,
  bit_and_low n ((2 ^ w - 1) * 2 ^ suc k),
  double_pow (2 ^ w - 1) k,
  bit_and_field k w (n / 2),
  pow-suc 2 k,
  div_double n (2 ^ k),
  double_pow (n / 2 ^ suc k % 2 ^ w) k,
)

-- `(q << k) | r` is a sum where `r` has `k` bits.
pub bit_or_sum : (k q r : ℕ) → r < 2 ^ k → bit_or (q * 2 ^ k) r ≡ q * 2 ^ k + r
bit_or_sum zero q r h = ground (arith, or_zero q)
bit_or_sum (suc k) q r h = ground (
  arith,
  bit_or_low (q * 2 ^ suc k) r,
  double_pow q k,
  pow-suc 2 k,
  bit_or_sum k q (r / 2) (omega (arith, pow-suc 2 k)),
)

-- `r | (q << k)` likewise.
pub bit_or_sum_low : (k q r : ℕ) → r < 2 ^ k → bit_or r (q * 2 ^ k) ≡ q * 2 ^ k + r
bit_or_sum_low zero q r h = let e : r ≡ 0 = omega arith in rw e (ground (arith, bit_or-bitwise 0 q))
bit_or_sum_low (suc k) q r h = ground (
  arith,
  bit_or_low r (q * 2 ^ suc k),
  double_pow q k,
  pow-suc 2 k,
  bit_or_sum_low k q (r / 2) (omega (arith, pow-suc 2 k)),
)

-- Four bytes, from the lowest up, and from the highest down.
pub bit_or_bytes_up :
    (a b c d : ℕ)
    → a < 2 ^ 8
    → b < 2 ^ 8
    → c < 2 ^ 8
    → bit_or (bit_or (bit_or a (b * 2 ^ 8)) (c * 2 ^ 16)) (d * 2 ^ 24)
      ≡ d * 2 ^ 24 + c * 2 ^ 16 + b * 2 ^ 8 + a
bit_or_bytes_up a b c d ha hb hc = ground (
  arith,
  bit_or_sum_low 8 b a ha,
  bit_or_sum_low 16 c (b * 2 ^ 8 + a) (omega arith),
  bit_or_sum_low 24 d (c * 2 ^ 16 + (b * 2 ^ 8 + a)) (omega arith),
)

pub bit_or_bytes_down :
    (a b c d : ℕ)
    → a < 2 ^ 8
    → b < 2 ^ 8
    → c < 2 ^ 8
    → bit_or (bit_or (bit_or (d * 2 ^ 24) (c * 2 ^ 16)) (b * 2 ^ 8)) a
      ≡ d * 2 ^ 24 + c * 2 ^ 16 + b * 2 ^ 8 + a
bit_or_bytes_down a b c d ha hb hc = ground (
  arith,
  bit_or_sum 24 d (c * 2 ^ 16) (omega arith),
  bit_or_sum 16 (d * 2 ^ 8 + c) (b * 2 ^ 8) (omega arith),
  bit_or_sum 8 (d * 2 ^ 16 + c * 2 ^ 8 + b) a ha,
)

-- A bit that is set.
pub bit_or_set : (k n : ℕ) → bit_and (bit_or n (2 ^ k)) (2 ^ k) ≡ 2 ^ k
bit_or_set zero n = ground (arith, bit_or_low n 1, bit_and_mask 1 (bit_or n 1))
bit_or_set (suc k) n = ground (
  arith,
  bit_or_low n (2 ^ suc k),
  bit_and_low (bit_or n (2 ^ suc k)) (2 ^ suc k),
  bit_or_set k (n / 2),
  pow-suc 2 k,
)
