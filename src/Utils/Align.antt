-- ===== src/Utils/Align.antt =====
-- Alignment to a power of two, as arithmetic.
use Prim.Native.Nat.add
use native.Mathlib.Nat.{
  pow-suc, one-le-pow, mul-mod_left, div-add-mod', mod-lt, mod-eq_of_lt, add-mod_right,
  div-lt_iff_lt-mul, zero-mod,
}
use wut_tools.Common.{
  ℕ, zero, suc, ◌+◌, ◌-◌, ◌*◌, ◌/◌, ◌%◌, ◌^◌, ◌≤◌, ◌<◌, ◌≡◌, true, bit_and, ap, u64, arith,
}
use wut_tools.Common.Bits.{bit_and_mask, bit_and_field}
use wut_tools.Utils.{align_up, align_check, align, complement, wrap_sub}

pos_pow : (k : ℕ) → 1 ≤ 2 ^ k
pos_pow k = one-le-pow k 2 (omega arith)

two_pow_add : (a b : ℕ) → 2 ^ (a + b) ≡ 2 ^ a * 2 ^ b
two_pow_add zero b = ground arith
two_pow_add (suc a) b =
    rw (add.suc a b)
      (omega (arith, pow-suc 2 (a + b), two_pow_add a b, ap (λ (t : ℕ). t * 2 ^ b) (pow-suc 2 a)))

minus_one_mul : (a b : ℕ) → (a - 1) * b ≡ a * b - b
minus_one_mul zero b = omega arith
minus_one_mul (suc a) b = let e : suc a - 1 ≡ a = omega arith in rw e (omega arith)

pub pow_mono : (a b : ℕ) → 2 ^ a ≤ 2 ^ (a + b)
pow_mono a b = grind (arith, two_pow_add a b, pos_pow a, pos_pow b)

-- The mask that clears the lowest `k` of `k + w` bits.
complement_mask : (k w : ℕ) → complement (k + w) (2 ^ k - 1) ≡ (2 ^ w - 1) * 2 ^ k
complement_mask k w =
    omega (arith, two_pow_add k w, pos_pow k, pos_pow w, minus_one_mul (2 ^ w) (2 ^ k))

minus_one : (bits k : ℕ) → k ≤ bits → wrap_sub bits (2 ^ k) 1 ≡ 2 ^ k - 1
minus_one bits k h =
    let le : 2 ^ k ≤ 2 ^ bits = ground (arith, pow_mono k (bits - k)) in
    let e : 2 ^ k + 2 ^ bits - 1 ≡ (2 ^ k - 1) + 2 ^ bits = omega (arith, pos_pow k) in
    rw (e, add-mod_right (2 ^ k - 1) (2 ^ bits))
      (mod-eq_of_lt {n = 2 ^ k - 1} (omega (arith, pos_pow k)))

-- Clearing the lowest `k` bits of a word rounds it down.
round_down :
    (bits k n : ℕ)
    → k ≤ bits
    → n < 2 ^ bits
    → bit_and n (complement bits (2 ^ k - 1)) ≡ n / 2 ^ k * 2 ^ k
round_down bits k n h lt =
    let w = bits - k in
    let e : bits ≡ k + w = omega arith in
    let small : n / 2 ^ k < 2 ^ w =
      (div-lt_iff_lt-mul (pos_pow k)).1 (omega (arith, two_pow_add k w, ap (λ (t : ℕ). 2 ^ t) e)) in
    rw (e, complement_mask k w, bit_and_field k w n, mod-eq_of_lt small)

-- The numbers that round down to a multiple of `2 ^ k`.
rounded_bounds : (k n : ℕ) → (n / 2 ^ k * 2 ^ k ≤ n) × (n < n / 2 ^ k * 2 ^ k + 2 ^ k)
rounded_bounds k n = omega (arith, div-add-mod' n (2 ^ k), mod-lt n (pos_pow k))

align_check-mul : (k q : ℕ) → k ≤ 64 → align_check (q * 2 ^ k) (2 ^ k) ≡ true
unfolding align_check
align_check-mul k q h = rw (minus_one 64 k h, bit_and_mask k (q * 2 ^ k), mul-mod_left q (2 ^ k))

abbrev pub Aligns : (value alignment result : ℕ) → Type 0
Aligns value alignment result =
    (value ≤ result) × (result < value + alignment) × (align_check result alignment ≡ true)

-- `align_up` by a power of two gives an aligned value that is not below and less than one
-- alignment above, where the sum of both fits the type.
pub align_up-Aligns :
    (bits k value : ℕ)
    → k ≤ bits
    → bits ≤ 64
    → value + 2 ^ k ≤ 2 ^ bits
    → Aligns value (2 ^ k) (align_up bits value (2 ^ k))
unfolding align_up
align_up-Aligns bits k value h wide fits =
    let n = value + (2 ^ k - 1) in
    let le64 : 2 ^ bits ≤ 2 ^ 64 = ground (arith, pow_mono bits (64 - bits)) in
    let r = n / 2 ^ k * 2 ^ k in
    let lt : n < 2 ^ bits = omega (arith, pos_pow k) in
    let small : n < 2 ^ 64 = omega arith in
    let b = rounded_bounds k n in
    let r_small : r < 2 ^ bits = omega arith in
    rw
      (
        minus_one 64 k (omega arith),
        mod-eq_of_lt small,
        round_down 64 k n (omega arith) small,
        mod-eq_of_lt r_small,
      )
      (
        omega (arith, pos_pow k),
        omega (arith, pos_pow k),
        align_check-mul k (n / 2 ^ k) (omega arith),
      )

-- `align` of wuhbtool as arithmetic.
pub align_rounded :
    (bits k offset : ℕ)
    → k ≤ bits
    → offset + 2 ^ k ≤ 2 ^ bits
    → align bits offset (2 ^ k) ≡ (offset + (2 ^ k - 1)) / 2 ^ k * 2 ^ k
unfolding align
align_rounded bits k offset h fits =
    let n = offset + (2 ^ k - 1) in
    let lt : n < 2 ^ bits = omega (arith, pos_pow k) in
    rw (minus_one bits k h, mod-eq_of_lt lt) (round_down bits k n h lt)

-- `align` of wuhbtool, which computes in its own type, also gives an aligned value that is not
-- below and less than one alignment above, where the alignment is a power of two and the sum of
-- both fits the type.
pub align-Aligns :
    (bits k offset : ℕ)
    → k ≤ bits
    → bits ≤ 64
    → offset + 2 ^ k ≤ 2 ^ bits
    → Aligns offset (2 ^ k) (align bits offset (2 ^ k))
align-Aligns bits k offset h wide fits =
    let b = rounded_bounds k (offset + (2 ^ k - 1)) in
    rw (align_rounded bits k offset h fits) (
      omega (arith, pos_pow k),
      omega (arith, pos_pow k),
      align_check-mul k ((offset + (2 ^ k - 1)) / 2 ^ k) (omega arith),
    )

-- `align_up` by an alignment of zero gives zero, whatever the value.
pub align_up-zero : (bits value : ℕ) → align_up bits value 0 ≡ 0
unfolding align_up
align_up-zero bits value =
    let n = u64 (value + wrap_sub 64 0 1) in
    let e : bit_and n 0 ≡ n / 1 % 1 * 1 = bit_and_field 0 0 n in
    ground (arith, e, zero-mod (2 ^ bits))
