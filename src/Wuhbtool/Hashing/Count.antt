-- ===== src/Wuhbtool/Hashing/Count.antt =====
-- How far the `while` of `GetHashTableCount` runs.
use wut_tools.Common.{
  ℕ, zero, suc, ◌+◌, ◌*◌, ◌/◌, ◌%◌, ◌^◌, ◌≤◌, ◌<◌, ◌≡◌, refl, sym, ap, subst, ◌∙◌, ◌⊎◌, arith, u32,
  bit_or, true, false, Bool-cases, inl, inr, ltb, some,
}
use wut_tools.Common.Bits.{bit_or_low, bit_or_sum}
use wut_tools.Wuhbtool.Hashing.{has_small_factor, next_count, get_hash_table_count}

-- The product of the primes up to 17; the number behind each multiple of it has no small factor.
abbrev pub product : ℕ
product = 510510

has_small_factor-behind : (q : ℕ) → has_small_factor (q * product + 1) ≡ false
unfolding has_small_factor
has_small_factor-behind q = ground arith

-- What the loop finds: the first number from `count` on that has no small factor.
pub record IsNext (count result : ℕ) : Type 0 where
  pub above : count ≤ result
  pub free : has_small_factor result ≡ false
  pub first : (n : ℕ) → count ≤ n → n < result → has_small_factor n ≡ true

or_one : (n : ℕ) → bit_or n 1 ≡ n / 2 * 2 + 1
or_one n = ground (arith, bit_or_low n 1, bit_or_sum 0 (n / 2) 0 (omega arith))

later : (count n : ℕ) → count ≤ n → (count ≡ n) ⊎ (count < n)
later count n h = ground arith

next_count-step :
    (fuel count : ℕ)
    → has_small_factor count ≡ true
    → count + 1 < 2 ^ 32
    → next_count (suc fuel) count ≡ next_count fuel (count + 1)
unfolding next_count
next_count-step fuel count more small =
    let e : u32 (count + 1) ≡ count + 1 = omega arith in rw (more, e) refl

next_count-IsNext :
    (fuel count goal : ℕ)
    → goal < 2 ^ 32
    → has_small_factor goal ≡ false
    → count ≤ goal
    → goal < count + fuel
    → (result : ℕ) × (next_count fuel count ≡ some result) × (result ≤ goal) × IsNext count result
unfolding next_count
next_count-IsNext zero count goal small free below enough = absurd (omega arith)
next_count-IsNext (suc fuel) count goal small free below enough =
    elim (Bool-cases (has_small_factor count)) [
      | inr here ↦ (
        count,
        rw here,
        below,
        record { above = omega arith; free = here; first = λ n low high. absurd (omega arith) },
      )
      | inl more ↦ elim (later count goal below) [
        | inl same ↦
            absurd (let e : true ≡ false = sym more ∙ ap has_small_factor same ∙ free in cc)
        | inr less ↦
            let (result, found, low, next) =
              next_count-IsNext fuel (count + 1) goal small free (omega arith) (omega arith) in
            (
              result,
              next_count-step fuel count more (omega arith) ∙ found,
              low,
              record {
                above = omega (arith, next.above);
                free = next.free;
                first = λ n low' high. elim (later count n low') [
                  | inl here ↦ subst (λ m. has_small_factor m ≡ true) here more
                  | inr behind ↦ next.first n (omega arith) high
                ];
              },
            )
      ]
    ]

-- The numbers of buckets that the console expects: odd or without a small factor.
abbrev pub IsBucketCount : ℕ → ℕ → Type 0
IsBucketCount num_entries count =
    (num_entries ≤ count)
    × (3 ≤ count)
    × (count ≤ num_entries + product + 3)
    × (num_entries < 19 → count % 2 ≡ 1)
    × (19 ≤ num_entries → IsNext num_entries count)

large : (n count : ℕ) → ltb n 19 ≡ false → n ≤ count → 3 ≤ count
large n count many above = ground arith

-- For every number of entries up to 2 ^ 32 - 510514, `GetHashTableCount` ends within 510512 rounds
-- of its loop. The count is not below the number of entries nor below 3; for fewer than 19 entries
-- it is odd, and for more it is the first number from there on without a prime factor up to 17.
pub get_hash_table_count_ends :
    (fuel num_entries : ℕ)
    → product + 1 < fuel
    → num_entries + product + 3 < 2 ^ 32
    → (count : ℕ) × (get_hash_table_count fuel num_entries ≡ some count)
      × IsBucketCount num_entries count
unfolding get_hash_table_count
get_hash_table_count_ends fuel num_entries enough small = elim (Bool-cases (ltb num_entries 3)) [
  | inl few ↦ (
    3,
    rw few refl,
    (ground arith, omega arith, omega arith, λ h. omega arith, λ h. absurd (ground arith)),
  )
  | inr more ↦ elim (Bool-cases (ltb num_entries 19)) [
    | inl below ↦
        let e = or_one num_entries in
        (
          bit_or num_entries 1,
          rw (more, below) refl,
          rw e (
            omega arith,
            ground arith,
            omega arith,
            λ h. omega arith,
            λ h. absurd (ground arith),
          ),
        )
    | inr many ↦
        let goal = (num_entries / product + 1) * product + 1 in
        let (count, found, low, next) =
          next_count-IsNext fuel num_entries goal (omega arith)
            (has_small_factor-behind (num_entries / product + 1)) (omega arith) (omega arith) in
        (
          count,
          rw (more, many) found,
          (
            next.above,
            large num_entries count many next.above,
            omega arith,
            λ h. absurd (ground arith),
            λ h. next,
          ),
        )
  ]
]
