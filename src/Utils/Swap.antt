-- ===== src/Utils/Swap.antt =====
-- The byte swaps, as arithmetic.
use wut_tools.Common.{ℕ, ◌+◌, ◌*◌, ◌/◌, ◌%◌, ◌^◌, ◌<◌, ◌≡◌, arith}
use wut_tools.Common.Bits.{
  bit_and_field, bit_or_sum_low, bit_or_sum, bit_or_bytes_up, bit_or_bytes_down,
}
use wut_tools.Utils.{byte_swap_16, byte_swap_32, local_bswap_16, local_bswap_32}

-- The bytes of a word in reverse order.
abbrev pub reversed_32 : ℕ → ℕ
reversed_32 x =
    x % 2 ^ 8 * 2 ^ 24 + x / 2 ^ 8 % 2 ^ 8 * 2 ^ 16 + x / 2 ^ 16 % 2 ^ 8 * 2 ^ 8 + x / 2 ^ 24

pub byte_swap_32_sum : (x : ℕ) → x < 2 ^ 32 → byte_swap_32 x ≡ reversed_32 x
unfolding byte_swap_32
byte_swap_32_sum x h =
    rw (bit_and_field 24 8 x, bit_and_field 16 8 x, bit_and_field 8 8 x, bit_and_field 0 8 x)
      (ground
        (arith, bit_or_bytes_up (x / 2 ^ 24) (x / 2 ^ 16 % 2 ^ 8) (x / 2 ^ 8 % 2 ^ 8) (x % 2 ^ 8)))

local_bswap_32_sum : (x : ℕ) → x < 2 ^ 32 → local_bswap_32 x ≡ reversed_32 x
unfolding local_bswap_32
local_bswap_32_sum x h =
    rw
      (
        bit_and_field 24 8 (x * 2 ^ 24 % 2 ^ 32),
        bit_and_field 16 8 (x * 2 ^ 8 % 2 ^ 32),
        bit_and_field 8 8 (x / 2 ^ 8),
        bit_and_field 0 8 (x / 2 ^ 24),
      )
      (ground (
        arith,
        bit_or_bytes_down (x / 2 ^ 24) (x / 2 ^ 16 % 2 ^ 8) (x / 2 ^ 8 % 2 ^ 8) (x % 2 ^ 8),
      ))

-- Swapping the bytes of a 32-bit word twice gives it back, and the swap of `common/utils.h` is
-- that of wuhbtool's `types.h`.
pub byte_swap_32-involutive :
    (x : ℕ) → x < 2 ^ 32 → (byte_swap_32 (byte_swap_32 x) ≡ x) × (local_bswap_32 x ≡ byte_swap_32 x)
byte_swap_32-involutive x h =
    ground (arith, byte_swap_32_sum x, byte_swap_32_sum (reversed_32 x), local_bswap_32_sum x)

pub byte_swap_16_sum : (x : ℕ) → x < 2 ^ 16 → byte_swap_16 x ≡ x % 2 ^ 8 * 2 ^ 8 + x / 2 ^ 8
byte_swap_16_sum x lt = unfold byte_swap_16 in ground (arith, bit_or_sum_low 8 x (x / 2 ^ 8))

-- Swapping the bytes of a 16-bit word twice gives it back, and the two swaps of 16 bits agree.
pub byte_swap_16-involutive :
    (x : ℕ) → x < 2 ^ 16 → (byte_swap_16 (byte_swap_16 x) ≡ x) × (local_bswap_16 x ≡ byte_swap_16 x)
byte_swap_16-involutive x h =
    ground
      (arith, byte_swap_16_sum x, byte_swap_16_sum (x % 2 ^ 8 * 2 ^ 8 + x / 2 ^ 8), local_sum x)
  where
    local_sum : (y : ℕ) → y < 2 ^ 16 → local_bswap_16 y ≡ y % 2 ^ 8 * 2 ^ 8 + y / 2 ^ 8
    local_sum y lt =
        unfold local_bswap_16 in
        rw (bit_and_field 8 8 (y * 2 ^ 8), bit_and_field 0 8 (y / 2 ^ 8))
          (ground (arith, bit_or_sum 8 (y % 2 ^ 8) (y / 2 ^ 8)))
