-- ===== src/BeVal/Memory.antt =====
-- A be_val and its bytes in memory.
use wut_tools.BeVal.{
  set_value_16, set_value_32, value_16, value_32, add_assign_32, or_assign_32, memory_16, memory_32,
}
use wut_tools.Common.{ℕ, ◌+◌, ◌^◌, ◌<◌, ◌≡◌, ap, ◌∙◌, arith, u32, bit_or}
use wut_tools.Elf.Bytes.{bytes_16, bytes_32}
use wut_tools.Utils.Swap.{
  byte_swap_16_sum, byte_swap_32_sum, byte_swap_16-involutive, byte_swap_32-involutive,
}
use wut_tools.Utils.{byte_swap_32}

-- A be_val of 32 bits that is set to a value gives the value back, its bytes in memory are those
-- of the value, most significant first, and `+=` and `|=` act on the value modulo 2 ^ 32.
pub set_value_32-memory_32 :
    (value other : ℕ)
    → value < 2 ^ 32
    → (value_32 (set_value_32 value) ≡ value)
      × (memory_32 (set_value_32 value) ≡ bytes_32 value)
      × (memory_32 (add_assign_32 (set_value_32 value) other) ≡ bytes_32 (u32 (value + other)))
      × (memory_32 (or_assign_32 (set_value_32 value) other) ≡ bytes_32 (u32 (bit_or value other)))
unfolding set_value_32 value_32 add_assign_32 or_assign_32
set_value_32-memory_32 value other small =
    let back : byte_swap_32 (byte_swap_32 value) ≡ value =
      (byte_swap_32-involutive value small).0 in
    (
      back,
      bytes value small,
      ap (λ v. memory_32 (byte_swap_32 (u32 (v + other)))) back
          ∙ bytes (u32 (value + other)) (omega arith),
      ap (λ v. memory_32 (byte_swap_32 (u32 (bit_or v other)))) back
          ∙ bytes (u32 (bit_or value other)) (omega arith),
    )
  where
    bytes : (v : ℕ) → v < 2 ^ 32 → memory_32 (byte_swap_32 v) ≡ bytes_32 v
    bytes v lt = unfold memory_32 in rw (byte_swap_32_sum v lt) (ground arith)

-- A be_val of 16 bits that is set to a value gives the value back, and its bytes in memory are
-- those of the value, most significant first.
pub set_value_16-memory_16 :
    (value : ℕ)
    → value < 2 ^ 16
    → (value_16 (set_value_16 value) ≡ value) × (memory_16 (set_value_16 value) ≡ bytes_16 value)
unfolding set_value_16 value_16 memory_16
set_value_16-memory_16 value small =
    ((byte_swap_16-involutive value small).0, rw (byte_swap_16_sum value small) (ground arith))
