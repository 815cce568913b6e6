-- ===== src/BeVal.antt =====
-- src/common/be_val.h at 16 and 32 bits, by its storage, on a host that stores the least
-- significant byte first.
pub mod Memory
use wut_tools.Common.{ℕ, ◌+◌, ◌/◌, ◌%◌, ◌^◌, u32, bit_or, List, [], ◌∷◌}
use wut_tools.Utils.{byte_swap_16, byte_swap_32}

-- `setValue`, by which `mStorage` is assigned
unfoldable pub set_value_16 : ℕ → ℕ
unfolding byte_swap_16
set_value_16 value = byte_swap_16 value

unfoldable pub set_value_32 : ℕ → ℕ
unfolding byte_swap_32
set_value_32 value = byte_swap_32 value

-- `value`
unfoldable pub value_16 : ℕ → ℕ
unfolding byte_swap_16
value_16 storage = byte_swap_16 storage

unfoldable pub value_32 : ℕ → ℕ
unfolding byte_swap_32
value_32 storage = byte_swap_32 storage

-- `operator +=` and `operator |=`
unfoldable pub add_assign_32 : ℕ → ℕ → ℕ
unfolding set_value_32 value_32
add_assign_32 storage other = set_value_32 (u32 (value_32 storage + other))

unfoldable pub or_assign_32 : ℕ → ℕ → ℕ
unfolding set_value_32 value_32
or_assign_32 storage other = set_value_32 (u32 (bit_or (value_32 storage) other))

-- The bytes of the storage in the host's memory.
unfoldable pub memory_16 : ℕ → List ℕ
memory_16 storage = storage % 2 ^ 8 ∷ storage / 2 ^ 8 ∷ []

unfoldable pub memory_32 : ℕ → List ℕ
memory_32 storage =
    storage % 2 ^ 8 ∷ storage / 2 ^ 8 % 2 ^ 8 ∷ storage / 2 ^ 16 % 2 ^ 8 ∷ storage / 2 ^ 24 ∷ []
