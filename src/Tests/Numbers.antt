-- ===== src/Tests/Numbers.antt =====
-- The tests of src/common/utils.h, src/common/be_val.h and src/wuhbtool/utils.
use wut_tools.BeVal.Memory.{set_value_16-memory_16, set_value_32-memory_32}
use wut_tools.BeVal.{
  set_value_16, set_value_32, value_16, value_32, add_assign_32, or_assign_32, memory_16, memory_32,
}
use wut_tools.Elf.Bytes.{bytes_16, bytes_32}
use wut_tools.Common.{◌+◌, u32, bit_or, List, [], ◌∷◌, ◌++◌, All, ℕ, ◌≡◌, refl, arith, ◌^◌}
use wut_tools.Utils.Align.{Aligns, align_up-Aligns, align-Aligns, align_up-zero}
use wut_tools.Utils.Trim.{IsSpace, StartsPlain, EndsPlain, trim_lem}
use wut_tools.Utils.Swap.{byte_swap_16-involutive, byte_swap_32-involutive}
use wut_tools.Utils.{
  align, align_up, byte_swap_16, byte_swap_32, local_bswap_16, local_bswap_32, trim,
}

align_up-Aligns_example : Aligns 100 (2 ^ 6) (align_up 32 100 (2 ^ 6))
align_up-Aligns_example = align_up-Aligns 32 6 100 (omega arith) (omega arith) (omega arith)

align_run : Aligns 100 (2 ^ 4) (align 64 100 (2 ^ 4))
align_run = align-Aligns 64 4 100 (omega arith) (omega arith) (omega arith)

align_up_to_zero : align_up 32 0xc0001000 0 ≡ 0
align_up_to_zero = align_up-zero 32 0xc0001000

byte_swap_32_run :
    (byte_swap_32 (byte_swap_32 0x12345678) ≡ 0x12345678)
    × (local_bswap_32 0x12345678 ≡ byte_swap_32 0x12345678)
byte_swap_32_run = byte_swap_32-involutive 0x12345678 (omega arith)

byte_swap_16_run :
    (byte_swap_16 (byte_swap_16 0x1234) ≡ 0x1234) × (local_bswap_16 0x1234 ≡ byte_swap_16 0x1234)
byte_swap_16_run = byte_swap_16-involutive 0x1234 (omega arith)

byte_swap_32_of : byte_swap_32 0x12345678 ≡ 0x78563412
unfolding byte_swap_32
byte_swap_32_of = refl

align_up_of : align_up 32 100 64 ≡ 128
unfolding align_up
align_up_of = refl

-- " a "
trim_lem_example :
    (front : List ℕ) × (back : List ℕ) × All IsSpace front
    × All IsSpace back
    × (32 ∷ 97 ∷ 32 ∷ [] ≡ front ++ (trim (32 ∷ 97 ∷ 32 ∷ []) ++ back))
    × StartsPlain (trim (32 ∷ 97 ∷ 32 ∷ []))
    × EndsPlain (trim (32 ∷ 97 ∷ 32 ∷ []))
trim_lem_example = trim_lem (32 ∷ 97 ∷ 32 ∷ [])

set_value_32-memory_32_example :
    (value_32 (set_value_32 0x12345678) ≡ 0x12345678)
    × (memory_32 (set_value_32 0x12345678) ≡ bytes_32 0x12345678)
    × (memory_32 (add_assign_32 (set_value_32 0x12345678) 9) ≡ bytes_32 (u32 (0x12345678 + 9)))
    × (memory_32 (or_assign_32 (set_value_32 0x12345678) 9) ≡ bytes_32 (u32 (bit_or 0x12345678 9)))
set_value_32-memory_32_example = set_value_32-memory_32 0x12345678 9 (omega arith)

set_value_16_run :
    (value_16 (set_value_16 0xcafe) ≡ 0xcafe) × (memory_16 (set_value_16 0xcafe) ≡ bytes_16 0xcafe)
set_value_16_run = set_value_16-memory_16 0xcafe (omega arith)

memory_of : memory_32 (set_value_32 0x12345678) ≡ 0x12 ∷ 0x34 ∷ 0x56 ∷ 0x78 ∷ []
unfolding memory_32 set_value_32
memory_of = refl
