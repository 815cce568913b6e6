-- ===== src/Utils.antt =====
-- src/common/utils.h and src/wuhbtool/utils/utils.h, types.h: alignment, the byte swaps and the
-- trimming of white space. `size_t` has 64 bits; `bits` is the width of the template's type.
pub mod Align
pub mod Swap
pub mod Trim
use wut_tools.Common.{
  ℕ, ◌+◌, ◌-◌, ◌%◌, ◌^◌, ◌>>>◌, ◌<<<◌, u16, u32, u64, bit_and, bit_or, Bool, ◌||◌, ◌&&◌, ◌==◌, leb,
  List, [], ◌∷◌, if◌then◌else◌,
}

-- `a - b` and `~a` in an unsigned type of `bits` bits
abbrev pub wrap_sub : ℕ → ℕ → ℕ → ℕ
wrap_sub bits a b = (a + 2 ^ bits - b) % 2 ^ bits

abbrev pub complement : ℕ → ℕ → ℕ
complement bits a = 2 ^ bits - 1 - a

unfoldable pub align_up : ℕ → ℕ → ℕ → ℕ
align_up bits value alignment =
    bit_and (u64 (value + wrap_sub 64 alignment 1)) (complement 64 (wrap_sub 64 alignment 1))
    % 2 ^ bits

unfoldable pub align_down : ℕ → ℕ → ℕ → ℕ
align_down bits value alignment = bit_and value (complement 64 (wrap_sub 64 alignment 1)) % 2 ^ bits

unfoldable pub align_check : ℕ → ℕ → Bool
align_check value alignment = bit_and value (wrap_sub 64 alignment 1) == 0

-- `align` of wuhbtool computes in its own type.
unfoldable pub align : ℕ → ℕ → ℕ → ℕ
align bits offset alignment =
    bit_and ((offset + wrap_sub bits alignment 1) % 2 ^ bits)
      (complement bits (wrap_sub bits alignment 1))

-- The portable branches of `byte_swap_t`, for 2, 4 and 8 bytes.
unfoldable pub byte_swap_16 : ℕ → ℕ
byte_swap_16 x = u16 (bit_or (x >>> 8) (x <<< 8))

unfoldable pub byte_swap_32 : ℕ → ℕ
byte_swap_32 x =
    bit_or
      (bit_or (bit_or (bit_and x 0xff000000 >>> 24) (bit_and x 0x00ff0000 >>> 8))
        (u32 (bit_and x 0x0000ff00 <<< 8)))
      (u32 (bit_and x 0x000000ff <<< 24))

unfoldable pub byte_swap_64 : ℕ → ℕ
byte_swap_64 x =
    let y =
      bit_or (u64 (bit_and x 0x00000000ffffffff <<< 32)) (bit_and x 0xffffffff00000000 >>> 32) in
    let z =
      bit_or (u64 (bit_and y 0x0000ffff0000ffff <<< 16)) (bit_and y 0xffff0000ffff0000 >>> 16) in
    bit_or (u64 (bit_and z 0x00ff00ff00ff00ff <<< 8)) (bit_and z 0xff00ff00ff00ff00 >>> 8)

-- `__local_bswap16`, `__local_bswap32` and `__local_bswap64`
unfoldable pub local_bswap_16 : ℕ → ℕ
local_bswap_16 x = bit_or (bit_and (x <<< 8) 0xff00) (bit_and (x >>> 8) 0x00ff)

unfoldable pub local_bswap_32 : ℕ → ℕ
local_bswap_32 x =
    bit_or
      (bit_or (bit_or (bit_and (u32 (x <<< 24)) 0xff000000) (bit_and (u32 (x <<< 8)) 0x00ff0000))
        (bit_and (x >>> 8) 0x0000ff00))
      (bit_and (x >>> 24) 0x000000ff)

unfoldable pub local_bswap_64 : ℕ → ℕ
unfolding local_bswap_32
local_bswap_64 x = bit_or (local_bswap_32 (x >>> 32)) (local_bswap_32 (bit_and x 0xffffffff) <<< 32)

-- `std::isspace` in the "C" locale
unfoldable pub is_space : ℕ → Bool
is_space c = c == 32 || leb 9 c && leb c 13

unfoldable pub ltrim : List ℕ → List ℕ
unfolding is_space
ltrim [] = []
ltrim (c ∷ s) = if is_space c then ltrim s else c ∷ s

-- A character before what is left of the text behind it: the reverse search ends at the last
-- character that is no space.
unfoldable pub keep_space : ℕ → List ℕ → List ℕ
unfolding is_space
keep_space c [] = if is_space c then [] else c ∷ []
keep_space c (d ∷ t) = c ∷ d ∷ t

unfoldable pub rtrim : List ℕ → List ℕ
unfolding keep_space
rtrim [] = []
rtrim (c ∷ s) = keep_space c (rtrim s)

unfoldable pub trim : List ℕ → List ℕ
unfolding ltrim rtrim
trim s = rtrim (ltrim s)
