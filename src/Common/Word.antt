-- ===== src/Common/Word.antt =====
-- Machine words as numbers: the casts to a width, and bytes in the order most significant first.
use Prim.Native.Nat.{ℕ, ◌*◌, ◌/◌, ◌%◌, ◌^◌, ◌<◌, bit_and}
use mathlib.Core.Bool.{Bool}
use mathlib.Core.List.{List}
use wut_tools.Common.Tests.{◌!=◌}
use wut_tools.Common.Lists.{All}

abbrev pub u8 : ℕ → ℕ
u8 n = n % 2 ^ 8

abbrev pub u16 : ℕ → ℕ
u16 n = n % 2 ^ 16

abbrev pub u32 : ℕ → ℕ
u32 n = n % 2 ^ 32

abbrev pub u64 : ℕ → ℕ
u64 n = n % 2 ^ 64

infixl 75 ◌<<<◌ ◌>>>◌
abbrev pub ◌<<<◌ : ℕ → ℕ → ℕ
x <<< k = x * 2 ^ k

abbrev pub ◌>>>◌ : ℕ → ℕ → ℕ
x >>> k = x / 2 ^ k

-- `flags & mask` as a condition
abbrev pub has : ℕ → ℕ → Bool
has flags mask = bit_and flags mask != 0

abbrev pub IsBytes : List ℕ → Type 0
IsBytes = All (λ b. b < 256)
