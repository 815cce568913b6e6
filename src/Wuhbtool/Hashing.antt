-- ===== src/Wuhbtool/Hashing.antt =====
-- `NormalizeChar`, `CalcPathHash` and `GetHashTableCount`.
pub mod Case
pub mod Count
use wut_tools.Common.{
  ℕ, zero, suc, ◌+◌, ◌-◌, ◌%◌, ◌>>>◌, ◌<<<◌, u8, u32, bit_or, bit_xor, Bool, ◌&&◌, ◌||◌, ◌==◌, leb,
  ltb, if◌then◌else◌, List, [], ◌∷◌, Option, none, some,
}

unfoldable pub normalize_char : ℕ → ℕ
normalize_char c = if leb 97 c && leb c 122 then u8 (c + 65 - 97) else c

-- One round of the loop.
unfoldable pub hash_char : ℕ → ℕ → ℕ
unfolding normalize_char
hash_char hash c = bit_xor (bit_or (hash >>> 5) (u32 (hash <<< 27))) (normalize_char c)

-- The loop over the characters of `path` from `start` on.
unfoldable pub hash_chars : ℕ → List ℕ → ℕ
unfolding hash_char
hash_chars hash [] = hash
hash_chars hash (c ∷ path) = hash_chars (hash_char hash c) path

unfoldable pub calc_path_hash : ℕ → List ℕ → ℕ
unfolding hash_chars
calc_path_hash parent path = hash_chars (bit_xor parent 123456789) path

-- The condition of the `while`.
unfoldable pub has_small_factor : ℕ → Bool
has_small_factor n =
    n % 2 == 0
    || n % 3 == 0
    || n % 5 == 0
    || n % 7 == 0
    || n % 11 == 0
    || n % 13 == 0
    || n % 17 == 0

-- The `while` on fuel; `none` where it runs out.
unfoldable pub next_count : ℕ → ℕ → Option ℕ
unfolding has_small_factor
next_count zero count = none
next_count (suc fuel) count =
    let rest = next_count fuel (u32 (count + 1)) in
    if has_small_factor count then rest else some count

unfoldable pub get_hash_table_count : ℕ → ℕ → Option ℕ
unfolding next_count
get_hash_table_count fuel num_entries =
    if ltb num_entries 3
    then some 3
    else if ltb num_entries 19
    then some (bit_or num_entries 1)
    else next_count fuel num_entries
