-- ===== src/Wuhbtool/Hashing/Case.antt =====
-- `CalcPathHash` and the case of letters.
use wut_tools.Common.{
  ℕ, ◌+◌, ◌≤◌, ◌≡◌, refl, ap, ◌∙◌, arith, ◌⊎◌, inl, inr, bit_xor, bit_or, u32, ◌<<<◌, ◌>>>◌, List,
  [], ◌∷◌,
}
use wut_tools.Wuhbtool.Hashing.{normalize_char, hash_char, hash_chars, calc_path_hash}

-- 'A' to 'Z'
abbrev pub IsUpper : ℕ → Type 0
IsUpper c = (65 ≤ c) × (c ≤ 90)

-- The same character, or an upper and a lower case letter of ASCII.
abbrev pub SameLetter : ℕ → ℕ → Type 0
SameLetter c d = (c ≡ d) ⊎ ((IsUpper c × (d ≡ c + 32)) ⊎ (IsUpper d × (c ≡ d + 32)))

abbrev pub SameButCase : (path other : List ℕ) → Type 0
SameButCase [] [] = Unit {0}
SameButCase (c ∷ path) (d ∷ other) = SameLetter c d × SameButCase path other
SameButCase _ _ = ⊥

normalize_char-SameLetter : (c d : ℕ) → SameLetter c d → normalize_char c ≡ normalize_char d
unfolding normalize_char
normalize_char-SameLetter c d (inl e) = ap normalize_char e
normalize_char-SameLetter c d (inr (inl (upper, e))) = ground (arith, upper.0, upper.1, e)
normalize_char-SameLetter c d (inr (inr (upper, e))) = ground (arith, upper.0, upper.1, e)

hash_chars-SameButCase :
    (hash : ℕ) (path other : List ℕ)
    → SameButCase path other
    → hash_chars hash path ≡ hash_chars hash other
unfolding hash_chars hash_char
hash_chars-SameButCase hash [] [] same = refl
hash_chars-SameButCase hash [] (d ∷ other) same = absurd same
hash_chars-SameButCase hash (c ∷ path) [] same = absurd same
hash_chars-SameButCase hash (c ∷ path) (d ∷ other) same =
    ap (λ e. hash_chars (bit_xor (bit_or (hash >>> 5) (u32 (hash <<< 27))) e) path)
      (normalize_char-SameLetter c d same.0)
    ∙ hash_chars-SameButCase (hash_char hash d) path other same.1

-- Paths that are the same but for the case of the letters of ASCII, each letter of one being the
-- same or that of the other case in the other, have the same hash below the same parent.
pub calc_path_hash-case :
    (parent : ℕ) (path other : List ℕ)
    → SameButCase path other
    → calc_path_hash parent path ≡ calc_path_hash parent other
unfolding calc_path_hash
calc_path_hash-case parent path other same = hash_chars-SameButCase _ path other same
