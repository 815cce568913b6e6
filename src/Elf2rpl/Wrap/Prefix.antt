-- ===== src/Elf2rpl/Wrap/Prefix.antt =====
-- Names with the prefix, and the loops over the symbols that have it.
use wut_tools.Common.{
  ℕ, ◌+◌, ◌%◌, ◌^◌, ◌≤◌, ◌≡◌, refl, ap, arith, u32, Bool, true, false, ◌||◌, ◌==◌, if◌then◌else◌,
  inl, inr, Bool-cases, List, [], ◌∷◌, ◌++◌, length, take, drop, get_elem?, Option, none, some, ok,
  append_assoc,
}
use wut_tools.Common.Bits.{bit_and_mask}
use wut_tools.Common.Text.{codes}
use wut_tools.Elf.{Symbol}
use wut_tools.Elf2rpl.Reading.{same_text}
use wut_tools.Elf2rpl.Wrap.{rplwrap_prefix, is_renamed, set_name, skip_prefixes}

-- What is behind a prefix, if a text starts with it.
abbrev pub behind : (prefix s : List ℕ) → Option (List ℕ)
behind [] s = some s
behind (c ∷ prefix) [] = none
behind (c ∷ prefix) (d ∷ s) = if c == d then behind prefix s else none

-- A symbol and its name.
pub record Named : Type 0 where
  pub symbol : Symbol
  pub name : List ℕ

abbrev pub symbols_of : List Named → List Symbol
symbols_of [] = []
symbols_of (x ∷ xs) = x.symbol ∷ symbols_of xs

-- STT_OBJECT or STT_FUNC
abbrev pub is_object_or_function : Symbol → Bool
is_object_or_function s = s.info % 16 == 1 || s.info % 16 == 2

-- The name of a function or an object behind the prefix, where it has the prefix.
abbrev pub base_of : Named → Option (List ℕ)
base_of x = if is_object_or_function x.symbol then behind (codes "__rplwrap_") x.name else none

pub is_renamed_lem : (s : Symbol) → is_renamed s ≡ is_object_or_function s
is_renamed_lem s = ap (λ t. t == 1 || t == 2) (bit_and_mask 4 s.info)

abbrev pub is_some : Option (List ℕ) → Bool
is_some none = false
is_some (some s) = true

abbrev pub without_prefix : Option (List ℕ) → Symbol → Symbol
without_prefix none s = s
without_prefix (some base) s = record s { name = (s.name + 10) % 2 ^ 32 }

abbrev pub all_renamed : List Named → List Symbol
all_renamed [] = []
all_renamed (x ∷ xs) = without_prefix (base_of x) x.symbol ∷ all_renamed xs

pub same_prefix :
    (prefix s : List ℕ) → same_text (take (length prefix) s) prefix ≡ is_some (behind prefix s)
unfolding same_text
same_prefix [] s = refl
same_prefix (c ∷ prefix) [] = refl
same_prefix (c ∷ prefix) (d ∷ s) = elim (Bool-cases (c == d)) [
  | inl same ↦ let e : (d == c) ≡ true = ground (arith, same) in rw (same, e) (same_prefix prefix s)
  | inr other ↦ let e : (d == c) ≡ false = ground (arith, other) in rw (other, e) refl
]

-- The indices of the symbols with the prefix, from `i` on.
abbrev pub wraps_from : ℕ → List Named → List ℕ
wraps_from i [] = []
wraps_from i (x ∷ xs) =
    if is_some (base_of x) then i ∷ wraps_from (i + 1) xs else wraps_from (i + 1) xs

pub behind-length :
    (prefix s base : List ℕ) → behind prefix s ≡ some base → length prefix ≤ length s
behind-length [] s base e = omega arith
behind-length (c ∷ prefix) [] base e = absurd (cc)
behind-length (c ∷ prefix) (d ∷ s) base e = elim (Bool-cases (c == d)) [
  | inl same ↦ let h = behind-length prefix s base (rw same at e) in omega (arith, h)
  | inr other ↦ absurd (let f : none ≡ some base = rw other at e in cc)
]

pub drop-behind :
    (prefix s base : List ℕ) → behind prefix s ≡ some base → drop (length prefix) s ≡ base
drop-behind [] s base e = cc
drop-behind (c ∷ prefix) [] base e = absurd (cc)
drop-behind (c ∷ prefix) (d ∷ s) base e = elim (Bool-cases (c == d)) [
  | inl same ↦ drop-behind prefix s base (rw same at e)
  | inr other ↦ absurd (let f : none ≡ some base = rw other at e in cc)
]

pub base_of-behind :
    (x : Named) (base : List ℕ) → base_of x ≡ some base → behind rplwrap_prefix x.name ≡ some base
base_of-behind x base e = elim (Bool-cases (is_object_or_function x.symbol)) [
  | inl renamed ↦ rw renamed at e
  | inr other ↦ absurd (let f : none ≡ some base = rw other at e in cc)
]

pub get_elem?-middle :
    (front : List Symbol) (s : Symbol) (rest : List Symbol)
    → get_elem? (front ++ s ∷ rest) (length front) ≡ some s
get_elem?-middle [] s rest = refl
get_elem?-middle (x ∷ front) s rest = get_elem?-middle front s rest

pub set_name-middle :
    (front : List Symbol) (s : Symbol) (rest : List Symbol) (name : ℕ)
    → set_name (front ++ s ∷ rest) (length front) name ≡ front ++ record s { name = name } ∷ rest
unfolding set_name
set_name-middle [] s rest name = refl
set_name-middle (x ∷ front) s rest name = ap (λ ys. x ∷ ys) (set_name-middle front s rest name)

pub length-snoc : (front : List Symbol) (s : Symbol) → length (front ++ s ∷ []) ≡ length front + 1
length-snoc [] s = refl
length-snoc (x ∷ front) s = let e = length-snoc front s in omega (arith, e)

-- The last pass behind symbols that are done, if it is right behind one more.
pub skip_prefixes-wrap :
    (front : List Symbol) (x : Named) (xs : List Named)
    → ((s : Symbol)
        → skip_prefixes (wraps_from (length front + 1) xs) (front ++ s ∷ symbols_of xs)
          ≡ ok (front ++ s ∷ all_renamed xs))
    → (base : Option (List ℕ)) → base_of x ≡ base
    → skip_prefixes (wraps_from (length front) (x ∷ xs)) (front ++ symbols_of (x ∷ xs))
      ≡ ok (front ++ all_renamed (x ∷ xs))
unfolding skip_prefixes
skip_prefixes-wrap front x xs later none e = rw e (later x.symbol)
skip_prefixes-wrap front x xs later (some base) e =
    rw
      (
        e,
        get_elem?-middle front x.symbol (symbols_of xs),
        set_name-middle front x.symbol (symbols_of xs) (u32 (x.symbol.name + 10)),
      )
      (later (record (x.symbol) { name = (x.symbol.name + 10) % 2 ^ 32 }))

pub skip_prefixes-wraps :
    (front : List Symbol) (xs : List Named)
    → skip_prefixes (wraps_from (length front) xs) (front ++ symbols_of xs)
      ≡ ok (front ++ all_renamed xs)
unfolding skip_prefixes
skip_prefixes-wraps front [] = refl
skip_prefixes-wraps front (x ∷ xs) =
    skip_prefixes-wrap front x xs
      (λ s.
        rw
          (
            length-snoc front s,
            append_assoc front (s ∷ []) (symbols_of xs),
            append_assoc front (s ∷ []) (all_renamed xs),
          )
          at (skip_prefixes-wraps (front ++ s ∷ []) xs))
      (base_of x) refl
