-- ===== src/Common/Ranges.antt =====
-- Lists of ranges of numbers, and where they lie.
use mathlib.Core.List.{List, [], ◌∷◌, ◌++◌, map}
use mathlib.Core.Logic.{◌⊎◌, inl, inr}
use native.Mathlib.Omega.{arith}
use Prim.Native.Nat.{ℕ, ◌+◌, ◌≤◌}
use wut_tools.Common.Apart.{All-imply}
use wut_tools.Common.Lists.{All, All-append}

pub record Range : Type 0 where
  pub start : ℕ
  pub size : ℕ

-- One ends before the other starts.
abbrev pub IsClear : Range → Range → Type 0
IsClear r s = (r.start + r.size ≤ s.start) ⊎ (s.start + s.size ≤ r.start)

abbrev pub AreClear : List Range → Type 0
AreClear [] = Unit {0}
AreClear (r ∷ rs) = All (IsClear r) rs × AreClear rs

abbrev pub IsInside : (low high : ℕ) → Range → Type 0
IsInside low high r = (low ≤ r.start) × (r.start + r.size ≤ high)

abbrev pub IsInEither : (a b c d : ℕ) → Range → Type 0
IsInEither a b c d r = IsInside a b r ⊎ IsInside c d r

-- The ranges lie in `[a, b)` or in `[c, d)`, and no two of them meet.
pub record Spread (a b c d : ℕ) (ranges : List Range) : Type 0 where
  pub inside : All (IsInEither a b c d) ranges
  pub clear : AreClear ranges

pub AreClear-append :
    (a b : ℕ) (xs ys : List Range)
    → All (IsInside a b) xs
    → All (λ (r : Range). (r.start + r.size ≤ a) ⊎ (b ≤ r.start)) ys
    → AreClear xs
    → AreClear ys
    → AreClear (xs ++ ys)
AreClear-append a b [] ys inside outside p q = q
AreClear-append a b (x ∷ xs) ys inside outside p q = (
  All-append (IsClear x) xs ys p.0 (
      All-imply (λ (r : Range). (r.start + r.size ≤ a) ⊎ (b ≤ r.start)) (IsClear x) ys
        (λ y k. clear y k inside.0) outside),
  AreClear-append a b xs ys inside.1 outside p.1 q,
)
  where
    clear : (y : Range) → (y.start + y.size ≤ a) ⊎ (b ≤ y.start) → IsInside a b x → IsClear x y
    clear y (inl k) w = inr (omega arith)
    clear y (inr k) w = inl (omega arith)

-- A range before those of the second part, and behind those of the first.
pub Spread-cons :
    (a b c next d : ℕ) (r : Range) (ranges : List Range)
    → b ≤ c
    → IsInside c next r
    → next ≤ d
    → Spread a b next d ranges
    → Spread a b c d (r ∷ ranges)
Spread-cons a b c next d r ranges below here room s = record {
  inside = (
    inr (here.0, omega arith),
    All-imply (IsInEither a b next d) (IsInEither a b c d) ranges (λ y h. wider y h) s.inside,
  );
  clear =
      (All-imply (IsInEither a b next d) (IsClear r) ranges (λ y h. clear y h) s.inside, s.clear);
}
  where
    wider : (y : Range) → IsInEither a b next d y → IsInEither a b c d y
    wider y (inl h) = inl h
    wider y (inr h) = inr (omega arith, h.1)

    clear : (y : Range) → IsInEither a b next d y → IsClear r y
    clear y (inl h) = inr (omega arith)
    clear y (inr h) = inl (omega arith)

-- Ranges that fill the start of the first part, before others.
pub Spread-append :
    (a a1 a2 b c d : ℕ) (xs ys : List Range)
    → a ≤ a1
    → a1 ≤ a2
    → a2 ≤ b
    → b ≤ c
    → Spread a a1 a1 a2 xs
    → Spread a2 b c d ys
    → Spread a b c d (xs ++ ys)
Spread-append a a1 a2 b c d xs ys h1 h2 h3 h4 front back =
    let inside : All (IsInside a a2) xs =
      All-imply (IsInEither a a1 a1 a2) (IsInside a a2) xs (λ y h. one y h) front.inside in
    record {
      inside =
          All-append (IsInEither a b c d) xs ys
            (All-imply (IsInside a a2) (IsInEither a b c d) xs (λ y h. inl (h.0, omega arith))
              inside)
            (All-imply (IsInEither a2 b c d) (IsInEither a b c d) ys (λ y h. wider y h)
              back.inside);
      clear =
          AreClear-append a a2 xs ys inside
            (All-imply (IsInEither a2 b c d)
              (λ (r : Range). (r.start + r.size ≤ a) ⊎ (a2 ≤ r.start)) ys (λ y h. outside y h)
              back.inside)
            front.clear back.clear;
    }
  where
    one : (y : Range) → IsInEither a a1 a1 a2 y → IsInside a a2 y
    one y (inl h) = (h.0, omega arith)
    one y (inr h) = (omega arith, h.1)

    wider : (y : Range) → IsInEither a2 b c d y → IsInEither a b c d y
    wider y (inl h) = inl (omega arith, h.1)
    wider y (inr h) = inr h

    outside : (y : Range) → IsInEither a2 b c d y → (y.start + y.size ≤ a) ⊎ (a2 ≤ y.start)
    outside y (inl h) = inr h.0
    outside y (inr h) = inr (omega arith)

-- The same ranges, further on.
abbrev pub shift : ℕ → Range → Range
shift n r = record { start = r.start + n; size = r.size }

All-shift :
    (n : ℕ) (P Q : Range → Type 0) (rs : List Range)
    → ((r : Range) → P r → Q (shift n r))
    → All P rs
    → All Q (map (shift n) rs)
All-shift n P Q [] f h = tt
All-shift n P Q (r ∷ rs) f h = (f r h.0, All-shift n P Q rs f h.1)

IsClear-shift : (n : ℕ) (r s : Range) → IsClear r s → IsClear (shift n r) (shift n s)
IsClear-shift n r s (inl h) = inl (omega arith)
IsClear-shift n r s (inr h) = inr (omega arith)

pub AreClear-shift : (n : ℕ) (rs : List Range) → AreClear rs → AreClear (map (shift n) rs)
AreClear-shift n [] h = tt
AreClear-shift n (r ∷ rs) h = (
  All-shift n (IsClear r) (IsClear (shift n r)) rs (IsClear-shift n r) h.0,
  AreClear-shift n rs h.1,
)

pub IsInside-shift :
    (n low high : ℕ) (rs : List Range)
    → All (IsInside low high) rs
    → All (IsInside (low + n) (high + n)) (map (shift n) rs)
IsInside-shift n low high rs =
    All-shift n (IsInside low high) (IsInside (low + n) (high + n)) rs
      (λ r h. (omega arith, omega arith))
