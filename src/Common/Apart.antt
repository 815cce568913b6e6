-- ===== src/Common/Apart.antt =====
-- Lists of different numbers, and where their items lie.
use mathlib.Core.List.{List, [], ◌∷◌, ◌++◌}
use mathlib.Core.Logic.{◌≢◌, ◌⊎◌, inl, inr}
use native.Mathlib.Omega.{arith}
use Prim.Native.Nat.{ℕ, ◌≤◌, ◌<◌}
use wut_tools.Common.Lists.{All, All-append}

abbrev pub Apart : List ℕ → Type 0
Apart [] = Unit {0}
Apart (x ∷ xs) = All (λ y. x ≢ y) xs × Apart xs

abbrev pub IsWithin : (low high x : ℕ) → Type 0
IsWithin low high x = (low ≤ x) × (x < high)

-- Outside a range.
abbrev pub IsOutside : (low high x : ℕ) → Type 0
IsOutside low high x = (x < low) ⊎ (high ≤ x)

pub All-imply {ℓ κ μ} :
    {A : Type ℓ} (P : A → Type κ) (Q : A → Type μ) (xs : List A)
    → ((x : A) → P x → Q x)
    → All P xs
    → All Q xs
All-imply P Q [] f h = tt
All-imply P Q (x ∷ xs) f h = (f x h.0, All-imply P Q xs f h.1)

pub Apart-append :
    (low high : ℕ) (xs ys : List ℕ)
    → All (IsWithin low high) xs
    → All (IsOutside low high) ys
    → Apart xs
    → Apart ys
    → Apart (xs ++ ys)
Apart-append low high [] ys inside outside p q = q
Apart-append low high (x ∷ xs) ys inside outside p q = (
  All-append (λ y. x ≢ y) xs ys p.0
      (All-imply (IsOutside low high) (λ y. x ≢ y) ys (λ y h. differ x y inside.0 h) outside),
  Apart-append low high xs ys inside.1 outside p.1 q,
)
  where
    differ : (a b : ℕ) → IsWithin low high a → IsOutside low high b → a ≢ b
    differ a b h (inl k) = omega arith
    differ a b h (inr k) = omega arith
