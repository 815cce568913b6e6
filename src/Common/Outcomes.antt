-- ===== src/Common/Outcomes.antt =====
-- Outcomes of a step of a tool: it returns a value, reports a failure (returns false, or exits
-- with an error code), or faults, by an access that C++ leaves undefined.
use mathlib.Core.Path.{◌≡◌, refl}
use mathlib.Core.Option.{Option, none, some}

pub data Run {ℓ} (A : Type ℓ) : Type ℓ where
  ok : A → Run A
  failed : Run A
  fault : Run A

infixl 5 ◌>>=◌
abbrev pub ◌>>=◌ {ℓ κ} : {A : Type ℓ} {B : Type κ} → Run A → (A → Run B) → Run B
ok a >>= f = f a
failed >>= f = failed
fault >>= f = fault

-- What follows a run that may be out of fuel, which is `none`.
abbrev pub and_then {ℓ κ} :
    {A : Type ℓ} {B : Type κ} → Option (Run A) → (A → Option (Run B)) → Option (Run B)
and_then none next = none
and_then (some (ok a)) next = next a
and_then (some failed) next = some failed
and_then (some fault) next = some fault

-- An access that must be in range.
abbrev pub access {ℓ} : {A : Type ℓ} → Option A → Run A
access (some a) = ok a
access none = fault

pub ok-injective {ℓ} : {A : Type ℓ} {a b : A} → ok a ≡ ok b → a ≡ b
ok-injective e = cc

-- The parts of a run that ends normally.
pub >>=-eq-ok {κ ℓ} :
    {B : Type κ} {result : B} {A : Type ℓ} (run : Run A) (next : A → Run B)
    → (run >>= next) ≡ ok result
    → (value : A) × (run ≡ ok value) × (next value ≡ ok result)
>>=-eq-ok (ok value) next ends = (value, refl, ends)
>>=-eq-ok fault next ends = absurd (cc)
>>=-eq-ok failed next ends = absurd (cc)

pub done-injective {ℓ} : {A : Type ℓ} {a b : A} → some (ok a) ≡ some (ok b) → a ≡ b
done-injective e = cc

pub and_then-eq-done {κ ℓ} :
    {B : Type κ} {result : B} {A : Type ℓ} (run : Option (Run A)) (next : A → Option (Run B))
    → and_then run next ≡ some (ok result)
    → (value : A) × (run ≡ some (ok value)) × (next value ≡ some (ok result))
and_then-eq-done (some (ok value)) next ends = (value, refl, ends)
and_then-eq-done (some fault) next ends = absurd (cc)
and_then-eq-done (some failed) next ends = absurd (cc)
and_then-eq-done none next ends = absurd (cc)
