-- ===== src/Utils/Trim.antt =====
-- What `trim` takes away, and what it leaves.
use wut_tools.Common.{
  ℕ, ◌≡◌, refl, ap, ◌∙◌, true, false, Bool-cases, inl, inr, List, [], ◌∷◌, ◌++◌, All,
}
use wut_tools.Utils.{is_space, ltrim, keep_space, rtrim, trim}

abbrev pub IsSpace : ℕ → Type 0
IsSpace c = is_space c ≡ true

-- Text that does not start with a space.
abbrev pub StartsPlain : List ℕ → Type 0
StartsPlain [] = Unit {0}
StartsPlain (c ∷ s) = is_space c ≡ false

-- Text that does not end with a space.
abbrev pub EndsPlain : List ℕ → Type 0
EndsPlain [] = Unit {0}
EndsPlain (c ∷ []) = is_space c ≡ false
EndsPlain (c ∷ d ∷ s) = EndsPlain (d ∷ s)

ltrim_lem :
    (s : List ℕ)
    → (front : List ℕ) × All IsSpace front × (s ≡ front ++ ltrim s) × StartsPlain (ltrim s)
unfolding ltrim
ltrim_lem [] = ([], tt, refl, tt)
ltrim_lem (c ∷ s) = elim (Bool-cases (is_space c)) [
  | inl space ↦
      let (front, spaces, e, plain) = ltrim_lem s in
      rw space (c ∷ front, (space, spaces), ap (λ t. c ∷ t) e, plain)
  | inr kept ↦ rw kept ([], tt, refl, kept)
]

record Ends (s kept : List ℕ) : Type 0 where
  back : List ℕ
  spaces : All IsSpace back
  parts : s ≡ kept ++ back
  plain : EndsPlain kept
  starts : StartsPlain s → StartsPlain kept

keep_space-Ends : (c : ℕ) (s t : List ℕ) → Ends s t → Ends (c ∷ s) (keep_space c t)
unfolding keep_space
keep_space-Ends c s [] h = elim (Bool-cases (is_space c)) [
  | inl space ↦ rw space (record {
    back = c ∷ h.back;
    spaces = (space, h.spaces);
    parts = ap (λ u. c ∷ u) h.parts;
    plain = tt;
    starts = λ p. tt;
  })
  | inr kept ↦ rw kept (record {
    back = h.back;
    spaces = h.spaces;
    parts = ap (λ u. c ∷ u) h.parts;
    plain = kept;
    starts = λ p. p;
  })
]
keep_space-Ends c s (d ∷ t) h = record {
  back = h.back;
  spaces = h.spaces;
  parts = ap (λ u. c ∷ u) h.parts;
  plain = h.plain;
  starts = λ p. p;
}

rtrim-Ends : (s : List ℕ) → Ends s (rtrim s)
unfolding rtrim
rtrim-Ends [] = record { back = []; spaces = tt; parts = refl; plain = tt; starts = λ p. p }
rtrim-Ends (c ∷ s) = keep_space-Ends c s (rtrim s) (rtrim-Ends s)

-- `trim` takes away white space from both ends, nothing else, and leaves a text that neither
-- starts nor ends with white space.
pub trim_lem :
    (s : List ℕ)
    → (front : List ℕ) × (back : List ℕ) × All IsSpace front
      × All IsSpace back
      × (s ≡ front ++ (trim s ++ back))
      × StartsPlain (trim s)
      × EndsPlain (trim s)
unfolding trim
trim_lem s =
    let (front, spaces, e, plain) = ltrim_lem s in
    let h = rtrim-Ends (ltrim s) in
    (front, h.back, spaces, h.spaces, e ∙ ap (λ t. front ++ t) h.parts, h.starts plain, h.plain)
