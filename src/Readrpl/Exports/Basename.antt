-- ===== src/Readrpl/Exports/Basename.antt =====
-- `getFileBasename`.
use wut_tools.Common.{
  ℕ, ◌≡◌, refl, ap, ◌∙◌, arith, true, false, ◌==◌, ◌||◌, List, [], ◌∷◌, ◌++◌, All, contains,
  contains-append,
}
use wut_tools.Readrpl.Exports.{behind_separator, before_dot, get_file_basename}

-- No '\' and no '/'.
abbrev pub NoSeparator : List ℕ → Type 0
NoSeparator = All (λ c. (c == 92 || c == 47) ≡ false)

pub behind_separator-none : (kept s : List ℕ) → NoSeparator s → behind_separator kept s ≡ kept
unfolding behind_separator
behind_separator-none kept [] h = refl
behind_separator-none kept (c ∷ s) h = rw h.0 (behind_separator-none kept s h.1)

pub behind_separator-last :
    (dirs kept : List ℕ) (c : ℕ) (rest : List ℕ)
    → (c == 92 || c == 47) ≡ true
    → NoSeparator rest
    → behind_separator kept (dirs ++ c ∷ rest) ≡ rest
unfolding behind_separator
behind_separator-last [] kept c rest e h =
    rw (behind_separator, e) (behind_separator-none rest rest h)
behind_separator-last (d ∷ dirs) kept c rest e h = behind_separator-last dirs _ c rest e h

pub before_dot-last :
    (name extension : List ℕ)
    → contains extension 46 ≡ false
    → before_dot (name ++ 46 ∷ extension) ≡ name
unfolding before_dot contains
before_dot-last [] extension h = rw h refl
before_dot-last (c ∷ name) extension h =
    let e : contains (name ++ 46 ∷ extension) 46 ≡ true =
      contains-append name (46 ∷ extension) 46 ∙ ground arith in
    rw (e, before_dot-last name extension h) (ground arith)

-- The base name of a path is what stands between the last '\' or '/' and the last '.' of what follows.
pub get_file_basename_lem :
    (dirs : List ℕ) (separator : ℕ) (name extension : List ℕ)
    → (separator == 92 || separator == 47) ≡ true
    → NoSeparator (name ++ 46 ∷ extension)
    → contains extension 46 ≡ false
    → get_file_basename (dirs ++ separator ∷ (name ++ 46 ∷ extension)) ≡ name
unfolding get_file_basename
get_file_basename_lem dirs separator name extension e plain last =
    ap before_dot (behind_separator-last dirs _ separator (name ++ 46 ∷ extension) e plain)
    ∙ before_dot-last name extension last
