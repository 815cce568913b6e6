-- ===== src/Readrpl/Reading/Names.antt =====
-- The naming of the sections that were read.
use wut_tools.Common.{ℕ, ◌≡◌, refl, ap, List, [], ◌∷◌, map, drop, All, some, ok}
use wut_tools.Elf.Bytes.{c_string}
use wut_tools.Elf.{SectionHeader}
use wut_tools.Readrpl.Reading.{name_sections}
use wut_tools.Readrpl.Rpl.{Section}

-- A section's name ends within the strings.
abbrev pub HasName : List ℕ → ℕ → Type 0
HasName strings offset = (name : List ℕ) × (c_string (drop offset strings) ≡ some name)

abbrev pub headers : List Section → List SectionHeader
headers = map (λ s. s.header)

abbrev pub contents : List Section → List (List ℕ)
contents = map (λ s. s.bytes)

-- The offsets of the names.
abbrev pub names : List Section → List ℕ
names = map (λ s. s.header.name)

pub name_sections-total :
    (strings : List ℕ) (ss : List Section)
    → All (HasName strings) (names ss)
    → (named : List Section) × (name_sections strings ss ≡ ok named)
      × (headers named ≡ headers ss)
      × (contents named ≡ contents ss)
unfolding name_sections
name_sections-total strings [] h = ([], refl, refl, refl)
name_sections-total strings (s ∷ ss) ((name, e), h) =
    let (named, run, same, bytes) = name_sections-total strings ss h in
    (
      record s { name = name } ∷ named,
      rw (e, run) refl,
      ap (◌∷◌ (s.header)) same,
      ap (◌∷◌ (s.bytes)) bytes,
    )
