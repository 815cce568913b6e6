-- ===== src/Readrpl/Reading/Converted.antt =====
-- The names of sections, and how many there are, through the steps of elf2rpl.
use wut_tools.Common.{
  ℕ, zero, suc, ◌||◌, ◌≡◌, refl, sym, ap, ap₂, subst, ◌∙◌, List, [], ◌∷◌, map, length, All,
  Bool-cases, inl, inr, ◌==◌, get_elem?, some, ok, done-injective, and_then-eq-done,
}
use wut_tools.Elf.Constants
use wut_tools.Elf2rpl.Deflate.{Deflate, deflate_section, deflate_each, deflate_sections}
use wut_tools.Elf2rpl.File.{Section, ElfFile, uint32_max}
use wut_tools.Elf2rpl.Offsets.Arranged.{HasEmptyNull}
use wut_tools.Elf2rpl.Offsets.Unchanged.{blank, HasNoBytes, written_sections-blank}
use wut_tools.Elf2rpl.Write.{written_sections}
use wut_tools.Readrpl.Reading.Inflated.{deflate_section_parts}
use wut_tools.Readrpl.Reading.Names.{headers, contents, names}
use wut_tools.Readrpl.Reading.Tables.{AllStored, all_loaded}
use wut_tools.Readrpl.Reading.{Inflate}
use wut_tools.Readrpl.Rpl
use wut_tools.Readrpl.Rpl.{Rpl}

-- The offsets of the names of sections.
abbrev pub names_of : List Section → List ℕ
names_of = map (λ s. s.header.name)

-- The types of sections.
abbrev pub types_of : List Section → List ℕ
types_of = map (λ s. s.header.type)

-- A part of the sections that are written, which the offsets do not change.
module _ {A : Type 0} (f : Section → A) (keep : (s : Section) → f (blank s) ≡ f s) where
  map-blank : (ss : List Section) → map f (map blank ss) ≡ map f ss
  map-blank [] = refl
  map-blank (s ∷ ss) = ap₂ (◌∷◌) (keep s) (map-blank ss)

  pub written-blank :
      (ss ts : List Section)
      → map blank ss ≡ map blank ts
      → map f (written_sections ss) ≡ map f (written_sections ts)
  written-blank ss ts e =
      sym (map-blank (written_sections ss))
      ∙ ap (map f)
          (sym (written_sections-blank ss) ∙ ap written_sections e ∙ written_sections-blank ts)
      ∙ map-blank (written_sections ts)

module _ {Stream : Type 0} (zlib : Deflate Stream) (inflate : Inflate) (fuel : ℕ) where
  -- And one that compression does not change.
  pub written-deflate_each :
      {A : Type 0} (f : Section → A)
      → ((s s1 : Section) → deflate_section zlib fuel s ≡ some (ok s1) → f s1 ≡ f s)
      → (ss ss1 : List Section) → deflate_each zlib fuel ss ≡ some (ok ss1)
      → map f (written_sections ss1) ≡ map f (written_sections ss)
  unfolding deflate_each written_sections
  written-deflate_each f keep [] ss1 run =
      ap (λ ts. map f (written_sections ts)) (sym (done-injective run))
  written-deflate_each f keep (s ∷ ss) ss1 run =
      let (s1, r1, run1) = and_then-eq-done (deflate_section zlib fuel s) _ run in
      let (rest, r2, run2) = and_then-eq-done (deflate_each zlib fuel ss) _ run1 in
      let index = (deflate_section_parts zlib inflate fuel s s1 r1).0 in
      let more = written-deflate_each f keep ss rest r2 in
      ap (λ ts. map f (written_sections ts)) (sym (done-injective run2))
      ∙ elim (Bool-cases (s.index == uint32_max)) [
        | inl discarded ↦ rw (discarded, ap (λ n. n == uint32_max) index ∙ discarded) more
        | inr kept ↦
            rw (kept, ap (λ n. n == uint32_max) index ∙ kept) (ap₂ (◌∷◌) (keep s s1 r1) more)
      ]

  pub written_names-deflate_each :
      (ss ss1 : List Section)
      → deflate_each zlib fuel ss ≡ some (ok ss1)
      → names_of (written_sections ss1) ≡ names_of (written_sections ss)
  written_names-deflate_each =
      written-deflate_each (λ s. s.header.name)
        (λ s s1 run. (deflate_section_parts zlib inflate fuel s s1 run).1)

  pub written_types-deflate_each :
      (ss ss1 : List Section)
      → deflate_each zlib fuel ss ≡ some (ok ss1)
      → types_of (written_sections ss1) ≡ types_of (written_sections ss)
  written_types-deflate_each =
      written-deflate_each (λ s. s.header.type)
        (λ s s1 run. (deflate_section_parts zlib inflate fuel s s1 run).2)

  pub deflated-All :
      (P : Section → Type 0) (ss ss1 : List Section)
      → ((s s1 : Section) → deflate_section zlib fuel s ≡ some (ok s1) → P s → P s1)
      → deflate_each zlib fuel ss ≡ some (ok ss1)
      → All P ss
      → All P ss1
  unfolding deflate_each
  deflated-All P [] ss1 keep run h = subst (All P) (done-injective run) tt
  deflated-All P (s ∷ ss) ss1 keep run h =
      let (s1, r1, run1) = and_then-eq-done (deflate_section zlib fuel s) _ run in
      let (rest, r2, run2) = and_then-eq-done (deflate_each zlib fuel ss) _ run1 in
      subst (All P) (done-injective run2) (keep s s1 r1 h.0, deflated-All P ss rest keep r2 h.1)

  pub deflated_no_bytes :
      (s s1 : Section)
      → deflate_section zlib fuel s ≡ some (ok s1)
      → HasEmptyNull s × HasNoBytes s
      → HasEmptyNull s1 × HasNoBytes s1
  deflated_no_bytes s s1 run h =
      let parts = deflate_section_parts zlib inflate fuel s s1 run in
      (
        λ null. parts.4 ∙ h.0 (ap (λ n. n == Constants.sht_null) (sym parts.2) ∙ null),
        λ nothing. parts.5 (
            h.1 (
              ap (λ n. n == Constants.sht_nobits || n == Constants.sht_null) (sym parts.2)
              ∙ nothing)),
      )

module _ (inflate : Inflate) (out : List ℕ) where
  -- What is loaded of stored sections.
  pub loaded_parts :
      (ss : List Section) (datas : List (List ℕ))
      → AllStored inflate out ss datas
      → let loaded = all_loaded ss datas in
        (headers loaded ≡ map (λ (s : Section). s.header) ss)
        × (contents loaded ≡ datas)
        × (names loaded ≡ names_of ss)
  loaded_parts [] [] h = (refl, refl, refl)
  loaded_parts [] (_ ∷ _) h = absurd h
  loaded_parts (s ∷ ss) [] h = absurd h
  loaded_parts (s ∷ ss) (d ∷ datas) (_, h) =
      let (hs, cs, ns) = loaded_parts ss datas h in
      (ap (◌∷◌ (s.header)) hs, ap (◌∷◌ d) cs, ap (◌∷◌ (s.header.name)) ns)

pub get_elem?-contents :
    (ss : List Rpl.Section) (i : ℕ) (bytes : List ℕ)
    → get_elem? (contents ss) i ≡ some bytes
    → (s : Rpl.Section) × (get_elem? ss i ≡ some s) × (s.bytes ≡ bytes)
get_elem?-contents [] i bytes e = absurd (cc)
get_elem?-contents (s ∷ ss) zero bytes e = (s, refl, cc)
get_elem?-contents (s ∷ ss) (suc i) bytes e = get_elem?-contents ss i bytes e

pub length-names_of : (ss : List Section) → length (names_of ss) ≡ length ss
length-names_of [] = refl
length-names_of (s ∷ ss) = ap suc (length-names_of ss)

pub length-deflate_each :
    {Stream : Type 0} (zlib : Deflate Stream) (fuel : ℕ) (ss ss1 : List Section)
    → deflate_each zlib fuel ss ≡ some (ok ss1)
    → length ss1 ≡ length ss
unfolding deflate_each
length-deflate_each zlib fuel [] ss1 run = ap length (sym (done-injective run))
length-deflate_each zlib fuel (s ∷ ss) ss1 run =
    let (s1, r1, run1) = and_then-eq-done (deflate_section zlib fuel s) _ run in
    let (rest, r2, run2) = and_then-eq-done (deflate_each zlib fuel ss) _ run1 in
    ap length (sym (done-injective run2)) ∙ ap suc (length-deflate_each zlib fuel ss rest r2)

pub deflate_sections_parts :
    {Stream : Type 0} (zlib : Deflate Stream) (fuel : ℕ) (file file1 : ElfFile)
    → deflate_sections zlib fuel file ≡ some (ok file1)
    → (deflate_each zlib fuel file.sections ≡ some (ok file1.sections))
      × (record file { sections = file1.sections } ≡ file1)
unfolding deflate_sections
deflate_sections_parts zlib fuel file file1 run =
    let (ss, r, last) = and_then-eq-done (deflate_each zlib fuel file.sections) _ run in
    subst
      (λ (f : ElfFile).
        (deflate_each zlib fuel file.sections ≡ some (ok f.sections))
        × (record file { sections = f.sections } ≡ f))
      (done-injective last) (r, refl)
