-- ===== src/Readrpl/Reading/Restored.antt =====
-- The output of elf2rpl, read by readrpl.
use wut_tools.Common.{
  ℕ, ◌^◌, ◌<◌, ◌≡◌, refl, sym, ap, subst, ◌∙◌, arith, true, false, has, List, [], ◌∷◌, map, length,
  All, Bool-cases, inl, inr, ◌⊎◌, ◌==◌, ◌||◌, some, ok, done-injective, and_then-eq-done,
}
use wut_tools.Elf.Constants
use wut_tools.Elf.Headers.{FitsSectionHeader}
use wut_tools.Elf2rpl.Deflate.{Deflate, is_skipped, deflate_section, deflate_each}
use wut_tools.Elf2rpl.File.{Section, uint32_max}
use wut_tools.Elf2rpl.Offsets.Arranged.{IsPlaced}
use wut_tools.Elf2rpl.Offsets.Unchanged.{blank, HasNoBytes}
use wut_tools.Elf2rpl.Write.Held.{HasContents}
use wut_tools.Elf2rpl.Write.{written_sections}
use wut_tools.Readrpl.Reading.Inflated.{
  Gives, Restores, deflate_section_parts, deflate_section-Gives,
}
use wut_tools.Readrpl.Reading.Tables.{AllStored}
use wut_tools.Readrpl.Reading.{Inflate}

abbrev pub bytes_of : List Section → List (List ℕ)
bytes_of = map (λ s. s.bytes)

module _ {Stream : Type 0} (zlib : Deflate Stream) (inflate : Inflate) (fuel : ℕ) where
  -- What a section must have before it is deflated: zlib restores it, its size is 32-bit, it is not
  -- flagged yet, and one of no contents in the file has no bytes.
  abbrev pub IsSound : Section → Type 0
  IsSound s =
      (is_skipped s ≡ false → Restores zlib inflate fuel s.bytes)
      × (length s.bytes < 2 ^ 32)
      × (has s.header.flags Constants.shf_deflated ≡ false)
      × HasNoBytes s

  -- Such a section without contents was empty from the start.
  section_empty :
      (s s1 s2 : Section)
      → deflate_section zlib fuel s ≡ some (ok s1)
      → blank s2 ≡ blank s1
      → IsSound s
      → (s2.header.type == Constants.sht_nobits || s2.header.size == 0) ≡ true
      → (s2.header.size ≡ length s2.bytes) ⊎ (s2.bytes ≡ [])
      → s.bytes ≡ []
  section_empty s s1 s2 run same sound empty size =
      let parts = deflate_section_parts zlib inflate fuel s s1 run in
      let bytes : s2.bytes ≡ s1.bytes = ap (λ (t : Section). t.bytes) same in
      let type : s2.header.type ≡ s.header.type =
        ap (λ (t : Section). t.header.type) same ∙ parts.2 in
      elim (Bool-cases (s2.header.type == Constants.sht_nobits)) [
        | inl nobits ↦
            let no_bits : (s.header.type == Constants.sht_nobits) ≡ true =
              ap (λ n. n == Constants.sht_nobits) (sym type) ∙ nobits in
            sound.3 (ap (λ b. b || s.header.type == Constants.sht_null) no_bits)
        | inr other ↦
            let zero_size : s2.header.size ≡ 0 = ground (arith, other, empty) in
            parts.3 (
              sym bytes
              ∙ no_bytes s2.bytes (elim size [ inl e ↦ sym e ∙ zero_size | inr e ↦ ap length e ]))
      ]
    where
      no_bytes : (b : List ℕ) → length b ≡ 0 → b ≡ []
      no_bytes [] e = refl
      no_bytes (x ∷ b) e = absurd (omega arith)

  section_Gives :
      (lo hi : ℕ) (s s1 s2 : Section)
      → deflate_section zlib fuel s ≡ some (ok s1)
      → blank s2 ≡ blank s1
      → IsSound s
      → IsPlaced lo hi s2
      → Gives inflate s2.header s2.bytes s.bytes
  section_Gives lo hi s s1 s2 run same sound (inl (_, none', empty)) =
      inl (empty, section_empty s s1 s2 run same sound empty (inr none'))
  section_Gives lo hi s s1 s2 run same sound (inr (_, _, size)) =
      elim (Bool-cases (s2.header.type == Constants.sht_nobits || s2.header.size == 0)) [
        | inl empty ↦ inl (empty, section_empty s s1 s2 run same sound empty (inl size))
        | inr there ↦
            let bytes : s2.bytes ≡ s1.bytes = ap (λ (t : Section). t.bytes) same in
            subst (λ b. Gives inflate s2.header b s.bytes) (sym bytes)
              (deflate_section-Gives zlib inflate fuel s s1 s2.header run sound.0 sound.1 sound.2
                there (ap (λ (t : Section). t.header.flags) same) (size ∙ ap length bytes))
      ]

  -- One more section, in front of those that `rest` is about.
  section_stored :
      (out : List ℕ) (lo hi : ℕ) (s s1 : Section) (ss rest : List Section)
      → deflate_section zlib fuel s ≡ some (ok s1)
      → IsSound s
      → ((ts : List Section)
          → map blank ts ≡ map blank rest
          → All (IsPlaced lo hi) ts
          → All (HasContents out) ts
          → All (λ (t : Section). FitsSectionHeader t.header) (written_sections ts)
          → AllStored inflate out (written_sections ts) (bytes_of (written_sections ss)))
      → (ss2 : List Section) → map blank ss2 ≡ map blank (s1 ∷ rest)
      → All (IsPlaced lo hi) ss2
      → All (HasContents out) ss2
      → All (λ (t : Section). FitsSectionHeader t.header) (written_sections ss2)
      → AllStored inflate out (written_sections ss2) (bytes_of (written_sections (s ∷ ss)))
  unfolding written_sections
  section_stored out lo hi s s1 ss rest run sound more [] same placed held fits = absurd (cc)
  section_stored out lo hi s s1 ss rest run sound more (s2 ∷ ss2) same placed held fits =
      let one : blank s2 ≡ blank s1 = cc in
      let others : map blank ss2 ≡ map blank rest = cc in
      let index : s2.index ≡ s.index =
        ap (λ (t : Section). t.index) one ∙ (deflate_section_parts zlib inflate fuel s s1 run).0 in
      elim (Bool-cases (s.index == uint32_max)) [
        | inl discarded ↦
            let discarded' : (s2.index == uint32_max) ≡ true =
              ap (λ n. n == uint32_max) index ∙ discarded in
            rw (discarded, discarded') (more ss2 others placed.1 held.1 (rw discarded' at fits))
        | inr kept ↦
            let kept' : (s2.index == uint32_max) ≡ false = ap (λ n. n == uint32_max) index ∙ kept in
            let fits' : FitsSectionHeader s2.header
                × All (λ (t : Section). FitsSectionHeader t.header) (written_sections ss2) =
              rw kept' at fits in
            rw (kept, kept')
              (
                (fits'.0, held.0, section_Gives lo hi s s1 s2 run one sound placed.0),
                more ss2 others placed.1 held.1 fits'.1,
              )
      ]

  -- All sections that are written, from the start to the output.
  pub sections_stored :
      (out : List ℕ) (lo hi : ℕ) (ss ss1 ss2 : List Section)
      → deflate_each zlib fuel ss ≡ some (ok ss1)
      → map blank ss2 ≡ map blank ss1
      → All IsSound ss
      → All (IsPlaced lo hi) ss2
      → All (HasContents out) ss2
      → All (λ (s : Section). FitsSectionHeader s.header) (written_sections ss2)
      → AllStored inflate out (written_sections ss2) (bytes_of (written_sections ss))
  unfolding deflate_each written_sections
  sections_stored out lo hi [] ss1 [] run same sound placed held fits = tt
  sections_stored out lo hi [] ss1 (s2 ∷ ss2) run same sound placed held fits =
      let e : [] ≡ ss1 = done-injective run in
      absurd (let e' : map blank (s2 ∷ ss2) ≡ [] = same ∙ ap (map blank) (sym e) in cc)
  sections_stored out lo hi (s ∷ ss) ss1 ss2 run same sound placed held fits =
      let (s1, r1, run1) = and_then-eq-done (deflate_section zlib fuel s) _ run in
      let (rest, r2, run2) = and_then-eq-done (deflate_each zlib fuel ss) _ run1 in
      section_stored out lo hi s s1 ss rest r1 sound.0
        (λ ts e p h f. sections_stored out lo hi ss rest ts r2 e sound.1 p h f) ss2
        (same ∙ ap (map blank) (sym (done-injective run2))) placed held fits
