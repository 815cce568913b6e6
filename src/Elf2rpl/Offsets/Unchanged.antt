-- ===== src/Elf2rpl/Offsets/Unchanged.antt =====
-- What `calculateSectionOffsets` does not change of the sections: all but the offset, the size, and
-- the numbers of other sections.
use wut_tools.Common.{
  ℕ, ◌+◌, ◌≡◌, refl, sym, ap, ap₂, ◌∙◌, Bool, true, u32, List, [], ◌∷◌, map, length, All,
  Bool-cases, inl, inr, ◌==◌, ok,
}
use wut_tools.Elf2rpl.File.{Section, ElfFile, uint32_max}
use wut_tools.Elf2rpl.Offsets.Renumbered.{renumber_all-map}
use wut_tools.Elf2rpl.Offsets.Verified.{calculate_parts}
use wut_tools.Elf2rpl.Offsets.{
  first_offset, reset_offset, clear_empty, holds_nothing, place, place_at, place_groups, place_all,
  calculate_section_offsets, is_data, is_read, is_text, is_temp, has_type,
}
use wut_tools.Elf.Constants
use wut_tools.Elf2rpl.Write.{written_sections}

abbrev pub blank : Section → Section
blank s = record s { header = record (s.header) { offset = 0; size = 0; link = 0; info = 0 } }

-- A section of no contents in the file has no bytes.
abbrev pub HasNoBytes : Section → Type 0
HasNoBytes s = holds_nothing s ≡ true → s.bytes ≡ []

place-blank :
    (selects : Section → Bool) (ss : List Section) (o : ℕ)
    → map blank (place selects ss o).0 ≡ map blank ss
unfolding place
place-blank selects [] o = refl
place-blank selects (s ∷ ss) o = elim (Bool-cases (selects s)) [
  | inl yes' ↦ rw yes' (
      ap (λ ts. blank s ∷ ts)
        (unfold place_at in place-blank selects ss (u32 (o + u32 (length s.bytes)))))
  | inr no' ↦ rw no' (ap (λ ts. blank s ∷ ts) (place-blank selects ss o))
]

clear_empty-blank : (s : Section) → HasNoBytes s → blank (clear_empty (reset_offset s)) ≡ blank s
unfolding clear_empty reset_offset
clear_empty-blank s h = elim (Bool-cases (holds_nothing s)) [
  | inl yes' ↦ rw yes' (ap (λ b. record (blank s) { bytes = b }) (sym (h yes')))
  | inr no' ↦ rw no' refl
]

cleared-blank :
    (ss : List Section)
    → All HasNoBytes ss
    → map blank (map clear_empty (map reset_offset ss)) ≡ map blank ss
cleared-blank [] h = refl
cleared-blank (s ∷ ss) h = ap₂ (◌∷◌) (clear_empty-blank s h.0) (cleared-blank ss h.1)

place_all-blank :
    (ss : List Section) (o : ℕ) → All HasNoBytes ss → map blank (place_all ss o) ≡ map blank ss
unfolding place_all place_groups
place_all-blank ss o h =
    place-blank is_temp _ _
    ∙ place-blank is_text _ _
    ∙ place-blank is_read _ _
    ∙ place-blank is_data _ _
    ∙ place-blank (has_type Constants.sht_rpl_fileinfo) _ _
    ∙ place-blank (has_type Constants.sht_rpl_crcs) _ o
    ∙ cleared-blank ss h

pub calculate_section_offsets-blank :
    (file file' : ElfFile)
    → All HasNoBytes file.sections
    → calculate_section_offsets file ≡ ok file'
    → map blank file'.sections ≡ map blank file.sections
calculate_section_offsets-blank file file' h run =
    let (renumbered, _) = calculate_parts file file' run in
    let o = first_offset file in
    renumber_all-map blank (λ s link info. refl) (place_all file.sections o)
      (place_all file.sections o) file'.sections renumbered
    ∙ place_all-blank file.sections o h

-- Which sections are written does not change.
pub written_sections-blank :
    (ss : List Section) → written_sections (map blank ss) ≡ map blank (written_sections ss)
unfolding written_sections
written_sections-blank [] = refl
written_sections-blank (s ∷ ss) = elim (Bool-cases (s.index == uint32_max)) [
  | inl discarded ↦ rw discarded (written_sections-blank ss)
  | inr kept ↦ rw kept (ap (λ ts. blank s ∷ ts) (written_sections-blank ss))
]
