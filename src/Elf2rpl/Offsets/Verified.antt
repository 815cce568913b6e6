-- ===== src/Elf2rpl/Offsets/Verified.antt =====
-- `calculateSectionOffsets` against `verifyFileBounds` of readrpl.
use native.Mathlib.Nat.{le_trans}
use wut_tools.Common.{
  ℕ, ◌+◌, ◌-◌, ◌*◌, ◌^◌, ◌≤◌, ◌<◌, ◌≡◌, refl, sym, subst, subst₂, ◌∙◌, arith, true, List, [], ◌∷◌,
  map, length, All, inl, ok, >>=-eq-ok, ok-injective, u32,
}
use wut_tools.Elf.Bytes.{sizeof_section_header}
use wut_tools.Elf.{Header, SectionHeader}
use wut_tools.Elf2rpl.File.{Section, ElfFile}
use wut_tools.Elf2rpl.Offsets.Groups.{IsRegularHeader, group_of}
use wut_tools.Elf2rpl.Offsets.Located.{Ranges, place_all-Ranges}
use wut_tools.Elf2rpl.Offsets.Place.{total}
use wut_tools.Elf2rpl.Offsets.Renumbered.{renumber_all-All, written_sections-All}
use wut_tools.Elf2rpl.Offsets.{first_offset, place_all, renumber_all, calculate_section_offsets}
use wut_tools.Elf2rpl.Write.{written_sections}
use wut_tools.Readrpl.Rpl
use wut_tools.Readrpl.Rpl.{Rpl}
use wut_tools.Readrpl.Verify.FileBounds.Laws.{InRanges, bound_sections-AllLie, completed-in_order}
use wut_tools.Readrpl.Verify.FileBounds.{
  no_offset, no_bounds, bound_sections, completed, in_order, verify_file_bounds,
}
use wut_tools.Utils.Align.{align_up-Aligns}
use wut_tools.Utils.{wrap_sub}

abbrev Placed : (a b c d e : ℕ) → Section → Type 0
Placed a b c d e s = InRanges a b c d e s.header

headers_Placed :
    (a b c d e : ℕ) (ss : List Section)
    → All (Placed a b c d e) ss
    → All (InRanges a b c d e) (map (λ (s : Section). s.header) ss)
headers_Placed a b c d e [] h = tt
headers_Placed a b c d e (s ∷ ss) h = (h.0, headers_Placed a b c d e ss h.1)

-- The headers that are written are in the ranges where the loops placed the sections.
written-Placed :
    (a b c d e : ℕ) (all ss : List Section)
    → renumber_all all all ≡ ok ss
    → All (Placed a b c d e) all
    → All (InRanges a b c d e) (map (λ (s : Section). s.header) (written_sections ss))
unfolding group_of
written-Placed a b c d e all ss run h = headers_Placed a b c d e (written_sections ss) (
    written_sections-All (Placed a b c d e) ss (
      renumber_all-All (Placed a b c d e) (Placed a b c d e) (λ s link info found p. p) all all ss
        run h))

-- The output starts at the header's place of the section headers, and is small enough for the
-- six loops that place.
pub record IsSmall (file : ElfFile) : Type 0 where
  pub discarded : file.num_discarded_sections ≤ length file.sections
  pub room :
      file.header.shoff
        + length file.sections * sizeof_section_header
        + 128
        + 6 * total file.sections
      < no_offset

-- Behind the section headers there is room for them.
pub first_offset_bounds :
    (file : ElfFile)
    → IsSmall file
    → let n = length file.sections - file.num_discarded_sections in
      (file.header.shoff + n * sizeof_section_header ≤ first_offset file)
      × (first_offset file ≤ file.header.shoff + n * sizeof_section_header + 64)
unfolding first_offset
first_offset_bounds file small =
    let n = length file.sections - file.num_discarded_sections in
    let fits : n * sizeof_section_header + 64 < 2 ^ 32 =
      omega (arith, small.discarded, small.room) in
    let e1 : wrap_sub 64 (length file.sections) file.num_discarded_sections ≡ n =
      omega (arith, small.discarded, small.room) in
    let e2 : u32 (n * sizeof_section_header) ≡ n * sizeof_section_header = omega arith in
    let up =
      align_up-Aligns 32 6 (n * sizeof_section_header) (omega arith) (omega arith) (omega arith) in
    rw (e1, e2)
      (
        omega (arith, up.0, up.1, small.discarded, small.room),
        omega (arith, up.0, up.1, small.discarded, small.room),
      )

-- The header counts the sections that are written, as `fixFileHeader` leaves it.
abbrev pub CountsSections : ElfFile → Type 0
CountsSections file =
    (file.header.shnum ≡ length file.sections - file.num_discarded_sections)
    × (file.header.shentsize ≡ sizeof_section_header)

-- The section headers end before the first section.
headers_fit :
    (file : ElfFile) (h : Header)
    → h ≡ file.header
    → CountsSections file
    → IsSmall file
    → h.shoff + h.shnum * h.shentsize ≤ first_offset file
headers_fit file h same counts small =
    subst (λ (x : Header). x.shoff + x.shnum * x.shentsize ≤ first_offset file) (sym same)
      (subst₂ (λ (x y : ℕ). file.header.shoff + x * y ≤ first_offset file) (sym counts.0)
        (sym counts.1) (first_offset_bounds file small).0)

abbrev InOrder : Rpl → List SectionHeader → Type 0
InOrder rpl hs = in_order rpl.header (completed rpl.header (bound_sections no_bounds hs)) ≡ true

bounds_of_Ranges :
    (rpl : Rpl) (start n : ℕ) (ss : List Section)
    → rpl.header.shoff + rpl.header.shnum * rpl.header.shentsize ≤ start
    → start + 4 * n < no_offset
    → Ranges start n ss
    → (hs : List SectionHeader)
    → ((a b c d e : ℕ)
        → All (λ (s : Section). InRanges a b c d e s.header) ss
        → All (InRanges a b c d e) hs)
    → InOrder rpl hs
bounds_of_Ranges rpl start n ss room small r hs moved =
    let order : (start ≤ r.read_start)
        × (r.read_start ≤ r.text_start)
        × (r.text_start ≤ r.temp_start)
        × (r.temp_start ≤ r.end) =
      (r.ordered.0, r.ordered.1, r.ordered.2, r.ordered.3) in
    let small' : r.end < no_offset = omega (arith, r.ordered) in
    let inside = moved start r.read_start r.text_start r.temp_start r.end r.located in
    completed-in_order start r.read_start r.text_start r.temp_start r.end small' order rpl.header _
      room
      (bound_sections-AllLie start r.read_start r.text_start r.temp_start r.end small' order
        no_bounds hs inside
        (inl (refl, refl), inl (refl, refl), inl (refl, refl), inl (refl, refl)))

-- The parts of a run that succeeds.
pub calculate_parts :
    (file file' : ElfFile)
    → calculate_section_offsets file ≡ ok file'
    → let placed = place_all file.sections (first_offset file) in
      (renumber_all placed placed ≡ ok file'.sections) × (file.header ≡ file'.header)
unfolding calculate_section_offsets
calculate_parts file file' run =
    let placed = place_all file.sections (first_offset file) in
    let (sections, r, final) = >>=-eq-ok (renumber_all placed placed) _ run in
    subst (λ (f : ElfFile). (renumber_all placed placed ≡ ok f.sections) × (file.header ≡ f.header))
      (ok-injective final) (r, refl)

-- If `calculateSectionOffsets` succeeds on a file whose exports are loaded and not writable, whose
-- header counts the sections that are written, and which is small enough for 32-bit offsets, then
-- a file with the resulting header and section headers passes readrpl's check of the bounds.
pub verify_file_bounds-calculate_section_offsets :
    (file file' : ElfFile) (rpl : Rpl)
    → All (λ (s : Section). IsRegularHeader s.header) file.sections
    → CountsSections file
    → IsSmall file
    → calculate_section_offsets file ≡ ok file'
    → rpl.header ≡ file'.header
    → map (λ (s : Rpl.Section). s.header) rpl.sections
      ≡ map (λ (s : Section). s.header) (written_sections file'.sections)
    → verify_file_bounds rpl ≡ true
unfolding verify_file_bounds
verify_file_bounds-calculate_section_offsets file file' rpl regular counts small run same_header
      same =
    let o = first_offset file in
    let placed = place_all file.sections o in
    let (renumbered, kept_header) = calculate_parts file file' run in
    let first = first_offset_bounds file small in
    let (start, after, before, ranges) =
      place_all-Ranges file.sections o (omega (arith, small.discarded, small.room)) regular in
    let room : rpl.header.shoff + rpl.header.shnum * rpl.header.shentsize ≤ start =
      le_trans (headers_fit file rpl.header (same_header ∙ sym kept_header) counts small) after in
    rw same (
      bounds_of_Ranges rpl start (total file.sections) placed room
        (omega (arith, small.discarded, small.room)) ranges _
        (λ a b c d e located. written-Placed a b c d e placed file'.sections renumbered located))
