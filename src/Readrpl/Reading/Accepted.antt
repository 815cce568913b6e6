-- ===== src/Readrpl/Reading/Accepted.antt =====
-- The checks of readrpl on what it reads of the output of elf2rpl.
use wut_tools.Common.{
  ℕ, ◌+◌, ◌-◌, ◌≡◌, ◌≢◌, refl, sym, ap, subst, ◌∙◌, arith, Bool, true, false, Option, none, some,
  failed, fault, if◌then◌else◌, ◌!=◌, ◌>>=◌, List, [], ◌∷◌, ◌++◌, map, length, All, ok, >>=-eq-ok,
  ok-injective,
}
use wut_tools.Elf.Headers.{FitsSectionHeader}
use wut_tools.Elf.{SectionHeader}
use wut_tools.Elf2rpl.Crc.{Crc32, generate_crc_section}
use wut_tools.Elf2rpl.Crc.Verified.{IsPlain, verify_crcs-generate_crc_section}
use wut_tools.Elf2rpl.Deflate.{Deflate, deflate_each, deflate_sections}
use wut_tools.Elf2rpl.File.{Section, ElfFile, uint32_max, section_at}
use wut_tools.Elf2rpl.FileHeader.{fix_file_header}
use wut_tools.Elf2rpl.Offsets.Groups.{IsRegularHeader}
use wut_tools.Elf2rpl.Offsets.Located.{All-weaken}
use wut_tools.Elf2rpl.Offsets.Unchanged.{blank, calculate_section_offsets-blank}
use wut_tools.Elf2rpl.Offsets.Verified.{
  IsSmall, CountsSections, calculate_parts, verify_file_bounds-calculate_section_offsets,
}
use wut_tools.Elf2rpl.Offsets.{calculate_section_offsets}
use wut_tools.Elf2rpl.Relocations.Verified.{loaded}
use wut_tools.Elf2rpl.Write.{written_sections, write_rpl}
use wut_tools.Readrpl.Reading.Converted.{
  deflate_sections_parts, length-deflate_each, types_of, written-blank, written_types-deflate_each,
}
use wut_tools.Readrpl.Reading.Names.{headers, contents}
use wut_tools.Readrpl.Reading.Roundtrip.{IsReady, deflated-bare, read_rpl-write_rpl}
use wut_tools.Readrpl.Reading.Restored.{bytes_of}
use wut_tools.Readrpl.Reading.Tables.{IsSized}
use wut_tools.Readrpl.Reading.{Inflate, Memory, read_rpl}
use wut_tools.Readrpl.Rpl
use wut_tools.Readrpl.Rpl.{Rpl}
use wut_tools.Readrpl.Verify.Crcs.{find_crcs, expected_crc, check_crcs, verify_crcs, crc_at}
use wut_tools.Readrpl.Verify.FileBounds.{verify_file_bounds}

abbrev types : List Rpl.Section → List ℕ
types = map (λ s. s.header.type)

-- The check of the checksums goes by the types and the contents of the sections.
find_crcs_same :
    (ss ts : List Rpl.Section)
    → types ss ≡ types ts
    → contents ss ≡ contents ts
    → find_crcs ss ≡ find_crcs ts
unfolding find_crcs
find_crcs_same [] [] e e' = refl
find_crcs_same [] (t ∷ ts) e e' = absurd (cc)
find_crcs_same (s ∷ ss) [] e e' = absurd (cc)
find_crcs_same (s ∷ ss) (t ∷ ts) e e' =
    let type : s.header.type ≡ t.header.type = cc in
    let bytes : s.bytes ≡ t.bytes = cc in
    let more = find_crcs_same ss ts (cc) (cc) in rw (type, bytes, more) refl

module _ (crc : Crc32) where
  check_crcs_same :
      (crcs : List ℕ) (ss ts : List Rpl.Section) (i : ℕ) (result : Bool)
      → types ss ≡ types ts
      → contents ss ≡ contents ts
      → check_crcs crc crcs i result ss ≡ check_crcs crc crcs i result ts
  unfolding check_crcs expected_crc
  check_crcs_same crcs [] [] i result e e' = refl
  check_crcs_same crcs [] (t ∷ ts) i result e e' = absurd (cc)
  check_crcs_same crcs (s ∷ ss) [] i result e e' = absurd (cc)
  check_crcs_same crcs (s ∷ ss) (t ∷ ts) i result e e' =
      let type : s.header.type ≡ t.header.type = cc in
      let bytes : s.bytes ≡ t.bytes = cc in
      let types' : types ss ≡ types ts = cc in
      let bytes' : contents ss ≡ contents ts = cc in
      let one : expected_crc crc s ≡ expected_crc crc t = rw (type, bytes) refl in
      elim (crc_at crcs i)
        as (λ r.
          (r >>= λ c.
          check_crcs crc crcs (i + 1) (if expected_crc crc s != c then false else result) ss)
          ≡ (r >>= λ c.
              check_crcs crc crcs (i + 1) (if expected_crc crc t != c then false else result) ts)) [
                | ok c ↦
                    ap (λ n. check_crcs crc crcs (i + 1) (if n != c then false else result) ss) one
                    ∙ check_crcs_same crcs ss ts (i + 1)
                        (if expected_crc crc t != c then false else result) types' bytes'
                | failed ↦ refl
                | fault ↦ refl
              ]

  verify_crcs_same :
      (rpl rpl' : Rpl)
      → types rpl.sections ≡ types rpl'.sections
      → contents rpl.sections ≡ contents rpl'.sections
      → verify_crcs crc rpl' ≡ ok true
      → verify_crcs crc rpl ≡ ok true
  unfolding verify_crcs
  verify_crcs_same rpl rpl' e e' run =
      go (find_crcs rpl'.sections) (find_crcs_same rpl.sections rpl'.sections e e') refl
    where
      go :
          (found : Option (List ℕ))
          → find_crcs rpl.sections ≡ found
          → find_crcs rpl'.sections ≡ found
          → verify_crcs crc rpl ≡ ok true
      go none e1 e2 = absurd (let e3 : ok false ≡ ok true = rw (verify_crcs, e2) at run in cc)
      go (some crcs) e1 e2 =
          rw (verify_crcs, e1)
            (check_crcs_same crcs rpl.sections rpl'.sections 0 true e e'
              ∙ (rw (verify_crcs, e2) at run))

fix_file_header-sections :
    (file file' : ElfFile) → fix_file_header file ≡ ok file' → file.sections ≡ file'.sections
unfolding fix_file_header
fix_file_header-sections file file' run =
    let (names, _, final) = >>=-eq-ok (section_at file.sections file.header.shstrndx) _ run in
    ap (λ (f : ElfFile). f.sections) (ok-injective final)

headers-types :
    (ss : List Rpl.Section) → map (λ (h : SectionHeader). h.type) (headers ss) ≡ types ss
headers-types [] = refl
headers-types (s ∷ ss) = ap (◌∷◌ (s.header.type)) (headers-types ss)

section_types :
    (ss : List Section)
    → map (λ (h : SectionHeader). h.type) (map (λ (s : Section). s.header) ss) ≡ types_of ss
section_types [] = refl
section_types (s ∷ ss) = ap (◌∷◌ (s.header.type)) (section_types ss)

loaded-types : (ss : List Section) → types (map loaded ss) ≡ types_of ss
loaded-types [] = refl
loaded-types (s ∷ ss) = ap (◌∷◌ (s.header.type)) (loaded-types ss)

loaded-contents : (ss : List Section) → contents (map loaded ss) ≡ bytes_of ss
loaded-contents [] = refl
loaded-contents (s ∷ ss) = ap (◌∷◌ (s.bytes)) (loaded-contents ss)

-- The types that are read are those of the sections before compression.
read_types :
    {Stream : Type 0} (zlib : Deflate Stream) (inflate : Inflate) (fuel : ℕ)
    (ss ss1 ss2 : List Section) (read : List Rpl.Section)
    → deflate_each zlib fuel ss ≡ some (ok ss1)
    → map blank ss2 ≡ map blank ss1
    → headers read ≡ map (λ (s : Section). s.header) (written_sections ss2)
    → types read ≡ types_of (written_sections ss)
read_types zlib inflate fuel ss ss1 ss2 read each same e =
    sym (headers-types read)
    ∙ ap (map (λ (h : SectionHeader). h.type)) e
    ∙ section_types (written_sections ss2)
    ∙ written-blank (λ s. s.header.type) (λ s. refl) ss2 ss1 same
    ∙ written_types-deflate_each zlib inflate fuel ss ss1 each

-- The header still counts the sections.
deflated_counts :
    {Stream : Type 0} (zlib : Deflate Stream) (inflate : Inflate) (fuel : ℕ) (file file1 : ElfFile)
    → IsReady zlib inflate fuel file
    → deflate_sections zlib fuel file ≡ some (ok file1)
    → (file1.header ≡ file.header) × CountsSections file1
deflated_counts zlib inflate fuel file file1 ready deflated =
    let (each, same) = deflate_sections_parts zlib fuel file file1 deflated in
    let n = length-deflate_each zlib fuel file.sections file1.sections each in
    let count : file.header.shnum ≡ length file1.sections - file.num_discarded_sections =
      omega (arith, n, ready.count, ready.discarded) in
    (sym (ap (λ (f : ElfFile). f.header) same), subst CountsSections same (count, ready.entry))

-- If `generateCrcSection` and `fixFileHeader` succeed on a file whose last section is kept and none of
-- whose sections holds checksums, and under the conditions of the way back for the result, with
-- exports that are loaded and not writable, then what readrpl reads of the output of elf2rpl passes
-- its check of the checksums and its check of the bounds.
pub verify_crcs-read_rpl :
    {Stream : Type 0} (crc : Crc32) (zlib : Deflate Stream) (inflate : Inflate) (fuel : ℕ)
    (memory : Memory) (elf elf1 file file1 file2 : ElfFile) (front : List Section) (last : Section)
    → elf.sections ≡ front ++ last ∷ []
    → last.index ≢ uint32_max
    → All IsPlain front
    → IsPlain last
    → generate_crc_section crc elf ≡ ok elf1
    → fix_file_header elf1 ≡ ok file
    → IsReady zlib inflate fuel file
    → IsSized memory
    → deflate_sections zlib fuel file ≡ some (ok file1)
    → IsSmall file1
    → All (λ (s : Section). IsRegularHeader s.header) file1.sections
    → calculate_section_offsets file1 ≡ ok file2
    → All (λ (s : Section). FitsSectionHeader s.header) (written_sections file2.sections)
    → (out : List ℕ) × (rpl : Rpl) × (write_rpl true file2 ≡ ok out)
      × (read_rpl inflate memory (some out) ≡ ok rpl)
      × (verify_crcs crc rpl ≡ ok true)
      × (verify_file_bounds rpl ≡ true)
verify_crcs-read_rpl crc zlib inflate fuel memory elf elf1 file file1 file2 front last shape kept
      plain plain_last generated fixed ready sized deflated small regular placed fits =
    let (each, same_file) = deflate_sections_parts zlib fuel file file1 deflated in
    let (out, written, back) =
      read_rpl-write_rpl zlib inflate fuel memory file file1 file2 ready sized deflated small placed
        fits in
    let whole : Rpl = record {
      header = file.header;
      file_size = 0;
      sections = map loaded (written_sections elf1.sections);
    } in
    let good =
      verify_crcs-generate_crc_section crc elf elf1 whole front last shape kept plain plain_last
        generated refl in
    let sections = fix_file_header-sections elf1 file fixed in
    let same =
      calculate_section_offsets-blank file1 file2
        (All-weaken file1.sections (λ s h. h.1)
          (deflated-bare zlib inflate fuel file file1 ready each))
        placed in
    let same_types =
      read_types zlib inflate fuel file.sections file1.sections file2.sections back.rpl.sections
        each same back.section_headers
      ∙ ap (λ ss. types_of (written_sections ss)) (sym sections)
      ∙ sym (loaded-types (written_sections elf1.sections)) in
    let same_contents =
      back.data_
      ∙ ap (λ ss. bytes_of (written_sections ss)) (sym sections)
      ∙ sym (loaded-contents (written_sections elf1.sections)) in
    let (header1, counts) = deflated_counts zlib inflate fuel file file1 ready deflated in
    (
      out,
      back.rpl,
      written,
      back.run,
      verify_crcs_same crc back.rpl whole same_types same_contents good,
      verify_file_bounds-calculate_section_offsets file1 file2 back.rpl regular counts small placed
          (back.header ∙ sym header1 ∙ (calculate_parts file1 file2 placed).1) back.section_headers,
    )
