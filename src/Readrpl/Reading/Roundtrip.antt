-- ===== src/Readrpl/Reading/Roundtrip.antt =====
-- The whole way: `deflateSections`, `calculateSectionOffsets` and `writeRpl`, then the reading.
use wut_tools.Common.{
  ℕ, ◌+◌, ◌*◌, ◌≤◌, ◌<◌, ◌^◌, subst₂, ◌≡◌, refl, sym, ap, subst, ◌∙◌, arith, true, List, map,
  length, All, get_elem?, some, ok,
}
use wut_tools.Elf.Bytes.{header_bytes, sizeof_header, sizeof_section_header}
use wut_tools.Elf.Constants
use wut_tools.Elf.Headers.{FitsHeader, FitsSectionHeader}
use wut_tools.Elf2rpl.Deflate.{Deflate, deflate_each, deflate_sections}
use wut_tools.Elf2rpl.File.{Section, ElfFile}
use wut_tools.Elf2rpl.Offsets.Arranged.{HasEmptyNull, All-×, calculate_section_offsets-IsArranged}
use wut_tools.Elf2rpl.Offsets.Located.{All-weaken}
use wut_tools.Elf2rpl.Offsets.Unchanged.{HasNoBytes, calculate_section_offsets-blank}
use wut_tools.Elf2rpl.Offsets.Verified.{IsSmall, calculate_parts, first_offset_bounds}
use wut_tools.Elf2rpl.Offsets.{first_offset, calculate_section_offsets}
use wut_tools.Elf2rpl.Write.Held.{headers_table, IsHeld, write_rpl-IsHeld}
use wut_tools.Elf2rpl.Write.{written_sections, write_rpl}
use wut_tools.Readrpl.Reading.Names.{HasName, headers, contents, names, name_sections-total}
use wut_tools.Readrpl.Reading.Restored.{bytes_of, IsSound, sections_stored}
use wut_tools.Readrpl.Reading.Tables.{AllStored, all_loaded, IsSized, read_rpl_stored}
use wut_tools.Readrpl.Reading.{Inflate, Memory, read_rpl}
use wut_tools.Readrpl.Rpl.{Rpl}
use wut_tools.Elf.{Header}
use wut_tools.Files.Patches.{read_at}
use wut_tools.Readrpl.Reading.Converted.{
  names_of, written-blank, written_names-deflate_each, deflated-All, deflated_no_bytes,
  loaded_parts, get_elem?-contents, length-names_of, length-deflate_each, deflate_sections_parts,
}

-- What a file has behind `fixFileHeader`: sound sections, a header that fits and counts the sections
-- that are written, and a section of strings that names them.
pub record IsReady {Stream : Type 0} (zlib : Deflate Stream) (inflate : Inflate) (fuel : ℕ)
    (file : ElfFile) : Type 0 where
  pub sound : All (IsSound zlib inflate fuel) file.sections
  pub null : All HasEmptyNull file.sections
  pub fits : FitsHeader file.header
  pub magic : file.header.magic ≡ Constants.header_magic
  pub behind : sizeof_header ≤ file.header.shoff
  pub entry : file.header.shentsize ≡ sizeof_section_header
  pub count : file.header.shnum ≡ length (written_sections file.sections)
  pub discarded :
      length (written_sections file.sections) + file.num_discarded_sections ≡ length file.sections
  pub strings : List ℕ
  pub found :
      get_elem? (bytes_of (written_sections file.sections)) file.header.shstrndx ≡ some strings
  pub named : All (HasName strings) (names_of (written_sections file.sections))

-- What the output of elf2rpl is, read by readrpl.
pub record IsReadBack (memory : Memory) (inflate : Inflate) (file file2 : ElfFile) (out : List ℕ)
    : Type 0 where
  pub rpl : Rpl
  pub run : read_rpl inflate memory (some out) ≡ ok rpl
  pub header : rpl.header ≡ file.header
  pub section_headers :
      headers rpl.sections ≡ map (λ (s : Section). s.header) (written_sections file2.sections)
  pub data_ : contents rpl.sections ≡ bytes_of (written_sections file.sections)

-- Behind compression, sections of no contents still have no bytes.
pub deflated-bare :
    {Stream : Type 0} (zlib : Deflate Stream) (inflate : Inflate) (fuel : ℕ) (file file1 : ElfFile)
    → IsReady zlib inflate fuel file
    → deflate_each zlib fuel file.sections ≡ some (ok file1.sections)
    → All (λ s. HasEmptyNull s × HasNoBytes s) file1.sections
deflated-bare zlib inflate fuel file file1 ready each =
    deflated-All zlib inflate fuel (λ s. HasEmptyNull s × HasNoBytes s) file.sections file1.sections
      (deflated_no_bytes zlib inflate fuel) each
      (All-× HasEmptyNull HasNoBytes file.sections ready.null
        (All-weaken file.sections (λ s h. h.3) ready.sound))

-- The reading of an output that holds everything.
module _ {Stream : Type 0} (zlib : Deflate Stream) (inflate : Inflate) (fuel : ℕ) (memory : Memory)
    (file file2 : ElfFile) (out : List ℕ) (ready : IsReady zlib inflate fuel file) where
  stored_IsReadBack :
      IsSized memory
      → file2.header ≡ file.header
      → length (written_sections file2.sections) ≡ length (written_sections file.sections)
      → names_of (written_sections file2.sections) ≡ names_of (written_sections file.sections)
      → file.header.shoff + sizeof_section_header * length (written_sections file.sections) < 2 ^ 32
      → IsHeld out file2
      → AllStored inflate out
          (written_sections file2.sections)
          (bytes_of (written_sections file.sections))
      → IsReadBack memory inflate file file2 out
  stored_IsReadBack sized same count same_names room held stored =
      let written = written_sections file2.sections in
      let loaded = all_loaded written (bytes_of (written_sections file.sections)) in
      let (hs, cs, ns) = loaded_parts inflate out written _ stored in
      let (t, at, strings) =
        get_elem?-contents loaded file.header.shstrndx ready.strings
          (ap (λ xs. get_elem? xs file.header.shstrndx) cs ∙ ready.found) in
      let all_named : All (HasName t.bytes) (names loaded) =
        subst₂ (λ b xs. All (HasName b) xs) (sym strings) (sym (ns ∙ same_names)) ready.named in
      let (named, run, same_headers, same_contents) =
        name_sections-total t.bytes loaded all_named in
      let read =
        read_rpl_stored inflate memory out file.header written _ sized ready.fits ready.magic
          (ready.count ∙ sym count) ready.entry (omega (arith, count, room))
          (subst (λ (h : Header). read_at 0 (length (header_bytes h)) out ≡ header_bytes h) same
            held.header)
          (subst
            (λ (h : Header).
              read_at h.shoff (length (headers_table written)) out ≡ headers_table written)
            same held.table)
          stored in
      record {
        rpl = record { header = file.header; file_size = memory.file_size; sections = named };
        run = read ∙ rw (at, run) refl;
        header = refl;
        section_headers = same_headers ∙ hs;
        data_ = same_contents ∙ cs;
      }

-- If a file as `fixFileHeader` leaves it has sound sections, a header that counts those that are
-- written and a section of strings that names them, if `deflateSections` and
-- `calculateSectionOffsets` succeed on it, if it is small enough for 32-bit offsets, if the fields of
-- the section headers that are written fit their widths, and if the buffers that readrpl reads into
-- have the sizes of the structs, then `writeRpl` gives an output which readrpl's reading accepts, and
-- gives back: the file header, the headers of the sections that are written, in their order, and
-- the contents that the sections had before compression.
pub read_rpl-write_rpl :
    {Stream : Type 0} (zlib : Deflate Stream) (inflate : Inflate) (fuel : ℕ) (memory : Memory)
    (file file1 file2 : ElfFile)
    → IsReady zlib inflate fuel file
    → IsSized memory
    → deflate_sections zlib fuel file ≡ some (ok file1)
    → IsSmall file1
    → calculate_section_offsets file1 ≡ ok file2
    → All (λ (s : Section). FitsSectionHeader s.header) (written_sections file2.sections)
    → (out : List ℕ) × (write_rpl true file2 ≡ ok out) × IsReadBack memory inflate file file2 out
read_rpl-write_rpl zlib inflate fuel memory file file1 file2 ready sized deflated small placed
      fits =
    let (each, kept) = deflate_sections_parts zlib fuel file file1 deflated in
    let (renumbered, kept') = calculate_parts file1 file2 placed in
    let header1 : file1.header ≡ file.header = sym (ap (λ (f : ElfFile). f.header) kept) in
    let count1 : file1.num_discarded_sections ≡ file.num_discarded_sections =
      sym (ap (λ (f : ElfFile). f.num_discarded_sections) kept) in
    let header2 : file2.header ≡ file.header = sym kept' ∙ header1 in
    let empty = deflated-bare zlib inflate fuel file file1 ready each in
    let same =
      calculate_section_offsets-blank file1 file2 (All-weaken file1.sections (λ s h. h.1) empty)
        placed in
    let same_names =
      written-blank (λ s. s.header.name) (λ s. refl) file2.sections file1.sections same
      ∙ written_names-deflate_each zlib inflate fuel file.sections file1.sections each in
    let count : length (written_sections file2.sections) ≡ length (written_sections file.sections) =
      sym (length-names_of (written_sections file2.sections))
      ∙ ap length same_names
      ∙ length-names_of (written_sections file.sections) in
    let all_count = length-deflate_each zlib fuel file.sections file1.sections each in
    let start : file1.header.shoff ≡ file.header.shoff = ap (λ (h : Header). h.shoff) header1 in
    let start2 : file2.header.shoff ≡ file.header.shoff = ap (λ (h : Header). h.shoff) header2 in
    let first = first_offset_bounds file1 small in
    let lo = first_offset file1 in
    let (hi, arranged) =
      calculate_section_offsets-IsArranged file1 file2 small (omega (arith, start, ready.behind))
        (All-weaken file1.sections (λ s h. h.0) empty) placed in
    let room : file.header.shoff + sizeof_section_header * length (written_sections file.sections)
        ≤ lo =
      omega (arith, first.0, start, count1, all_count, ready.discarded) in
    let (out, run, held) =
      write_rpl-IsHeld file2 lo hi (subst FitsHeader (sym header2) ready.fits)
        (omega (arith, start2, ready.behind)) (omega (arith, start2, count, room)) arranged in
    let stored =
      sections_stored zlib inflate fuel out lo hi file.sections file1.sections file2.sections each
        same ready.sound arranged.placed held.contents fits in
    (
      out,
      run,
      stored_IsReadBack zlib inflate fuel memory file file2 out ready sized header2 count same_names
          (omega (arith, room, first.1, small.room, start, count1, all_count, ready.discarded)) held
          stored,
    )
