-- ===== src/Elf2rpl/FileHeader/Verified.antt =====
-- `fixFileHeader` and what the header counts.
use wut_tools.Common.{
  ◌-◌, ◌<◌, ◌≤◌, ◌^◌, ◌%◌, ◌≡◌, refl, subst, arith, u16, length, ok, >>=-eq-ok, ok-injective,
}
use wut_tools.Elf.Bytes.{sizeof_header}
use wut_tools.Elf2rpl.File.{ElfFile, section_at}
use wut_tools.Elf2rpl.FileHeader.{fixed_header, fix_file_header}
use wut_tools.Elf2rpl.Offsets.Verified.{CountsSections}
use wut_tools.Utils.{align_up, wrap_sub}

-- The header is followed by the section headers, and counts them.
abbrev pub IsLaidOut : ElfFile → Type 0
IsLaidOut file =
    CountsSections file × (sizeof_header ≤ file.header.shoff) × (file.header.shoff % 64 ≡ 0)

-- If `fixFileHeader` succeeds on fewer than 65536 sections, then the header that it leaves counts
-- the sections that are not discarded and places their headers, aligned to 64, behind itself; the
-- sections stay.
pub fix_file_header-IsLaidOut :
    (file file' : ElfFile)
    → file.num_discarded_sections ≤ length file.sections
    → length file.sections < 2 ^ 16
    → fix_file_header file ≡ ok file'
    → IsLaidOut file' × (file.sections ≡ file'.sections)
unfolding fix_file_header fixed_header align_up
fix_file_header-IsLaidOut file file' discarded small run =
    let (names, _, final) = >>=-eq-ok (section_at file.sections file.header.shstrndx) _ run in
    let count : u16 (wrap_sub 64 (length file.sections) file.num_discarded_sections)
        ≡ length file.sections - file.num_discarded_sections =
      omega arith in
    subst (λ (f : ElfFile). IsLaidOut f × (file.sections ≡ f.sections)) (ok-injective final)
      (((count, refl), omega arith, refl), refl)
