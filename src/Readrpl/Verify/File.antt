-- ===== src/Readrpl/Verify/File.antt =====
-- `verifyFile`. Its sums are of 32 bits.
pub mod Sound
use wut_tools.Common.{
  ℕ, ◌+◌, ◌*◌, u32, Bool, true, false, ◌&&◌, ◌||◌, not, ◌==◌, ◌!=◌, leb, ltb, if◌then◌else◌, List,
  [], ◌∷◌, length, Run, ok, ◌>>=◌,
}
use wut_tools.Elf.Bytes.{sizeof_header, sizeof_section_header}
use wut_tools.Elf.Constants
use wut_tools.Elf.{Header, SectionHeader}
use wut_tools.Readrpl.Rpl.{Section, Rpl}
use wut_tools.Readrpl.Verify.RelocationTable.{section_at, validate_relocs_add_table}
use wut_tools.Readrpl.Verify.SymbolTable.{validate_symbol_table}

abbrev pub header_size : Header → ℕ
header_size h = if h.ehsize != 0 then h.ehsize else sizeof_header

-- A table's offset is unset, or behind the header and in the file.
abbrev pub offset_in_file : Rpl → ℕ → Bool
offset_in_file rpl offset =
    offset == 0 || not (ltb offset (header_size rpl.header) || leb rpl.file_size offset)

abbrev pub program_header_size : Header → ℕ
program_header_size h = if h.phentsize != 0 then h.phentsize else 32

abbrev pub section_header_size : Header → ℕ
section_header_size h = if h.shentsize != 0 then h.shentsize else sizeof_section_header

-- The end of the section headers.
abbrev pub headers_end : Header → ℕ
headers_end h = u32 (h.shoff + u32 (h.shnum * section_header_size h))

-- The checks before the loops, but that of the file's size.
unfoldable pub check_header : Rpl → Bool
check_header rpl =
    let h = rpl.header in
    h.magic == Constants.header_magic
    && (h.file_class == Constants.elfclass32)
    && leb h.elf_version Constants.ev_current
    && (h.machine != 0)
    && (h.version == 1)
    && (h.ehsize == 0 || leb sizeof_header h.ehsize)
    && offset_in_file rpl h.phoff
    && offset_in_file rpl h.shoff
    && (h.shstrndx == 0 || ltb h.shstrndx h.shnum)
    && (h.phoff == 0 || leb (u32 (h.phoff + program_header_size h * h.phnum)) rpl.file_size)
    && (h.shoff == 0 || leb (headers_end h) rpl.file_size)

-- A section's contents lie behind the header, and not in the section headers.
unfoldable pub check_offset : Header → SectionHeader → Bool
check_offset h s =
    s.size == 0
    || s.type == Constants.sht_nobits
    || (leb (header_size h) s.offset && not (leb h.shoff s.offset && ltb s.offset (headers_end h)))

unfoldable pub check_offsets : Header → List Section → Bool
unfolding check_offset
check_offsets h [] = true
check_offsets h (s ∷ ss) = check_offset h s.header && check_offsets h ss

unfoldable pub check_names : ℕ → List Section → Bool
check_names size [] = true
check_names size (s ∷ ss) = ltb s.header.name size && check_names size ss

unfoldable pub check_name_table : Rpl → Run Bool
unfolding check_names
check_name_table rpl =
    if rpl.header.shstrndx == 0
    then ok true
    else (section_at rpl rpl.header.shstrndx >>= λ strings.
        if strings.header.type != Constants.sht_strtab
        then ok false
        else ok (check_names (length strings.bytes) rpl.sections))

-- The check of one table.
unfoldable pub check_table : Rpl → Section → Run Bool
unfolding validate_relocs_add_table validate_symbol_table
check_table rpl s =
    if s.header.type == Constants.sht_rela
    then validate_relocs_add_table rpl s
    else if s.header.type == Constants.sht_symtab
    then validate_symbol_table rpl s
    else ok true

unfoldable pub check_tables : Rpl → Bool → List Section → Run Bool
unfolding check_table
check_tables rpl result [] = ok result
check_tables rpl result (s ∷ ss) =
    check_table rpl s >>= λ good. check_tables rpl (good && result) ss

unfoldable pub verify_file : Rpl → Run Bool
unfolding check_header check_offsets check_name_table check_tables
verify_file rpl =
    if ltb rpl.file_size 0x104
    then ok false
    else (check_name_table rpl >>= λ named.
        check_tables rpl (check_header rpl && check_offsets rpl.header rpl.sections && named)
          rpl.sections)
