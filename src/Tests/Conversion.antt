-- ===== src/Tests/Conversion.antt =====
-- The tests of src/elf2rpl on small files.
use wut_tools.Common.{
  ℕ, ◌+◌, ◌<◌, ◌^◌, ◌≡◌, refl, arith, true, List, [], ◌∷◌, ◌++◌, map, All, replicate, ok, some,
  length, take,
}
use wut_tools.Elf.Bytes.{header_bytes, section_header_bytes}
use wut_tools.Elf2rpl.Crc.{Crc32, generate_crc_section}
use wut_tools.Elf2rpl.Crc.Verified.{IsPlain, verify_crcs-generate_crc_section}
use wut_tools.Elf2rpl.File.{Section, ElfFile, uint32_max, load_base_address}
use wut_tools.Elf2rpl.FileHeader.{fix_file_header}
use wut_tools.Elf2rpl.FileHeader.Verified.{IsLaidOut, fix_file_header-IsLaidOut}
use wut_tools.Elf2rpl.Loader.{
  moved, move_symbol, move_rela, change_table, move_entries, change_at, relocate_section, load_max,
  move_tables, fix_loader_virtual_addresses,
}
use wut_tools.Elf2rpl.Loader.Verified.{
  info, space, HasAlignment, IsStacked, fix_loader_virtual_addresses-IsStacked,
}
use wut_tools.Elf2rpl.Offsets.{calculate_section_offsets}
use wut_tools.Elf2rpl.Offsets.Groups.{IsRegularHeader}
use wut_tools.Elf2rpl.Offsets.Verified.{IsSmall, verify_file_bounds-calculate_section_offsets}
use wut_tools.Elf2rpl.Reading.{read_elf}
use wut_tools.Elf2rpl.Reading.Verified.{IsNumbered, read_elf-IsNumbered}
use wut_tools.Elf2rpl.Relocations.{Fixing, fix_relas, fix_relocations}
use wut_tools.Elf2rpl.Relocations.Laws.{Steps, Clean, fix_relas-Steps}
use wut_tools.Elf2rpl.Relocations.Verified.{
  IsRegular, loaded, verify_relocation_types-fix_relocations,
}
use wut_tools.Elf2rpl.Write.{written_sections}
use wut_tools.Readrpl.Rpl
use wut_tools.Readrpl.Rpl.{Rpl}
use wut_tools.Readrpl.Verify.Crcs.{verify_crcs}
use wut_tools.Readrpl.Verify.FileBounds.{verify_file_bounds}
use wut_tools.Readrpl.Verify.RelocationTypes.{verify_relocation_types}
use wut_tools.Tests.Files.{
  program, result_of, header_at, symbols, relas, sections, elf_header, file, rpl_of, placed, last,
}

abbrev fixed : ElfFile
fixed = result_of file (fix_relocations file)

fix_relocations_run : fix_relocations file ≡ ok fixed
unfolding program
fix_relocations_run = refl

sections-IsRegular : All IsRegular file.sections
unfolding program
sections-IsRegular = ground arith

verify_relocation_types-fix_relocations_example :
    verify_relocation_types (rpl_of elf_header fixed.sections) ≡ true
verify_relocation_types-fix_relocations_example =
    verify_relocation_types-fix_relocations file fixed (rpl_of elf_header fixed.sections)
      sections-IsRegular fix_relocations_run refl

-- Of the two relocations, the second is split.
fixed_size : map (λ (s : Section). length s.bytes) fixed.sections ≡ 0 ∷ 40 ∷ 32 ∷ 36 ∷ []
unfolding program
fixed_size = refl

abbrev clean : Fixing
clean = record { new_relocations = []; unsupported_types = []; result = true }

relas-Clean : Clean (fix_relas symbols relas clean).1
unfolding program
relas-Clean = (refl, refl)

fix_relas-Steps_example : Steps symbols relas clean
fix_relas-Steps_example = fix_relas-Steps symbols relas clean relas-Clean

calculate_run : calculate_section_offsets file ≡ ok placed
unfolding program
calculate_run = refl

sections-IsRegularHeader : All (λ (s : Section). IsRegularHeader s.header) file.sections
sections-IsRegularHeader = ground arith

file-IsSmall : IsSmall file
unfolding program
file-IsSmall = record { discarded = omega arith; room = omega arith }

headers_same :
    map (λ (s : Rpl.Section). s.header) (map loaded (written_sections placed.sections))
    ≡ map (λ (s : Section). s.header) (written_sections placed.sections)
unfolding program
headers_same = refl

verify_file_bounds-calculate_section_offsets_example :
    verify_file_bounds (rpl_of placed.header (written_sections placed.sections)) ≡ true
verify_file_bounds-calculate_section_offsets_example =
    verify_file_bounds-calculate_section_offsets file placed
      (rpl_of placed.header (written_sections placed.sections)) sections-IsRegularHeader
      (refl, refl) file-IsSmall calculate_run refl headers_same

-- A checksum that adds bytes.
abbrev sum_of : List ℕ → ℕ
sum_of [] = 0
sum_of (b ∷ bs) = b + sum_of bs

abbrev sum_zlib : Crc32
sum_zlib = record { initial = 0; update = λ crc bytes. crc + sum_of bytes }

abbrev summed : ElfFile
summed = result_of file (generate_crc_section sum_zlib file)

generate_crc_run : generate_crc_section sum_zlib file ≡ ok summed
unfolding program
generate_crc_run = refl

abbrev front : List Section
front = take 3 sections

front-IsPlain : All IsPlain front
front-IsPlain = ground arith

verify_crcs-generate_crc_section_example :
    verify_crcs sum_zlib (rpl_of elf_header (written_sections summed.sections)) ≡ ok true
verify_crcs-generate_crc_section_example =
    verify_crcs-generate_crc_section sum_zlib file summed
      (rpl_of elf_header (written_sections summed.sections)) front last refl (λ e. ground arith)
      front-IsPlain (λ e. ground arith) generate_crc_run refl

abbrev headed : ElfFile
headed = result_of file (fix_file_header file)

fix_file_header_run : fix_file_header file ≡ ok headed
unfolding program
fix_file_header_run = refl

header_kept : IsLaidOut headed × (sections ≡ headed.sections)
header_kept = fix_file_header-IsLaidOut file headed (omega arith) (omega arith) fix_file_header_run

-- An ELF file of two sections: the names, and a debugging section.
abbrev names : List ℕ
names = 0 ∷ 46 ∷ 100 ∷ 101 ∷ 98 ∷ 117 ∷ 103 ∷ 95 ∷ 120 ∷ 0 ∷ []

abbrev elf_bytes : List ℕ
elf_bytes =
    header_bytes (record elf_header { shnum = 2; shstrndx = 0; shoff = 52 })
    ++ section_header_bytes (record (header_at 3 0 0 10 0 0) { offset = 132 })
    ++ section_header_bytes (record (header_at 1 0 0 4 0 0) { offset = 132; name = 1 })
    ++ names

abbrev elf : ElfFile
elf = result_of file (read_elf (some elf_bytes) (replicate 52 0))

read_elf_run : read_elf (some elf_bytes) (replicate 52 0) ≡ ok elf
unfolding program
read_elf_run = refl

elf_indices : map (λ (s : Section). s.index) elf.sections ≡ 0 ∷ uint32_max ∷ []
unfolding program
elf_indices = refl

elf_shnum : elf.header.shnum < 2 ^ 16
unfolding program
elf_shnum = omega arith

read_elf-IsNumbered_example :
    IsNumbered 0 elf.num_discarded_sections elf.sections × (length elf.sections ≡ elf.header.shnum)
read_elf-IsNumbered_example =
    read_elf-IsNumbered (some elf_bytes) (replicate 52 0) elf read_elf_run elf_shnum

-- `.symtab` and `.strtab`, linked at 0
abbrev unplaced : ElfFile
unplaced = record file {
  sections =
      record { header = header_at 2 0 0 32 0 0; name = []; bytes = symbols; index = 0 }
      ∷ record { header = header_at 3 0 0 10 0 0; name = []; bytes = names; index = 1 }
      ∷ [];
}

unplaced-HasAlignment : All HasAlignment (map info unplaced.sections)
unplaced-HasAlignment = (λ t. (2, refl, omega arith), ((λ t. (2, refl, omega arith)), tt))

unplaced_room :
    load_max load_base_address unplaced.sections + space (map info unplaced.sections) < 2 ^ 32
unfolding load_max
unplaced_room = omega arith

fix_loader_virtual_addresses-IsStacked_example :
    IsStacked
      (load_max load_base_address unplaced.sections)
      (map info (fix_loader_virtual_addresses unplaced).sections)
fix_loader_virtual_addresses-IsStacked_example =
    fix_loader_virtual_addresses-IsStacked unplaced unplaced-HasAlignment unplaced_room

loader_addresses :
    map (λ (s : Section). s.header.addr) (fix_loader_virtual_addresses unplaced).sections
    ≡ 0xc0000000 ∷ 0xc0000020 ∷ []
unfolding program moved move_symbol move_rela change_table move_entries change_at relocate_section
    load_max move_tables fix_loader_virtual_addresses
loader_addresses = refl
