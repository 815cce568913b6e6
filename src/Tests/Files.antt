-- ===== src/Tests/Files.antt =====
-- Small ELF files.
use wut_tools.Common.{
  ℕ, List, [], ◌∷◌, map, replicate, Run, ok, failed, fault, before_last, padded, contains,
}
use wut_tools.Elf.Bytes.{
  symbol_bytes, rela_bytes, table, table_bytes, symbol_of, rela_of, read_8, read_16, read_32,
  header_bytes, section_header_bytes, file_info_bytes, header_of, section_header_of, c_string,
}
use wut_tools.Elf.Constants
use wut_tools.Elf.{Header, SectionHeader, Rela}
use wut_tools.Elf2rpl.Crc.{crc_of, generate_crc_section}
use wut_tools.Elf2rpl.File.{Section, ElfFile}
use wut_tools.Elf2rpl.FileHeader.{fixed_header, fix_file_header}
use wut_tools.Elf2rpl.FileInfo.{
  count_section, count_sections, aligned_info, generate_file_info_section,
}
use wut_tools.Elf2rpl.Loader.Verified.{info}
use wut_tools.Elf2rpl.Offsets.{
  first_offset, reset_offset, clear_empty, place_at, place, is_data, is_read, is_text, is_temp,
  place_groups, place_all, new_link, new_info, renumber, renumber_all, calculate_section_offsets,
}
use wut_tools.Elf2rpl.Offsets.Place.{total}
use wut_tools.Elf2rpl.Reading.{
  same_text, read_into, seek, with_write_flag, read_section, read_sections, name_sections,
  is_debugging, discard, mark_sections, read_elf,
}
use wut_tools.Elf2rpl.Relocations.{
  get_symbol, high_half, low_half, fix_rela, fix_relas, fix_rela_section, fix_section, fix_sections,
  fix_relocations,
}
use wut_tools.Elf2rpl.Relocations.Verified.{loaded}
use wut_tools.Elf2rpl.Write.{written_sections}
use wut_tools.Readrpl.Rpl.{Rpl}
use wut_tools.Readrpl.Verify.File.{
  check_header, check_offset, check_offsets, check_names, check_name_table, check_table,
  check_tables, verify_file,
}
use wut_tools.Readrpl.Verify.RelocationTable.{
  info_at, check_infos, validate_against, validate_relocs_add_table,
}
use wut_tools.Readrpl.Verify.SymbolTable.{
  target_size, is_outside, symbol_name, check_object, check_function, check_symbol, symbol_at,
  check_symbols, validate_symbols, validate_symbol_table,
}
use wut_tools.Utils.{align_up}

unfoldable pub program : Unit {0}
unfolding contains before_last padded symbol_bytes rela_bytes table table_bytes symbol_of rela_of
    read_8 read_16 read_32 header_bytes section_header_bytes file_info_bytes header_of
    section_header_of c_string crc_of generate_crc_section fixed_header fix_file_header
    count_section count_sections aligned_info generate_file_info_section first_offset reset_offset
    clear_empty place_at place is_data is_read is_text is_temp place_groups place_all new_link
    new_info renumber renumber_all calculate_section_offsets total same_text read_into seek
    with_write_flag read_section read_sections name_sections is_debugging discard mark_sections
    read_elf get_symbol high_half low_half fix_rela fix_relas fix_rela_section fix_section
    fix_sections fix_relocations written_sections align_up
program = tt

unfoldable pub checks : Unit {0}
unfolding info_at check_infos validate_against validate_relocs_add_table target_size is_outside
    symbol_name check_object check_function check_symbol symbol_at check_symbols validate_symbols
    validate_symbol_table check_header check_offset check_offsets check_names check_name_table
    check_table check_tables verify_file
checks = tt

-- The result of a run, or another value where it does not end normally.
abbrev pub result_of {ℓ} : {A : Type ℓ} → A → Run A → A
result_of other (ok a) = a
result_of other failed = other
result_of other fault = other

abbrev pub header_at : ℕ → ℕ → ℕ → ℕ → ℕ → ℕ → SectionHeader
header_at type flags addr size link info = record {
  name = 0;
  type = type;
  flags = flags;
  addr = addr;
  offset = 0;
  size = size;
  link = link;
  info = info;
  addralign = 4;
  entsize = 0;
}

abbrev pub symbols : List ℕ
symbols = replicate 32 0

-- A R_PPC_ADDR32 and a R_PPC_REL32 against symbol 1
abbrev pub relas : List Rela
relas =
    record { offset = 0x02000010; info = 0x101; addend = 0 }
    ∷ record { offset = 0x02000020; info = 0x11a; addend = 4 }
    ∷ []

abbrev pub code : List ℕ
code = replicate 40 7

abbrev pub sections : List Section
sections =
    record { header = header_at 0 0 0 0 0 0; name = []; bytes = []; index = 0 }
    ∷ record { header = header_at 1 6 0x02000000 40 0 0; name = []; bytes = code; index = 1 }
    ∷ record { header = header_at 2 2 0xc0000000 32 0 0; name = []; bytes = symbols; index = 2 }
    ∷ record {
      header = header_at 4 0 0 24 2 1;
      name = [];
      bytes = table_bytes rela_bytes relas;
      index = 3;
    }
    ∷ []

abbrev pub elf_header : Header
elf_header = record {
  magic = Constants.header_magic;
  file_class = 1;
  encoding = 2;
  elf_version = 1;
  abi = 0;
  pad = replicate 7 0;
  type = 2;
  machine = 20;
  version = 1;
  entry = 0x02000000;
  phoff = 0;
  shoff = 64;
  flags = 0;
  ehsize = 52;
  phentsize = 0;
  phnum = 0;
  shentsize = 40;
  shnum = 4;
  shstrndx = 1;
}

abbrev pub file : ElfFile
file = record { header = elf_header; sections = sections; num_discarded_sections = 0 }

abbrev pub rpl_of : Header → List Section → Rpl
rpl_of h ss = record { header = h; file_size = 4096; sections = map loaded ss }

abbrev pub placed : ElfFile
placed = result_of file (calculate_section_offsets file)

abbrev pub last : Section
last = record {
  header = header_at 4 0 0 24 2 1;
  name = [];
  bytes = table_bytes rela_bytes relas;
  index = 3;
}
