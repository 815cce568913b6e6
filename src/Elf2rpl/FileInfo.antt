-- ===== src/Elf2rpl/FileInfo.antt =====
-- `generateFileInfoSection`.
pub mod Verified
use wut_tools.Common.{
  ℕ, ◌+◌, u32, Bool, ◌&&◌, ◌==◌, ◌!=◌, leb, ltb, if◌then◌else◌, List, [], ◌∷◌, ◌++◌, length,
}
use wut_tools.Elf.Bytes.{file_info_bytes}
use wut_tools.Elf.Constants
use wut_tools.Elf.{SectionHeader, RplFileInfo}
use wut_tools.Elf2rpl.File.{
  Section, ElfFile, uint32_max, code_base_address, data_base_address, load_base_address,
}
use wut_tools.Utils.{align_up, wrap_sub}

abbrev pub initial_info : ℕ → RplFileInfo
initial_info flags = record {
  version = 0xcafe0402;
  text_size = 0;
  text_align = 32;
  data_size = 0;
  data_align = 4096;
  load_size = 0;
  load_align = 32;
  temp_size = 0;
  tramp_adjust = 0;
  tramp_addition = 0;
  sda_base = 0;
  sda2_base = 0;
  stack_size = 0x10000;
  heap_size = 0x8000;
  filename = 0;
  flags = flags;
  min_version = 0x5078;
  compression_level = 6;
  file_info_pad = 0;
  cafe_sdk_version = 0x5335;
  cafe_sdk_revision = 0x10d4b;
  tls_align_shift = 0;
  tls_module_index = 0;
  runtime_file_info_size = 0;
  tag_offset = 0;
}

-- Where a section ends, counted from a base address.
abbrev pub end_from : ℕ → SectionHeader → ℕ
end_from base h = wrap_sub 32 (u32 (h.addr + h.size)) base

abbrev pub larger : ℕ → ℕ → ℕ
larger val size = if ltb size val then val else size

-- The size of a section's contents.
abbrev pub size_of : Section → ℕ
size_of s = if s.header.type == Constants.sht_nobits then s.header.size else u32 (length s.bytes)

abbrev pub counts_as_temp : SectionHeader → Bool
counts_as_temp h =
    h.addr == 0 && (h.type != Constants.sht_rpl_crcs) && (h.type != Constants.sht_rpl_fileinfo)

-- The body of the loop.
unfoldable pub count_section : RplFileInfo → Section → RplFileInfo
count_section info s =
    let h = s.header in
    if s.index == uint32_max
    then info
    else if leb code_base_address h.addr && ltb h.addr data_base_address
    then record info { text_size = larger (end_from code_base_address h) info.text_size }
    else if leb data_base_address h.addr && ltb h.addr load_base_address
    then record info { data_size = larger (end_from data_base_address h) info.data_size }
    else if leb load_base_address h.addr
    then record info { load_size = larger (end_from load_base_address h) info.load_size }
    else if counts_as_temp h
    then record info { temp_size = u32 (info.temp_size + u32 (size_of s + 128)) }
    else info

unfoldable pub count_sections : RplFileInfo → List Section → RplFileInfo
unfolding count_section
count_sections info [] = info
count_sections info (s ∷ ss) = count_sections (count_section info s) ss

unfoldable pub aligned_info : RplFileInfo → RplFileInfo
unfolding align_up
aligned_info info = record info {
  text_size = align_up 32 info.text_size info.text_align;
  data_size = align_up 32 info.data_size info.data_align;
  load_size = align_up 32 info.load_size info.load_align;
}

-- The section's header, which the function fills in.
abbrev pub info_header : SectionHeader
info_header = record {
  name = 0;
  type = Constants.sht_rpl_fileinfo;
  flags = 0;
  addr = 0;
  offset = 0;
  size = 0;
  link = 0;
  info = 0;
  addralign = 4;
  entsize = 0;
}

unfoldable pub generate_file_info_section : ℕ → ElfFile → ElfFile
unfolding count_sections aligned_info file_info_bytes
generate_file_info_section flags file =
    let info = aligned_info (count_sections (initial_info flags) file.sections) in
    record file {
      sections =
          file.sections
          ++ record { header = info_header; name = []; bytes = file_info_bytes info; index = 0 }
            ∷ [];
    }
