-- ===== src/Elf2rpl/File.antt =====
-- `ElfFile` and its sections. A discarded section has the index `UINT32_MAX`.
use wut_tools.Common.{ℕ, List, Run, access, get_elem?}
use wut_tools.Elf.{Header, SectionHeader}

pub record Section : Type 0 where
  pub header : SectionHeader
  pub name : List ℕ
  pub bytes : List ℕ
  pub index : ℕ

pub record ElfFile : Type 0 where
  pub header : Header
  pub sections : List Section
  pub num_discarded_sections : ℕ

abbrev pub uint32_max : ℕ
uint32_max = 0xffffffff

abbrev pub deflate_min_section_size : ℕ
deflate_min_section_size = 0x18

abbrev pub code_base_address : ℕ
code_base_address = 0x02000000

abbrev pub data_base_address : ℕ
data_base_address = 0x10000000

abbrev pub load_base_address : ℕ
load_base_address = 0xc0000000

-- `file.sections[i]`, which must be in range
abbrev pub section_at : List Section → ℕ → Run Section
section_at sections i = access (get_elem? sections i)
