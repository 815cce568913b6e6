-- ===== src/Elf2rpl/Crc.antt =====
-- `generateCrcSection`. zlib's `crc32` is a parameter.
pub mod Verified
use wut_tools.Common.{
  ℕ, u32, Bool, ◌==◌, if◌then◌else◌, List, [], ◌∷◌, map, before_last, is_empty, Run, ok, ◌>>=◌,
  access,
}
use wut_tools.Elf.Bytes.{bytes_32, table_bytes}
use wut_tools.Elf.Constants
use wut_tools.Elf.{SectionHeader}
use wut_tools.Elf2rpl.File.{Section, ElfFile}
use wut_tools.Elf2rpl.Write.{written_sections}

-- `crc32(0, Z_NULL, 0)`, the first value, and `crc32(crc, data, size)`.
pub record Crc32 : Type 0 where
  pub initial : ℕ
  pub update : ℕ → List ℕ → ℕ

-- The section's header, which the function fills in.
abbrev pub crc_header : SectionHeader
crc_header = record {
  name = 0;
  type = Constants.sht_rpl_crcs;
  flags = 0;
  addr = 0;
  offset = 0;
  size = 0;
  link = 0;
  info = 0;
  addralign = 4;
  entsize = 4;
}

module _ (zlib : Crc32) where
  -- The checksum of a section's bytes; of no bytes it is 0.
  unfoldable pub crc_of : List ℕ → ℕ
  crc_of [] = 0
  crc_of (b ∷ bs) = u32 (zlib.update (u32 zlib.initial) (b ∷ bs))

  unfoldable pub generate_crc_section : ElfFile → Run ElfFile
  unfolding crc_of before_last written_sections
  generate_crc_section file = do
    crcs ←
        access
          (before_last 0 (map (λ (s : Section). crc_of s.bytes) (written_sections file.sections)))
    let section : Section = record {
      header = crc_header;
      name = [];
      bytes = table_bytes bytes_32 crcs;
      index = 0;
    }
    sections ← access (before_last section file.sections)
    ok (record file { sections = sections })
