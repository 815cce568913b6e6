-- ===== src/Elf2rpl/FileHeader.antt =====
-- `fixFileHeader`.
pub mod Verified
use wut_tools.Common.{
  ℕ, ◌*◌, ◌-◌, ◌<◌, ◌≤◌, ◌^◌, ◌≡◌, refl, ap, subst, arith, u16, length, replicate, Run, ok, ◌>>=◌,
  >>=-eq-ok, ok-injective,
}
use wut_tools.Elf.Bytes.{sizeof_header, sizeof_section_header}
use wut_tools.Elf.Constants
use wut_tools.Elf.{Header}
use wut_tools.Elf2rpl.File.{Section, ElfFile, section_at}
use wut_tools.Utils.{align_up, wrap_sub}

-- The header of an output with `count` sections, whose names are in section `names`.
unfoldable pub fixed_header : Header → ℕ → ℕ → Header
unfolding align_up
fixed_header h count names = record h {
  magic = Constants.header_magic;
  file_class = 1;
  encoding = Constants.elfdata2msb;
  elf_version = Constants.ev_current;
  abi = Constants.eabi_cafe;
  pad = replicate 7 0;
  type = 0xfe01;
  machine = Constants.em_ppc;
  version = 1;
  flags = 0;
  phoff = 0;
  phentsize = 0;
  phnum = 0;
  shoff = align_up 32 sizeof_header 64;
  shnum = u16 count;
  shentsize = sizeof_section_header;
  ehsize = sizeof_header;
  shstrndx = u16 names;
}

unfoldable pub fix_file_header : ElfFile → Run ElfFile
unfolding fixed_header
fix_file_header file = section_at file.sections file.header.shstrndx >>= λ names. ok (record file {
  header =
      fixed_header file.header (wrap_sub 64 (length file.sections) file.num_discarded_sections)
        names.index;
})
