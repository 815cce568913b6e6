-- ===== src/Elf2rpl/Convert.antt =====
-- `main` behind the options: the steps in their order, each on what the one before leaves.
pub mod Ends
use wut_tools.Common.{ℕ, Bool, if◌then◌else◌, List, Option, some, Run, ◌>>=◌, and_then}
use wut_tools.Elf.Constants
use wut_tools.Elf2rpl.Crc.{Crc32, generate_crc_section}
use wut_tools.Elf2rpl.Deflate.{Deflate, deflate_sections}
use wut_tools.Elf2rpl.File.{ElfFile}
use wut_tools.Elf2rpl.FileHeader.{fix_file_header}
use wut_tools.Elf2rpl.FileInfo.{generate_file_info_section}
use wut_tools.Elf2rpl.Loader.{fix_loader_virtual_addresses}
use wut_tools.Elf2rpl.Offsets.{calculate_section_offsets}
use wut_tools.Elf2rpl.Reading.{read_elf}
use wut_tools.Elf2rpl.Relocations.{fix_relocations}
use wut_tools.Elf2rpl.Wrap.{rename_rpl_wrap}
use wut_tools.Elf2rpl.Write.{write_rpl}

-- The steps up to the file header.
unfoldable pub convert_sections : Crc32 → Bool → ElfFile → Run ElfFile
unfolding fix_relocations rename_rpl_wrap fix_loader_virtual_addresses generate_file_info_section
    generate_crc_section fix_file_header
convert_sections zlib is_rpl elf =
    fix_relocations elf
    >>= rename_rpl_wrap
    >>= (λ e. generate_crc_section zlib (
        generate_file_info_section (if is_rpl then 0 else Constants.rpl_is_rpx)
          (fix_loader_virtual_addresses e)))
    >>= fix_file_header

-- `input` and `opened` tell whether the files can be opened; the fuel bounds the calls of deflate.
unfoldable pub convert :
    {Stream : Type 0}
    → Crc32
    → Deflate Stream
    → ℕ
    → (is_rpl opened : Bool) (input : Option (List ℕ)) (memory : List ℕ) → Option (Run (List ℕ))
unfolding read_elf convert_sections deflate_sections calculate_section_offsets write_rpl
convert zlib deflate fuel is_rpl opened input memory =
    and_then (some (read_elf input memory >>= convert_sections zlib is_rpl)) (λ prepared.
      and_then (deflate_sections deflate fuel prepared)
        (λ deflated. some (calculate_section_offsets deflated >>= write_rpl opened)))
