-- ===== src/Tests/Checking.antt =====
-- The tests of src/readrpl on small files.
use wut_tools.Common.{◌≡◌, refl, arith, true, ok}
use wut_tools.Elf.Constants
use wut_tools.Elf2rpl.Relocations.Verified.{loaded}
use wut_tools.Readrpl.Rpl.{Rpl}
use wut_tools.Readrpl.Verify.RelocationTable.{validate_relocs_add_table}
use wut_tools.Readrpl.Verify.RelocationTable.Sound.{IsSound, validate_relocs_add_table-IsSound}
use wut_tools.Tests.Files.{program, checks, sections, elf_header, rpl_of, placed, last}

abbrev whole : Rpl
whole = rpl_of (record elf_header { shstrndx = 0 }) placed.sections

abbrev elf_rpl : Rpl
elf_rpl = rpl_of elf_header sections

validate_run : validate_relocs_add_table elf_rpl (loaded last) ≡ ok true
unfolding program checks
validate_run = refl

validate_relocs_add_table-IsSound_example : IsSound elf_rpl (loaded last)
validate_relocs_add_table-IsSound_example =
    validate_relocs_add_table-IsSound elf_rpl (loaded last) (λ e. ground arith) validate_run
