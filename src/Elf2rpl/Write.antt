-- ===== src/Elf2rpl/Write.antt =====
-- `writeRpl`. The output file is its bytes; a gap that `seekp` leaves reads as zeros.
pub mod Held
use wut_tools.Files.{fwrite}
use wut_tools.Common.{
  ℕ, ◌+◌, Bool, ◌==◌, if◌then◌else◌, List, [], ◌∷◌, ◌++◌, drop, length, padded, is_empty, Run, ok,
  failed,
}
use wut_tools.Elf.Bytes.{header_bytes, section_header_bytes, table_bytes}
use wut_tools.Elf2rpl.File.{Section, ElfFile, uint32_max}

-- The sections whose headers are written: those that are not discarded.
unfoldable pub written_sections : List Section → List Section
written_sections [] = []
written_sections (s ∷ ss) =
    if s.index == uint32_max then written_sections ss else s ∷ written_sections ss

unfoldable pub write_sections : List Section → List ℕ → List ℕ
unfolding fwrite
write_sections [] out = out
write_sections (s ∷ ss) out = write_sections ss (fwrite s.header.offset s.bytes out)

-- `opened` tells whether the output could be opened.
unfoldable pub write_rpl : Bool → ElfFile → Run (List ℕ)
unfolding written_sections write_sections fwrite
write_rpl opened file =
    if opened
    then ok (
        write_sections file.sections (
          fwrite file.header.shoff
            (table_bytes (λ (s : Section). section_header_bytes s.header)
              (written_sections file.sections))
            (fwrite 0 (header_bytes file.header) [])))
    else failed
