-- ===== src/Readrpl/Verify/File/Sound.antt =====
-- What a file that passes `verifyFile` is known to satisfy.
use wut_tools.Common.{◌≤◌, ◌≡◌, ◌≢◌}
use wut_tools.Elf.Constants
use wut_tools.Elf.{Header}
use wut_tools.Readrpl.Rpl.{Section, Rpl}
use wut_tools.Readrpl.Verify.File.{header_size, headers_end}
use wut_tools.Readrpl.Verify.RelocationTable.Sound.{IsSound}

-- A relocation table is empty or sound.
abbrev pub IsSoundTable : Rpl → Section → Type 0
IsSoundTable rpl s = s.header.type ≡ Constants.sht_rela → s.header.size ≢ 0 → IsSound rpl s

-- Where a section's contents may start.
abbrev pub IsPlaced : Header → Section → Type 0
IsPlaced h s =
    s.header.size ≢ 0
    → s.header.type ≢ Constants.sht_nobits
    → (header_size h ≤ s.header.offset)
      × (h.shoff ≤ s.header.offset → headers_end h ≤ s.header.offset)
