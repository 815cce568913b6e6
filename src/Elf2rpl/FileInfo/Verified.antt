-- ===== src/Elf2rpl/FileInfo/Verified.antt =====
-- The sizes that `generateFileInfoSection` states, and the sections.
use wut_tools.Common.{ℕ, ◌+◌, ◌-◌, ◌^◌, ◌≤◌, ◌<◌, ◌≡◌, ◌≢◌, arith, true, List, All}
use wut_tools.Elf.{RplFileInfo}
use wut_tools.Elf2rpl.File.{
  Section, uint32_max, code_base_address, data_base_address, load_base_address,
}
use wut_tools.Elf2rpl.FileInfo.{end_from}
use wut_tools.Utils.{align_check}

-- A section that ends a page or more before the end of the address space.
abbrev pub Fits : Section → Type 0
Fits s = s.header.addr + s.header.size + 4096 ≤ 2 ^ 32

-- What the sizes state of a kept section, by the region that its address is in.
abbrev pub Covers : RplFileInfo → Section → Type 0
Covers info s =
    let h = s.header in
    s.index ≢ uint32_max
    → (code_base_address ≤ h.addr
        → h.addr < data_base_address
        → h.addr + h.size ≤ code_base_address + info.text_size)
      × (data_base_address ≤ h.addr
          → h.addr < load_base_address
          → h.addr + h.size ≤ data_base_address + info.data_size)
      × (load_base_address ≤ h.addr → h.addr + h.size ≤ load_base_address + info.load_size)

-- The sizes leave room to round up.
record Bounded (info : RplFileInfo) : Type 0 where
  text : info.text_size + 4096 ≤ 2 ^ 32
  data_ : info.data_size + 4096 ≤ 2 ^ 32
  load : info.load_size + 4096 ≤ 2 ^ 32
  text_align : info.text_align ≡ 32
  data_align : info.data_align ≡ 4096
  load_align : info.load_align ≡ 32

record Grows (before after : RplFileInfo) : Type 0 where
  text : before.text_size ≤ after.text_size
  data_ : before.data_size ≤ after.data_size
  load : before.load_size ≤ after.load_size

end_from_lem :
    (base : ℕ) (s : Section)
    → base ≤ s.header.addr
    → Fits s
    → end_from base s.header ≡ s.header.addr + s.header.size - base
end_from_lem base s h fits = omega arith

-- The loop, whose sizes only grow.
record Counted (before after : RplFileInfo) (ss : List Section) : Type 0 where
  grows : Grows before after
  bounded : Bounded after
  covers : All (Covers after) ss

-- Each region's size is a multiple of the alignment stated for it.
abbrev pub IsAligned : RplFileInfo → Type 0
IsAligned info =
    (align_check info.text_size info.text_align ≡ true)
    × (align_check info.data_size info.data_align ≡ true)
    × (align_check info.load_size info.load_align ≡ true)
