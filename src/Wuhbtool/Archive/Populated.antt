-- ===== src/Wuhbtool/Archive/Populated.antt =====
-- The tables that `CreateArchive` fills.
use wut_tools.Common.Apart.{Apart}
use wut_tools.Common.{◌≡◌, ap, true, false, if◌then◌else◌}
use wut_tools.Wuhbtool.Archive.{set_root_offset, Prepared}
use wut_tools.Wuhbtool.Entries.{DirNode}
use wut_tools.Wuhbtool.Tables.Found.{IsPopulated}

abbrev IsPrepared : Prepared → Type 0
IsPrepared p = IsPopulated p.root p.children p.infos

pub set_root_offset_lem :
    (root : DirNode)
    → root.entry_offset_set ≡ false
    → set_root_offset root 0 ≡ (record root { entry_offset = 0; entry_offset_set = true }, 0x18)
unfolding set_root_offset
set_root_offset_lem root new =
    ap
      (λ b.
        if b then (root, 0) else (record root { entry_offset = 0; entry_offset_set = true }, 0x18))
      new
