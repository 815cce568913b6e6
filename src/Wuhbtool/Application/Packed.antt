-- ===== src/Wuhbtool/Application/Packed.antt =====
-- main of src/wuhbtool/main.cpp ends with an archive of the folders that it adds.
use wut_tools.Common.Text.{codes}
use wut_tools.Common.{ℕ, ◌^◌, ◌<◌, List, length, Option, none, some}
use wut_tools.Wuhbtool.Application.{new_file, HostFile, Resources, content_of}
use wut_tools.Wuhbtool.Entries.{host_file, FileNode}
use wut_tools.Wuhbtool.Output.Readable.{HasBytes, IsReadable}

abbrev pub FileReads : ℕ → FileNode → Type 0
FileReads fuel f = (f.size < 2 ^ 64) × (f.size < fuel) × HasBytes f.size f.contents

-- A text that is smaller than the fuel.
abbrev pub IsShort : ℕ → List ℕ → Type 0
IsShort fuel bytes = (length bytes < 2 ^ 64) × (length bytes < fuel)

abbrev pub IsShortImage : ℕ → Option (List ℕ) → Type 0
IsShortImage fuel none = Unit
IsShortImage fuel (some bytes) = IsShort fuel bytes

-- What goes into the archive is smaller than the fuel, and the executable can be read.
pub record IsPackable (fuel : ℕ) (rpx : HostFile) (meta_ini : List ℕ) (r : Resources) : Type 0 where
  pub executable : FileReads fuel (new_file (codes "root.rpx") (host_file rpx.bytes) rpx.size)
  pub meta : IsShort fuel meta_ini
  pub icon : IsShortImage fuel r.icon
  pub tv_image : IsShortImage fuel r.tv_image
  pub drc_image : IsShortImage fuel r.drc_image
  pub content : IsReadable fuel (content_of r.content)
