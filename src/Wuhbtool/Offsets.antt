-- ===== src/Wuhbtool/Offsets.antt =====
-- `calculateDirOffsets`, `calculateFileOffsets` and `updateSiblingAndChildEntries`.
pub mod Sizes
pub mod Data
pub mod Dirs
pub mod Files
pub mod Kept
use wut_tools.Common.{ℕ, ◌+◌, u32, u64, Bool, true, if◌then◌else◌, length, Option, none, some}
use wut_tools.Utils.{align}
use wut_tools.Wuhbtool.Entries.{FileNode, DirNode, Children, end, file, dir, Context}

-- `updateEntryOffset`, of a directory that is not the root
unfoldable pub dir_entry_size : DirNode → ℕ
unfolding align
dir_entry_size d = u32 (0x18 + align 32 (u32 (length d.name)) 4)

unfoldable pub set_dir_offset : DirNode → ℕ → DirNode × ℕ
unfolding dir_entry_size
set_dir_offset d o =
    if d.entry_offset_set
    then (d, o)
    else (record d { entry_offset = o; entry_offset_set = true }, u32 (o + dir_entry_size d))

-- `calculateDirOffsets` of each directory among the children
unfoldable pub calculate_dir_offsets : Children → ℕ → Children × ℕ
unfolding set_dir_offset
calculate_dir_offsets end o = (end, o)
calculate_dir_offsets (file f rest) o =
    let (rest', o1) = calculate_dir_offsets rest o in (file f rest', o1)
calculate_dir_offsets (dir d es rest) o =
    let (d', o1) = set_dir_offset d o in
    let (es', o2) = calculate_dir_offsets es o1 in
    let (rest', o3) = calculate_dir_offsets rest o2 in (dir d' es' rest', o3)

-- `file_partition_size` and the next entry's offset
pub record Cursor : Type 0 where
  pub partition : ℕ
  pub entry : ℕ

unfoldable pub file_entry_size : FileNode → ℕ
unfolding align
file_entry_size f = u32 (0x20 + align 32 (u32 (length f.name)) 4)

-- `FileEntry::calculateFileOffsets`
unfoldable pub place_file : FileNode → Cursor → FileNode × Cursor
unfolding align file_entry_size
place_file f c =
    let start = align 64 c.partition 0x10 in
    (
      record f { offset = start; entry_offset = c.entry },
      record { partition = u64 (start + f.size); entry = u32 (c.entry + file_entry_size f) },
    )

-- The second loop of `DirectoryEntry::calculateFileOffsets`, over the files of the directory.
unfoldable pub place_files : Children → Cursor → Children × Cursor
unfolding place_file
place_files end c = (end, c)
place_files (file f rest) c =
    let (f', c1) = place_file f c in let (rest', c2) = place_files rest c1 in (file f' rest', c2)
place_files (dir d es rest) c = let (rest', c1) = place_files rest c in (dir d es rest', c1)

-- The first loop, which runs both loops in each directory.
unfoldable pub place_in_dirs : Children → Cursor → Children × Cursor
unfolding place_files
place_in_dirs end c = (end, c)
place_in_dirs (file f rest) c = let (rest', c1) = place_in_dirs rest c in (file f rest', c1)
place_in_dirs (dir d es rest) c =
    let (es1, c1) = place_in_dirs es c in
    let (es2, c2) = place_files es1 c1 in
    let (rest', c3) = place_in_dirs rest c2 in (dir d es2 rest', c3)

unfoldable pub calculate_file_offsets : Children → Cursor → Children × Cursor
unfolding place_in_dirs place_files
calculate_file_offsets es c = let (es1, c1) = place_in_dirs es c in place_files es1 c1

unfoldable pub first_dir : Children → Option ℕ
first_dir end = none
first_dir (file f rest) = first_dir rest
first_dir (dir d es rest) = some d.entry_offset

unfoldable pub first_file : Children → Option ℕ
first_file end = none
first_file (file f rest) = some f.entry_offset
first_file (dir d es rest) = first_file rest

-- A pointer that is assigned where there is an entry to point to.
abbrev pub assigned : Option ℕ → Option ℕ → Option ℕ
assigned none old = old
assigned (some o) old = some o

-- The loop: the sibling of each entry is the next one of its kind, and each directory points to its
-- own first directory and first file.
unfoldable pub update_siblings : Children → Children
unfolding first_dir first_file
update_siblings end = end
update_siblings (file f rest) =
    file (record f { sibling = assigned (first_file rest) f.sibling }) (update_siblings rest)
update_siblings (dir d es rest) =
    dir
      (record d {
        sibling = assigned (first_dir rest) d.sibling;
        dir_child = assigned (first_dir es) d.dir_child;
        file_child = assigned (first_file es) d.file_child;
      })
      (update_siblings es) (update_siblings rest)
