-- ===== src/Wuhbtool/Entries.antt =====
-- The entries of src/wuhbtool/entities. A pointer to an entry is the entry's offset in its table,
-- which is set before any pointer is, and stays.
use wut_tools.Common.{ℕ, ◌+◌, u64, Bool, List, length, Option}
use wut_tools.Utils.{align}

-- What is written: a file of the host, with its bytes where it can be opened, or a buffer.
pub data Contents : Type 0 where
  host_file : Option (List ℕ) → Contents
  buffer : List ℕ → Contents

-- `NodeEntry`, `FileEntry`, and `OSFileEntry` or `BufferFileEntry`
pub record FileNode : Type 0 where
  pub name : List ℕ
  pub contents : Contents
  pub size : ℕ
  pub offset : ℕ
  pub entry_offset : ℕ
  pub sibling : Option ℕ

-- `NodeEntry` and `DirectoryEntry`, but for the children
pub record DirNode : Type 0 where
  pub name : List ℕ
  pub entry_offset : ℕ
  pub entry_offset_set : Bool
  pub sibling : Option ℕ
  pub dir_child : Option ℕ
  pub file_child : Option ℕ

-- `children`: files, and directories with their own children, in order.
pub data Children : Type 0 where
  end : Children
  file : FileNode → Children → Children
  dir : DirNode → Children → Children → Children

-- `addChild`
unfoldable pub add_file : Children → FileNode → Children
add_file end f = file f end
add_file (file g rest) f = file g (add_file rest f)
add_file (dir d es rest) f = dir d es (add_file rest f)

unfoldable pub add_dir : Children → DirNode → Children → Children
add_dir end d es = dir d es end
add_dir (file g rest) d es = file g (add_dir rest d es)
add_dir (dir d' es' rest) d es = dir d' es' (add_dir rest d es)

-- `romfs_ctx_t`, as far as it is used
pub record Context : Type 0 where
  pub num_dirs : ℕ
  pub num_files : ℕ
  pub dir_table_size : ℕ
  pub file_table_size : ℕ
  pub file_partition_size : ℕ

unfoldable pub count_file : FileNode → Context → Context
unfolding align
count_file f c = record c {
  num_files = u64 (c.num_files + 1);
  file_table_size = u64 (c.file_table_size + (0x20 + align 64 (length f.name) 4));
}

unfoldable pub count_dir : DirNode → Context → Context
unfolding align
count_dir d c = record c {
  num_dirs = u64 (c.num_dirs + 1);
  dir_table_size = u64 (c.dir_table_size + (0x18 + align 64 (length d.name) 4));
}

-- `fillRomFSInformation`
unfoldable pub fill_information : Children → Context → Context
unfolding count_file count_dir
fill_information end c = c
fill_information (file f rest) c = fill_information rest (count_file f c)
fill_information (dir d es rest) c = fill_information rest (fill_information es (count_dir d c))
