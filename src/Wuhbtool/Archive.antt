-- ===== src/Wuhbtool/Archive.antt =====
-- `CreateArchive`. The output file can be opened; fuel bounds the search for the sizes of the hash
-- tables and the copies of files.
pub mod Bytes
pub mod Ends
pub mod Files
pub mod Populated
pub mod Room
pub mod Located
use wut_tools.Files.{fwrite}
use wut_tools.Common.{
  and_then, ℕ, ◌+◌, ◌*◌, ◌^◌, u32, u64, Bool, true, ◌&&◌, leb, ltb, if◌then◌else◌, List, [], ◌∷◌,
  ◌++◌, length, Option, none, some, Run, ok, fault,
}
use wut_tools.Utils.{align}
use wut_tools.Wuhbtool.Archive.Bytes.{
  RomfsHeader, romfs_header_bytes, bucket_bytes, dir_table_bytes, file_table_bytes,
}
use wut_tools.Wuhbtool.Entries.{
  FileNode, DirNode, Children, end, file, dir, Context, count_dir, fill_information,
}
use wut_tools.Wuhbtool.Hashing.{get_hash_table_count}
use wut_tools.Wuhbtool.Offsets.{
  Cursor, calculate_dir_offsets, calculate_file_offsets, first_dir, first_file, assigned,
  update_siblings,
}
use wut_tools.Wuhbtool.Output.{romfs_filepartition_ofs, write_children}
use wut_tools.Wuhbtool.Tables.{has_records, romfs_entry_empty, Table, Infos, populate_root}

-- The context that `CreateArchive` starts from, and what the entries add to it, the root included.
abbrev pub start_context : Context
start_context = record {
  num_dirs = 1;
  num_files = 0;
  dir_table_size = 0x18;
  file_table_size = 0;
  file_partition_size = 0;
}

unfoldable pub filled_context : DirNode → Children → Context
unfolding count_dir fill_information
filled_context root es = fill_information es (count_dir root start_context)

-- `RootEntry::updateEntryOffset`, in `calculateDirOffsets`
unfoldable pub set_root_offset : DirNode → ℕ → DirNode × ℕ
set_root_offset root o =
    if root.entry_offset_set
    then (root, o)
    else (record root { entry_offset = o; entry_offset_set = true }, u32 (o + 0x18))

-- `malloc` of a hash table whose buckets are set to `ROMFS_ENTRY_EMPTY`, and `calloc` of a table.
abbrev pub empty_table : {R : Type 0} → ℕ → Table R
empty_table count = record { count = count; buckets = λ b. romfs_entry_empty; records = λ o. none }

-- The entries with all that is set in them, the tables, and the size of the file partition.
pub record Prepared : Type 0 where
  pub root : DirNode
  pub children : Children
  pub infos : Infos
  pub file_partition_size : ℕ

-- The passes, from the children's offsets on.
unfoldable pub prepare_children : (dir_count file_count : ℕ) → DirNode × ℕ → Children → Prepared
unfolding calculate_dir_offsets calculate_file_offsets first_dir first_file update_siblings
    populate_root
prepare_children dir_count file_count (root1, o) es =
    let (es1, o1) = calculate_dir_offsets es o in
    let (es2, c) = calculate_file_offsets es1 (record { partition = 0; entry = 0 }) in
    let root2 : DirNode = record root1 {
      dir_child = assigned (first_dir es2) root1.dir_child;
      file_child = assigned (first_file es2) root1.file_child;
    } in
    let es3 = update_siblings es2 in
    record {
      root = root2;
      children = es3;
      infos =
          populate_root root2 es3
            (record { dirs = empty_table dir_count; files = empty_table file_count });
      file_partition_size = c.partition;
    }

unfoldable pub prepare : (dir_count file_count : ℕ) → DirNode → Children → Prepared
unfolding set_root_offset prepare_children
prepare dir_count file_count root es =
    prepare_children dir_count file_count (set_root_offset root 0) es

-- The header, with the offsets of the tables, each behind the one before.
unfoldable pub romfs_header : Context → Prepared → RomfsHeader
unfolding align
romfs_header c p =
    let dir_hash_table_size = u32 (4 * p.infos.dirs.count) in
    let file_hash_table_size = u32 (4 * p.infos.files.count) in
    let dir_hash_table_ofs = align 64 (u64 (p.file_partition_size + romfs_filepartition_ofs)) 4 in
    let dir_table_ofs = u64 (dir_hash_table_ofs + dir_hash_table_size) in
    let file_hash_table_ofs = u64 (dir_table_ofs + c.dir_table_size) in
    let file_table_ofs = u64 (file_hash_table_ofs + file_hash_table_size) in
    record {
      header_size = 80;
      dir_hash_table_ofs = dir_hash_table_ofs;
      dir_hash_table_size = dir_hash_table_size;
      dir_table_ofs = dir_table_ofs;
      dir_table_size = c.dir_table_size;
      file_hash_table_ofs = file_hash_table_ofs;
      file_hash_table_size = file_hash_table_size;
      file_table_ofs = file_table_ofs;
      file_table_size = c.file_table_size;
      file_partition_ofs = romfs_filepartition_ofs;
    }

-- The four tables, written one behind the other from the first one's offset on.
unfoldable pub write_tables : RomfsHeader → Infos → List ℕ → List ℕ
unfolding fwrite bucket_bytes dir_table_bytes file_table_bytes
write_tables h infos out =
    let dir_hash_table = bucket_bytes infos.dirs in
    let dir_table = dir_table_bytes h.dir_table_size infos.dirs in
    let file_hash_table = bucket_bytes infos.files in
    let file_table = file_table_bytes h.file_table_size infos.files in
    let o1 = h.dir_hash_table_ofs in
    let o2 = o1 + length dir_hash_table in
    let o3 = o2 + length dir_table in
    let o4 = o3 + length file_hash_table in
    fwrite o4 file_table
      (fwrite o3 file_hash_table (fwrite o2 dir_table (fwrite o1 dir_hash_table out)))

-- The hash tables have as many bytes as their buckets take, as their sizes are numbers of 32 bits,
-- and each record that is written lies in its table. Otherwise memory behind one is written.
unfoldable pub has_tables : (dir_count file_count : ℕ) → Context → Prepared → Bool
unfolding has_records
has_tables dir_count file_count c p =
    ltb (4 * dir_count) (2 ^ 32)
    && ltb (4 * file_count) (2 ^ 32)
    && leb (u32 p.root.entry_offset + 0x18) c.dir_table_size
    && has_records c.dir_table_size c.file_table_size p.children

-- From the counts of buckets on, to the output file; `none` where the fuel runs out.
unfoldable pub write_archive :
    ℕ → DirNode → Children → (dir_count file_count : Option ℕ) → Option (Run (List ℕ))
unfolding filled_context prepare has_tables romfs_header write_children write_tables
    romfs_header_bytes
write_archive fuel root es none _ = none
write_archive fuel root es (some _) none = none
write_archive fuel root es (some dir_count) (some file_count) =
    let p = prepare dir_count file_count root es in
    let h = romfs_header (filled_context root es) p in
    if has_tables dir_count file_count (filled_context root es) p
    then and_then (write_children fuel p.children (fwrite 0 (romfs_header_bytes h) []))
        (λ out. some (ok (write_tables h p.infos out)))
    else some fault

unfoldable pub create_archive : ℕ → DirNode → Children → Option (Run (List ℕ))
unfolding filled_context get_hash_table_count write_archive
create_archive fuel root es =
    let c = filled_context root es in
    write_archive fuel root es (get_hash_table_count fuel (u32 c.num_dirs))
      (get_hash_table_count fuel (u32 c.num_files))
