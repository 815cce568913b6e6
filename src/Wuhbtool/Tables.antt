-- ===== src/Wuhbtool/Tables.antt =====
-- `populate`: the tables of directories and files, and their hash tables. A table holds the record
-- at each offset, and records that overlap do not change each other; a field that `be_word` or `be_dword` sets holds its value.
pub mod Chains
pub mod Found
pub mod Room
use wut_tools.Common.{
  ℕ, ◌+◌, ◌%◌, u32, Bool, true, ◌&&◌, leb, ◌==◌, if◌then◌else◌, List, [], length, Option, none,
  some,
}
use wut_tools.Wuhbtool.Entries.{FileNode, DirNode, Children, end, file, dir}
use wut_tools.Wuhbtool.Hashing.{calc_path_hash}

-- `ROMFS_ENTRY_EMPTY`
abbrev pub romfs_entry_empty : ℕ
romfs_entry_empty = 0xffffffff

-- `romfs_direntry_t`
pub record DirRecord : Type 0 where
  pub parent : ℕ
  pub sibling : ℕ
  pub child : ℕ
  pub file : ℕ
  pub hash : ℕ
  pub name_size : ℕ
  pub name : List ℕ

-- `romfs_fentry_t`
pub record FileRecord : Type 0 where
  pub parent : ℕ
  pub sibling : ℕ
  pub offset : ℕ
  pub size : ℕ
  pub hash : ℕ
  pub name_size : ℕ
  pub name : List ℕ

-- A table of `R` and its hash table of `count` buckets.
pub record Table (R : Type 0) : Type 0 where
  pub count : ℕ
  pub buckets : ℕ → ℕ
  pub records : ℕ → Option R

unfoldable pub write {ℓ} : {A : Type ℓ} → (ℕ → A) → ℕ → A → ℕ → A
write table i x j = if j == i then x else table j

-- An entry at an offset is put in front of the entries of its bucket, and its record, which holds
-- the entry that was in front before, is written.
unfoldable pub put : {R : Type 0} → (hash offset : ℕ) → (ℕ → R) → Table R → Table R
unfolding write
put hash offset make t =
    let bucket = hash % t.count in
    record t {
      buckets = write t.buckets bucket offset;
      records = write t.records offset (some (make (t.buckets bucket)));
    }

-- A pointer as it is written.
abbrev pub pointer : Option ℕ → ℕ
pointer none = romfs_entry_empty
pointer (some o) = u32 o

abbrev pub dir_record : ℕ → DirNode → ℕ → DirRecord
dir_record parent d next = record {
  parent = parent;
  sibling = pointer d.sibling;
  child = pointer d.dir_child;
  file = pointer d.file_child;
  hash = next;
  name_size = u32 (length d.name);
  name = d.name;
}

abbrev pub file_record : ℕ → FileNode → ℕ → FileRecord
file_record parent f next = record {
  parent = parent;
  sibling = pointer f.sibling;
  offset = f.offset;
  size = f.size;
  hash = next;
  name_size = u32 (length f.name);
  name = f.name;
}

-- `romfs_infos_t`
pub record Infos : Type 0 where
  pub dirs : Table DirRecord
  pub files : Table FileRecord

-- `DirectoryEntry::populate` but for the children, and `FileEntry::populate`
unfoldable pub put_dir : ℕ → DirNode → Infos → Infos
unfolding put calc_path_hash
put_dir parent d infos = record infos {
  dirs = put (calc_path_hash parent d.name) (u32 d.entry_offset) (dir_record parent d) infos.dirs;
}

unfoldable pub put_file : ℕ → FileNode → Infos → Infos
unfolding put calc_path_hash
put_file parent f infos = record infos {
  files =
      put (calc_path_hash parent f.name) (u32 f.entry_offset) (file_record parent f) infos.files;
}

-- `populate` of each of the children of the directory at an offset
unfoldable pub populate : ℕ → Children → Infos → Infos
unfolding put_dir put_file
populate parent end infos = infos
populate parent (file f rest) infos = populate parent rest (put_file parent f infos)
populate parent (dir d es rest) infos =
    populate parent rest (populate (u32 d.entry_offset) es (put_dir parent d infos))

-- `RootEntry::populate`: the root is its own parent, and its hash is that of no name at offset 0.
unfoldable pub populate_root : DirNode → Children → Infos → Infos
unfolding put populate
populate_root root es infos =
    let offset = u32 root.entry_offset in
    populate offset es (record infos {
      dirs =
          put (calc_path_hash 0 ([])) offset
            (λ next. record (dir_record offset root next) { name_size = 0; name = [] }) infos.dirs;
    })

-- The records that `populate` writes, with their names, lie in tables of these sizes.
unfoldable pub has_records : (dir_table_size file_table_size : ℕ) → Children → Bool
has_records dirs files end = true
has_records dirs files (file f rest) =
    leb (u32 f.entry_offset + 0x20 + length f.name) files && has_records dirs files rest
has_records dirs files (dir d es rest) =
    leb (u32 d.entry_offset + 0x18 + length d.name) dirs
    && has_records dirs files es
    && has_records dirs files rest
