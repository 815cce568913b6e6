-- ===== src/Tests/Archive.antt =====
-- A small archive.
use wut_tools.Common.Apart.{Apart, IsWithin}
use wut_tools.Common.Ranges.{AreClear, IsInside}
use wut_tools.Wuhbtool.Archive.Files.{header_chunk, file_chunks, archive_bytes-Holds}
use wut_tools.Wuhbtool.Offsets.Data.{
  data_ranges, own_data, inner_data, calculate_file_offsets-AreClear,
}
use wut_tools.Files.Chunks.{Holds}
use wut_tools.Common.{
  ℕ, ◌+◌, ◌%◌, ◌^◌, ◌≤◌, ◌≡◌, refl, arith, true, false, List, [], ◌∷◌, All, none, some, ok, inl,
  inr,
}
use wut_tools.Wuhbtool.Archive.Ends.{archive_bytes, create_archive_ends}
use wut_tools.Wuhbtool.Archive.Located.{IsLocated, write_tables-IsLocated}
use wut_tools.Wuhbtool.Archive.Room.{IsFresh, filled_context-offsets, prepare-has_tables}
use wut_tools.Wuhbtool.Archive.{
  filled_context, set_root_offset, has_tables, empty_table, Prepared, prepare, romfs_header,
  write_tables, create_archive,
}
use wut_tools.Wuhbtool.Entries.{
  Contents, host_file, buffer, FileNode, DirNode, Children, end, file, dir, Context,
}
use wut_tools.Wuhbtool.Hashing.Case.{calc_path_hash-case}
use wut_tools.Wuhbtool.Hashing.Count.{IsBucketCount, get_hash_table_count_ends}
use wut_tools.Wuhbtool.Hashing.{calc_path_hash, get_hash_table_count}
use wut_tools.Wuhbtool.Offsets.Dirs.{dir_offsets, calculate_dir_offsets-Apart}
use wut_tools.Wuhbtool.Offsets.Files.{file_offsets, calculate_file_offsets-Apart}
use wut_tools.Wuhbtool.Offsets.Sizes.{dir_size, dir_space, own_space, inner_space}
use wut_tools.Wuhbtool.Offsets.{Cursor, calculate_dir_offsets, calculate_file_offsets}
use wut_tools.Wuhbtool.Output.Copy.{copied, copy_chunks_lem}
use wut_tools.Wuhbtool.Output.Readable.{with_files, write_children_lem}
use wut_tools.Wuhbtool.Output.{romfs_filepartition_ofs, copy_chunks, write_children}

abbrev file_of : List ℕ → Contents → ℕ → FileNode
file_of name contents size = record {
  name = name;
  contents = contents;
  size = size;
  offset = 0;
  entry_offset = 0;
  sibling = none;
}

abbrev dir_of : List ℕ → DirNode
dir_of name = record {
  name = name;
  entry_offset = 0;
  entry_offset_set = false;
  sibling = none;
  dir_child = none;
  file_child = none;
}

abbrev root : DirNode
root = dir_of []

-- "code" with "a.rpx", and "meta" with "m" and an empty "sub".
abbrev tree : Children
tree =
    dir (dir_of (99 ∷ 111 ∷ 100 ∷ 101 ∷ []))
      (file (file_of (97 ∷ 46 ∷ 114 ∷ 112 ∷ 120 ∷ []) (host_file (some (1 ∷ 2 ∷ 3 ∷ []))) 3) end)
      (dir (dir_of (109 ∷ 101 ∷ 116 ∷ 97 ∷ []))
        (file (file_of (109 ∷ []) (buffer (4 ∷ 5 ∷ [])) 2)
          (dir (dir_of (115 ∷ 117 ∷ 98 ∷ [])) end end))
        end)

dirs_of : dir_space tree ≡ 84
unfolding dir_space
dirs_of = refl

own_of : own_space tree ≡ 0
unfolding own_space
own_of = refl

inner_of : inner_space tree ≡ 76
unfolding inner_space own_space
inner_of = refl

num_dirs_of : (filled_context root tree).num_dirs ≡ 5
unfolding filled_context
num_dirs_of = refl

num_files_of : (filled_context root tree).num_files ≡ 2
unfolding filled_context
num_files_of = refl

tree-IsFresh : IsFresh root tree
tree-IsFresh = record {
  root_new = refl;
  new = (refl, tt, (refl, (refl, tt, tt), tt));
  dirs = omega (arith, dirs_of);
  files = omega (arith, own_of, inner_of);
}

create_archive_ends_example :
    (dir_count : ℕ) × (file_count : ℕ) × IsBucketCount (filled_context root tree).num_dirs dir_count
    × IsBucketCount (filled_context root tree).num_files file_count
    × (create_archive 600000 root tree ≡ some (ok (archive_bytes dir_count file_count root tree)))
create_archive_ends_example =
    create_archive_ends 600000 root tree (omega arith) (omega (arith, num_dirs_of))
      (omega (arith, num_files_of)) tree-IsFresh
      (
        (omega arith, omega arith, omega arith, tt),
        ((omega arith, omega arith, omega arith, (tt, tt)), tt),
      )

prepare-has_tables_example :
    has_tables 5 3 (filled_context root tree) (prepare 5 3 root tree) ≡ true
prepare-has_tables_example =
    prepare-has_tables 5 3 root tree (omega arith) (omega arith) tree-IsFresh

filled_context-offsets_example :
    ((calculate_dir_offsets tree (set_root_offset root 0).1).1 + dir_size root
      ≡ (filled_context root tree).dir_table_size)
    × ((calculate_file_offsets
          (calculate_dir_offsets tree (set_root_offset root 0).1).0
          (record { partition = 0; entry = 0 })).1.entry
        ≡ (filled_context root tree).file_table_size)
filled_context-offsets_example = filled_context-offsets root tree tree-IsFresh

-- 2 ^ 30 buckets wrap around to a hash table of no bytes.
wrapped : has_tables (2 ^ 30) 3 (filled_context root tree) (prepare 5 3 root tree) ≡ false
unfolding has_tables
wrapped = refl

-- Tables of three buckets with one file.
abbrev prepared : Prepared
prepared = record {
  root = root;
  children = end;
  infos = record { dirs = empty_table 3; files = empty_table 3 };
  file_partition_size = 3;
}

abbrev sizes : Context
sizes = record {
  num_dirs = 2;
  num_files = 0;
  dir_table_size = 0x30;
  file_table_size = 0;
  file_partition_size = 0;
}

write_tables-IsLocated_example :
    IsLocated
      (romfs_header sizes prepared)
      prepared.infos
      (write_tables (romfs_header sizes prepared) prepared.infos (7 ∷ []))
    × (3 + romfs_filepartition_ofs ≤ (romfs_header sizes prepared).dir_hash_table_ofs)
    × ((romfs_header sizes prepared).dir_hash_table_ofs % 4 ≡ 0)
write_tables-IsLocated_example =
    write_tables-IsLocated sizes prepared (7 ∷ [])
      (omega arith, omega arith, omega arith, omega arith)

get_hash_table_count_ends_example :
    (count : ℕ) × (get_hash_table_count 600000 20 ≡ some count) × IsBucketCount 20 count
get_hash_table_count_ends_example = get_hash_table_count_ends 600000 20 (omega arith) (omega arith)

twenty : get_hash_table_count 9 20 ≡ some 23
unfolding get_hash_table_count
twenty = refl

-- "az.Q" and "AZ.q"
calc_path_hash-case_example :
    calc_path_hash 0x18 (97 ∷ 122 ∷ 46 ∷ 81 ∷ []) ≡ calc_path_hash 0x18 (65 ∷ 90 ∷ 46 ∷ 113 ∷ [])
calc_path_hash-case_example =
    calc_path_hash-case 0x18 (97 ∷ 122 ∷ 46 ∷ 81 ∷ []) (65 ∷ 90 ∷ 46 ∷ 113 ∷ []) (
      inr (inr ((omega arith, omega arith), refl)),
      (
        inr (inr ((omega arith, omega arith), refl)),
        (inl refl, (inr (inl ((omega arith, omega arith), refl)), tt)),
      ),
    )

abbrev start : Cursor
start = record { partition = 0; entry = 0 }

calculate_dir_offsets-Apart_example :
    All (IsWithin 0x18 (0x18 + dir_space tree)) (dir_offsets (calculate_dir_offsets tree 0x18).0)
    × Apart (dir_offsets (calculate_dir_offsets tree 0x18).0)
calculate_dir_offsets-Apart_example =
    calculate_dir_offsets-Apart tree 0x18 (refl, tt, (refl, (refl, tt, tt), tt))
      (omega (arith, dirs_of))

calculate_file_offsets-Apart_run : Apart (file_offsets (calculate_file_offsets tree start).0)
calculate_file_offsets-Apart_run =
    calculate_file_offsets-Apart tree start (omega (arith, own_of, inner_of))

-- Three bytes in chunks of two.
copy_chunks_lem_example :
    copy_chunks 9 3 0 2 (1 ∷ 2 ∷ 3 ∷ 4 ∷ []) 5 (7 ∷ [])
    ≡ some (copied 3 (1 ∷ 2 ∷ 3 ∷ 4 ∷ []) 5 (7 ∷ []))
copy_chunks_lem_example =
    copy_chunks_lem 9 3 0 2 (1 ∷ 2 ∷ 3 ∷ 4 ∷ []) 5 (7 ∷ []) (omega arith) (omega arith)
      (omega arith) (omega arith)

three : copy_chunks 9 3 0 2 (1 ∷ 2 ∷ 3 ∷ 4 ∷ []) 2 (7 ∷ []) ≡ some (ok (7 ∷ 0 ∷ 1 ∷ 2 ∷ 3 ∷ []))
unfolding copy_chunks
three = refl

write_children_run : write_children 9 tree (7 ∷ []) ≡ some (ok (with_files tree (7 ∷ [])))
write_children_run = write_children_lem 9 tree (7 ∷ []) (
  (omega arith, omega arith, omega arith, tt),
  ((omega arith, omega arith, omega arith, (tt, tt)), tt),
)

dirs_count_of : (prepare 5 3 root tree).infos.dirs.count ≡ 5
unfolding prepare
dirs_count_of = refl

files_count_of : (prepare 5 3 root tree).infos.files.count ≡ 3
unfolding prepare
files_count_of = refl

partition_of : (prepare 5 3 root tree).file_partition_size ≡ 18
unfolding prepare
partition_of = refl

table_sizes_of :
    ((filled_context root tree).dir_table_size ≡ 132)
    × ((filled_context root tree).file_table_size ≡ 76)
unfolding filled_context
table_sizes_of = (refl, refl)

data_of : inner_data tree + own_data tree ≡ 37
unfolding inner_data own_data
data_of = refl

archive_bytes-Holds_example : All (Holds (archive_bytes 5 3 root tree)) (
    header_chunk (romfs_header (filled_context root tree) (prepare 5 3 root tree))
    ∷ file_chunks (prepare 5 3 root tree).children)
archive_bytes-Holds_example =
    archive_bytes-Holds 9 5 3 root tree
      (
        (omega arith, omega arith, omega arith, tt),
        ((omega arith, omega arith, omega arith, (tt, tt)), tt),
      )
      (omega (arith, data_of))
      (
        omega (arith, dirs_count_of),
        omega (arith, dirs_count_of),
        omega (arith, files_count_of),
        omega (
          arith, dirs_count_of, files_count_of, partition_of, table_sizes_of.0, table_sizes_of.1,
        ),
      )

calculate_file_offsets-AreClear_example :
    All
      (IsInside 0 (calculate_file_offsets tree start).1.partition)
      (data_ranges (calculate_file_offsets tree start).0)
    × AreClear (data_ranges (calculate_file_offsets tree start).0)
calculate_file_offsets-AreClear_example =
    calculate_file_offsets-AreClear tree start (omega (arith, data_of))
