-- ===== src/Wuhbtool/Archive/Bytes.antt =====
-- The structures of RomFSStructs.h as bytes, with their fields in the order of the target.
use wut_tools.Files.{write_at}
use wut_tools.Common.{
  ℕ, zero, suc, ◌+◌, ◌/◌, ◌%◌, ◌^◌, List, [], ◌∷◌, ◌++◌, take, replicate, Option, none, some,
}
use wut_tools.Elf.Bytes.{bytes_32}
use wut_tools.Wuhbtool.Tables.{DirRecord, FileRecord, Table}

-- `romfs_header_t`, but for `wuhb_magic`
pub record RomfsHeader : Type 0 where
  pub header_size : ℕ
  pub dir_hash_table_ofs : ℕ
  pub dir_hash_table_size : ℕ
  pub dir_table_ofs : ℕ
  pub dir_table_size : ℕ
  pub file_hash_table_ofs : ℕ
  pub file_hash_table_size : ℕ
  pub file_table_ofs : ℕ
  pub file_table_size : ℕ
  pub file_partition_ofs : ℕ

abbrev pub bytes_64 : ℕ → List ℕ
bytes_64 x = bytes_32 (x / 2 ^ 32) ++ bytes_32 (x % 2 ^ 32)

-- "WUHB"
abbrev pub wuhb_magic : List ℕ
wuhb_magic = 87 ∷ 85 ∷ 72 ∷ 66 ∷ []

unfoldable pub romfs_header_bytes : RomfsHeader → List ℕ
romfs_header_bytes h =
    wuhb_magic
    ++ (bytes_32 h.header_size
        ++ (bytes_64 h.dir_hash_table_ofs
            ++ (bytes_64 h.dir_hash_table_size
                ++ (bytes_64 h.dir_table_ofs
                    ++ (bytes_64 h.dir_table_size
                        ++ (bytes_64 h.file_hash_table_ofs
                            ++ (bytes_64 h.file_hash_table_size
                                ++ (bytes_64 h.file_table_ofs
                                    ++ (bytes_64 h.file_table_size
                                        ++ bytes_64 h.file_partition_ofs)))))))))

unfoldable pub dir_record_bytes : DirRecord → List ℕ
dir_record_bytes r =
    bytes_32 r.parent
    ++ (bytes_32 r.sibling
        ++ (bytes_32 r.child
            ++ (bytes_32 r.file ++ (bytes_32 r.hash ++ (bytes_32 r.name_size ++ r.name)))))

unfoldable pub file_record_bytes : FileRecord → List ℕ
file_record_bytes r =
    bytes_32 r.parent
    ++ (bytes_32 r.sibling
        ++ (bytes_64 r.offset
            ++ (bytes_64 r.size ++ (bytes_32 r.hash ++ (bytes_32 r.name_size ++ r.name)))))

-- The buckets of a hash table, from one on.
unfoldable pub buckets_from : ℕ → ℕ → (ℕ → ℕ) → List ℕ
buckets_from zero b buckets = []
buckets_from (suc n) b buckets = bytes_32 (buckets b) ++ buckets_from n (b + 1) buckets

unfoldable pub bucket_bytes : {R : Type 0} → Table R → List ℕ
unfolding buckets_from
bucket_bytes t = buckets_from t.count 0 t.buckets

-- The memory of a table, as far as it is allocated: each record's bytes at its offset, and zeros.
unfoldable pub records_below : {R : Type 0} → (R → List ℕ) → (ℕ → Option R) → ℕ → List ℕ → List ℕ
unfolding write_at
records_below bytes records zero memory = memory
records_below bytes records (suc o) memory =
    let rest = records_below bytes records o memory in
    elim (records o) [ none ↦ rest | some r ↦ write_at o (bytes r) rest ]

unfoldable pub dir_table_bytes : ℕ → Table DirRecord → List ℕ
unfolding records_below dir_record_bytes
dir_table_bytes size t =
    take size (records_below dir_record_bytes t.records size (replicate size 0))

unfoldable pub file_table_bytes : ℕ → Table FileRecord → List ℕ
unfolding records_below file_record_bytes
file_table_bytes size t =
    take size (records_below file_record_bytes t.records size (replicate size 0))
