-- ===== src/Wuhbtool/Archive/Ends.antt =====
-- The whole of `CreateArchive`, on entries that can be read.
use wut_tools.Files.{fwrite}
use wut_tools.Common.{
  and_then, ◌+◌, ◌*◌, ◌^◌, ◌<◌, ◌≡◌, ℕ, ap, ap₂, ◌∙◌, arith, u32, List, [], some, ok,
}
use wut_tools.Wuhbtool.Archive.Bytes.{romfs_header_bytes}
use wut_tools.Wuhbtool.Archive.Room.{IsFresh, prepare-has_tables}
use wut_tools.Wuhbtool.Archive.{
  filled_context, prepare_children, prepare, romfs_header, write_tables, write_archive,
  create_archive,
}
use wut_tools.Wuhbtool.Entries.{DirNode, Children}
use wut_tools.Wuhbtool.Hashing.Count.{product, IsBucketCount, get_hash_table_count_ends}
use wut_tools.Wuhbtool.Hashing.{get_hash_table_count}
use wut_tools.Wuhbtool.Output.Readable.{
  IsReadable, with_files, write_children_lem, IsReadable-passes,
}

pub prepare-IsReadable :
    (fuel dir_count file_count : ℕ) (root : DirNode) (es : Children)
    → IsReadable fuel es
    → IsReadable fuel (prepare dir_count file_count root es).children
unfolding prepare prepare_children
prepare-IsReadable fuel dir_count file_count root es h = IsReadable-passes fuel es _ _ h

-- The output that is written: the header, the files and the tables.
abbrev pub archive_bytes : (dir_count file_count : ℕ) → DirNode → Children → List ℕ
archive_bytes dir_count file_count root es =
    let p = prepare dir_count file_count root es in
    let h = romfs_header (filled_context root es) p in
    write_tables h p.infos (with_files p.children (fwrite 0 (romfs_header_bytes h) []))

write_archive_lem :
    (fuel dir_count file_count : ℕ) (root : DirNode) (es : Children)
    → 4 * dir_count < 2 ^ 32
    → 4 * file_count < 2 ^ 32
    → IsFresh root es
    → IsReadable fuel es
    → write_archive fuel root es (some dir_count) (some file_count)
      ≡ some (ok (archive_bytes dir_count file_count root es))
unfolding write_archive
write_archive_lem fuel n m root es few_dirs few_files fresh readable =
    let p = prepare n m root es in
    let h = romfs_header (filled_context root es) p in
    rw (prepare-has_tables n m root es few_dirs few_files fresh) (
      ap (λ r. and_then r (λ out. some (ok (write_tables h p.infos out))))
        (write_children_lem fuel p.children (fwrite 0 (romfs_header_bytes h) [])
          (prepare-IsReadable fuel n m root es readable)))

-- If no entry has an offset yet, the tables of records have sizes of 32 bits, there are fewer than
-- 2 ^ 30 - 510513 directories and files each, the fuel is more than 510511 and than each file's size,
-- and every file has as many bytes as its size says, then `CreateArchive` ends normally, with no
-- write outside the tables: it finds two counts of buckets as the hash tables need them, and its
-- output is the header, then each file's bytes in one write at the file's offset in the file
-- partition, then the four tables.
pub create_archive_ends :
    (fuel : ℕ) (root : DirNode) (es : Children)
    → product + 1 < fuel
    → (filled_context root es).num_dirs + product + 3 < 2 ^ 30
    → (filled_context root es).num_files + product + 3 < 2 ^ 30
    → IsFresh root es
    → IsReadable fuel es
    → (dir_count : ℕ) × (file_count : ℕ) × IsBucketCount (filled_context root es).num_dirs dir_count
      × IsBucketCount (filled_context root es).num_files file_count
      × (create_archive fuel root es ≡ some (ok (archive_bytes dir_count file_count root es)))
unfolding create_archive
create_archive_ends fuel root es enough dirs files fresh readable =
    let c = filled_context root es in
    let d : u32 c.num_dirs ≡ c.num_dirs = omega arith in
    let f : u32 c.num_files ≡ c.num_files = omega arith in
    let (n, e, n_fits) = get_hash_table_count_ends fuel c.num_dirs enough (omega arith) in
    let (m, e', m_fits) = get_hash_table_count_ends fuel c.num_files enough (omega arith) in
    (
      n,
      m,
      n_fits,
      m_fits,
      ap₂ (write_archive fuel root es) (ap (get_hash_table_count fuel) d ∙ e)
            (ap (get_hash_table_count fuel) f ∙ e')
          ∙ write_archive_lem fuel n m root es (omega (arith, n_fits.2)) (omega (arith, m_fits.2))
              fresh readable,
    )
