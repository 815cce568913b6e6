-- ===== src/Wuhbtool/Archive/Located.antt =====
-- Where the tables of an archive are.
use wut_tools.Files.{fwrite, write_at}
use wut_tools.Common.{
  ℕ, zero, suc, ◌+◌, ◌*◌, ◌/◌, ◌%◌, ◌^◌, ◌≤◌, ◌<◌, ◌≡◌, refl, sym, ap, ap₂, ◌∙◌, arith, u64, false,
  List, [], ◌∷◌, ◌++◌, take, length, is_empty, replicate, Option, none, some, append_assoc,
  append-nil, length-append, length-take,
}
use wut_tools.Utils.Align.{align_rounded}
use wut_tools.Utils.{align}
use wut_tools.Wuhbtool.Archive.Bytes.{
  RomfsHeader, buckets_from, bucket_bytes, records_below, dir_table_bytes, file_table_bytes,
  dir_record_bytes, file_record_bytes,
}
use wut_tools.Wuhbtool.Archive.{Prepared, romfs_header, write_tables}
use wut_tools.Wuhbtool.Entries.{Context}
use wut_tools.Files.Patches.{fwrite-append, read_at, read_at-within, length-write_at}
use wut_tools.Wuhbtool.Output.{romfs_filepartition_ofs}
use wut_tools.Wuhbtool.Tables.{DirRecord, FileRecord, Table, Infos}

length-buckets_from : (n b : ℕ) (buckets : ℕ → ℕ) → length (buckets_from n b buckets) ≡ 4 * n
unfolding buckets_from
length-buckets_from zero b buckets = refl
length-buckets_from (suc n) b buckets =
    let e = length-buckets_from n (b + 1) buckets in omega (arith, e)

length-bucket_bytes : {R : Type 0} (t : Table R) → length (bucket_bytes t) ≡ 4 * t.count
unfolding bucket_bytes
length-bucket_bytes t = length-buckets_from t.count 0 t.buckets

length-replicate : (n a : ℕ) → length (replicate n a) ≡ n
length-replicate zero a = refl
length-replicate (suc n) a = ap suc (length-replicate n a)

length-record :
    {R : Type 0} (bytes : R → List ℕ) (o : ℕ) (r : Option R) (rest memory : List ℕ)
    → length memory ≤ length rest
    → length memory
      ≤ length (elim r as (λ x. List ℕ) [ none ↦ rest | some x ↦ write_at o (bytes x) rest ])
length-record bytes o none rest memory h = h
length-record bytes o (some x) rest memory h =
    let k = length-write_at o (bytes x) rest in omega (arith, h, k)

length-records_below :
    {R : Type 0} (bytes : R → List ℕ) (records : ℕ → Option R) (n : ℕ) (memory : List ℕ)
    → length memory ≤ length (records_below bytes records n memory)
unfolding records_below
length-records_below bytes records zero memory = omega arith
length-records_below bytes records (suc o) memory =
    let h = length-records_below bytes records o memory in
    length-record bytes o (records o) (records_below bytes records o memory) memory h

length-table :
    {R : Type 0} (bytes : R → List ℕ) (records : ℕ → Option R) (size : ℕ)
    → length (take size (records_below bytes records size (replicate size 0))) ≡ size
length-table bytes records size =
    let h = length-records_below bytes records size (replicate size 0) in
    length-take size _ ∙ omega (arith, h, length-replicate size 0)

length-dir_table_bytes : (size : ℕ) (t : Table DirRecord) → length (dir_table_bytes size t) ≡ size
unfolding dir_table_bytes
length-dir_table_bytes size t = length-table dir_record_bytes t.records size

length-file_table_bytes :
    (size : ℕ) (t : Table FileRecord) → length (file_table_bytes size t) ≡ size
unfolding file_table_bytes
length-file_table_bytes size t = length-table file_record_bytes t.records size

-- The tables, one behind the other, are one write.
pub write_tables_lem :
    (h : RomfsHeader) (infos : Infos) (out : List ℕ)
    → write_tables h infos out
      ≡ fwrite h.dir_hash_table_ofs
          (bucket_bytes infos.dirs
            ++ (dir_table_bytes h.dir_table_size infos.dirs
                ++ (bucket_bytes infos.files ++ file_table_bytes h.file_table_size infos.files)))
          out
unfolding write_tables
write_tables_lem h infos out =
    let a = bucket_bytes infos.dirs in
    let b = dir_table_bytes h.dir_table_size infos.dirs in
    let c = bucket_bytes infos.files in
    let d = file_table_bytes h.file_table_size infos.files in
    let o1 = h.dir_hash_table_ofs in
    let o2 = o1 + length a in
    let out1 = fwrite o1 a out in
    fwrite-append (o2 + length b) c d (fwrite o2 b out1)
    ∙ fwrite-append o2 b (c ++ d) out1
    ∙ fwrite-append o1 a (b ++ (c ++ d)) out

-- The sum of all that an archive holds, from its first byte on.
abbrev pub archive_size : Context → Prepared → ℕ
archive_size c p =
    p.file_partition_size
    + 0x204
    + 4 * p.infos.dirs.count
    + c.dir_table_size
    + 4 * p.infos.files.count
    + c.file_table_size

-- The header's offsets and sizes, without wrap-around.
record IsConsecutive (c : Context) (p : Prepared) (h : RomfsHeader) : Type 0 where
  first : (p.file_partition_size + 0x200 ≤ h.dir_hash_table_ofs) × (h.dir_hash_table_ofs % 4 ≡ 0)
  dir_size : h.dir_table_size ≡ c.dir_table_size
  file_size : h.file_table_size ≡ c.file_table_size
  hash_size : h.dir_hash_table_size ≡ 4 * p.infos.dirs.count
  dirs : h.dir_table_ofs ≡ h.dir_hash_table_ofs + 4 * p.infos.dirs.count
  file_hash_size : h.file_hash_table_size ≡ 4 * p.infos.files.count
  file_hash :
      h.file_hash_table_ofs ≡ h.dir_hash_table_ofs + 4 * p.infos.dirs.count + c.dir_table_size
  files :
      h.file_table_ofs
      ≡ h.dir_hash_table_ofs + 4 * p.infos.dirs.count + c.dir_table_size + 4 * p.infos.files.count

romfs_header-IsConsecutive :
    (c : Context) (p : Prepared)
    → 4 * p.infos.dirs.count < 2 ^ 32
    → 4 * p.infos.files.count < 2 ^ 32
    → archive_size c p < 2 ^ 64
    → IsConsecutive c p (romfs_header c p)
unfolding romfs_header
romfs_header-IsConsecutive c p dirs files small =
    let n = p.file_partition_size in
    let e : u64 (n + 0x200) ≡ n + 0x200 = omega arith in
    let start : align 64 (u64 (n + 0x200)) 4 ≡ (n + 0x200 + 3) / 4 * 4 =
      ap (λ m. align 64 m 4) e ∙ align_rounded 64 2 (n + 0x200) (omega arith) (omega arith) in
    record {
      first = (omega (arith, start), omega (arith, start));
      dir_size = refl;
      file_size = refl;
      hash_size = omega arith;
      dirs = omega (arith, start);
      file_hash_size = omega arith;
      file_hash = omega (arith, start);
      files = omega (arith, start);
    }

-- Where the sizes fit: the size in bytes of each hash table in 32 bits, and the archive in 64.
abbrev pub FitsArchive : Context → Prepared → Type 0
FitsArchive c p =
    (0 < p.infos.dirs.count)
    × (4 * p.infos.dirs.count < 2 ^ 32)
    × (4 * p.infos.files.count < 2 ^ 32)
    × (archive_size c p < 2 ^ 64)

pub romfs_header-first :
    (c : Context) (p : Prepared)
    → FitsArchive c p
    → p.file_partition_size + 0x200 ≤ (romfs_header c p).dir_hash_table_ofs
romfs_header-first c p fits = (romfs_header-IsConsecutive c p fits.1 fits.2 fits.3).first.0

-- Each table is where the header says that it is.
pub record IsLocated (h : RomfsHeader) (infos : Infos) (out : List ℕ) : Type 0 where
  dir_hash_table : read_at h.dir_hash_table_ofs h.dir_hash_table_size out ≡ bucket_bytes infos.dirs
  dir_table :
      read_at h.dir_table_ofs h.dir_table_size out ≡ dir_table_bytes h.dir_table_size infos.dirs
  file_hash_table :
      read_at h.file_hash_table_ofs h.file_hash_table_size out ≡ bucket_bytes infos.files
  file_table :
      read_at h.file_table_ofs h.file_table_size out
      ≡ file_table_bytes h.file_table_size infos.files

-- Four pieces of one write.
module _ (o : ℕ) (a b c d out : List ℕ) where
  abbrev whole : List ℕ
  whole = write_at o (a ++ (b ++ (c ++ d))) out

  piece_1 : read_at o (length a) whole ≡ a
  piece_1 =
      ap (λ n. read_at n (length a) whole) (omega arith) ∙ read_at-within o [] a (b ++ (c ++ d)) out

  piece_2 : read_at (o + length a) (length b) whole ≡ b
  piece_2 = read_at-within o a b (c ++ d) out

  piece_3 : read_at (o + length a + length b) (length c) whole ≡ c
  piece_3 =
      ap₂ (λ n xs. read_at n (length c) (write_at o xs out)) (omega (arith, length-append a b))
        (sym (append_assoc a b (c ++ d)))
      ∙ read_at-within o (a ++ b) c d out

  piece_4 : read_at (o + length a + length b + length c) (length d) whole ≡ d
  piece_4 =
      let e : (a ++ (b ++ c)) ++ (d ++ []) ≡ a ++ (b ++ (c ++ d)) =
        append_assoc a (b ++ c) (d ++ [])
        ∙ ap (λ t. a ++ t) (append_assoc b c (d ++ []))
        ∙ ap (λ t. a ++ (b ++ (c ++ t))) (append-nil d) in
      ap₂ (λ n xs. read_at n (length d) (write_at o xs out))
        (omega (arith, length-append a (b ++ c), length-append b c)) (sym e)
      ∙ read_at-within o (a ++ (b ++ c)) d [] out

some_bytes : (a b : List ℕ) → 0 < length a → is_empty (a ++ b) ≡ false
some_bytes [] b h = absurd (omega arith)
some_bytes (x ∷ a) b h = refl

fwrite_some :
    (o : ℕ) (a b out : List ℕ) → 0 < length a → fwrite o (a ++ b) out ≡ write_at o (a ++ b) out
unfolding fwrite
fwrite_some o a b out h = rw (some_bytes a b h) refl

-- If the sizes fit, then the tables start at a multiple of 4 behind the header and the file
-- partition, and in the finished output the bytes at the offset and of the size that the header
-- gives for each of the four tables are that table's bytes, whatever was written before them.
pub write_tables-IsLocated :
    (c : Context) (p : Prepared) (out : List ℕ)
    → FitsArchive c p
    → IsLocated (romfs_header c p) p.infos (write_tables (romfs_header c p) p.infos out)
      × (p.file_partition_size + romfs_filepartition_ofs ≤ (romfs_header c p).dir_hash_table_ofs)
      × ((romfs_header c p).dir_hash_table_ofs % 4 ≡ 0)
write_tables-IsLocated c p out fits =
    let h = romfs_header c p in
    let s = romfs_header-IsConsecutive c p fits.1 fits.2 fits.3 in
    let t1 = bucket_bytes p.infos.dirs in
    let t2 = dir_table_bytes h.dir_table_size p.infos.dirs in
    let t3 = bucket_bytes p.infos.files in
    let t4 = file_table_bytes h.file_table_size p.infos.files in
    let o = h.dir_hash_table_ofs in
    let n1 = length-bucket_bytes p.infos.dirs in
    let n2 = length-dir_table_bytes h.dir_table_size p.infos.dirs in
    let n3 = length-bucket_bytes p.infos.files in
    let n4 = length-file_table_bytes h.file_table_size p.infos.files in
    let e =
      write_tables_lem h p.infos out
      ∙ fwrite_some o t1 (t2 ++ (t3 ++ t4)) out (omega (arith, n1, fits.0)) in
    let at : (ofs size n : ℕ) (t : List ℕ)
        → ofs ≡ n
        → size ≡ length t
        → read_at n (length t) (whole o t1 t2 t3 t4 out) ≡ t
        → read_at ofs size (write_tables h p.infos out) ≡ t =
      λ ofs size n t same fit found.
        ap (read_at ofs size) e
        ∙ ap₂ (λ i j. read_at i j (whole o t1 t2 t3 t4 out)) same fit
        ∙ found in
    (
      record {
        dir_hash_table = at _ _ _ t1 refl (s.hash_size ∙ sym n1) (piece_1 o t1 t2 t3 t4 out);
        dir_table = at _ _ _ t2 (omega (arith, s.dirs, n1)) (sym n2) (piece_2 o t1 t2 t3 t4 out);
        file_hash_table =
            at _ _ _ t3 (omega (arith, s.file_hash, s.dir_size, n1, n2)) (s.file_hash_size ∙ sym n3)
              (piece_3 o t1 t2 t3 t4 out);
        file_table =
            at _ _ _ t4 (omega (arith, s.files, s.dir_size, n1, n2, n3)) (sym n4)
              (piece_4 o t1 t2 t3 t4 out);
      },
      s.first.0,
      s.first.1,
    )
