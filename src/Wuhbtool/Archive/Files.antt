-- ===== src/Wuhbtool/Archive/Files.antt =====
-- The bytes of the header and of the files in the finished archive.
use wut_tools.Files.{fwrite}
use wut_tools.Common.Apart.{All-imply}
use wut_tools.Common.Ranges.{
  Range, IsClear, AreClear, IsInside, AreClear-append, shift, AreClear-shift, IsInside-shift,
}
use wut_tools.Common.{
  map-append, All-front, All-back, ℕ, ◌+◌, ◌^◌, ◌≤◌, ◌<◌, ◌≡◌, inl, inr, refl, sym, ap, ap₂, subst,
  ◌∙◌, arith, u64, List, [], ◌∷◌, ◌++◌, All, All-append, map, take, length, length-take, none, some,
}
use wut_tools.Wuhbtool.Archive.Bytes.{
  RomfsHeader, romfs_header_bytes, bucket_bytes, dir_table_bytes, file_table_bytes,
}
use wut_tools.Wuhbtool.Archive.Ends.{archive_bytes, prepare-IsReadable}
use wut_tools.Wuhbtool.Archive.Located.{FitsArchive, write_tables_lem, romfs_header-first}
use wut_tools.Wuhbtool.Archive.{
  filled_context, set_root_offset, prepare_children, prepare, romfs_header,
}
use wut_tools.Wuhbtool.Entries.{
  Contents, host_file, buffer, FileNode, DirNode, Children, end, file, dir,
}
use wut_tools.Wuhbtool.Offsets.Data.{range_of, data_ranges, own_data, inner_data, passes-AreClear}
use wut_tools.Files.Chunks.{
  Chunk, range_of_chunk, Holds, write_all, write_all-append, write_all-Holds,
}
use wut_tools.Wuhbtool.Output.Readable.{HasBytes, bytes_of, IsReadable, with_file, with_files}
use wut_tools.Wuhbtool.Output.{romfs_filepartition_ofs}

-- A file's bytes, at its offset in the file partition.
abbrev pub file_chunk : FileNode → Chunk
file_chunk f = record {
  position = u64 (f.offset + romfs_filepartition_ofs);
  bytes = take f.size (bytes_of f.contents);
}

unfoldable pub file_chunks : Children → List Chunk
file_chunks end = []
file_chunks (file f rest) = file_chunk f ∷ file_chunks rest
file_chunks (dir d es rest) = file_chunks es ++ file_chunks rest

with_files-write_all :
    (es : Children) (out : List ℕ) → with_files es out ≡ write_all (file_chunks es) out
unfolding with_files write_all file_chunks
with_files-write_all end out = refl
with_files-write_all (file f rest) out = with_files-write_all rest (with_file f out)
with_files-write_all (dir d es rest) out =
    with_files-write_all rest (with_files es out)
    ∙ ap (write_all (file_chunks rest)) (with_files-write_all es out)
    ∙ sym (write_all-append (file_chunks es) (file_chunks rest) out)

length-bytes_of : (n : ℕ) (c : Contents) → HasBytes n c → length (take n (bytes_of c)) ≡ n
length-bytes_of n (host_file none) h = absurd h
length-bytes_of n (host_file (some input)) h = length-take n input ∙ omega (arith, h)
length-bytes_of n (buffer bytes) h = length-take n bytes ∙ omega (arith, h)

-- The chunks lie where the offsets say, behind the header.
chunk_ranges :
    (fuel high : ℕ) (es : Children)
    → IsReadable fuel es
    → All (IsInside 0 high) (data_ranges es)
    → high + 0x200 < 2 ^ 64
    → map range_of_chunk (file_chunks es) ≡ map (shift 0x200) (data_ranges es)
unfolding file_chunks data_ranges
chunk_ranges fuel high end readable inside small = refl
chunk_ranges fuel high (file f rest) readable inside small =
    let e : u64 (f.offset + romfs_filepartition_ofs) ≡ f.offset + 0x200 =
      omega (arith, inside.0.1) in
    let n = length-bytes_of f.size f.contents readable.2 in
    let one : range_of_chunk (file_chunk f) ≡ shift 0x200 (range_of f) =
      ap₂ (λ (a b : ℕ). record { start = a; size = b }) e n in
    ap₂ (λ (r : Range) (rs : List Range). r ∷ rs) one
      (chunk_ranges fuel high rest readable.3 inside.1 small)
chunk_ranges fuel high (dir d es rest) readable inside small =
    let xs = data_ranges es in
    let ys = data_ranges rest in
    map-append range_of_chunk (file_chunks es) (file_chunks rest)
    ∙ ap₂ (λ (a b : List Range). a ++ b)
        (chunk_ranges fuel high es readable.0 (All-front (IsInside 0 high) xs ys inside) small)
        (chunk_ranges fuel high rest readable.1 (All-back (IsInside 0 high) xs ys inside) small)
    ∙ sym (map-append (shift 0x200) xs ys)

prepare-AreClear :
    (dir_count file_count : ℕ) (root : DirNode) (es : Children)
    → inner_data es + own_data es < 2 ^ 64
    → All
        (IsInside 0 (prepare dir_count file_count root es).file_partition_size)
        (data_ranges (prepare dir_count file_count root es).children)
      × AreClear (data_ranges (prepare dir_count file_count root es).children)
unfolding prepare prepare_children
prepare-AreClear dir_count file_count root es small =
    passes-AreClear es (set_root_offset root 0).1 (record { partition = 0; entry = 0 })
      (omega arith)

abbrev pub header_chunk : RomfsHeader → Chunk
header_chunk h = record { position = 0; bytes = romfs_header_bytes h }

length-romfs_header_bytes : (h : RomfsHeader) → length (romfs_header_bytes h) ≡ 80
unfolding romfs_header_bytes
length-romfs_header_bytes h = refl

-- The header, ranges of a partition behind it, and what starts behind the partition.
ordered_AreClear :
    (high : ℕ) (h t : Range) (rs : List Range)
    → h.start + h.size ≤ 0x200
    → high + 0x200 ≤ t.start
    → All (IsInside 0 high) rs
    → AreClear rs
    → AreClear (h ∷ (map (shift 0x200) rs ++ t ∷ []))
ordered_AreClear high h t rs before behind inside clear =
    let inside' = IsInside-shift 0x200 0 high rs inside in
    (
      All-append (IsClear h) (map (shift 0x200) rs) (t ∷ [])
          (All-imply (IsInside 0x200 (high + 0x200)) (IsClear h) (map (shift 0x200) rs)
            (λ r w. inl (omega arith)) inside')
          (inl (omega arith), tt),
      AreClear-append 0x200 (high + 0x200) (map (shift 0x200) rs) (t ∷ []) inside' (inr behind, tt)
          (AreClear-shift 0x200 rs clear) (tt, tt),
    )

-- The three parts of the output as one list of writes.
written :
    (h : RomfsHeader) (fs : List Chunk) (t : Chunk)
    → write_all (header_chunk h ∷ (fs ++ t ∷ [])) []
      ≡ fwrite t.position t.bytes (write_all fs (fwrite 0 (romfs_header_bytes h) []))
unfolding write_all
written h fs t = write_all-append fs (t ∷ []) (fwrite 0 (romfs_header_bytes h) [])

-- If every file has as many bytes as its size says, the sizes and 16 bytes for each file fit in 64
-- bits, and so does the archive, then the finished archive has the header's bytes at its start and
-- each file's bytes at the file's offset in the file partition, which starts at 0x200: nothing that
-- is written later, neither other files nor tables, changes them.
pub archive_bytes-Holds :
    (fuel dir_count file_count : ℕ) (root : DirNode) (es : Children)
    → IsReadable fuel es
    → inner_data es + own_data es < 2 ^ 64
    → FitsArchive (filled_context root es) (prepare dir_count file_count root es)
    → All (Holds (archive_bytes dir_count file_count root es)) (
        header_chunk (romfs_header (filled_context root es) (prepare dir_count file_count root es))
        ∷ file_chunks (prepare dir_count file_count root es).children)
archive_bytes-Holds fuel dir_count file_count root es readable small fits =
    let c = filled_context root es in
    let p = prepare dir_count file_count root es in
    let h = romfs_header c p in
    let high = p.file_partition_size in
    let layout = prepare-AreClear dir_count file_count root es small in
    let room : high + 0x200 < 2 ^ 64 = omega (arith, fits.3) in
    let tables : Chunk = record {
      position = h.dir_hash_table_ofs;
      bytes =
          bucket_bytes p.infos.dirs
          ++ (dir_table_bytes h.dir_table_size p.infos.dirs
              ++ (bucket_bytes p.infos.files ++ file_table_bytes h.file_table_size p.infos.files));
    } in
    let fs = file_chunks p.children in
    let ranges =
      map-append range_of_chunk fs (tables ∷ [])
      ∙ ap (λ (rs : List Range). rs ++ range_of_chunk tables ∷ [])
          (chunk_ranges fuel high p.children
            (prepare-IsReadable fuel dir_count file_count root es readable) layout.0 room) in
    let clear : AreClear (map range_of_chunk (header_chunk h ∷ (fs ++ tables ∷ []))) =
      subst (λ (rs : List Range). AreClear (range_of_chunk (header_chunk h) ∷ rs)) (sym ranges)
        (ordered_AreClear high (range_of_chunk (header_chunk h)) (range_of_chunk tables)
          (data_ranges p.children) (omega (arith, length-romfs_header_bytes h))
          (romfs_header-first c p fits) layout.0 layout.1) in
    let all = write_all-Holds (header_chunk h ∷ (fs ++ tables ∷ [])) [] clear in
    let e : archive_bytes dir_count file_count root es
        ≡ write_all (header_chunk h ∷ (fs ++ tables ∷ [])) [] =
      write_tables_lem h p.infos (with_files p.children (fwrite 0 (romfs_header_bytes h) []))
      ∙ ap (fwrite tables.position tables.bytes)
          (with_files-write_all p.children (fwrite 0 (romfs_header_bytes h) []))
      ∙ sym (written h fs tables) in
    subst (λ out. All (Holds out) (header_chunk h ∷ fs)) (sym e)
      (
        all.0,
        All-front (Holds (write_all (header_chunk h ∷ (fs ++ tables ∷ [])) [])) fs (tables ∷ [])
            all.1,
      )
