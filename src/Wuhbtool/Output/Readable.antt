-- ===== src/Wuhbtool/Output/Readable.antt =====
-- The trees whose files can be copied, and what is written for them.
use wut_tools.Files.{fwrite}
use wut_tools.Common.{
  and_then, ℕ, ◌+◌, ◌^◌, ◌≤◌, ◌<◌, ◌≡◌, refl, ap, ◌∙◌, arith, u64, ltb, false, List, [], take,
  length, none, some, ok,
}
use wut_tools.Wuhbtool.Entries.{Contents, host_file, buffer, FileNode, Children, end, file, dir}
use wut_tools.Wuhbtool.Offsets.{
  Cursor, calculate_dir_offsets, place_file, place_files, place_in_dirs, calculate_file_offsets,
  update_siblings,
}
use wut_tools.Wuhbtool.Output.Copy.{copied, copy_chunks_lem}
use wut_tools.Wuhbtool.Output.{romfs_filepartition_ofs, write_contents, write_file, write_children}

-- At least `n` bytes.
abbrev pub HasBytes : ℕ → Contents → Type 0
HasBytes n (host_file none) = ⊥
HasBytes n (host_file (some input)) = n ≤ length input
HasBytes n (buffer bytes) = n ≤ length bytes

abbrev pub bytes_of : Contents → List ℕ
bytes_of (host_file none) = []
bytes_of (host_file (some input)) = input
bytes_of (buffer bytes) = bytes

-- Each file has the bytes that its size says, and is smaller than the fuel.
abbrev pub IsReadable : ℕ → Children → Type 0
IsReadable fuel end = Unit {0}
IsReadable fuel (file f rest) =
    (f.size < 2 ^ 64) × (f.size < fuel) × HasBytes f.size f.contents × IsReadable fuel rest
IsReadable fuel (dir d es rest) = IsReadable fuel es × IsReadable fuel rest

-- The first bytes of each file, as many as its size says, at its offset in the file partition.
abbrev pub with_file : FileNode → List ℕ → List ℕ
with_file f out =
    fwrite (u64 (f.offset + romfs_filepartition_ofs)) (take f.size (bytes_of f.contents)) out

unfoldable pub with_files : Children → List ℕ → List ℕ
with_files end out = out
with_files (file f rest) out = with_files rest (with_file f out)
with_files (dir d es rest) out = with_files rest (with_files es out)

write_contents_lem :
    (fuel size position : ℕ) (c : Contents) (out : List ℕ)
    → size < 2 ^ 64
    → size < fuel
    → HasBytes size c
    → write_contents fuel size position c out
      ≡ some (ok (fwrite position (take size (bytes_of c)) out))
unfolding write_contents
write_contents_lem fuel size position (host_file none) out wide enough bytes = absurd bytes
write_contents_lem fuel size position (host_file (some input)) out wide enough bytes =
    let e : ltb (length input) size ≡ false = ground (arith, bytes) in
    let all : copied size input position out ≡ ok (fwrite position (take size input) out) =
      rw e refl in
    copy_chunks_lem fuel size 0 0x400000 input position out wide (omega arith) (omega arith)
      (omega arith)
    ∙ ap (λ n. some (copied n input position out)) (omega arith)
    ∙ ap some all
write_contents_lem fuel size position (buffer input) out wide enough bytes =
    let e : ltb (length input) size ≡ false = ground (arith, bytes) in rw e refl

-- If every file of the tree has as many bytes as its size says and the fuel is more than each size,
-- then the writing of the tree ends normally, and the output has each file's bytes, in one write, at
-- the file's offset in the file partition.
pub write_children_lem :
    (fuel : ℕ) (es : Children) (out : List ℕ)
    → IsReadable fuel es
    → write_children fuel es out ≡ some (ok (with_files es out))
unfolding write_children write_file with_files
write_children_lem fuel end out readable = refl
write_children_lem fuel (file f rest) out readable =
    let e =
      write_contents_lem fuel f.size (u64 (f.offset + romfs_filepartition_ofs)) f.contents out
        readable.0 readable.1 readable.2 in
    ap (λ r. and_then r (λ out'. write_children fuel rest out')) e
    ∙ write_children_lem fuel rest (with_file f out) readable.3
write_children_lem fuel (dir d es rest) out readable =
    ap (λ r. and_then r (λ out'. write_children fuel rest out'))
      (write_children_lem fuel es out readable.0)
    ∙ write_children_lem fuel rest (with_files es out) readable.1

-- The passes keep the sizes and the bytes.
IsReadable-calculate_dir_offsets :
    (fuel : ℕ) (es : Children) (o : ℕ)
    → IsReadable fuel es
    → IsReadable fuel (calculate_dir_offsets es o).0
unfolding calculate_dir_offsets
IsReadable-calculate_dir_offsets fuel end o h = h
IsReadable-calculate_dir_offsets fuel (file f rest) o h =
    (h.0, h.1, h.2, IsReadable-calculate_dir_offsets fuel rest o h.3)
IsReadable-calculate_dir_offsets fuel (dir d es rest) o h = (
  IsReadable-calculate_dir_offsets fuel es _ h.0,
  IsReadable-calculate_dir_offsets fuel rest _ h.1,
)

IsReadable-place_files :
    (fuel : ℕ) (es : Children) (c : Cursor)
    → IsReadable fuel es
    → IsReadable fuel (place_files es c).0
unfolding place_files place_file
IsReadable-place_files fuel end c h = h
IsReadable-place_files fuel (file f rest) c h =
    (h.0, h.1, h.2, IsReadable-place_files fuel rest _ h.3)
IsReadable-place_files fuel (dir d es rest) c h = (h.0, IsReadable-place_files fuel rest c h.1)

IsReadable-place_in_dirs :
    (fuel : ℕ) (es : Children) (c : Cursor)
    → IsReadable fuel es
    → IsReadable fuel (place_in_dirs es c).0
unfolding place_in_dirs
IsReadable-place_in_dirs fuel end c h = h
IsReadable-place_in_dirs fuel (file f rest) c h =
    (h.0, h.1, h.2, IsReadable-place_in_dirs fuel rest c h.3)
IsReadable-place_in_dirs fuel (dir d es rest) c h = (
  IsReadable-place_files fuel (place_in_dirs es c).0 _ (IsReadable-place_in_dirs fuel es c h.0),
  IsReadable-place_in_dirs fuel rest _ h.1,
)

IsReadable-update_siblings :
    (fuel : ℕ) (es : Children) → IsReadable fuel es → IsReadable fuel (update_siblings es)
unfolding update_siblings
IsReadable-update_siblings fuel end h = h
IsReadable-update_siblings fuel (file f rest) h =
    (h.0, h.1, h.2, IsReadable-update_siblings fuel rest h.3)
IsReadable-update_siblings fuel (dir d es rest) h =
    (IsReadable-update_siblings fuel es h.0, IsReadable-update_siblings fuel rest h.1)

pub IsReadable-passes :
    (fuel : ℕ) (es : Children) (o : ℕ) (c : Cursor)
    → IsReadable fuel es
    → IsReadable fuel (update_siblings (calculate_file_offsets (calculate_dir_offsets es o).0 c).0)
unfolding calculate_file_offsets
IsReadable-passes fuel es o c h =
    let es1 = (calculate_dir_offsets es o).0 in
    let h1 = IsReadable-calculate_dir_offsets fuel es o h in
    IsReadable-update_siblings fuel _ (
      IsReadable-place_files fuel (place_in_dirs es1 c).0 _
        (IsReadable-place_in_dirs fuel es1 c h1))
