-- ===== src/Wuhbtool/Output.antt =====
-- `write` of the entries. The output is its bytes, with the position that `fseeko64` sets.
pub mod Copy
pub mod Readable
use wut_tools.Files.{fwrite, write_at}
use wut_tools.Common.{
  and_then, ℕ, zero, suc, ◌+◌, ◌-◌, u64, ltb, if◌then◌else◌, List, [], ◌∷◌, take, drop, length,
  is_empty, Option, none, some, Run, ok, failed, fault,
}
use wut_tools.Wuhbtool.Entries.{Contents, host_file, buffer, FileNode, Children, end, file, dir}

-- `ROMFS_FILEPARTITION_OFS`
abbrev pub romfs_filepartition_ofs : ℕ
romfs_filepartition_ofs = 0x200

-- The loop of `OSFileEntry::write`, on fuel; `none` where it runs out. `input` is what is left to
-- read.
unfoldable pub copy_chunks :
    (fuel size offset read_size : ℕ) (input : List ℕ) (position : ℕ)
    → List ℕ
    → Option (Run (List ℕ))
unfolding fwrite
copy_chunks zero size offset read_size input position out = none
copy_chunks (suc fuel) size offset read_size input position out =
    let n = if ltb (size - offset) read_size then size - offset else read_size in
    let rest =
      copy_chunks fuel size (u64 (offset + n)) n (drop n input) (position + n)
        (fwrite position (take n input) out) in
    if ltb offset size then (if ltb (length input) n then some failed else rest) else some (ok out)

-- `OSFileEntry::write` and `BufferFileEntry::write`, from a base offset of 0; a buffer shorter than
-- the size is read past its end.
unfoldable pub write_contents : (fuel size position : ℕ) → Contents → List ℕ → Option (Run (List ℕ))
unfolding copy_chunks fwrite
write_contents fuel size position (host_file none) out = some failed
write_contents fuel size position (host_file (some input)) out =
    copy_chunks fuel size 0 0x400000 input position out
write_contents fuel size position (buffer bytes) out =
    some (if ltb (length bytes) size then fault else ok (fwrite position (take size bytes) out))

unfoldable pub write_file : ℕ → FileNode → List ℕ → Option (Run (List ℕ))
unfolding write_contents
write_file fuel f out =
    write_contents fuel f.size (u64 (f.offset + romfs_filepartition_ofs)) f.contents out

-- `DirectoryEntry::write`
unfoldable pub write_children : ℕ → Children → List ℕ → Option (Run (List ℕ))
unfolding write_file
write_children fuel end out = some (ok out)
write_children fuel (file f rest) out =
    and_then (write_file fuel f out) (λ out'. write_children fuel rest out')
write_children fuel (dir d es rest) out =
    and_then (write_children fuel es out) (λ out'. write_children fuel rest out')
