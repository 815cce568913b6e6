-- ===== src/Elf2rpl/Deflate.antt =====
-- `deflateSections`. The deflate stream of zlib is a parameter.
use wut_tools.Common.{
  ℕ, zero, suc, ◌==◌, ltb, u32, bit_or, Bool, ◌||◌, if◌then◌else◌, List, [], ◌∷◌, ◌++◌, length,
  Option, none, some, Run, ok, failed, and_then,
}
use wut_tools.Elf.Bytes.{bytes_32}
use wut_tools.Elf.Constants
use wut_tools.Elf2rpl.File.{Section, ElfFile, deflate_min_section_size}

-- `deflateInit` with the input, and one call of `deflate` with Z_FINISH and a space for its output:
-- the bytes that it puts there, or `none` for Z_STREAM_ERROR.
pub record Deflate (Stream : Type 0) : Type 0 where
  pub start : List ℕ → Stream
  pub deflate : (space : ℕ) → Stream → Option (List ℕ × Stream)

-- `chunk.size()`
abbrev pub chunk_size : ℕ
chunk_size = 0x4000

-- A section whose contents are replaced, behind their size.
unfoldable pub with_deflated : Section → List ℕ → Section
with_deflated s deflated = record s {
  bytes = bytes_32 (u32 (length s.bytes)) ++ deflated;
  header = record (s.header) { flags = bit_or s.header.flags Constants.shf_deflated };
}

unfoldable pub is_skipped : Section → Bool
is_skipped s =
    ltb (length s.bytes) deflate_min_section_size
    || s.header.type == Constants.sht_rpl_crcs
    || s.header.type == Constants.sht_rpl_fileinfo

module _ {Stream : Type 0} (zlib : Deflate Stream) where
  -- The inner loop on fuel, which runs until a call leaves some of its space; `none` where the
  -- fuel runs out.
  unfoldable pub deflate_chunks : ℕ → Stream → List ℕ → Option (Run (List ℕ))
  deflate_chunks zero stream deflated = none
  deflate_chunks (suc fuel) stream deflated = elim (zlib.deflate chunk_size stream) [
    | none ↦ some failed
    | some (chunk, stream') ↦
        let rest = deflate_chunks fuel stream' (deflated ++ chunk) in
        if length chunk == chunk_size then rest else some (ok (deflated ++ chunk))
  ]

  unfoldable pub deflate_section : ℕ → Section → Option (Run Section)
  unfolding deflate_chunks with_deflated is_skipped
  deflate_section fuel s =
      if is_skipped s
      then some (ok s)
      else and_then (deflate_chunks fuel (zlib.start s.bytes) [])
          (λ out. some (ok (with_deflated s out)))

  unfoldable pub deflate_each : ℕ → List Section → Option (Run (List Section))
  unfolding deflate_section
  deflate_each fuel [] = some (ok [])
  deflate_each fuel (s ∷ ss) =
      and_then (deflate_section fuel s)
        (λ s'. and_then (deflate_each fuel ss) (λ ss'. some (ok (s' ∷ ss'))))

  unfoldable pub deflate_sections : ℕ → ElfFile → Option (Run ElfFile)
  unfolding deflate_each
  deflate_sections fuel file =
      and_then (deflate_each fuel file.sections) (λ ss. some (ok (record file { sections = ss })))
