-- ===== src/Wuhbtool/Images/Saved.antt =====
-- The memory file against a file on a disk.
use wut_tools.Files.{write_at}
use wut_tools.Common.{
  ℕ, ◌+◌, ◌-◌, ◌^◌, ◌≤◌, ◌<◌, ◌≡◌, leb, ltb, if◌then◌else◌, List, take, length, padded, Option,
  none, some,
}
use wut_tools.Wuhbtool.Images.{
  MemoryFile, write_size, Origin, seek_set, seek_cur, seek_end, other_origin, Saving, finished,
  write_call, seek_call, tell_call,
}

-- A position and an offset, whose 64 bits are those of a long, from it; none before the start.
abbrev shifted : (position offset : ℕ) → Option ℕ
shifted position offset =
    if ltb offset (2 ^ 63)
    then some (position + offset)
    else if leb (2 ^ 64) (position + offset)
    then some (position + offset - 2 ^ 64)
    else none

-- fseek of a file: from the start, the position, or the end of its bytes; none where it fails.
abbrev moved_to : (offset : ℕ) → Origin → (bytes : List ℕ) (pos : ℕ) → Option ℕ
moved_to offset seek_set bytes pos = shifted 0 offset
moved_to offset seek_cur bytes pos = shifted pos offset
moved_to offset seek_end bytes pos = shifted (length bytes) offset
moved_to offset other_origin bytes pos = none

-- The same calls on a file: a write at the position fills a gap with zeros, and a seek that fails
-- gives -1 and leaves the position.
abbrev pub on_file : Saving → (bytes : List ℕ) (pos : ℕ) → MemoryFile
on_file finished bytes pos = record { bytes = bytes; pos = pos }
on_file (write_call buffer size count next) bytes pos =
    on_file (next count) (write_at pos (take (write_size size count) buffer) bytes)
      (pos + write_size size count)
on_file (seek_call offset origin next) bytes pos = elim (moved_to offset origin bytes pos) [
  | none ↦ on_file (next (2 ^ 32 - 1)) bytes pos
  | some p ↦ on_file (next 0) bytes p
]
on_file (tell_call next) bytes pos = on_file (next pos) bytes pos

-- A seek from the end is not made behind the end of the bytes.
abbrev EndIsKnown : Origin → (bytes : List ℕ) (pos : ℕ) → Type 0
EndIsKnown seek_end bytes pos = pos ≤ length bytes
EndIsKnown _ bytes pos = Unit

-- Each write has a buffer of its size, each seek succeeds on a file, and the position stays within
-- 64 bits.
abbrev pub Fits : Saving → (bytes : List ℕ) (pos : ℕ) → Type 0
Fits finished bytes pos = Unit
Fits (write_call buffer size count next) bytes pos =
    (write_size size count ≤ length buffer)
    × (pos + write_size size count < 2 ^ 64)
    × Fits (next count) (write_at pos (take (write_size size count) buffer) bytes)
        (pos + write_size size count)
Fits (seek_call offset origin next) bytes pos =
    (offset < 2 ^ 64)
    × EndIsKnown origin bytes pos
    × (p : ℕ) × (moved_to offset origin bytes pos ≡ some p)
    × (p < 2 ^ 64)
    × Fits (next 0) bytes p
Fits (tell_call next) bytes pos = Fits (next pos) bytes pos

-- The bytes, filled up to at least `n`.
abbrev grown : ℕ → List ℕ → List ℕ
grown n bytes = if ltb (length bytes) n then padded n 0 bytes else bytes
