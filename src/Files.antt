-- ===== src/Files.antt =====
-- Output files as their bytes, as std::ofstream and stdio leave them; a gap that a seek leaves reads
-- as zeros.
pub mod Chunks
pub mod Patches
use wut_tools.Common.{ℕ, ◌+◌, if◌then◌else◌, List, [], ◌++◌, drop, length, padded, is_empty}

-- `seekp(offset)` and `write(bytes)`
unfoldable pub write_at : ℕ → List ℕ → List ℕ → List ℕ
unfolding padded
write_at offset bytes file = padded offset 0 file ++ (bytes ++ drop (offset + length bytes) file)

-- `fwrite` at a position; nothing happens to the file when there are no bytes.
unfoldable pub fwrite : ℕ → List ℕ → List ℕ → List ℕ
unfolding write_at
fwrite position bytes out = if is_empty bytes then out else write_at position bytes out
