-- ===== src/Rplexportgen/Exports.antt =====
-- `writeExports`. The assembly is a list of statements, one for each line.
use wut_tools.Common.{ℕ, ◌+◌, ◌*◌, u32, u64, Bool, List, [], ◌∷◌, ◌++◌, length, map}
use wut_tools.Elf2rpl.Crc.{Crc32}

-- `.extern`, `.section .dexports` or `.section .fexports`, `.align`, `.long` of a number and of a
-- symbol, `.string`, and an empty line
pub data Statement : Type 0 where
  extern_symbol : List ℕ → Statement
  section : Bool → Statement
  align_to : ℕ → Statement
  long : ℕ → Statement
  long_symbol : List ℕ → Statement
  string : List ℕ → Statement
  blank : Statement

-- The signature: the names with the 0 that ends each.
unfoldable pub signature : Crc32 → ℕ → List (List ℕ) → ℕ
signature zlib crc [] = crc
signature zlib crc (name ∷ names) = signature zlib (u32 (zlib.update crc (name ++ 0 ∷ []))) names

-- The entries, with the offset of each name.
unfoldable pub write_entries : ℕ → List (List ℕ) → List Statement
write_entries offset [] = []
write_entries offset (name ∷ names) =
    long_symbol name ∷ long offset ∷ write_entries (u64 (offset + (length name + 1))) names

unfoldable pub write_exports : Crc32 → Bool → List (List ℕ) → List Statement
unfolding signature write_entries
write_exports zlib is_data exports =
    map extern_symbol exports
    ++ (blank
        ∷ section is_data
        ∷ align_to 4
        ∷ blank
        ∷ long (length exports)
        ∷ long (signature zlib (u32 zlib.initial) exports)
        ∷ blank
        ∷ (write_entries (u64 (8 + 8 * length exports)) exports
            ++ (blank ∷ (map string exports ++ blank ∷ []))))
