-- ===== src/Rplimportgen/LinkerScript.antt =====
-- `writeLinkerScript` of rplimportgen. The script is a list of output sections, and each of them has
-- the patterns of the input sections that go into it.
pub mod Placed
use wut_tools.Common.Text.{codes}
use wut_tools.Common.{ℕ, Bool, true, false, List, [], ◌∷◌, ◌++◌}

-- `*(name)`, and `*(prefix.*)` with the point in the prefix
pub data Pattern : Type 0 where
  named : List ℕ → Pattern
  prefixed : List ℕ → Pattern

-- A line `name ALIGN(alignment)`, the pattern in KEEP, and the pattern behind it. The memory region
-- is always loadmem.
pub record OutputSection : Type 0 where
  pub name : List ℕ
  pub alignment : ℕ
  pub kept : Pattern
  pub collected : Pattern

unfoldable pub write_linker_script : List ℕ → List OutputSection
write_linker_script name =
    record {
      name = codes ".fimport_" ++ name;
      alignment = 16;
      kept = named (codes ".fimport_" ++ name);
      collected = prefixed (codes ".fimport_" ++ name ++ codes ".");
    }
    ∷ record {
      name = codes ".dimport_" ++ name;
      alignment = 16;
      kept = named (codes ".dimport_" ++ name);
      collected = prefixed (codes ".dimport_" ++ name ++ codes ".");
    }
    ∷ []
