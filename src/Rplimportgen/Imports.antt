-- ===== src/Rplimportgen/Imports.antt =====
-- `writeExports` of rplimportgen. The assembly is a list of statements, one for each line.
pub mod Padded
use wut_tools.Common.Text.{codes}
use wut_tools.Common.{ℕ, ◌+◌, bit_and, u64, Bool, if◌then◌else◌, List, [], ◌∷◌, ◌++◌, length}
use wut_tools.Utils.{wrap_sub, complement}

-- `.section` with its name and its flags, and the type @0x80000002, `.align`, `.long`, `.ascii`, `.skip`, `.global`, `.type` with "@object" or "@function", a label, and an empty line
pub data Statement : Type 0 where
  section : (name flags : List ℕ) → Statement
  align_to : ℕ → Statement
  long : ℕ → Statement
  ascii : List ℕ → Statement
  skip : ℕ → Statement
  global : List ℕ → Statement
  symbol_type : List ℕ → Bool → Statement
  label : List ℕ → Statement
  blank : Statement

-- `padding`
unfoldable pub padding : List ℕ → ℕ
padding module_name =
    wrap_sub 64 (bit_and (u64 (length module_name + 1 + 8)) (complement 64 7)) (length module_name)

unfoldable pub write_imported : List ℕ → Bool → List (List ℕ) → List Statement
write_imported module_name is_data [] = []
write_imported module_name is_data (name ∷ names) =
    (if is_data
      then section (codes ".dimport_" ++ module_name ++ codes "." ++ name) (codes "a")
      else section (codes ".fimport_" ++ module_name ++ codes "." ++ name) (codes "ax"))
    ∷ global name
    ∷ symbol_type name is_data
    ∷ label name
    ∷ long 0
    ∷ long 0
    ∷ blank
    ∷ write_imported module_name is_data names

unfoldable pub write_imports : List ℕ → Bool → List (List ℕ) → List Statement
unfolding padding write_imported
write_imports module_name is_data names =
    (if is_data
      then section (codes ".dimport_" ++ module_name) (codes "a")
      else section (codes ".fimport_" ++ module_name) (codes "ax"))
    ∷ align_to 4
    ∷ blank
    ∷ long 1
    ∷ long 0
    ∷ blank
    ∷ ascii module_name
    ∷ skip (padding module_name)
    ∷ blank
    ∷ write_imported module_name is_data names
