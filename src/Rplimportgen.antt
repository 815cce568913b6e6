-- ===== src/Rplimportgen.antt =====
-- src/rplimportgen/rplimportgen.cpp: the list of imports that is read, and the assembly that is
-- written.
pub mod Imports
pub mod LinkerScript
pub mod Reading
use wut_tools.Common.{List, [], ◌++◌, ℕ, true, false, is_empty, if◌then◌else◌, Run, ok, ◌>>=◌}
use wut_tools.Rplimportgen.Imports.{Statement, write_imports}
use wut_tools.Rplimportgen.Reading.{read_imports}

-- `main` on the lines of the input, behind the options, without the linker script; both files can be
-- opened.
unfoldable pub generate : List (List ℕ) → Run (List Statement)
unfolding read_imports write_imports
generate lines = do
  i ← read_imports lines
  ok (
      (if is_empty i.funcs then [] else write_imports i.module_name false i.funcs)
      ++ (if is_empty i.datas then [] else write_imports i.module_name true i.datas))
