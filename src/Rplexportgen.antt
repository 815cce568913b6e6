-- ===== src/Rplexportgen.antt =====
-- src/rplexportgen/rplexportgen.cpp: the list of exports that is read, and the assembly that is
-- written.
pub mod Exports
pub mod Reading
use wut_tools.Common.{List, [], ◌++◌, ℕ, true, false, is_empty, if◌then◌else◌, Run, ok, ◌>>=◌}
use wut_tools.Elf2rpl.Crc.{Crc32}
use wut_tools.Rplexportgen.Exports.{Statement, write_exports}
use wut_tools.Rplexportgen.Reading.{ExportLists, read_exports}

-- `main` on the lines of the input, behind the options; both files can be opened. The parameter is
-- std::sort of the standard library on a vector of strings.
unfoldable pub generate :
    (sort : List (List ℕ) → List (List ℕ)) → Crc32 → List (List ℕ) → Run (List Statement)
unfolding read_exports write_exports
generate sort zlib lines = do
  e ← read_exports lines
  let funcs = sort e.funcs in
      let datas = sort e.datas in
      ok (
        (if is_empty funcs then [] else write_exports zlib false funcs)
        ++ (if is_empty datas then [] else write_exports zlib true datas))
