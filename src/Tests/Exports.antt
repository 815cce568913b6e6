-- ===== src/Tests/Exports.antt =====
-- The exports of a small RPL, as a text that rplimportgen reads.
use wut_tools.Common.Text.{codes}
use wut_tools.Common.{ℕ, ◌≡◌, refl, Bool, true, false, List, [], ◌∷◌, ◌++◌, ok, contains}
use wut_tools.Elf.Bytes.{bytes_32, read_32, c_string}
use wut_tools.Elf2rpl.Reading.{same_text}
use wut_tools.Readrpl.Exports.Basename.{get_file_basename_lem}
use wut_tools.Readrpl.Exports.Groups.{export_names, export_groups, kept, kept_of}
use wut_tools.Readrpl.Exports.Imported.{read_imports-generate_exports_def}
use wut_tools.Readrpl.Exports.{
  export_count, export_name, is_listed, in_blacklist, generate_exports_def, get_file_basename,
}
use wut_tools.Readrpl.Rpl.{Section, Rpl}
use wut_tools.Rplexportgen.Reading.{before_comment}
use wut_tools.Rplimportgen.Reading.{ReadMode, read_imports, get_lines}
use wut_tools.Tests.Files.{header_at, elf_header}
use wut_tools.Utils.{trim}

-- A function, one that is left out, and thread-local data.
abbrev exports : Section
exports = record {
  header = header_at 0x80000001 6 0xc0000000 41 0 0;
  name = [];
  bytes =
      bytes_32 3
      ++ (bytes_32 0
          ++ (bytes_32 0x02000000
              ++ (bytes_32 0x20
                  ++ (bytes_32 0x02000010
                      ++ (bytes_32 0x22
                          ++ (bytes_32 0
                              ++ (bytes_32 0x80000022
                                  ++ (codes "f" ++ 0 ∷ (codes "memset" ++ 0 ∷ [])))))))));
}

abbrev rpl : Rpl
rpl = record { header = elf_header; file_size = 0; sections = exports ∷ [] }

abbrev groups : List (Bool × List (List ℕ))
groups = (true, codes "f" ∷ codes "memset" ∷ []) ∷ []

groups_run : export_groups rpl.sections ≡ ok groups
unfolding export_groups export_names export_count export_name read_32 c_string
groups_run = refl

read_imports-generate_exports_def_example :
    (out : List ℕ) × (mode : ReadMode) × (generate_exports_def true rpl (codes "lib") ≡ ok out)
    × (read_imports (get_lines out)
        ≡ ok (record {
          mode = mode;
          module_name = codes "lib";
          funcs = kept_of true groups;
          datas = kept_of false groups;
        }))
read_imports-generate_exports_def_example =
    read_imports-generate_exports_def rpl (codes "lib") groups groups_run
      (
        (
          (refl, trimmed_f, (refl, tt)),
          ((refl, trimmed_memset, (refl, (refl, (refl, (refl, (refl, (refl, tt))))))), tt),
        ),
        tt,
      )
      (refl, (refl, (refl, tt))) trimmed_name
  where
    trimmed_f : trim (before_comment (codes "f")) ≡ codes "f"
    trimmed_f = unfold trim before_comment in refl

    trimmed_memset : trim (before_comment (codes "memset")) ≡ codes "memset"
    trimmed_memset = unfold trim before_comment in refl

    trimmed_name : trim (before_comment (codes ":NAME lib")) ≡ codes ":NAME lib"
    trimmed_name = unfold trim before_comment in refl

-- "memset" is left out.
kept_functions : kept_of true groups ≡ codes "f" ∷ []
unfolding kept_of kept in_blacklist is_listed same_text
kept_functions = refl

get_file_basename_lem_example :
    get_file_basename (codes "a.b/" ++ codes "lib.so.rpl") ≡ codes "lib.so"
get_file_basename_lem_example =
    get_file_basename_lem (codes "a.b") 47 (codes "lib.so") (codes "rpl") refl
      (refl, (refl, (refl, (refl, (refl, (refl, (refl, (refl, (refl, (refl, tt)))))))))) no_dot
  where
    no_dot : contains (codes "rpl") 46 ≡ false
    no_dot = unfold contains in refl
