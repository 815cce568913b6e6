-- ===== src/Tests/Application.antt =====
-- The name of an application, its meta.ini, its archive, and a memory file that an image is saved to.
use wut_tools.Common.Text.{codes}
use wut_tools.Common.{ℕ, ◌-◌, ◌≡◌, refl, arith, false, List, [], ◌∷◌, contains, none, some, padded}
use wut_tools.Files.{write_at}
use wut_tools.Readrpl.Exports.{get_file_basename}
use wut_tools.Rplimportgen.Reading.{get_lines, join_first}
use wut_tools.Wuhbtool.Application.{new_file, HostFile, Resources, Naming}
use wut_tools.Wuhbtool.Entries.{host_file, end, file}
use wut_tools.Wuhbtool.Images.Saved.{on_file}
use wut_tools.Wuhbtool.Images.{Saving, finished, write_call, seek_call, tell_call, seek_set}
use wut_tools.Wuhbtool.Meta.Named.{name_of_path-get_file_basename}
use wut_tools.Wuhbtool.Meta.{
  find_last_of, start_position, end_position, name_of_path, application_names, meta_ini_of,
}

-- The last '.' is before the last '/'.
abbrev path : List ℕ
path = codes "build.d/app"

path_plain : contains path 92 ≡ false
unfolding contains
path_plain = refl

name_of_path-get_file_basename_example : name_of_path path ≡ get_file_basename path
name_of_path-get_file_basename_example =
    name_of_path-get_file_basename path (omega arith) path_plain

meta_ini_lines :
    get_lines (meta_ini_of none none (some (codes "me")) path)
    ≡ codes "[menu]" ∷ codes "longname=app" ∷ codes "shortname=app" ∷ codes "author=me" ∷ []
unfolding get_lines join_first meta_ini_of application_names name_of_path start_position
    end_position find_last_of
meta_ini_lines = refl

-- Two bytes behind a gap, then the position is asked for, and the byte before it is written again.
abbrev saving : Saving
saving = seek_call 1 seek_set (λ _. write_call (7 ∷ 8 ∷ []) 1 2 (λ _.
    tell_call (λ pos. seek_call (pos - 1) seek_set (λ _. write_call (9 ∷ []) 1 1 (λ _. finished)))))

saved : on_file saving [] 0 ≡ record { bytes = 0 ∷ 7 ∷ 9 ∷ []; pos = 3 }
unfolding write_at padded
saved = refl

-- An executable of three bytes, an icon of two, and a folder of contents with one file.
abbrev executable : HostFile
executable = record { size = 3; bytes = some (1 ∷ 2 ∷ 3 ∷ []) }

abbrev naming : Naming
naming = record { name = none; short_name = none; author = some (codes "me"); path = path }

abbrev resources : Resources
resources = record {
  icon = some (31 ∷ 139 ∷ []);
  tv_image = none;
  drc_image = none;
  content = some (file (new_file (codes "a") (host_file (some (9 ∷ []))) 1) end);
}
