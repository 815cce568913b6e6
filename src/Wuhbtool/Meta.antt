-- ===== src/Wuhbtool/Meta.antt =====
-- src/wuhbtool/main.cpp: the names of the application and the file meta.ini. An option that is not
-- given is `none`; texts have no zero characters, as they come from the command line.
pub mod Named
use wut_tools.Common.Text.{codes}
use wut_tools.Common.{
  ℕ, zero, ◌+◌, ◌==◌, Bool, ◌||◌, if◌then◌else◌, List, [], ◌∷◌, ◌++◌, take, drop, length, is_empty,
  Option, none, some,
}
use wut_tools.Utils.{wrap_sub}

-- `find_last_of` of a character
unfoldable pub find_last_of : ℕ → List ℕ → Option ℕ
find_last_of x [] = none
find_last_of x (c ∷ s) = elim (find_last_of x s) [
  | some i ↦ some (i + 1)
  | none ↦ if c == x then some 0 else none
]

-- The positions of the name in the path.
unfoldable pub start_position : List ℕ → ℕ
unfolding find_last_of
start_position path = elim (find_last_of 47 path) [ some slash ↦ slash + 1 | none ↦ 0 ]

unfoldable pub end_position : List ℕ → ℕ
unfolding find_last_of
end_position path = elim (find_last_of 46 path) [ some dot ↦ dot | none ↦ length path ]

-- `substr`, with the length that wraps around where the last '.' is before the last '/'.
unfoldable pub name_of_path : List ℕ → List ℕ
unfolding start_position end_position
name_of_path path =
    take (wrap_sub 64 (end_position path) (start_position path)) (drop (start_position path) path)

-- An option, or another one, or nothing.
abbrev pub either_option : Option (List ℕ) → Option (List ℕ) → List ℕ
either_option (some text) other = text
either_option none (some text) = text
either_option none none = []

-- The long and the short name.
unfoldable pub application_names :
    (name short_name : Option (List ℕ)) (path : List ℕ) → List ℕ × List ℕ
unfolding name_of_path
application_names name short_name path =
    let long = either_option name short_name in
    let short = either_option short_name name in
    if is_empty long || is_empty short
    then (name_of_path path, name_of_path path)
    else (long, short)

-- `MAKE_META_INI`
abbrev pub meta_ini : (long_name short_name author : List ℕ) → List ℕ
meta_ini long_name short_name author =
    codes "[menu]\nlongname="
    ++ (long_name
        ++ (codes "\nshortname=" ++ (short_name ++ (codes "\nauthor=" ++ (author ++ codes "\n")))))

abbrev pub default_author : List ℕ
default_author = codes "Built with devkitPPC & wut"

abbrev pub author_of : Option (List ℕ) → List ℕ
author_of (some author) = author
author_of none = default_author

-- The contents of meta.ini, by the options.
unfoldable pub meta_ini_of : (name short_name author : Option (List ℕ)) (path : List ℕ) → List ℕ
unfolding application_names
meta_ini_of name short_name author path =
    let (long, short) = application_names name short_name path in
    meta_ini long short (author_of author)
