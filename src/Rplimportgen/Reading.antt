-- ===== src/Rplimportgen/Reading.antt =====
-- The loop over the lines of the input.
pub mod Wrapped
use wut_tools.Common.{
  ℕ, ◌==◌, leb, if◌then◌else◌, List, [], ◌∷◌, ◌++◌, take, drop, length, Run, ok, failed, ◌>>=◌,
}
use wut_tools.Elf2rpl.Reading.{same_text}
use wut_tools.Elf2rpl.Wrap.{rplwrap_prefix}
use wut_tools.Rplexportgen.Reading.{before_comment, text_header, data_header, name_header}
use wut_tools.Utils.{trim}

-- `ReadMode`
pub data ReadMode : Type 0 where
  mode_invalid : ReadMode
  mode_text : ReadMode
  mode_text_wrap : ReadMode
  mode_data : ReadMode
  mode_data_wrap : ReadMode

-- "_WRAP"
abbrev pub wrap_suffix : List ℕ
wrap_suffix = 95 ∷ 87 ∷ 82 ∷ 65 ∷ 80 ∷ []

-- The mode, the module's name and the two lists.
pub record ImportLists : Type 0 where
  pub mode : ReadMode
  pub module_name : List ℕ
  pub funcs : List (List ℕ)
  pub datas : List (List ℕ)

-- What follows the ':' of a section header. `substr(6)` of a line shorter than 6 throws, and
-- nothing catches what it throws.
unfoldable pub read_header : List ℕ → ImportLists → Run ImportLists
unfolding same_text
read_header s i =
    if same_text s text_header
    then ok (record i { mode = mode_text })
    else if same_text s (text_header ++ wrap_suffix)
    then ok (record i { mode = mode_text_wrap })
    else if same_text s data_header
    then ok (record i { mode = mode_data })
    else if same_text s (data_header ++ wrap_suffix)
    then ok (record i { mode = mode_data_wrap })
    else if same_text (take 4 s) name_header
    then if leb 5 (length s) then ok (record i { module_name = drop 5 s }) else failed
    else failed

-- A name, by the mode.
unfoldable pub add_name : ReadMode → List ℕ → ImportLists → Run ImportLists
add_name mode_text line i = ok (record i { funcs = i.funcs ++ line ∷ [] })
add_name mode_text_wrap line i = ok (record i { funcs = i.funcs ++ (rplwrap_prefix ++ line) ∷ [] })
add_name mode_data line i = ok (record i { datas = i.datas ++ line ∷ [] })
add_name mode_data_wrap line i = ok (record i { datas = i.datas ++ (rplwrap_prefix ++ line) ∷ [] })
add_name mode_invalid line i = failed

-- A line without its comment and white space.
unfoldable pub read_trimmed : List ℕ → ImportLists → Run ImportLists
unfolding read_header add_name
read_trimmed [] i = ok i
read_trimmed (c ∷ s) i = if c == 58 then read_header s i else add_name i.mode (c ∷ s) i

unfoldable pub read_line : List ℕ → ImportLists → Run ImportLists
unfolding before_comment trim read_trimmed
read_line line i = read_trimmed (trim (before_comment line)) i

unfoldable pub read_lines : List (List ℕ) → ImportLists → Run ImportLists
unfolding read_line
read_lines [] i = ok i
read_lines (line ∷ lines) i = read_line line i >>= (λ i'. read_lines lines i')

-- A character in front of the first line.
unfoldable pub join_first : ℕ → List (List ℕ) → List (List ℕ)
join_first c [] = (c ∷ []) ∷ []
join_first c (line ∷ lines) = (c ∷ line) ∷ lines

-- `std::getline` until the end: what ends in a newline is a line, and what stands behind the last one.
unfoldable pub get_lines : List ℕ → List (List ℕ)
unfolding join_first
get_lines [] = []
get_lines (c ∷ text) = let rest = get_lines text in if c == 10 then [] ∷ rest else join_first c rest

unfoldable pub read_imports : List (List ℕ) → Run ImportLists
unfolding read_lines
read_imports lines =
    read_lines lines (record { mode = mode_invalid; module_name = []; funcs = []; datas = [] })
