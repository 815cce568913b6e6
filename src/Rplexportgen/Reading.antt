-- ===== src/Rplexportgen/Reading.antt =====
-- The loop over the lines of the input.
pub mod Trimmed
use wut_tools.Common.{
  ℕ, Bool, true, false, ◌&&◌, ◌==◌, if◌then◌else◌, List, [], ◌∷◌, ◌++◌, take, Run, ok, failed,
  ◌>>=◌,
}
use wut_tools.Elf2rpl.Reading.{same_text}
use wut_tools.Utils.{trim}

-- `ReadMode`
pub data ReadMode : Type 0 where
  mode_invalid : ReadMode
  mode_text : ReadMode
  mode_data : ReadMode
  mode_name : ReadMode

-- A line up to the first "//".
unfoldable pub before_comment : List ℕ → List ℕ
before_comment [] = []
before_comment (c ∷ []) = c ∷ []
before_comment (c ∷ d ∷ s) =
    let rest = before_comment (d ∷ s) in if c == 47 && d == 47 then [] else c ∷ rest

-- "TEXT", "DATA" and "NAME"
abbrev pub text_header : List ℕ
text_header = 84 ∷ 69 ∷ 88 ∷ 84 ∷ []

abbrev pub data_header : List ℕ
data_header = 68 ∷ 65 ∷ 84 ∷ 65 ∷ []

abbrev pub name_header : List ℕ
name_header = 78 ∷ 65 ∷ 77 ∷ 69 ∷ []

-- The mode and the two lists.
pub record ExportLists : Type 0 where
  pub mode : ReadMode
  pub funcs : List (List ℕ)
  pub datas : List (List ℕ)

-- What follows the ':' of a section header.
unfoldable pub read_header : List ℕ → ExportLists → Run ExportLists
unfolding same_text
read_header s e =
    if same_text s text_header
    then ok (record e { mode = mode_text })
    else if same_text s data_header
    then ok (record e { mode = mode_data })
    else if same_text (take 4 s) name_header
    then ok (record e { mode = mode_name })
    else failed

-- A name, by the mode.
unfoldable pub add_name : ReadMode → List ℕ → ExportLists → Run ExportLists
add_name mode_text line e = ok (record e { funcs = e.funcs ++ line ∷ [] })
add_name mode_data line e = ok (record e { datas = e.datas ++ line ∷ [] })
add_name mode_name line e = ok e
add_name mode_invalid line e = failed

-- A line without its comment and white space.
unfoldable pub read_trimmed : List ℕ → ExportLists → Run ExportLists
unfolding read_header add_name
read_trimmed [] e = ok e
read_trimmed (c ∷ s) e = if c == 58 then read_header s e else add_name e.mode (c ∷ s) e

unfoldable pub read_line : List ℕ → ExportLists → Run ExportLists
unfolding before_comment trim read_trimmed
read_line line e = read_trimmed (trim (before_comment line)) e

unfoldable pub read_lines : List (List ℕ) → ExportLists → Run ExportLists
unfolding read_line
read_lines [] e = ok e
read_lines (line ∷ lines) e = read_line line e >>= (λ e'. read_lines lines e')

unfoldable pub read_exports : List (List ℕ) → Run ExportLists
unfolding read_lines
read_exports lines = read_lines lines (record { mode = mode_invalid; funcs = []; datas = [] })
