-- ===== src/Rplexportgen/Reading/Trimmed.antt =====
-- Lists of names behind their section headers, with comments and white space.
use wut_tools.Common.{
  ℕ, ◌≡◌, refl, sym, ap, ◌∙◌, false, ◌==◌, List, [], ◌∷◌, ◌++◌, append_assoc, append-nil, All, ok,
  failed, ◌>>=◌,
}
use wut_tools.Rplexportgen.Reading.{
  mode_invalid, mode_text, mode_data, before_comment, text_header, data_header, ExportLists,
  read_header, add_name, read_trimmed, read_line, read_lines, read_exports,
}
use wut_tools.Utils.{trim}

-- What is left of a line without its comment and white space.
abbrev pub IsLine : (text line : List ℕ) → Type 0
IsLine text line = trim (before_comment line) ≡ text

-- A name, which does not start with ':'.
abbrev pub IsName : List ℕ → Type 0
IsName [] = ⊥
IsName (c ∷ s) = (c == 58) ≡ false

-- Lines that hold names, in order.
abbrev pub AreNames : (names lines : List (List ℕ)) → Type 0
AreNames [] [] = Unit {0}
AreNames (name ∷ names) (line ∷ lines) = IsName name × IsLine name line × AreNames names lines
AreNames _ _ = ⊥

read_line-IsName :
    (name line : List ℕ) (e : ExportLists)
    → IsName name
    → IsLine name line
    → read_line line e ≡ add_name e.mode name e
unfolding read_line read_trimmed
read_line-IsName [] line e is_name is_line = absurd is_name
read_line-IsName (c ∷ s) line e is_name is_line = rw (is_line, is_name) refl

read_line-header :
    (text line : List ℕ) (e : ExportLists)
    → IsLine (58 ∷ text) line
    → read_line line e ≡ read_header text e
unfolding read_line read_trimmed
read_line-header text line e is_line = rw is_line refl

abbrev in_text : (funcs : List (List ℕ)) → ExportLists
in_text funcs = record { mode = mode_text; funcs = funcs; datas = [] }

abbrev in_data : (funcs datas : List (List ℕ)) → ExportLists
in_data funcs datas = record { mode = mode_data; funcs = funcs; datas = datas }

read_lines-text :
    (names lines more funcs : List (List ℕ))
    → AreNames names lines
    → read_lines (lines ++ more) (in_text funcs) ≡ read_lines more (in_text (funcs ++ names))
unfolding read_lines add_name
read_lines-text [] [] more funcs h =
    ap (λ fs. read_lines more (in_text fs)) (sym (append-nil funcs))
read_lines-text [] (line ∷ lines) more funcs h = absurd h
read_lines-text (name ∷ names) [] more funcs h = absurd h
read_lines-text (name ∷ names) (line ∷ lines) more funcs h =
    ap (λ r. r >>= (λ e. read_lines (lines ++ more) e))
      (read_line-IsName name line (in_text funcs) h.0 h.1)
    ∙ read_lines-text names lines more (funcs ++ name ∷ []) h.2
    ∙ ap (λ fs. read_lines more (in_text fs)) (append_assoc funcs (name ∷ []) names)

read_lines-data :
    (names lines funcs datas : List (List ℕ))
    → AreNames names lines
    → read_lines lines (in_data funcs datas) ≡ ok (in_data funcs (datas ++ names))
unfolding read_lines add_name
read_lines-data [] [] funcs datas h = ap (λ ds. ok (in_data funcs ds)) (sym (append-nil datas))
read_lines-data [] (line ∷ lines) funcs datas h = absurd h
read_lines-data (name ∷ names) [] funcs datas h = absurd h
read_lines-data (name ∷ names) (line ∷ lines) funcs datas h =
    ap (λ r. r >>= (λ e. read_lines lines e))
      (read_line-IsName name line (in_data funcs datas) h.0 h.1)
    ∙ read_lines-data names lines funcs (datas ++ name ∷ []) h.2
    ∙ ap (λ ds. ok (in_data funcs ds)) (append_assoc datas (name ∷ []) names)

-- If a line holds ":TEXT", the lines behind it hold names, then one holds ":DATA" and those behind
-- it hold names, whatever comments and white space they have, then the two lists that are read are
-- these names, in order.
pub read_exports-AreNames :
    (text_line data_line : List ℕ) (funcs func_lines datas data_lines : List (List ℕ))
    → IsLine (58 ∷ text_header) text_line
    → IsLine (58 ∷ data_header) data_line
    → AreNames funcs func_lines
    → AreNames datas data_lines
    → read_exports (text_line ∷ (func_lines ++ data_line ∷ data_lines))
      ≡ ok (record { mode = mode_data; funcs = funcs; datas = datas })
unfolding read_exports read_lines read_header
read_exports-AreNames text_line data_line funcs func_lines datas data_lines text data_ fs ds =
    let start : ExportLists = record { mode = mode_invalid; funcs = []; datas = [] } in
    let more = data_line ∷ data_lines in
    ap (λ r. r >>= (λ e. read_lines (func_lines ++ more) e))
      (read_line-header text_header text_line start text)
    ∙ read_lines-text funcs func_lines more [] fs
    ∙ ap (λ r. r >>= (λ e. read_lines data_lines e))
        (read_line-header data_header data_line (in_text funcs) data_)
    ∙ read_lines-data datas data_lines funcs [] ds

-- Whatever follows, and whatever blank lines and comments are in front of it, a name that has no
-- section header before it is an error.
pub read_exports_unexpected :
    (blank : List (List ℕ)) (name line : List ℕ) (lines : List (List ℕ))
    → All (IsLine []) blank
    → IsName name
    → IsLine name line
    → read_exports (blank ++ line ∷ lines) ≡ failed
unfolding read_exports read_lines read_line read_trimmed add_name
read_exports_unexpected [] name line lines blank is_name is_line =
    let start : ExportLists = record { mode = mode_invalid; funcs = []; datas = [] } in
    ap (λ r. r >>= (λ e. read_lines lines e)) (read_line-IsName name line start is_name is_line)
read_exports_unexpected (comment ∷ comments) name line lines blank is_name is_line =
    rw (blank.0) (read_exports_unexpected comments name line lines blank.1 is_name is_line)
