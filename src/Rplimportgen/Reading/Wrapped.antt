-- ===== src/Rplimportgen/Reading/Wrapped.antt =====
-- A module's name and lists of its imports.
use wut_tools.Common.{
  ℕ, ◌≡◌, refl, sym, ap, ◌∙◌, arith, true, leb, length, List, [], ◌∷◌, ◌++◌, map, append_assoc,
  append-nil, ok, ◌>>=◌,
}
use wut_tools.Elf2rpl.Wrap.{rplwrap_prefix}
use wut_tools.Rplexportgen.Reading.Trimmed.{IsLine, IsName, AreNames}
use wut_tools.Rplexportgen.Reading.{text_header, name_header}
use wut_tools.Rplimportgen.Reading.{
  ReadMode, mode_invalid, mode_text, mode_text_wrap, wrap_suffix, ImportLists, read_header,
  add_name, read_trimmed, read_line, read_lines, read_imports,
}

pub read_line-IsName :
    (name line : List ℕ) (i : ImportLists)
    → IsName name
    → IsLine name line
    → read_line line i ≡ add_name i.mode name i
unfolding read_line read_trimmed
read_line-IsName [] line i is_name is_line = absurd is_name
read_line-IsName (c ∷ s) line i is_name is_line = rw (is_line, is_name) refl

pub read_line-header :
    (text line : List ℕ) (i : ImportLists)
    → IsLine (58 ∷ text) line
    → read_line line i ≡ read_header text i
unfolding read_line read_trimmed
read_line-header text line i is_line = rw is_line refl

module _ (module_name : List ℕ) where
  abbrev reading : ReadMode → (funcs : List (List ℕ)) → ImportLists
  reading mode funcs = record { mode = mode; module_name = module_name; funcs = funcs; datas = [] }

  -- Names in a mode that changes each of them by `f`.
  read_lines-funcs :
      (mode : ReadMode) (f : List ℕ → List ℕ)
      → ((name : List ℕ) (funcs : List (List ℕ))
          → add_name mode name (reading mode funcs) ≡ ok (reading mode (funcs ++ f name ∷ [])))
      → (names lines more funcs : List (List ℕ)) → AreNames names lines
      → read_lines (lines ++ more) (reading mode funcs)
        ≡ read_lines more (reading mode (funcs ++ map f names))
  unfolding read_lines
  read_lines-funcs mode f adds [] [] more funcs h =
      ap (λ fs. read_lines more (reading mode fs)) (sym (append-nil funcs))
  read_lines-funcs mode f adds [] (line ∷ lines) more funcs h = absurd h
  read_lines-funcs mode f adds (name ∷ names) [] more funcs h = absurd h
  read_lines-funcs mode f adds (name ∷ names) (line ∷ lines) more funcs h =
      ap (λ r. r >>= (λ i. read_lines (lines ++ more) i))
        (read_line-IsName name line (reading mode funcs) h.0 h.1 ∙ adds name funcs)
      ∙ read_lines-funcs mode f adds names lines more (funcs ++ f name ∷ []) h.2
      ∙ ap (λ fs. read_lines more (reading mode fs))
          (append_assoc funcs (f name ∷ []) (map f names))

map_same : (names : List (List ℕ)) → map (λ name. name) names ≡ names
map_same [] = refl
map_same (name ∷ names) = ap (λ t. name ∷ t) (map_same names)

pub read_header-name :
    (module_name : List ℕ)
    → read_header
        (name_header ++ 32 ∷ module_name)
        (record { mode = mode_invalid; module_name = []; funcs = []; datas = [] })
      ≡ ok (reading module_name mode_invalid [])
unfolding read_header
read_header-name module_name =
    let e : leb 5 (length (name_header ++ 32 ∷ module_name)) ≡ true = ground arith in rw e refl

-- If a line holds ":NAME " and a module's name, one ":TEXT", the lines behind it names, one
-- ":TEXT_WRAP", and the lines behind that names, whatever comments and white space they have, then
-- the module's name is read, and the list of functions is the names, in order, those behind
-- ":TEXT_WRAP" with the prefix "__rplwrap_".
pub read_imports-AreNames :
    (module_name name_line text_line wrap_line : List ℕ)
    (funcs func_lines wraps wrap_lines : List (List ℕ))
    → IsLine (58 ∷ (name_header ++ 32 ∷ module_name)) name_line
    → IsLine (58 ∷ text_header) text_line
    → IsLine (58 ∷ (text_header ++ wrap_suffix)) wrap_line
    → AreNames funcs func_lines
    → AreNames wraps wrap_lines
    → read_imports (name_line ∷ text_line ∷ (func_lines ++ wrap_line ∷ wrap_lines))
      ≡ ok (record {
        mode = mode_text_wrap;
        module_name = module_name;
        funcs = funcs ++ map (λ name. rplwrap_prefix ++ name) wraps;
        datas = [];
      })
unfolding read_imports read_lines read_header add_name
read_imports-AreNames module_name name_line text_line wrap_line funcs func_lines wraps wrap_lines
      named text wrap fs ws =
    let start : ImportLists = record {
      mode = mode_invalid;
      module_name = [];
      funcs = [];
      datas = [];
    } in
    let more = wrap_line ∷ wrap_lines in
    let prefix : List ℕ → List ℕ = λ name. rplwrap_prefix ++ name in
    ap (λ r. r >>= (λ i. read_lines (text_line ∷ (func_lines ++ more)) i))
      (read_line-header (name_header ++ 32 ∷ module_name) name_line start named
        ∙ read_header-name module_name)
    ∙ ap (λ r. r >>= (λ i. read_lines (func_lines ++ more) i))
        (read_line-header text_header text_line (reading module_name mode_invalid []) text)
    ∙ read_lines-funcs module_name mode_text (λ name. name) (λ name fs. refl) funcs func_lines more
        [] fs
    ∙ ap (λ ns. read_lines more (reading module_name mode_text ns)) (map_same funcs)
    ∙ ap (λ r. r >>= (λ i. read_lines wrap_lines i))
        (read_line-header (text_header ++ wrap_suffix) wrap_line
          (reading module_name mode_text funcs) wrap)
    ∙ ap (λ ls. read_lines ls (reading module_name mode_text_wrap funcs))
        (sym (append-nil wrap_lines))
    ∙ read_lines-funcs module_name mode_text_wrap prefix (λ name fs. refl) wraps wrap_lines [] funcs
        ws
