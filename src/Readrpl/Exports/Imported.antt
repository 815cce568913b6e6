-- ===== src/Readrpl/Exports/Imported.antt =====
-- What rplimportgen reads of the list of exports.
use wut_tools.Common.Text.{codes}
use wut_tools.Common.{
  ℕ, ◌≡◌, refl, sym, ap, ap₂, ◌∙◌, Bool, true, false, Bool-cases, inl, inr, ◌==◌, List, [], ◌∷◌,
  ◌++◌, All, append_assoc, append-nil, ok, ◌>>=◌,
}
use wut_tools.Readrpl.Exports.{
  in_blacklist, println, print_export, section_line, generate_exports_def,
}
use wut_tools.Readrpl.Exports.Groups.{
  export_groups, kept, kept_of, print_names, print_groups, print_sections_lem,
}
use wut_tools.Readrpl.Rpl.{Rpl}
use wut_tools.Rplexportgen.Reading.Trimmed.{IsLine, IsName}
use wut_tools.Rplexportgen.Reading.{before_comment, name_header}
use wut_tools.Rplimportgen.Reading.Wrapped.{read_line-IsName, read_line-header, read_header-name}
use wut_tools.Rplimportgen.Reading.{
  ReadMode, mode_text, mode_data, mode_invalid, ImportLists, read_header, add_name, read_trimmed,
  read_line, read_lines, read_imports, get_lines, join_first,
}
use wut_tools.Utils.{trim}

-- A line without newlines, then the rest.
abbrev pub NoNewline : List ℕ → Type 0
NoNewline line = All (λ c. (c == 10) ≡ false) line

get_lines-println :
    (line rest : List ℕ) → NoNewline line → get_lines (println line ++ rest) ≡ line ∷ get_lines rest
unfolding get_lines join_first
get_lines-println [] rest h = refl
get_lines-println (c ∷ line) rest h = rw (h.0, get_lines-println line rest h.1) refl

-- A name that stays as it is on a line of its own: no comment, no white space around it, and no
-- section header.
abbrev pub IsPlainName : List ℕ → Type 0
IsPlainName name = IsName name × IsLine name name × NoNewline name

module _ (module_name : List ℕ) where
  -- The lists, in a section of code or of data, with more names of it.
  abbrev into : Bool → (names funcs datas : List (List ℕ)) → ImportLists
  into true names funcs datas = record {
    mode = mode_text;
    module_name = module_name;
    funcs = funcs ++ names;
    datas = datas;
  }
  into false names funcs datas = record {
    mode = mode_data;
    module_name = module_name;
    funcs = funcs;
    datas = datas ++ names;
  }

  add_name-into :
      (is_text : Bool) (name : List ℕ) (names funcs datas : List (List ℕ))
      → let i = into is_text names funcs datas in
        add_name i.mode name i ≡ ok (into is_text (names ++ name ∷ []) funcs datas)
  unfolding add_name
  add_name-into true name names funcs datas =
      ap
        (λ fs.
          ok (record { mode = mode_text; module_name = module_name; funcs = fs; datas = datas }))
        (append_assoc funcs names (name ∷ []))
  add_name-into false name names funcs datas =
      ap
        (λ ds.
          ok (record { mode = mode_data; module_name = module_name; funcs = funcs; datas = ds }))
        (append_assoc datas names (name ∷ []))

  -- One line of an export.
  read_export :
      (is_text : Bool) (name rest : List ℕ) (names funcs datas : List (List ℕ))
      → IsPlainName name
      → read_lines (get_lines (print_export name ++ rest)) (into is_text names funcs datas)
        ≡ read_lines (get_lines rest) (into is_text (names ++ kept (name ∷ [])) funcs datas)
  unfolding print_export kept read_lines read_line read_trimmed before_comment trim
  read_export is_text name rest names funcs datas h = elim (Bool-cases (in_blacklist name)) [
    | inl listed ↦
        rw (listed, append-nil names)
          (ap (λ ls. read_lines ls (into is_text names funcs datas))
            (get_lines-println (codes "//" ++ name) rest (refl, (refl, h.2))))
    | inr plain ↦ rw plain (
        ap (λ ls. read_lines ls (into is_text names funcs datas)) (get_lines-println name rest h.2)
        ∙ ap (λ r. r >>= (λ i. read_lines (get_lines rest) i))
            (read_line-IsName name name (into is_text names funcs datas) h.0 h.1
              ∙ add_name-into is_text name names funcs datas))
  ]

  kept_front :
      (name : List ℕ) (names : List (List ℕ)) → kept (name ∷ []) ++ kept names ≡ kept (name ∷ names)
  unfolding kept
  kept_front name names = elim (Bool-cases (in_blacklist name)) [
    | inl listed ↦ rw listed refl
    | inr plain ↦ rw plain refl
  ]

  read_names :
      (is_text : Bool) (more : List (List ℕ)) (rest : List ℕ) (names funcs datas : List (List ℕ))
      → All IsPlainName more
      → read_lines (get_lines (print_names more ++ rest)) (into is_text names funcs datas)
        ≡ read_lines (get_lines rest) (into is_text (names ++ kept more) funcs datas)
  unfolding kept
  read_names is_text [] rest names funcs datas h =
      ap (λ ns. read_lines (get_lines rest) (into is_text ns funcs datas)) (sym (append-nil names))
  read_names is_text (name ∷ more) rest names funcs datas h =
      ap (λ text. read_lines (get_lines text) (into is_text names funcs datas))
        (append_assoc (print_export name) (print_names more) rest)
      ∙ read_export is_text name (print_names more ++ rest) names funcs datas h.0
      ∙ read_names is_text more rest (names ++ kept (name ∷ [])) funcs datas h.1
      ∙ ap (λ ns. read_lines (get_lines rest) (into is_text ns funcs datas))
          (append_assoc names (kept (name ∷ [])) (kept more)
            ∙ ap (λ ns. names ++ ns) (kept_front name more))

  abbrev listed : ReadMode → (funcs datas : List (List ℕ)) → ImportLists
  listed mode funcs datas = record {
    mode = mode;
    module_name = module_name;
    funcs = funcs;
    datas = datas;
  }

  -- The head of a group, from any mode.
  read_head :
      (is_text : Bool) (mode : ReadMode) (rest : List ℕ) (funcs datas : List (List ℕ))
      → read_lines
          (get_lines (println [] ++ (println (section_line is_text) ++ rest)))
          (listed mode funcs datas)
        ≡ read_lines (get_lines rest) (into is_text [] funcs datas)
  unfolding get_lines join_first read_lines read_line read_trimmed before_comment trim read_header
  read_head true mode rest funcs datas =
      ap (λ fs. read_lines (get_lines rest) (listed mode_text fs datas)) (sym (append-nil funcs))
  read_head false mode rest funcs datas =
      ap (λ ds. read_lines (get_lines rest) (listed mode_data funcs ds)) (sym (append-nil datas))

  abbrev AllPlain : List (Bool × List (List ℕ)) → Type 0
  AllPlain = All (λ group. All IsPlainName group.1)

  read_groups :
      (groups : List (Bool × List (List ℕ))) (mode : ReadMode) (funcs datas : List (List ℕ))
      → AllPlain groups
      → (mode' : ReadMode) × (read_lines (get_lines (print_groups groups)) (listed mode funcs datas)
          ≡ ok (listed mode' (funcs ++ kept_of true groups) (datas ++ kept_of false groups)))
  unfolding kept_of get_lines read_lines
  read_groups [] mode funcs datas h = (
    mode,
    ap₂ (λ fs ds. ok (listed mode fs ds)) (sym (append-nil funcs)) (sym (append-nil datas)),
  )
  read_groups ((true, names) ∷ groups) mode funcs datas h =
      let (mode', run) = read_groups groups mode_text (funcs ++ kept names) datas h.1 in
      (
        mode',
        read_head true mode (print_names names ++ print_groups groups) funcs datas
            ∙ read_names true names (print_groups groups) [] funcs datas h.0
            ∙ run
            ∙ ap (λ fs. ok (listed mode' fs (datas ++ kept_of false groups)))
                (append_assoc funcs (kept names) (kept_of true groups)),
      )
  read_groups ((false, names) ∷ groups) mode funcs datas h =
      let (mode', run) = read_groups groups mode_data funcs (datas ++ kept names) h.1 in
      (
        mode',
        read_head false mode (print_names names ++ print_groups groups) funcs datas
            ∙ read_names false names (print_groups groups) [] funcs datas h.0
            ∙ run
            ∙ ap (λ ds. ok (listed mode' (funcs ++ kept_of true groups) ds))
                (append_assoc datas (kept names) (kept_of false groups)),
      )

-- If the names of the exports of an RPL, but those of thread-local data, can be read and are plain, on
-- lines of their own, and the module's name stands on one line, without a comment or white space at
-- its end, then `generateExportsDef` gives a text that rplimportgen reads to that module's name and to
-- the names of the sections of code and of data, in their order, without those on the list of names
-- to leave out.
pub read_imports-generate_exports_def :
    (rpl : Rpl) (module_name : List ℕ) (groups : List (Bool × List (List ℕ)))
    → export_groups rpl.sections ≡ ok groups
    → All (λ (group : Bool × List (List ℕ)). All IsPlainName group.1) groups
    → NoNewline module_name
    → IsLine (codes ":NAME " ++ module_name) (codes ":NAME " ++ module_name)
    → (out : List ℕ) × (mode : ReadMode) × (generate_exports_def true rpl module_name ≡ ok out)
      × (read_imports (get_lines out)
          ≡ ok (record {
            mode = mode;
            module_name = module_name;
            funcs = kept_of true groups;
            datas = kept_of false groups;
          }))
unfolding generate_exports_def read_imports read_lines
read_imports-generate_exports_def rpl module_name groups run plain line named =
    let name_line = codes ":NAME " ++ module_name in
    let out = println name_line ++ print_groups groups in
    let start : ImportLists = record {
      mode = mode_invalid;
      module_name = [];
      funcs = [];
      datas = [];
    } in
    let (mode, read) = read_groups module_name groups mode_invalid [] [] plain in
    (
      out,
      mode,
      rw (print_sections_lem rpl.sections groups run) refl,
      ap (λ ls. read_lines ls start)
            (get_lines-println name_line (print_groups groups)
              (refl, (refl, (refl, (refl, (refl, (refl, line)))))))
          ∙ ap (λ r. r >>= (λ i. read_lines (get_lines (print_groups groups)) i))
              (read_line-header (name_header ++ 32 ∷ module_name) name_line start named
                ∙ read_header-name module_name)
          ∙ read,
    )
