-- ===== src/Tests/ImportLists.antt =====
-- A small list of imports.
use wut_tools.Common.{ℕ, ◌+◌, ◌%◌, ◌≤◌, ◌≡◌, refl, arith, List, [], ◌∷◌, ◌++◌, map, ok, failed}
use wut_tools.Elf2rpl.Wrap.{rplwrap_prefix}
use wut_tools.Rplexportgen.Reading.{before_comment}
use wut_tools.Rplimportgen.Imports.Padded.{padding_lem}
use wut_tools.Rplimportgen.Imports.{padding}
use wut_tools.Rplimportgen.Reading.Wrapped.{read_imports-AreNames}
use wut_tools.Rplimportgen.Reading.{mode_text_wrap, read_imports}
use wut_tools.Rplimportgen.{generate}
use wut_tools.Utils.{trim}

-- ":NAME m", ":TEXT", "f", ":TEXT_WRAP" and "g"
abbrev name_line : List ℕ
name_line = 58 ∷ 78 ∷ 65 ∷ 77 ∷ 69 ∷ 32 ∷ 109 ∷ []

abbrev text_line : List ℕ
text_line = 58 ∷ 84 ∷ 69 ∷ 88 ∷ 84 ∷ []

abbrev wrap_line : List ℕ
wrap_line = 58 ∷ 84 ∷ 69 ∷ 88 ∷ 84 ∷ 95 ∷ 87 ∷ 82 ∷ 65 ∷ 80 ∷ []

kept_name : trim (before_comment name_line) ≡ name_line
unfolding trim before_comment
kept_name = refl

kept_text : trim (before_comment text_line) ≡ text_line
unfolding trim before_comment
kept_text = refl

kept_wrap : trim (before_comment wrap_line) ≡ wrap_line
unfolding trim before_comment
kept_wrap = refl

kept_f : trim (before_comment (102 ∷ [])) ≡ 102 ∷ []
unfolding trim before_comment
kept_f = refl

kept_g : trim (before_comment (103 ∷ [])) ≡ 103 ∷ []
unfolding trim before_comment
kept_g = refl

read_imports-AreNames_example :
    read_imports (name_line ∷ text_line ∷ (102 ∷ []) ∷ wrap_line ∷ (103 ∷ []) ∷ [])
    ≡ ok (record {
      mode = mode_text_wrap;
      module_name = 109 ∷ [];
      funcs = (102 ∷ []) ∷ [] ++ map (λ name. rplwrap_prefix ++ name) ((103 ∷ []) ∷ []);
      datas = [];
    })
read_imports-AreNames_example =
    read_imports-AreNames (109 ∷ []) name_line text_line wrap_line ((102 ∷ []) ∷ [])
      ((102 ∷ []) ∷ []) ((103 ∷ []) ∷ []) ((103 ∷ []) ∷ []) kept_name kept_text kept_wrap
      (refl, kept_f, tt) (refl, kept_g, tt)

padding_lem_example :
    ((1 + padding (109 ∷ [])) % 8 ≡ 0) × (2 ≤ padding (109 ∷ [])) × (padding (109 ∷ []) ≤ 9)
padding_lem_example = padding_lem (109 ∷ []) (omega arith)

-- ":NAME" alone
no_name : generate ((58 ∷ 78 ∷ 65 ∷ 77 ∷ 69 ∷ []) ∷ []) ≡ failed
unfolding generate
no_name = refl
