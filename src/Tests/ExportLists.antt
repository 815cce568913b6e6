-- ===== src/Tests/ExportLists.antt =====
-- Small lists of exports.
use wut_tools.Common.{ℕ, ◌+◌, ◌≡◌, refl, false, List, [], ◌∷◌, length, ok, failed}
use wut_tools.Elf2rpl.Crc.{Crc32}
use wut_tools.Rplexportgen.Exports.{
  long, long_symbol, string, blank, extern_symbol, align_to, section,
}
use wut_tools.Rplexportgen.Reading.Trimmed.{read_exports-AreNames, read_exports_unexpected}
use wut_tools.Rplexportgen.Reading.{mode_data, before_comment, read_exports}
use wut_tools.Rplexportgen.{generate}
use wut_tools.Utils.{trim}

-- " f // c", ":TEXT", "g" and ":DATA "
abbrev f_line : List ℕ
f_line = 32 ∷ 102 ∷ 32 ∷ 47 ∷ 47 ∷ 99 ∷ []

abbrev text_line : List ℕ
text_line = 58 ∷ 84 ∷ 69 ∷ 88 ∷ 84 ∷ []

abbrev data_line : List ℕ
data_line = 58 ∷ 68 ∷ 65 ∷ 84 ∷ 65 ∷ 32 ∷ []

trimmed_f : trim (before_comment f_line) ≡ 102 ∷ []
unfolding trim before_comment
trimmed_f = refl

trimmed_g : trim (before_comment (103 ∷ [])) ≡ 103 ∷ []
unfolding trim before_comment
trimmed_g = refl

trimmed_text : trim (before_comment text_line) ≡ text_line
unfolding trim before_comment
trimmed_text = refl

trimmed_data : trim (before_comment data_line) ≡ 58 ∷ 68 ∷ 65 ∷ 84 ∷ 65 ∷ []
unfolding trim before_comment
trimmed_data = refl

read_exports-AreNames_example :
    read_exports (text_line ∷ f_line ∷ data_line ∷ (103 ∷ []) ∷ [])
    ≡ ok (record { mode = mode_data; funcs = (102 ∷ []) ∷ []; datas = (103 ∷ []) ∷ [] })
read_exports-AreNames_example =
    read_exports-AreNames text_line data_line ((102 ∷ []) ∷ []) (f_line ∷ []) ((103 ∷ []) ∷ [])
      ((103 ∷ []) ∷ []) trimmed_text trimmed_data (refl, trimmed_f, tt) (refl, trimmed_g, tt)

-- "// c" and " "
abbrev comment_line : List ℕ
comment_line = 47 ∷ 47 ∷ 32 ∷ 99 ∷ []

trimmed_comment : trim (before_comment comment_line) ≡ []
unfolding trim before_comment
trimmed_comment = refl

trimmed_blank : trim (before_comment (32 ∷ [])) ≡ []
unfolding trim before_comment
trimmed_blank = refl

read_exports_unexpected_example :
    read_exports (comment_line ∷ (32 ∷ []) ∷ f_line ∷ text_line ∷ []) ≡ failed
read_exports_unexpected_example =
    read_exports_unexpected (comment_line ∷ (32 ∷ []) ∷ []) (102 ∷ []) f_line (text_line ∷ [])
      (trimmed_comment, (trimmed_blank, tt)) refl trimmed_f

abbrev no_zlib : Crc32
no_zlib = record { initial = 0; update = λ crc bytes. crc + length bytes }

generated :
    generate (λ names. names) no_zlib (text_line ∷ f_line ∷ [])
    ≡ ok (
        extern_symbol (102 ∷ [])
        ∷ blank
        ∷ section false
        ∷ align_to 4
        ∷ blank
        ∷ long 1
        ∷ long 2
        ∷ blank
        ∷ long_symbol (102 ∷ [])
        ∷ long 16
        ∷ blank
        ∷ string (102 ∷ [])
        ∷ blank
        ∷ [])
unfolding generate
generated = refl
