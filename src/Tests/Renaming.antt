-- ===== src/Tests/Renaming.antt =====
-- The tests of `renameRplWrap` on small symbol tables.
use wut_tools.Common.{ℕ, ◌≡◌, refl, false, All, List, [], ◌∷◌, ◌++◌, map, ok}
use wut_tools.Elf.Bytes.{c_string}
use wut_tools.Elf.{Symbol}
use wut_tools.Elf2rpl.Reading.{same_text}
use wut_tools.Elf2rpl.Wrap.Prefix.{Named, symbols_of, all_renamed}
use wut_tools.Elf2rpl.Wrap.Renamed.{HasName, is_swapped, rename_symbols-all_renamed}
use wut_tools.Elf2rpl.Wrap.Verified.{without_name, rename_symbols-without_name}
use wut_tools.Elf2rpl.Wrap.{
  rplwrap_prefix, find_wraps, set_name, swap_wraps, swap_all, skip_prefixes, rename_symbols,
}

-- "", "__rplwrap_f", "f" and "__rplwrap_g"
abbrev strings : List ℕ
strings = 0 ∷ (rplwrap_prefix ++ 102 ∷ 0 ∷ 102 ∷ 0 ∷ (rplwrap_prefix ++ 103 ∷ 0 ∷ []))

abbrev function : ℕ → ℕ → Symbol
function name value = record {
  name = name;
  value = value;
  size = 4;
  info = 2;
  other = 0;
  shndx = 1;
}

abbrev before : List Symbol
before = function 1 100 ∷ function 13 200 ∷ function 15 300 ∷ []

-- The first two swap their names, and the third loses its prefix.
abbrev after : List Symbol
after = function 13 100 ∷ function 1 200 ∷ function 25 300 ∷ []

rename_run : rename_symbols strings before ≡ ok after
unfolding c_string same_text find_wraps set_name swap_wraps swap_all skip_prefixes rename_symbols
rename_run = refl

rename_symbols_run : map without_name after ≡ map without_name before
rename_symbols_run = rename_symbols-without_name strings before after rename_run

-- The second one is a section symbol, which keeps its name.
abbrev named : List Named
named =
    record { symbol = function 1 100; name = rplwrap_prefix ++ 102 ∷ [] }
    ∷ record { symbol = record (function 1 200) { info = 3 }; name = rplwrap_prefix ++ 102 ∷ [] }
    ∷ record { symbol = function 15 300; name = rplwrap_prefix ++ 103 ∷ [] }
    ∷ record { symbol = function 24 400; name = 95 ∷ 103 ∷ [] }
    ∷ []

names_of : All (HasName strings) named
unfolding c_string
names_of = (refl, (refl, (refl, (refl, tt))))

none_swapped : All (λ y. All (λ x. is_swapped x y ≡ false) named) named
unfolding same_text
none_swapped = (
  (refl, (refl, (refl, (refl, tt)))),
  (
    (refl, (refl, (refl, (refl, tt)))),
    ((refl, (refl, (refl, (refl, tt)))), ((refl, (refl, (refl, (refl, tt)))), tt)),
  ),
)

rename_symbols-all_renamed_example :
    rename_symbols strings (symbols_of named) ≡ ok (all_renamed named)
rename_symbols-all_renamed_example = rename_symbols-all_renamed strings named names_of none_swapped

renamed_names : map (λ (s : Symbol). s.name) (all_renamed named) ≡ 11 ∷ 1 ∷ 25 ∷ 24 ∷ []
renamed_names = refl
