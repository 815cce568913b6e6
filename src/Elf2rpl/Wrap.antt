-- ===== src/Elf2rpl/Wrap.antt =====
-- `renameRplWrap`. The string table is not itself a symbol table, so that its bytes stay.
pub mod Prefix
pub mod Renamed
pub mod Verified
use wut_tools.Common.{
  ℕ, zero, suc, ◌+◌, ◌/◌, ◌*◌, u32, bit_and, Bool, true, false, ◌&&◌, ◌||◌, ◌==◌, leb,
  if◌then◌else◌, List, [], ◌∷◌, ◌++◌, length, take, drop, get_elem?, Option, none, some, Run, ok,
  failed, fault, ◌>>=◌, access,
}
use wut_tools.Elf.Bytes.{symbol_of, symbol_bytes, table, table_bytes, sizeof_symbol, c_string}
use wut_tools.Elf.Constants
use wut_tools.Elf.{Symbol}
use wut_tools.Elf2rpl.File.{Section, ElfFile}
use wut_tools.Elf2rpl.Reading.{same_text, get_section_by_name}

-- "__rplwrap_"
abbrev pub rplwrap_prefix : List ℕ
rplwrap_prefix = 95 ∷ 95 ∷ 114 ∷ 112 ∷ 108 ∷ 119 ∷ 114 ∷ 97 ∷ 112 ∷ 95 ∷ []

-- ".strtab"
abbrev pub strtab_name : List ℕ
strtab_name = 46 ∷ 115 ∷ 116 ∷ 114 ∷ 116 ∷ 97 ∷ 98 ∷ []

-- Only functions and data are renamed.
abbrev pub is_renamed : Symbol → Bool
is_renamed symbol =
    bit_and symbol.info 0xf == Constants.stt_object || bit_and symbol.info 0xf == Constants.stt_func

abbrev pub name_at : List ℕ → ℕ → Run (List ℕ)
name_at strings name = access (c_string (drop name strings))

-- The first pass: the indices, from `i` on, of the symbols with the prefix.
unfoldable pub find_wraps : List ℕ → ℕ → List Symbol → Run (List ℕ)
unfolding c_string same_text
find_wraps strings i [] = ok []
find_wraps strings i (symbol ∷ symbols) = find_wraps strings (i + 1) symbols >>= λ found.
    if is_renamed symbol
    then (name_at strings symbol.name >>= λ name.
        ok (if same_text (take 10 name) rplwrap_prefix then i ∷ found else found))
    else ok found

unfoldable pub set_name : List Symbol → ℕ → ℕ → List Symbol
set_name [] i name = []
set_name (symbol ∷ symbols) zero name = record symbol { name = name } ∷ symbols
set_name (symbol ∷ symbols) (suc i) name = symbol ∷ set_name symbols i name

-- The inner loop of the second pass, for symbol `i` whose name was `name`: the wraps that are
-- left, and the symbols. A name that lost the prefix is too short for `substr`.
unfoldable pub swap_wraps : List ℕ → ℕ → List ℕ → List ℕ → List Symbol → Run (List ℕ × List Symbol)
unfolding set_name c_string same_text
swap_wraps strings i name [] symbols = ok ([], symbols)
swap_wraps strings i name (w ∷ wraps) symbols = access (get_elem? symbols w) >>= λ wrap.
    access (get_elem? symbols i) >>= λ symbol. name_at strings wrap.name >>= λ wrap_name.
    if leb 10 (length wrap_name)
    then (if same_text (drop 10 wrap_name) name
        then swap_wraps strings i name wraps (set_name (set_name symbols w symbol.name) i wrap.name)
        else (swap_wraps strings i name wraps symbols >>= λ rest. ok (w ∷ rest.0, rest.1)))
    else fault

-- The second pass, over the `n` symbols from `i` on.
unfoldable pub swap_all : List ℕ → (n i : ℕ) → List ℕ → List Symbol → Run (List ℕ × List Symbol)
unfolding swap_wraps
swap_all strings zero i wraps symbols = ok (wraps, symbols)
swap_all strings (suc n) i wraps symbols = access (get_elem? symbols i) >>= λ symbol.
    name_at strings symbol.name >>= λ name.
    (if is_renamed symbol then swap_wraps strings i name wraps symbols else ok (wraps, symbols))
    >>= λ next. swap_all strings n (i + 1) next.0 next.1

-- The last pass: the prefix of the symbols that are left is skipped.
unfoldable pub skip_prefixes : List ℕ → List Symbol → Run (List Symbol)
unfolding set_name
skip_prefixes [] symbols = ok symbols
skip_prefixes (w ∷ wraps) symbols = access (get_elem? symbols w) >>= λ wrap.
    skip_prefixes wraps (set_name symbols w (u32 (wrap.name + 10)))

unfoldable pub rename_symbols : List ℕ → List Symbol → Run (List Symbol)
unfolding find_wraps swap_all skip_prefixes
rename_symbols strings symbols = find_wraps strings 0 symbols >>= λ wraps.
    swap_all strings (length symbols) 0 wraps symbols >>= λ swapped.
    skip_prefixes swapped.0 swapped.1

unfoldable pub rename_section : List ℕ → Section → Run Section
unfolding rename_symbols symbol_of symbol_bytes table table_bytes
rename_section strings s =
    if s.header.type == Constants.sht_symtab
    then (let n = length s.bytes / sizeof_symbol in
        rename_symbols strings (table sizeof_symbol symbol_of n s.bytes) >>= λ symbols.
        ok (record s {
          bytes = table_bytes symbol_bytes symbols ++ drop (sizeof_symbol * n) s.bytes;
        }))
    else ok s

unfoldable pub rename_sections : List ℕ → List Section → Run (List Section)
unfolding rename_section
rename_sections strings [] = ok []
rename_sections strings (s ∷ ss) = do
  s' ← rename_section strings s
  ss' ← rename_sections strings ss
  ok (s' ∷ ss')

unfoldable pub rename_rpl_wrap : ElfFile → Run ElfFile
unfolding get_section_by_name rename_sections
rename_rpl_wrap file = elim (get_section_by_name file.sections strtab_name) [
  | none ↦ failed
  | some strtab ↦ rename_sections strtab.bytes file.sections >>= λ sections.
      ok (record file { sections = sections })
]
