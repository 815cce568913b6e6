-- ===== src/Readrpl/Verify/SymbolTable.antt =====
-- `sValidateSymbolTable`.
use wut_tools.Common.{
  ℕ, zero, suc, ◌+◌, ◌*◌, ◌/◌, u32, has, bit_and, Bool, true, false, ◌&&◌, ◌||◌, not, ◌==◌, ◌!=◌,
  leb, ltb, if◌then◌else◌, List, [], ◌∷◌, drop, length, is_empty, Option, none, some, Run, ok,
  fault, ◌>>=◌, access,
}
use wut_tools.Elf.Bytes.{symbol_of, sizeof_symbol, c_string}
use wut_tools.Elf.Constants
use wut_tools.Elf.{Symbol}
use wut_tools.Elf2rpl.Reading.{same_text}
use wut_tools.Readrpl.Rpl.{Section, Rpl}
use wut_tools.Readrpl.Verify.RelocationTable.{section_at, entry_size}
use wut_tools.Utils.{wrap_sub}

abbrev pub sda_base_name : List ℕ
sda_base_name = 95 ∷ 83 ∷ 68 ∷ 65 ∷ 95 ∷ 66 ∷ 65 ∷ 83 ∷ 69 ∷ 95 ∷ []

abbrev pub type_of : Symbol → ℕ
type_of symbol = bit_and symbol.info 0xf

unfoldable pub target_size : Section → ℕ
target_size target = if is_empty target.bytes then target.header.size else u32 (length target.bytes)

-- Whether a symbol ends beyond the section that it is defined in.
unfoldable pub is_outside : Section → Symbol → Bool
unfolding target_size
is_outside target symbol =
    let position = wrap_sub 32 symbol.value target.header.addr in
    ltb (target_size target) position || ltb (target_size target) (u32 (position + symbol.size))

abbrev pub is_checked : Section → Bool
is_checked target = target_size target != 0 && has target.header.flags Constants.shf_alloc

-- The name, which is only read of an object that lies outside.
unfoldable pub symbol_name : Option Section → Symbol → Run (List ℕ)
unfolding c_string
symbol_name none symbol = fault
symbol_name (some strings) symbol = access (c_string (drop symbol.name strings.bytes))

unfoldable pub check_object : Option Section → Section → Symbol → Run Bool
unfolding is_outside symbol_name same_text
check_object strings target symbol =
    let in_a_section = target.header.type != Constants.sht_null in
    if not (is_checked target)
    then ok true
    else if is_outside target symbol
    then (symbol_name strings symbol >>= λ name. ok (in_a_section && same_text name sda_base_name))
    else ok in_a_section

unfoldable pub check_function : Section → Symbol → Run Bool
unfolding is_outside
check_function target symbol =
    if not (is_checked target)
    then ok true
    else ok (target.header.type != Constants.sht_null && not (is_outside target symbol))

-- The body of the loop: whether `result` stays. A bad name is only reported.
unfoldable pub check_symbol : Rpl → Option Section → Symbol → Run Bool
unfolding check_object check_function
check_symbol rpl strings symbol =
    if symbol.shndx != 0
      && ltb symbol.shndx Constants.shn_loreserve
      && (type_of symbol != Constants.stt_section)
      && (type_of symbol != Constants.stt_file)
    then (if leb rpl.header.shnum symbol.shndx
        then ok false
        else if type_of symbol == Constants.stt_object
        then (section_at rpl symbol.shndx >>= λ target. check_object strings target symbol)
        else if type_of symbol == Constants.stt_func
        then (section_at rpl symbol.shndx >>= λ target. check_function target symbol)
        else ok true)
    else ok true

-- The symbol at an offset.
unfoldable pub symbol_at : List ℕ → ℕ → Run Symbol
unfolding symbol_of
symbol_at bytes offset =
    if leb (offset + sizeof_symbol) (length bytes)
    then ok (symbol_of (drop offset bytes))
    else fault

-- The loop over `n` entries from index `i` on.
unfoldable pub check_symbols : Rpl → Option Section → List ℕ → (size n i : ℕ) → Bool → Run Bool
unfolding symbol_at check_symbol
check_symbols rpl strings bytes size zero i result = ok result
check_symbols rpl strings bytes size (suc n) i result = symbol_at bytes (i * size) >>= λ symbol.
    check_symbol rpl strings symbol >>= λ good.
    check_symbols rpl strings bytes size n (i + 1) (result && good)

-- What follows once the string table is known.
unfoldable pub validate_symbols : Rpl → Option Section → Section → Run Bool
unfolding check_symbols
validate_symbols rpl strings s =
    let size = entry_size sizeof_symbol s in
    if ltb size sizeof_symbol
    then ok false
    else check_symbols rpl strings s.bytes size (s.header.size / size) 0 (s.header.size / size != 0)

unfoldable pub validate_symbol_table : Rpl → Section → Run Bool
unfolding validate_symbols
validate_symbol_table rpl s =
    if s.header.size == 0
    then ok true
    else if s.header.link == 0
    then validate_symbols rpl none s
    else if leb rpl.header.shnum s.header.link
    then ok false
    else (section_at rpl s.header.link >>= λ strings.
        if strings.header.type != Constants.sht_strtab
        then ok false
        else validate_symbols rpl (some strings) s)
