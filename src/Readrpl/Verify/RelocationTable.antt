-- ===== src/Readrpl/Verify/RelocationTable.antt =====
-- `sValidateRelocsAddTable`. A read beyond a section's contents is a fault.
pub mod Sound
use wut_tools.Common.{
  ℕ, zero, suc, ◌+◌, ◌*◌, ◌/◌, ◌>>>◌, Bool, true, false, ◌&&◌, ◌||◌, ◌==◌, ◌!=◌, leb, ltb,
  if◌then◌else◌, List, drop, length, Run, ok, fault, ◌>>=◌, access, get_elem?,
}
use wut_tools.Elf.Bytes.{read_32, sizeof_rela, sizeof_symbol}
use wut_tools.Elf.Constants
use wut_tools.Readrpl.Rpl.{Section, Rpl}

-- `rpl.sections[i]`
abbrev pub section_at : Rpl → ℕ → Run Section
section_at rpl i = access (get_elem? rpl.sections i)

-- The size of an entry, of a struct of a size if the header does not state it.
abbrev pub entry_size : ℕ → Section → ℕ
entry_size size s = if s.header.entsize != 0 then s.header.entsize else size

-- `rela->info` of the entry at an offset
unfoldable pub info_at : List ℕ → ℕ → Run ℕ
unfolding read_32
info_at bytes offset =
    if leb (offset + 8) (length bytes) then ok (read_32 (drop (offset + 4) bytes)) else fault

-- The loop over `n` entries from index `i` on, which ends at the first bad one.
unfoldable pub check_infos : List ℕ → (size num_symbols n i : ℕ) → Run Bool
unfolding info_at
check_infos bytes size num_symbols zero i = ok true
check_infos bytes size num_symbols (suc n) i = info_at bytes (i * size) >>= λ info.
    if info != 0 && leb num_symbols (info >>> 8)
    then ok false
    else check_infos bytes size num_symbols n (i + 1)

-- The part that looks at the symbols and at the section that the relocations are for.
unfoldable pub validate_against : Rpl → Section → Section → Run Bool
unfolding check_infos
validate_against rpl s symbols =
    if symbols.header.type != Constants.sht_symtab
    then ok false
    else if ltb (entry_size sizeof_symbol symbols) sizeof_symbol
    then ok false
    else if leb rpl.header.shnum s.header.info
    then ok false
    else (section_at rpl s.header.info >>= λ target.
        if target.header.type != Constants.sht_null
        then check_infos s.bytes (entry_size sizeof_rela s)
            (length symbols.bytes / entry_size sizeof_symbol symbols)
            (s.header.size / entry_size sizeof_rela s) 0
        else ok true)

unfoldable pub validate_relocs_add_table : Rpl → Section → Run Bool
unfolding validate_against
validate_relocs_add_table rpl s =
    if s.header.size == 0
    then ok true
    else if ltb (entry_size sizeof_rela s) sizeof_rela
    then ok false
    else if s.header.size / entry_size sizeof_rela s == 0
    then ok false
    else if s.header.link == 0 || leb rpl.header.shnum s.header.link
    then ok false
    else (section_at rpl s.header.link >>= λ symbols. validate_against rpl s symbols)
