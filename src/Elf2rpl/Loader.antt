-- ===== src/Elf2rpl/Loader.antt =====
-- `relocateSection` and `fixLoaderVirtualAddresses`.
pub mod Verified
use wut_tools.Common.{
  ℕ, zero, suc, ◌+◌, ◌-◌, ◌*◌, ◌/◌, u32, bit_and, bit_or, Bool, ◌&&◌, ◌||◌, ◌==◌, ◌!=◌, leb,
  if◌then◌else◌, List, [], ◌∷◌, ◌++◌, map, length, drop, is_empty, get_elem?, Option, none, some,
}
use wut_tools.Elf.Bytes.{
  symbol_of, symbol_bytes, rela_of, rela_bytes, table, table_bytes, sizeof_symbol, sizeof_rela,
}
use wut_tools.Elf.Constants
use wut_tools.Elf.{SectionHeader, Symbol, Rela}
use wut_tools.Elf2rpl.File.{Section, ElfFile, load_base_address}
use wut_tools.Utils.{align_up}

-- The old range of the section that moves, and its new address.
pub record Move : Type 0 where
  pub start : ℕ
  pub end : ℕ
  pub target : ℕ

-- An address in the old range, its end included, moves with the section.
unfoldable pub moved : Move → ℕ → ℕ
moved m value =
    if leb m.start value && leb value m.end then u32 (value - m.start + m.target) else value

abbrev pub type_of : Symbol → ℕ
type_of symbol = bit_and symbol.info 0xf

unfoldable pub move_symbol : Move → Symbol → Symbol
unfolding moved
move_symbol m symbol =
    if (type_of symbol != Constants.stt_object)
      && (type_of symbol != Constants.stt_func)
      && (type_of symbol != Constants.stt_section)
    then symbol
    else record symbol { value = moved m symbol.value }

unfoldable pub move_rela : Move → Rela → Rela
unfolding moved
move_rela m rela = record rela { offset = moved m rela.offset }

-- The bytes of a table after a change of each of its whole entries.
unfoldable pub change_table :
    {A : Type 0} → ℕ → (List ℕ → A) → (A → List ℕ) → (A → A) → List ℕ → List ℕ
unfolding table table_bytes
change_table size reader writer change bytes =
    let n = length bytes / size in
    table_bytes writer (map change (table size reader n bytes)) ++ drop (size * n) bytes

-- What the move of section `index` does to a symbol table, or to a table of its relocations.
unfoldable pub move_entries : Move → ℕ → Section → Section
unfolding change_table move_symbol move_rela symbol_of symbol_bytes rela_of rela_bytes
move_entries m index s =
    if s.header.type == Constants.sht_symtab
    then record s {
      bytes = change_table sizeof_symbol symbol_of symbol_bytes (move_symbol m) s.bytes;
    }
    else if s.header.type == Constants.sht_rela && (s.header.info == index)
    then record s { bytes = change_table sizeof_rela rela_of rela_bytes (move_rela m) s.bytes }
    else s

-- A change of the section at an index.
unfoldable pub change_at : ℕ → (Section → Section) → List Section → List Section
change_at i change [] = []
change_at zero change (s ∷ ss) = change s ∷ ss
change_at (suc i) change (s ∷ ss) = s ∷ change_at i change ss

abbrev pub size_in_memory : Section → ℕ
size_in_memory s = if is_empty s.bytes then s.header.size else length s.bytes

abbrev pub move_of : Section → ℕ → Move
move_of s target = record {
  start = s.header.addr;
  end = s.header.addr + size_in_memory s;
  target = target;
}

-- `s` is the section at `index`.
unfoldable pub relocate_section : List Section → Section → ℕ → ℕ → List Section
unfolding move_entries change_at
relocate_section sections s index target =
    change_at index (λ (t : Section). record t { header = record (t.header) { addr = target } })
      (map (move_entries (move_of s target) index) sections)

unfoldable pub load_max : ℕ → List Section → ℕ
load_max max [] = max
load_max max (s ∷ ss) =
    load_max (if leb max s.header.addr then u32 (s.header.addr + length s.bytes) else max) ss

abbrev pub is_loader_table : Section → Bool
is_loader_table s = s.header.type == Constants.sht_symtab || s.header.type == Constants.sht_strtab

abbrev pub set_alloc : Section → Section
set_alloc t = record t {
  header = record (t.header) { flags = bit_or t.header.flags Constants.shf_alloc };
}

-- The loop over the `n` sections from index `i` on.
unfoldable pub move_tables : (n i max : ℕ) → List Section → List Section
unfolding align_up change_at relocate_section
move_tables zero i max sections = sections
move_tables (suc n) i max sections = elim (get_elem? sections i) [
  | none ↦ sections
  | some s ↦
      let target = align_up 32 max s.header.addralign in
      if is_loader_table s
      then move_tables n (i + 1) (u32 (target + length s.bytes))
          (change_at i set_alloc (relocate_section sections s i target))
      else move_tables n (i + 1) max sections
]

unfoldable pub fix_loader_virtual_addresses : ElfFile → ElfFile
unfolding load_max move_tables
fix_loader_virtual_addresses file = record file {
  sections =
      move_tables (length file.sections) 0 (load_max load_base_address file.sections) file.sections;
}
