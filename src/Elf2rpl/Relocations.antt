-- ===== src/Elf2rpl/Relocations.antt =====
-- `getSymbol` and `fixRelocations`.
pub mod Laws
pub mod Accepted
pub mod Verified
use wut_tools.Common.{
  ℕ, ◌+◌, ◌*◌, ◌/◌, ◌<<<◌, ◌>>>◌, u32, bit_and, bit_or, Bool, true, false, ◌&&◌, ◌==◌, ◌!=◌, leb,
  if◌then◌else◌, List, [], ◌∷◌, ◌++◌, length, drop, contains, is_empty, Option, none, some, Run, ok,
  failed, ◌>>=◌,
}
use wut_tools.Elf.Bytes.{
  symbol_of, rela_of, rela_bytes, table, table_bytes, sizeof_symbol, sizeof_rela,
}
use wut_tools.Elf.Constants
use wut_tools.Elf.{Symbol, Rela}
use wut_tools.Elf2rpl.File.{Section, ElfFile, section_at}

-- `none` where the function returns false.
unfoldable pub get_symbol : List ℕ → ℕ → Option Symbol
get_symbol bytes index =
    if leb (length bytes / sizeof_symbol) index
    then none
    else some (symbol_of (drop (sizeof_symbol * index) bytes))

-- The cases of the `switch` that do nothing.
abbrev pub kept_types : List ℕ
kept_types =
    Constants.r_ppc_none ∷ Constants.r_ppc_addr32 ∷ Constants.r_ppc_addr16_lo
    ∷ Constants.r_ppc_addr16_hi ∷ Constants.r_ppc_addr16_ha ∷ Constants.r_ppc_rel24
    ∷ Constants.r_ppc_rel14 ∷ Constants.r_ppc_dtpmod32 ∷ Constants.r_ppc_dtprel32
    ∷ Constants.r_ppc_emb_sda21 ∷ Constants.r_ppc_emb_relsda ∷ Constants.r_ppc_diab_sda21_lo
    ∷ Constants.r_ppc_diab_sda21_hi ∷ Constants.r_ppc_diab_sda21_ha ∷ Constants.r_ppc_diab_relsda_lo
    ∷ Constants.r_ppc_diab_relsda_hi ∷ Constants.r_ppc_diab_relsda_ha ∷ []

-- The variables of the function, and the new relocations of the section at hand.
pub record Fixing : Type 0 where
  pub new_relocations : List Rela
  pub unsupported_types : List ℕ
  pub result : Bool

abbrev pub type_of : Rela → ℕ
type_of r = bit_and r.info 0xff

abbrev pub index_of : Rela → ℕ
index_of r = r.info >>> 8

-- The two halves of a R_PPC_REL32.
unfoldable pub high_half : Rela → Rela
high_half r = record r { info = bit_or (index_of r <<< 8) Constants.r_ppc_ghs_rel16_hi }

unfoldable pub low_half : Rela → Rela
low_half r = record {
  info = bit_or (index_of r <<< 8) Constants.r_ppc_ghs_rel16_lo;
  addend = u32 (r.addend + 2);
  offset = u32 (r.offset + 2);
}

-- The body of the loop over the relocations.
unfoldable pub fix_rela : List ℕ → Rela → Fixing → Rela × Fixing
unfolding get_symbol
fix_rela symbols r t =
    if contains kept_types (type_of r)
    then (r, t)
    else if type_of r == Constants.r_ppc_rel32
    then elim (get_symbol symbols (index_of r)) [
      | none ↦ (r, record t { result = false })
      | some _ ↦ (high_half r, record t { new_relocations = t.new_relocations ++ low_half r ∷ [] })
    ]
    else if contains t.unsupported_types (type_of r)
    then (r, t)
    else (r, record t { unsupported_types = type_of r ∷ t.unsupported_types })

unfoldable pub fix_relas : List ℕ → List Rela → Fixing → List Rela × Fixing
unfolding fix_rela
fix_relas symbols [] t = ([], t)
fix_relas symbols (r ∷ rs) t =
    let (r', t') = fix_rela symbols r t in
    let (rs', t'') = fix_relas symbols rs t' in (r' ∷ rs', t'')

-- A section of relocations, given the bytes of its symbol section.
unfoldable pub fix_rela_section : List ℕ → Section → Fixing → Section × Fixing
unfolding fix_relas
fix_rela_section symbols s t =
    let num_rels = length s.bytes / sizeof_rela in
    let fixed =
      fix_relas symbols (table sizeof_rela rela_of num_rels s.bytes)
        (record t { new_relocations = [] }) in
    (
      record s {
        header = record (s.header) { flags = 0 };
        bytes =
            table_bytes rela_bytes fixed.0
            ++ (drop (sizeof_rela * num_rels) s.bytes
                ++ table_bytes rela_bytes fixed.1.new_relocations);
      },
      fixed.1,
    )

-- The body of the loop over the sections, given all of them.
unfoldable pub fix_section : List Section → Section → Fixing → Run (Section × Fixing)
unfolding fix_rela_section
fix_section sections s t =
    if s.header.type != Constants.sht_rela
    then ok (s, t)
    else (section_at sections s.header.link >>= λ symbol_section.
        ok (fix_rela_section symbol_section.bytes s t))

-- The sections before the one at hand are fixed, those behind it are not.
unfoldable pub fix_sections : List Section → List Section → Fixing → Run (List Section × Fixing)
unfolding fix_section
fix_sections fixed [] t = ok (fixed, t)
fix_sections fixed (s ∷ rest) t = do
  (s', t') ← fix_section (fixed ++ s ∷ rest) s t
  fix_sections (fixed ++ s' ∷ []) rest t'

unfoldable pub fix_relocations : ElfFile → Run ElfFile
unfolding fix_sections
fix_relocations file = do
  (sections, t) ←
      fix_sections [] file.sections
        (record { new_relocations = []; unsupported_types = []; result = true })
  if t.result && is_empty t.unsupported_types
      then ok (record file { sections = sections })
      else failed
