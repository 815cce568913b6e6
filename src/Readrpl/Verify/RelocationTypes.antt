-- ===== src/Readrpl/Verify/RelocationTypes.antt =====
-- `verifyRelocationTypes`.
use wut_tools.Common.{
  ℕ, ◌/◌, bit_and, Bool, ◌!=◌, if◌then◌else◌, List, [], ◌∷◌, length, contains, is_empty,
}
use wut_tools.Elf.Bytes.{rela_of, table, sizeof_rela}
use wut_tools.Elf.Constants
use wut_tools.Elf.{Rela}
use wut_tools.Readrpl.Rpl.{Section, Rpl}

abbrev pub loader_types : List ℕ
loader_types =
    Constants.r_ppc_none ∷ Constants.r_ppc_addr32 ∷ Constants.r_ppc_addr16_lo
    ∷ Constants.r_ppc_addr16_hi ∷ Constants.r_ppc_addr16_ha ∷ Constants.r_ppc_rel24
    ∷ Constants.r_ppc_rel14 ∷ Constants.r_ppc_dtpmod32 ∷ Constants.r_ppc_dtprel32
    ∷ Constants.r_ppc_emb_sda21 ∷ Constants.r_ppc_emb_relsda ∷ Constants.r_ppc_diab_sda21_lo
    ∷ Constants.r_ppc_diab_sda21_hi ∷ Constants.r_ppc_diab_sda21_ha ∷ Constants.r_ppc_diab_relsda_lo
    ∷ Constants.r_ppc_diab_relsda_hi ∷ Constants.r_ppc_diab_relsda_ha ∷ Constants.r_ppc_ghs_rel16_ha
    ∷ Constants.r_ppc_ghs_rel16_hi ∷ Constants.r_ppc_ghs_rel16_lo ∷ []

-- The body of the inner loop, on the set of unsupported types found.
unfoldable pub check_rela : List ℕ → Rela → List ℕ
check_rela found r =
    let type = bit_and r.info 0xff in
    if contains loader_types type
    then found
    else if contains found type
    then found
    else type ∷ found

unfoldable pub check_relas : List ℕ → List Rela → List ℕ
unfolding check_rela
check_relas found [] = found
check_relas found (r ∷ rs) = check_relas (check_rela found r) rs

-- The body of the outer loop.
unfoldable pub check_section : List ℕ → Section → List ℕ
unfolding check_relas
check_section found s =
    if s.header.type != Constants.sht_rela
    then found
    else check_relas found (table sizeof_rela rela_of (length s.bytes / sizeof_rela) s.bytes)

unfoldable pub check_sections : List ℕ → List Section → List ℕ
unfolding check_section
check_sections found [] = found
check_sections found (s ∷ ss) = check_sections (check_section found s) ss

unfoldable pub verify_relocation_types : Rpl → Bool
unfolding check_sections
verify_relocation_types rpl = is_empty (check_sections [] rpl.sections)
