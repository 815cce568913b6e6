-- ===== src/Readrpl/Verify/RelocationTable/Sound.antt =====
-- What a relocation table that passes `sValidateRelocsAddTable` is known to satisfy.
use wut_tools.Common.{
  ℕ, zero, suc, ◌+◌, ◌*◌, ◌/◌, ◌<◌, ◌≤◌, ◌>>>◌, ◌≡◌, ◌≢◌, refl, subst, arith, Bool, ◌⊎◌, inl, inr,
  true, false, Bool-cases, ◌&&◌, ◌||◌, ◌==◌, ◌!=◌, leb, ltb, if◌then◌else◌, List, length, Run, ok,
  >>=-eq-ok,
}
use wut_tools.Elf.Bytes.{sizeof_rela, sizeof_symbol}
use wut_tools.Elf.Constants
use wut_tools.Readrpl.Rpl.{Section, Rpl}
use wut_tools.Readrpl.Verify.RelocationTable.{
  section_at, entry_size, info_at, check_infos, validate_against, validate_relocs_add_table,
}

-- The entry at an offset can be read and names no symbol, or one of the table.
abbrev pub IsGoodEntry : (bytes : List ℕ) (offset num_symbols : ℕ) → Type 0
IsGoodEntry bytes offset num_symbols =
    (info : ℕ) × (info_at bytes offset ≡ ok info) × ((info ≡ 0) ⊎ (info >>> 8 < num_symbols))

i_is_j : (i j : ℕ) → (i == j) ≡ true → i ≡ j
i_is_j i j e = ground arith

good_info :
    (info num_symbols : ℕ)
    → (info != 0 && leb num_symbols (info >>> 8)) ≡ false
    → (info ≡ 0) ⊎ (info >>> 8 < num_symbols)
good_info info num_symbols e = ground arith

-- A test that was passed, and what came after it.
passed :
    (bad : Bool) (rest : Run Bool)
    → (if bad then ok false else rest) ≡ ok true
    → (bad ≡ false) × (rest ≡ ok true)
passed true rest run = absurd (cc)
passed false rest run = (refl, run)

check_infos-IsGoodEntry :
    (bytes : List ℕ) (size num_symbols n i : ℕ)
    → check_infos bytes size num_symbols n i ≡ ok true
    → (j : ℕ) → i ≤ j
    → j < i + n
    → IsGoodEntry bytes (j * size) num_symbols
unfolding check_infos
check_infos-IsGoodEntry bytes size num_symbols zero i run j low high = absurd (omega arith)
check_infos-IsGoodEntry bytes size num_symbols (suc n) i run j low high =
    let (info, r1, run1) = >>=-eq-ok (info_at bytes (i * size)) _ run in
    elim (Bool-cases (info != 0 && leb num_symbols (info >>> 8))) [
      | inl bad ↦ absurd (let e : ok false ≡ ok true = rw bad at run1 in cc)
      | inr good ↦ elim (Bool-cases (i == j)) [
        | inl here ↦
            subst (λ x. IsGoodEntry bytes (x * size) num_symbols) (i_is_j i j here)
              (info, r1, good_info info num_symbols good)
        | inr later ↦
            check_infos-IsGoodEntry bytes size num_symbols n (i + 1) (rw good at run1) j
              (ground arith) (ground arith)
      ]
    ]

-- The sections that a table refers to, and its entries where they are checked.
pub record IsSound (rpl : Rpl) (s : Section) : Type 0 where
  pub symbols : Section
  pub target : Section
  pub linked : section_at rpl s.header.link ≡ ok symbols
  pub is_table : symbols.header.type ≡ Constants.sht_symtab
  pub applies : section_at rpl s.header.info ≡ ok target
  pub entries :
      target.header.type ≢ Constants.sht_null
      → (j : ℕ) → j < s.header.size / entry_size sizeof_rela s
      → IsGoodEntry s.bytes
          (j * entry_size sizeof_rela s)
          (length symbols.bytes / entry_size sizeof_symbol symbols)

-- If `sValidateRelocsAddTable` accepts a table that is not empty, then its link names a symbol
-- table and its info a section of the file, and, unless that section is unused, each entry can
-- be read and names no symbol, or one of that table.
pub validate_relocs_add_table-IsSound :
    (rpl : Rpl) (s : Section)
    → s.header.size ≢ 0
    → validate_relocs_add_table rpl s ≡ ok true
    → IsSound rpl s
unfolding validate_relocs_add_table validate_against
validate_relocs_add_table-IsSound rpl s used run =
    let e : (s.header.size == 0) ≡ false = ground arith in
    let (_, run1) = passed (ltb (entry_size sizeof_rela s) sizeof_rela) _ (rw e at run) in
    let (_, run2) = passed (s.header.size / entry_size sizeof_rela s == 0) _ run1 in
    let (_, run3) = passed (s.header.link == 0 || leb rpl.header.shnum s.header.link) _ run2 in
    let (symbols, linked, run4) = >>=-eq-ok (section_at rpl s.header.link) _ run3 in
    let (is_table, run5) = passed (symbols.header.type != Constants.sht_symtab) _ run4 in
    let (_, run6) = passed (ltb (entry_size sizeof_symbol symbols) sizeof_symbol) _ run5 in
    let (_, run7) = passed (leb rpl.header.shnum s.header.info) _ run6 in
    let (target, applies, run8) = >>=-eq-ok (section_at rpl s.header.info) _ run7 in
    record {
      symbols = symbols;
      target = target;
      linked = linked;
      is_table = ground arith;
      applies = applies;
      entries = λ kept j below.
          let e' : (target.header.type != Constants.sht_null) ≡ true = ground arith in
          check_infos-IsGoodEntry s.bytes (entry_size sizeof_rela s) _ _ 0 (rw e' at run8) j
            (omega arith) (omega arith);
    }
