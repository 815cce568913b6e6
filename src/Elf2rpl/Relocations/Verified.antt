-- ===== src/Elf2rpl/Relocations/Verified.antt =====
-- `fixRelocations` against `verifyRelocationTypes` of readrpl.
use wut_tools.Common.{
  ℕ, ◌*◌, ◌/◌, ◌%◌, ◌≡◌, refl, ap, subst, ok-injective, ◌∙◌, arith, inl, inr, true, false, ◌!=◌,
  ◌&&◌, is_empty, List, [], ◌∷◌, ◌++◌, map, append-nil, length, drop, drop-eq-nil, All, All-append,
  IsBytes, Bool-cases, ok, failed, >>=-eq-ok,
}
use wut_tools.Elf.Bytes.{rela_of, rela_bytes, table, table_bytes, sizeof_rela}
use wut_tools.Elf.Codec.{
  rela_codec, FitsRela, rela_of-FitsRela, table-All, table-table_bytes, table_bytes-append,
  length-table_bytes,
}
use wut_tools.Elf.Constants
use wut_tools.Elf.{Rela}
use wut_tools.Elf2rpl.File.{Section, ElfFile, section_at}
use wut_tools.Elf2rpl.Relocations.{
  Fixing, fix_rela_section, fix_section, fix_sections, fix_relocations,
}
use wut_tools.Elf2rpl.Relocations.Accepted.{Accepted, map-rewritten-Accepted, added-Accepted}
use wut_tools.Elf2rpl.Relocations.Laws.{Clean, rewritten, added, fix_relas-Steps}
use wut_tools.Readrpl.Rpl
use wut_tools.Readrpl.Rpl.{Rpl}
use wut_tools.Readrpl.Verify.RelocationTypes.{
  check_relas, check_section, check_sections, verify_relocation_types,
}

abbrev pub relas_of : Section → List Rela
relas_of s = table sizeof_rela rela_of (length s.bytes / sizeof_rela) s.bytes

-- A section of bytes, and of whole relocations if it holds relocations.
abbrev pub IsRegular : Section → Type 0
IsRegular s =
    IsBytes s.bytes
    × ((s.header.type != Constants.sht_rela) ≡ false → length s.bytes % sizeof_rela ≡ 0)

abbrev pub IsSupported : Section → Type 0
IsSupported s = (s.header.type != Constants.sht_rela) ≡ false → All Accepted (relas_of s)

-- The bytes of a table are read back as the table.
relas_read :
    (rs : List Rela)
    → All Accepted rs
    → table sizeof_rela rela_of
        (length (table_bytes rela_bytes rs) / sizeof_rela)
        (table_bytes rela_bytes rs)
      ≡ rs
relas_read rs a =
    let e : length (table_bytes rela_bytes rs) / sizeof_rela ≡ length rs =
      omega (arith, length-table_bytes rela_codec rs) in
    rw (e, ← append-nil (table_bytes rela_bytes rs))
      (table-table_bytes rela_codec rs [] (fits rs a))
  where
    fits : (xs : List Rela) → All Accepted xs → All FitsRela xs
    fits [] h = tt
    fits (x ∷ xs) h = (h.0.0, fits xs h.1)

fix_rela_section-IsSupported :
    (symbols : List ℕ) (s : Section) (t : Fixing)
    → IsBytes s.bytes
    → length s.bytes % sizeof_rela ≡ 0
    → Clean (fix_rela_section symbols s t).1
    → Clean t × All Accepted (relas_of (fix_rela_section symbols s t).0)
unfolding fix_rela_section
fix_rela_section-IsSupported symbols s t bytes whole clean =
    let rs = relas_of s in
    let steps = fix_relas-Steps symbols rs (record t { new_relocations = [] }) clean in
    let fit : All FitsRela rs =
      table-All rela_codec FitsRela (length s.bytes / sizeof_rela) s.bytes rela_of-FitsRela bytes in
    let out = map rewritten rs ++ added rs in
    let good : All Accepted out =
      All-append Accepted (map rewritten rs) (added rs)
        (map-rewritten-Accepted symbols rs fit steps.can)
        (added-Accepted symbols rs fit steps.can) in
    let no_tail : drop (sizeof_rela * (length s.bytes / sizeof_rela)) s.bytes ≡ [] =
      drop-eq-nil (sizeof_rela * (length s.bytes / sizeof_rela)) s.bytes (omega arith) in
    (
      steps.before,
      rw
          (
            steps.places,
            steps.new,
            no_tail,
            ← table_bytes-append rela_codec (map rewritten rs) (added rs),
            relas_read out good,
          )
          good,
    )

-- What one round of the loop over the sections leaves.
abbrev Leaves : Fixing → Section × Fixing → Type 0
Leaves t p = Clean p.1 → Clean t × IsSupported p.0

fix_section-Leaves :
    (sections : List Section) (s : Section) (t : Fixing) (p : Section × Fixing)
    → IsRegular s
    → fix_section sections s t ≡ ok p
    → Leaves t p
unfolding fix_section
fix_section-Leaves sections s t p regular e =
    elim (Bool-cases (s.header.type != Constants.sht_rela)) [
      | inl other ↦ subst (Leaves t) (ok-injective (rw other at e)) (λ c. (c, λ rela. absurd (cc)))
      | inr rela ↦
          let (target, _, e') = >>=-eq-ok (section_at sections s.header.link) _ (rw rela at e) in
          subst (Leaves t) (ok-injective e') (λ c.
            let (before, all) =
              fix_rela_section-IsSupported target.bytes s t regular.0 (regular.1 rela) c in
            (before, λ _. all))
    ]

fix_sections-Clean :
    (fixed rest : List Section) (t : Fixing) (p : List Section × Fixing)
    → All IsRegular rest
    → fix_sections fixed rest t ≡ ok p
    → Clean p.1
    → Clean t
unfolding fix_sections
fix_sections-Clean fixed [] t p regular e clean =
    subst (λ q. Clean q.1 → Clean t) (ok-injective e) (λ c. c) clean
fix_sections-Clean fixed (s ∷ rest) t p regular e clean =
    let (q, e', later) = >>=-eq-ok (fix_section (fixed ++ s ∷ rest) s t) _ e in
    (fix_section-Leaves _ s t q regular.0 e'
      (fix_sections-Clean (fixed ++ q.0 ∷ []) rest q.1 p regular.1 later clean)).0

fix_sections-IsSupported :
    (fixed rest : List Section) (t : Fixing) (p : List Section × Fixing)
    → All IsSupported fixed
    → All IsRegular rest
    → fix_sections fixed rest t ≡ ok p
    → Clean p.1
    → All IsSupported p.0
unfolding fix_sections
fix_sections-IsSupported fixed [] t p done regular e clean =
    subst (λ q. All IsSupported q.0) (ok-injective e) done
fix_sections-IsSupported fixed (s ∷ rest) t p done regular e clean =
    let (q, e', later) = >>=-eq-ok (fix_section (fixed ++ s ∷ rest) s t) _ e in
    let now =
      fix_section-Leaves _ s t q regular.0 e'
        (fix_sections-Clean (fixed ++ q.0 ∷ []) rest q.1 p regular.1 later clean) in
    fix_sections-IsSupported (fixed ++ q.0 ∷ []) rest q.1 p
      (All-append IsSupported fixed (q.0 ∷ []) done (now.1, tt)) regular.1 later clean

-- A check of supported sections finds nothing.
check_relas-Accepted : (rs : List Rela) → All Accepted rs → check_relas [] rs ≡ []
unfolding check_relas
check_relas-Accepted [] h = refl
check_relas-Accepted (r ∷ rs) h = rw h.0.1 (check_relas-Accepted rs h.1)

-- The section as readrpl holds it.
abbrev pub loaded : Section → Rpl.Section
loaded s = record { header = s.header; name = s.name; bytes = s.bytes }

check_section-IsSupported : (s : Section) → IsSupported s → check_section [] (loaded s) ≡ []
unfolding check_section
check_section-IsSupported s h = elim (Bool-cases (s.header.type != Constants.sht_rela)) [
  | inl other ↦ rw other
  | inr rela ↦ rw (rela, check_relas-Accepted (relas_of s) (h rela))
]

check_sections-IsSupported :
    (ss : List Section) → All IsSupported ss → check_sections [] (map loaded ss) ≡ []
unfolding check_sections
check_sections-IsSupported [] h = refl
check_sections-IsSupported (s ∷ ss) h =
    ap (λ found. check_sections found (map loaded ss)) (check_section-IsSupported s h.0)
    ∙ check_sections-IsSupported ss h.1

Clean-of_test : (t : Fixing) → (t.result && is_empty t.unsupported_types) ≡ true → Clean t
Clean-of_test t h = ground arith

-- If `fixRelocations` succeeds, on sections of bytes whose relocation tables hold whole entries,
-- then a file with the sections that it leaves passes readrpl's check of the relocation types.
pub verify_relocation_types-fix_relocations :
    (file file' : ElfFile) (rpl : Rpl)
    → All IsRegular file.sections
    → fix_relocations file ≡ ok file'
    → rpl.sections ≡ map loaded file'.sections
    → verify_relocation_types rpl ≡ true
unfolding fix_relocations verify_relocation_types
verify_relocation_types-fix_relocations file file' rpl regular e same =
    let ((sections, t), run, final) = >>=-eq-ok (fix_sections [] file.sections _) _ e in
    elim (Bool-cases (t.result && is_empty t.unsupported_types)) [
      | inl fine ↦
          let kept : All IsSupported sections =
            fix_sections-IsSupported [] file.sections _ (sections, t) tt regular run
              (Clean-of_test t fine) in
          let out : record file { sections = sections } ≡ file' = ok-injective (rw fine at final) in
          rw (same, ← out, check_sections-IsSupported sections kept)
      | inr bad ↦ absurd (let e' : failed ≡ ok file' = rw bad at final in cc)
    ]
