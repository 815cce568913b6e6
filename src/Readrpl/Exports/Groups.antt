-- ===== src/Readrpl/Exports/Groups.antt =====
-- The export sections of an RPL as groups of names, and how they are printed.
use wut_tools.Common.{
  ℕ, zero, suc, ◌+◌, bit_and, has, ◌≡◌, refl, ap, Bool, true, false, Bool-cases, inl, inr, ◌==◌,
  if◌then◌else◌, List, [], ◌∷◌, ◌++◌, drop, Run, ok, ◌>>=◌, >>=-eq-ok, ok-injective, access,
}
use wut_tools.Elf.Bytes.{c_string}
use wut_tools.Elf.Constants
use wut_tools.Readrpl.Exports.{
  in_blacklist, println, export_count, export_name, print_export, print_exports, section_line,
  print_section, print_sections,
}
use wut_tools.Readrpl.Rpl.{Section}

-- The names of an export section, but those of thread-local data.
unfoldable pub export_names : List ℕ → (n i : ℕ) → Run (List (List ℕ))
export_names data_ zero i = ok []
export_names data_ (suc n) i = export_name data_ i >>= λ field.
    export_names data_ n (i + 1) >>= λ rest.
    if has field 0x80000000
    then ok rest
    else (access (c_string (drop (bit_and field 0x7fffffff) data_)) >>= λ name. ok (name ∷ rest))

-- The export sections, each with whether it is of code, and its names.
unfoldable pub export_groups : List Section → Run (List (Bool × List (List ℕ)))
unfolding export_names
export_groups [] = ok []
export_groups (s ∷ ss) =
    if s.header.type == Constants.sht_rpl_exports
    then (export_count s.bytes >>= λ n. export_names s.bytes n 0 >>= λ names.
        export_groups ss >>= λ rest.
        ok ((has s.header.flags Constants.shf_execinstr, names) ∷ rest))
    else export_groups ss

-- The names that are not on the list of those to leave out.
unfoldable pub kept : List (List ℕ) → List (List ℕ)
kept [] = []
kept (name ∷ names) = if in_blacklist name then kept names else name ∷ kept names

-- The names that are kept of the sections of code, and of those of data.
unfoldable pub kept_of : Bool → List (Bool × List (List ℕ)) → List (List ℕ)
unfolding kept
kept_of is_text [] = []
kept_of true ((true, names) ∷ groups) = kept names ++ kept_of true groups
kept_of true ((false, names) ∷ groups) = kept_of true groups
kept_of false ((true, names) ∷ groups) = kept_of false groups
kept_of false ((false, names) ∷ groups) = kept names ++ kept_of false groups

abbrev pub print_names : List (List ℕ) → List ℕ
print_names [] = []
print_names (name ∷ names) = print_export name ++ print_names names

abbrev pub print_groups : List (Bool × List (List ℕ)) → List ℕ
print_groups [] = []
print_groups ((is_text, names) ∷ groups) =
    (println [] ++ (println (section_line is_text) ++ print_names names)) ++ print_groups groups

print_exports_lem :
    (data_ : List ℕ) (n i : ℕ) (names : List (List ℕ))
    → export_names data_ n i ≡ ok names
    → print_exports data_ n i ≡ ok (print_names names)
unfolding export_names print_exports
print_exports_lem data_ zero i names run = ap (λ ns. ok (print_names ns)) (ok-injective run)
print_exports_lem data_ (suc n) i names run =
    let (field, r1, run1) = >>=-eq-ok (export_name data_ i) _ run in
    let (rest, r2, run2) = >>=-eq-ok (export_names data_ n (i + 1)) _ run1 in
    let more = print_exports_lem data_ n (i + 1) rest r2 in
    elim (Bool-cases (has field 0x80000000)) [
      | inl tls ↦
          rw (r1, more, tls) (ap (λ ns. ok (print_names ns)) (ok-injective (rw tls at run2)))
      | inr plain ↦
          let (name, r3, run3) =
            >>=-eq-ok (access (c_string (drop (bit_and field 0x7fffffff) data_))) _
              (rw plain at run2) in
          rw (r1, more, plain, r3) (ap (λ ns. ok (print_names ns)) (ok-injective run3))
    ]

pub print_sections_lem :
    (ss : List Section) (groups : List (Bool × List (List ℕ)))
    → export_groups ss ≡ ok groups
    → print_sections ss ≡ ok (print_groups groups)
unfolding export_groups print_sections print_section
print_sections_lem [] groups run = ap (λ gs. ok (print_groups gs)) (ok-injective run)
print_sections_lem (s ∷ ss) groups run =
    elim (Bool-cases (s.header.type == Constants.sht_rpl_exports)) [
      | inl exports ↦
          let (n, r1, run1) = >>=-eq-ok (export_count s.bytes) _ (rw exports at run) in
          let (names, r2, run2) = >>=-eq-ok (export_names s.bytes n 0) _ run1 in
          let (rest, r3, run3) = >>=-eq-ok (export_groups ss) _ run2 in
          let one = print_exports_lem s.bytes n 0 names r2 in
          let more = print_sections_lem ss rest r3 in
          rw (exports, r1, one, more) (ap (λ gs. ok (print_groups gs)) (ok-injective run3))
      | inr other ↦ rw (other, print_sections_lem ss groups (rw other at run)) refl
    ]
