-- ===== src/Readrpl/Exports.antt =====
-- src/readrpl/generate_exports_def.cpp: the names that an RPL exports, as the input of rplimportgen.
-- The text is its characters.
pub mod Basename
pub mod Groups
pub mod Imported
use wut_tools.Common.Text.{codes}
use wut_tools.Common.{
  ℕ, zero, suc, ◌+◌, ◌*◌, bit_and, has, Bool, true, false, ◌||◌, ◌&&◌, not, contains, ◌==◌, leb,
  if◌then◌else◌, List, [], ◌∷◌, ◌++◌, drop, length, Run, ok, failed, fault, ◌>>=◌, access,
}
use wut_tools.Elf.Bytes.{read_32, c_string}
use wut_tools.Elf.Constants
use wut_tools.Elf2rpl.Reading.{same_text}
use wut_tools.Readrpl.Rpl.{Section, Rpl}

-- `sExportBlacklist`
abbrev pub export_blacklist : List (List ℕ)
export_blacklist =
    codes "__get_eh_globals"
    ∷ codes "__get_eh_init_block"
    ∷ codes "__get_eh_mem_manage"
    ∷ codes "__get_eh_store_globals"
    ∷ codes "__get_eh_store_globals_tdeh"
    ∷ codes "__gh_errno_ptr"
    ∷ codes "__gh_get_errno"
    ∷ codes "__gh_iob_init"
    ∷ codes "__gh_lock_init"
    ∷ codes "__gh_set_errno"
    ∷ codes "__ghsLock"
    ∷ codes "__ghsUnlock"
    ∷ codes "__ghs_at_exit"
    ∷ codes "__ghs_at_exit_cleanup"
    ∷ codes "__ghs_flock_create"
    ∷ codes "__ghs_flock_destroy"
    ∷ codes "__ghs_flock_file"
    ∷ codes "__ghs_flock_ptr"
    ∷ codes "__ghs_ftrylock_file"
    ∷ codes "__ghs_funlock_file"
    ∷ codes "__ghs_mtx_dst"
    ∷ codes "__ghs_mtx_init"
    ∷ codes "__ghs_mtx_lock"
    ∷ codes "__ghs_mtx_unlock"
    ∷ codes "__tls_get_addr"
    ∷ codes "memclr"
    ∷ codes "memcpy"
    ∷ codes "memmove"
    ∷ codes "memset"
    ∷ codes "__atexit_cleanup"
    ∷ codes "__cpp_exception_cleanup_ptr"
    ∷ codes "__cpp_exception_init_ptr"
    ∷ codes "__gh_FOPEN_MAX"
    ∷ codes "__ghs_cpp_locks"
    ∷ codes "__stdio_cleanup"
    ∷ codes "_iob"
    ∷ codes "_iob_lock"
    ∷ codes "environ"
    ∷ codes "errno"
    ∷ []

unfoldable pub is_listed : List ℕ → List (List ℕ) → Bool
unfolding same_text
is_listed name [] = false
is_listed name (listed ∷ list) = same_text name listed || is_listed name list

unfoldable pub in_blacklist : List ℕ → Bool
unfolding is_listed
in_blacklist name = is_listed name export_blacklist

-- `fmt::println`
abbrev pub println : List ℕ → List ℕ
println text = text ++ 10 ∷ []

-- `exports->count`, and `exports->exports[i].name`, which must lie in the data
unfoldable pub export_count : List ℕ → Run ℕ
unfolding read_32
export_count data_ = if leb 4 (length data_) then ok (read_32 data_) else fault

unfoldable pub export_name : List ℕ → ℕ → Run ℕ
unfolding read_32
export_name data_ i =
    if leb (8 * i + 16) (length data_) then ok (read_32 (drop (8 * i + 12) data_)) else fault

-- The line of an export, behind "//" where the name is on the list.
unfoldable pub print_export : List ℕ → List ℕ
unfolding in_blacklist
print_export name = (if in_blacklist name then codes "//" else []) ++ println name

-- The loop over the exports, with `n` left from the export `i` on. Those of thread-local data, whose
-- names have the high bit set, are left out.
unfoldable pub print_exports : List ℕ → (n i : ℕ) → Run (List ℕ)
unfolding export_name c_string print_export
print_exports data_ zero i = ok []
print_exports data_ (suc n) i = export_name data_ i >>= λ field.
    print_exports data_ n (i + 1) >>= λ rest.
    if has field 0x80000000
    then ok rest
    else (access (c_string (drop (bit_and field 0x7fffffff) data_)) >>= λ name.
        ok (print_export name ++ rest))

-- ":TEXT" or ":DATA"
abbrev pub section_line : Bool → List ℕ
section_line is_text = if is_text then codes ":TEXT" else codes ":DATA"

unfoldable pub print_section : Section → Run (List ℕ)
unfolding export_count print_exports
print_section s =
    if s.header.type == Constants.sht_rpl_exports
    then (export_count s.bytes >>= λ n. print_exports s.bytes n 0 >>= λ text. ok (
        println []
        ++ (println (section_line (has s.header.flags Constants.shf_execinstr)) ++ text)))
    else ok []

unfoldable pub print_sections : List Section → Run (List ℕ)
unfolding print_section
print_sections [] = ok []
print_sections (s ∷ ss) = do text ← print_section s; rest ← print_sections ss; ok (text ++ rest)

-- `opened` tells whether the output could be opened.
unfoldable pub generate_exports_def : Bool → Rpl → List ℕ → Run (List ℕ)
unfolding print_sections
generate_exports_def opened rpl rpl_name =
    if opened
    then (print_sections rpl.sections >>= λ text. ok (println (codes ":NAME " ++ rpl_name) ++ text))
    else failed

-- What stands behind the last '\\' or '/' of a text; `kept` is the text where there is none.
unfoldable pub behind_separator : List ℕ → List ℕ → List ℕ
behind_separator kept [] = kept
behind_separator kept (c ∷ s) = behind_separator (if c == 92 || c == 47 then s else kept) s

-- What stands before the last '.'
unfoldable pub before_dot : List ℕ → List ℕ
unfolding contains
before_dot [] = []
before_dot (c ∷ s) =
    let rest = before_dot s in if c == 46 && not (contains s 46) then [] else c ∷ rest

unfoldable pub get_file_basename : List ℕ → List ℕ
unfolding behind_separator before_dot
get_file_basename path = before_dot (behind_separator path path)
