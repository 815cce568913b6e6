-- ===== src/Wuhbtool/Tables/Found.antt =====
-- What `populate` puts into the tables, as lists of items.
use wut_tools.Common.Apart.{Apart}
use wut_tools.Common.{
  ℕ, ◌≡◌, ◌≢◌, refl, sym, ap, subst, u32, List, [], ◌∷◌, ◌++◌, All, All-append, none, map,
}
use wut_tools.Wuhbtool.Entries.{FileNode, DirNode, Children, end, file, dir}
use wut_tools.Wuhbtool.Hashing.{calc_path_hash}
use wut_tools.Wuhbtool.Offsets.Dirs.{dir_offsets}
use wut_tools.Wuhbtool.Offsets.Files.{file_offsets}
use wut_tools.Wuhbtool.Tables.Chains.{Item, put_all, Distinct, Stored, KeepsNext, put_all-Stored}
use wut_tools.Wuhbtool.Tables.{
  DirRecord, FileRecord, Table, put, dir_record, file_record, Infos, put_dir, put_file, populate,
  populate_root,
}

abbrev pub dir_item : ℕ → DirNode → Item DirRecord
dir_item parent d = record {
  hash = calc_path_hash parent d.name;
  offset = u32 d.entry_offset;
  make = dir_record parent d;
}

abbrev pub file_item : ℕ → FileNode → Item FileRecord
file_item parent f = record {
  hash = calc_path_hash parent f.name;
  offset = u32 f.entry_offset;
  make = file_record parent f;
}

-- The directories below a directory at an offset.
unfoldable pub dir_items : ℕ → Children → List (Item DirRecord)
dir_items parent end = []
dir_items parent (file f rest) = dir_items parent rest
dir_items parent (dir d es rest) =
    dir_item parent d ∷ (dir_items (u32 d.entry_offset) es ++ dir_items parent rest)

-- The files below it.
unfoldable pub file_items : ℕ → Children → List (Item FileRecord)
file_items parent end = []
file_items parent (file f rest) = file_item parent f ∷ file_items parent rest
file_items parent (dir d es rest) = file_items (u32 d.entry_offset) es ++ file_items parent rest

-- The root, whose record has no name.
abbrev pub root_item : DirNode → Item DirRecord
root_item root = record {
  hash = calc_path_hash 0 ([]);
  offset = u32 root.entry_offset;
  make = λ next. record (dir_record (u32 root.entry_offset) root next) { name_size = 0; name = [] };
}

module _ {R : Type 0} where
  put_all-append :
      (xs ys : List (Item R)) (t : Table R) → put_all (xs ++ ys) t ≡ put_all ys (put_all xs t)
  unfolding put_all
  put_all-append [] ys t = refl
  put_all-append (i ∷ xs) ys t = put_all-append xs ys (put i.hash i.offset i.make t)

  abbrev offset_of : Item R → ℕ
  offset_of i = i.offset

  offsets-append :
      (xs ys : List (Item R)) → map offset_of (xs ++ ys) ≡ map offset_of xs ++ map offset_of ys
  offsets-append [] ys = refl
  offsets-append (i ∷ xs) ys = ap (λ o. i.offset ∷ o) (offsets-append xs ys)

  All-offsets :
      (P : ℕ → Type 0) (items : List (Item R))
      → All P (map offset_of items)
      → All (λ (i : Item R). P i.offset) items
  All-offsets P [] h = tt
  All-offsets P (i ∷ items) h = (h.0, All-offsets P items h.1)

  Apart-Distinct : (items : List (Item R)) → Apart (map offset_of items) → Distinct items
  Apart-Distinct [] h = tt
  Apart-Distinct (i ∷ items) h =
      (All-offsets (λ y. i.offset ≢ y) items h.0, Apart-Distinct items h.1)

  All-each : {P : Item R → Type 0} → ((i : Item R) → P i) → (items : List (Item R)) → All P items
  All-each f [] = tt
  All-each f (i ∷ items) = (f i, All-each f items)

populate-items :
    (parent : ℕ) (es : Children) (infos : Infos)
    → populate parent es infos ≡ record {
      dirs = put_all (dir_items parent es) infos.dirs;
      files = put_all (file_items parent es) infos.files;
    }
unfolding populate put_dir put_file put_all dir_items file_items
populate-items parent end infos = refl
populate-items parent (file f rest) infos = populate-items parent rest (put_file parent f infos)
populate-items parent (dir d es rest) infos =
    let child = u32 d.entry_offset in
    let infos1 = put_dir parent d infos in
    let inner = populate-items child es infos1 in
    let back = populate-items parent rest (populate child es infos1) in
    let e1 = put_all-append (dir_items child es) (dir_items parent rest) infos1.dirs in
    let e2 = put_all-append (file_items child es) (file_items parent rest) infos.files in
    rw (back, inner, e1, e2) refl

dir_items-offsets :
    (parent : ℕ) (es : Children) → map offset_of (dir_items parent es) ≡ dir_offsets es
unfolding dir_items dir_offsets
dir_items-offsets parent end = refl
dir_items-offsets parent (file f rest) = dir_items-offsets parent rest
dir_items-offsets parent (dir d es rest) =
    let inner = dir_items-offsets (u32 d.entry_offset) es in
    let back = dir_items-offsets parent rest in
    let e = offsets-append (dir_items (u32 d.entry_offset) es) (dir_items parent rest) in
    ap (λ o. u32 d.entry_offset ∷ o) (rw (e, inner, back) refl)

file_items-offsets :
    (parent : ℕ) (es : Children) → map offset_of (file_items parent es) ≡ file_offsets es
unfolding file_items file_offsets
file_items-offsets parent end = refl
file_items-offsets parent (file f rest) =
    ap (λ o. u32 f.entry_offset ∷ o) (file_items-offsets parent rest)
file_items-offsets parent (dir d es rest) =
    let inner = file_items-offsets (u32 d.entry_offset) es in
    let back = file_items-offsets parent rest in
    let e = offsets-append (file_items (u32 d.entry_offset) es) (file_items parent rest) in
    rw (e, inner, back) refl

-- No record yet, and no entry in any bucket.
abbrev pub IsEmpty : {R : Type 0} → Table R → Type 0
IsEmpty t = (o : ℕ) → t.records o ≡ none

keeps_dirs :
    (parent : ℕ) (es : Children) → All (KeepsNext (λ (r : DirRecord). r.hash)) (dir_items parent es)
unfolding dir_items
keeps_dirs parent end = tt
keeps_dirs parent (file f rest) = keeps_dirs parent rest
keeps_dirs parent (dir d es rest) = (
  λ n. refl,
  All-append (KeepsNext (λ (r : DirRecord). r.hash)) (dir_items (u32 d.entry_offset) es)
      (dir_items parent rest) (keeps_dirs (u32 d.entry_offset) es) (keeps_dirs parent rest),
)

keeps_files :
    (parent : ℕ) (es : Children)
    → All (KeepsNext (λ (r : FileRecord). r.hash)) (file_items parent es)
unfolding file_items
keeps_files parent end = tt
keeps_files parent (file f rest) = (λ n. refl, keeps_files parent rest)
keeps_files parent (dir d es rest) =
    All-append (KeepsNext (λ (r : FileRecord). r.hash)) (file_items (u32 d.entry_offset) es)
      (file_items parent rest) (keeps_files (u32 d.entry_offset) es) (keeps_files parent rest)

-- All that is put into tables that were empty.
abbrev pub IsPopulated : DirNode → Children → Infos → Type 0
IsPopulated root es infos =
    All (Stored (λ (r : DirRecord). r.hash) infos.dirs)
      (root_item root ∷ dir_items (u32 root.entry_offset) es)
    × All (Stored (λ (r : FileRecord). r.hash) infos.files) (file_items (u32 root.entry_offset) es)

-- Entries at different offsets are all found.
pub populate_root-IsPopulated :
    (root : DirNode) (es : Children) (infos : Infos)
    → IsEmpty infos.dirs
    → IsEmpty infos.files
    → Apart (u32 root.entry_offset ∷ dir_offsets es)
    → Apart (file_offsets es)
    → IsPopulated root es (populate_root root es infos)
unfolding populate_root put_all
populate_root-IsPopulated root es infos no_dirs no_files dirs files =
    let offset = u32 root.entry_offset in
    let ds = root_item root ∷ dir_items offset es in
    let fs = file_items offset es in
    let start : Infos = record infos {
      dirs = put (calc_path_hash 0 ([])) offset (root_item root).make infos.dirs;
    } in
    let e = populate-items offset es start in
    let d : Distinct ds =
      Apart-Distinct ds
        (subst (λ o. Apart (offset ∷ o)) (sym (dir_items-offsets offset es)) dirs) in
    let f : Distinct fs =
      Apart-Distinct fs (subst Apart (sym (file_items-offsets offset es)) files) in
    let found_dirs =
      put_all-Stored (λ (r : DirRecord). r.hash) ds infos.dirs (All-each (λ i. no_dirs i.offset) ds)
        (λ n. refl, keeps_dirs offset es) d in
    let found_files =
      put_all-Stored (λ (r : FileRecord). r.hash) fs infos.files
        (All-each (λ i. no_files i.offset) fs) (keeps_files offset es) f in
    subst (λ i. IsPopulated root es i) (sym e) (found_dirs, found_files)
