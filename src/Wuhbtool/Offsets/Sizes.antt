-- ===== src/Wuhbtool/Offsets/Sizes.antt =====
-- The sizes of the tables, by `fillRomFSInformation` and by the offsets that are given out.
use wut_tools.Common.{
  ℕ, ◌+◌, ◌*◌, ◌/◌, ◌^◌, ◌≤◌, ◌<◌, ◌≡◌, refl, sym, ap, subst, ◌∙◌, arith, u32, u64, false, length,
}
use wut_tools.Utils.Align.{align_rounded}
use wut_tools.Utils.{align}
use wut_tools.Wuhbtool.Entries.{
  FileNode, DirNode, Children, end, file, dir, Context, count_file, count_dir, fill_information,
}
use wut_tools.Wuhbtool.Offsets.{
  Cursor, dir_entry_size, file_entry_size, set_dir_offset, calculate_dir_offsets, place_file,
  place_files, place_in_dirs,
}

-- The space that names and their entries take.
abbrev pub dir_size : DirNode → ℕ
dir_size d = 0x18 + (length d.name + 3) / 4 * 4

abbrev pub file_size : FileNode → ℕ
file_size f = 0x20 + (length f.name + 3) / 4 * 4

unfoldable pub dir_space : Children → ℕ
dir_space end = 0
dir_space (file f rest) = dir_space rest
dir_space (dir d es rest) = dir_size d + dir_space es + dir_space rest

-- The space of the files among the children, and that of the files in the directories among them.
unfoldable pub own_space : Children → ℕ
own_space end = 0
own_space (file f rest) = file_size f + own_space rest
own_space (dir d es rest) = own_space rest

unfoldable pub inner_space : Children → ℕ
unfolding own_space
inner_space end = 0
inner_space (file f rest) = inner_space rest
inner_space (dir d es rest) = inner_space es + own_space es + inner_space rest

-- No directory has an offset yet.
abbrev pub IsUnplaced : Children → Type 0
IsUnplaced end = Unit {0}
IsUnplaced (file f rest) = IsUnplaced rest
IsUnplaced (dir d es rest) = (d.entry_offset_set ≡ false) × IsUnplaced es × IsUnplaced rest

align_name : (n : ℕ) → n + 4 ≤ 2 ^ 32 → align 32 n 4 ≡ (n + 3) / 4 * 4
align_name n small = align_rounded 32 2 n (omega arith) small

align_name_wide : (n : ℕ) → n + 4 ≤ 2 ^ 64 → align 64 n 4 ≡ (n + 3) / 4 * 4
align_name_wide n small = align_rounded 64 2 n (omega arith) small

pub dir_entry_size_lem : (d : DirNode) → dir_size d < 2 ^ 32 → dir_entry_size d ≡ dir_size d
unfolding dir_entry_size
dir_entry_size_lem d small =
    let e : u32 (length d.name) ≡ length d.name = omega arith in
    rw (e, align_name (length d.name) (omega arith)) (omega arith)

pub file_entry_size_lem : (f : FileNode) → file_size f < 2 ^ 32 → file_entry_size f ≡ file_size f
unfolding file_entry_size
file_entry_size_lem f small =
    let e : u32 (length f.name) ≡ length f.name = omega arith in
    rw (e, align_name (length f.name) (omega arith)) (omega arith)

-- The next offset is behind all the entries.
pub calculate_dir_offsets-end :
    (es : Children) (o : ℕ)
    → IsUnplaced es
    → o + dir_space es < 2 ^ 32
    → (calculate_dir_offsets es o).1 ≡ o + dir_space es
unfolding calculate_dir_offsets set_dir_offset dir_space
calculate_dir_offsets-end end o new small = omega arith
calculate_dir_offsets-end (file f rest) o new small = calculate_dir_offsets-end rest o new small
calculate_dir_offsets-end (dir d es rest) o new small =
    let e : u32 (o + dir_size d) ≡ o + dir_size d = omega arith in
    let size = dir_entry_size_lem d (omega arith) in
    let inner = calculate_dir_offsets-end es (o + dir_size d) new.1 (omega arith) in
    rw (new.0, size, e, inner)
      (calculate_dir_offsets-end rest (o + dir_size d + dir_space es) new.2 (omega arith)
        ∙ omega arith)

pub place_files-end :
    (es : Children) (c : Cursor)
    → c.entry + own_space es < 2 ^ 32
    → (place_files es c).1.entry ≡ c.entry + own_space es
unfolding place_files place_file own_space
place_files-end end c small = omega arith
place_files-end (file f rest) c small =
    let e : u32 (c.entry + file_size f) ≡ c.entry + file_size f = omega arith in
    let size = file_entry_size_lem f (omega arith) in
    let p = u64 (align 64 c.partition 0x10 + f.size) in
    rw (size, e)
      (place_files-end rest (record { partition = p; entry = c.entry + file_size f }) (omega arith)
        ∙ omega arith)
place_files-end (dir d es rest) c small = place_files-end rest c small

-- The first loop does not change what the second one needs.
pub own_space-place_in_dirs :
    (es : Children) (c : Cursor) → own_space (place_in_dirs es c).0 ≡ own_space es
unfolding place_in_dirs own_space
own_space-place_in_dirs end c = refl
own_space-place_in_dirs (file f rest) c = ap (λ n. file_size f + n) (own_space-place_in_dirs rest c)
own_space-place_in_dirs (dir d es rest) c = own_space-place_in_dirs rest _

pub place_in_dirs-end :
    (es : Children) (c : Cursor)
    → c.entry + inner_space es < 2 ^ 32
    → (place_in_dirs es c).1.entry ≡ c.entry + inner_space es
unfolding place_in_dirs inner_space
place_in_dirs-end end c small = omega arith
place_in_dirs-end (file f rest) c small = place_in_dirs-end rest c small
place_in_dirs-end (dir d es rest) c small =
    let (es1, c1) = place_in_dirs es c in
    let e1 : c1.entry ≡ c.entry + inner_space es = place_in_dirs-end es c (omega arith) in
    let own = own_space-place_in_dirs es c in
    let e2 : (place_files es1 c1).1.entry ≡ c1.entry + own_space es =
      place_files-end es1 c1 (omega (arith, own, e1)) ∙ omega (arith, own) in
    place_in_dirs-end rest (place_files es1 c1).1 (omega (arith, e1, e2)) ∙ omega (arith, e1, e2)

abbrev counted_file : FileNode → Context → Context
counted_file f c = record c {
  num_files = u64 (c.num_files + 1);
  file_table_size = c.file_table_size + file_size f;
}

abbrev pub counted_dir : DirNode → Context → Context
counted_dir d c = record c {
  num_dirs = u64 (c.num_dirs + 1);
  dir_table_size = c.dir_table_size + dir_size d;
}

count_file_lem :
    (f : FileNode) (c : Context)
    → c.file_table_size + file_size f < 2 ^ 32
    → count_file f c ≡ counted_file f c
unfolding count_file
count_file_lem f c small =
    let e : u64 (c.file_table_size + file_size f) ≡ c.file_table_size + file_size f = omega arith in
    rw (align_name_wide (length f.name) (omega arith), e) refl

pub count_dir_lem :
    (d : DirNode) (c : Context)
    → c.dir_table_size + dir_size d < 2 ^ 32
    → count_dir d c ≡ counted_dir d c
unfolding count_dir
count_dir_lem d c small =
    let e : u64 (c.dir_table_size + dir_size d) ≡ c.dir_table_size + dir_size d = omega arith in
    rw (align_name_wide (length d.name) (omega arith), e) refl

-- The sums that `fillRomFSInformation` makes, from one context to another.
abbrev pub Sums : Children → Context → Context → Type 0
Sums es c c' =
    (c'.dir_table_size ≡ c.dir_table_size + dir_space es)
    × (c'.file_table_size ≡ c.file_table_size + (own_space es + inner_space es))

pub fill_information-Sums :
    (es : Children) (c : Context)
    → c.dir_table_size + dir_space es < 2 ^ 32
    → c.file_table_size + (own_space es + inner_space es) < 2 ^ 32
    → Sums es c (fill_information es c)
unfolding fill_information dir_space own_space inner_space
fill_information-Sums end c small room = (omega arith, omega arith)
fill_information-Sums (file f rest) c small room =
    let h = fill_information-Sums rest (counted_file f c) small (omega arith) in
    subst (λ x. Sums (file f rest) c (fill_information rest x))
      (sym (count_file_lem f c (omega arith))) (h.0, h.1 ∙ omega arith)
fill_information-Sums (dir d es rest) c small room =
    let c1 = fill_information es (counted_dir d c) in
    let h1 = fill_information-Sums es (counted_dir d c) (omega arith) (omega arith) in
    let h2 = fill_information-Sums rest c1 (omega (arith, h1.0)) (omega (arith, h1.1)) in
    subst (λ x. Sums (dir d es rest) c (fill_information rest (fill_information es x)))
      (sym (count_dir_lem d c (omega arith)))
      (h2.0 ∙ omega (arith, h1.0), h2.1 ∙ omega (arith, h1.1))
