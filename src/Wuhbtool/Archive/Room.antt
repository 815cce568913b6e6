-- ===== src/Wuhbtool/Archive/Room.antt =====
-- The tables that `CreateArchive` allocates are large enough.
use wut_tools.Common.{
  ℕ, ◌+◌, ◌*◌, ◌^◌, ◌≤◌, ◌<◌, ◌≡◌, refl, sym, ap, subst, ◌∙◌, arith, u32, true, false,
}
use wut_tools.Wuhbtool.Archive.Populated.{set_root_offset_lem}
use wut_tools.Wuhbtool.Archive.{
  start_context, filled_context, set_root_offset, Prepared, prepare_children, prepare, has_tables,
}
use wut_tools.Wuhbtool.Entries.{DirNode, Children, Context, fill_information}
use wut_tools.Wuhbtool.Offsets.Kept.{
  own_space-calculate_dir_offsets, inner_space-calculate_dir_offsets,
}
use wut_tools.Wuhbtool.Offsets.Sizes.{
  dir_size, dir_space, own_space, inner_space, IsUnplaced, calculate_dir_offsets-end,
  place_files-end, place_in_dirs-end, own_space-place_in_dirs, counted_dir, count_dir_lem,
  fill_information-Sums,
}
use wut_tools.Wuhbtool.Offsets.{
  Cursor, calculate_dir_offsets, place_in_dirs, calculate_file_offsets,
}
use wut_tools.Wuhbtool.Tables.{has_records}
use wut_tools.Wuhbtool.Tables.Room.{
  calculate_dir_offsets-DirsFit, calculate_file_offsets-DirsFit, calculate_file_offsets-FilesFit,
  update_siblings-has_records,
}

-- The root has no offset yet nor has a directory below it, and the tables have sizes of 32 bits.
pub record IsFresh (root : DirNode) (es : Children) : Type 0 where
  pub root_new : root.entry_offset_set ≡ false
  pub new : IsUnplaced es
  pub dirs : 0x18 + dir_size root + dir_space es < 2 ^ 32
  pub files : own_space es + inner_space es < 2 ^ 32

abbrev start : Cursor
start = record { partition = 0; entry = 0 }

filled_sizes :
    (root : DirNode) (es : Children)
    → IsFresh root es
    → ((filled_context root es).dir_table_size ≡ 0x18 + dir_size root + dir_space es)
      × ((filled_context root es).file_table_size ≡ own_space es + inner_space es)
unfolding filled_context
filled_sizes root es fresh =
    let small = fresh.dirs in
    let room = fresh.files in
    let h = fill_information-Sums es (counted_dir root start_context) (omega arith) (omega arith) in
    subst
      (λ c.
        ((fill_information es c).dir_table_size ≡ 0x18 + dir_size root + dir_space es)
        × ((fill_information es c).file_table_size ≡ own_space es + inner_space es))
      (sym (count_dir_lem root start_context (omega arith))) (h.0 ∙ omega arith, h.1 ∙ omega arith)

calculate_file_offsets-end :
    (es : Children) (c : Cursor)
    → c.entry + (own_space es + inner_space es) < 2 ^ 32
    → (calculate_file_offsets es c).1.entry ≡ c.entry + (own_space es + inner_space es)
unfolding calculate_file_offsets
calculate_file_offsets-end es c small =
    let (es1, c1) = place_in_dirs es c in
    let e1 : c1.entry ≡ c.entry + inner_space es = place_in_dirs-end es c (omega arith) in
    let own = own_space-place_in_dirs es c in
    place_files-end es1 c1 (omega (arith, own, e1)) ∙ omega (arith, own, e1)

-- If no entry has an offset yet and the tables have sizes of 32 bits, then in `CreateArchive` the
-- offsets of the files end where the table of files ends, by the size that `fillRomFSInformation`
-- adds up, and those of the directories end before their table does by the size of an entry of the
-- root, which is counted twice.
pub filled_context-offsets :
    (root : DirNode) (es : Children)
    → IsFresh root es
    → ((calculate_dir_offsets es (set_root_offset root 0).1).1 + dir_size root
        ≡ (filled_context root es).dir_table_size)
      × ((calculate_file_offsets
            (calculate_dir_offsets es (set_root_offset root 0).1).0
            (record { partition = 0; entry = 0 })).1.entry
          ≡ (filled_context root es).file_table_size)
filled_context-offsets root es fresh =
    let small = fresh.dirs in
    let room = fresh.files in
    let sizes = filled_sizes root es fresh in
    let e : (set_root_offset root 0).1 ≡ 0x18 =
      ap (λ p. p.1) (set_root_offset_lem root fresh.root_new) in
    let last = calculate_dir_offsets-end es 0x18 fresh.new (omega arith) in
    let own = own_space-calculate_dir_offsets es 0x18 in
    let inner = inner_space-calculate_dir_offsets es 0x18 in
    let es1 = (calculate_dir_offsets es 0x18).0 in
    let behind = calculate_file_offsets-end es1 start (omega (arith, own, inner)) in
    rw e (omega (arith, last, sizes.0), omega (arith, behind, own, inner, sizes.1))

has_all_tables :
    (dir_count file_count : ℕ) (c : Context) (p : Prepared)
    → 4 * dir_count < 2 ^ 32
    → 4 * file_count < 2 ^ 32
    → u32 p.root.entry_offset + 0x18 ≤ c.dir_table_size
    → has_records c.dir_table_size c.file_table_size p.children ≡ true
    → has_tables dir_count file_count c p ≡ true
unfolding has_tables
has_all_tables dir_count file_count c p n m root children = ground (arith, n, m, root, children)

prepare_children-has_tables :
    (dir_count file_count : ℕ) (c : Context) (root : DirNode) (es : Children)
    → 4 * dir_count < 2 ^ 32
    → 4 * file_count < 2 ^ 32
    → root.entry_offset ≡ 0
    → IsUnplaced es
    → 0x18 + dir_space es < c.dir_table_size
    → c.dir_table_size < 2 ^ 32
    → own_space es + inner_space es ≡ c.file_table_size
    → c.file_table_size < 2 ^ 32
    → has_tables dir_count file_count c (prepare_children dir_count file_count (root, 0x18) es)
      ≡ true
unfolding prepare_children
prepare_children-has_tables dir_count file_count c root es n m first new dirs small files room =
    let es1 = (calculate_dir_offsets es 0x18).0 in
    let own = own_space-calculate_dir_offsets es 0x18 in
    let inner = inner_space-calculate_dir_offsets es 0x18 in
    has_all_tables dir_count file_count c _ n m (omega (arith, first, dirs)) (
      update_siblings-has_records c.dir_table_size c.file_table_size
        (calculate_file_offsets es1 start).0
        (calculate_file_offsets-DirsFit c.dir_table_size es1 start
          (calculate_dir_offsets-DirsFit c.dir_table_size es 0x18 new (omega arith) small))
        (calculate_file_offsets-FilesFit c.file_table_size es1 start
          (omega (arith, own, inner, files)) room))

-- If no entry has an offset yet, the tables have sizes of 32 bits and there are fewer than 2 ^ 30
-- buckets in each hash table, then `CreateArchive` writes within the memory that it allocates: the
-- hash tables have room for their buckets, and the record of the root, of each directory and of each
-- file, with its name, lies in its table, whose size `fillRomFSInformation` adds up.
pub prepare-has_tables :
    (dir_count file_count : ℕ) (root : DirNode) (es : Children)
    → 4 * dir_count < 2 ^ 32
    → 4 * file_count < 2 ^ 32
    → IsFresh root es
    → has_tables dir_count file_count
        (filled_context root es)
        (prepare dir_count file_count root es)
      ≡ true
unfolding prepare
prepare-has_tables dir_count file_count root es n m fresh =
    let small = fresh.dirs in
    let room = fresh.files in
    let c = filled_context root es in
    let sizes = filled_sizes root es fresh in
    subst
      (λ s. has_tables dir_count file_count c (prepare_children dir_count file_count s es) ≡ true)
      (sym (set_root_offset_lem root fresh.root_new))
      (prepare_children-has_tables dir_count file_count c
        (record root { entry_offset = 0; entry_offset_set = true }) es n m refl fresh.new
        (omega (arith, sizes.0)) (omega (arith, sizes.0)) (sym sizes.1) (omega (arith, sizes.1)))
