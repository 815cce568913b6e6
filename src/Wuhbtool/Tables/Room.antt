-- ===== src/Wuhbtool/Tables/Room.antt =====
-- Each record that `populate` writes lies in its table.
use wut_tools.Common.{ℕ, ◌+◌, ◌^◌, ◌≤◌, ◌<◌, ◌≡◌, refl, arith, u32, u64, true, length}
use wut_tools.Utils.{align}
use wut_tools.Wuhbtool.Entries.{Children, end, file, dir}
use wut_tools.Wuhbtool.Offsets.Sizes.{
  dir_size, file_size, dir_space, own_space, inner_space, IsUnplaced, dir_entry_size_lem,
  file_entry_size_lem, calculate_dir_offsets-end, place_files-end, place_in_dirs-end,
  own_space-place_in_dirs,
}
use wut_tools.Wuhbtool.Offsets.{
  Cursor, set_dir_offset, calculate_dir_offsets, place_file, place_files, place_in_dirs,
  calculate_file_offsets, update_siblings,
}
use wut_tools.Wuhbtool.Tables.{has_records}

-- The records of the directories end within so many bytes, and those of the files.
abbrev pub DirsFit : ℕ → Children → Type 0
DirsFit n end = Unit {0}
DirsFit n (file f rest) = DirsFit n rest
DirsFit n (dir d es rest) =
    (u32 d.entry_offset + 0x18 + length d.name ≤ n) × DirsFit n es × DirsFit n rest

abbrev pub FilesFit : ℕ → Children → Type 0
FilesFit n end = Unit {0}
FilesFit n (file f rest) = (u32 f.entry_offset + 0x20 + length f.name ≤ n) × FilesFit n rest
FilesFit n (dir d es rest) = FilesFit n es × FilesFit n rest

-- The files in the directories among the children.
abbrev InnerFit : ℕ → Children → Type 0
InnerFit n end = Unit {0}
InnerFit n (file f rest) = InnerFit n rest
InnerFit n (dir d es rest) = FilesFit n es × InnerFit n rest

pub calculate_dir_offsets-DirsFit :
    (n : ℕ) (es : Children) (o : ℕ)
    → IsUnplaced es
    → o + dir_space es ≤ n
    → n < 2 ^ 32
    → DirsFit n (calculate_dir_offsets es o).0
unfolding calculate_dir_offsets set_dir_offset dir_space
calculate_dir_offsets-DirsFit n end o new room small = tt
calculate_dir_offsets-DirsFit n (file f rest) o new room small =
    calculate_dir_offsets-DirsFit n rest o new room small
calculate_dir_offsets-DirsFit n (dir d es rest) o new room small =
    let o1 = o + dir_size d in
    let e : u32 (o + dir_size d) ≡ o1 = omega arith in
    let e0 : u32 o ≡ o = omega arith in
    let size = dir_entry_size_lem d (omega arith) in
    rw (new.0, size, e, calculate_dir_offsets-end es o1 new.1 (omega arith), e0)
      (
        omega arith,
        calculate_dir_offsets-DirsFit n es o1 new.1 (omega arith) small,
        calculate_dir_offsets-DirsFit n rest (o1 + dir_space es) new.2 (omega arith) small,
      )

place_files-DirsFit :
    (n : ℕ) (es : Children) (c : Cursor) → DirsFit n es → DirsFit n (place_files es c).0
unfolding place_files
place_files-DirsFit n end c h = tt
place_files-DirsFit n (file f rest) c h = place_files-DirsFit n rest _ h
place_files-DirsFit n (dir d es rest) c h = (h.0, h.1, place_files-DirsFit n rest c h.2)

place_in_dirs-DirsFit :
    (n : ℕ) (es : Children) (c : Cursor) → DirsFit n es → DirsFit n (place_in_dirs es c).0
unfolding place_in_dirs
place_in_dirs-DirsFit n end c h = tt
place_in_dirs-DirsFit n (file f rest) c h = place_in_dirs-DirsFit n rest c h
place_in_dirs-DirsFit n (dir d es rest) c h = (
  h.0,
  place_files-DirsFit n (place_in_dirs es c).0 _ (place_in_dirs-DirsFit n es c h.1),
  place_in_dirs-DirsFit n rest _ h.2,
)

pub calculate_file_offsets-DirsFit :
    (n : ℕ) (es : Children) (c : Cursor) → DirsFit n es → DirsFit n (calculate_file_offsets es c).0
unfolding calculate_file_offsets
calculate_file_offsets-DirsFit n es c h =
    place_files-DirsFit n (place_in_dirs es c).0 _ (place_in_dirs-DirsFit n es c h)

place_files-FilesFit :
    (n : ℕ) (es : Children) (c : Cursor)
    → InnerFit n es
    → c.entry + own_space es ≤ n
    → n < 2 ^ 32
    → FilesFit n (place_files es c).0
unfolding place_files place_file own_space
place_files-FilesFit n end c h room small = tt
place_files-FilesFit n (file f rest) c h room small =
    let e : u32 (c.entry + file_size f) ≡ c.entry + file_size f = omega arith in
    let e0 : u32 c.entry ≡ c.entry = omega arith in
    let size = file_entry_size_lem f (omega arith) in
    let p = u64 (align 64 c.partition 0x10 + f.size) in
    rw (size, e, e0)
      (
        omega arith,
        place_files-FilesFit n rest (record { partition = p; entry = c.entry + file_size f }) h
            (omega arith) small,
      )
place_files-FilesFit n (dir d es rest) c h room small =
    (h.0, place_files-FilesFit n rest c h.1 room small)

place_in_dirs-InnerFit :
    (n : ℕ) (es : Children) (c : Cursor)
    → c.entry + inner_space es ≤ n
    → n < 2 ^ 32
    → InnerFit n (place_in_dirs es c).0
unfolding place_in_dirs inner_space
place_in_dirs-InnerFit n end c room small = tt
place_in_dirs-InnerFit n (file f rest) c room small = place_in_dirs-InnerFit n rest c room small
place_in_dirs-InnerFit n (dir d es rest) c room small =
    let (es1, c1) = place_in_dirs es c in
    let own = own_space-place_in_dirs es c in
    let e1 : c1.entry ≡ c.entry + inner_space es = place_in_dirs-end es c (omega arith) in
    let e2 : (place_files es1 c1).1.entry ≡ c1.entry + own_space es1 =
      place_files-end es1 c1 (omega (arith, own, e1)) in
    (
      place_files-FilesFit n es1 c1 (place_in_dirs-InnerFit n es c (omega arith) small)
          (omega (arith, own, e1)) small,
      place_in_dirs-InnerFit n rest (place_files es1 c1).1 (omega (arith, own, e1, e2)) small,
    )

pub calculate_file_offsets-FilesFit :
    (n : ℕ) (es : Children) (c : Cursor)
    → c.entry + (own_space es + inner_space es) ≤ n
    → n < 2 ^ 32
    → FilesFit n (calculate_file_offsets es c).0
unfolding calculate_file_offsets
calculate_file_offsets-FilesFit n es c room small =
    let (es1, c1) = place_in_dirs es c in
    let own = own_space-place_in_dirs es c in
    let e1 : c1.entry ≡ c.entry + inner_space es = place_in_dirs-end es c (omega arith) in
    place_files-FilesFit n es1 c1 (place_in_dirs-InnerFit n es c (omega arith) small)
      (omega (arith, own, e1)) small

pub update_siblings-has_records :
    (dirs files : ℕ) (es : Children)
    → DirsFit dirs es
    → FilesFit files es
    → has_records dirs files (update_siblings es) ≡ true
unfolding update_siblings has_records
update_siblings-has_records n m end h k = refl
update_siblings-has_records n m (file f rest) h k =
    let later = update_siblings-has_records n m rest h k.1 in ground (arith, k.0, later)
update_siblings-has_records n m (dir d es rest) h k =
    let inner = update_siblings-has_records n m es h.1 k.0 in
    let later = update_siblings-has_records n m rest h.2 k.1 in ground (arith, h.0, inner, later)
