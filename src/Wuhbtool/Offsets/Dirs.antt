-- ===== src/Wuhbtool/Offsets/Dirs.antt =====
-- The offsets of the directories.
use wut_tools.Common.Apart.{Apart, IsWithin, IsOutside, All-imply, Apart-append}
use wut_tools.Common.{
  ℕ, ◌+◌, ◌^◌, ◌≤◌, ◌<◌, ◌≡◌, ◌≢◌, arith, inr, u32, List, [], ◌∷◌, ◌++◌, All, All-append,
}
use wut_tools.Wuhbtool.Entries.{Children, end, file, dir}
use wut_tools.Wuhbtool.Offsets.Sizes.{
  dir_size, dir_space, IsUnplaced, dir_entry_size_lem, calculate_dir_offsets-end,
}
use wut_tools.Wuhbtool.Offsets.{set_dir_offset, calculate_dir_offsets}

-- The offsets of the directories, as `be_word` takes them, in the order of `populate`.
unfoldable pub dir_offsets : Children → List ℕ
dir_offsets end = []
dir_offsets (file f rest) = dir_offsets rest
dir_offsets (dir d es rest) = u32 d.entry_offset ∷ (dir_offsets es ++ dir_offsets rest)

-- A number before a range differs from those in it.
pub before_range :
    (x low high : ℕ) (ys : List ℕ) → x < low → All (IsWithin low high) ys → All (λ y. x ≢ y) ys
before_range x low high ys h = All-imply (IsWithin low high) (λ y. x ≢ y) ys (λ y w. omega arith)

pub widen_range :
    (low high low' high' : ℕ) (ys : List ℕ)
    → low' ≤ low
    → high ≤ high'
    → All (IsWithin low high) ys
    → All (IsWithin low' high') ys
widen_range low high low' high' ys a b =
    All-imply (IsWithin low high) (IsWithin low' high') ys (λ y w. (omega arith, omega arith))

-- If no directory below has an offset yet, and the first offset and the space of their entries come
-- to less than 2 ^ 32, then `calculateDirOffsets` gives different offsets to the directories, all of
-- them at least the first offset and less than that and the space of the entries.
pub calculate_dir_offsets-Apart :
    (es : Children) (o : ℕ)
    → IsUnplaced es
    → o + dir_space es < 2 ^ 32
    → All (IsWithin o (o + dir_space es)) (dir_offsets (calculate_dir_offsets es o).0)
      × Apart (dir_offsets (calculate_dir_offsets es o).0)
unfolding calculate_dir_offsets set_dir_offset dir_space dir_offsets
calculate_dir_offsets-Apart end o new small = (tt, tt)
calculate_dir_offsets-Apart (file f rest) o new small = calculate_dir_offsets-Apart rest o new small
calculate_dir_offsets-Apart (dir d es rest) o new small =
    let o1 = o + dir_size d in
    let o2 = o1 + dir_space es in
    let o3 = o2 + dir_space rest in
    let e : u32 (o + dir_size d) ≡ o1 = omega arith in
    let e0 : u32 o ≡ o = omega arith in
    let size = dir_entry_size_lem d (omega arith) in
    let inner = calculate_dir_offsets-Apart es o1 new.1 (omega arith) in
    let back = calculate_dir_offsets-Apart rest o2 new.2 (omega arith) in
    let xs = dir_offsets (calculate_dir_offsets es o1).0 in
    let ys = dir_offsets (calculate_dir_offsets rest o2).0 in
    let all : All (IsWithin o1 o3) (xs ++ ys) =
      All-append (IsWithin o1 o3) xs ys
        (widen_range o1 o2 o1 o3 xs (omega arith) (omega arith) inner.0)
        (widen_range o2 o3 o1 o3 ys (omega arith) (omega arith) back.0) in
    let apart : Apart (xs ++ ys) =
      Apart-append o1 o2 xs ys inner.0
        (All-imply (IsWithin o2 o3) (IsOutside o1 o2) ys (λ y w. inr w.0) back.0) inner.1 back.1 in
    rw (new.0, size, e, calculate_dir_offsets-end es o1 new.1 (omega arith), e0)
      (
        (
          (omega arith, omega arith),
          widen_range o1 o3 o (o + (dir_size d + dir_space es + dir_space rest)) (xs ++ ys)
              (omega arith) (omega arith) all,
        ),
        (before_range o o1 o3 (xs ++ ys) (omega arith) all, apart),
      )
