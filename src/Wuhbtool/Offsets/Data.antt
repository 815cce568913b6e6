-- ===== src/Wuhbtool/Offsets/Data.antt =====
-- Where the files' bytes lie in the file partition.
use wut_tools.Common.Apart.{All-imply}
use wut_tools.Common.Ranges.{
  Range, IsInside, IsInEither, AreClear, Spread, Spread-cons, Spread-append,
}
use wut_tools.Common.{
  ℕ, ◌+◌, ◌*◌, ◌/◌, ◌^◌, ◌≤◌, ◌<◌, ◌≡◌, refl, sym, ap, ap₂, subst, All, inl, inr, arith, List, [],
  ◌∷◌, ◌++◌,
}
use wut_tools.Utils.Align.{align_rounded}
use wut_tools.Utils.{align}
use wut_tools.Wuhbtool.Entries.{FileNode, Children, end, file, dir}
use wut_tools.Wuhbtool.Offsets.{
  Cursor, place_file, place_files, place_in_dirs, calculate_dir_offsets, calculate_file_offsets,
  update_siblings,
}

abbrev pub range_of : FileNode → Range
range_of f = record { start = f.offset; size = f.size }

-- In the order of the tree.
unfoldable pub data_ranges : Children → List Range
data_ranges end = []
data_ranges (file f rest) = range_of f ∷ data_ranges rest
data_ranges (dir d es rest) = data_ranges es ++ data_ranges rest

-- What the files among the children, and those of the directories among them, take at most.
unfoldable pub own_data : Children → ℕ
own_data end = 0
own_data (file f rest) = f.size + 16 + own_data rest
own_data (dir d es rest) = own_data rest

unfoldable pub inner_data : Children → ℕ
unfolding own_data
inner_data end = 0
inner_data (file f rest) = inner_data rest
inner_data (dir d es rest) = inner_data es + own_data es + inner_data rest

place_file_lem :
    (f : FileNode) (c : Cursor)
    → c.partition + (f.size + 16) < 2 ^ 64
    → IsInside c.partition (place_file f c).1.partition (range_of (place_file f c).0)
      × ((place_file f c).1.partition ≤ c.partition + (f.size + 16))
unfolding place_file
place_file_lem f c small =
    let e : align 64 c.partition 0x10 ≡ (c.partition + 15) / 16 * 16 =
      align_rounded 64 4 c.partition (omega arith) (omega arith) in
    rw e ((omega arith, omega arith), omega arith)

-- From one cursor to another, by at most `n`.
abbrev Advances : (n : ℕ) → Cursor → Cursor → Type 0
Advances n c c' = (c.partition ≤ c'.partition) × (c'.partition ≤ c.partition + n)

place_files-Advances :
    (es : Children) (c : Cursor)
    → c.partition + own_data es < 2 ^ 64
    → Advances (own_data es) c (place_files es c).1
unfolding place_files own_data
place_files-Advances end c small = (omega arith, omega arith)
place_files-Advances (file f rest) c small =
    let h = place_file_lem f c (omega arith) in
    let k = place_files-Advances rest (place_file f c).1 (omega (arith, h.1)) in
    (omega (arith, h.0.0, h.0.1, k.0), omega (arith, h.1, k.1))
place_files-Advances (dir d es rest) c small = place_files-Advances rest c small

own_data-place_in_dirs :
    (es : Children) (c : Cursor) → own_data (place_in_dirs es c).0 ≡ own_data es
unfolding place_in_dirs own_data
own_data-place_in_dirs end c = refl
own_data-place_in_dirs (file f rest) c = ap (λ n. f.size + 16 + n) (own_data-place_in_dirs rest c)
own_data-place_in_dirs (dir d es rest) c = own_data-place_in_dirs rest _

place_in_dirs-Advances :
    (es : Children) (c : Cursor)
    → c.partition + inner_data es < 2 ^ 64
    → Advances (inner_data es) c (place_in_dirs es c).1
unfolding place_in_dirs inner_data
place_in_dirs-Advances end c small = (omega arith, omega arith)
place_in_dirs-Advances (file f rest) c small = place_in_dirs-Advances rest c small
place_in_dirs-Advances (dir d es rest) c small =
    let (es1, c1) = place_in_dirs es c in
    let c2 = (place_files es1 c1).1 in
    let own = own_data-place_in_dirs es c in
    let h = place_in_dirs-Advances es c (omega arith) in
    let k : Advances (own_data es1) c1 c2 = place_files-Advances es1 c1 (omega (arith, own, h.1)) in
    let l = place_in_dirs-Advances rest c2 (omega (arith, own, h.1, k.1)) in
    (omega (arith, h.0, k.0, l.0), omega (arith, own, h.1, k.1, l.1))

-- Both loops, the second from a cursor behind the first.
place-Spread :
    (es : Children) (c g : Cursor)
    → c.partition + inner_data es < 2 ^ 64
    → (place_in_dirs es c).1.partition ≤ g.partition
    → g.partition + own_data es < 2 ^ 64
    → Spread c.partition
        (place_in_dirs es c).1.partition
        g.partition
        (place_files (place_in_dirs es c).0 g).1.partition
        (data_ranges (place_files (place_in_dirs es c).0 g).0)
unfolding place_in_dirs place_files data_ranges inner_data own_data
place-Spread end c g small before room = record { inside = tt; clear = tt }
place-Spread (file f rest) c g small before room =
    let h = place_file_lem f g (omega arith) in
    let g1 = (place_file f g).1 in
    let rest1 = (place_in_dirs rest c).0 in
    let own = own_data-place_in_dirs rest c in
    let k = place_files-Advances rest1 g1 (omega (arith, own, h.1)) in
    Spread-cons c.partition (place_in_dirs rest c).1.partition g.partition g1.partition
      (place_files rest1 g1).1.partition (range_of (place_file f g).0) _ before h.0 k.0
      (place-Spread rest c g1 small (omega (arith, h.0.0, h.0.1, before)) (omega (arith, h.1)))
place-Spread (dir d es rest) c g small before room =
    let (es1, c1) = place_in_dirs es c in
    let c2 = (place_files es1 c1).1 in
    let own = own_data-place_in_dirs es c in
    let h = place_in_dirs-Advances es c (omega arith) in
    let k : Advances (own_data es1) c1 c2 = place_files-Advances es1 c1 (omega (arith, own, h.1)) in
    let l = place_in_dirs-Advances rest c2 (omega (arith, own, h.1, k.1)) in
    Spread-append c.partition c1.partition c2.partition (place_in_dirs rest c2).1.partition
      g.partition _ _ _ h.0 k.0 l.0 before
      (place-Spread es c c1 (omega arith) (omega arith) (omega (arith, h.1)))
      (place-Spread rest c2 g (omega (arith, own, h.1, k.1)) before room)

-- If the sizes of all files, and 16 bytes for each of them, fit in 64 bits from the start of the
-- partition on, then no two files' bytes meet, and all lie between the start and the end that
-- `calculateFileOffsets` leaves.
pub calculate_file_offsets-AreClear :
    (es : Children) (c : Cursor)
    → c.partition + (inner_data es + own_data es) < 2 ^ 64
    → All
        (IsInside c.partition (calculate_file_offsets es c).1.partition)
        (data_ranges (calculate_file_offsets es c).0)
      × AreClear (data_ranges (calculate_file_offsets es c).0)
unfolding calculate_file_offsets
calculate_file_offsets-AreClear es c small =
    let (es1, c1) = place_in_dirs es c in
    let own = own_data-place_in_dirs es c in
    let h = place_in_dirs-Advances es c (omega arith) in
    let k : Advances (own_data es1) c1 (place_files es1 c1).1 =
      place_files-Advances es1 c1 (omega (arith, own, h.1)) in
    let s = place-Spread es c c1 (omega arith) (omega arith) (omega (arith, h.1)) in
    (
      inside_of c.partition c1.partition (place_files es1 c1).1.partition _ h.0 k.0 s.inside,
      s.clear,
    )
  where
    inside_of :
        (a b d : ℕ) (rs : List Range)
        → a ≤ b
        → b ≤ d
        → All (IsInEither a b b d) rs
        → All (IsInside a d) rs
    inside_of a b d rs h k = All-imply (IsInEither a b b d) (IsInside a d) rs (λ r w. one r w)
      where
        one : (r : Range) → IsInEither a b b d r → IsInside a d r
        one r (inl w) = (w.0, omega arith)
        one r (inr w) = (omega arith, w.1)

own_data-calculate_dir_offsets :
    (es : Children) (o : ℕ) → own_data (calculate_dir_offsets es o).0 ≡ own_data es
unfolding calculate_dir_offsets own_data
own_data-calculate_dir_offsets end o = refl
own_data-calculate_dir_offsets (file f rest) o =
    ap (λ n. f.size + 16 + n) (own_data-calculate_dir_offsets rest o)
own_data-calculate_dir_offsets (dir d es rest) o = own_data-calculate_dir_offsets rest _

inner_data-calculate_dir_offsets :
    (es : Children) (o : ℕ) → inner_data (calculate_dir_offsets es o).0 ≡ inner_data es
unfolding calculate_dir_offsets inner_data
inner_data-calculate_dir_offsets end o = refl
inner_data-calculate_dir_offsets (file f rest) o = inner_data-calculate_dir_offsets rest o
inner_data-calculate_dir_offsets (dir d es rest) o =
    ap₂ (λ a b. a + b)
      (ap₂ (λ a b. a + b) (inner_data-calculate_dir_offsets es _)
        (own_data-calculate_dir_offsets es _))
      (inner_data-calculate_dir_offsets rest _)

data_ranges-update_siblings : (es : Children) → data_ranges (update_siblings es) ≡ data_ranges es
unfolding update_siblings data_ranges
data_ranges-update_siblings end = refl
data_ranges-update_siblings (file f rest) =
    ap (λ o. range_of f ∷ o) (data_ranges-update_siblings rest)
data_ranges-update_siblings (dir d es rest) =
    ap₂ (λ a b. a ++ b) (data_ranges-update_siblings es) (data_ranges-update_siblings rest)

-- The same after all passes.
pub passes-AreClear :
    (es : Children) (o : ℕ) (c : Cursor)
    → c.partition + (inner_data es + own_data es) < 2 ^ 64
    → All
        (IsInside c.partition (calculate_file_offsets (calculate_dir_offsets es o).0 c).1.partition)
        (data_ranges (update_siblings (calculate_file_offsets (calculate_dir_offsets es o).0 c).0))
      × AreClear (
          data_ranges (update_siblings (calculate_file_offsets (calculate_dir_offsets es o).0 c).0))
passes-AreClear es o c small =
    let es1 = (calculate_dir_offsets es o).0 in
    let own = own_data-calculate_dir_offsets es o in
    let inner = inner_data-calculate_dir_offsets es o in
    let e = data_ranges-update_siblings (calculate_file_offsets es1 c).0 in
    subst
      (λ rs. All (IsInside c.partition (calculate_file_offsets es1 c).1.partition) rs × AreClear rs)
      (sym e) (calculate_file_offsets-AreClear es1 c (omega (arith, own, inner)))
