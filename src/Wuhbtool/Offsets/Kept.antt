-- ===== src/Wuhbtool/Offsets/Kept.antt =====
-- What each pass over the tree keeps of the ones before it.
use wut_tools.Common.{◌+◌, ◌≡◌, refl, ap, ap₂, ◌∙◌, ℕ, u32, ◌∷◌, ◌++◌}
use wut_tools.Wuhbtool.Entries.{Children, end, file, dir}
use wut_tools.Wuhbtool.Offsets.Dirs.{dir_offsets}
use wut_tools.Wuhbtool.Offsets.Files.{file_offsets}
use wut_tools.Wuhbtool.Offsets.Sizes.{file_size, own_space, inner_space}
use wut_tools.Wuhbtool.Offsets.{
  Cursor, calculate_dir_offsets, place_files, place_in_dirs, calculate_file_offsets,
  update_siblings,
}

pub own_space-calculate_dir_offsets :
    (es : Children) (o : ℕ) → own_space (calculate_dir_offsets es o).0 ≡ own_space es
unfolding calculate_dir_offsets own_space
own_space-calculate_dir_offsets end o = refl
own_space-calculate_dir_offsets (file f rest) o =
    ap (λ n. file_size f + n) (own_space-calculate_dir_offsets rest o)
own_space-calculate_dir_offsets (dir d es rest) o = own_space-calculate_dir_offsets rest _

pub inner_space-calculate_dir_offsets :
    (es : Children) (o : ℕ) → inner_space (calculate_dir_offsets es o).0 ≡ inner_space es
unfolding calculate_dir_offsets inner_space
inner_space-calculate_dir_offsets end o = refl
inner_space-calculate_dir_offsets (file f rest) o = inner_space-calculate_dir_offsets rest o
inner_space-calculate_dir_offsets (dir d es rest) o =
    ap₂ (λ a b. a + b)
      (ap₂ (λ a b. a + b) (inner_space-calculate_dir_offsets es _)
        (own_space-calculate_dir_offsets es _))
      (inner_space-calculate_dir_offsets rest _)

dir_offsets-place_files :
    (es : Children) (c : Cursor) → dir_offsets (place_files es c).0 ≡ dir_offsets es
unfolding place_files dir_offsets
dir_offsets-place_files end c = refl
dir_offsets-place_files (file f rest) c = dir_offsets-place_files rest _
dir_offsets-place_files (dir d es rest) c =
    ap (λ o. u32 d.entry_offset ∷ (dir_offsets es ++ o)) (dir_offsets-place_files rest c)

dir_offsets-place_in_dirs :
    (es : Children) (c : Cursor) → dir_offsets (place_in_dirs es c).0 ≡ dir_offsets es
unfolding place_in_dirs dir_offsets
dir_offsets-place_in_dirs end c = refl
dir_offsets-place_in_dirs (file f rest) c = dir_offsets-place_in_dirs rest c
dir_offsets-place_in_dirs (dir d es rest) c =
    let inner = dir_offsets-place_files (place_in_dirs es c).0 _ ∙ dir_offsets-place_in_dirs es c in
    ap₂ (λ a b. u32 d.entry_offset ∷ (a ++ b)) inner (dir_offsets-place_in_dirs rest _)

pub dir_offsets-calculate_file_offsets :
    (es : Children) (c : Cursor) → dir_offsets (calculate_file_offsets es c).0 ≡ dir_offsets es
unfolding calculate_file_offsets
dir_offsets-calculate_file_offsets es c =
    dir_offsets-place_files (place_in_dirs es c).0 _ ∙ dir_offsets-place_in_dirs es c

pub dir_offsets-update_siblings :
    (es : Children) → dir_offsets (update_siblings es) ≡ dir_offsets es
unfolding update_siblings dir_offsets
dir_offsets-update_siblings end = refl
dir_offsets-update_siblings (file f rest) = dir_offsets-update_siblings rest
dir_offsets-update_siblings (dir d es rest) =
    ap₂ (λ a b. u32 d.entry_offset ∷ (a ++ b)) (dir_offsets-update_siblings es)
      (dir_offsets-update_siblings rest)

pub file_offsets-update_siblings :
    (es : Children) → file_offsets (update_siblings es) ≡ file_offsets es
unfolding update_siblings file_offsets
file_offsets-update_siblings end = refl
file_offsets-update_siblings (file f rest) =
    ap (λ o. u32 f.entry_offset ∷ o) (file_offsets-update_siblings rest)
file_offsets-update_siblings (dir d es rest) =
    ap₂ (λ a b. a ++ b) (file_offsets-update_siblings es) (file_offsets-update_siblings rest)
