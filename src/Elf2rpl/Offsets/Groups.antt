-- ===== src/Elf2rpl/Offsets/Groups.antt =====
-- The groups of sections in `calculateSectionOffsets` and in readrpl's `verifyFileBounds`.
use wut_tools.Common.{
  ℕ, ◌+◌, ◌*◌, ◌/◌, ◌%◌, ◌≡◌, ◌≢◌, ◌∙◌, arith, has, bit_and, true, false, ◌&&◌, ◌||◌, ◌==◌, ◌!=◌,
  if◌then◌else◌, ◌⊎◌,
}
use wut_tools.Common.Bits.{bit_and_low, bit_and_mask, bit_and_field}
use wut_tools.Elf.Constants
use wut_tools.Elf.{SectionHeader}
use wut_tools.Elf2rpl.File.{Section}
use wut_tools.Elf2rpl.Offsets.{is_data, is_read, is_text, is_temp}

pub data Group : Type 0 where
  ignored data_group read_group text_group temp_group : Group

-- The tests of `verifyFileBounds`, but that of the size.
unfoldable pub group_of : SectionHeader → Group
group_of h =
    if h.type == Constants.sht_rpl_fileinfo
      || h.type == Constants.sht_rpl_crcs
      || h.type == Constants.sht_nobits
      || h.type == Constants.sht_rpl_imports
    then ignored
    else if has h.flags Constants.shf_execinstr && (h.type != Constants.sht_rpl_exports)
    then text_group
    else if has h.flags Constants.shf_alloc
    then (if has h.flags Constants.shf_write then data_group else read_group)
    else temp_group

-- Exports are loaded, and not writable.
abbrev pub IsRegularHeader : SectionHeader → Type 0
IsRegularHeader h =
    h.type ≡ Constants.sht_rpl_exports
    → (has h.flags Constants.shf_alloc ≡ true) × (has h.flags Constants.shf_write ≡ false)

-- Two flags tested at once.
has_either :
    (f : ℕ)
    → has f (Constants.shf_execinstr + Constants.shf_write)
      ≡ has f Constants.shf_execinstr || has f Constants.shf_write
has_either f =
    let one : bit_and f 1 ≡ f % 2 = bit_and_mask 1 f in
    let four : bit_and f 4 ≡ f / 4 % 2 * 4 = bit_and_field 2 1 f in
    let two : bit_and (f / 2) 2 ≡ f / 2 / 2 % 2 * 2 = bit_and_field 1 1 (f / 2) in
    let five : bit_and f 5 ≡ f % 2 + f / 4 % 2 * 4 = bit_and_low f 5 ∙ omega (arith, two) in
    rw (one, four, five) (ground arith)

module _ (s : Section) (regular : IsRegularHeader s.header) where
  pub is_data-group :
      (is_data s ≡ true → group_of s.header ≡ data_group)
      × (is_data s ≡ false → s.header.size ≢ 0 → group_of s.header ≢ data_group)
  unfolding is_data group_of
  is_data-group = ground arith

  pub is_read-group :
      (is_read s ≡ true → (group_of s.header ≡ read_group) ⊎ (group_of s.header ≡ ignored))
      × (is_read s ≡ false → s.header.size ≢ 0 → group_of s.header ≢ read_group)
  unfolding is_read group_of
  is_read-group = rw (has_either s.header.flags) (ground arith)

  pub is_text-group :
      (is_text s ≡ true → group_of s.header ≡ text_group)
      × (is_text s ≡ false → s.header.size ≢ 0 → group_of s.header ≢ text_group)
  unfolding is_text group_of
  is_text-group = ground arith

  pub is_temp-group :
      (is_temp s ≡ true → group_of s.header ≡ temp_group)
      × (is_temp s ≡ false → s.header.size ≢ 0 → group_of s.header ≢ temp_group)
  unfolding is_temp group_of
  is_temp-group = ground arith
