-- ===== src/Elf2rpl/Offsets.antt =====
-- `calculateSectionOffsets`. The offset at hand is a `be_val<uint32_t>`.
pub mod Place
pub mod Groups
pub mod Located
pub mod Renumbered
pub mod Settled
pub mod Arranged
pub mod Unchanged
pub mod Verified
use wut_tools.Common.{
  ℕ, ◌+◌, ◌*◌, u32, has, Bool, ◌&&◌, ◌||◌, not, ◌==◌, ◌!=◌, ltb, if◌then◌else◌, List, [], ◌∷◌, map,
  length, Run, ok, failed, ◌>>=◌,
}
use wut_tools.Elf.Bytes.{sizeof_section_header}
use wut_tools.Elf.Constants
use wut_tools.Elf2rpl.File.{Section, ElfFile, section_at, uint32_max}
use wut_tools.Utils.{align_up, wrap_sub}

-- Where the first section starts: behind the section headers.
unfoldable pub first_offset : ElfFile → ℕ
first_offset file = u32 (
    file.header.shoff
    + align_up 32
        (u32
          (wrap_sub 64 (length file.sections) file.num_discarded_sections * sizeof_section_header))
        64)

unfoldable pub reset_offset : Section → Section
reset_offset s = record s { header = record (s.header) { offset = 0 } }

abbrev pub holds_nothing : Section → Bool
holds_nothing s = s.header.type == Constants.sht_nobits || s.header.type == Constants.sht_null

unfoldable pub clear_empty : Section → Section
clear_empty s =
    if holds_nothing s
    then record s { header = record (s.header) { offset = 0 }; bytes = [] }
    else s

-- One section is placed at an offset.
unfoldable pub place_at : ℕ → Section → Section
place_at offset s = record s {
  header = record (s.header) { offset = offset; size = u32 (length s.bytes) };
}

-- A loop that places, one behind the other, the sections that a test selects.
unfoldable pub place : (Section → Bool) → List Section → ℕ → List Section × ℕ
unfolding place_at
place selects [] offset = ([], offset)
place selects (s ∷ ss) offset =
    let (rest, end) =
      place selects ss
        (if selects s then u32 (offset + (place_at offset s).header.size) else offset) in
    ((if selects s then place_at offset s else s) ∷ rest, end)

abbrev pub has_type : ℕ → Section → Bool
has_type type s = s.header.type == type

-- The sections that no `continue` skips.
abbrev pub is_grouped : Section → Bool
is_grouped s = not (
    s.header.size == 0
    || has_type Constants.sht_rpl_fileinfo s
    || has_type Constants.sht_rpl_imports s
    || has_type Constants.sht_rpl_crcs s
    || has_type Constants.sht_nobits s)

unfoldable pub is_data : Section → Bool
is_data s =
    is_grouped s
    && not (has s.header.flags Constants.shf_execinstr)
    && has s.header.flags Constants.shf_write
    && has s.header.flags Constants.shf_alloc

unfoldable pub is_read : Section → Bool
is_read s =
    (ltb 0 s.header.size && has s.header.flags Constants.shf_alloc)
    && (has_type Constants.sht_rpl_exports s
        || has_type Constants.sht_rpl_imports s
        || not (has s.header.flags (Constants.shf_execinstr + Constants.shf_write)))

unfoldable pub is_text : Section → Bool
is_text s =
    is_grouped s
    && has s.header.flags Constants.shf_execinstr
    && (s.header.type != Constants.sht_rpl_exports)

unfoldable pub is_temp : Section → Bool
is_temp s =
    is_grouped s
    && not (has s.header.flags Constants.shf_execinstr)
    && not (has s.header.flags Constants.shf_alloc)

-- The four loops over the groups, in turn.
unfoldable pub place_groups : List Section → ℕ → List Section
unfolding place is_data is_read is_text is_temp
place_groups sections offset =
    let (datas, o1) = place is_data sections offset in
    let (reads, o2) = place is_read datas o1 in
    let (texts, o3) = place is_text reads o2 in (place is_temp texts o3).0

-- All the loops that place.
unfoldable pub place_all : List Section → ℕ → List Section
unfolding reset_offset clear_empty place place_groups
place_all sections offset =
    let (crcs, o1) =
      place (has_type Constants.sht_rpl_crcs) (map clear_empty (map reset_offset sections))
        offset in
    let (infos, o2) = place (has_type Constants.sht_rpl_fileinfo) crcs o1 in place_groups infos o2

-- `link` and, of relocations, `info` name a section by its index in the output.
unfoldable pub new_link : List Section → Section → Run ℕ
new_link sections s =
    if s.header.link == 0 then ok 0 else (section_at sections s.header.link >>= λ t. ok t.index)

unfoldable pub new_info : List Section → Section → Run ℕ
new_info sections s =
    if s.header.type == Constants.sht_rela
    then (section_at sections s.header.info >>= λ t. ok t.index)
    else ok s.header.info

-- The test of the last loop for a section that no loop placed.
abbrev pub is_lost : Section → Bool
is_lost s =
    s.header.offset == 0
    && (s.header.type != Constants.sht_null)
    && (s.header.type != Constants.sht_nobits)

-- The body of the last loop, given all sections.
unfoldable pub renumber : List Section → Section → Run Section
unfolding new_link new_info
renumber sections s =
    if is_lost s
    then failed
    else if s.index == uint32_max
    then ok s
    else (new_link sections s >>= λ link. new_info sections s >>= λ info.
        ok (record s { header = record (s.header) { link = link; info = info } }))

unfoldable pub renumber_all : List Section → List Section → Run (List Section)
unfolding renumber
renumber_all sections [] = ok []
renumber_all sections (s ∷ ss) = do
  s' ← renumber sections s
  ss' ← renumber_all sections ss
  ok (s' ∷ ss')

unfoldable pub calculate_section_offsets : ElfFile → Run ElfFile
unfolding first_offset place_all renumber_all
calculate_section_offsets file =
    let placed = place_all file.sections (first_offset file) in
    renumber_all placed placed >>= λ sections. ok (record file { sections = sections })
