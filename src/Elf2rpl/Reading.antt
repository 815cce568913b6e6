-- ===== src/Elf2rpl/Reading.antt =====
-- `readElf` and `getSectionByName`. The file is its bytes, and a stream over it a position and
-- whether a read has failed; memory for a section's contents is never short.
pub mod Verified
use wut_tools.Common.{
  ℕ, zero, suc, ◌+◌, bit_or, Bool, true, false, ◌&&◌, ◌||◌, not, ◌==◌, ◌!=◌, leb, ltb,
  if◌then◌else◌, List, [], ◌∷◌, ◌++◌, length, take, drop, replicate, Option, none, some, Run, ok,
  failed, ◌>>=◌, access,
}
use wut_tools.Elf.Bytes.{
  header_of, section_header_of, sizeof_header, sizeof_section_header, c_string,
}
use wut_tools.Elf.Constants
use wut_tools.Elf.{Header, SectionHeader}
use wut_tools.Elf2rpl.File.{
  Section, ElfFile, section_at, uint32_max, data_base_address, load_base_address,
}

unfoldable pub same_text : List ℕ → List ℕ → Bool
same_text [] [] = true
same_text [] (d ∷ t) = false
same_text (c ∷ s) [] = false
same_text (c ∷ s) (d ∷ t) = c == d && same_text s t

-- The first section of a name that is not discarded.
unfoldable pub get_section_by_name : List Section → List ℕ → Option Section
unfolding same_text
get_section_by_name [] name = none
get_section_by_name (s ∷ ss) name =
    if s.index == uint32_max
    then get_section_by_name ss name
    else if same_text s.name name
    then some s
    else get_section_by_name ss name

pub record Stream : Type 0 where
  pub pos : ℕ
  pub good : Bool

-- `in.read`: what the file does not fill of a buffer stays.
unfoldable pub read_into : List ℕ → Stream → List ℕ → List ℕ × Stream
read_into file in_ buffer =
    if in_.good
    then (let got = take (length buffer) (drop in_.pos file) in
        (
          got ++ drop (length got) buffer,
          record { pos = in_.pos + length got; good = leb (length buffer) (length got) },
        ))
    else (buffer, in_)

-- `in.seekg`
unfoldable pub seek : ℕ → Stream → Stream
seek pos in_ = if in_.good then record in_ { pos = pos } else in_

abbrev pub is_elf_for_rpl : Header → Bool
is_elf_for_rpl h =
    h.magic == Constants.header_magic
    && (h.file_class == Constants.elfclass32)
    && (h.encoding == Constants.elfdata2msb)
    && (h.machine == Constants.em_ppc)
    && (h.elf_version == Constants.ev_current)

-- The flags of a section in the data region.
unfoldable pub with_write_flag : SectionHeader → SectionHeader
with_write_flag h =
    if leb data_base_address h.addr && ltb h.addr load_base_address
    then record h { flags = bit_or h.flags Constants.shf_write }
    else h

unfoldable pub read_section : List ℕ → Stream → Section × Stream
unfolding read_into seek with_write_flag section_header_of
read_section file in_ =
    let (bytes, in1) = read_into file in_ (replicate sizeof_section_header 0) in
    let h = section_header_of bytes in
    if h.size == 0 || h.type == Constants.sht_nobits
    then (record { header = h; name = []; bytes = []; index = 0 }, in1)
    else (let (contents, in2) = read_into file (seek h.offset in1) (replicate h.size 0) in
        (
          record { header = with_write_flag h; name = []; bytes = contents; index = 0 },
          seek in1.pos in2,
        ))

unfoldable pub read_sections : ℕ → List ℕ → Stream → List Section
unfolding read_section
read_sections zero file in_ = []
read_sections (suc n) file in_ =
    let (s, in1) = read_section file in_ in s ∷ read_sections n file in1

-- The names, from the contents of the section of names.
unfoldable pub name_sections : List ℕ → List Section → Run (List Section)
unfolding c_string
name_sections names [] = ok []
name_sections names (s ∷ ss) = do
  name ← access (c_string (drop s.header.name names))
  named ← name_sections names ss
  ok (record s { name = name } ∷ named)

abbrev pub dwarf_prefix : List ℕ
dwarf_prefix = 46 ∷ 100 ∷ 101 ∷ 98 ∷ 117 ∷ 103 ∷ 95 ∷ []

-- Whether a section, or the section that its relocations are for, is for debugging.
unfoldable pub is_debugging : List Section → Section → Run Bool
unfolding same_text
is_debugging all s =
    (if s.header.type == Constants.sht_rela then section_at all s.header.info else ok s)
    >>= λ named. ok (same_text (take 7 named.name) dwarf_prefix)

unfoldable pub discard : Section → Section
discard s = record s {
  header = record (s.header) { type = Constants.sht_null; addr = 0; offset = 0; size = 0 };
  bytes = [];
  index = uint32_max;
}

-- The loop that discards and counts, with the next index and the number discarded so far.
unfoldable pub mark_sections : List Section → ℕ → ℕ → List Section → Run (List Section × ℕ)
unfolding is_debugging discard
mark_sections all index count [] = ok ([], count)
mark_sections all index count (s ∷ ss) = is_debugging all s >>= λ debugging.
    mark_sections all (if debugging then index else index + 1)
      (if debugging then count + 1 else count) ss
    >>= λ rest. ok ((if debugging then discard s else record s { index = index }) ∷ rest.0, rest.1)

-- `memory` is what the header held before.
unfoldable pub read_elf : Option (List ℕ) → List ℕ → Run ElfFile
unfolding read_into seek header_of read_sections name_sections mark_sections
read_elf none memory = failed
read_elf (some file) memory =
    let (bytes, in1) = read_into file (record { pos = 0; good = true }) memory in
    let h = header_of bytes in
    if not (is_elf_for_rpl h)
    then failed
    else (let sections = read_sections h.shnum file (seek h.shoff in1) in
        section_at sections h.shstrndx >>= λ names. name_sections names.bytes sections >>= λ named.
        mark_sections named 0 0 named >>= λ marked.
        ok (record { header = h; sections = marked.0; num_discarded_sections = marked.1 }))
