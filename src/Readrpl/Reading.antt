-- ===== src/Readrpl/Reading.antt =====
-- `readSection` of src/readrpl/main.cpp, and the part of `main` that reads the file. The file is its
-- bytes; what is read behind its end leaves a buffer as it was. The inflate stream of zlib and what
-- the memory of a local variable held before are parameters.
pub mod Inflated
pub mod Streams
pub mod Tables
pub mod Names
pub mod Restored
pub mod Converted
pub mod Roundtrip
pub mod Accepted
use wut_tools.Common.{
  ℕ, zero, suc, ◌+◌, ◌*◌, ◌-◌, ◌==◌, not, u32, ltb, has, ◌||◌, true, if◌then◌else◌, List, [], ◌∷◌,
  drop, replicate, access, get_elem?, Option, none, some, Run, ok, failed, ◌>>=◌,
}
use wut_tools.Elf.Bytes.{read_32, header_of, section_header_of, c_string}
use wut_tools.Elf.Constants
use wut_tools.Elf.{Header, SectionHeader}
use wut_tools.Elf2rpl.Reading.{Stream, read_into, seek}
use wut_tools.Readrpl.Rpl.{Section, Rpl}

-- `inflateInit` and `inflate` of an input, with Z_FINISH and a space for the output: the output
-- buffer, or `none` for an error.
abbrev pub Inflate : Type 0
Inflate = (space : ℕ) → List ℕ → Option (List ℕ)

abbrev pub inflated : Option (List ℕ) → Run (List ℕ)
inflated none = failed
inflated (some bytes) = ok bytes

-- The contents behind a section's header, and the stream afterwards. A deflated section of fewer
-- than 4 bytes asks for a buffer of nearly 2 ^ 64 bytes, which throws.
unfoldable pub read_section_data : Inflate → SectionHeader → List ℕ → Stream → Run (List ℕ × Stream)
unfolding read_into seek read_32
read_section_data inflate h file in_ =
    if h.type == Constants.sht_nobits || h.size == 0
    then ok ([], in_)
    else if has h.flags Constants.shf_deflated
    then (let (size, in1) = read_into file (seek h.offset in_) (replicate 4 0) in
        let (temp, in2) = read_into file in1 (replicate (h.size - 4) 0) in
        if ltb h.size 4
        then failed
        else (inflated (inflate (read_32 size) temp) >>= λ data_. ok (data_, in2)))
    else (let (contents, in1) = read_into file (seek h.offset in_) (replicate h.size 0) in
        ok (contents, in1))

-- `memory` is what the header held before.
unfoldable pub read_section : Inflate → List ℕ → List ℕ → Stream → Run (Section × Stream)
unfolding read_into section_header_of read_section_data
read_section inflate memory file in_ =
    let (bytes, in1) = read_into file in_ memory in
    let h = section_header_of bytes in
    read_section_data inflate h file in1 >>= λ r.
    ok (record { header = h; name = []; bytes = r.0 }, r.1)

-- The loop over the sections, from the section `i` on; `memory` is what the header of each of them
-- held before.
unfoldable pub read_sections :
    Inflate → (ℕ → List ℕ) → List ℕ → Header → (n i : ℕ) → Stream → Run (List Section)
unfolding seek read_section
read_sections inflate memory file h zero i in_ = ok []
read_sections inflate memory file h (suc n) i in_ =
    read_section inflate (memory i) file (seek (u32 (h.shoff + u32 (h.shentsize * i))) in_) >>= λ r.
    read_sections inflate memory file h n (i + 1) r.1 >>= λ rest. ok (r.0 ∷ rest)

-- The names, from the contents of the section of names.
unfoldable pub name_sections : List ℕ → List Section → Run (List Section)
unfolding c_string
name_sections names [] = ok []
name_sections names (s ∷ ss) = do
  name ← access (c_string (drop s.header.name names))
  named ← name_sections names ss
  ok (record s { name = name } ∷ named)

-- What `rpl` and each `section` hold before they are read.
pub record Memory : Type 0 where
  pub header : List ℕ
  pub file_size : ℕ
  pub section_header : ℕ → List ℕ

-- `none` is a file that cannot be opened.
unfoldable pub read_rpl : Inflate → Memory → Option (List ℕ) → Run Rpl
unfolding read_into header_of read_sections name_sections
read_rpl inflate memory none = failed
read_rpl inflate memory (some file) =
    let (bytes, in1) = read_into file (record { pos = 0; good = true }) memory.header in
    let h = header_of bytes in
    if not (h.magic == Constants.header_magic)
    then failed
    else (read_sections inflate memory.section_header file h h.shnum 0 in1 >>= λ sections.
        access (get_elem? sections h.shstrndx) >>= λ names.
        name_sections names.bytes sections >>= λ named.
        ok (record { header = h; file_size = memory.file_size; sections = named }))
