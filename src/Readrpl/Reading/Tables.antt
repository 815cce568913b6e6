-- ===== src/Readrpl/Reading/Tables.antt =====
-- The reading of a file that has a header, a table of section headers and contents where they say.
use wut_tools.Common.{
  ℕ, ◌+◌, ◌*◌, ◌^◌, ◌<◌, ◌≡◌, refl, sym, ap, ◌∙◌, subst, arith, true, u32, ◌==◌, List, [], ◌∷◌,
  length, append-nil, access, get_elem?, some, Run, ok, failed, not, if◌then◌else◌, ◌>>=◌,
}
use wut_tools.Elf.Bytes.{
  header_bytes, section_header_bytes, section_header_of, header_of, sizeof_header,
  sizeof_section_header, table_bytes,
}
use wut_tools.Elf.Constants
use wut_tools.Elf.Headers.{
  FitsHeader, FitsSectionHeader, reads_header, reads_section_header, measures_section_header,
  length-header_bytes,
}
use wut_tools.Elf.{Header, SectionHeader}
use wut_tools.Elf2rpl.File.{Section}
use wut_tools.Elf2rpl.Reading.{Stream, seek}
use wut_tools.Elf2rpl.Write.Held.{headers_table}
use wut_tools.Files.Patches.{read_at}
use wut_tools.Readrpl.Reading.Inflated.{Gives, Gives-IsRead}
use wut_tools.Readrpl.Reading.Streams.{read_at-append, read_into_all}
use wut_tools.Readrpl.Reading.{
  Inflate, Memory, read_section, read_section_data, read_sections, name_sections, read_rpl,
}
use wut_tools.Readrpl.Rpl
use wut_tools.Readrpl.Rpl.{Rpl}

abbrev pub loaded : Section → List ℕ → Rpl.Section
loaded s data_ = record { header = s.header; name = []; bytes = data_ }

-- What is read of the sections, before their names.
abbrev pub all_loaded : List Section → List (List ℕ) → List Rpl.Section
all_loaded [] datas = []
all_loaded (s ∷ ss) [] = []
all_loaded (s ∷ ss) (data_ ∷ datas) = loaded s data_ ∷ all_loaded ss datas

-- A section's header fits, and its contents are in the file where it says.
abbrev pub IsStored : Inflate → List ℕ → Section → List ℕ → Type 0
IsStored inflate file s data_ =
    FitsSectionHeader s.header
    × (read_at s.header.offset (length s.bytes) file ≡ s.bytes)
    × Gives inflate s.header s.bytes data_

abbrev pub AllStored : Inflate → List ℕ → List Section → List (List ℕ) → Type 0
AllStored inflate file [] [] = Unit
AllStored inflate file [] (_ ∷ _) = ⊥
AllStored inflate file (s ∷ ss) [] = ⊥
AllStored inflate file (s ∷ ss) (data_ ∷ datas) =
    IsStored inflate file s data_ × AllStored inflate file ss datas

table_position :
    (start size i : ℕ)
    → size ≡ sizeof_section_header
    → start + sizeof_section_header * i < 2 ^ 32
    → u32 (start + u32 (size * i)) ≡ start + sizeof_section_header * i
table_position start size i e small = rw e (omega arith)

module _ (inflate : Inflate) (file : List ℕ) where
  read_section_stored :
      (memory : List ℕ) (s : Section) (data_ : List ℕ) (p : ℕ)
      → length memory ≡ sizeof_section_header
      → read_at p (length (section_header_bytes s.header)) file ≡ section_header_bytes s.header
      → IsStored inflate file s data_
      → (end : ℕ) × (read_section inflate memory file (record { pos = p; good = true })
          ≡ ok (loaded s data_, record { pos = end; good = true }))
  unfolding read_section
  read_section_stored memory s data_ p size there (fits, held, gives) =
      let bytes = section_header_bytes s.header in
      let whole : section_header_of bytes ≡ s.header =
        ap section_header_of (sym (append-nil bytes)) ∙ reads_section_header s.header [] fits in
      let e =
        read_into_all file p bytes memory there (measures_section_header s.header ∙ sym size) in
      let (end, contents) =
        Gives-IsRead inflate s.header file s.bytes data_ (p + length bytes) gives held in
      let behind : Stream → SectionHeader → Run (Rpl.Section × Stream) = λ in1 h1.
        read_section_data inflate h1 file in1 >>= λ r.
        ok (record { header = h1; name = []; bytes = r.0 }, r.1) in
      (
        end,
        ap (λ r. behind r.1 (section_header_of r.0)) e
            ∙ ap (behind (record { pos = p + length bytes; good = true })) whole
            ∙ ap
                (λ run. run >>= λ r. ok (record { header = s.header; name = []; bytes = r.0 }, r.1))
                contents,
      )

  read_sections_stored :
      (memory : ℕ → List ℕ) (h : Header) (ss : List Section) (datas : List (List ℕ)) (i p : ℕ)
      → ((j : ℕ) → length (memory j) ≡ sizeof_section_header)
      → h.shentsize ≡ sizeof_section_header
      → h.shoff + sizeof_section_header * (i + length ss) < 2 ^ 32
      → read_at (h.shoff + sizeof_section_header * i) (length (headers_table ss)) file
        ≡ headers_table ss
      → AllStored inflate file ss datas
      → read_sections inflate memory file h (length ss) i (record { pos = p; good = true })
        ≡ ok (all_loaded ss datas)
  unfolding read_sections seek table_bytes
  read_sections_stored memory h [] [] i p sizes entry room there stored = refl
  read_sections_stored memory h [] (_ ∷ _) i p sizes entry room there stored = absurd stored
  read_sections_stored memory h (s ∷ ss) [] i p sizes entry room there stored = absurd stored
  read_sections_stored memory h (s ∷ ss) (data_ ∷ datas) i p sizes entry room there (one, more) =
      let at = h.shoff + sizeof_section_header * i in
      let parts = read_at-append at (section_header_bytes s.header) (headers_table ss) file there in
      let position : u32 (h.shoff + u32 (h.shentsize * i)) ≡ at =
        table_position h.shoff h.shentsize i entry (omega arith) in
      let next : at + length (section_header_bytes s.header)
          ≡ h.shoff + sizeof_section_header * (i + 1) =
        omega (arith, measures_section_header s.header) in
      let (end, e) = read_section_stored (memory i) s data_ at (sizes i) parts.0 one in
      let rest =
        read_sections_stored memory h ss datas (i + 1) end sizes entry (omega arith)
          (subst (λ m. read_at m (length (headers_table ss)) file ≡ headers_table ss) next parts.1)
          more in
      rw (position, e, rest) refl

-- The buffers have the sizes of the structs.
abbrev pub IsSized : Memory → Type 0
IsSized memory =
    (length memory.header ≡ sizeof_header)
    × ((i : ℕ) → length (memory.section_header i) ≡ sizeof_section_header)

-- The rest of `main`: the names, by the section that the header says.
abbrev pub with_names : Header → ℕ → List Rpl.Section → Run Rpl
with_names h file_size sections = access (get_elem? sections h.shstrndx) >>= λ names.
    name_sections names.bytes sections >>= λ named.
    ok (record { header = h; file_size = file_size; sections = named })

pub read_rpl_stored :
    (inflate : Inflate) (memory : Memory) (file : List ℕ) (h : Header) (ss : List Section)
    (datas : List (List ℕ))
    → IsSized memory
    → FitsHeader h
    → h.magic ≡ Constants.header_magic
    → h.shnum ≡ length ss
    → h.shentsize ≡ sizeof_section_header
    → h.shoff + sizeof_section_header * length ss < 2 ^ 32
    → read_at 0 (length (header_bytes h)) file ≡ header_bytes h
    → read_at h.shoff (length (headers_table ss)) file ≡ headers_table ss
    → AllStored inflate file ss datas
    → read_rpl inflate memory (some file) ≡ with_names h memory.file_size (all_loaded ss datas)
unfolding read_rpl
read_rpl_stored inflate memory file h ss datas sized fits magic count entry room front table
      stored =
    let e =
      read_into_all file 0 (header_bytes h) memory.header front
        (length-header_bytes h fits ∙ sym sized.0) in
    let whole : header_of (header_bytes h) ≡ h =
      ap header_of (sym (append-nil (header_bytes h))) ∙ reads_header h [] fits in
    let right : (h.magic == Constants.header_magic) ≡ true = ground (arith, magic) in
    let start : h.shoff + sizeof_section_header * 0 ≡ h.shoff = omega arith in
    let sections =
      read_sections_stored inflate file memory.section_header h ss datas 0
        (0 + length (header_bytes h)) sized.1 entry (omega arith)
        (subst (λ m. read_at m (length (headers_table ss)) file ≡ headers_table ss) (sym start)
          table)
        stored in
    let behind : Stream → Header → Run Rpl = λ in1 h1.
      if not (h1.magic == Constants.header_magic)
      then failed
      else (read_sections inflate memory.section_header file h1 h1.shnum 0 in1
          >>= with_names h1 memory.file_size) in
    ap (λ r. behind r.1 (header_of r.0)) e
    ∙ ap (behind (record { pos = 0 + length (header_bytes h); good = true })) whole
    ∙ rw
        (
          right,
          ap
                (λ n.
                  read_sections inflate memory.section_header file h n 0
                    (record { pos = 0 + length (header_bytes h); good = true }))
                count
              ∙ sections,
        )
        refl
