-- ===== src/Elf2rpl/Write/Held.antt =====
-- What `writeRpl` leaves in the output: its parts do not meet, and each of them is there.
use wut_tools.Common.Ranges.{Range, IsClear, AreClear}
use wut_tools.Common.{
  ℕ, ◌+◌, ◌*◌, ◌≤◌, ◌≡◌, refl, sym, ap, subst, arith, true, List, [], ◌∷◌, map, length,
  length-append, All, inl, inr, ok,
}
use wut_tools.Elf.Bytes.{
  header_bytes, section_header_bytes, table_bytes, sizeof_header, sizeof_section_header,
}
use wut_tools.Elf.Headers.{FitsHeader, length-header_bytes, measures_section_header}
use wut_tools.Elf2rpl.File.{Section, ElfFile}
use wut_tools.Elf2rpl.Offsets.Arranged.{IsPlaced, IsArranged}
use wut_tools.Elf2rpl.Offsets.Settled.{extent}
use wut_tools.Elf2rpl.Write.{written_sections, write_sections, write_rpl}
use wut_tools.Files.Chunks.{Chunk, range_of_chunk, Holds, write_all, write_all-Holds}
use wut_tools.Files.Patches.{read_at}
use wut_tools.Files.{fwrite}

abbrev pub headers_table : List Section → List ℕ
headers_table = table_bytes (λ (s : Section). section_header_bytes s.header)

abbrev contents_of : Section → Chunk
contents_of s = record { position = s.header.offset; bytes = s.bytes }

abbrev chunks : ElfFile → List Chunk
chunks file =
    record { position = 0; bytes = header_bytes file.header }
    ∷ record {
      position = file.header.shoff;
      bytes = headers_table (written_sections file.sections);
    }
    ∷ map contents_of file.sections

write_sections_lem :
    (ss : List Section) (out : List ℕ) → write_sections ss out ≡ write_all (map contents_of ss) out
unfolding write_sections write_all
write_sections_lem [] out = refl
write_sections_lem (s ∷ ss) out = write_sections_lem ss (fwrite s.header.offset s.bytes out)

pub length-headers_table :
    (ss : List Section) → length (headers_table ss) ≡ sizeof_section_header * length ss
unfolding table_bytes
length-headers_table [] = omega arith
length-headers_table (s ∷ ss) =
    rw (length-append (section_header_bytes s.header) (headers_table ss))
      (omega (arith, measures_section_header s.header, length-headers_table ss))

pub write_rpl_lem : (file : ElfFile) → write_rpl true file ≡ ok (write_all (chunks file) [])
unfolding write_rpl write_all
write_rpl_lem file = ap ok (write_sections_lem file.sections _)

-- A range before the contents is clear of them.
before-IsClear :
    (lo hi : ℕ) (r : Range) (ss : List Section)
    → r.start + r.size ≤ lo
    → All (IsPlaced lo hi) ss
    → All (IsClear r) (map extent ss)
before-IsClear lo hi r [] before h = tt
before-IsClear lo hi r (s ∷ ss) before (p, ps) = (one p, before-IsClear lo hi r ss before ps)
  where
    one : IsPlaced lo hi s → IsClear r (extent s)
    one (inl h) = inr (rw (h.0, h.1) (omega arith))
    one (inr h) = inl (omega arith)

ranges_of_contents : (ss : List Section) → map range_of_chunk (map contents_of ss) ≡ map extent ss
ranges_of_contents [] = refl
ranges_of_contents (s ∷ ss) = ap (λ t. extent s ∷ t) (ranges_of_contents ss)

-- A section's contents are in the output where its header says.
abbrev pub HasContents : List ℕ → Section → Type 0
HasContents out s = read_at s.header.offset (length s.bytes) out ≡ s.bytes

contents_held :
    (out : List ℕ) (ss : List Section)
    → All (Holds out) (map contents_of ss)
    → All (HasContents out) ss
contents_held out [] h = tt
contents_held out (s ∷ ss) h = (h.0.0, contents_held out ss h.1)

pub record IsHeld (out : List ℕ) (file : ElfFile) : Type 0 where
  pub header : read_at 0 (length (header_bytes file.header)) out ≡ header_bytes file.header
  pub table :
      let table = headers_table (written_sections file.sections) in
      read_at file.header.shoff (length table) out ≡ table
  pub contents : All (HasContents out) file.sections

pub write_rpl-IsHeld :
    (file : ElfFile) (lo hi : ℕ)
    → FitsHeader file.header
    → sizeof_header ≤ file.header.shoff
    → file.header.shoff + sizeof_section_header * length (written_sections file.sections) ≤ lo
    → IsArranged lo hi file.sections
    → (out : List ℕ) × (write_rpl true file ≡ ok out) × IsHeld out file
write_rpl-IsHeld file lo hi fits start before arranged =
    let written = written_sections file.sections in
    let front : Range = record { start = 0; size = length (header_bytes file.header) } in
    let table : Range = record {
      start = file.header.shoff;
      size = length (headers_table written);
    } in
    let n = length-header_bytes file.header fits in
    let m = length-headers_table written in
    let apart : IsClear front table = inl (omega (arith, n)) in
    let front_clear = before-IsClear lo hi front file.sections (omega (arith, n)) arranged.placed in
    let table_clear = before-IsClear lo hi table file.sections (omega (arith, m)) arranged.placed in
    let clear : AreClear (front ∷ table ∷ map range_of_chunk (map contents_of file.sections)) =
      subst (λ rs. AreClear (front ∷ table ∷ rs)) (sym (ranges_of_contents file.sections))
        ((apart, front_clear), (table_clear, arranged.clear)) in
    let held = write_all-Holds (chunks file) [] clear in
    let out = write_all (chunks file) [] in
    (
      out,
      write_rpl_lem file,
      record {
        header = held.0.0;
        table = held.1.0.0;
        contents = contents_held out file.sections held.1.1;
      },
    )
