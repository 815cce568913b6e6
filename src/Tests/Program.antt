-- ===== src/Tests/Program.antt =====
-- An ELF file on its whole way through elf2rpl, and back through readrpl.
use wut_tools.Common.Text.{codes}
use wut_tools.Common.{
  ℕ, ◌+◌, ◌≡◌, refl, arith, ◌≤◌, ◌<◌, true, false, List, map, [], ◌∷◌, ◌++◌, length, take, drop,
  length-take, length-drop, sym, ap, ◌∙◌, replicate, Option, none, some, Run, ok,
}
use wut_tools.Elf.Bytes.{header_bytes, section_header_bytes}
use wut_tools.Elf2rpl.Convert.Ends.{Ends, Progress, conversion_fuel, convert-Ends}
use wut_tools.Elf2rpl.Convert.{convert, convert_sections}
use wut_tools.Elf2rpl.Crc.{Crc32}
use wut_tools.Elf2rpl.Deflate.{chunk_size}
use wut_tools.Readrpl.Reading.{Memory, read_rpl}
use wut_tools.Readrpl.Rpl.{Section, Rpl}
use wut_tools.Readrpl.Verify.Crcs.{verify_crcs}
use wut_tools.Readrpl.Verify.FileBounds.{verify_file_bounds}
use wut_tools.Tests.Deflated.{stored, unstored}
use wut_tools.Tests.Files.{program, result_of, header_at, elf_header}

-- Names, then code.
abbrev names : List ℕ
names = 0 ∷ (codes ".strtab" ++ 0 ∷ (codes ".text" ++ 0 ∷ []))

abbrev elf_bytes : List ℕ
elf_bytes =
    header_bytes (record elf_header { shnum = 3; shstrndx = 2; shoff = 52 })
    ++ section_header_bytes (header_at 0 0 0 0 0 0)
    ++ section_header_bytes (record (header_at 1 6 0x02000000 30 0 0) { offset = 187; name = 9 })
    ++ section_header_bytes (record (header_at 3 0 0 15 0 0) { offset = 172; name = 1 })
    ++ names
    ++ replicate 30 7

abbrev sum_of : List ℕ → ℕ
sum_of [] = 0
sum_of (b ∷ bs) = b + sum_of bs

abbrev sums : Crc32
sums = record { initial = 0; update = λ crc bytes. crc + sum_of bytes }

-- The stand-in for zlib has a call to come for each full chunk of its input.
abbrev call : List ℕ → Option (List ℕ × List ℕ)
call bytes = some (take chunk_size bytes, drop chunk_size bytes)

fewer :
    (stream stream' chunk : List ℕ)
    → call stream ≡ some (chunk, stream')
    → length chunk ≡ chunk_size
    → length stream' < length stream
fewer stream stream' chunk e full =
    let e1 : take chunk_size stream ≡ chunk = cc in
    let e2 : drop chunk_size stream ≡ stream' = cc in
    let n1 : length (take chunk_size stream) ≡ chunk_size = ap length e1 ∙ full in
    let n2 : length stream' ≡ length (drop chunk_size stream) = sym (ap length e2) in
    omega (arith, n1, n2, length-take chunk_size stream, length-drop chunk_size stream)

abbrev stored_progress : Progress stored
stored_progress = record { pending = length; falls = fewer }

enough : conversion_fuel stored stored_progress sums false (some elf_bytes) (replicate 52 0) ≤ 200
unfolding program convert_sections
enough = omega arith

small_program : Ends (convert sums stored 200 false true (some elf_bytes) (replicate 52 0))
small_program =
    convert-Ends stored stored_progress sums 200 false true (some elf_bytes) (replicate 52 0) enough

abbrev output_of : Option (Run (List ℕ)) → List ℕ
output_of none = []
output_of (some run) = result_of [] run

abbrev output : List ℕ
output = output_of (convert sums stored 2 false true (some elf_bytes) (replicate 52 0))

converted : convert sums stored 2 false true (some elf_bytes) (replicate 52 0) ≡ some (ok output)
unfolding program convert convert_sections
converted = refl

abbrev memory : Memory
memory = record { header = replicate 52 1; file_size = 1; section_header = λ i. replicate 40 1 }

abbrev nothing : Rpl
nothing = record { header = elf_header; file_size = 0; sections = [] }

abbrev rpl : Rpl
rpl = result_of nothing (read_rpl unstored memory (some output))

-- The code was compressed, and is read as it was; the sections of checksums and of information have
-- no name.
read_names :
    map (λ (s : Section). s.name) rpl.sections ≡ [] ∷ codes ".text" ∷ codes ".strtab" ∷ [] ∷ [] ∷ []
unfolding program convert convert_sections read_rpl
read_names = refl

read_code : map (λ (s : Section). s.bytes) (take 1 (drop 1 rpl.sections)) ≡ replicate 30 7 ∷ []
unfolding program convert convert_sections read_rpl
read_code = refl

crcs_pass : verify_crcs sums rpl ≡ ok true
unfolding program convert convert_sections read_rpl verify_crcs
crcs_pass = refl

bounds_pass : verify_file_bounds rpl ≡ true
unfolding program convert convert_sections read_rpl verify_file_bounds
bounds_pass = refl
