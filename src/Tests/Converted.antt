-- ===== src/Tests/Converted.antt =====
-- A small program, converted by elf2rpl and read by readrpl.
use wut_tools.Common.{
  ℕ, ◌≡◌, ◌+◌, Option, none, Run, refl, arith, true, false, List, [], ◌∷◌, ◌++◌, All, replicate, ok,
  some, length, take, ◌==◌,
}
use wut_tools.Elf.Bytes.{c_string}
use wut_tools.Elf.Headers.{FitsSectionHeader}
use wut_tools.Elf2rpl.Crc.{Crc32, generate_crc_section}
use wut_tools.Elf2rpl.Crc.Verified.{IsPlain}
use wut_tools.Elf2rpl.Deflate.{
  with_deflated, is_skipped, deflate_chunks, deflate_section, deflate_each, deflate_sections,
}
use wut_tools.Elf2rpl.File.{Section, ElfFile}
use wut_tools.Elf2rpl.FileHeader.{fix_file_header}
use wut_tools.Elf2rpl.Offsets.{calculate_section_offsets}
use wut_tools.Elf2rpl.Offsets.Groups.{IsRegularHeader}
use wut_tools.Elf2rpl.Offsets.Verified.{IsSmall}
use wut_tools.Elf2rpl.Write.{written_sections, write_rpl}
use wut_tools.Readrpl.Reading.{Memory, read_rpl}
use wut_tools.Readrpl.Reading.Accepted.{verify_crcs-read_rpl}
use wut_tools.Readrpl.Rpl.{Rpl}
use wut_tools.Readrpl.Verify.Crcs.{verify_crcs}
use wut_tools.Readrpl.Verify.FileBounds.{verify_file_bounds}
use wut_tools.Readrpl.Reading.Roundtrip.{IsReady, IsReadBack, read_rpl-write_rpl}
use wut_tools.Tests.Deflated.{stored, unstored}
use wut_tools.Tests.Files.{program, result_of, header_at, code, elf_header}

abbrev deflated_or : {A : Type 0} → A → Option (Run A) → A
deflated_or other none = other
deflated_or other (some run) = result_of other run

abbrev strings : List ℕ
strings = 0 ∷ 46 ∷ 116 ∷ 0 ∷ []

-- A discarded section, code, its name, and information about the file.
abbrev last : Section
last = record {
  header = header_at 0x80000004 0 0 8 0 0;
  name = [];
  bytes = replicate 8 1;
  index = 3;
}

abbrev front : List Section
front =
    record { header = header_at 0 0 0 0 0 0; name = []; bytes = []; index = 0 }
    ∷ record { header = header_at 0 0 0 0 0 0; name = []; bytes = []; index = 0xffffffff }
    ∷ record {
      header = record (header_at 1 6 0x02000000 40 0 0) { name = 1 };
      name = [];
      bytes = code;
      index = 1;
    }
    ∷ record { header = header_at 3 0 0 4 0 0; name = []; bytes = strings; index = 2 }
    ∷ []

abbrev elf : ElfFile
elf = record {
  header = record elf_header { shstrndx = 3 };
  sections = front ++ last ∷ [];
  num_discarded_sections = 1;
}

abbrev sum_of : List ℕ → ℕ
sum_of [] = 0
sum_of (b ∷ bs) = b + sum_of bs

abbrev sums : Crc32
sums = record { initial = 0; update = λ crc bytes. crc + sum_of bytes }

abbrev summed : ElfFile
summed = result_of elf (generate_crc_section sums elf)

abbrev headed : ElfFile
headed = result_of elf (fix_file_header summed)

abbrev deflated : ElfFile
deflated = deflated_or elf (deflate_sections stored 2 headed)

abbrev converted : ElfFile
converted = result_of elf (calculate_section_offsets deflated)

generate_run : generate_crc_section sums elf ≡ ok summed
unfolding program
generate_run = refl

fix_run : fix_file_header summed ≡ ok headed
unfolding program
fix_run = refl

deflate_run : deflate_sections stored 2 headed ≡ some (ok deflated)
unfolding program with_deflated is_skipped deflate_chunks deflate_section deflate_each
    deflate_sections
deflate_run = refl

calculate_run : calculate_section_offsets deflated ≡ ok converted
unfolding program with_deflated is_skipped deflate_chunks deflate_section deflate_each
    deflate_sections
calculate_run = refl

-- zlib restores what it deflates: here it stores the bytes.
chunks_of :
    (bytes : List ℕ)
    → (take 0x4000 bytes ≡ bytes)
    → ((length bytes == 0x4000) ≡ false)
    → deflate_chunks stored 2 (stored.start bytes) [] ≡ some (ok bytes)
unfolding deflate_chunks
chunks_of bytes whole short = rw (whole, short) refl

headed-IsReady : IsReady stored unstored 2 headed
unfolding program is_skipped c_string
headed-IsReady = record {
  sound = (
    (λ e. absurd (cc), omega arith, refl, λ _. refl),
    (
      (λ e. absurd (cc), omega arith, refl, λ _. refl),
      (
        (λ e. (code, chunks_of code refl refl, refl), omega arith, refl, λ e. absurd (cc)),
        (
          (λ e. absurd (cc), omega arith, refl, λ e. absurd (cc)),
          (
            (λ e. absurd (cc), omega arith, refl, λ e. absurd (cc)),
            ((λ e. absurd (cc), omega arith, refl, λ e. absurd (cc)), tt),
          ),
        ),
      ),
    ),
  );
  null = ground arith;
  fits = ground arith;
  magic = refl;
  behind = omega arith;
  entry = refl;
  count = refl;
  discarded = refl;
  strings = strings;
  found = refl;
  named = (([], refl), ((46 ∷ 116 ∷ [], refl), (([], refl), (([], refl), (([], refl), tt)))));
}

deflated-IsSmall : IsSmall deflated
unfolding program with_deflated is_skipped deflate_chunks deflate_section deflate_each
    deflate_sections
deflated-IsSmall = record { discarded = omega arith; room = omega arith }

converted-Fits :
    All (λ (s : Section). FitsSectionHeader s.header) (written_sections converted.sections)
unfolding program with_deflated is_skipped deflate_chunks deflate_section deflate_each
    deflate_sections
converted-Fits = ground arith

-- Memory full of ones.
abbrev memory : Memory
memory = record { header = replicate 52 1; file_size = 1; section_header = λ i. replicate 40 1 }

read_rpl-write_rpl_example :
    (out : List ℕ) × (write_rpl true converted ≡ ok out)
    × IsReadBack memory unstored headed converted out
read_rpl-write_rpl_example =
    read_rpl-write_rpl stored unstored 2 memory headed deflated converted headed-IsReady
      (refl, λ i. refl) deflate_run deflated-IsSmall calculate_run converted-Fits

front-IsPlain : All IsPlain front
front-IsPlain = ground arith

deflated-IsRegular : All (λ (s : Section). IsRegularHeader s.header) deflated.sections
unfolding program with_deflated is_skipped deflate_chunks deflate_section deflate_each
    deflate_sections
deflated-IsRegular = ground arith

verify_crcs-read_rpl_example :
    (out : List ℕ) × (rpl : Rpl) × (write_rpl true converted ≡ ok out)
    × (read_rpl unstored memory (some out) ≡ ok rpl)
    × (verify_crcs sums rpl ≡ ok true)
    × (verify_file_bounds rpl ≡ true)
verify_crcs-read_rpl_example =
    verify_crcs-read_rpl sums stored unstored 2 memory elf summed headed deflated converted front
      last refl (λ e. ground arith) front-IsPlain (λ e. ground arith) generate_run fix_run
      headed-IsReady (refl, λ i. refl) deflate_run deflated-IsSmall deflated-IsRegular calculate_run
      converted-Fits
