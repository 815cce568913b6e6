-- ===== src/Tests/Deflated.antt =====
-- A section that a stand-in for zlib deflates.
use wut_tools.Common.{
  false, true, none, failed, ℕ, ◌≡◌, refl, arith, List, [], ◌∷◌, take, drop, replicate, some, ok,
}
use wut_tools.Elf.{SectionHeader}
use wut_tools.Elf2rpl.Convert.{convert}
use wut_tools.Elf2rpl.Deflate.{Deflate, deflate_chunks, deflate_section, with_deflated, is_skipped}
use wut_tools.Elf2rpl.File.{Section}
use wut_tools.Readrpl.Reading.Inflated.{read_section_data-deflate_section}
use wut_tools.Readrpl.Reading.{Inflate, read_section_data}

-- A stream that stores its input.
abbrev pub stored : Deflate (List ℕ)
stored = record {
  start = λ bytes. bytes;
  deflate = λ space bytes. some (take space bytes, drop space bytes);
}

abbrev pub unstored : Inflate
unstored space bytes = some (take space bytes)

abbrev text : Section
text = record {
  header = record {
    name = 0;
    type = 1;
    flags = 6;
    addr = 0;
    offset = 0;
    size = 24;
    link = 0;
    info = 0;
    addralign = 4;
    entsize = 0;
  };
  name = [];
  bytes = replicate 24 7;
  index = 0;
}

chunks_of : deflate_chunks stored 2 text.bytes [] ≡ some (ok text.bytes)
unfolding deflate_chunks
chunks_of = refl

abbrev small : Section
small = record {
  header = record (text.header) { flags = 0x08000006 };
  name = [];
  bytes = 0 ∷ 0 ∷ 0 ∷ 24 ∷ replicate 24 7;
  index = 0;
}

small_run : deflate_section stored 2 text ≡ some (ok small)
unfolding deflate_section deflate_chunks with_deflated is_skipped
small_run = refl

abbrev in_file : SectionHeader
in_file = record (small.header) { offset = 1; size = 28 }

read_section_data-deflate_section_example :
    (end : ℕ) × (read_section_data unstored in_file
        (9 ∷ small.bytes)
        (record { pos = 7; good = true })
      ≡ ok (text.bytes, record { pos = end; good = true }))
read_section_data-deflate_section_example =
    read_section_data-deflate_section stored unstored 2 text small in_file (9 ∷ small.bytes) 7
      small_run (λ _. (text.bytes, chunks_of, refl)) (omega arith) refl refl refl refl refl

-- An input that cannot be opened.
not_opened :
    convert (record { initial = 0; update = λ crc bytes. crc }) stored 9 false true none []
    ≡ some failed
unfolding convert
not_opened = refl
