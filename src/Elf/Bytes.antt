-- ===== src/Elf/Bytes.antt =====
-- The structures as bytes: what `reinterpret_cast` on a packed struct of `be_val`s reads and
-- writes. A reader is given the bytes from the struct's address on.
use mathlib.Core.Option
use wut_tools.Common.{
  ℕ, zero, suc, ◌+◌, ◌*◌, ◌/◌, ◌%◌, ◌^◌, List, [], ◌∷◌, ◌++◌, drop, take, Option, none, some, ◌==◌,
  if◌then◌else◌,
}
use wut_tools.Elf.Structs.{Header, SectionHeader, Symbol, Rela, RplFileInfo}

unfoldable pub read_8 : List ℕ → ℕ
read_8 [] = 0
read_8 (a ∷ _) = a

unfoldable pub read_16 : List ℕ → ℕ
read_16 (a ∷ b ∷ _) = a * 2 ^ 8 + b
read_16 _ = 0

unfoldable pub read_32 : List ℕ → ℕ
read_32 (a ∷ b ∷ c ∷ d ∷ _) = a * 2 ^ 24 + b * 2 ^ 16 + c * 2 ^ 8 + d
read_32 _ = 0

abbrev pub bytes_8 : ℕ → List ℕ
bytes_8 x = x ∷ []

abbrev pub bytes_16 : ℕ → List ℕ
bytes_16 x = x / 2 ^ 8 ∷ x % 2 ^ 8 ∷ []

abbrev pub bytes_32 : ℕ → List ℕ
bytes_32 x = x / 2 ^ 24 ∷ x / 2 ^ 16 % 2 ^ 8 ∷ x / 2 ^ 8 % 2 ^ 8 ∷ x % 2 ^ 8 ∷ []

-- `sizeof`
abbrev pub sizeof_header : ℕ
sizeof_header = 0x34

abbrev pub sizeof_section_header : ℕ
sizeof_section_header = 0x28

abbrev pub sizeof_symbol : ℕ
sizeof_symbol = 0x10

abbrev pub sizeof_rela : ℕ
sizeof_rela = 0x0c

unfoldable pub header_of : List ℕ → Header
unfolding read_8 read_16 read_32
header_of b = record {
  magic = read_32 b;
  file_class = read_8 (drop 4 b);
  encoding = read_8 (drop 5 b);
  elf_version = read_8 (drop 6 b);
  abi = read_16 (drop 7 b);
  pad = take 7 (drop 9 b);
  type = read_16 (drop 16 b);
  machine = read_16 (drop 18 b);
  version = read_32 (drop 20 b);
  entry = read_32 (drop 24 b);
  phoff = read_32 (drop 28 b);
  shoff = read_32 (drop 32 b);
  flags = read_32 (drop 36 b);
  ehsize = read_16 (drop 40 b);
  phentsize = read_16 (drop 42 b);
  phnum = read_16 (drop 44 b);
  shentsize = read_16 (drop 46 b);
  shnum = read_16 (drop 48 b);
  shstrndx = read_16 (drop 50 b);
}

unfoldable pub section_header_of : List ℕ → SectionHeader
unfolding read_32
section_header_of b = record {
  name = read_32 b;
  type = read_32 (drop 4 b);
  flags = read_32 (drop 8 b);
  addr = read_32 (drop 12 b);
  offset = read_32 (drop 16 b);
  size = read_32 (drop 20 b);
  link = read_32 (drop 24 b);
  info = read_32 (drop 28 b);
  addralign = read_32 (drop 32 b);
  entsize = read_32 (drop 36 b);
}

unfoldable pub symbol_of : List ℕ → Symbol
unfolding read_8 read_16 read_32
symbol_of b = record {
  name = read_32 b;
  value = read_32 (drop 4 b);
  size = read_32 (drop 8 b);
  info = read_8 (drop 12 b);
  other = read_8 (drop 13 b);
  shndx = read_16 (drop 14 b);
}

unfoldable pub rela_of : List ℕ → Rela
unfolding read_32
rela_of b = record { offset = read_32 b; info = read_32 (drop 4 b); addend = read_32 (drop 8 b) }

unfoldable pub header_bytes : Header → List ℕ
header_bytes h =
    bytes_32 h.magic
    ++ (bytes_8 h.file_class
        ++ (bytes_8 h.encoding
            ++ (bytes_8 h.elf_version
                ++ (bytes_16 h.abi
                    ++ (h.pad
                        ++ (bytes_16 h.type
                            ++ (bytes_16 h.machine
                                ++ (bytes_32 h.version
                                    ++ (bytes_32 h.entry
                                        ++ (bytes_32 h.phoff
                                            ++ (bytes_32 h.shoff
                                                ++ (bytes_32 h.flags
                                                    ++ (bytes_16 h.ehsize
                                                        ++ (bytes_16 h.phentsize
                                                            ++ (bytes_16 h.phnum
                                                            ++ (bytes_16 h.shentsize
                                                            ++ (bytes_16 h.shnum
                                                            ++ bytes_16 h.shstrndx)))))))))))))))))

unfoldable pub section_header_bytes : SectionHeader → List ℕ
section_header_bytes h =
    bytes_32 h.name
    ++ (bytes_32 h.type
        ++ (bytes_32 h.flags
            ++ (bytes_32 h.addr
                ++ (bytes_32 h.offset
                    ++ (bytes_32 h.size
                        ++ (bytes_32 h.link
                            ++ (bytes_32 h.info
                                ++ (bytes_32 h.addralign ++ bytes_32 h.entsize))))))))

unfoldable pub symbol_bytes : Symbol → List ℕ
symbol_bytes s =
    bytes_32 s.name
    ++ (bytes_32 s.value
        ++ (bytes_32 s.size ++ (bytes_8 s.info ++ (bytes_8 s.other ++ bytes_16 s.shndx))))

unfoldable pub rela_bytes : Rela → List ℕ
rela_bytes r = bytes_32 r.offset ++ (bytes_32 r.info ++ bytes_32 r.addend)

unfoldable pub file_info_bytes : RplFileInfo → List ℕ
file_info_bytes i =
    bytes_32 i.version
    ++ (bytes_32 i.text_size
        ++ (bytes_32 i.text_align
            ++ (bytes_32 i.data_size
                ++ (bytes_32 i.data_align
                    ++ (bytes_32 i.load_size
                        ++ (bytes_32 i.load_align
                            ++ (bytes_32 i.temp_size
                                ++ (bytes_32 i.tramp_adjust
                                    ++ (bytes_32 i.sda_base
                                        ++ (bytes_32 i.sda2_base
                                            ++ (bytes_32 i.stack_size
                                                ++ (bytes_32 i.filename
                                                    ++ (bytes_32 i.flags
                                                        ++ (bytes_32 i.heap_size
                                                            ++ (bytes_32 i.tag_offset
                                                            ++ (bytes_32 i.min_version
                                                            ++ (bytes_32 i.compression_level
                                                            ++ (bytes_32 i.tramp_addition
                                                            ++ (bytes_32 i.file_info_pad
                                                            ++ (bytes_32 i.cafe_sdk_version
                                                            ++ (bytes_32 i.cafe_sdk_revision
                                                            ++ (bytes_16 i.tls_module_index
                                                            ++ (bytes_16 i.tls_align_shift
                                                            ++ bytes_32
                                                            i.runtime_file_info_size)))))))))))))))))))))))

-- A table of `n` structs of `size` bytes each, from an address on, and its bytes.
unfoldable pub table : {A : Type 0} → ℕ → (List ℕ → A) → ℕ → List ℕ → List A
table size reader zero b = []
table size reader (suc n) b = reader b ∷ table size reader n (drop size b)

unfoldable pub table_bytes : {A : Type 0} → (A → List ℕ) → List A → List ℕ
table_bytes writer [] = []
table_bytes writer (x ∷ xs) = writer x ++ table_bytes writer xs

-- `&text[offset]` as a string: up to the first zero byte, which must be there.
unfoldable pub c_string : List ℕ → Option (List ℕ)
c_string [] = none
c_string (c ∷ s) = if c == 0 then some [] else Option.map (λ t. c ∷ t) (c_string s)
