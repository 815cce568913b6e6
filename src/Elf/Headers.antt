-- ===== src/Elf/Headers.antt =====
-- The file header and the section headers as bytes: values that fit are read back.
use wut_tools.Common.{
  ℕ, ◌^◌, ◌<◌, ◌≡◌, refl, List, [], ◌∷◌, ◌++◌, length, length-append, drop, arith,
}
use wut_tools.Elf.Bytes.{
  header_of, header_bytes, section_header_of, section_header_bytes, sizeof_header,
  sizeof_section_header,
}
use wut_tools.Elf.Codec.{Codec}
use wut_tools.Elf.Structs.{Header, SectionHeader}

abbrev pub FitsSectionHeader : SectionHeader → Type 0
FitsSectionHeader h =
    (h.name < 2 ^ 32)
    × (h.type < 2 ^ 32)
    × (h.flags < 2 ^ 32)
    × (h.addr < 2 ^ 32)
    × (h.offset < 2 ^ 32)
    × (h.size < 2 ^ 32)
    × (h.link < 2 ^ 32)
    × (h.info < 2 ^ 32)
    × (h.addralign < 2 ^ 32)
    × (h.entsize < 2 ^ 32)

pub reads_section_header :
    (h : SectionHeader) (rest : List ℕ)
    → FitsSectionHeader h
    → section_header_of (section_header_bytes h ++ rest) ≡ h
unfolding section_header_of section_header_bytes
reads_section_header h rest f = ground arith

pub skips_section_header :
    (h : SectionHeader) (rest : List ℕ)
    → drop sizeof_section_header (section_header_bytes h ++ rest) ≡ rest
unfolding section_header_bytes
skips_section_header h rest = refl

pub measures_section_header :
    (h : SectionHeader) → length (section_header_bytes h) ≡ sizeof_section_header
unfolding section_header_bytes
measures_section_header h = refl

abbrev pub section_header_codec : Codec SectionHeader
section_header_codec = record {
  size = sizeof_section_header;
  reader = section_header_of;
  writer = section_header_bytes;
  Fits = FitsSectionHeader;
  reads = reads_section_header;
  skips = skips_section_header;
  measures = measures_section_header;
}

abbrev pub FitsHeader : Header → Type 0
FitsHeader h =
    (length h.pad ≡ 7)
    × ((h.magic < 2 ^ 32)
        × (h.file_class < 2 ^ 8)
        × (h.encoding < 2 ^ 8)
        × (h.elf_version < 2 ^ 8)
        × (h.abi < 2 ^ 16)
        × (h.type < 2 ^ 16)
        × (h.machine < 2 ^ 16)
        × (h.version < 2 ^ 32)
        × (h.entry < 2 ^ 32)
        × (h.phoff < 2 ^ 32)
        × (h.shoff < 2 ^ 32)
        × (h.flags < 2 ^ 32)
        × (h.ehsize < 2 ^ 16)
        × (h.phentsize < 2 ^ 16)
        × (h.phnum < 2 ^ 16)
        × (h.shentsize < 2 ^ 16)
        × (h.shnum < 2 ^ 16)
        × (h.shstrndx < 2 ^ 16))

abbrev with_pad : Header → List ℕ → Header
with_pad h pad = record h { pad = pad }

reads_header_with :
    (h : Header) (a b c d e f g : ℕ) (rest : List ℕ)
    → let pad = a ∷ b ∷ c ∷ d ∷ e ∷ f ∷ g ∷ [] in
      FitsHeader (with_pad h pad)
      → header_of (header_bytes (with_pad h pad) ++ rest) ≡ with_pad h pad
unfolding header_of header_bytes
reads_header_with h a b c d e f g rest fits = ground arith

reads_header_pad :
    (h : Header) (pad rest : List ℕ)
    → FitsHeader (with_pad h pad)
    → header_of (header_bytes (with_pad h pad) ++ rest) ≡ with_pad h pad
reads_header_pad h (a ∷ b ∷ c ∷ d ∷ e ∷ f ∷ g ∷ []) rest fits =
    reads_header_with h a b c d e f g rest fits
reads_header_pad h [] rest fits = absurd (omega (arith, fits.0))
reads_header_pad h (a ∷ []) rest fits = absurd (omega (arith, fits.0))
reads_header_pad h (a ∷ b ∷ []) rest fits = absurd (omega (arith, fits.0))
reads_header_pad h (a ∷ b ∷ c ∷ []) rest fits = absurd (omega (arith, fits.0))
reads_header_pad h (a ∷ b ∷ c ∷ d ∷ []) rest fits = absurd (omega (arith, fits.0))
reads_header_pad h (a ∷ b ∷ c ∷ d ∷ e ∷ []) rest fits = absurd (omega (arith, fits.0))
reads_header_pad h (a ∷ b ∷ c ∷ d ∷ e ∷ f ∷ []) rest fits = absurd (omega (arith, fits.0))
reads_header_pad h (a ∷ b ∷ c ∷ d ∷ e ∷ f ∷ g ∷ i ∷ pad) rest fits = absurd (omega (arith, fits.0))

pub reads_header :
    (h : Header) (rest : List ℕ) → FitsHeader h → header_of (header_bytes h ++ rest) ≡ h
reads_header h rest fits = reads_header_pad h h.pad rest fits

pub length-header_bytes : (h : Header) → FitsHeader h → length (header_bytes h) ≡ sizeof_header
unfolding header_bytes
length-header_bytes h fits = rw (length-append h.pad) (omega (arith, fits.0))
