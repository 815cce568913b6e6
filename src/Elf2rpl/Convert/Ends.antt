-- ===== src/Elf2rpl/Convert/Ends.antt =====
-- The conversion ends, if the deflate stream does.
use wut_tools.Common.{
  ℕ, zero, suc, ◌+◌, ◌≤◌, ◌<◌, ◌≡◌, refl, arith, Bool, Bool-cases, inl, inr, ◌==◌, List, [], ◌∷◌,
  ◌++◌, length, Option, none, some, Run, ok, failed, fault, ◌>>=◌, and_then,
}
use wut_tools.Elf2rpl.Convert.{convert, convert_sections}
use wut_tools.Elf2rpl.Crc.{Crc32}
use wut_tools.Elf2rpl.Deflate.{
  Deflate, chunk_size, is_skipped, with_deflated, deflate_chunks, deflate_section, deflate_each,
  deflate_sections,
}
use wut_tools.Elf2rpl.File.{Section, ElfFile}
use wut_tools.Elf2rpl.Offsets.{calculate_section_offsets}
use wut_tools.Elf2rpl.Reading.{read_elf}
use wut_tools.Elf2rpl.Write.{write_rpl}

-- A run that is not out of fuel.
abbrev pub Ends : {A : Type 0} → Option (Run A) → Type 0
Ends {A} run = (result : Run A) × (run ≡ some result)

and_then-Ends :
    {A B : Type 0} (run : Option (Run A)) (next : A → Option (Run B))
    → Ends run
    → ((a : A) → Ends (next a))
    → Ends (and_then run next)
and_then-Ends (some (ok a)) next ends more = more a
and_then-Ends (some failed) next ends more = (failed, refl)
and_then-Ends (some fault) next ends more = (fault, refl)
and_then-Ends none next (result, e) more = absurd (cc)

module _ {Stream : Type 0} (zlib : Deflate Stream) where
  -- How many more calls fill their space: each that does leaves fewer.
  pub record Progress : Type 0 where
    pub pending : Stream → ℕ
    pub falls :
        (stream stream' : Stream) (chunk : List ℕ)
        → zlib.deflate chunk_size stream ≡ some (chunk, stream')
        → length chunk ≡ chunk_size
        → pending stream' < pending stream

  module _ (progress : Progress) where
    -- One call, if the calls behind it end.
    call-Ends :
        (fuel : ℕ) (stream : Stream) (deflated : List ℕ) (called : Option (List ℕ × Stream))
        → zlib.deflate chunk_size stream ≡ called
        → ((stream' : Stream) (more : List ℕ)
            → progress.pending stream' < fuel
            → Ends (deflate_chunks zlib fuel stream' more))
        → progress.pending stream ≤ fuel
        → Ends (deflate_chunks zlib (suc fuel) stream deflated)
    unfolding deflate_chunks
    call-Ends fuel stream deflated none e behind enough = rw (deflate_chunks, e) (failed, refl)
    call-Ends fuel stream deflated (some (chunk, stream')) e behind enough =
        elim (Bool-cases (length chunk == chunk_size)) [
          | inl full ↦
              let falls = progress.falls stream stream' chunk e (ground (arith, full)) in
              rw (deflate_chunks, e, full)
                (behind stream' (deflated ++ chunk) (omega (arith, falls, enough)))
          | inr space ↦ rw (deflate_chunks, e, space) (ok (deflated ++ chunk), refl)
        ]

    deflate_chunks-Ends :
        (fuel : ℕ) (stream : Stream) (deflated : List ℕ)
        → progress.pending stream < fuel
        → Ends (deflate_chunks zlib fuel stream deflated)
    deflate_chunks-Ends zero stream deflated enough = absurd (omega arith)
    deflate_chunks-Ends (suc fuel) stream deflated enough =
        call-Ends fuel stream deflated (zlib.deflate chunk_size stream) refl
          (deflate_chunks-Ends fuel) (omega arith)

    -- Enough fuel for each section.
    abbrev pub fuel_for : List Section → ℕ
    fuel_for [] = 1
    fuel_for (s ∷ ss) = suc (progress.pending (zlib.start s.bytes)) + fuel_for ss

    deflate_section-Ends :
        (fuel : ℕ) (s : Section)
        → progress.pending (zlib.start s.bytes) < fuel
        → Ends (deflate_section zlib fuel s)
    unfolding deflate_section
    deflate_section-Ends fuel s enough = elim (Bool-cases (is_skipped s)) [
      | inl skipped ↦ rw (deflate_section, skipped) (ok s, refl)
      | inr deflated ↦
          rw (deflate_section, deflated)
            (and_then-Ends (deflate_chunks zlib fuel (zlib.start s.bytes) []) _
              (deflate_chunks-Ends fuel (zlib.start s.bytes) [] enough)
              (λ out. (ok (with_deflated s out), refl)))
    ]

    deflate_each-Ends :
        (fuel : ℕ) (ss : List Section) → fuel_for ss ≤ fuel → Ends (deflate_each zlib fuel ss)
    unfolding deflate_each
    deflate_each-Ends fuel [] enough = (ok [], refl)
    deflate_each-Ends fuel (s ∷ ss) enough =
        and_then-Ends (deflate_section zlib fuel s) _ (deflate_section-Ends fuel s (omega arith))
          (λ s'.
            and_then-Ends (deflate_each zlib fuel ss) _ (deflate_each-Ends fuel ss (omega arith))
              (λ ss'. (ok (s' ∷ ss'), refl)))

    deflate_sections-Ends :
        (fuel : ℕ) (file : ElfFile)
        → fuel_for file.sections ≤ fuel
        → Ends (deflate_sections zlib fuel file)
    unfolding deflate_sections
    deflate_sections-Ends fuel file enough =
        and_then-Ends (deflate_each zlib fuel file.sections) _
          (deflate_each-Ends fuel file.sections enough)
          (λ ss. (ok (record file { sections = ss }), refl))

  abbrev pub prepared_fuel : Progress → Run ElfFile → ℕ
  prepared_fuel progress (ok file) = fuel_for progress file.sections
  prepared_fuel progress failed = 0
  prepared_fuel progress fault = 0

  prepared-Ends :
      (progress : Progress) (fuel : ℕ) (prepared : Run ElfFile)
      (next : ElfFile → Option (Run (List ℕ)))
      → prepared_fuel progress prepared ≤ fuel
      → ((file : ElfFile) → Ends (next file))
      → Ends (and_then (some prepared) (λ file. and_then (deflate_sections zlib fuel file) next))
  prepared-Ends progress fuel (ok file) next enough more =
      and_then-Ends (deflate_sections zlib fuel file) next
        (deflate_sections-Ends progress fuel file enough) more
  prepared-Ends progress fuel failed next enough more = (failed, refl)
  prepared-Ends progress fuel fault next enough more = (fault, refl)

  -- One call for each that is to come, and one more, for each section.
  abbrev pub conversion_fuel :
      Progress → Crc32 → (is_rpl : Bool) (input : Option (List ℕ)) (memory : List ℕ) → ℕ
  conversion_fuel progress crc is_rpl input memory =
      prepared_fuel progress (read_elf input memory >>= convert_sections crc is_rpl)

  -- If each call of deflate that fills its space leaves fewer of such calls to come, then for any
  -- input, well formed or not, the conversion returns, with an output, a failure or a fault: fuel
  -- for the calls to come, and one more for each section, is enough.
  pub convert-Ends :
      (progress : Progress) (crc : Crc32) (fuel : ℕ) (is_rpl opened : Bool)
      (input : Option (List ℕ)) (memory : List ℕ)
      → conversion_fuel progress crc is_rpl input memory ≤ fuel
      → Ends (convert crc zlib fuel is_rpl opened input memory)
  unfolding convert
  convert-Ends progress crc fuel is_rpl opened input memory enough =
      prepared-Ends progress fuel (read_elf input memory >>= convert_sections crc is_rpl)
        (λ deflated. some (calculate_section_offsets deflated >>= write_rpl opened)) enough
        (λ file. (calculate_section_offsets file >>= write_rpl opened, refl))
