-- ===== src/Readrpl/Reading/Inflated.antt =====
-- `readSection` on what `deflateSections` leaves.
use wut_tools.Common.Bits.{bit_or_set}
use wut_tools.Common.{
  ℕ, ◌+◌, ◌-◌, ◌^◌, ◌≤◌, ◌<◌, ◌≡◌, refl, sym, ap, subst, ◌∙◌, arith, u32, bit_or, has, true, false,
  Bool-cases, inl, inr, ◌⊎◌, ◌==◌, ltb, ◌||◌, List, [], ◌∷◌, ◌++◌, length, take, drop, replicate,
  length-replicate, length-take, length-drop, take-append-drop, some, Run, ok, failed, ◌>>=◌,
  if◌then◌else◌, done-injective, and_then-eq-done,
}
use wut_tools.Elf.Bytes.{bytes_32, read_32}
use wut_tools.Elf.Constants
use wut_tools.Elf.{SectionHeader}
use wut_tools.Elf2rpl.Deflate.{Deflate, deflate_chunks, with_deflated, is_skipped, deflate_section}
use wut_tools.Elf2rpl.File.{Section, deflate_min_section_size}
use wut_tools.Elf2rpl.Reading.{Stream, read_into, seek}
use wut_tools.Files.Patches.{read_at}
use wut_tools.Readrpl.Reading.Streams.{read_at-append, read_into_all}
use wut_tools.Readrpl.Reading.{Inflate, inflated, read_section_data}

read_32-bytes_32 : (n : ℕ) (rest : List ℕ) → n < 2 ^ 32 → read_32 (bytes_32 n ++ rest) ≡ n
unfolding read_32
read_32-bytes_32 n rest small = omega arith

-- The contents that `readSection` is to give for bytes in the file, by the section's header.
abbrev pub Gives : Inflate → SectionHeader → (bytes data_ : List ℕ) → Type 0
Gives inflate h bytes data_ =
    (((h.type == Constants.sht_nobits || h.size == 0) ≡ true) × (data_ ≡ []))
    ⊎ (((h.type == Constants.sht_nobits || h.size == 0) ≡ false)
        × (h.size ≡ length bytes)
        × (((has h.flags Constants.shf_deflated ≡ false) × (data_ ≡ bytes))
            ⊎ ((has h.flags Constants.shf_deflated ≡ true)
                × (4 ≤ length bytes)
                × (inflate (read_32 bytes) (drop 4 bytes) ≡ some data_))))

-- `readSection` gives them, and the stream stays good.
abbrev pub IsRead : Inflate → SectionHeader → List ℕ → Stream → List ℕ → Type 0
IsRead inflate h file in_ data_ =
    (end : ℕ) × (read_section_data inflate h file in_
      ≡ ok (data_, record { pos = end; good = true }))

plain_IsRead :
    (inflate : Inflate) (h : SectionHeader) (file bytes : List ℕ) (p : ℕ)
    → (h.type == Constants.sht_nobits || h.size == 0) ≡ false
    → h.size ≡ length bytes
    → has h.flags Constants.shf_deflated ≡ false
    → read_at h.offset (length bytes) file ≡ bytes
    → IsRead inflate h file (record { pos = p; good = true }) bytes
unfolding read_section_data seek
plain_IsRead inflate h file bytes p type size flags there =
    let e =
      read_into_all file h.offset bytes (replicate h.size 0) there
        (sym size ∙ sym (length-replicate h.size 0)) in
    (h.offset + length bytes, rw (type, flags, e) refl)

small_size : (n k : ℕ) → n ≡ 4 + k → ltb n 4 ≡ false
small_size n k e = ground arith

deflated_IsRead :
    (inflate : Inflate) (h : SectionHeader) (file size rest data_ : List ℕ) (p : ℕ)
    → (h.type == Constants.sht_nobits || h.size == 0) ≡ false
    → h.size ≡ 4 + length rest
    → length size ≡ 4
    → has h.flags Constants.shf_deflated ≡ true
    → read_at h.offset (length (size ++ rest)) file ≡ size ++ rest
    → inflate (read_32 size) rest ≡ some data_
    → IsRead inflate h file (record { pos = p; good = true }) data_
unfolding read_section_data seek
deflated_IsRead inflate h file size rest data_ p type whole four flags there e =
    let parts = read_at-append h.offset size rest file there in
    let e1 = read_into_all file h.offset size (replicate 4 0) parts.0 four in
    let n : length rest ≡ length (replicate (h.size - 4) 0) =
      omega (arith, whole, length-replicate {A = ℕ} (h.size - 4) 0) in
    let e2 =
      read_into_all file (h.offset + length size) rest (replicate (h.size - 4) 0) parts.1 n in
    let enough : ltb h.size 4 ≡ false = small_size h.size (length rest) whole in
    let behind : (List ℕ × Stream) → (List ℕ × Stream) → Run (List ℕ × Stream) = λ r1 r2.
      if ltb h.size 4
      then failed
      else (inflated (inflate (read_32 r1.0) r2.0) >>= λ d. ok (d, r2.1)) in
    let buffer = replicate (h.size - 4) 0 in
    (
      h.offset + length size + length rest,
      rw (type, flags)
          (ap (λ r1. behind r1 (read_into file r1.1 buffer)) e1
            ∙ ap (behind (size, record { pos = h.offset + length size; good = true })) e2
            ∙ rw (enough, e) refl),
    )

read_32-append : (size rest : List ℕ) → length size ≡ 4 → read_32 (size ++ rest) ≡ read_32 size
unfolding read_32
read_32-append [] rest e = absurd (omega arith)
read_32-append (a ∷ []) rest e = absurd (omega arith)
read_32-append (a ∷ b ∷ []) rest e = absurd (omega arith)
read_32-append (a ∷ b ∷ c ∷ []) rest e = absurd (omega arith)
read_32-append (a ∷ b ∷ c ∷ d ∷ _) rest e = refl

pub Gives-IsRead :
    (inflate : Inflate) (h : SectionHeader) (file bytes data_ : List ℕ) (p : ℕ)
    → Gives inflate h bytes data_
    → read_at h.offset (length bytes) file ≡ bytes
    → IsRead inflate h file (record { pos = p; good = true }) data_
unfolding read_section_data
Gives-IsRead inflate h file bytes data_ p (inl (none', e)) there = (p, rw (none', e) refl)
Gives-IsRead inflate h file bytes data_ p (inr (type, size, inl (flags, e))) there =
    subst (IsRead inflate h file (record { pos = p; good = true })) (sym e)
      (plain_IsRead inflate h file bytes p type size flags there)
Gives-IsRead inflate h file bytes data_ p (inr (type, size, inr (flags, four, e))) there =
    let split : take 4 bytes ++ drop 4 bytes ≡ bytes = take-append-drop 4 bytes in
    let front : length (take 4 bytes) ≡ 4 = omega (arith, length-take 4 bytes) in
    let n : read_32 (take 4 bytes) ≡ read_32 bytes =
      sym (read_32-append (take 4 bytes) (drop 4 bytes) front) ∙ ap read_32 split in
    deflated_IsRead inflate h file (take 4 bytes) (drop 4 bytes) data_ p type
      (omega (arith, length-drop 4 bytes)) front flags
      (subst (λ b. read_at h.offset (length b) file ≡ b) (sym split) there)
      (ap (λ m. inflate m (drop 4 bytes)) n ∙ e)

deflated_flag :
    (flags : ℕ) → has (bit_or flags Constants.shf_deflated) Constants.shf_deflated ≡ true
deflated_flag flags = let e = bit_or_set 27 flags in ground (arith, e)

module _ {Stream : Type 0} (zlib : Deflate Stream) (inflate : Inflate) where
  -- zlib deflates these bytes in the rounds that the fuel allows, and inflates the result to them.
  abbrev pub Restores : ℕ → List ℕ → Type 0
  Restores fuel bytes =
      (out : List ℕ) × (deflate_chunks zlib fuel (zlib.start bytes) [] ≡ some (ok out))
      × (inflate (length bytes) out ≡ some bytes)

  -- What stays of a section.
  pub deflate_section_parts :
      (fuel : ℕ) (s s' : Section)
      → deflate_section zlib fuel s ≡ some (ok s')
      → (s'.index ≡ s.index)
        × (s'.header.name ≡ s.header.name)
        × (s'.header.type ≡ s.header.type)
        × (s'.bytes ≡ [] → s.bytes ≡ [])
        × (s'.header.size ≡ s.header.size)
        × (s.bytes ≡ [] → s'.bytes ≡ [])
  unfolding deflate_section with_deflated
  deflate_section_parts fuel s s' run = elim (Bool-cases (is_skipped s)) [
    | inl skipped ↦
        subst Parts (done-injective (rw skipped at run)) (refl, refl, refl, λ e. e, refl, λ e. e)
    | inr deflated ↦
        let (out, done, last) =
          and_then-eq-done (deflate_chunks zlib fuel (zlib.start s.bytes) []) _
            (rw deflated at run) in
        subst Parts (done-injective last)
          (refl, refl, refl, λ e. absurd (cc), refl, λ e. absurd (not_empty e deflated))
  ]
    where
      not_empty : s.bytes ≡ [] → is_skipped s ≡ false → ⊥
      not_empty e deflated =
          let small : ltb (length s.bytes) deflate_min_section_size ≡ true = rw e refl in
          absurd (unfold is_skipped in ground (arith, small, deflated))

      Parts : Section → Type 0
      Parts t =
          (t.index ≡ s.index)
          × (t.header.name ≡ s.header.name)
          × (t.header.type ≡ s.header.type)
          × (t.bytes ≡ [] → s.bytes ≡ [])
          × (t.header.size ≡ s.header.size)
          × (s.bytes ≡ [] → t.bytes ≡ [])

  abbrev As : Section → SectionHeader → Section → Type 0
  As s h s' =
      h.flags ≡ s'.header.flags → h.size ≡ length s'.bytes → Gives inflate h s'.bytes s.bytes

  with_deflated-As :
      (s : Section) (out : List ℕ) (h : SectionHeader)
      → inflate (length s.bytes) out ≡ some s.bytes
      → length s.bytes < 2 ^ 32
      → (h.type == Constants.sht_nobits || h.size == 0) ≡ false
      → As s h (with_deflated s out)
  unfolding with_deflated
  with_deflated-As s out h back_again small type same size =
      let e : u32 (length s.bytes) ≡ length s.bytes = omega arith in
      let n = read_32-bytes_32 (length s.bytes) out small in
      let flagged : has h.flags Constants.shf_deflated ≡ true =
        ap (λ m. has m Constants.shf_deflated) same ∙ deflated_flag s.header.flags in
      inr (
        type,
        size,
        inr (
          flagged,
          omega arith,
          ap (λ m. inflate (read_32 (bytes_32 m ++ out)) out) e
              ∙ ap (λ m. inflate m out) n
              ∙ back_again,
        ),
      )

  -- What `deflateSections` leaves of a section, with any header of its flags and of the size of its
  -- contents.
  pub deflate_section-Gives :
      (fuel : ℕ) (s s' : Section) (h : SectionHeader)
      → deflate_section zlib fuel s ≡ some (ok s')
      → (is_skipped s ≡ false → Restores fuel s.bytes)
      → length s.bytes < 2 ^ 32
      → has s.header.flags Constants.shf_deflated ≡ false
      → (h.type == Constants.sht_nobits || h.size == 0) ≡ false
      → As s h s'
  unfolding deflate_section
  deflate_section-Gives fuel s s' h run restores small flags type =
      elim (Bool-cases (is_skipped s)) [
        | inl skipped ↦ subst (As s h) (done-injective (rw skipped at run)) (λ same size.
            inr (type, size, inl (ap (λ n. has n Constants.shf_deflated) same ∙ flags, refl)))
        | inr deflated ↦
            let (out, done, back_again) = restores deflated in
            subst (As s h) (done-injective (rw (deflated, done) at run))
              (with_deflated-As s out h back_again small type)
      ]

  -- If `deflateSections` succeeds on a section, of fewer than 2 ^ 32 bytes, which zlib restores where
  -- the section is not left out, and not yet flagged as deflated, then `readSection` gives the contents back by any header that has
  -- the new flags and the size of the new contents, from any good stream over a file that has the new
  -- contents at the header's offset, unless the type is SHT_NOBITS or the size is 0: with the flag
  -- and a size in front where it was deflated, and as they are where it was left out. The stream
  -- stays good.
  pub read_section_data-deflate_section :
      (fuel : ℕ) (s s' : Section) (h : SectionHeader) (file : List ℕ) (p : ℕ)
      → deflate_section zlib fuel s ≡ some (ok s')
      → (is_skipped s ≡ false → Restores fuel s.bytes)
      → length s.bytes < 2 ^ 32
      → has s.header.flags Constants.shf_deflated ≡ false
      → (h.type == Constants.sht_nobits || h.size == 0) ≡ false
      → h.flags ≡ s'.header.flags
      → h.size ≡ length s'.bytes
      → read_at h.offset (length s'.bytes) file ≡ s'.bytes
      → (end : ℕ) × (read_section_data inflate h file (record { pos = p; good = true })
          ≡ ok (s.bytes, record { pos = end; good = true }))
  read_section_data-deflate_section fuel s s' h file p run restores small flags type same size
        there =
      Gives-IsRead inflate h file s'.bytes s.bytes p
        (deflate_section-Gives fuel s s' h run restores small flags type same size) there
