-- ===== src/Elf2rpl/Offsets/Arranged.antt =====
-- Where `calculateSectionOffsets` leaves the contents of the sections.
use wut_tools.Common.Ranges.{IsClear, AreClear}
use wut_tools.Common.{
  ℕ, ◌+◌, ◌*◌, ◌%◌, ◌^◌, ◌≤◌, ◌<◌, ◌≡◌, refl, arith, Bool, true, false, ◌||◌, ◌==◌, List, [], ◌∷◌,
  map, length, All, inl, inr, ◌⊎◌, ok, Bool-cases,
}
use wut_tools.Elf.Constants
use wut_tools.Elf2rpl.File.{Section, ElfFile}
use wut_tools.Elf2rpl.Offsets.Located.{clear_empty-total}
use wut_tools.Elf2rpl.Offsets.Place.{total, total-place, place-end, place-All}
use wut_tools.Elf2rpl.Offsets.Renumbered.{relinked, renumber_all-All, renumber_all-AllPairs}
use wut_tools.Elf2rpl.Offsets.Settled.{extent, Lies, Clear, AllClear, Settled, place-Settled}
use wut_tools.Elf2rpl.Offsets.Verified.{IsSmall, calculate_parts, first_offset_bounds}
use wut_tools.Elf2rpl.Offsets.{
  first_offset, reset_offset, clear_empty, holds_nothing, place, place_at, has_type, is_data,
  is_read, is_text, is_temp, is_lost, place_groups, place_all, calculate_section_offsets,
}

-- The null sections, among them the discarded ones, have no size.
abbrev pub HasEmptyNull : Section → Type 0
HasEmptyNull s = has_type Constants.sht_null s ≡ true → s.header.size ≡ 0

-- A section of no contents in the file has no bytes, and the null section no size.
abbrev Bare : Section → Type 0
Bare s = (holds_nothing s ≡ true → s.bytes ≡ []) × HasEmptyNull s

place_at-Bare : (s : Section) (o : ℕ) → Bare s → Bare (place_at o s)
unfolding place_at
place_at-Bare s o h = (h.0, λ null. size s.bytes (h.0 (ground (arith, null))))
  where
    size : (b : List ℕ) → b ≡ [] → length b % 2 ^ 32 ≡ 0
    size b e = rw e refl

-- What the loops so far leave, with no more than `n` bytes in all.
record Stage (lo n hi : ℕ) (ss : List Section) : Type 0 where
  size : total ss ≤ n
  above : lo ≤ hi
  settled : Settled lo hi ss
  bare : All Bare ss

place-Stage :
    (selects : Section → Bool) (lo n hi : ℕ) (ss : List Section)
    → hi + n < 2 ^ 32
    → Stage lo n hi ss
    → Stage lo n (place selects ss hi).1 (place selects ss hi).0
      × ((place selects ss hi).1 ≤ hi + n)
place-Stage selects lo n hi ss fits stage =
    let small : hi + total ss < 2 ^ 32 = omega (arith, stage.size) in
    let ends = place-end selects ss hi small in
    (
      record {
        size = omega (arith, total-place selects ss hi, stage.size);
        above = omega (arith, stage.above);
        settled = place-Settled selects lo hi ss stage.above small stage.settled;
        bare =
            place-All selects Bare Bare hi (place selects ss hi).1 (λ s h _. h)
              (λ s o h _ _ _ _. place_at-Bare s o h) ss hi (omega arith) small (omega arith)
              stage.bare;
      },
      omega (arith, stage.size),
    )

cleared_Stage :
    (o n : ℕ) (ss : List Section)
    → total ss ≤ n
    → All HasEmptyNull ss
    → Stage o n o (map clear_empty (map reset_offset ss))
cleared_Stage o n ss small null = record {
  size = omega (arith, clear_empty-total ss);
  above = omega arith;
  settled = (lies ss, clear ss);
  bare = bare ss null;
}
  where
    at_0 : (s : Section) → (clear_empty (reset_offset s)).header.offset ≡ 0
    at_0 s = unfold clear_empty reset_offset in ground arith

    lies : (ss : List Section) → All (Lies o o) (map clear_empty (map reset_offset ss))
    lies [] = tt
    lies (s ∷ ss) = (inl (at_0 s), lies ss)

    clear_of :
        (s : Section) (ss : List Section)
        → All (Clear (clear_empty (reset_offset s))) (map clear_empty (map reset_offset ss))
    clear_of s [] = tt
    clear_of s (t ∷ ss) = (inl (at_0 s), clear_of s ss)

    clear : (ss : List Section) → AllClear (map clear_empty (map reset_offset ss))
    clear [] = tt
    clear (s ∷ ss) = (clear_of s ss, clear ss)

    empty : (s : Section) → HasEmptyNull s → Bare (clear_empty (reset_offset s))
    empty s null = elim (Bool-cases (holds_nothing s)) [
      | inl yes' ↦ unfold clear_empty reset_offset in rw yes' (λ _. refl, null)
      | inr no' ↦ unfold clear_empty reset_offset in rw no' (λ e. absurd (cc), null)
    ]

    bare :
        (ss : List Section) → All HasEmptyNull ss → All Bare (map clear_empty (map reset_offset ss))
    bare [] h = tt
    bare (s ∷ ss) h = (empty s h.0, bare ss h.1)

place_all-Stage :
    (ss : List Section) (o : ℕ)
    → o + 6 * total ss < 2 ^ 32
    → All HasEmptyNull ss
    → (hi : ℕ) × (hi ≤ o + 6 * total ss) × Stage o (total ss) hi (place_all ss o)
unfolding place_all place_groups
place_all-Stage ss o fits null =
    let n = total ss in
    let s0 = cleared_Stage o n ss (omega arith) null in
    let (s1, b1) = place-Stage (has_type Constants.sht_rpl_crcs) o n o _ (omega arith) s0 in
    let (s2, b2) = place-Stage (has_type Constants.sht_rpl_fileinfo) o n _ _ (omega arith) s1 in
    let (s3, b3) = place-Stage is_data o n _ _ (omega arith) s2 in
    let (s4, b4) = place-Stage is_read o n _ _ (omega arith) s3 in
    let (s5, b5) = place-Stage is_text o n _ _ (omega arith) s4 in
    let (s6, b6) = place-Stage is_temp o n _ _ (omega arith) s5 in (_, omega arith, s6)

-- A section with no contents in the file, or one with its contents in a range of the file, of the
-- size that the header says.
abbrev pub IsPlaced : (lo hi : ℕ) → Section → Type 0
IsPlaced lo hi s =
    ((s.header.offset ≡ 0)
      × (s.bytes ≡ [])
      × ((s.header.type == Constants.sht_nobits || s.header.size == 0) ≡ true))
    ⊎ ((lo ≤ s.header.offset)
        × (s.header.offset + length s.bytes ≤ hi)
        × (s.header.size ≡ length s.bytes))

relinked_IsPlaced :
    (lo hi : ℕ) (s : Section) (link info : ℕ)
    → is_lost s ≡ false
    → Lies lo hi s × Bare s
    → IsPlaced lo hi (relinked s link info)
relinked_IsPlaced lo hi s link info found (inr h, bare) = inr h
relinked_IsPlaced lo hi s link info found (inl e, bare) =
    elim (Bool-cases (has_type Constants.sht_null s)) [
      | inl null ↦ inl (e, bare.0 (ground (arith, null)), ground (arith, bare.1 null))
      | inr other ↦ elim (Bool-cases (has_type Constants.sht_nobits s)) [
        | inl nobits ↦ inl (e, bare.0 (ground (arith, nobits)), ground (arith, nobits))
        | inr more ↦ absurd (ground (arith, found, e, other, more))
      ]
    ]

extents_IsClear :
    (lo hi : ℕ) (s t : Section)
    → 0 < lo
    → IsPlaced lo hi s
    → IsPlaced lo hi t
    → Clear s t
    → IsClear (extent s) (extent t)
extents_IsClear lo hi s t low (inl h) p c = inl (rw (h.0, h.1) (omega arith))
extents_IsClear lo hi s t low (inr h) (inl k) c = inr (rw (k.0, k.1) (omega arith))
extents_IsClear lo hi s t low (inr h) (inr k) (inl e) = absurd (omega arith)
extents_IsClear lo hi s t low (inr h) (inr k) (inr (inl e)) = absurd (omega arith)
extents_IsClear lo hi s t low (inr h) (inr k) (inr (inr c)) = c

extents-Clear_of :
    (lo hi : ℕ) (s : Section) (ss : List Section)
    → 0 < lo
    → IsPlaced lo hi s
    → All (IsPlaced lo hi) ss
    → All (Clear s) ss
    → All (IsClear (extent s)) (map extent ss)
extents-Clear_of lo hi s [] low p ps c = tt
extents-Clear_of lo hi s (t ∷ ss) low p ps c =
    (extents_IsClear lo hi s t low p ps.0 c.0, extents-Clear_of lo hi s ss low p ps.1 c.1)

extents-AreClear :
    (lo hi : ℕ) (ss : List Section)
    → 0 < lo
    → All (IsPlaced lo hi) ss
    → AllClear ss
    → AreClear (map extent ss)
extents-AreClear lo hi [] low ps c = tt
extents-AreClear lo hi (s ∷ ss) low ps c =
    (extents-Clear_of lo hi s ss low ps.0 ps.1 c.0, extents-AreClear lo hi ss low ps.1 c.1)

pub All-× :
    (P Q : Section → Type 0) (ss : List Section) → All P ss → All Q ss → All (λ s. P s × Q s) ss
All-× P Q [] p q = tt
All-× P Q (s ∷ ss) p q = ((p.0, q.0), All-× P Q ss p.1 q.1)

-- The contents are behind the section headers, and do not meet.
pub record IsArranged (lo hi : ℕ) (sections : List Section) : Type 0 where
  pub placed : All (IsPlaced lo hi) sections
  pub clear : AreClear (map extent sections)

pub calculate_section_offsets-IsArranged :
    (file file' : ElfFile)
    → IsSmall file
    → 0 < file.header.shoff
    → All HasEmptyNull file.sections
    → calculate_section_offsets file ≡ ok file'
    → (hi : ℕ) × IsArranged (first_offset file) hi file'.sections
calculate_section_offsets-IsArranged file file' small start null run =
    let o = first_offset file in
    let (renumbered, _) = calculate_parts file file' run in
    let first = first_offset_bounds file small in
    let (hi, _, stage) =
      place_all-Stage file.sections o (omega (arith, small.discarded, small.room)) null in
    let all = place_all file.sections o in
    let placed =
      renumber_all-All (λ s. Lies o hi s × Bare s) (IsPlaced o hi) (relinked_IsPlaced o hi) all all
        file'.sections renumbered (All-× (Lies o hi) Bare all stage.settled.0 stage.bare) in
    let clear =
      renumber_all-AllPairs Clear (λ s t link info link' info' c. c) all all file'.sections
        renumbered stage.settled.1 in
    (
      hi,
      record {
        placed = placed;
        clear = extents-AreClear o hi file'.sections (omega arith) placed clear;
      },
    )
