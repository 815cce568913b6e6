-- ===== src/Elf2rpl/Offsets/Settled.antt =====
-- Where the loops leave the contents of the sections: no two of them meet.
use wut_tools.Common.Ranges.{Range, IsClear}
use wut_tools.Common.{
  ℕ, u32, ◌+◌, ◌^◌, ◌≤◌, ◌<◌, ◌≡◌, arith, Bool, List, [], ◌∷◌, length, All, Bool-cases, inl, inr,
  ◌⊎◌,
}
use wut_tools.Elf2rpl.File.{Section}
use wut_tools.Elf2rpl.Offsets.Located.{All-weaken}
use wut_tools.Elf2rpl.Offsets.Place.{total, place-end, place-All}
use wut_tools.Elf2rpl.Offsets.Renumbered.{AllPairs}
use wut_tools.Elf2rpl.Offsets.{place, place_at}

abbrev pub extent : Section → Range
extent s = record { start = s.header.offset; size = length s.bytes }

-- Not placed yet, or in a range, of the size that the header says.
abbrev pub Lies : (lo hi : ℕ) → Section → Type 0
Lies lo hi s =
    (s.header.offset ≡ 0)
    ⊎ ((lo ≤ s.header.offset)
        × (s.header.offset + length s.bytes ≤ hi)
        × (s.header.size ≡ length s.bytes))

-- One of two sections is not placed, or they do not meet.
abbrev pub Clear : Section → Section → Type 0
Clear s t = (s.header.offset ≡ 0) ⊎ ((t.header.offset ≡ 0) ⊎ IsClear (extent s) (extent t))

abbrev pub AllClear : List Section → Type 0
AllClear = AllPairs Clear

abbrev pub Settled : (lo hi : ℕ) → List Section → Type 0
Settled lo hi ss = All (Lies lo hi) ss × AllClear ss

-- A loop, from an offset `o` on, over sections that lie before `base`.
module _ (selects : Section → Bool) (lo base : ℕ) where
  -- As it was, or placed by this loop.
  abbrev Moved : (o hi : ℕ) → Section → Type 0
  Moved o hi s =
      Lies lo base s
      ⊎ ((o ≤ s.header.offset)
          × (s.header.offset + length s.bytes ≤ hi)
          × (s.header.size ≡ length s.bytes))

  place-Moved :
      (ss : List Section) (o : ℕ)
      → o + total ss < 2 ^ 32
      → All (Lies lo base) ss
      → All (Moved o (place selects ss o).1) (place selects ss o).0
  place-Moved ss o fits h =
      place-All selects (Lies lo base) (Moved o (place selects ss o).1) o (place selects ss o).1
        (λ s p unselected. inl p)
        (λ s o' p selected a b small. unfold place_at in inr (a, b, omega arith)) ss o (omega arith)
        fits (omega arith) h

  -- A section before the loop's offset stays clear of all of them.
  place-Clear :
      (x : Section) (ss : List Section) (o : ℕ)
      → (x.header.offset ≡ 0) ⊎ (x.header.offset + length x.bytes ≤ o)
      → o + total ss < 2 ^ 32
      → All (Clear x) ss
      → All (Clear x) (place selects ss o).0
  place-Clear x ss o before fits h =
      place-All selects (Clear x) (Clear x) o (place selects ss o).1 (λ s p unselected. p)
        (λ s o' p selected a b small. unfold place_at in behind s o' a before) ss o (omega arith)
        fits (omega arith) h
    where
      behind :
          (s : Section) (o' : ℕ)
          → o ≤ o'
          → (x.header.offset ≡ 0) ⊎ (x.header.offset + length x.bytes ≤ o)
          → Clear x (place_at o' s)
      behind s o' a (inl e) = inl e
      behind s o' a (inr e) = unfold place_at in inr (inr (inl (omega arith)))

  at_Clear :
      (s t : Section) (o o1 hi : ℕ)
      → base ≤ o
      → o + length s.bytes ≤ o1
      → Moved o1 hi t
      → Clear (place_at o s) t
  unfolding place_at
  at_Clear s t o o1 hi below next (inl (inl e)) = inr (inl e)
  at_Clear s t o o1 hi below next (inl (inr h)) = inr (inr (inr (omega arith)))
  at_Clear s t o o1 hi below next (inr h) = inr (inr (inl (omega arith)))

  Lies-before :
      (s : Section) (o : ℕ)
      → base ≤ o
      → Lies lo base s
      → (s.header.offset ≡ 0) ⊎ (s.header.offset + length s.bytes ≤ o)
  Lies-before s o below (inl e) = inl e
  Lies-before s o below (inr h) = inr (omega arith)

  place-AllClear :
      (ss : List Section) (o : ℕ)
      → base ≤ o
      → o + total ss < 2 ^ 32
      → All (Lies lo base) ss
      → AllClear ss
      → AllClear (place selects ss o).0
  unfolding place total
  place-AllClear [] o below fits h clear = tt
  place-AllClear (s ∷ ss) o below fits h clear =
      let o1 = o + length s.bytes in
      let e : u32 (o + u32 (length s.bytes)) ≡ o1 = omega arith in
      elim (Bool-cases (selects s)) [
        | inl selected ↦
            rw (selected, e)
              (
                All-weaken (place selects ss o1).0
                    (λ t m. at_Clear s t o o1 (place selects ss o1).1 below (omega arith) m)
                    (place-Moved ss o1 (omega arith) h.1),
                place-AllClear ss o1 (omega arith) (omega arith) h.1 clear.1,
              )
        | inr unselected ↦ rw unselected (
          place-Clear s ss o (Lies-before s o below h.0) (omega arith) clear.0,
          place-AllClear ss o below (omega arith) h.1 clear.1,
        )
      ]

  all_Lies :
      (ss : List Section) (o hi : ℕ)
      → lo ≤ o
      → base ≤ hi
      → All (Moved o hi) ss
      → All (Lies lo hi) ss
  all_Lies ss o hi a b = All-weaken ss (λ s m. one s m)
    where
      one : (s : Section) → Moved o hi s → Lies lo hi s
      one s (inl (inl e)) = inl e
      one s (inl (inr h)) = inr (h.0, omega arith, h.2)
      one s (inr h) = inr (omega arith, h.1, h.2)

pub place-Settled :
    (selects : Section → Bool) (lo hi : ℕ) (ss : List Section)
    → lo ≤ hi
    → hi + total ss < 2 ^ 32
    → Settled lo hi ss
    → Settled lo (place selects ss hi).1 (place selects ss hi).0
place-Settled selects lo hi ss below fits h =
    let ends = place-end selects ss hi fits in
    (
      all_Lies selects lo hi (place selects ss hi).0 hi (place selects ss hi).1 below ends.0
          (place-Moved selects lo hi ss hi fits h.0),
      place-AllClear selects lo hi ss hi (omega arith) fits h.0 h.1,
    )
