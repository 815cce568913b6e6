-- ===== src/Elf2rpl/Offsets/Place.antt =====
-- A loop that places sections: it moves the offset on by the bytes that it places, and a property
-- of the sections holds behind it if the placed ones and the others have it.
use wut_tools.Common.{
  ℕ, u32, ◌+◌, ◌^◌, ◌≤◌, ◌<◌, ◌≡◌, refl, arith, Bool, true, false, List, [], ◌∷◌, length, All,
  Bool-cases, inl, inr,
}
use wut_tools.Elf2rpl.File.{Section}
use wut_tools.Elf2rpl.Offsets.{place, place_at}

-- The bytes of all sections.
unfoldable pub total : List Section → ℕ
total [] = 0
total (s ∷ ss) = length s.bytes + total ss

module _ (selects : Section → Bool) where
  pub total-place : (ss : List Section) (o : ℕ) → total (place selects ss o).0 ≡ total ss
  unfolding total place
  total-place [] o = refl
  total-place (s ∷ ss) o = elim (Bool-cases (selects s)) [
    | inl yes' ↦ rw (yes', total-place ss (u32 (o + u32 (length s.bytes))))
    | inr no' ↦ rw (no', total-place ss o)
  ]

  -- The offset behind a section that fits.
  moved : (o n rest : ℕ) → o + (n + rest) < 2 ^ 32 → u32 (o + u32 n) ≡ o + n
  moved o n rest h = omega arith

  pub place-end :
      (ss : List Section) (o : ℕ)
      → o + total ss < 2 ^ 32
      → (o ≤ (place selects ss o).1) × ((place selects ss o).1 ≤ o + total ss)
  unfolding total place
  place-end [] o h = omega arith
  place-end (s ∷ ss) o h =
      let e = moved o (length s.bytes) (total ss) h in
      elim (Bool-cases (selects s)) [
        | inl yes' ↦ rw (yes', e) (omega (arith, place-end ss (o + length s.bytes) (omega arith)))
        | inr no' ↦ rw no' (omega (arith, place-end ss o (omega arith)))
      ]

  module _ (P Q : Section → Type 0) (lo hi : ℕ)
      (keep : (s : Section) → P s → selects s ≡ false → Q s)
      (step : (s : Section) (o : ℕ)
        → P s
        → selects s ≡ true
        → lo ≤ o
        → o + length s.bytes ≤ hi
        → length s.bytes < 2 ^ 32
        → Q (place_at o s)) where
    pub place-All :
        (ss : List Section) (o : ℕ)
        → lo ≤ o
        → o + total ss < 2 ^ 32
        → (place selects ss o).1 ≤ hi
        → All P ss
        → All Q (place selects ss o).0
    unfolding total place
    place-All [] o a b c p = tt
    place-All (s ∷ ss) o a b c p =
        let e = moved o (length s.bytes) (total ss) b in
        let fits : o + length s.bytes + total ss < 2 ^ 32 = omega arith in
        elim (Bool-cases (selects s)) [
          | inl yes' ↦
              let c' : (place selects ss (o + length s.bytes)).1 ≤ hi = rw (yes', e) at c in
              rw (yes', e)
                (
                  step s o p.0 yes' a (omega (arith, place-end ss (o + length s.bytes) fits))
                      (omega arith),
                  place-All ss (o + length s.bytes) (omega arith) fits c' p.1,
                )
          | inr no' ↦ rw no' (keep s p.0 no', place-All ss o a (omega arith) (rw no' at c) p.1)
        ]
