-- ===== src/Elf2rpl/Relocations/Laws.antt =====
-- What the loop over the relocations of a section does to them.
use wut_tools.Common.{
  ℕ, ◌+◌, ◌*◌, ◌/◌, ◌%◌, ◌^◌, ◌<◌, ◌≡◌, refl, sym, ap, ap₂, ◌∙◌, Bool, u32, arith, ◌⊎◌, inl, inr,
  true, false, ◌==◌, if◌then◌else◌, List, [], ◌∷◌, ◌++◌, map, length, contains, contains-nil,
  append_assoc, append-nil, All, Bool-cases,
}
use wut_tools.Common.Bits.{bit_and_mask, bit_or_sum}
use wut_tools.Elf.Bytes.{sizeof_symbol}
use wut_tools.Elf.Constants
use wut_tools.Elf.{Rela}
use wut_tools.Elf2rpl.Relocations.{
  Fixing, kept_types, type_of, index_of, high_half, low_half, fix_rela, fix_relas,
}

-- No error has been met so far.
abbrev pub Clean : Fixing → Type 0
Clean t = (t.result ≡ true) × (t.unsupported_types ≡ [])

-- The relocations that the tool can convert: those that it keeps, and a R_PPC_REL32 whose symbol
-- is in the table.
abbrev pub Convertible : List ℕ → Rela → Type 0
Convertible symbols r =
    (contains kept_types (type_of r) ≡ true)
    ⊎ ((contains kept_types (type_of r) ≡ false)
        × (type_of r ≡ Constants.r_ppc_rel32)
        × (index_of r < length symbols / sizeof_symbol))

-- The type of a relocation, R_PPC_REL32, and the same symbol with another type.
abbrev pub is_rel32 : Rela → Bool
is_rel32 r = r.info % 256 == 26

abbrev pub with_type : ℕ → Rela → Rela
with_type type r = record r { info = r.info / 256 * 256 + type }

abbrev pub added_for : Rela → Rela
added_for r = record (with_type 253 r) {
  offset = (r.offset + 2) % 2 ^ 32;
  addend = (r.addend + 2) % 2 ^ 32;
}

-- What becomes of a relocation in its place, and what is added for it: a R_PPC_REL32 becomes a
-- R_PPC_GHS_REL16_HI, and a R_PPC_GHS_REL16_LO of the same symbol is added two bytes behind it.
unfoldable pub rewritten : Rela → Rela
rewritten r = if is_rel32 r then with_type 252 r else r

unfoldable pub added : List Rela → List Rela
added [] = []
added (r ∷ rs) = if is_rel32 r then added_for r ∷ added rs else added rs

type_of_lem : (r : Rela) → type_of r ≡ r.info % 256
type_of_lem r = bit_and_mask 8 r.info

-- None of the types that are kept is R_PPC_REL32.
kept_types-rel32 : (a : ℕ) → contains kept_types a ≡ true → (a == 26) ≡ false
unfolding contains
kept_types-rel32 a kept = ground (arith, kept)

pub is_rel32-kept : (r : Rela) → contains kept_types (type_of r) ≡ true → is_rel32 r ≡ false
is_rel32-kept r kept = ap (λ a. a == 26) (sym (type_of_lem r)) ∙ kept_types-rel32 (type_of r) kept

pub is_rel32_lem : (r : Rela) → is_rel32 r ≡ (type_of r == Constants.r_ppc_rel32)
is_rel32_lem r = ap (λ a. a == 26) (sym (type_of_lem r))

pub high_half_lem : (r : Rela) → high_half r ≡ with_type 252 r
unfolding high_half
high_half_lem r = ap (λ i. record r { info = i }) (bit_or_sum 8 (r.info / 2 ^ 8) 252 (omega arith))

pub low_half_lem : (r : Rela) → low_half r ≡ added_for r
unfolding low_half
low_half_lem r =
    ap (λ i. record { info = i; addend = u32 (r.addend + 2); offset = u32 (r.offset + 2) })
      (bit_or_sum 8 (r.info / 2 ^ 8) 253 (omega arith))

module _ (symbols : List ℕ) where
  record Step (r : Rela) (t : Fixing) : Type 0 where
    before : Clean t
    can : Convertible symbols r
    place : (fix_rela symbols r t).0 ≡ rewritten r
    new : (fix_rela symbols r t).1.new_relocations ≡ t.new_relocations ++ added (r ∷ [])

  fix_rela-Step : (r : Rela) (t : Fixing) → Clean (fix_rela symbols r t).1 → Step r t
  unfolding fix_rela rewritten added
  fix_rela-Step r t c = elim (Bool-cases (contains kept_types (type_of r))) [
    | inl kept ↦ record {
      before = rw kept at c;
      can = inl kept;
      place = rw (kept, is_rel32-kept r kept) refl;
      new = rw (kept, is_rel32-kept r kept) (ground (arith, append-nil t.new_relocations));
    }
    | inr other ↦ record {
      before = ground arith;
      can = ground (arith, contains-nil (type_of r));
      place = ground (arith, is_rel32_lem r, high_half_lem r);
      new = ground (
        arith,
        is_rel32_lem r,
        low_half_lem r,
        contains-nil (type_of r),
        append-nil t.new_relocations,
      );
    }
  ]

  added-cons : (r : Rela) (rs : List Rela) → added (r ∷ rs) ≡ added (r ∷ []) ++ added rs
  unfolding added
  added-cons r rs = ground arith

  pub record Steps (rs : List Rela) (t : Fixing) : Type 0 where
    pub before : Clean t
    pub can : All (Convertible symbols) rs
    pub places : (fix_relas symbols rs t).0 ≡ map rewritten rs
    pub new : (fix_relas symbols rs t).1.new_relocations ≡ t.new_relocations ++ added rs

  -- If the loop over relocations ends with no error, there was none before it, and each of them had
  -- a type that is kept or was a R_PPC_REL32 of a symbol in the table. In its place a R_PPC_REL32
  -- has become a R_PPC_GHS_REL16_HI of the same symbol, offset and addend, and the others are as
  -- they were. For each R_PPC_REL32, in order, a R_PPC_GHS_REL16_LO of the same symbol is new, its
  -- offset and its addend larger by 2, modulo 2 ^ 32.
  pub fix_relas-Steps :
      (rs : List Rela) (t : Fixing) → Clean (fix_relas symbols rs t).1 → Steps rs t
  unfolding fix_relas added
  fix_relas-Steps [] t c = record {
    before = c;
    can = tt;
    places = refl;
    new = ground (arith, append-nil t.new_relocations);
  }
  fix_relas-Steps (r ∷ rs) t c =
      let later = fix_relas-Steps rs (fix_rela symbols r t).1 c in
      let now = fix_rela-Step r t later.before in
      record {
        before = now.before;
        can = (now.can, later.can);
        places = ap₂ ◌∷◌ now.place later.places;
        new =
            rw (later.new, now.new, added-cons r rs)
              (append_assoc t.new_relocations (added (r ∷ [])) (added rs));
      }
