-- ===== src/Elf2rpl/Relocations/Accepted.antt =====
-- The converted relocations and the types that the loader supports.
use wut_tools.Common.{
  ℕ, ◌+◌, ◌*◌, ◌/◌, ◌^◌, ◌<◌, ◌≡◌, refl, ◌∙◌, subst, arith, inl, inr, bit_and, bit_or, true, List,
  [], ◌∷◌, map, contains, contains-append, All,
}
use wut_tools.Common.Bits.{bit_and_mask, bit_or_sum}
use wut_tools.Elf.Codec.{FitsRela}
use wut_tools.Elf.Constants
use wut_tools.Elf.{Rela}
use wut_tools.Elf2rpl.Relocations.{kept_types, type_of, high_half, low_half}
use wut_tools.Elf2rpl.Relocations.Laws.{
  Convertible, is_rel32, rewritten, added, is_rel32-kept, is_rel32_lem, high_half_lem, low_half_lem,
}
use wut_tools.Readrpl.Verify.RelocationTypes.{loader_types}

-- A relocation that fits its struct and that the loader supports.
abbrev pub Accepted : Rela → Type 0
Accepted r = FitsRela r × (contains loader_types (type_of r) ≡ true)

abbrev half_types : List ℕ
half_types =
    Constants.r_ppc_ghs_rel16_ha ∷ Constants.r_ppc_ghs_rel16_hi ∷ Constants.r_ppc_ghs_rel16_lo ∷ []

loader_types-kept : (a : ℕ) → contains kept_types a ≡ true → contains loader_types a ≡ true
loader_types-kept a h = contains-append kept_types half_types a ∙ rw h

-- The low byte of `(index << 8) | type` is the type.
info_type :
    (info type : ℕ)
    → info < 2 ^ 32
    → type < 2 ^ 8
    → (bit_and (bit_or (info / 2 ^ 8 * 2 ^ 8) type) 0xff ≡ type)
      × (bit_or (info / 2 ^ 8 * 2 ^ 8) type < 2 ^ 32)
info_type info type h k =
    ground (arith, bit_or_sum 8 (info / 2 ^ 8) type, bit_and_mask 8 (info / 2 ^ 8 * 2 ^ 8 + type))

high_half-Accepted : (r : Rela) → FitsRela r → Accepted (high_half r)
unfolding high_half
high_half-Accepted r f =
    let (type, small) = info_type r.info Constants.r_ppc_ghs_rel16_hi f.1 (omega arith) in
    ((f.0, small, f.2), rw type (unfold contains in refl))

low_half-Accepted : (r : Rela) → FitsRela r → Accepted (low_half r)
unfolding low_half
low_half-Accepted r f =
    let (type, small) = info_type r.info Constants.r_ppc_ghs_rel16_lo f.1 (omega arith) in
    ((omega arith, small, omega arith), rw type (unfold contains in refl))

is_rel32-true : (r : Rela) → type_of r ≡ Constants.r_ppc_rel32 → is_rel32 r ≡ true
is_rel32-true r e = is_rel32_lem r ∙ rw e refl

module _ (symbols : List ℕ) where
  rewritten-Accepted : (r : Rela) → FitsRela r → Convertible symbols r → Accepted (rewritten r)
  unfolding rewritten
  rewritten-Accepted r f (inl kept) =
      rw (is_rel32-kept r kept) (f, loader_types-kept (type_of r) kept)
  rewritten-Accepted r f (inr c) =
      rw (is_rel32-true r c.1) (subst Accepted (high_half_lem r) (high_half-Accepted r f))

  pub map-rewritten-Accepted :
      (rs : List Rela)
      → All FitsRela rs
      → All (Convertible symbols) rs
      → All Accepted (map rewritten rs)
  map-rewritten-Accepted [] f c = tt
  map-rewritten-Accepted (r ∷ rs) f c =
      (rewritten-Accepted r f.0 c.0, map-rewritten-Accepted rs f.1 c.1)

  added-cons-Accepted :
      (r : Rela) (rs : List Rela)
      → FitsRela r
      → Convertible symbols r
      → All Accepted (added rs)
      → All Accepted (added (r ∷ rs))
  unfolding added
  added-cons-Accepted r rs f (inl kept) rest = rw (is_rel32-kept r kept) rest
  added-cons-Accepted r rs f (inr c) rest =
      rw (is_rel32-true r c.1) (subst Accepted (low_half_lem r) (low_half-Accepted r f), rest)

  pub added-Accepted :
      (rs : List Rela) → All FitsRela rs → All (Convertible symbols) rs → All Accepted (added rs)
  unfolding added
  added-Accepted [] f c = tt
  added-Accepted (r ∷ rs) f c = added-cons-Accepted r rs f.0 c.0 (added-Accepted rs f.1 c.1)
