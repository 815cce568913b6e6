-- ===== src/Rplimportgen/Imports/Padded.antt =====
-- The size of a module's name with its padding.
use wut_tools.Common.{
  ℕ, ◌+◌, ◌*◌, ◌/◌, ◌%◌, ◌^◌, ◌≤◌, ◌≡◌, ap, ◌∙◌, arith, u64, bit_and, List, length,
}
use wut_tools.Rplimportgen.Imports.{padding}
use wut_tools.Utils.Align.{align_rounded}
use wut_tools.Utils.{align, complement}

next_multiple :
    (n : ℕ) → n + 16 ≤ 2 ^ 64 → bit_and (u64 (n + 1 + 8)) (complement 64 7) ≡ (n + 9) / 8 * 8
unfolding align
next_multiple n small =
    let e : u64 (n + 1 + 8) ≡ u64 (n + 2 + 7) = omega arith in
    let h : align 64 (n + 2) 8 ≡ (n + 2 + 7) / 8 * 8 =
      align_rounded 64 3 (n + 2) (omega arith) (omega arith) in
    ap (λ m. bit_and m (complement 64 7)) e ∙ h ∙ omega arith

-- A module's name with the zeros behind it takes a multiple of 8 bytes, and there are at least two
-- zeros and at most nine.
pub padding_lem :
    (module_name : List ℕ)
    → length module_name + 16 ≤ 2 ^ 64
    → ((length module_name + padding module_name) % 8 ≡ 0)
      × (2 ≤ padding module_name)
      × (padding module_name ≤ 9)
unfolding padding
padding_lem module_name small =
    let n = length module_name in rw (next_multiple n small) (omega arith, omega arith, omega arith)
