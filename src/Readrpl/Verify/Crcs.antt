-- ===== src/Readrpl/Verify/Crcs.antt =====
-- `verifyCrcs`.
use wut_tools.Common.{
  ℕ, ◌+◌, ◌*◌, Bool, true, false, ◌==◌, ◌!=◌, leb, if◌then◌else◌, List, [], is_empty, ◌∷◌, length,
  drop, Option, none, some, Run, ok, fault, ◌>>=◌,
}
use wut_tools.Elf.Bytes.{read_32}
use wut_tools.Elf.Constants
use wut_tools.Elf2rpl.Crc.{Crc32, crc_of}
use wut_tools.Readrpl.Rpl.{Section, Rpl}

-- The bytes of the first section of checksums; those of an empty section are a null pointer.
unfoldable pub find_crcs : List Section → Option (List ℕ)
find_crcs [] = none
find_crcs (s ∷ ss) =
    if s.header.type == Constants.sht_rpl_crcs
    then (if is_empty s.bytes then none else some s.bytes)
    else find_crcs ss

-- `crcs[i].crc`
unfoldable pub crc_at : List ℕ → ℕ → Run ℕ
crc_at crcs i = if leb (4 * i + 4) (length crcs) then ok (read_32 (drop (4 * i) crcs)) else fault

module _ (zlib : Crc32) where
  unfoldable pub expected_crc : Section → ℕ
  expected_crc s = if s.header.type != Constants.sht_rpl_crcs then crc_of zlib s.bytes else 0

  -- The loop from index `i` on.
  unfoldable pub check_crcs : List ℕ → ℕ → Bool → List Section → Run Bool
  unfolding crc_at expected_crc
  check_crcs crcs i result [] = ok result
  check_crcs crcs i result (s ∷ ss) = crc_at crcs i >>= λ crc.
      check_crcs crcs (i + 1) (if expected_crc s != crc then false else result) ss

  unfoldable pub verify_crcs : Rpl → Run Bool
  unfolding find_crcs check_crcs
  verify_crcs rpl = elim (find_crcs rpl.sections) [
    | none ↦ ok false
    | some crcs ↦ check_crcs crcs 0 true rpl.sections
  ]
