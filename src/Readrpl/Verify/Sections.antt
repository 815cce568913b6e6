-- ===== src/Readrpl/Verify/Sections.antt =====
-- `verifySectionAlignment` and `verifySectionOrder`.
use wut_tools.Common.{
  Bool, true, ◌&&◌, ◌-◌, ltb, if◌then◌else◌, List, [], ◌∷◌, Run, ok, fault, ◌>>=◌,
}
use wut_tools.Readrpl.Rpl.{Section, Rpl}
use wut_tools.Readrpl.Verify.RelocationTable.{section_at}
use wut_tools.Utils.{align_check}

unfoldable pub check_alignment : List Section → Bool
unfolding align_check
check_alignment [] = true
check_alignment (s ∷ ss) = align_check s.header.addr s.header.addralign && check_alignment ss

unfoldable pub verify_section_alignment : Rpl → Bool
unfolding check_alignment
verify_section_alignment rpl = check_alignment rpl.sections

-- What the types of the last two sections are is only reported: the result is true where both
-- exist.
unfoldable pub verify_section_order : Rpl → Run Bool
verify_section_order rpl =
    if ltb rpl.header.shnum 2
    then fault
    else (section_at rpl (rpl.header.shnum - 1) >>= λ last.
        section_at rpl (rpl.header.shnum - 2) >>= λ penultimate. ok true)
