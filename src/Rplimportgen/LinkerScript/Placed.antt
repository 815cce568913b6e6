-- ===== src/Rplimportgen/LinkerScript/Placed.antt =====
-- What the linker script does with the sections of the assembly.
use wut_tools.Common.{ℕ, ◌≡◌, List, [], ◌∷◌, ◌++◌, ◌⊎◌}
use wut_tools.Rplimportgen.Imports.{Statement, section}
use wut_tools.Rplimportgen.LinkerScript.{Pattern, named, prefixed, OutputSection}

abbrev pub Matches : Pattern → List ℕ → Type 0
Matches (named name) s = s ≡ name
Matches (prefixed prefix) s = (rest : List ℕ) × (s ≡ prefix ++ rest)

-- Some output section of a script takes a section of this name.
abbrev pub IsTaken : List OutputSection → List ℕ → Type 0
IsTaken [] s = ⊥
IsTaken (o ∷ os) s = (Matches o.kept s ⊎ Matches o.collected s) ⊎ IsTaken os s

-- A statement that starts a section starts one that the script takes.
abbrev pub IsPlaced : List OutputSection → Statement → Type 0
IsPlaced os (section name flags) = IsTaken os name
IsPlaced os _ = Unit
