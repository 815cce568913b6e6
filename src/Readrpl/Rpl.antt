-- ===== src/Readrpl/Rpl.antt =====
-- `Rpl` and `Section` of readrpl.h.
use wut_tools.Common.{ℕ, List}
use wut_tools.Elf.{Header, SectionHeader}

pub record Section : Type 0 where
  pub header : SectionHeader
  pub name : List ℕ
  pub bytes : List ℕ

pub record Rpl : Type 0 where
  pub header : Header
  pub file_size : ℕ
  pub sections : List Section
