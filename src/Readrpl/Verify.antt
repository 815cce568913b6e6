-- ===== src/Readrpl/Verify.antt =====
-- src/readrpl/verify.cpp, one module for each check. A check's messages are not modelled.
pub mod RelocationTable
pub mod SymbolTable
pub mod File
pub mod Sections
pub mod Crcs
pub mod FileBounds
pub mod RelocationTypes
