-- ===== src/Readrpl.antt =====
-- src/readrpl: the reading of an RPL file, the checks on it, and the list of its exports.
pub mod Exports
pub mod Reading
pub mod Rpl
pub mod Verify
