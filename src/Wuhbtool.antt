-- ===== src/Wuhbtool.antt =====
-- src/wuhbtool: the archive of a WUHB file, its entries and its tables, and what main puts into it.
pub mod Application
pub mod Archive
pub mod Entries
pub mod Hashing
pub mod Images
pub mod Meta
pub mod Offsets
pub mod Output
pub mod Tables
