-- ===== src/Elf2rpl.antt =====
-- src/elf2rpl/main.cpp: the conversion of an ELF file to an RPL or RPX file.
pub mod File
pub mod Relocations
pub mod Convert
pub mod Crc
pub mod Deflate
pub mod Offsets
pub mod Write
pub mod Wrap
pub mod Loader
pub mod Reading
pub mod FileInfo
pub mod FileHeader
