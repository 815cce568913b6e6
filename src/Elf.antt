-- ===== src/Elf.antt =====
-- src/common/elf.h: constants, structures and their bytes.
pub mod Constants
pub mod Structs
pub mod Bytes
pub mod Codec
pub mod Headers
pub use Structs.*
