-- ===== src/Lib.antt =====
-- wut-tools: the tools that turn an ELF file into an RPL or RPX of the Wii U, and that read,
-- check and package them.
--
-- elf2rpl (src/elf2rpl/main.cpp) reads an ELF file, converts its relocations, adds two sections,
-- lays the sections out and writes the RPL. readrpl (src/readrpl) reads an RPL and checks it as
-- the console's loader does (verify.cpp). rplexportgen and rplimportgen turn lists of names into the
-- assembly of the export and import sections, and wuhbtool packs an application into an archive. The
-- theorems relate what the tools write to what reads it.
--
-- The parts and their files:
-- - Common: arrays as lists, outcomes of a run, machine words and the laws of their bits. A run
--   returns a value (`ok`), reports a failure (`failed`), or does what C++ leaves undefined, such
--   as an index out of range (`fault`).
-- - Utils: src/common/utils.h (align_up, align_down, align_check, byte_swap, trim) and the alignment
--   and byte swaps of src/wuhbtool/utils/utils.h and types.h.
-- - BeVal: src/common/be_val.h, by its storage and its bytes in memory.
-- - Elf: src/common/elf.h. Elf.Constants has its enumerations, Elf.Structs the structs, field by
--   field as the values that their be_vals hold, Elf.Bytes the structs in memory, most significant
--   byte first, and Elf.Codec and Elf.Headers the laws of both.
-- - Files: output files as bytes, with writes at a position.
-- - Elf2rpl: src/elf2rpl/main.cpp. Reading has readElf and getSectionByName, Relocations
--   has getSymbol and fixRelocations, FileInfo has generateFileInfoSection, Crc has
--   generateCrcSection, Loader has relocateSection and fixLoaderVirtualAddresses, Wrap has
--   renameRplWrap, Deflate has deflateSections, FileHeader has fixFileHeader, Offsets has
--   calculateSectionOffsets, Write has writeRpl, and Convert has the steps of main. File has the
--   state that they change, `ElfFile`: an operation takes it and returns the changed one. Pointers to sections are indices of the list of sections.
-- - Readrpl: src/readrpl. Rpl has the structs of readrpl.h; Reading has readSection and the
--   reading of main in main.cpp, and in its child modules what is read of the output of elf2rpl;
--   Exports has generate_exports_def.cpp and getFileBasename;
--   Verify has the checks of verify.cpp, with Verify.RelocationTable and Verify.SymbolTable for the
--   static functions sValidateRelocsAddTable and sValidateSymbolTable, File for verifyFile, Crcs, FileBounds,
--   RelocationTypes and Sections for the others. Messages are not modelled.
-- - Wuhbtool: src/wuhbtool, the archive of a WUHB file. Entries has the tree of
--   entities/DirectoryEntry.cpp, FileEntry.cpp, NodeEntry.cpp and fillRomFSInformation; Hashing has
--   NormalizeChar, CalcPathHash and GetHashTableCount of services/RomFSService.cpp; Offsets has
--   calculateDirOffsets, calculateFileOffsets and updateSiblingAndChildEntries; Tables has populate
--   of the entities and the tables that it fills; Output has write of the entities, OSFileEntry.cpp
--   and BufferFileEntry.cpp; Archive has CreateArchive, with the structs of RomFSStructs.h as bytes in
--   Archive.Bytes; Images has services/TgaGzService.cpp; Meta has the names and meta.ini of main.cpp, and
--   Application the folders that main adds to the root. Each pass takes the tree and returns the changed one. A pointer to an entry is the
--   entry's offset, and a table is a function from offsets to records.
-- - Rplexportgen: src/rplexportgen/rplexportgen.cpp. Reading has the loop over the lines of
--   main, and Exports has writeExports; std::sort is a parameter.
-- - Rplimportgen: src/rplimportgen/rplimportgen.cpp. Reading has the loop over the lines of main, and
--   Imports has writeExports, and LinkerScript has writeLinkerScript. In both tools a line of the output is a statement of the assembler.
-- - Tests: runs on small files, and the theorems applied to them.
--
-- Numbers: a word of w bits is a natural number, with `% 2 ^ w` where the C++ type wraps around;
-- an int32_t is its bit pattern. A sum of signed 32-bit numbers that the code forms from 16-bit
-- fields is taken modulo 2 ^ 32. Bytes are numbers below 256 where a theorem says so.
--
-- Loops are recursion on the list that they run over, or on the number of entries left, but for two
-- of wuhbtool and the calls of deflate, which are on fuel: the search for a count of buckets needs
-- at most 510512 rounds, as one more than a multiple of the primes up to 17 has none of them as a
-- factor, and the copy of a file needs at most one round per byte and one more. How often deflate is
-- called depends on zlib: fuel for the calls to come is enough. Without fuel left the result is `none`.
--
-- zlib is not part of the repository: `Crc32` is the parameter that stands for its crc32, and
-- nothing is assumed of it. `Deflate` and `Inflate` stand for its streams; what is assumed of them is a
-- hypothesis of the theorem that needs it. The space that memory offers is not bounded; a
-- write behind the memory of the archive's tables is a fault. Within them a table is a function from
-- the offsets of records to records, so records that overlap do not change each other.
-- The name table of an ELF file is taken not to be a symbol table itself. In wuhbtool the output can be
-- opened and written. Its host files are their bytes, or none where one cannot be opened.
--
-- FreeImage is not part of the repository either: the parameter `FreeImage` stands for it, and what it
-- does to the file that it saves to is a tree of calls, of which nothing is assumed but what a theorem
-- says. What memory holds before it is set is a parameter of the reading of readrpl.
--
-- Not modelled: the options of all tools, which excmd parses; the printing of readrpl; of
-- src/wuhbtool, the walk over the host's directories with utils/filepath.cpp, so that the tree of the
-- folder of contents is given; the layout of the text of the linker script; src/udplogserver, which is
-- input and output only.
pub mod Common
pub mod Utils
pub mod BeVal
pub mod Elf
pub mod Files
pub mod Elf2rpl
pub mod Readrpl
pub mod Wuhbtool
pub mod Rplexportgen
pub mod Rplimportgen
pub mod Tests
