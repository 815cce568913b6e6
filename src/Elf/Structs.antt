-- ===== src/Elf/Structs.antt =====
-- The structures of src/common/elf.h, field by field, as the values that their `be_val`s hold.
-- An `int32_t` is its bit pattern.
use wut_tools.Common.{ℕ, List}

pub record Header : Type 0 where
  pub magic : ℕ
  pub file_class : ℕ
  pub encoding : ℕ
  pub elf_version : ℕ
  pub abi : ℕ
  pub pad : List ℕ
  pub type : ℕ
  pub machine : ℕ
  pub version : ℕ
  pub entry : ℕ
  pub phoff : ℕ
  pub shoff : ℕ
  pub flags : ℕ
  pub ehsize : ℕ
  pub phentsize : ℕ
  pub phnum : ℕ
  pub shentsize : ℕ
  pub shnum : ℕ
  pub shstrndx : ℕ

pub record SectionHeader : Type 0 where
  pub name : ℕ
  pub type : ℕ
  pub flags : ℕ
  pub addr : ℕ
  pub offset : ℕ
  pub size : ℕ
  pub link : ℕ
  pub info : ℕ
  pub addralign : ℕ
  pub entsize : ℕ

pub record Symbol : Type 0 where
  pub name : ℕ
  pub value : ℕ
  pub size : ℕ
  pub info : ℕ
  pub other : ℕ
  pub shndx : ℕ

pub record Rela : Type 0 where
  pub offset : ℕ
  pub info : ℕ
  pub addend : ℕ

pub record RplFileInfo : Type 0 where
  pub version : ℕ
  pub text_size : ℕ
  pub text_align : ℕ
  pub data_size : ℕ
  pub data_align : ℕ
  pub load_size : ℕ
  pub load_align : ℕ
  pub temp_size : ℕ
  pub tramp_adjust : ℕ
  pub sda_base : ℕ
  pub sda2_base : ℕ
  pub stack_size : ℕ
  pub filename : ℕ
  pub flags : ℕ
  pub heap_size : ℕ
  pub tag_offset : ℕ
  pub min_version : ℕ
  pub compression_level : ℕ
  pub tramp_addition : ℕ
  pub file_info_pad : ℕ
  pub cafe_sdk_version : ℕ
  pub cafe_sdk_revision : ℕ
  pub tls_module_index : ℕ
  pub tls_align_shift : ℕ
  pub runtime_file_info_size : ℕ
