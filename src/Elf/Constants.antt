-- ===== src/Elf/Constants.antt =====
-- The enumerations of src/common/elf.h, one constant for each enumerator.
use wut_tools.Common.{ℕ}

abbrev pub em_ppc : ℕ
em_ppc = 20

abbrev pub elfdatanone : ℕ
elfdatanone = 0

abbrev pub elfdata2lsb : ℕ
elfdata2lsb = 1

abbrev pub elfdata2msb : ℕ
elfdata2msb = 2

abbrev pub elfclassnone : ℕ
elfclassnone = 0

abbrev pub elfclass32 : ℕ
elfclass32 = 1

abbrev pub elfclass64 : ℕ
elfclass64 = 2

abbrev pub ev_none : ℕ
ev_none = 0

abbrev pub ev_current : ℕ
ev_current = 1

abbrev pub et_none : ℕ
et_none = 0

abbrev pub et_rel : ℕ
et_rel = 1

abbrev pub et_exec : ℕ
et_exec = 2

abbrev pub et_dyn : ℕ
et_dyn = 3

abbrev pub et_core : ℕ
et_core = 4

abbrev pub et_loproc : ℕ
et_loproc = 0xff00

abbrev pub et_cafe_rpl : ℕ
et_cafe_rpl = 0xff01

abbrev pub et_hiproc : ℕ
et_hiproc = 0xffff

abbrev pub eabi_cafe : ℕ
eabi_cafe = 0xcafe

abbrev pub shf_write : ℕ
shf_write = 0x1

abbrev pub shf_alloc : ℕ
shf_alloc = 0x2

abbrev pub shf_execinstr : ℕ
shf_execinstr = 0x4

abbrev pub shf_deflated : ℕ
shf_deflated = 0x08000000

abbrev pub shf_maskproc : ℕ
shf_maskproc = 0xF0000000

abbrev pub sht_null : ℕ
sht_null = 0

abbrev pub sht_progbits : ℕ
sht_progbits = 1

abbrev pub sht_symtab : ℕ
sht_symtab = 2

abbrev pub sht_strtab : ℕ
sht_strtab = 3

abbrev pub sht_rela : ℕ
sht_rela = 4

abbrev pub sht_hash : ℕ
sht_hash = 5

abbrev pub sht_dynamic : ℕ
sht_dynamic = 6

abbrev pub sht_note : ℕ
sht_note = 7

abbrev pub sht_nobits : ℕ
sht_nobits = 8

abbrev pub sht_rel : ℕ
sht_rel = 9

abbrev pub sht_shlib : ℕ
sht_shlib = 10

abbrev pub sht_dynsym : ℕ
sht_dynsym = 11

abbrev pub sht_init_array : ℕ
sht_init_array = 14

abbrev pub sht_fini_array : ℕ
sht_fini_array = 15

abbrev pub sht_preinit_array : ℕ
sht_preinit_array = 16

abbrev pub sht_group : ℕ
sht_group = 17

abbrev pub sht_symtab_shndx : ℕ
sht_symtab_shndx = 18

abbrev pub sht_loproc : ℕ
sht_loproc = 0x70000000

abbrev pub sht_hiproc : ℕ
sht_hiproc = 0x7fffffff

abbrev pub sht_louser : ℕ
sht_louser = 0x80000000

abbrev pub sht_rpl_exports : ℕ
sht_rpl_exports = 0x80000001

abbrev pub sht_rpl_imports : ℕ
sht_rpl_imports = 0x80000002

abbrev pub sht_rpl_crcs : ℕ
sht_rpl_crcs = 0x80000003

abbrev pub sht_rpl_fileinfo : ℕ
sht_rpl_fileinfo = 0x80000004

abbrev pub sht_hiuser : ℕ
sht_hiuser = 0xffffffff

abbrev pub stb_local : ℕ
stb_local = 0

abbrev pub stb_global : ℕ
stb_global = 1

abbrev pub stb_weak : ℕ
stb_weak = 2

abbrev pub stb_gnu_unique : ℕ
stb_gnu_unique = 10

abbrev pub stb_loos : ℕ
stb_loos = 10

abbrev pub stb_hios : ℕ
stb_hios = 12

abbrev pub stb_loproc : ℕ
stb_loproc = 13

abbrev pub stb_hiproc : ℕ
stb_hiproc = 15

abbrev pub stt_notype : ℕ
stt_notype = 0

abbrev pub stt_object : ℕ
stt_object = 1

abbrev pub stt_func : ℕ
stt_func = 2

abbrev pub stt_section : ℕ
stt_section = 3

abbrev pub stt_file : ℕ
stt_file = 4

abbrev pub stt_common : ℕ
stt_common = 5

abbrev pub stt_tls : ℕ
stt_tls = 6

abbrev pub stt_loos : ℕ
stt_loos = 7

abbrev pub stt_hios : ℕ
stt_hios = 8

abbrev pub stt_gnu_ifunc : ℕ
stt_gnu_ifunc = 10

abbrev pub stt_loproc : ℕ
stt_loproc = 13

abbrev pub stt_hiproc : ℕ
stt_hiproc = 15

abbrev pub shn_undef : ℕ
shn_undef = 0

abbrev pub shn_loreserve : ℕ
shn_loreserve = 0xff00

abbrev pub shn_abs : ℕ
shn_abs = 0xfff1

abbrev pub shn_common : ℕ
shn_common = 0xfff2

abbrev pub shn_xindex : ℕ
shn_xindex = 0xffff

abbrev pub shn_hireserve : ℕ
shn_hireserve = 0xffff

abbrev pub r_ppc_none : ℕ
r_ppc_none = 0

abbrev pub r_ppc_addr32 : ℕ
r_ppc_addr32 = 1

abbrev pub r_ppc_addr24 : ℕ
r_ppc_addr24 = 2

abbrev pub r_ppc_addr16 : ℕ
r_ppc_addr16 = 3

abbrev pub r_ppc_addr16_lo : ℕ
r_ppc_addr16_lo = 4

abbrev pub r_ppc_addr16_hi : ℕ
r_ppc_addr16_hi = 5

abbrev pub r_ppc_addr16_ha : ℕ
r_ppc_addr16_ha = 6

abbrev pub r_ppc_addr14 : ℕ
r_ppc_addr14 = 7

abbrev pub r_ppc_addr14_brtaken : ℕ
r_ppc_addr14_brtaken = 8

abbrev pub r_ppc_addr14_brntaken : ℕ
r_ppc_addr14_brntaken = 9

abbrev pub r_ppc_rel24 : ℕ
r_ppc_rel24 = 10

abbrev pub r_ppc_rel14 : ℕ
r_ppc_rel14 = 11

abbrev pub r_ppc_rel14_brtaken : ℕ
r_ppc_rel14_brtaken = 12

abbrev pub r_ppc_rel14_brntaken : ℕ
r_ppc_rel14_brntaken = 13

abbrev pub r_ppc_got16 : ℕ
r_ppc_got16 = 14

abbrev pub r_ppc_got16_lo : ℕ
r_ppc_got16_lo = 15

abbrev pub r_ppc_got16_hi : ℕ
r_ppc_got16_hi = 16

abbrev pub r_ppc_got16_ha : ℕ
r_ppc_got16_ha = 17

abbrev pub r_ppc_pltrel24 : ℕ
r_ppc_pltrel24 = 18

abbrev pub r_ppc_jmp_slot : ℕ
r_ppc_jmp_slot = 21

abbrev pub r_ppc_relative : ℕ
r_ppc_relative = 22

abbrev pub r_ppc_local24pc : ℕ
r_ppc_local24pc = 23

abbrev pub r_ppc_rel32 : ℕ
r_ppc_rel32 = 26

abbrev pub r_ppc_tls : ℕ
r_ppc_tls = 67

abbrev pub r_ppc_dtpmod32 : ℕ
r_ppc_dtpmod32 = 68

abbrev pub r_ppc_tprel16 : ℕ
r_ppc_tprel16 = 69

abbrev pub r_ppc_tprel16_lo : ℕ
r_ppc_tprel16_lo = 70

abbrev pub r_ppc_tprel16_hi : ℕ
r_ppc_tprel16_hi = 71

abbrev pub r_ppc_tprel16_ha : ℕ
r_ppc_tprel16_ha = 72

abbrev pub r_ppc_tprel32 : ℕ
r_ppc_tprel32 = 73

abbrev pub r_ppc_dtprel16 : ℕ
r_ppc_dtprel16 = 74

abbrev pub r_ppc_dtprel16_lo : ℕ
r_ppc_dtprel16_lo = 75

abbrev pub r_ppc_dtprel16_hi : ℕ
r_ppc_dtprel16_hi = 76

abbrev pub r_ppc_dtprel16_ha : ℕ
r_ppc_dtprel16_ha = 77

abbrev pub r_ppc_dtprel32 : ℕ
r_ppc_dtprel32 = 78

abbrev pub r_ppc_got_tlsgd16 : ℕ
r_ppc_got_tlsgd16 = 79

abbrev pub r_ppc_got_tlsgd16_lo : ℕ
r_ppc_got_tlsgd16_lo = 80

abbrev pub r_ppc_got_tlsgd16_hi : ℕ
r_ppc_got_tlsgd16_hi = 81

abbrev pub r_ppc_got_tlsgd16_ha : ℕ
r_ppc_got_tlsgd16_ha = 82

abbrev pub r_ppc_got_tlsld16 : ℕ
r_ppc_got_tlsld16 = 83

abbrev pub r_ppc_got_tlsld16_lo : ℕ
r_ppc_got_tlsld16_lo = 84

abbrev pub r_ppc_got_tlsld16_hi : ℕ
r_ppc_got_tlsld16_hi = 85

abbrev pub r_ppc_got_tlsld16_ha : ℕ
r_ppc_got_tlsld16_ha = 86

abbrev pub r_ppc_got_tprel16 : ℕ
r_ppc_got_tprel16 = 87

abbrev pub r_ppc_got_tprel16_lo : ℕ
r_ppc_got_tprel16_lo = 88

abbrev pub r_ppc_got_tprel16_hi : ℕ
r_ppc_got_tprel16_hi = 89

abbrev pub r_ppc_got_tprel16_ha : ℕ
r_ppc_got_tprel16_ha = 90

abbrev pub r_ppc_got_dtprel16 : ℕ
r_ppc_got_dtprel16 = 91

abbrev pub r_ppc_got_dtprel16_lo : ℕ
r_ppc_got_dtprel16_lo = 92

abbrev pub r_ppc_got_dtprel16_hi : ℕ
r_ppc_got_dtprel16_hi = 93

abbrev pub r_ppc_got_dtprel16_ha : ℕ
r_ppc_got_dtprel16_ha = 94

abbrev pub r_ppc_tlsgd : ℕ
r_ppc_tlsgd = 95

abbrev pub r_ppc_tlsld : ℕ
r_ppc_tlsld = 96

abbrev pub r_ppc_emb_sda21 : ℕ
r_ppc_emb_sda21 = 109

abbrev pub r_ppc_emb_relsda : ℕ
r_ppc_emb_relsda = 116

abbrev pub r_ppc_diab_sda21_lo : ℕ
r_ppc_diab_sda21_lo = 180

abbrev pub r_ppc_diab_sda21_hi : ℕ
r_ppc_diab_sda21_hi = 181

abbrev pub r_ppc_diab_sda21_ha : ℕ
r_ppc_diab_sda21_ha = 182

abbrev pub r_ppc_diab_relsda_lo : ℕ
r_ppc_diab_relsda_lo = 183

abbrev pub r_ppc_diab_relsda_hi : ℕ
r_ppc_diab_relsda_hi = 184

abbrev pub r_ppc_diab_relsda_ha : ℕ
r_ppc_diab_relsda_ha = 185

abbrev pub r_ppc_ghs_rel16_ha : ℕ
r_ppc_ghs_rel16_ha = 251

abbrev pub r_ppc_ghs_rel16_hi : ℕ
r_ppc_ghs_rel16_hi = 252

abbrev pub r_ppc_ghs_rel16_lo : ℕ
r_ppc_ghs_rel16_lo = 253

abbrev pub rpl_is_rpx : ℕ
rpl_is_rpx = 0x2

abbrev pub header_magic : ℕ
header_magic = 0x7f454c46
