-- ===== src/Pcie.antt =====
-- The data of val/src/acs_pcie.c: packed function numbers (val/include/bsa_acs_pcie.h), the table of
-- ECAM regions (val/include/pal_interface.h), and the platform calls that the PCIe code makes.
pub mod Bdf
pub mod Config
pub mod Ecam
pub mod Isolation
pub mod Memory
pub mod Capability
pub mod Device
pub mod Command
pub mod Next
pub mod Hierarchy
pub mod Table
pub mod Regions
pub mod Bars
pub mod Bridge
pub mod Bitfields
mod Tests
mod FunctionTests
mod BarTests
use riscv_server_soc_ts.Prelude.{
  ℕ, zero, suc, ◌+◌, ◌*◌, ◌/◌, ◌%◌, ◌^◌, Bool, ◌||◌, leb, if◌then◌else◌, Option, none, some, List,
  [], ◌∷◌, length, get_elem?, bit_or,
}
use riscv_server_soc_ts.Bits.{field, low_bits, shl32, u32_mod, u64_mod}

-- PCI_WIDTH_TYPE
pub data Width : Type 0 where
  u8 u16 u32 u64 : Width

abbrev pub bits : Width → ℕ
bits u8 = 8
bits u16 = 16
bits u32 = 32
bits u64 = 64

-- The calls into the platform layer, over a type `S` of device states. A register read has no effect
-- of its own; the functions of a bdf alone are tables of the platform.
pub record Pal (S : Type 0) : Type 0 where
  pub mmio_read : Width → ℕ → S → ℕ
  pub mmio_write : Width → ℕ → ℕ → S → S
  pub mcfg_ecam : ℕ
  pub dsdt_ptr : ℕ
  pub is_onchip_peripheral : ℕ → ℕ
  pub check_device_valid : ℕ → ℕ

-- A read returns, and a write takes, an unsigned value of its width.
unfoldable pub load : {S : Type 0} → Pal S → Width → ℕ → S → ℕ
load pal w addr s = pal.mmio_read w addr s % 2 ^ bits w

unfoldable pub store : {S : Type 0} → Pal S → Width → ℕ → ℕ → S → S
store pal w addr value s = pal.mmio_write w addr (value % 2 ^ bits w) s

-- PCIE_EXTRACT_BDF_SEG and the others, and PCIE_CREATE_BDF.
abbrev pub bdf_seg : ℕ → ℕ
bdf_seg bdf = field bdf 24 8

abbrev pub bdf_bus : ℕ → ℕ
bdf_bus bdf = field bdf 16 8

abbrev pub bdf_dev : ℕ → ℕ
bdf_dev bdf = field bdf 8 8

abbrev pub bdf_func : ℕ → ℕ
bdf_func bdf = low_bits bdf 8

unfoldable pub create_bdf : ℕ → ℕ → ℕ → ℕ → ℕ
create_bdf seg bus dev func =
    bit_or (bit_or (bit_or (shl32 seg 24) (low_bits bus 8 * 2 ^ 16)) (low_bits dev 8 * 2 ^ 8)) func

abbrev pub max_bus : ℕ
max_bus = 256

abbrev pub max_dev : ℕ
max_dev = 32

abbrev pub max_func : ℕ
max_func = 8

abbrev pub pcie_success : ℕ
pcie_success = 0

abbrev pub pcie_no_mapping : ℕ
pcie_no_mapping = 0x10000001

abbrev pub pcie_cap_not_found : ℕ
pcie_cap_not_found = 0x10000010

abbrev pub pcie_unknown_response : ℕ
pcie_unknown_response = 0xFFFFFFFF

-- PCIE_INFO_BLOCK
pub record InfoBlock : Type 0 where
  pub ecam_base : ℕ
  pub segment_num : ℕ
  pub start_bus_num : ℕ
  pub end_bus_num : ℕ

-- PCIE_INFO_TABLE: `num_entries` is the length of the list. `g_pcie_info_table` is `none` for NULL.
abbrev pub InfoTable : Type 0
InfoTable = List InfoBlock

-- PCIE_INFO_e
pub data InfoType : Type 0 where
  info_num_ecam info_mcfg_ecam info_ecam info_start_bus info_end_bus info_segment info_dsdt_ptr :
      InfoType

module _ {S : Type 0} (pal : Pal S) where
  block_info : InfoType → ℕ → InfoBlock → ℕ
  block_info info_num_ecam entries b = entries
  block_info info_mcfg_ecam entries b = pal.mcfg_ecam
  block_info info_ecam entries b = b.ecam_base
  block_info info_start_bus entries b = b.start_bus_num
  block_info info_end_bus entries b = b.end_bus_num
  block_info info_segment entries b = b.segment_num
  block_info info_dsdt_ptr entries b = pal.dsdt_ptr

  -- An index out of the table reads 0.
  unfoldable pub get_info : Option InfoTable → InfoType → ℕ → ℕ
  unfolding block_info
  get_info none type index = 0
  get_info (some table) type index = elim (get_elem? table index) [
    | none ↦ 0
    | some b ↦ block_info type (length table) b
  ]
