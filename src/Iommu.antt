-- ===== src/Iommu.antt =====
-- val/src/acs_iommu.c: the table of IOMMUs and root complexes (IOMMU_INFO_TABLE of
-- val/include/pal_interface.h), its getters, and the search for the IOMMU that governs a function.
pub mod Rid
pub mod Layout
pub mod Governing
pub mod Registers
pub mod Access
mod Tests
mod AccessTests
use riscv_server_soc_ts.Prelude.{
  ℕ, ◌+◌, ◌*◌, ◌/◌, ◌%◌, ◌^◌, Bool, ◌==◌, ◌!=◌, leb, if◌then◌else◌, Option, none, some, List, [],
  ◌∷◌, length, get_elem?, bit_or,
}
use riscv_server_soc_ts.Bits.{field, low_bits, add32, shl32}
use riscv_server_soc_ts.Pcie.{bdf_seg, bdf_bus, bdf_dev, bdf_func}

-- ID_MAPPTING_TABLE
pub record IdMap : Type 0 where
  pub sourceid_base : ℕ
  pub numids : ℕ
  pub destid_base : ℕ
  pub destiommu_offset : ℕ

-- IOMMU_INFO_ENTRY, as it is read: `id_mapping_table` has the first `idmap_num` elements of the entry's
-- array. In memory the array lies over the entries that follow: Layout reads the entries of a memory.
-- The functions only read, and take every list of entries, those of every memory among them.
pub record IommuEntry : Type 0 where
  pub device_type : ℕ
  pub iommu_offset : ℕ
  pub base_address : ℕ
  pub flags : ℕ
  pub pcie_seg : ℕ
  pub pcie_bdf : ℕ
  pub pcie_rc_seg : ℕ
  pub id_mapping_table : List IdMap

abbrev pub device_type_iommu : ℕ
device_type_iommu = 0

abbrev pub device_type_root_complex : ℕ
device_type_root_complex = 1

-- `num_of_iommu` is the length of the list, and `none` stands for NULL.
abbrev pub IommuTable : Type 0
IommuTable = Option (List IommuEntry)

unfoldable pub get_num : IommuTable → ℕ
get_num none = 0
get_num (some entries) = length entries

-- An index out of a table reads 0.
unfoldable pub get_idmap_num : IommuTable → ℕ → ℕ
get_idmap_num none index = 0
get_idmap_num (some entries) index = elim (get_elem? entries index) [
  | none ↦ 0
  | some e ↦ length e.id_mapping_table
]

-- IOMMU_INFO_e
pub data IommuInfo : Type 0 where
  info_type info_base_address info_flags info_pcie_seg info_pcie_bdf info_iommu_offset : IommuInfo

unfoldable pub entry_info : IommuInfo → IommuEntry → ℕ
entry_info info_type e = e.device_type
entry_info info_base_address e = e.base_address
entry_info info_flags e = e.flags
entry_info info_pcie_seg e = e.pcie_seg
entry_info info_pcie_bdf e = e.pcie_bdf
entry_info info_iommu_offset e = e.iommu_offset

unfoldable pub get_info : IommuTable → ℕ → IommuInfo → ℕ
get_info none index type = 0
get_info (some entries) index type = elim (get_elem? entries index) [
  | none ↦ 0
  | some e ↦ entry_info type e
]

-- PCIERC_PLATFORM_INFO_e
pub data PciercInfo : Type 0 where
  info_rc_seg info_source_id_base info_num_ids info_dest_id_base info_dest_iommu_offset : PciercInfo

unfoldable pub map_info : PciercInfo → IdMap → ℕ
map_info info_rc_seg m = 0
map_info info_source_id_base m = m.sourceid_base
map_info info_num_ids m = m.numids
map_info info_dest_id_base m = m.destid_base
map_info info_dest_iommu_offset m = m.destiommu_offset

unfoldable pub pcierc_info : PciercInfo → ℕ → IommuEntry → ℕ
pcierc_info info_rc_seg idmap_index e = e.pcie_rc_seg
pcierc_info type idmap_index e = elim (get_elem? e.id_mapping_table idmap_index) [
  | none ↦ 0
  | some m ↦ map_info type m
]

unfoldable pub get_pcierc_platform_info : IommuTable → ℕ → ℕ → PciercInfo → ℕ
get_pcierc_platform_info none index idmap_index type = 0
get_pcierc_platform_info (some entries) index idmap_index type = elim (get_elem? entries index) [
  | none ↦ 0
  | some e ↦ pcierc_info type idmap_index e
]

-- The conversions between function numbers and the ids bus << 8 | dev << 3 | func.
unfoldable pub rid_of_bdf : ℕ → ℕ
rid_of_bdf bdf = bit_or (bit_or (bdf_bus bdf * 2 ^ 8) (bdf_dev bdf * 2 ^ 3)) (bdf_func bdf) % 2 ^ 16

unfoldable pub bdf_of_rid : ℕ → ℕ → ℕ
bdf_of_rid pcie_seg pcie_bdf =
    bit_or
      (bit_or (bit_or (shl32 pcie_seg 24) (field pcie_bdf 8 8 * 2 ^ 16))
        (field pcie_bdf 3 5 * 2 ^ 8))
      (low_bits pcie_bdf 3)

-- The loop of `val_iommu_check_governing_iommu_offset`, from index `i` on: the result, and
-- `**iommu_index`, which held `old`.
unfoldable pub check_governing_iommu_offset : ℕ → ℕ → ℕ → List IommuEntry → ℕ × ℕ
check_governing_iommu_offset destiommu_offset i old [] = (0, old)
check_governing_iommu_offset destiommu_offset i old (e ∷ es) =
    let rest = check_governing_iommu_offset destiommu_offset (i + 1) old es in
    if e.device_type == device_type_iommu
    then (if destiommu_offset == e.iommu_offset then (1, i) else rest)
    else rest

-- The inner loop of `val_iommu_check_governing_iommu`: the first mapping that is taken.
unfoldable pub take_idmap : ℕ → List IdMap → Option IdMap
take_idmap prid [] = none
take_idmap prid (m ∷ ms) =
    if leb prid (add32 m.sourceid_base m.numids) then some m else take_idmap prid ms

-- The outer loop; `all` is the whole table.
unfoldable pub governing_loop : ℕ → ℕ → ℕ → List IommuEntry → List IommuEntry → ℕ × ℕ
governing_loop segment prid old all [] = (0, old)
governing_loop segment prid old all (e ∷ es) =
    let rest = governing_loop segment prid old all es in
    if e.device_type == device_type_root_complex
    then (if e.pcie_rc_seg != segment then rest else elim (take_idmap prid e.id_mapping_table) [
      | none ↦ rest
      | some m ↦ check_governing_iommu_offset m.destiommu_offset 0 old all
    ])
    else rest

-- The result, and `*iommu_index`, which held `old`.
unfoldable pub check_governing_iommu : IommuTable → ℕ → ℕ → ℕ × ℕ
check_governing_iommu none bdf old = (0, old)
check_governing_iommu (some entries) bdf old =
    governing_loop (bdf_seg bdf) (rid_of_bdf bdf) old entries entries
