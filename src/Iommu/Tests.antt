-- ===== src/Iommu/Tests.antt =====
-- Concrete uses of the theorems on the IOMMU table: two IOMMUs, and a root complex of segment 0 with
-- a mapping to each.
use riscv_server_soc_ts.Prelude.{
  ℕ, ◌+◌, ◌*◌, arith, some, List, if◌then◌else◌, ◌==◌, ◌||◌, [], ◌∷◌, ◌≡◌, refl,
}
use riscv_server_soc_ts.Pcie.{create_bdf}
use riscv_server_soc_ts.Iommu.{IdMap, IommuEntry, check_governing_iommu}
use riscv_server_soc_ts.Iommu.Layout.{table_at, entries_at, info_entry_at, maps_at, map_at, load}
use riscv_server_soc_ts.Iommu.Governing.{IsGoverned, check_governing_iommu_takes}

-- The bytes of a table of three entries, at addresses 8, 56 and 104. The mappings of the last begin
-- behind it, at 152.
abbrev image : ℕ → ℕ
image a =
    if a == 0
    then 3
    else if a == 16 || a == 164
    then 40
    else if a == 64 || a == 180
    then 80
    else if a == 108
    then 1
    else if a == 146
    then 2
    else if a == 156 || a == 172
    then 0xFF
    else if a == 157 || a == 173
    then 7
    else if a == 169
    then 8
    else 0

abbrev nodes : List IommuEntry
nodes = table_at image 0

abbrev low_map : IdMap
low_map = record { sourceid_base = 0; numids = 0x7FF; destid_base = 0; destiommu_offset = 40 }

abbrev high_map : IdMap
high_map = record { sourceid_base = 0x800; numids = 0x7FF; destid_base = 0; destiommu_offset = 80 }

abbrev iommu_at : ℕ → IommuEntry
iommu_at offset = record {
  device_type = 0;
  iommu_offset = offset;
  base_address = 0;
  flags = 0;
  pcie_seg = 0;
  pcie_bdf = 0;
  pcie_rc_seg = 0;
  id_mapping_table = [];
}

abbrev root_complex : IommuEntry
root_complex = record (iommu_at 0) { device_type = 1; id_mapping_table = low_map ∷ high_map ∷ [] }

abbrev entries : List IommuEntry
entries = iommu_at 40 ∷ iommu_at 80 ∷ root_complex ∷ []

-- The bytes are those of the two IOMMUs and the root complex.
table_at-entries : nodes ≡ entries
unfolding table_at entries_at info_entry_at maps_at map_at load
table_at-entries = refl

check_governing_iommu_takes_example :
    IsGoverned 0
      (9 * 256 + 2 * 8 + 1)
      7
      nodes
      (check_governing_iommu (some nodes) (create_bdf 0 9 2 1) 7)
check_governing_iommu_takes_example =
    check_governing_iommu_takes nodes 0 9 2 1 7 (omega arith) (omega arith) (omega arith)
      (omega arith)
