-- ===== src/Iommu/Layout.antt =====
-- IOMMU_INFO_TABLE of val/include/pal_interface.h in memory, in bytes of a little-endian machine. An entry
-- takes 48 bytes, and its mappings, of 16 bytes each, begin where the entry after it does.
use riscv_server_soc_ts.Prelude.{ℕ, zero, suc, ◌+◌, ◌*◌, ◌%◌, List, [], ◌∷◌}
use riscv_server_soc_ts.Iommu.{IdMap, IommuEntry}

-- The number in the `n` bytes at an address.
unfoldable pub load : (ℕ → ℕ) → ℕ → ℕ → ℕ
load memory zero a = 0
load memory (suc n) a = memory a % 256 + 256 * load memory n (a + 1)

-- ID_MAPPTING_TABLE at an address.
unfoldable pub map_at : (ℕ → ℕ) → ℕ → IdMap
map_at memory a = record {
  sourceid_base = load memory 4 a;
  numids = load memory 4 (a + 4);
  destid_base = load memory 4 (a + 8);
  destiommu_offset = load memory 4 (a + 12);
}

unfoldable pub maps_at : (ℕ → ℕ) → ℕ → ℕ → List IdMap
maps_at memory zero a = []
maps_at memory (suc n) a = map_at memory a ∷ maps_at memory n (a + 16)

-- IOMMU_INFO_ENTRY at an address, with the first `idmap_num` elements of its array.
unfoldable pub info_entry_at : (ℕ → ℕ) → ℕ → IommuEntry
info_entry_at memory a = record {
  device_type = load memory 1 (a + 4);
  iommu_offset = load memory 4 (a + 8);
  base_address = load memory 8 (a + 24);
  flags = load memory 4 (a + 32);
  pcie_seg = load memory 2 (a + 36);
  pcie_bdf = load memory 2 (a + 38);
  pcie_rc_seg = load memory 2 (a + 44);
  id_mapping_table = maps_at memory (load memory 2 (a + 42)) (a + 48);
}

unfoldable pub entries_at : (ℕ → ℕ) → ℕ → ℕ → List IommuEntry
entries_at memory zero a = []
entries_at memory (suc n) a = info_entry_at memory a ∷ entries_at memory n (a + 48)

-- IOMMU_INFO_TABLE at an address: `num_of_iommu`, and the entries from byte 8 on.
unfoldable pub table_at : (ℕ → ℕ) → ℕ → List IommuEntry
table_at memory a = entries_at memory (load memory 4 a) (a + 8)
