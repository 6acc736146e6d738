-- ===== src/Iommu/Registers.antt =====
-- The access to a register of an IOMMU (val/src/acs_iommu.c: `val_iommu_read_iommu_reg` and
-- `val_iommu_write_iommu_reg`), through memory or through the first memory BAR of a PCIe function.
use riscv_server_soc_ts.Prelude.{
  ℕ, ◌+◌, ◌*◌, ◌/◌, ◌^◌, Bool, true, false, ◌||◌, ◌==◌, ltb, if◌then◌else◌, Option, none, some,
  bit_or,
}
use riscv_server_soc_ts.Bits.{low_bits, add64}
use riscv_server_soc_ts.Pcie.{Pal, u32, u64, load, store, InfoTable}
use riscv_server_soc_ts.Pcie.Bars.{get_mmio_bar}
use riscv_server_soc_ts.Iommu.{
  IommuTable, device_type_iommu, get_info, info_type, info_base_address, info_flags, info_pcie_seg,
  info_pcie_bdf, bdf_of_rid,
}

-- The platform calls of the two functions: the mapping of a memory range, the 32-bit accesses to the
-- BAR space of a function, and those of `val_pcie_get_mmio_bar`.
pub record BarPal (S : Type 0) : Type 0 where
  pub map_mmio : ℕ → ℕ → S → S
  pub bar_mem_read : ℕ → ℕ → S → ℕ
  pub bar_mem_write : ℕ → ℕ → ℕ → S → S
  pub is_exerciser : ℕ → Bool
  pub exerciser_base : ℕ → ℕ → ℕ

-- `pcie_seg` and `pcie_bdf` have 16 bits.
unfoldable pub iommu_bdf : IommuTable → ℕ → ℕ
iommu_bdf table index =
    bdf_of_rid (low_bits (get_info table index info_pcie_seg) 16)
      (low_bits (get_info table index info_pcie_bdf) 16)

abbrev pub is_null : IommuTable → Bool
is_null none = true
is_null (some _) = false

-- `rounds` is for the search for the region of an exerciser; `none` is one that has not ended.
module _ {S : Type 0} (pal : Pal S) (bars : BarPal S) (info : Option InfoTable)
    (fuel junk rounds : ℕ) (table : IommuTable) where
  abbrev pub bar_base : ℕ → S → Option ℕ
  bar_base index s =
      get_mmio_bar pal info fuel junk bars.is_exerciser bars.exerciser_base rounds
        (iommu_bdf table index) 0 s

  -- The 32 bits at an address of the BAR space.
  abbrev bar_word : ℕ → ℕ → S → ℕ
  bar_word index addr s = low_bits (bars.bar_mem_read (iommu_bdf table index) addr s) 32

  -- There is no table, or the offset or the number of words is out of range.
  unfoldable pub is_refused : ℕ → ℕ → Bool
  is_refused offset num = is_null table || (ltb 1024 offset || ltb 2 num)

  -- An index out of the table reads as type 0, an IOMMU.
  unfoldable pub is_iommu : ℕ → Bool
  is_iommu index = get_info table index info_type == device_type_iommu

  unfoldable pub read_mmio : ℕ → ℕ → ℕ → S → ℕ × S
  read_mmio index offset num s =
      let base = get_info table index info_base_address in
      let s' = bars.map_mmio base 0x1000 s in
      (
        if num == 1
            then load pal u32 (add64 base offset) s'
            else if num == 2
            then load pal u64 (add64 base offset) s'
            else 0,
        s',
      )

  unfoldable pub read_bar : ℕ → ℕ → ℕ → ℕ → S → ℕ
  read_bar index offset num base s =
      let datalow = bar_word index (add64 base offset) s in
      let datahigh = bar_word index (add64 base (offset + 4)) s in
      if num == 1 then datalow else if num == 2 then bit_or (datahigh * 2 ^ 32) datalow else 0

  unfoldable pub read_iommu_reg : ℕ → ℕ → ℕ → S → Option (ℕ × S)
  read_iommu_reg index offset num s =
      if is_refused offset num
      then some (0, s)
      else if is_iommu index
      then (if low_bits (get_info table index info_flags) 1 == 0
          then some (read_mmio index offset num s)
          else elim (bar_base index s) [
            | none ↦ none
            | some base ↦ some (read_bar index offset num base s, s)
          ])
      else some (0, s)

  unfoldable pub write_mmio : ℕ → ℕ → ℕ → ℕ → S → S
  write_mmio index offset num value s =
      let base = get_info table index info_base_address in
      let s' = bars.map_mmio base 0x1000 s in
      if num == 1
      then store pal u32 (add64 base offset) value s'
      else if num == 2
      then store pal u64 (add64 base offset) value s'
      else s'

  unfoldable pub write_bar : ℕ → ℕ → ℕ → ℕ → ℕ → S → S
  write_bar index offset num base value s =
      let bdf = iommu_bdf table index in
      let low = bars.bar_mem_write bdf (add64 base offset) (low_bits value 32) s in
      if num == 1
      then low
      else if num == 2
      then bars.bar_mem_write bdf (add64 base (offset + 4)) (low_bits (value / 2 ^ 32) 32) low
      else s

  unfoldable pub write_iommu_reg : ℕ → ℕ → ℕ → ℕ → S → Option S
  write_iommu_reg index offset num value s =
      if is_refused offset num
      then some s
      else if is_iommu index
      then (if low_bits (get_info table index info_flags) 1 == 0
          then some (write_mmio index offset num value s)
          else elim (bar_base index s) [
            | none ↦ none
            | some base ↦ some (write_bar index offset num base value s)
          ])
      else some s
