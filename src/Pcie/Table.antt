-- ===== src/Pcie/Table.antt =====
-- The creation of the table of functions (val/src/acs_pcie.c, `val_pcie_create_device_bdf_table`).
-- What it prints is left out.
pub mod Contents
mod Tests
use riscv_server_soc_ts.Prelude.{
  ℕ, zero, suc, ◌+◌, ◌-◌, Bool, not, ◌==◌, ◌!=◌, if◌then◌else◌, Option, none, some, List, [], ◌∷◌,
  ◌++◌, map, leb, length,
}
use riscv_server_soc_ts.Pcie.{
  Pal, InfoTable, get_info, info_num_ecam, info_start_bus, info_end_bus, info_segment, create_bdf,
  max_dev, max_func, pcie_no_mapping, pcie_unknown_response,
}
use riscv_server_soc_ts.Pcie.Config.{read_cfg}
use riscv_server_soc_ts.Pcie.Capability.{pcie_cap, find_capability}
use riscv_server_soc_ts.Pcie.Device.{enable_bme, enable_msa, is_host_bridge}
use riscv_server_soc_ts.Pcie.Hierarchy.{get_rootport}

-- The three inner loops: the functions of buses `bus`, `bus + 1`, … in the order they are visited.
unfoldable pub funcs : ℕ → ℕ → ℕ → ℕ → ℕ → List ℕ
funcs zero seg bus dev func = []
funcs (suc n) seg bus dev func = create_bdf seg bus dev func ∷ funcs n seg bus dev (func + 1)

unfoldable pub devs : ℕ → ℕ → ℕ → ℕ → List ℕ
devs zero seg bus dev = []
devs (suc n) seg bus dev = funcs max_func seg bus dev 0 ++ devs n seg bus (dev + 1)

unfoldable pub buses : ℕ → ℕ → ℕ → List ℕ
buses zero seg bus = []
buses (suc n) seg bus = devs max_dev seg bus 0 ++ buses n seg (bus + 1)

-- What the loop body makes of a function, with the device state that it leaves.
pub data Probe (S : Type 0) : Type 0 where
  unmapped : Probe S
  passed_over : S → Probe S
  recorded : S → Probe S

-- The entries that PCIE_DEVICE_BDF_TABLE_SZ, 8192 bytes, has room for after the count of 4 bytes: an
-- entry takes 8.
abbrev pub bdf_table_room : ℕ
bdf_table_room = 1023

module _ {S : Type 0} (pal : Pal S) (info : Option InfoTable) (fuel junk : ℕ)
    (target_linux : Bool) where
  -- The functions of the regions from `ecam_index` on, with `n` regions left.
  unfoldable pub functions : ℕ → ℕ → List ℕ
  functions zero ecam_index = []
  functions (suc n) ecam_index =
      let seg_num = get_info pal info info_segment ecam_index in
      let start_bus = get_info pal info info_start_bus ecam_index in
      let end_bus = get_info pal info info_end_bus ecam_index in
      buses (end_bus + 1 - start_bus) seg_num start_bus ++ functions n (ecam_index + 1)

  -- The end of the body, after the switches: legacy PCI and invalid devices are passed over.
  unfoldable pub probe_device : ℕ → S → Option (Probe S)
  probe_device bdf s = elim (find_capability pal info fuel junk bdf pcie_cap 0x10 junk s) [
    | none ↦ none
    | some (p_cap, _) ↦ some (
        if p_cap != 0
        then passed_over s
        else if pal.check_device_valid bdf != 0
        then passed_over s
        else recorded s)
  ]

  unfoldable pub probe : ℕ → S → Option (Probe S)
  probe bdf s =
      let (status, reg_value) = read_cfg pal info bdf 0 junk s in
      let enabled = enable_msa pal info fuel junk bdf (enable_bme pal info fuel junk bdf s) in
      if status == pcie_no_mapping
      then some unmapped
      else if reg_value == pcie_unknown_response
      then some (passed_over s)
      else if is_host_bridge pal info fuel junk bdf s != 0
      then some (passed_over s)
      else probe_device bdf (if target_linux then s else enabled)

  -- The loops: the status, the functions recorded after those of `table`, and the device state. A
  -- function beyond the room of the table is written past its memory: that is `none`, too.
  unfoldable pub record_functions : List ℕ → List ℕ → S → Option (ℕ × List ℕ × S)
  record_functions [] table s = some (0, table, s)
  record_functions (bdf ∷ bdfs) table s = elim (probe bdf s) [
    | none ↦ none
    | some unmapped ↦ some (1, table, s)
    | some (passed_over s') ↦ record_functions bdfs table s'
    | some (recorded s') ↦
        let rest = record_functions bdfs (table ++ bdf ∷ []) s' in
        if leb bdf_table_room (length table) then none else rest
  ]

  -- `val_pcie_populate_device_rootport` for the entries `bdfs` of the table: each with its `rp_bdf`.
  unfoldable pub populate_device_rootport : List ℕ → List ℕ → S → Option (List (ℕ × ℕ))
  populate_device_rootport table [] s = some []
  populate_device_rootport table (bdf ∷ bdfs) s =
      elim (get_rootport pal info fuel junk bdf table s) [
        | none ↦ none
        | some (_, rp_bdf) ↦ elim (populate_device_rootport table bdfs s) [
          | none ↦ none
          | some rest ↦ some ((bdf, rp_bdf) ∷ rest)
        ]
      ]

  -- An entry of which `rp_bdf` is not set yet.
  abbrev pub unset : ℕ → ℕ × ℕ
  unset bdf = (bdf, junk)

  -- From `g_pcie_bdf_table`, `none` for NULL, and whether the allocation succeeds: the status, the
  -- pointer afterwards and the device state.
  unfoldable pub create_device_bdf_table :
      Option (List (ℕ × ℕ)) → Bool → S → Option (ℕ × Option (List (ℕ × ℕ)) × S)
  create_device_bdf_table (some table) allocated s = some (0, some table, s)
  create_device_bdf_table none allocated s =
      let num_ecam = get_info pal info info_num_ecam 0 in
      if not allocated
      then some (1, none, s)
      else if num_ecam == 0
      then some (1, some [], s)
      else elim (record_functions (functions num_ecam 0) [] s) [
        | none ↦ none
        | some (status, table, s') ↦
            if status != 0
            then some (status, some (map unset table), s')
            else elim (populate_device_rootport table table s') [
              | none ↦ none
              | some entries ↦ some (0, some entries, s')
            ]
      ]
