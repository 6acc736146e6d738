-- ===== src/Iovirt.antt =====
-- val/src/acs_iovirt.c: the table of IO virtualisation nodes (IOVIRT_INFO_TABLE of
-- val/include/pal_interface.h), its getters for SMMUs, root complexes and ITS groups, and the way from
-- the id of a requester to the ids of its stream and its device.
pub mod Nodes
pub mod Ranges
pub mod Device
pub mod Its
mod Tests
use riscv_server_soc_ts.Prelude.{
  ℕ, zero, suc, ◌+◌, ◌/◌, ◌%◌, ◌-◌, ◌^◌, Bool, ◌&&◌, ◌||◌, ◌==◌, ltb, leb, if◌then◌else◌, Option,
  none, some, List, [], ◌∷◌, get_elem?,
}
use riscv_server_soc_ts.Bits.{add32, sub32, u32_mod}
use riscv_server_soc_ts.Session.{acs_status_err}

-- ID_MAP
pub record NodeMap : Type 0 where
  pub input_base : ℕ
  pub id_count : ℕ
  pub output_base : ℕ
  pub output_ref : ℕ

-- IOVIRT_BLOCK, with its address and the members of its union `data` that are read. `num_data_map` is
-- the length of the list.
pub record IovirtBlock : Type 0 where
  pub address : ℕ
  pub type : ℕ
  pub segment : ℕ
  pub ats_attr : ℕ
  pub cca : ℕ
  pub its_count : ℕ
  pub arch_major_rev : ℕ
  pub smmu_base : ℕ
  pub data_map : List NodeMap

-- IOVIRT_INFO_TABLE: `num_blocks` is the length of the list, and `block_at` is the block at an offset
-- from the beginning of the table.
pub record IovirtInfo : Type 0 where
  pub num_smmus : ℕ
  pub num_pci_rcs : ℕ
  pub num_its_groups : ℕ
  pub blocks : List IovirtBlock
  pub block_at : ℕ → IovirtBlock

abbrev pub IovirtTable : Type 0
IovirtTable = Option IovirtInfo

abbrev pub node_its_group : ℕ
node_its_group = 0

abbrev pub node_pci_root_complex : ℕ
node_pci_root_complex = 2

abbrev pub node_smmu : ℕ
node_smmu = 3

abbrev pub node_smmu_v3 : ℕ
node_smmu_v3 = 4

unfoldable pub is_smmu : IovirtBlock → Bool
is_smmu b = b.type == node_smmu || b.type == node_smmu_v3

unfoldable pub is_complex : IovirtBlock → Bool
is_complex b = b.type == node_pci_root_complex

unfoldable pub is_its : IovirtBlock → Bool
is_its b = b.type == node_its_group

-- The loop of the getters over the blocks, with `j` nodes of the kind before: the member of the node
-- `index` of the kind.
module _ (is_node : IovirtBlock → Bool) (member : IovirtBlock → ℕ) (index : ℕ) where
  unfoldable pub node_loop : ℕ → List IovirtBlock → ℕ
  node_loop j [] = if ltb (sub32 j 1) index then 0 else j
  node_loop j (b ∷ bs) =
      let counted = node_loop (add32 j 1) bs in
      let passed = node_loop j bs in
      if is_node b then (if j == index then member b else counted) else passed

-- SMMU_INFO_e; the last stands for the values that have no case.
pub data SmmuInfo : Type 0 where
  smmu_num_ctrl smmu_ctrl_base smmu_ctrl_arch_major_rev smmu_iovirt_block smmu_other : SmmuInfo

unfoldable pub smmu_member : SmmuInfo → IovirtBlock → ℕ
smmu_member smmu_num_ctrl b = 0
smmu_member smmu_ctrl_base b = b.smmu_base
smmu_member smmu_ctrl_arch_major_rev b = b.arch_major_rev
smmu_member smmu_iovirt_block b = b.address
smmu_member smmu_other b = 0

unfoldable pub get_smmu_info : IovirtTable → SmmuInfo → ℕ → ℕ
get_smmu_info none type index = 0
get_smmu_info (some t) smmu_num_ctrl index = t.num_smmus
get_smmu_info (some t) type index = node_loop is_smmu (smmu_member type) index 0 t.blocks

-- PCIE_RC_INFO_e; the last stands for the values that have no case.
pub data RcInfo : Type 0 where
  num_pcie_rc rc_segment_num rc_mem_attribute rc_ats_attribute rc_iovirt_block rc_other : RcInfo

unfoldable pub rc_member : RcInfo → IovirtBlock → ℕ
rc_member num_pcie_rc b = 0
rc_member rc_segment_num b = b.segment
rc_member rc_mem_attribute b = b.cca
rc_member rc_ats_attribute b = b.ats_attr
rc_member rc_iovirt_block b = b.address
rc_member rc_other b = 0

unfoldable pub get_pcie_rc_info : IovirtTable → RcInfo → ℕ → ℕ
get_pcie_rc_info none type index = 0
get_pcie_rc_info (some t) num_pcie_rc index = t.num_pci_rcs
get_pcie_rc_info (some t) type index = node_loop is_complex (rc_member type) index 0 t.blocks

-- `data_map[0].id[it]`: the words of the mappings, one after the other.
abbrev pub map_word : ℕ → NodeMap → ℕ
map_word k m =
    if k == 0
    then m.input_base
    else if k == 1
    then m.id_count
    else if k == 2
    then m.output_base
    else m.output_ref

unfoldable pub id_word : IovirtBlock → ℕ → ℕ
id_word b it = elim (get_elem? b.data_map (it / 4)) [ none ↦ 0 | some m ↦ map_word (it % 4) m ]

abbrev pub covers : NodeMap → ℕ → Bool
covers m id = leb m.input_base id && leb id (add32 m.input_base m.id_count)

-- The inner loop: the first mapping with the id in its range.
unfoldable pub first_map : ℕ → List NodeMap → Option NodeMap
first_map id [] = none
first_map id (m ∷ ms) = let rest = first_map id ms in if covers m id then some m else rest

-- The id that a mapping gives.
unfoldable pub map_id : NodeMap → ℕ → ℕ
map_id m id = add32 (sub32 id m.input_base) m.output_base

-- The loop over the blocks, of which the inner `break` does not leave it; `found` is the mapping so
-- far.
unfoldable pub rc_loop : ℕ → ℕ → Option NodeMap → List IovirtBlock → Option NodeMap
rc_loop rid segment found [] = found
rc_loop rid segment found (b ∷ bs) =
    let kept = rc_loop rid segment found bs in
    if is_complex b && b.segment == segment
    then (elim (first_map rid b.data_map) [
      | none ↦ kept
      | some m ↦ rc_loop rid segment (some m) bs
    ])
    else kept

-- What `device_id`, `stream_id` and `its_id` point at.
pub record DeviceIds : Type 0 where
  pub device_id : ℕ
  pub stream_id : ℕ
  pub its_id : ℕ

unfoldable pub its_of : IovirtBlock → ℕ
its_of b = if is_its b then id_word b 0 else 0

-- From the block that the root complex's mapping refers to on.
unfoldable pub route : IovirtInfo → ℕ → IovirtBlock → DeviceIds → ℕ × DeviceIds
route t id b old =
    let direct : DeviceIds = record {
      device_id = id;
      stream_id = u32_mod - 1;
      its_id = id_word b 0;
    } in
    let translated = elim (first_map id b.data_map) as (λ o. ℕ × DeviceIds) [
      | none ↦ (acs_status_err, old)
      | some m ↦ (
        0,
        record {
          device_id = map_id m id;
          stream_id = id;
          its_id = its_of (t.block_at m.output_ref);
        },
      )
    ] in
    if is_its b then (0, direct) else if is_smmu b then translated else (acs_status_err, old)

-- `val_iovirt_get_device_info` with no NULL among the pointers: the status, and what they point at
-- when they pointed at `old` before.
unfoldable pub get_device_info : IovirtTable → ℕ → ℕ → DeviceIds → ℕ × DeviceIds
get_device_info none rid segment old = (acs_status_err, old)
get_device_info (some t) rid segment old = elim (rc_loop rid segment none t.blocks) [
  | none ↦ (acs_status_err, old)
  | some m ↦ route t (map_id m rid) (t.block_at m.output_ref) old
]
