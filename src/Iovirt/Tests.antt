-- ===== src/Iovirt/Tests.antt =====
-- Uses of the theorems on the table of IO virtualisation nodes: a root complex with a mapping to an
-- SMMU, which has one to a group of two interrupt translation services.
use riscv_server_soc_ts.Prelude.{
  ℕ, ◌+◌, ◌<◌, ◌≡◌, ◌≢◌, refl, arith, inr, some, [], ◌∷◌, ◌==◌, if◌then◌else◌, zero, suc,
}
use riscv_server_soc_ts.Iovirt.{
  NodeMap, IovirtBlock, IovirtInfo, is_smmu, is_complex, is_its, get_smmu_info, smmu_ctrl_base,
  smmu_member, get_pcie_rc_info, rc_segment_num, rc_member, DeviceIds, get_device_info, its_of,
  id_word,
}
use riscv_server_soc_ts.Iovirt.Nodes.{member_of, get_smmu_info-nodes}
use riscv_server_soc_ts.Iovirt.Ranges.{IsFirstMap}
use riscv_server_soc_ts.Iovirt.Device.{IsLastMap, get_device_info_translates}
use riscv_server_soc_ts.Iovirt.Its.{
  get_its_info, its_get_blk_index_for_id, its_get_id_for_blk_index, get_its_info_round,
}

abbrev block : ℕ → IovirtBlock
block kind = record {
  address = 0x1000 + kind;
  type = kind;
  segment = 1;
  ats_attr = 0;
  cca = 1;
  its_count = 2;
  arch_major_rev = 3;
  smmu_base = 0x2B400000;
  data_map = [];
}

abbrev range : ℕ → ℕ → ℕ → NodeMap
range base output ref = record {
  input_base = base;
  id_count = 0xFFFF;
  output_base = output;
  output_ref = ref;
}

abbrev its : IovirtBlock
its = record (block 0) { data_map = range 7 9 0 ∷ [] }

abbrev smmu : IovirtBlock
smmu = record (block 4) { data_map = range 0x10000 0x30000 24 ∷ [] }

abbrev complex : IovirtBlock
complex = record (block 2) { data_map = range 0 0x10000 200 ∷ [] }

abbrev info : IovirtInfo
info = record {
  num_smmus = 1;
  num_pci_rcs = 1;
  num_its_groups = 1;
  blocks = its ∷ smmu ∷ complex ∷ [];
  block_at = λ offset. if offset == 200 then smmu else its;
}

get_smmu_info-nodes_example :
    (get_smmu_info (some info) smmu_ctrl_base 0
      ≡ member_of (smmu_member smmu_ctrl_base) (some smmu))
    × (get_pcie_rc_info (some info) rc_segment_num 0
        ≡ member_of (rc_member rc_segment_num) (some complex))
unfolding is_smmu is_complex
get_smmu_info-nodes_example =
    get_smmu_info-nodes info 0 smmu_ctrl_base rc_segment_num (omega arith) (λ e. cc) (λ e. cc)

complex-IsFirstMap : IsFirstMap 0x0100 complex.data_map (range 0 0x10000 200)
complex-IsFirstMap = record {
  before = [];
  after = [];
  split = refl;
  passed = tt;
  here = (omega arith, omega arith);
  fits = (omega arith, tt);
  fits_out = omega arith;
}

complex-IsLastMap : IsLastMap 0x0100 1 info.blocks (range 0 0x10000 200)
complex-IsLastMap = record {
  before = its ∷ smmu ∷ [];
  after = [];
  complex = complex;
  split = refl;
  of_segment = (refl, refl);
  first = complex-IsFirstMap;
  later = tt;
}

smmu-IsFirstMap : IsFirstMap 0x10100 smmu.data_map (range 0x10000 0x30000 24)
smmu-IsFirstMap = record {
  before = [];
  after = [];
  split = refl;
  passed = tt;
  here = (omega arith, omega arith);
  fits = (omega arith, tt);
  fits_out = omega arith;
}

abbrev unset : DeviceIds
unset = record { device_id = 1; stream_id = 2; its_id = 3 }

get_device_info_translates_example :
    get_device_info (some info) 0x0100 1 unset
    ≡ (0, record { device_id = 0x30100; stream_id = 0x10100; its_id = its_of its })
get_device_info_translates_example =
    get_device_info_translates 0x0100 1 info (range 0 0x10000 200) (range 0x10000 0x30000 24) unset
      complex-IsLastMap (inr refl) smmu-IsFirstMap

id-fresh : (i : ℕ) → i < 1 → id_word its i ≢ id_word its 1
unfolding id_word
id-fresh zero lt e = omega arith
id-fresh (suc i) lt e = omega arith

get_its_info_round_example :
    (get_its_info (some info) its_get_blk_index_for_id 0 (id_word its 1) 5 ≡ (0, 1))
    × (get_its_info (some info) its_get_id_for_blk_index 0 1 6 ≡ (0, id_word its 1))
unfolding is_its
get_its_info_round_example =
    get_its_info_round info 0 1 5 6 its (omega arith) refl (omega arith) id-fresh
