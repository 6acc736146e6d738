-- ===== src/Smmu/Master.antt =====
-- The masters of the SMMUs (val/sys_arch_src/smmu_v3/smmu_v3.c): the list of them, `val_smmu_map` and
-- `val_smmu_unmap`.
use riscv_server_soc_ts.Prelude.{
  ℕ, zero, suc, ◌+◌, ◌^◌, Bool, true, false, not, ◌&&◌, ◌==◌, leb, if◌then◌else◌, Option, none,
  some, List, [], ◌∷◌, bit_or,
}
use riscv_server_soc_ts.Bits.{low_bits, add64}
use riscv_server_soc_ts.Smmu.{SmmuPal, SmmuDev, bitfield_set, set_at}
use riscv_server_soc_ts.Smmu.Config.{Master, smmu_stage_s1, smmu_stage_s2, write_ste}
use riscv_server_soc_ts.Smmu.Command.{tlbi_cfgi}
use riscv_server_soc_ts.Smmu.Stream.{get_ste_for_sid, strtab_init_level2, linear_offset}
use riscv_server_soc_ts.Smmu.Context.{no_leaf, cdtab_alloc, cdtab_free, write_ctx_desc}

-- smmu_master_attributes_t
pub record MasterAttributes : Type 0 where
  pub smmu_index : ℕ
  pub streamid : ℕ
  pub substreamid : ℕ
  pub ssid_bits : ℕ
  pub stage2 : Bool

-- pgt_descriptor_t, with the members of `tcr`.
pub record MapDescriptor : Type 0 where
  pub pgt_base : ℕ
  pub mair : ℕ
  pub ps : ℕ
  pub tg : ℕ
  pub sh : ℕ
  pub orgn : ℕ
  pub irgn : ℕ
  pub tsz : ℕ
  pub sl : ℕ

-- `g_num_smmus`, `g_smmu` with the number of its array, the arrays before it as they were when it took
-- their place, and the list of masters.
pub record Driver : Type 0 where
  pub num_smmus : ℕ
  pub is_present : Bool
  pub devs : ℕ → SmmuDev
  pub array : ℕ
  pub past : ℕ → ℕ → SmmuDev
  pub masters : List Master

-- The contents of memory that was cleared.
abbrev pub cleared_master : Master
cleared_master = record {
  smmu = none;
  stage = smmu_stage_s1;
  stage1_config = record {
    cdcfg = record {
      cdtab_ptr = 0;
      cdtab64 = 0;
      cdtab_phys = 0;
      l1_desc = 0;
      l1_descs = λ i. no_leaf;
      l1_ent_count = 0;
    };
    cd = record { asid = 0; ttbr = 0; tcr = 0; mair = 0 };
    s1fmt = 0;
    s1cdmax = 0;
  };
  stage2_config = record { vmid = 0; vttbr = 0; vtcr = 0 };
  sid = 0;
  ssid = 0;
  ssid_bits = 0;
}

-- The first master of a stream, by its index in the list.
unfoldable pub find_master : ℕ → List Master → Option (ℕ × Master)
find_master sid [] = none
find_master sid (m ∷ ms) =
    let rest = find_master sid ms in
    if m.sid == sid
    then some (0, m)
    else elim rest [ none ↦ none | some (i, found) ↦ some (i + 1, found) ]

unfoldable pub replace : ℕ → Master → List Master → List Master
replace i m [] = []
replace zero m (_ ∷ ms) = m ∷ ms
replace (suc i) m (k ∷ ms) = k ∷ replace i m ms

abbrev pub with_dev : Driver → ℕ → SmmuDev → Driver
with_dev d i smmu = record d { devs = set_at i smmu d.devs }

-- What a pointer of a master points to.
abbrev pub dev_at : Driver → ℕ × ℕ → SmmuDev
dev_at d (array, i) = if array == d.array then d.devs i else d.past array i

abbrev pub with_master : Driver → ℕ → Master → Driver
with_master d i m = record d { masters = replace i m d.masters }

module _ {S : Type 0} (pal : SmmuPal S) where
  -- `smmu_master_at`: the master and its index, if there is one, with the driver and the state. The
  -- node takes 16 bytes and the master 136.
  unfoldable pub master_at : ℕ → Driver → S → Option (ℕ × Master) × Driver × S
  master_at sid d s =
      let (node, s') = pal.alloc 16 s in
      let (ptr, s'') = pal.calloc 1 136 s' in
      elim (find_master sid d.masters) [
        | some found ↦ (some found, d, s)
        | none ↦
            if node == 0
            then (none, d, s')
            else if ptr == 0
            then (none, d, pal.free node s'')
            else (some (0, cleared_master), record d { masters = cleared_master ∷ d.masters }, s'')
      ]

  -- `vtcr` and `tcr` from the description of the page table. EPD1 is bit 30 and AA64 bit 41.
  unfoldable pub vtcr_of : MapDescriptor → ℕ
  vtcr_of p =
      bit_or
        (bit_or
          (bit_or
            (bit_or
              (bit_or (bit_or (bitfield_set 5 0 p.tsz) (bitfield_set 7 6 p.sl))
                (bitfield_set 9 8 p.irgn))
              (bitfield_set 11 10 p.orgn))
            (bitfield_set 13 12 p.sh))
          (bitfield_set 15 14 p.tg))
        (bitfield_set 18 16 p.ps)

  unfoldable pub tcr_of : MapDescriptor → ℕ
  tcr_of p =
      bit_or
        (bit_or
          (bit_or
            (bit_or
              (bit_or
                (bit_or (bit_or (bitfield_set 5 0 p.tsz) (bitfield_set 7 6 p.tg))
                  (bitfield_set 9 8 p.irgn))
                (bitfield_set 11 10 p.orgn))
              (bitfield_set 13 12 p.sh))
            (bitfield_set 34 32 p.ps))
          (2 ^ 30))
        (2 ^ 41)

  -- A master that has no SMMU yet is given that of the call, in the array of the number `array`.
  unfoldable pub adopt : ℕ → MasterAttributes → Master → Master
  adopt array a m = elim m.smmu [
    | some p ↦ m
    | none ↦ record m {
      smmu = some (array, a.smmu_index);
      sid = a.streamid;
      ssid_bits = a.ssid_bits;
    }
  ]

  -- The stage of the call, if the SMMU supports it.
  unfoldable pub staged : MasterAttributes → SmmuDev → Master → Option Master
  staged a smmu m =
      if a.stage2
      then (if not smmu.s2p then none else some (record m { stage = smmu_stage_s2 }))
      else if not smmu.s1p
      then none
      else some (record m { stage = smmu_stage_s1; ssid = a.substreamid })

  unfoldable pub set_stage2 : MapDescriptor → Master → Master
  set_stage2 p m = record m {
    stage2_config = record { vmid = 0; vttbr = p.pgt_base; vtcr = vtcr_of p };
  }

  -- The context descriptor of stage 1: success, the master and the state. `cd2l` is that of the SMMU
  -- of the master, which may be another than the call's.
  unfoldable pub set_stage1 : MapDescriptor → Bool → Master → S → Bool × Master × S
  set_stage1 p cd2l m s =
      let sized = record m {
        stage1_config = record (m.stage1_config) { s1cdmax = low_bits m.ssid_bits 8 };
      } in
      let (ret, m1, s1) = cdtab_alloc pal cd2l sized s in
      let described = λ (k : Master). record k {
        stage1_config = record (k.stage1_config) {
          cd = record { asid = 0; ttbr = p.pgt_base; tcr = tcr_of p; mair = p.mair };
        };
      } in
      let is_new = m.stage1_config.cdcfg.cdtab_ptr == 0 in
      let (ret', m2, s2) =
        write_ctx_desc pal (described (if is_new then m1 else sized)) (if is_new then s1 else s) in
      if is_new && ret == 0 then (false, m1, s1) else (not (ret' == 0), m2, s2)

  abbrev pub cd2l_of : Driver → Option (ℕ × ℕ) → Bool
  cd2l_of d none = false
  cd2l_of d (some p) = (dev_at d p).cd2l

  -- The end of `val_smmu_map`, for a master with its stage and a stream in range: the entry is written
  -- and what the SMMU has cached is invalidated.
  unfoldable pub map_master :
      ℕ → MasterAttributes → MapDescriptor → ℕ → SmmuDev → Master → Driver → S → ℕ × Driver × S
  map_master timeout a p i smmu m d s =
      let (ok, m', s') = elim m.stage as (λ _. Bool × Master × S) [
        | smmu_stage_s2 ↦ (true, set_stage2 p m, s)
        | _ ↦ set_stage1 p (cd2l_of d m.smmu) m s
      ] in
      let written = write_ste pal (some m') (get_ste_for_sid smmu m.sid) s' in
      if ok
      then (0, with_master d i m', tlbi_cfgi pal timeout smmu written)
      else (1, with_master d i m', s')

  unfoldable pub smmu_map : ℕ → MasterAttributes → MapDescriptor → Driver → S → ℕ × Driver × S
  smmu_map timeout a p d s =
      let smmu = d.devs a.smmu_index in
      let (found, d1, s1) = master_at a.streamid d s in
      let mapped : ℕ × Driver × S = elim found [
        | none ↦ (1, d1, s1)
        | some (i, old) ↦
            let m = adopt d1.array a old in
            elim (staged a smmu m) [
              | none ↦ (1, with_master d1 i m, s1)
              | some m' ↦
                  let d2 = with_master d1 i m' in
                  let (ret, smmu', s2) = strtab_init_level2 pal smmu m'.sid s1 in
                  let d3 = with_dev d2 a.smmu_index smmu' in
                  if leb (2 ^ smmu.sid_bits) a.streamid
                  then (1, d2, s1)
                  else if smmu.st_level_2lvl
                  then (if ret == 0 then (1, d3, s2) else map_master timeout a p i smmu' m' d3 s2)
                  else map_master timeout a p i smmu m' d2 s1
            ]
      ] in
      if not d.is_present
      then (1, d, s)
      else if leb d.num_smmus a.smmu_index
      then (1, d, s)
      else if smmu.base == 0
      then (1, d, s)
      else mapped

  -- The entry is cleared that the stream would have in a table of one level.
  unfoldable pub clear_ste : SmmuDev → ℕ → S → S
  clear_ste smmu streamid s =
      write_ste pal none (add64 smmu.strtab_cfg.strtab64 (linear_offset streamid)) s

  unfoldable pub smmu_unmap : ℕ → MasterAttributes → Driver → S → Driver × S
  smmu_unmap timeout a d s =
      let (found, d', s') = master_at a.streamid d s in
      elim found [
        | none ↦ (d', s')
        | some (i, m) ↦ elim m.smmu [
          | none ↦ (d', s')
          | some p ↦
              let smmu = dev_at d' p in
              let (m', freed) = cdtab_free pal smmu.cd2l m (clear_ste smmu a.streamid s') in
              if leb (2 ^ smmu.sid_bits) a.streamid
              then (d', s')
              else (with_master d' i cleared_master, tlbi_cfgi pal timeout smmu freed)
        ]
      ]
