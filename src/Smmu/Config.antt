-- ===== src/Smmu/Config.antt =====
-- The translation of one master of an SMMU: the types of val/sys_arch_src/smmu_v3/smmu_v3.h, and
-- `smmu_strtab_write_ste` of smmu_v3.c.
use riscv_server_soc_ts.Prelude.{ℕ, ◌^◌, Option, none, some, bit_or}
use riscv_server_soc_ts.Bits.{low_bits, add64}
use riscv_server_soc_ts.Smmu.{SmmuPal, bitfield_set, in_place}

-- smmu_stage2_config_t
pub record Stage2Config : Type 0 where
  pub vmid : ℕ
  pub vttbr : ℕ
  pub vtcr : ℕ

-- smmu_cdtab_ctx_desc_t
pub record CtxDesc : Type 0 where
  pub asid : ℕ
  pub ttbr : ℕ
  pub tcr : ℕ
  pub mair : ℕ

-- smmu_cdtab_l1_ctx_desc_t
pub record CdtabL1Desc : Type 0 where
  pub l2ptr : ℕ
  pub l2desc64 : ℕ
  pub l2desc_phys : ℕ

-- smmu_cdtab_config_t: the array `l1_desc` is its address and its contents.
pub record CdtabConfig : Type 0 where
  pub cdtab_ptr : ℕ
  pub cdtab64 : ℕ
  pub cdtab_phys : ℕ
  pub l1_desc : ℕ
  pub l1_descs : ℕ → CdtabL1Desc
  pub l1_ent_count : ℕ

-- smmu_stage1_config_t
pub record Stage1Config : Type 0 where
  pub cdcfg : CdtabConfig
  pub cd : CtxDesc
  pub s1fmt : ℕ
  pub s1cdmax : ℕ

-- smmu_stage_t
pub data Stage : Type 0 where
  smmu_stage_s1 smmu_stage_s2 smmu_stage_bypass : Stage

-- smmu_master_t: `smmu` points into an array of SMMUs: the number of the array, as val_smmu_init
-- allocates one in each call, and the index in it, or nothing for NULL.
pub record Master : Type 0 where
  pub smmu : Option (ℕ × ℕ)
  pub stage : Stage
  pub stage1_config : Stage1Config
  pub stage2_config : Stage2Config
  pub sid : ℕ
  pub ssid : ℕ
  pub ssid_bits : ℕ

-- STRTAB_STE_0_CONFIG with its values, and STRTAB_STE_0_V.
abbrev pub config_abort : ℕ
config_abort = 0

abbrev pub config_s1_trans : ℕ
config_s1_trans = 5

abbrev pub config_s2_trans : ℕ
config_s2_trans = 6

abbrev pub ste_valid : ℕ
ste_valid = 1

-- The first word of the entry of a master by the stage; bypass has none.
unfoldable pub ste_word0 : Master → ℕ
ste_word0 m =
    bit_or
      (bit_or
        (bit_or (in_place 51 6 m.stage1_config.cdcfg.cdtab_phys) (bitfield_set 3 1 config_s1_trans))
        (bitfield_set 63 59 m.stage1_config.s1cdmax))
      (bitfield_set 5 4 m.stage1_config.s1fmt)

-- STRTAB_STE_1_S1DSS to STRTAB_STE_1_EATS of stage 1.
unfoldable pub stage1_word1 : ℕ
stage1_word1 =
    bit_or
      (bit_or (bit_or (bit_or (bitfield_set 1 0 2) (bitfield_set 3 2 1)) (bitfield_set 5 4 1))
        (bitfield_set 7 6 3))
      (bitfield_set 29 28 1)

-- The flags are S2PTW, S2AA64 and S2R.
unfoldable pub stage2_word2 : Stage2Config → ℕ
stage2_word2 c =
    bit_or
      (bit_or (bit_or (bit_or (bitfield_set 15 0 c.vmid) (bitfield_set 50 32 c.vtcr)) (2 ^ 54))
        (2 ^ 51))
      (2 ^ 58)

module _ {S : Type 0} (pal : SmmuPal S) where
  -- `smmu_strtab_write_ste` for no master.
  unfoldable pub write_abort_ste : ℕ → S → S
  write_abort_ste ste s = pal.write64 (add64 ste 16) 0 (
      pal.write64 (add64 ste 8) (bitfield_set 45 44 1)
        (pal.write64 ste (bit_or ste_valid (bitfield_set 3 1 config_abort)) s))

  unfoldable pub write_stage1_ste : Master → ℕ → S → S
  write_stage1_ste m ste s =
      pal.write64 ste (bit_or ste_valid (ste_word0 m)) (pal.write64 (add64 ste 8) stage1_word1 s)

  -- STRTAB_STE_3_S2TTB_MASK is not shifted.
  unfoldable pub write_stage2_ste : Master → ℕ → S → S
  write_stage2_ste m ste s =
      let c = m.stage2_config in
      let word1 =
        bit_or (pal.read64 (add64 ste 8) s)
          (bit_or (bitfield_set 31 30 2) (bitfield_set 29 28 1)) in
      pal.write64 ste (bit_or ste_valid (bitfield_set 3 1 config_s2_trans)) (
        pal.write64 (add64 ste 24) (low_bits c.vttbr 48)
          (pal.write64 (add64 ste 16) (stage2_word2 c) (pal.write64 (add64 ste 8) word1 s)))

  unfoldable pub write_staged_ste : Stage → Master → ℕ → S → S
  write_staged_ste smmu_stage_s1 m ste s = write_stage1_ste m ste s
  write_staged_ste smmu_stage_s2 m ste s = write_stage2_ste m ste s
  write_staged_ste smmu_stage_bypass m ste s = s

  unfoldable pub write_ste : Option Master → ℕ → S → S
  write_ste none ste s = write_abort_ste ste s
  write_ste (some m) ste s = write_staged_ste m.stage m ste s
