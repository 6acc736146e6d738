-- ===== src/Smmu/Context.antt =====
-- The context descriptor tables of val/sys_arch_src/smmu_v3/smmu_v3.c: one table, or one of two levels
-- of which the second is made when a descriptor is written.
use riscv_server_soc_ts.Prelude.{
  ℕ, zero, suc, ◌+◌, ◌-◌, ◌*◌, ◌/◌, ◌%◌, ◌^◌, Bool, ◌==◌, ◌!=◌, ◌&&◌, ltb, leb, if◌then◌else◌,
  bit_or,
}
use riscv_server_soc_ts.Bits.{low_bits, add64, shr, u32_mod}
use riscv_server_soc_ts.Smmu.{SmmuPal, align_to_size, bitfield_set, in_place, set_at}
use riscv_server_soc_ts.Smmu.Config.{CtxDesc, CdtabL1Desc, CdtabConfig, Master}

-- CDTAB_SPLIT, CDTAB_L2_ENTRY_COUNT, the bytes of a descriptor, and those of a leaf table.
abbrev pub cdtab_split : ℕ
cdtab_split = 10

abbrev pub l2_entry_count : ℕ
l2_entry_count = 2 ^ cdtab_split

abbrev pub cd_bytes : ℕ
cd_bytes = 64

abbrev pub leaf_bytes : ℕ
leaf_bytes = l2_entry_count * cd_bytes

abbrev pub fmt_linear : ℕ
fmt_linear = 0

abbrev pub fmt_64k_l2 : ℕ
fmt_64k_l2 = 2

abbrev pub no_leaf : CdtabL1Desc
no_leaf = record { l2ptr = 0; l2desc64 = 0; l2desc_phys = 0 }

abbrev pub with_cdcfg : Master → CdtabConfig → Master
with_cdcfg m cfg = record m { stage1_config = record (m.stage1_config) { cdcfg = cfg } }

-- The first word of a context descriptor: `tcr`, R, A, ASET, AA64, the ASID and V.
unfoldable pub cd_word0 : CtxDesc → ℕ
cd_word0 cd =
    bit_or
      (bit_or (bit_or (bit_or (bit_or (bit_or cd.tcr (2 ^ 45)) (2 ^ 46)) (2 ^ 47)) (2 ^ 41))
        (bitfield_set 63 48 cd.asid))
      (2 ^ 31)

module _ {S : Type 0} (pal : SmmuPal S) where
  -- `smmu_cdtab_alloc_leaf_table`: the status, the descriptor and the state.
  unfoldable pub alloc_leaf_table : CdtabL1Desc → S → ℕ × CdtabL1Desc × S
  alloc_leaf_table desc s =
      let (ptr, s') = pal.alloc (leaf_bytes * 2) s in
      if ptr == 0 then (1, record desc { l2ptr = 0 }, s') else (
        0,
        record {
          l2ptr = ptr;
          l2desc64 = align_to_size ptr leaf_bytes;
          l2desc_phys = align_to_size (pal.virt_to_phys ptr) leaf_bytes;
        },
        s',
      )

  -- `smmu_cdtab_get_ctx_desc`: the address of the descriptor, or 0, with the master and the state.
  -- CDTAB_L1_DESC_V is bit 0.
  unfoldable pub get_ctx_desc : Master → S → ℕ × Master × S
  get_ctx_desc m s =
      let cfg = m.stage1_config.cdcfg in
      let idx = shr m.ssid cdtab_split in
      let desc = cfg.l1_descs idx in
      let place = λ (d : CdtabL1Desc). add64 d.l2desc64 (low_bits m.ssid cdtab_split * cd_bytes) in
      let (status, leaf, s') = alloc_leaf_table desc s in
      let m' = with_cdcfg m (record cfg { l1_descs = set_at idx leaf cfg.l1_descs }) in
      let word = bit_or (in_place 51 12 leaf.l2desc_phys) 1 in
      if m.stage1_config.s1fmt == fmt_linear
      then (add64 cfg.cdtab64 (m.ssid * 8 % u32_mod * 8), m, s)
      else if desc.l2ptr != 0
      then (place desc, m, s)
      else if status != 0
      then (0, m', s')
      else (place leaf, m', pal.write64 (add64 cfg.cdtab64 (idx * 8)) word s')

  -- CDTAB_CD_1_TTB0_MASK is not shifted.
  unfoldable pub store_ctx_desc : CtxDesc → ℕ → S → S
  store_ctx_desc cd ptr s = pal.write64 ptr (cd_word0 cd) (
      pal.write64 (add64 ptr 24) cd.mair
        (pal.write64 (add64 ptr 16) 0 (pal.write64 (add64 ptr 8) (low_bits cd.ttbr 48) s)))

  -- `smmu_cdtab_write_ctx_desc` for the master's own substream and descriptor.
  unfoldable pub write_ctx_desc : Master → S → ℕ × Master × S
  write_ctx_desc m s =
      let (ptr, m', s') = get_ctx_desc m s in
      if leb (2 ^ m.stage1_config.s1cdmax) m.ssid
      then (0, m, s)
      else if ptr == 0
      then (0, m', s')
      else (1, m', store_ctx_desc m.stage1_config.cd ptr s')

  -- The loop of `smmu_cdtab_free`.
  unfoldable pub free_leaves : ℕ → ℕ → (ℕ → CdtabL1Desc) → S → S
  free_leaves zero i descs s = s
  free_leaves (suc n) i descs s =
      let freed = pal.free (descs i).l2ptr s in
      free_leaves n (i + 1) descs (if (descs i).l2ptr != 0 then freed else s)

  -- `cd2l` is that of the master's SMMU.
  unfoldable pub cdtab_free : Bool → Master → S → Master × S
  cdtab_free cd2l m s =
      let cfg = m.stage1_config.cdcfg in
      let max_contexts = 2 ^ m.stage1_config.s1cdmax in
      let leaves = (max_contexts + l2_entry_count - 1) / l2_entry_count in
      let freed = pal.free cfg.l1_desc (free_leaves leaves 0 cfg.l1_descs s) in
      (
        with_cdcfg m (record cfg { cdtab_ptr = 0 }),
        pal.free cfg.cdtab_ptr (if cd2l && ltb l2_entry_count max_contexts then freed else s),
      )

  -- The table itself, when its format and its number of entries are settled.
  unfoldable pub cdtab_alloc_table : Master → ℕ → S → ℕ × Master × S
  cdtab_alloc_table m l1_tbl_size s =
      let cfg = m.stage1_config.cdcfg in
      let (ptr, s') = pal.calloc 2 l1_tbl_size s in
      if ptr == 0 then (0, with_cdcfg m (record cfg { cdtab_ptr = 0 }), s') else (
        1,
        with_cdcfg m (record cfg {
          cdtab_ptr = ptr;
          cdtab_phys = align_to_size (pal.virt_to_phys ptr) l1_tbl_size;
          cdtab64 = align_to_size ptr l1_tbl_size;
        }),
        s',
      )

  -- A descriptor of the first level takes 24 bytes in the driver and 8 in the table.
  unfoldable pub cdtab_alloc : Bool → Master → S → ℕ × Master × S
  cdtab_alloc cd2l m s =
      let cdmax = 2 ^ m.stage1_config.s1cdmax in
      let count = (cdmax + l2_entry_count - 1) / l2_entry_count in
      let formatted = λ (fmt : ℕ) (cfg : CdtabConfig). record m {
        stage1_config = record (m.stage1_config) { cdcfg = cfg; s1fmt = fmt };
      } in
      let cfg = m.stage1_config.cdcfg in
      let (ptr, s') = pal.calloc count 24 s in
      let two_level =
        formatted fmt_64k_l2
          (record cfg { l1_ent_count = count; l1_desc = ptr; l1_descs = λ i. no_leaf }) in
      if cd2l && ltb l2_entry_count cdmax
      then (if ptr == 0 then (0, two_level, s') else cdtab_alloc_table two_level (count * 8) s')
      else cdtab_alloc_table (formatted fmt_linear (record cfg { l1_ent_count = cdmax }))
          (cdmax * cd_bytes) s
