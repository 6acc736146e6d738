-- ===== src/Smmu/Stream.antt =====
-- The stream tables of val/sys_arch_src/smmu_v3/smmu_v3.c: one table, or one of two levels of which the
-- second is made when a stream is mapped.
use riscv_server_soc_ts.Prelude.{
  ℕ, zero, suc, ◌+◌, ◌*◌, ◌%◌, ◌^◌, ◌==◌, ◌!=◌, ◌&&◌, if◌then◌else◌, none, bit_or,
}
use riscv_server_soc_ts.Bits.{low_bits, add32, sub32, add64, u32_mod, shr}
use riscv_server_soc_ts.Smmu.{
  SmmuPal, SmmuDev, StrtabL1Desc, align_to_size, bitfield_set, in_place, set_at, strtab_split,
  ste_bytes,
}
use riscv_server_soc_ts.Smmu.Config.{write_ste}

-- The size of the table of a level-1 descriptor, and of a descriptor itself.
abbrev pub l2_bytes : ℕ
l2_bytes = 2 ^ strtab_split * ste_bytes

abbrev pub empty_desc : StrtabL1Desc
empty_desc = record { span = 0; l2ptr = 0; l2desc64 = 0; l2desc_phys = 0 }

-- `smmu_strtab_write_level1_desc`
unfoldable pub level1_word : StrtabL1Desc → ℕ
level1_word desc = bit_or (bitfield_set 4 0 desc.span) (in_place 51 6 desc.l2desc_phys)

-- The offset of a stream's entry in a table of one level; the words are counted in 32 bits.
abbrev pub linear_offset : ℕ → ℕ
linear_offset sid = sid * 8 % u32_mod * 8

-- `smmu_strtab_get_ste_for_sid`
unfoldable pub get_ste_for_sid : SmmuDev → ℕ → ℕ
get_ste_for_sid smmu sid =
    let cfg = smmu.strtab_cfg in
    if smmu.st_level_2lvl
    then add64 (cfg.l1_descs (shr sid strtab_split)).l2desc64
        (low_bits sid strtab_split * ste_bytes)
    else add64 cfg.strtab64 (linear_offset sid)

module _ {S : Type 0} (pal : SmmuPal S) where
  -- The loops that fill `n` entries of a table from an address on.
  unfoldable pub abort_loop : ℕ → ℕ → S → S
  abort_loop zero ste s = s
  abort_loop (suc n) ste s = abort_loop n (add64 ste ste_bytes) (write_ste pal none ste s)

  -- The status, the device and the state.
  unfoldable pub strtab_init_linear : SmmuDev → S → ℕ × SmmuDev × S
  strtab_init_linear smmu s =
      let size = 2 ^ smmu.sid_bits * ste_bytes % u32_mod in
      let (ptr, s') = pal.calloc 2 size s in
      let table = align_to_size ptr size in
      let count = 2 ^ smmu.sid_bits % u32_mod in
      let cfg = smmu.strtab_cfg in
      if ptr == 0 then (0, record smmu { strtab_cfg = record cfg { strtab_ptr = 0 } }, s') else (
        1,
        record smmu {
          strtab_cfg = record cfg {
            strtab_ptr = ptr;
            strtab_phys = align_to_size (pal.virt_to_phys ptr) size;
            strtab64 = table;
            l1_ent_count = count;
            strtab_base_cfg = bit_or (bitfield_set 17 16 0) (bitfield_set 5 0 smmu.sid_bits);
          };
        },
        abort_loop count table s',
      )

  -- A level-1 descriptor takes 32 bytes in the driver and 8 in the table.
  unfoldable pub strtab_init_level1 : SmmuDev → S → ℕ × SmmuDev × S
  strtab_init_level1 smmu s =
      let cfg = smmu.strtab_cfg in
      let (ptr, s') = pal.calloc cfg.l1_ent_count 32 s in
      (
        if ptr == 0 then 0 else 1,
        record smmu { strtab_cfg = record cfg { l1_desc = ptr; l1_descs = λ i. empty_desc } },
        s',
      )

  unfoldable pub strtab_init_2level : SmmuDev → S → ℕ × SmmuDev × S
  strtab_init_2level smmu s =
      let log2size = sub32 smmu.sid_bits strtab_split in
      let count = 2 ^ log2size % u32_mod in
      let l1_tbl_size = count * 8 % u32_mod in
      let (ptr, s') = pal.alloc (2 * l1_tbl_size % u32_mod) s in
      let cfg = smmu.strtab_cfg in
      let counted = record cfg { strtab_ptr = ptr; l1_ent_count = count } in
      let placed = record counted {
        strtab_phys = align_to_size (pal.virt_to_phys ptr) l1_tbl_size;
        strtab64 = align_to_size ptr l1_tbl_size;
        strtab_base_cfg =
            bit_or (bit_or (bitfield_set 17 16 1) (bitfield_set 5 0 (add32 log2size strtab_split)))
              (bitfield_set 10 6 strtab_split);
      } in
      let (ret, smmu', s'') = strtab_init_level1 (record smmu { strtab_cfg = placed }) s' in
      if ptr == 0
      then (0, record smmu { strtab_cfg = counted }, s')
      else if ret == 0
      then (0, smmu', pal.free ptr s'')
      else (1, smmu', s'')

  -- STRTAB_BASE_RA is bit 62.
  unfoldable pub strtab_init : SmmuDev → S → ℕ × SmmuDev × S
  strtab_init smmu s =
      let (ret, smmu', s') =
        if smmu.st_level_2lvl then strtab_init_2level smmu s else strtab_init_linear smmu s in
      let cfg = smmu'.strtab_cfg in
      if ret == 0 then (ret, smmu', s') else (
        1,
        record smmu' {
          strtab_cfg = record cfg { strtab_base = bit_or (in_place 51 6 cfg.strtab_phys) (2 ^ 62) };
        },
        s',
      )

  unfoldable pub strtab_init_level2 : SmmuDev → ℕ → S → ℕ × SmmuDev × S
  strtab_init_level2 smmu sid s =
      let cfg = smmu.strtab_cfg in
      let i = shr sid strtab_split in
      let desc = cfg.l1_descs i in
      let (ptr, s') = pal.calloc 2 l2_bytes s in
      let table = align_to_size ptr l2_bytes in
      let spanned = record desc { span = strtab_split + 1; l2ptr = ptr } in
      let placed = record spanned {
        l2desc_phys = align_to_size (pal.virt_to_phys ptr) l2_bytes;
        l2desc64 = table;
      } in
      let with_desc = λ (d : StrtabL1Desc). record smmu {
        strtab_cfg = record cfg { l1_descs = set_at i d cfg.l1_descs };
      } in
      if desc.l2ptr != 0 then (1, smmu, s) else if ptr == 0 then (0, with_desc spanned, s') else (
        1,
        with_desc placed,
        pal.write64 (add64 cfg.strtab64 (i * 8)) (level1_word placed)
            (abort_loop (2 ^ strtab_split) table s'),
      )

  -- The loop of `smmu_free_strtab` over the level-1 descriptors.
  unfoldable pub free_level2 : ℕ → ℕ → (ℕ → StrtabL1Desc) → S → S
  free_level2 zero i descs s = s
  free_level2 (suc n) i descs s =
      let freed = pal.free (descs i).l2ptr s in
      free_level2 n (i + 1) descs (if (descs i).l2ptr != 0 then freed else s)

  unfoldable pub free_strtab : SmmuDev → S → S
  free_strtab smmu s =
      let cfg = smmu.strtab_cfg in
      let freed = pal.free cfg.l1_desc (free_level2 cfg.l1_ent_count 0 cfg.l1_descs s) in
      if cfg.strtab_ptr == 0
      then s
      else pal.free cfg.strtab_ptr (if smmu.st_level_2lvl && cfg.l1_desc != 0 then freed else s)
