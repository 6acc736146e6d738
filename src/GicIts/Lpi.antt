-- ===== src/GicIts/Lpi.antt =====
-- The interrupts of a translation service (val/sys_arch_src/gic/its/bsa_gic_its.c): mapping one, taking
-- the mapping back, and the highest of them.
use riscv_server_soc_ts.Prelude.{
  ℕ, zero, suc, ◌+◌, ◌*◌, ◌%◌, ◌^◌, Bool, not, ◌==◌, ltb, if◌then◌else◌, bit_or, Option, none, some,
}
use riscv_server_soc_ts.Bits.{add64, sub32, u32_mod}
use riscv_server_soc_ts.GicIts.{
  ItsPal, ItsBlock, GicItsInfo, ItsState, gits_ctlr, gits_cwriter, gits_translater,
}
use riscv_server_soc_ts.GicIts.Redistributor.{clear_config_table, set_config_table, enable_lpis_rd}
use riscv_server_soc_ts.GicIts.Command.{
  write_mapd, write_mapc, write_mapi, write_inv, write_discard, write_sync, poll_till_done,
  get_rd_base_format,
}

module _ {S : Type 0} (pal : ItsPal S) where
  unfoldable pub enable_its : ℕ → S → S
  enable_its base s =
      let (value, s') = pal.mmio_read (add64 base gits_ctlr) s in
      pal.mmio_write (add64 base gits_ctlr) (bit_or value 1) s'

  -- The end of both calls: CWRITER is told the position in bytes, in 32 bits, and the wait follows.
  unfoldable pub submit : ℕ → ℕ → ItsState → S → S
  submit timeout i st s =
      let value = st.cwriter_ptr i * 8 % u32_mod in
      let written =
        pal.mmio_write64 (add64 (st.info.gic_its i).base gits_cwriter) value (pal.barrier s) in
      pal.barrier (poll_till_done pal timeout i st written)

  unfoldable pub clear_lpi_map : ℕ → ℕ → ℕ → ℕ → ItsState → S → ItsState × S
  clear_lpi_map timeout i device_id int_id st s =
      let block = st.info.gic_its i in
      let queue = block.command_q_base in
      let (rd_base, s1) = get_rd_base_format pal i st (clear_config_table pal int_id st s) in
      let (st2, s2) = write_discard pal i queue device_id int_id st s1 in
      let (st3, s3) = write_mapd pal i queue device_id block.itt_base 0 0 st2 s2 in
      let (st4, s4) = write_sync pal i queue rd_base st3 s3 in
      if not st.setup_done then (st, s) else (st4, submit timeout i st4 s4)

  -- The collection is 1.
  unfoldable pub create_lpi_map : ℕ → ℕ → ℕ → ℕ → ℕ → ItsState → S → ItsState × S
  create_lpi_map timeout i device_id int_id priority st s =
      let block = st.info.gic_its i in
      let queue = block.command_q_base in
      let enabled =
        enable_its block.base
          (enable_lpis_rd pal st.info.gic_rd_base (set_config_table pal int_id priority st s)) in
      let (rd_base, s1) = get_rd_base_format pal i st enabled in
      let (st2, s2) = write_mapd pal i queue device_id block.itt_base block.id_bits 1 st s1 in
      let (st3, s3) = write_mapc pal i queue 1 rd_base 1 st2 s2 in
      let (st4, s4) = write_mapi pal i queue device_id int_id 1 st3 s3 in
      let (st5, s5) = write_inv pal i queue device_id int_id st4 s4 in
      let (st6, s6) = write_sync pal i queue rd_base st5 s5 in
      if not st.setup_done then (st, s) else (st6, submit timeout i st6 s6)

-- The loop over the services from `i` on.
unfoldable pub min_loop : ℕ → ℕ → (ℕ → ItsBlock) → ℕ → ℕ
min_loop zero i its min_idbits = min_idbits
min_loop (suc n) i its min_idbits =
    min_loop n (i + 1) its (if ltb min_idbits (its i).id_bits then min_idbits else (its i).id_bits)

-- `info` is NULL or the information, ARM_LPI_MAX_IDBITS 31.
unfoldable pub get_max_lpi : Option GicItsInfo → Bool → ℕ
get_max_lpi none setup_done = 0
get_max_lpi (some info) setup_done =
    let bits = min_loop info.gic_num_its 0 info.gic_its 31 in
    if info.gic_num_its == 0
    then 0
    else if not setup_done
    then 0
    else sub32 (2 ^ (bits + 1) % u32_mod) 1

unfoldable pub get_translater_addr : ℕ → GicItsInfo → ℕ
get_translater_addr i info = add64 (info.gic_its i).base gits_translater
