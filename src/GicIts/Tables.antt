-- ===== src/GicIts/Tables.antt =====
-- The set-up of the interrupt translation services (val/sys_arch_src/gic/its/bsa_gic_its.c): the
-- number of id bits, the command queue, the tables of devices and collections, and `val_its_init`.
use riscv_server_soc_ts.Prelude.{
  ℕ, zero, suc, ◌+◌, ◌*◌, ◌-◌, ◌%◌, ◌^◌, true, ◌==◌, ◌!=◌, ltb, if◌then◌else◌, bit_or,
}
use riscv_server_soc_ts.Bits.{field, add64, sub32, u32_mod}
use riscv_server_soc_ts.GicIts.{
  ItsPal, ItsState, with_block, put_address, size_to_pages, pages_to_size, num_pages_8, queue_bytes,
  size_64kb, gicd_typer, gicr_propbaser, gits_typer, gits_cbaser, gits_baser,
}
use riscv_server_soc_ts.GicIts.Redistributor.{configure_for_lpi}

-- ARM_LPI_MIN_IDBITS
abbrev pub arm_lpi_min_idbits : ℕ
arm_lpi_min_idbits = 14

abbrev pub get_min : ℕ → ℕ → ℕ
get_min a b = if ltb a b then a else b

module _ {S : Type 0} (pal : ItsPal S) where
  unfoldable pub set_command_queue_base : ℕ → ItsState → S → ℕ × ItsState × S
  set_command_queue_base i st s =
      let block = st.info.gic_its i in
      let cbaser = add64 block.base gits_cbaser in
      let (address, s1) = pal.aligned_alloc size_64kb queue_bytes s in
      let (value, s2) = pal.mmio_read64 cbaser (pal.memory_set address queue_bytes 0 s1) in
      let word = bit_or (bit_or (put_address 51 12 address value) (2 ^ 63)) (num_pages_8 - 1) in
      if address == 0 then (1, st, s1) else (
        0,
        with_block i (record block { command_q_base = address }) st,
        pal.mmio_write64 cbaser word s2,
      )

  -- The size of a table of `2 ^ (bits + 1)` entries, in 32 bits.
  abbrev pub table_size : ℕ → ℕ → ℕ
  table_size bits entry_size = 2 ^ (bits + 1) * (entry_size + 1) % u32_mod

  -- The memory of the table of register `n`: its status and the state.
  unfoldable pub set_table : ℕ → ℕ → ℕ → S → ℕ × S
  set_table base n size s =
      let pages = size_to_pages size in
      let (address, s1) = pal.aligned_alloc size_64kb (pages_to_size pages) s in
      let (value, s2) =
        pal.mmio_read64 (add64 base (gits_baser n))
          (pal.memory_set address (pages_to_size pages) 0 s1) in
      let word = bit_or (bit_or (put_address 47 12 address value) (2 ^ 63)) (sub32 pages 1) in
      if address == 0 then (1, s1) else (0, pal.mmio_write64 (add64 base (gits_baser n)) word s2)

  -- The loop over the `left` registers from `n` on; type 1 is a table of devices, 4 of collections.
  unfoldable pub tables_loop : ℕ → ℕ → ℕ → S → ℕ × S
  tables_loop base zero n s = (0, s)
  tables_loop base (suc left) n s =
      let (baser, s1) = pal.mmio_read64 (add64 base (gits_baser n)) s in
      let (typer, s2) = pal.mmio_read64 (add64 base gits_typer) s1 in
      let type = field baser 56 3 in
      let size =
        if type == 1
        then table_size (field typer 13 5) (field baser 48 5)
        else table_size (field typer 32 4) (field baser 48 5) in
      let (status, s3) = set_table base n size s2 in
      let skipped = tables_loop base left (n + 1) s2 in
      let rest = tables_loop base left (n + 1) s3 in
      if type == 1
      then (if status != 0 then (1, s3) else rest)
      else if type == 4
      then (if status != 0 then (1, s3) else rest)
      else skipped

  -- ARM_NUM_GITS_BASER is 8.
  unfoldable pub set_its_tables : ℕ → ItsState → S → ℕ × ItsState × S
  set_its_tables i st s =
      let block = st.info.gic_its i in
      let (status, s1) = tables_loop block.base 8 0 s in
      let (address, s2) = pal.aligned_alloc size_64kb queue_bytes s1 in
      if status != 0 then (1, st, s1) else if address == 0 then (1, st, s2) else (
        0,
        with_block i (record block { itt_base = address }) st,
        pal.memory_set address queue_bytes 0 s2,
      )

  unfoldable pub set_initial_configuration : ℕ → ItsState → S → ℕ × ItsState × S
  set_initial_configuration i st s =
      let block = st.info.gic_its i in
      let (gicd, s1) = pal.mmio_read (add64 st.info.gicd_base gicd_typer) s in
      let (gits, s2) = pal.mmio_read64 (add64 block.base gits_typer) s1 in
      let bits = get_min (field gicd 19 5) (field gits 8 5) in
      let propbaser = add64 st.info.gic_rd_base gicr_propbaser in
      let (value, s3) = pal.mmio_read64 propbaser s2 in
      if ltb bits arm_lpi_min_idbits then (1, st, s2) else (
        0,
        with_block i (record block { id_bits = bits }) st,
        pal.mmio_write64 propbaser (bit_or value bits) s3,
      )

  -- The loops of `val_its_init` over the services from `i` on.
  unfoldable pub configuration_loop : ℕ → ℕ → ItsState → S → ℕ × ItsState × S
  configuration_loop zero i st s = (0, st, s)
  configuration_loop (suc n) i st s =
      let (status, st', s') = set_initial_configuration i st s in
      let rest = configuration_loop n (i + 1) st' s' in
      if status != 0 then (status, st', s') else rest

  unfoldable pub queue_loop : ℕ → ℕ → ItsState → S → ℕ × ItsState × S
  queue_loop zero i st s = (0, st, s)
  queue_loop (suc n) i st s =
      let (status, st1, s1) = set_command_queue_base i st s in
      let (status', st2, s2) = set_its_tables i st1 s1 in
      let rest = queue_loop n (i + 1) st2 s2 in
      if status != 0 then (status, st1, s1) else if status' != 0 then (status', st2, s2) else rest

  -- A failed allocation of the positions ends with status 0.
  unfoldable pub its_init : ItsState → S → ℕ × ItsState × S
  its_init st s =
      let num = st.info.gic_num_its in
      let (ptr, s0) = pal.aligned_alloc 4096 (4 * num) s in
      let cleared = record st { cwriter_ptr = λ i. if ltb i num then 0 else st.cwriter_ptr i } in
      let (status1, st1, s1) = configuration_loop num 0 cleared s0 in
      let (status2, st2, s2) = configure_for_lpi pal st1.info.gic_rd_base st1 s1 in
      let (status3, st3, s3) = queue_loop num 0 st2 s2 in
      if ptr == 0
      then (0, st, s0)
      else if status1 != 0
      then (status1, st1, s1)
      else if status2 != 0
      then (status2, st2, s2)
      else if status3 != 0
      then (status3, st3, s3)
      else (0, record st3 { setup_done = true }, s3)
