-- ===== src/GicIts/Redistributor.antt =====
-- The redistributor (val/sys_arch_src/gic/its/bsa_gic_redistributor.c): the tables of LPI
-- configurations and of pending LPIs, and the search for the frame of a hart in bsa_gic_its.c.
use riscv_server_soc_ts.Prelude.{
  ℕ, zero, suc, ◌+◌, ◌*◌, ◌/◌, ◌%◌, ◌^◌, ◌==◌, ◌!=◌, ltb, if◌then◌else◌, bit_or, Option, none, some,
}
use riscv_server_soc_ts.Bits.{low_bits, field, add64, add32, sub32, u32_mod}
use riscv_server_soc_ts.GicIts.{
  ItsPal, ItsState, put_address, size_to_pages, pages_to_size, gicd_typer, gicr_ctlr, gicr_typer,
  gicr_propbaser, gicr_pendbaser, size_64kb,
}

-- ARM_LPI_MINID
abbrev pub arm_lpi_minid : ℕ
arm_lpi_minid = 8192

module _ {S : Type 0} (pal : ItsPal S) where
  -- A table for the number of id bits in PROPBASER; a shift by 32, undefined in C, leaves 0.
  unfoldable pub set_config_table_base : ℕ → ItsState → S → ℕ × ItsState × S
  set_config_table_base rd st s =
      let (prop, s1) = pal.mmio_read64 (add64 rd gicr_propbaser) s in
      let size = sub32 (2 ^ (low_bits prop 5 + 1) % u32_mod) arm_lpi_minid in
      let bytes = pages_to_size (add32 (size_to_pages size) 1) in
      let (address, s2) = pal.aligned_alloc 4096 bytes s1 in
      let (value, s3) =
        pal.mmio_read64 (add64 rd gicr_propbaser) (pal.memory_set address bytes 0 s2) in
      if address == 0 then (1, st, s2) else (
        0,
        record st { lpi_config_base = address },
        pal.mmio_write64 (add64 rd gicr_propbaser) (put_address 51 12 address value) s3,
      )

  unfoldable pub set_pending_table_base : ℕ → S → ℕ × S
  set_pending_table_base rd s =
      let (prop, s1) = pal.mmio_read64 (add64 rd gicr_propbaser) s in
      let size = 2 ^ (low_bits prop 5 + 1) % u32_mod / 8 in
      let bytes = pages_to_size (add32 (size_to_pages size) 1) in
      let (address, s2) = pal.aligned_alloc size_64kb bytes s1 in
      let (value, s3) =
        pal.mmio_read64 (add64 rd gicr_pendbaser) (pal.memory_set address bytes 0 s2) in
      if address == 0
      then (1, s2)
      else (0, pal.mmio_write64 (add64 rd gicr_pendbaser) (put_address 51 16 address value) s3)

  unfoldable pub configure_for_lpi : ℕ → ItsState → S → ℕ × ItsState × S
  configure_for_lpi rd st s =
      let (status, st', s') = set_config_table_base rd st s in
      let (status', s'') = set_pending_table_base rd s' in
      if status != 0 then (status, st', s') else (status', st', s'')

  unfoldable pub clear_config_table : ℕ → ItsState → S → S
  clear_config_table int_id st s =
      pal.mmio_write8 (add64 st.lpi_config_base (sub32 int_id arm_lpi_minid)) 0 s

  -- LPI_PRIORITY_MASK is 0xFC, LPI_ENABLE bit 0.
  unfoldable pub set_config_table : ℕ → ℕ → ItsState → S → S
  set_config_table int_id priority st s =
      pal.mmio_write8 (add64 st.lpi_config_base (sub32 int_id arm_lpi_minid))
        (bit_or (field priority 2 6 * 4) 1) s

  unfoldable pub enable_lpis_rd : ℕ → S → S
  enable_lpis_rd rd s =
      let (value, s') = pal.mmio_read (add64 rd gicr_ctlr) s in
      pal.mmio_write (add64 rd gicr_ctlr) (bit_or value 1) s'

  unfoldable pub gicd_lpi_support : ℕ → S → ℕ × S
  gicd_lpi_support gicd s =
      let (typer, s') = pal.mmio_read (add64 gicd gicd_typer) s in (field typer 17 1 * 2 ^ 17, s')

  unfoldable pub gicr_lpi_support : ℕ → S → ℕ × S
  gicr_lpi_support rd s =
      let (typer, s') = pal.mmio_read (add64 rd gicr_typer) s in (low_bits typer 1, s')

  -- The affinity of the hart that asks: the levels 0 to 2, and level 3 in the place after them.
  abbrev pub cpu_affinity : ℕ
  cpu_affinity = bit_or (low_bits pal.mpidr 24) (field pal.mpidr 32 8 * 2 ^ 24)

  -- The loop over the frames, on fuel; `none` is a search that has not ended.
  unfoldable pub frame_loop : ℕ → ℕ → ℕ → ℕ → S → Option (ℕ × S)
  frame_loop zero granularity end curr s = none
  frame_loop (suc fuel) granularity end curr s =
      let (affinity, s') = pal.mmio_read (add64 (add64 curr gicr_typer) 4) s in
      let rest = frame_loop fuel granularity end (add64 curr granularity) s' in
      if ltb curr end
      then (if affinity == cpu_affinity then some (curr, s') else rest)
      else some (0, s)

  -- Frames for virtual LPIs, two of them with the page reserved, follow the two frames if bit 1 of the
  -- type is set.
  unfoldable pub get_curr_rdbase : ℕ → ℕ → ℕ → S → Option (ℕ × S)
  get_curr_rdbase fuel rd_base length s =
      let (typer, s1) = pal.mmio_read (add64 rd_base gicr_typer) s in
      let granularity = if field typer 1 1 != 0 then 4 * size_64kb else 2 * size_64kb in
      let (affinity, s2) = pal.mmio_read (add64 (add64 rd_base gicr_typer) 4) s1 in
      if length == 0
      then some ((if affinity == cpu_affinity then rd_base else 0), s2)
      else frame_loop fuel granularity (add64 rd_base length) rd_base s1
