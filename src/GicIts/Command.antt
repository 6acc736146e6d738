-- ===== src/GicIts/Command.antt =====
-- The commands of an interrupt translation service, and the wait for them
-- (val/sys_arch_src/gic/its/bsa_gic_its.c).
use riscv_server_soc_ts.Prelude.{ℕ, zero, suc, ◌*◌, ◌%◌, ◌^◌, ◌==◌, ◌!=◌, if◌then◌else◌, bit_or}
use riscv_server_soc_ts.Bits.{low_bits, field, add64, add32, u64_mod}
use riscv_server_soc_ts.GicIts.{
  ItsPal, ItsState, set_at, gicr_typer, gits_typer, gits_cwriter, gits_creadr,
}

-- The first word of a command of a device, and the third of one that maps.
abbrev pub device_word : ℕ → ℕ → ℕ
device_word device_id cmd = bit_or (device_id * 2 ^ 32 % u64_mod) cmd

abbrev pub valid_word : ℕ → ℕ
valid_word valid = valid * 2 ^ 63 % u64_mod

-- The position of service `i` after another command.
abbrev pub moved_on : ℕ → ItsState → ItsState
moved_on i st = record st { cwriter_ptr = set_at i (add32 (st.cwriter_ptr i) 4) st.cwriter_ptr }

module _ {S : Type 0} (pal : ItsPal S) where
  -- The four words of a command, at the position of the service. A position counts 8 bytes.
  unfoldable pub write_words : ℕ → ℕ → ℕ → ℕ → ℕ → ℕ → ItsState → S → ItsState × S
  write_words i base w0 w1 w2 w3 st s =
      let at = add64 base (st.cwriter_ptr i * 8) in
      (
        moved_on i st,
        pal.mmio_write64 (add64 at 24) w3 (
            pal.mmio_write64 (add64 at 16) w2
              (pal.mmio_write64 (add64 at 8) w1 (pal.mmio_write64 at w0 s))),
      )

  -- The address of the table is in bits 8 to 51.
  unfoldable pub write_mapd : ℕ → ℕ → ℕ → ℕ → ℕ → ℕ → ItsState → S → ItsState × S
  write_mapd i base device_id itt_base size valid =
      write_words i base (device_word device_id 8) size
        (bit_or (valid_word valid) (field itt_base 8 44 * 2 ^ 8)) 0

  -- `rd_base` is passed in 32 bits.
  unfoldable pub write_mapc : ℕ → ℕ → ℕ → ℕ → ℕ → ItsState → S → ItsState × S
  write_mapc i base clctn_id rd_base valid =
      write_words i base 9 0 (bit_or (bit_or (valid_word valid) (low_bits rd_base 32)) clctn_id) 0

  unfoldable pub write_mapi : ℕ → ℕ → ℕ → ℕ → ℕ → ItsState → S → ItsState × S
  write_mapi i base device_id int_id clctn_id =
      write_words i base (device_word device_id 0xB) int_id clctn_id 0

  unfoldable pub write_inv : ℕ → ℕ → ℕ → ℕ → ItsState → S → ItsState × S
  write_inv i base device_id int_id = write_words i base (device_word device_id 0xC) int_id 0 0

  unfoldable pub write_discard : ℕ → ℕ → ℕ → ℕ → ItsState → S → ItsState × S
  write_discard i base device_id int_id = write_words i base (device_word device_id 0xF) int_id 0 0

  unfoldable pub write_sync : ℕ → ℕ → ℕ → ItsState → S → ItsState × S
  write_sync i base rd_base = write_words i base 5 0 (low_bits rd_base 32) 0

  -- The loop of the wait, with `left` rounds before the one that gives up. Bit 0 of CREADR is a stall
  -- and bit 0 of CWRITER a retry.
  unfoldable pub done_loop : ℕ → ℕ → ℕ → ℕ → S → S
  done_loop zero base cwriter creadr s =
      let retried = pal.mmio_write64 (add64 base gits_cwriter) (bit_or cwriter 1) s in
      if creadr == cwriter then s else if low_bits creadr 1 != 0 then retried else s
  done_loop (suc left) base cwriter creadr s =
      let retried = pal.mmio_write64 (add64 base gits_cwriter) (bit_or cwriter 1) s in
      let tried = if low_bits creadr 1 != 0 then retried else s in
      let (creadr', s') = pal.mmio_read64 (add64 base gits_creadr) tried in
      let rest = done_loop left base cwriter creadr' s' in if creadr == cwriter then s else rest

  unfoldable pub poll_till_done : ℕ → ℕ → ItsState → S → S
  poll_till_done timeout i st s =
      let base = (st.info.gic_its i).base in
      let (cwriter, s1) = pal.mmio_read64 (add64 base gits_cwriter) s in
      let (creadr, s2) = pal.mmio_read64 (add64 base gits_creadr) s1 in
      done_loop timeout base cwriter creadr s2

  -- The address of the redistributor if bit 19 of the type is set, else the number of its hart in its
  -- place.
  unfoldable pub get_rd_base_format : ℕ → ItsState → S → ℕ × S
  get_rd_base_format i st s =
      let (typer, s1) = pal.mmio_read64 (add64 (st.info.gic_its i).base gits_typer) s in
      let (value, s2) = pal.mmio_read64 (add64 st.info.gic_rd_base gicr_typer) s1 in
      if field typer 19 1 != 0 then (st.info.gic_rd_base, s1) else (field value 8 16 * 2 ^ 16, s2)
