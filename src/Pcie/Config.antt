-- ===== src/Pcie/Config.antt =====
-- Access to the configuration space (val/src/acs_pcie.c): the ECAM region of a function, the address
-- of a register in it, and the reads and writes at it.
use riscv_server_soc_ts.Prelude.{
  ℕ, zero, suc, ◌+◌, ◌*◌, ◌%◌, Bool, ◌&&◌, ◌||◌, ◌==◌, leb, if◌then◌else◌, Option, none, some,
}
use riscv_server_soc_ts.Bits.{add64, u32_mod}
use riscv_server_soc_ts.Pcie.{
  Width, u32, Pal, load, store, bdf_seg, bdf_bus, bdf_dev, bdf_func, max_bus, max_dev, max_func,
  pcie_no_mapping, InfoTable, info_num_ecam, info_ecam, info_start_bus, info_end_bus, info_segment,
  get_info,
}

-- There are 8 functions in a device and 32 devices on a bus, each with 4 KB.
unfoldable pub cfg_addr : ℕ → ℕ
cfg_addr bdf =
    (bdf_bus bdf * max_dev * max_func * 4096 + bdf_dev bdf * max_func * 4096 + bdf_func bdf * 4096)
    % u32_mod

abbrev pub is_invalid : ℕ → Bool
is_invalid bdf =
    leb max_bus (bdf_bus bdf) || leb max_dev (bdf_dev bdf) || leb max_func (bdf_func bdf)

module _ {S : Type 0} (pal : Pal S) (info : Option InfoTable) where
  -- The `while` loop over the regions, from index `i` on with `n` left. The caller goes on with the
  -- base of the first region of the function, or with 0.
  unfoldable pub find_ecam : ℕ → ℕ → ℕ → ℕ → ℕ
  find_ecam zero i bus segment = 0
  find_ecam (suc n) i bus segment =
      if leb (get_info pal info info_start_bus i) bus
        && leb bus (get_info pal info info_end_bus i)
        && segment == get_info pal info info_segment i
      then get_info pal info info_ecam i
      else find_ecam n (i + 1) bus segment

  -- What the five accessors begin with: the address of the function's first register, or nothing for
  -- an invalid function number, a missing table or a function without a region.
  unfoldable pub config_base : ℕ → Option ℕ
  config_base bdf =
      let ecam_base = find_ecam (get_info pal info info_num_ecam 0) 0 (bdf_bus bdf) (bdf_seg bdf) in
      if is_invalid bdf then none else elim info [
        | none ↦ none
        | some _ ↦ if ecam_base == 0 then none else some (add64 ecam_base (cfg_addr bdf))
      ]

  -- The status, and what `*data` holds after the call when it held `old` before.
  unfoldable pub read_cfg_width : Width → ℕ → ℕ → ℕ → S → ℕ × ℕ
  read_cfg_width width bdf offset old s = elim (config_base bdf) [
    | none ↦ (pcie_no_mapping, old)
    | some base ↦ (0, load pal width (add64 base offset) s)
  ]

  unfoldable pub read_cfg : ℕ → ℕ → ℕ → S → ℕ × ℕ
  read_cfg bdf offset old s = read_cfg_width u32 bdf offset old s

  unfoldable pub write_cfg : ℕ → ℕ → ℕ → S → S
  write_cfg bdf offset value s = elim (config_base bdf) [
    | none ↦ s
    | some base ↦ store pal u32 (add64 base offset) value s
  ]

  unfoldable pub write_cfg_width : Width → ℕ → ℕ → ℕ → S → S
  write_cfg_width width bdf offset value s = elim (config_base bdf) [
    | none ↦ s
    | some base ↦ store pal width (add64 base offset) value s
  ]

  -- 0 where there is no address.
  unfoldable pub get_bdf_config_addr : ℕ → ℕ
  get_bdf_config_addr bdf = elim (config_base bdf) [ none ↦ 0 | some base ↦ base ]
