-- ===== src/Pcie/Bridge.antt =====
-- The kind of a function and of what is behind a bridge (val/src/acs_pcie.c): the device type, the
-- multifunction bit, the link registers, and the scan of the memory type.
use riscv_server_soc_ts.Prelude.{
  ℕ, zero, suc, ◌+◌, ◌-◌, ◌≡◌, arith, refl, ◌∙◌, Bool, ◌&&◌, ◌==◌, ◌!=◌, leb, if◌then◌else◌,
  Bool-cases, inl, inr, Option, none, some,
}
use riscv_server_soc_ts.Bits.{field, add32, u32_mod}
use riscv_server_soc_ts.Pcie.{Pal, InfoTable, max_dev, max_func}
use riscv_server_soc_ts.Pcie.Config.{read_cfg}
use riscv_server_soc_ts.Pcie.Device.{reg, type1_pbn, function_header_type, pciecs_base}
use riscv_server_soc_ts.Pcie.Regions.{type0_header}
use riscv_server_soc_ts.Pcie.Bars.{type01_bar, bar_mdt}

module _ {S : Type 0} (pal : Pal S) (info : Option InfoTable) (fuel junk : ℕ) where
  -- 1 for a device, 2 for a host bridge, 3 for another bridge.
  unfoldable pub get_device_type : ℕ → S → ℕ
  get_device_type bdf s =
      let class_code = reg pal info fuel junk bdf 8 s in
      if field (reg pal info fuel junk bdf 0xc s) 16 2 != type0_header
      then (if field class_code 24 8 == 0x06 && field class_code 16 8 == 0x00 then 2 else 3)
      else 1

  unfoldable pub multifunction_support : ℕ → S → ℕ
  multifunction_support bdf s =
      if field (field (reg pal info fuel junk bdf 0xc s) 16 8) 7 1 != 0 then 0 else 1

  -- The registers of the link, each read into a variable that holds all ones.
  unfoldable pub link_register : ℕ → ℕ → ℕ → S → ℕ
  link_register bdf base offset s = (read_cfg pal info bdf (add32 base offset) (u32_mod - 1) s).1

  unfoldable pub link_cap_support : ℕ → S → Option ℕ
  link_cap_support bdf s = elim (pciecs_base pal info fuel junk bdf s) [
    | none ↦ none
    | some base ↦ some (
        if link_register bdf base 0xC s != 0
        then 1
        else if link_register bdf base 0x10 s != 0
        then 1
        else if link_register bdf base 0x2C s != 0
        then 1
        else if link_register bdf base 0x30 s != 0
        then 1
        else 0)
  ]

  -- The test in the innermost loop of the scan. It reads the bridge itself, whatever the loops' bus,
  -- device and function are.
  unfoldable pub wide_memory : ℕ → S → Bool
  wide_memory bdf s =
      let value = reg pal info fuel junk bdf type01_bar s in
      function_header_type pal info fuel junk bdf s == type0_header
      && value != 0
      && bar_mdt value != 0

  unfoldable pub scan_funcs : ℕ → ℕ → ℕ → S → ℕ
  scan_funcs zero bdf status s = status
  scan_funcs (suc n) bdf status s = if wide_memory bdf s then 1 else scan_funcs n bdf status s

  unfoldable pub scan_devs : ℕ → ℕ → ℕ → S → ℕ
  scan_devs zero bdf status s = status
  scan_devs (suc n) bdf status s = scan_devs n bdf (scan_funcs max_func bdf status s) s

  -- `for (Bus = sec_bus; Bus <= sub_bus; Bus++)`, with `n` buses left.
  unfoldable pub scan_buses : ℕ → ℕ → ℕ → S → ℕ
  scan_buses zero bdf status s = status
  scan_buses (suc n) bdf status s = scan_buses n bdf (scan_devs max_dev bdf status s) s

  -- `val_pcie_scan_bridge_devices_and_check_memtype`
  unfoldable pub scan_bridge : ℕ → S → ℕ
  scan_bridge bdf s =
      let value = reg pal info fuel junk bdf type1_pbn s in
      scan_buses (field value 16 8 + 1 - field value 8 8) bdf 0 s

  abbrev one : ℕ
  one = 1

  closed_form :
      (type0 : Bool) (sec sub value : ℕ)
      → (if (sub + 1 - sec) != 0 && (type0 && value != 0 && bar_mdt value != 0) then one else 0)
        ≡ (if type0 && leb sec sub && bar_mdt value != 0 then 1 else 0)
  closed_form type0 sec sub value = elim (Bool-cases (value != 0)) [
    | inl some_bit ↦ rw (some_bit) (ground arith)
    | inr empty ↦
        let nothing : value ≡ 0 = ground arith in
        let no_type : bar_mdt value ≡ 0 = omega arith in rw (empty, no_type) (ground arith)
  ]

  module _ (bdf : ℕ) (s : S) where
    scan_funcs_lem :
        (n status : ℕ) → scan_funcs (suc n) bdf status s ≡ (if wide_memory bdf s then 1 else status)
    unfolding scan_funcs
    scan_funcs_lem zero status = refl
    scan_funcs_lem (suc n) status = ground (arith, scan_funcs_lem n status)

    scan_devs_lem :
        (n status : ℕ) → scan_devs (suc n) bdf status s ≡ (if wide_memory bdf s then 1 else status)
    unfolding scan_devs
    scan_devs_lem zero status = scan_funcs_lem 7 status
    scan_devs_lem (suc n) status =
        ground (arith, scan_funcs_lem 7 status, scan_devs_lem n (scan_funcs max_func bdf status s))

    scan_buses_lem :
        (n status : ℕ)
        → scan_buses n bdf status s ≡ (if n != 0 && wide_memory bdf s then 1 else status)
    unfolding scan_buses
    scan_buses_lem zero status = refl
    scan_buses_lem (suc n) status =
        ground (arith, scan_devs_lem 31 status, scan_buses_lem n (scan_devs max_dev bdf status s))

    -- The scan gives 0 for a function whose header is not Type 0, whatever is behind it. For a Type 0
    -- header it gives 1 exactly when the bus registers are in order and the function's own first base
    -- address register has a memory type other than 0.
    pub scan_bridge_own :
        let value = reg pal info fuel junk bdf type1_pbn s in
        scan_bridge bdf s ≡ (
          if function_header_type pal info fuel junk bdf s == type0_header
            && leb (field value 8 8) (field value 16 8)
            && bar_mdt (reg pal info fuel junk bdf type01_bar s) != 0
          then 1
          else 0)
    unfolding scan_bridge wide_memory
    scan_bridge_own =
        let value = reg pal info fuel junk bdf type1_pbn s in
        scan_buses_lem (field value 16 8 + 1 - field value 8 8) 0
        ∙ closed_form (function_header_type pal info fuel junk bdf s == type0_header)
            (field value 8 8) (field value 16 8) (reg pal info fuel junk bdf type01_bar s)
