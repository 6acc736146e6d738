-- ===== src/Pcie/Device.antt =====
-- The registers of one function (val/src/acs_pcie.c): the command register, the header, the class
-- code, the device status and the port type.
use riscv_server_soc_ts.Prelude.{
  ℕ, ◌+◌, ◌*◌, ◌-◌, ◌^◌, ◌&&◌, ◌||◌, ◌==◌, ◌!=◌, if◌then◌else◌, Option, none, some, bit_and, bit_or,
}
use riscv_server_soc_ts.Bits.{field, low_bits, add32, u32_mod}
use riscv_server_soc_ts.Pcie.{Pal, InfoTable, pcie_unknown_response}
use riscv_server_soc_ts.Pcie.Config.{read_cfg, write_cfg}
use riscv_server_soc_ts.Pcie.Capability.{pcie_cap, pcie_ecap, find_capability}

abbrev pub type01_cr : ℕ
type01_cr = 4

abbrev pub cr_mse_shift : ℕ
cr_mse_shift = 1

abbrev pub cr_bme_shift : ℕ
cr_bme_shift = 2

abbrev pub type1_pbn : ℕ
type1_pbn = 0x18

abbrev pub dctlr_offset : ℕ
dctlr_offset = 8

-- The port types of val/include/bsa_acs_pcie.h.
abbrev pub ep : ℕ
ep = 2 ^ 0

abbrev pub rp : ℕ
rp = 2 ^ 4

abbrev pub rciep : ℕ
rciep = 2 ^ 9

abbrev pub rcec : ℕ
rcec = 2 ^ 10

abbrev pub iep_rp : ℕ
iep_rp = 2 ^ 11

abbrev pub iep_ep : ℕ
iep_ep = 2 ^ 12

-- `reg_value | mask` and `reg_value & ~mask`.
unfoldable pub set_mask : ℕ → ℕ → ℕ
set_mask reg_value mask = bit_or reg_value mask

unfoldable pub clear_mask : ℕ → ℕ → ℕ
clear_mask reg_value mask = bit_and reg_value (u32_mod - 1 - mask)

-- `fuel` bounds the walks along capability lists, and `junk` is what an uninitialised variable holds.
module _ {S : Type 0} (pal : Pal S) (info : Option InfoTable) (fuel junk : ℕ) where
  -- The register that `val_pcie_read_cfg` leaves in `reg_value`.
  abbrev pub reg : ℕ → ℕ → S → ℕ
  reg bdf offset s = (read_cfg pal info bdf offset junk s).1

  unfoldable pub disable_bme : ℕ → S → S
  disable_bme bdf s =
      write_cfg pal info bdf type01_cr (clear_mask (reg bdf type01_cr s) (2 ^ cr_bme_shift)) s

  unfoldable pub enable_bme : ℕ → S → S
  enable_bme bdf s =
      write_cfg pal info bdf type01_cr (set_mask (reg bdf type01_cr s) (2 ^ cr_bme_shift)) s

  unfoldable pub disable_msa : ℕ → S → S
  disable_msa bdf s =
      write_cfg pal info bdf type01_cr (clear_mask (reg bdf type01_cr s) (2 ^ cr_mse_shift)) s

  unfoldable pub enable_msa : ℕ → S → S
  enable_msa bdf s =
      write_cfg pal info bdf type01_cr (set_mask (reg bdf type01_cr s) (2 ^ cr_mse_shift)) s

  unfoldable pub is_msa_enabled : ℕ → S → ℕ
  is_msa_enabled bdf s = if bit_and (reg bdf type01_cr s) (2 ^ cr_mse_shift) != 0 then 0 else 1

  unfoldable pub function_header_type : ℕ → S → ℕ
  function_header_type bdf s = field (field (reg bdf 0xc s) 16 8) 0 7

  unfoldable pub is_host_bridge : ℕ → S → ℕ
  is_host_bridge bdf s =
      if 0x06 == field (reg bdf 8 s) 24 8 && 0x00 == field (reg bdf 8 s) 16 8 then 1 else 0

  unfoldable pub check_interrupt_status : ℕ → S → ℕ
  check_interrupt_status bdf s = field (reg bdf type01_cr s) 19 1

  unfoldable pub clear_sig_target_abort : ℕ → S → S
  clear_sig_target_abort bdf s =
      let s' = write_cfg pal info bdf type01_cr (set_mask (reg bdf type01_cr s) (2 ^ 27)) s in
      write_cfg pal info bdf 0x1C (set_mask (reg bdf 0x1C s') (2 ^ 27)) s'

  unfoldable pub is_sig_target_abort : ℕ → S → ℕ
  is_sig_target_abort bdf s =
      if field (reg bdf type01_cr s) 27 1 != 0 || field (reg bdf 0x1C s) 27 1 != 0 then 1 else 0

  -- `pciecs_base` after the search for the PCI Express capability, whatever the search returns.
  -- `none`, here and below, is a search that has not ended when the fuel is used up.
  unfoldable pub pciecs_base : ℕ → S → Option ℕ
  pciecs_base bdf s = elim (find_capability pal info fuel junk bdf pcie_cap 0x10 junk s) [
    | none ↦ none
    | some (_, base) ↦ some base
  ]

  unfoldable pub clear_urd : ℕ → S → Option S
  clear_urd bdf s = elim (pciecs_base bdf s) [
    | none ↦ none
    | some base ↦
        let at = add32 base dctlr_offset in
        some (write_cfg pal info bdf at (set_mask (low_bits (reg bdf at s) 16) (2 ^ (16 + 3))) s)
  ]

  unfoldable pub is_urd : ℕ → S → Option ℕ
  is_urd bdf s = elim (pciecs_base bdf s) [
    | none ↦ none
    | some base ↦
        let reg_value = field (reg bdf (add32 base dctlr_offset) s) 16 16 in
        some (if field reg_value 3 1 != 0 then 1 else 0)
  ]

  unfoldable pub clear_device_status_error : ℕ → S → Option S
  clear_device_status_error bdf s = elim (pciecs_base bdf s) [
    | none ↦ none
    | some base ↦
        let at = add32 base dctlr_offset in
        some (write_cfg pal info bdf at (set_mask (reg bdf at s) (0xF * 2 ^ 16)) s)
  ]

  unfoldable pub is_device_status_error : ℕ → S → Option ℕ
  is_device_status_error bdf s = elim (pciecs_base bdf s) [
    | none ↦ none
    | some base ↦
        some (if bit_and (reg bdf (add32 base dctlr_offset) s) (0xF * 2 ^ 16) != 0 then 1 else 0)
  ]

  unfoldable pub enable_eru : ℕ → S → Option S
  enable_eru bdf s =
      let s' = write_cfg pal info bdf type01_cr (set_mask (reg bdf type01_cr s) (2 ^ 8)) s in
      elim (pciecs_base bdf s') [
        | none ↦ none
        | some base ↦
            let at = add32 base dctlr_offset in
            some (write_cfg pal info bdf at (set_mask (reg bdf at s') 0xF) s')
      ]

  unfoldable pub disable_eru : ℕ → S → Option S
  disable_eru bdf s =
      let s' = write_cfg pal info bdf type01_cr (clear_mask (reg bdf type01_cr s) (2 ^ 8)) s in
      elim (pciecs_base bdf s') [
        | none ↦ none
        | some base ↦
            let at = add32 base dctlr_offset in
            some (write_cfg pal info bdf at (clear_mask (reg bdf at s') 0xF) s')
      ]

  -- The port type that the PCI Express capability gives, for an on-chip function or another.
  unfoldable pub port_type : ℕ → ℕ → ℕ
  port_type onchip dp_type =
      if onchip == 0
      then dp_type
      else if dp_type == ep
      then iep_ep
      else if dp_type == rp
      then iep_rp
      else dp_type

  unfoldable pub device_port_type : ℕ → S → Option ℕ
  device_port_type bdf s = elim (pciecs_base bdf s) [
    | none ↦ none
    | some base ↦
        let (status, reg_value) = read_cfg pal info bdf (add32 base 0) junk s in
        some (
          if status == 0
          then port_type (pal.is_onchip_peripheral bdf) (2 ^ field reg_value 20 4)
          else pcie_unknown_response)
  ]

  unfoldable pub is_transaction_pending_set : ℕ → S → Option ℕ
  is_transaction_pending_set bdf s = elim (pciecs_base bdf s) [
    | none ↦ none
    | some base ↦
        let (status, reg_value) = read_cfg pal info bdf (add32 base dctlr_offset) junk s in
        some (if status != 0 then 1 else if bit_and reg_value (2 ^ 21) != 0 then 1 else 0)
  ]

  unfoldable pub data_link_layer_status : ℕ → S → Option ℕ
  data_link_layer_status bdf s = elim (pciecs_base bdf s) [
    | none ↦ none
    | some base ↦
        let data_link_report = field (reg bdf (add32 base 0xC) s) 20 1 in
        some (if data_link_report != 0 then field (reg bdf (add32 base 0x10) s) 29 1 else 2)
  ]

  -- The status, and `*max_pasid_width` after the call when it held `old` before.
  unfoldable pub get_max_pasid_width : ℕ → ℕ → S → Option (ℕ × ℕ)
  get_max_pasid_width bdf old s =
      elim (find_capability pal info fuel junk bdf pcie_ecap 0x1B junk s) [
        | none ↦ none
        | some (status, base) ↦ some (
            if status != 0
            then (status, old)
            else (0, field (read_cfg pal info bdf (add32 base 4) old s).1 8 5))
      ]
