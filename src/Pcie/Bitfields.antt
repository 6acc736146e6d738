-- ===== src/Pcie/Bitfields.antt =====
-- The check of register fields against a table (val/src/acs_pcie.c, and the entries of
-- val/include/bsa_acs_pcie.h): `val_pcie_bitfield_check` and `val_pcie_register_bitfields_check`. What
-- they print is left out.
pub mod Writable
use Prim.Native.String.{String}
use riscv_server_soc_ts.Prelude.{
  ℕ, ◌+◌, ◌-◌, ◌*◌, ◌/◌, ◌%◌, ◌^◌, Bool, true, false, ◌==◌, ◌!=◌, ltb, ◌||◌, if◌then◌else◌, Option,
  none, some, List, [], ◌∷◌, bit_and, bit_xor,
}
use riscv_server_soc_ts.Bits.{low_bits, add32, sub32, shl32, u32_mod}
use riscv_server_soc_ts.Session.{acs_status_skip}
use riscv_server_soc_ts.Pcie.{Pal, InfoTable}
use riscv_server_soc_ts.Pcie.Config.{read_cfg, write_cfg}
use riscv_server_soc_ts.Pcie.Capability.{RegType, header, pcie_cap, pcie_ecap, find_capability}
use riscv_server_soc_ts.Pcie.Device.{disable_eru, device_port_type}

-- BITFIELD_ATTR_TYPE, and any other value.
pub data Attribute : Type 0 where
  hw_init read_only sticky_ro rsvdp_ro rsvdz_ro read_write sticky_rw other_attribute : Attribute

-- pcie_cfgreg_bitfield_entry
pub record BitfieldEntry : Type 0 where
  pub reg_type : RegType
  pub cap_id : ℕ
  pub ecap_id : ℕ
  pub reg_offset : ℕ
  pub dev_port_bitmask : ℕ
  pub start : ℕ
  pub end : ℕ
  pub cfg_value : ℕ
  pub attr : Attribute
  pub err_str1 : String
  pub err_str2 : String

-- REG_MASK and REG_SHIFT. In C a shift by 32 or more places is undefined.
unfoldable pub reg_mask : ℕ → ℕ → ℕ
reg_mask end start = bit_and (shl32 (u32_mod - 1) start) (sub32 (shl32 1 (end + 1)) 1) / 2 ^ start

unfoldable pub reg_shift : ℕ → ℕ → ℕ
reg_shift alignment_byte_cnt start = alignment_byte_cnt * 8 + start

abbrev pub alignment : BitfieldEntry → ℕ
alignment e = low_bits e.reg_offset 2

-- The mask of the field, at its place in the aligned register.
unfoldable pub placed_mask : BitfieldEntry → ℕ
placed_mask e = shl32 (reg_mask e.end e.start) (reg_shift (alignment e) e.start)

-- The value of the field in the aligned register.
unfoldable pub field_of : BitfieldEntry → ℕ → ℕ
field_of e value = bit_and (value / 2 ^ reg_shift (alignment e) e.start) (reg_mask e.end e.start)

module _ {S : Type 0} (pal : Pal S) (info : Option InfoTable) where
  -- `val_pcie_write_cfg (..., value)` and then `val_pcie_read_cfg` into a variable that holds `old`.
  unfoldable pub write_read : ℕ → ℕ → ℕ → ℕ → S → ℕ × S
  write_read bdf at value old s =
      let s' = write_cfg pal info bdf at value s in ((read_cfg pal info bdf at old s').1, s')

  -- `reg_overwrite_value` and `reg_value` after the switch over the attributes, with the new state.
  -- `none` is an invalid attribute.
  unfoldable pub try_attribute : BitfieldEntry → ℕ → ℕ → ℕ → S → Attribute → Option (ℕ × ℕ × S)
  try_attribute e bdf at value s attr =
      let toggled = bit_xor value (placed_mask e) in
      let cleared = bit_and value (u32_mod - 1 - placed_mask e) in
      let (after_toggle, s_toggle) = write_read bdf at toggled toggled s in
      let (after_same, s_same) = write_read bdf at value value s in
      let (after_clear, s_clear) = write_read bdf at cleared cleared s in
      let (seen, s_seen) = write_read bdf at toggled value s in
      elim attr [
        | hw_init ↦ some (after_toggle, value, s_toggle)
        | read_only ↦ some (after_toggle, value, s_toggle)
        | sticky_ro ↦ some (after_toggle, value, s_toggle)
        | rsvdp_ro ↦ some (field_of e after_same, 0, s_same)
        | rsvdz_ro ↦ some (after_clear, value, s_clear)
        | read_write ↦ some (toggled, seen, write_cfg pal info bdf at value s_seen)
        | sticky_rw ↦ some (toggled, seen, write_cfg pal info bdf at value s_seen)
        | other_attribute ↦ none
      ]

-- `is_warning` is the test of an error string by `val_strncmp` with "WARNING".
module _ {S : Type 0} (pal : Pal S) (info : Option InfoTable) (fuel junk : ℕ)
    (is_warning : String → Bool) where
  -- `if (reg_overwrite_value != reg_value)` and what follows.
  judge_attribute : BitfieldEntry → S → Option (ℕ × ℕ × S) → ℕ × S
  judge_attribute e s none = (1, s)
  judge_attribute e s (some (overwrite, value, s')) =
      (if overwrite != value then (if is_warning e.err_str2 then 0 else 1) else 0, s')

  -- The check once `cap_base` is known.
  unfoldable pub check_at : BitfieldEntry → ℕ → ℕ → S → ℕ × S
  unfolding judge_attribute
  check_at e bdf cap_base s =
      let at = add32 cap_base (e.reg_offset - alignment e) in
      let first = (read_cfg pal info bdf at junk s).1 in
      let (value, s') = write_read pal info bdf at first first s in
      if field_of e value != e.cfg_value
      then (if is_warning e.err_str1 then 0 else 1, s')
      else judge_attribute e s' (try_attribute pal info e bdf at value s' e.attr)

  -- `cap_base` by the type of the register; `none` is a search that has not ended. The status is not
  -- set for a header register.
  unfoldable pub find_base : BitfieldEntry → ℕ → S → RegType → Option (ℕ × ℕ)
  find_base e bdf s header = some (0, 0)
  find_base e bdf s pcie_cap = find_capability pal info fuel junk bdf pcie_cap e.cap_id junk s
  find_base e bdf s pcie_ecap = find_capability pal info fuel junk bdf pcie_ecap e.ecap_id junk s

  unfoldable pub bitfield_check : BitfieldEntry → ℕ → S → Option (ℕ × S)
  bitfield_check e bdf s = elim (find_base e bdf s e.reg_type) [
    | none ↦ none
    | some (status, cap_base) ↦
        some (if status != 0 then (status, s) else check_at e bdf cap_base s)
  ]

  -- `num_fails`, `num_pass` and the state.
  abbrev pub Counts : Type 0
  Counts = ℕ × ℕ × S

  abbrev pub counted : ℕ → ℕ → ℕ × S → Counts
  counted fails pass (status, s) =
      if status != 0 then (add32 fails 1, pass, s) else (fails, add32 pass 1, s)

  -- The loop over the entries for one function.
  unfoldable pub check_entries : ℕ → ℕ → List BitfieldEntry → Counts → Option Counts
  check_entries bdf dp_type [] c = some c
  check_entries bdf dp_type (e ∷ es) (fails, pass, s) =
      elim (bit_and dp_type e.dev_port_bitmask == 0) [
        | true ↦ check_entries bdf dp_type es (fails, pass, s)
        | false ↦ elim (bitfield_check e bdf s) [
          | none ↦ none
          | some r ↦ check_entries bdf dp_type es (counted fails pass r)
        ]
      ]

  -- The loop over the table of functions.
  unfoldable pub check_functions : List BitfieldEntry → List ℕ → Counts → Option Counts
  check_functions entries [] c = some c
  check_functions entries (bdf ∷ table) (fails, pass, s) =
      elim (disable_eru pal info fuel junk bdf s) [
        | none ↦ none
        | some s' ↦ elim (device_port_type pal info fuel junk bdf s') [
          | none ↦ none
          | some dp_type ↦ elim (check_entries bdf dp_type entries (fails, pass, s')) [
            | none ↦ none
            | some c ↦ check_functions entries table c
          ]
        ]
      ]

  unfoldable pub register_bitfields_check : List BitfieldEntry → List ℕ → S → Option (ℕ × S)
  register_bitfields_check entries table s = elim (check_functions entries table (0, 0, s)) [
    | none ↦ none
    | some (fails, pass, s') ↦
        some (if ltb 0 pass || ltb 0 fails then fails else acs_status_skip, s')
  ]
