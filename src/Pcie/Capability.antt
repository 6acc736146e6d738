-- ===== src/Pcie/Capability.antt =====
-- `val_pcie_find_capability` (val/src/acs_pcie.c): the walk along a function's list of capabilities.
pub mod Chain
use riscv_server_soc_ts.Prelude.{
  ℕ, zero, suc, ◌/◌, ◌%◌, ◌^◌, Bool, ◌||◌, ◌==◌, if◌then◌else◌, Option, none, some,
}
use riscv_server_soc_ts.Bits.{field, low_bits}
use riscv_server_soc_ts.Pcie.{
  Pal, InfoTable, pcie_success, pcie_no_mapping, pcie_cap_not_found, pcie_unknown_response,
}
use riscv_server_soc_ts.Pcie.Config.{read_cfg}

-- BITFIELD_REGISTER_TYPE
pub data RegType : Type 0 where
  header pcie_cap pcie_ecap : RegType

abbrev pub type01_cpr : ℕ
type01_cpr = 0x34

abbrev pub pcie_ecap_start : ℕ
pcie_ecap_start = 0x100

-- The layout of a list entry: the bits of its id, and where its next offset lies.
pub record Layout : Type 0 where
  pub id_bits : ℕ
  pub next_shift : ℕ
  pub next_bits : ℕ

abbrev pub cap_layout : Layout
cap_layout = record { id_bits = 8; next_shift = 8; next_bits = 8 }

abbrev pub ecap_layout : Layout
ecap_layout = record { id_bits = 16; next_shift = 20; next_bits = 12 }

module _ {S : Type 0} (pal : Pal S) (info : Option InfoTable) where
  -- `while (next_cap_offset)`, with `reg_value` as the last read left it. `none` is a walk that has not
  -- ended when the fuel is used up; `*cid_offset` keeps `old` unless the entry is found.
  unfoldable pub walk : Layout → ℕ → ℕ → ℕ → ℕ → ℕ → ℕ → S → Option (ℕ × ℕ)
  walk l zero bdf cid old next reg s = if next == 0 then some (pcie_cap_not_found, old) else none
  walk l (suc fuel) bdf cid old next reg s =
      let reg' = (read_cfg pal info bdf next reg s).1 in
      let rest = walk l fuel bdf cid old (field reg' l.next_shift l.next_bits) reg' s in
      if next == 0
      then some (pcie_cap_not_found, old)
      else if low_bits reg' l.id_bits == cid
      then some (pcie_success, next)
      else rest

  -- `junk` is what the uninitialised `reg_value` holds.
  unfoldable pub find_capability : ℕ → ℕ → ℕ → RegType → ℕ → ℕ → S → Option (ℕ × ℕ)
  find_capability fuel junk bdf header cid old s = some (pcie_cap_not_found, old)
  find_capability fuel junk bdf pcie_cap cid old s =
      let (ret, reg) = read_cfg pal info bdf type01_cpr junk s in
      let rest = walk cap_layout fuel bdf cid old (low_bits reg 8) reg s in
      if ret == pcie_no_mapping || reg == pcie_unknown_response then some (ret, old) else rest
  find_capability fuel junk bdf pcie_ecap cid old s =
      walk ecap_layout fuel bdf cid old pcie_ecap_start junk s
