-- ===== src/Pcie/Hierarchy.antt =====
-- The hierarchy below the root ports (val/src/acs_pcie.c), searched in the table of functions
-- `g_pcie_bdf_table`. What the searches print is left out.
pub mod Search
pub mod Downstream
use riscv_server_soc_ts.Prelude.{
  ℕ, zero, suc, ◌+◌, ◌/◌, ◌%◌, ◌^◌, Bool, ◌&&◌, ◌||◌, ◌==◌, leb, if◌then◌else◌, Option, none, some,
  List, [], ◌∷◌,
}
use riscv_server_soc_ts.Bits.{field}
use riscv_server_soc_ts.Pcie.{Pal, InfoTable, bdf_seg, bdf_bus}
use riscv_server_soc_ts.Pcie.Device.{
  reg, type1_pbn, rp, rciep, rcec, iep_rp, device_port_type, function_header_type,
}

abbrev pub is_root : ℕ → Bool
is_root dp_type = dp_type == rp || dp_type == iep_rp

-- The first entry of the table that passes a test; `none` is a test that has not ended.
unfoldable pub first_match : (ℕ → Option Bool) → List ℕ → Option (Option ℕ)
first_match test [] = some none
first_match test (d ∷ ds) =
    let rest = first_match test ds in
    elim (test d) [ none ↦ none | some b ↦ if b then some (some d) else rest ]

module _ {S : Type 0} (pal : Pal S) (info : Option InfoTable) (fuel junk : ℕ) where
  -- Of a bridge: the secondary and the subordinate bus number.
  abbrev pub sec_bus : ℕ → S → ℕ
  sec_bus bdf s = field (reg pal info fuel junk bdf type1_pbn s) 8 8

  abbrev pub sub_bus : ℕ → S → ℕ
  sub_bus bdf s = field (reg pal info fuel junk bdf type1_pbn s) 16 8

  -- The test of the loop in `val_pcie_get_rootport`.
  unfoldable pub is_rootport_of : ℕ → S → ℕ → Option Bool
  is_rootport_of bdf s d = elim (device_port_type pal info fuel junk d s) [
    | none ↦ none
    | some dp_type ↦ some (
        is_root dp_type
        && leb (sec_bus d s) (bdf_bus bdf)
        && leb (bdf_bus bdf) (sub_bus d s)
        && bdf_seg d == bdf_seg bdf)
  ]

  -- The status, and `*rp_bdf`.
  unfoldable pub get_rootport : ℕ → List ℕ → S → Option (ℕ × ℕ)
  get_rootport bdf table s = elim (device_port_type pal info fuel junk bdf s) [
    | none ↦ none
    | some dp_type ↦
        if is_root dp_type
        then some (0, bdf)
        else if dp_type == rciep || dp_type == rcec
        then some (1, 0xFFFFFFFF)
        else elim (first_match (is_rootport_of bdf s) table) [
          | none ↦ none
          | some none ↦ some (1, 0)
          | some (some d) ↦ some (0, d)
        ]
  ]

  -- The test of the loop in `val_pcie_parent_is_rootport`.
  unfoldable pub is_parent_of : ℕ → S → ℕ → Option Bool
  is_parent_of dsf_bdf s d = elim (device_port_type pal info fuel junk d s) [
    | none ↦ none
    | some dp_type ↦
        some
          (is_root dp_type && bdf_bus dsf_bdf == sec_bus d s && leb (bdf_bus dsf_bdf) (sub_bus d s))
  ]

  -- The status, and `*rp_bdf`, which held `old`.
  unfoldable pub parent_is_rootport : ℕ → ℕ → List ℕ → S → Option (ℕ × ℕ)
  parent_is_rootport dsf_bdf old table s = elim (first_match (is_parent_of dsf_bdf s) table) [
    | none ↦ none
    | some none ↦ some (1, old)
    | some (some d) ↦ some (0, d)
  ]

  -- A function of the table is downstream of a bridge.
  abbrev pub is_below : ℕ → S → ℕ → Bool
  is_below bdf s d =
      leb (sec_bus bdf s) (bdf_bus d) && leb (bdf_bus d) (sub_bus bdf s) && bdf_seg d == bdf_seg bdf

  -- The loop of `val_pcie_get_downstream_function`, with the first Type 1 function seen so far.
  unfoldable pub downstream_loop : ℕ → S → Option ℕ → List ℕ → ℕ × ℕ
  downstream_loop bdf s type1 [] = elim type1 [ none ↦ (1, 0) | some type1_bdf ↦ (0, type1_bdf) ]
  downstream_loop bdf s type1 (d ∷ ds) =
      let seen : Option ℕ = elim type1 [ none ↦ some d | some type1_bdf ↦ some type1_bdf ] in
      if is_below bdf s d
      then (if function_header_type pal info fuel junk d s == 0
          then (0, d)
          else downstream_loop bdf s seen ds)
      else downstream_loop bdf s type1 ds

  -- The status, and `*dsf_bdf`.
  unfoldable pub get_downstream_function : ℕ → List ℕ → S → ℕ × ℕ
  get_downstream_function bdf table s = downstream_loop bdf s none table
