-- ===== src/Pcie/Table/Tests.antt =====
-- Concrete uses of the theorems on the table of functions: an endpoint on bus 1 and an empty slot,
-- with registers that no write changes.
use riscv_server_soc_ts.Prelude.{ℕ, ◌≡◌, arith, refl, ◌==◌, if◌then◌else◌, false, some, [], ◌∷◌}
use riscv_server_soc_ts.Pcie.{Pal, InfoTable, get_info, info_num_ecam, load}
use riscv_server_soc_ts.Pcie.Config.{read_cfg, read_cfg_width, config_base, find_ecam, cfg_addr}
use riscv_server_soc_ts.Pcie.Capability.{find_capability, walk}
use riscv_server_soc_ts.Pcie.Table.Contents.{Ends, Adds, record_functions-Adds}

abbrev registers : ℕ → ℕ
registers a =
    if a == 0x40100000
    then 0x1234
    else if a == 0x40100034
    then 0x40
    else if a == 0x40100040
    then 0x10
    else if a == 0x40108000
    then 0xFFFFFFFF
    else 0

abbrev fixed : Pal ℕ
fixed = record {
  mmio_read = λ w a s. registers a;
  mmio_write = λ w a v s. s;
  mcfg_ecam = 0x40000000;
  dsdt_ptr = 0;
  is_onchip_peripheral = λ bdf. 0;
  check_device_valid = λ bdf. 0;
}

abbrev regions : InfoTable
regions =
    record { ecam_base = 0x40000000; segment_num = 0; start_bus_num = 0; end_bus_num = 255 } ∷ []

endpoint-Ends : Ends fixed (some regions) 4 7 false 0x010000
unfolding find_capability walk read_cfg read_cfg_width config_base find_ecam get_info cfg_addr load
endpoint-Ends s = ((0, 0x40), refl)

empty_slot-Ends : Ends fixed (some regions) 4 7 false 0x010100
unfolding find_capability walk read_cfg read_cfg_width config_base find_ecam get_info cfg_addr load
empty_slot-Ends s = (_, refl)

record_functions-Adds_example :
    Adds fixed (some regions) 4 7 false (0x010000 ∷ 0x010100 ∷ []) (0 ∷ []) 3
record_functions-Adds_example =
    record_functions-Adds fixed (some regions) 4 7 false (0x010000 ∷ 0x010100 ∷ []) (0 ∷ []) 3
      (endpoint-Ends, (empty_slot-Ends, tt)) (omega arith)

no_regions : get_info fixed (some []) info_num_ecam 0 ≡ 0
unfolding get_info
no_regions = refl
