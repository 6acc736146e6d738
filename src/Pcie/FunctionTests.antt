-- ===== src/Pcie/FunctionTests.antt =====
-- Concrete uses of the theorems on capabilities, switches, orders and the hierarchy: a root port on
-- bus 0 with an endpoint on bus 1.
use riscv_server_soc_ts.Prelude.{
  ℕ, ◌+◌, ◌≡◌, arith, refl, false, ◌==◌, if◌then◌else◌, Option, some, [], ◌∷◌,
}
use riscv_server_soc_ts.Bits.{low_bits}
use riscv_server_soc_ts.Pcie.{
  InfoTable, bdf_seg, pcie_unknown_response, get_info, load, info_end_bus, info_num_ecam,
  info_segment, info_start_bus,
}
use riscv_server_soc_ts.Pcie.Tests.{Words, words, one_region}
use riscv_server_soc_ts.Pcie.Config.{
  is_invalid, read_cfg, read_cfg_width, config_base, find_ecam, cfg_addr,
}
use riscv_server_soc_ts.Pcie.Ecam.{config_address, locate}
use riscv_server_soc_ts.Pcie.Capability.{
  pcie_cap, type01_cpr, pcie_ecap_start, cap_layout, ecap_layout, walk, find_capability,
}
use riscv_server_soc_ts.Pcie.Capability.Chain.{
  Chain, end, link, first_with, outcome, find_capability_pcie,
}
use riscv_server_soc_ts.Pcie.Device.{pciecs_base, port_type, device_port_type}
use riscv_server_soc_ts.Pcie.Next.{last_ecam, increment_bdf, position, increment_bdf_next}
use riscv_server_soc_ts.Pcie.Hierarchy.{get_rootport}
use riscv_server_soc_ts.Pcie.Hierarchy.Search.{
  Outcome, Ends, IsUpstream, answer, get_rootport_first,
}

abbrev info : Option InfoTable
info = some one_region

-- The root port 0 has buses 1 to 3; function 0x010000 is an endpoint.
abbrev space : Words
space a =
    if a == 0x40000034
    then 0x40
    else if a == 0x40000040
    then 0x400010
    else if a == 0x40000018
    then 0x30100
    else if a == 0x40000100
    then 0x1B
    else if a == 0x40100034
    then 0x40
    else if a == 0x40100040
    then 0x10
    else 0

pointer-read : (old : ℕ) → read_cfg words info 0 type01_cpr old space ≡ (0, 0x40)
unfolding read_cfg read_cfg_width config_base find_ecam get_info cfg_addr load
pointer-read old = refl

entry-read : (old : ℕ) → read_cfg words info 0 0x40 old space ≡ (0, 0x400010)
unfolding read_cfg read_cfg_width config_base find_ecam get_info cfg_addr load
entry-read old = refl

ext-read : (old : ℕ) → read_cfg words info 0 0x100 old space ≡ (0, 0x1B)
unfolding read_cfg read_cfg_width config_base find_ecam get_info cfg_addr load
ext-read old = refl

caps-Chain : Chain words info cap_layout 0 space (low_bits 0x40 8) ((0x40, 0x10) ∷ [])
caps-Chain = link 0x40 0x400010 (omega arith) entry-read end

ext-Chain : Chain words info ecap_layout 0 space pcie_ecap_start ((0x100, 0x1B) ∷ [])
ext-Chain = link 0x100 0x1B (omega arith) ext-read end

find_capability_pcie_example :
    find_capability words info 4 7 0 pcie_cap 0x10 9 space
    ≡ some (outcome 9 (first_with 0x10 ((0x40, 0x10) ∷ [])))
find_capability_pcie_example =
    find_capability_pcie words info 0 space 4 7 0x10 9 0x40 ((0x40, 0x10) ∷ []) pointer-read
      (omega arith) caps-Chain (omega arith)

-- What an empty slot answers.
abbrev ones : Words
ones a = 0xFFFFFFFF

ones-read : (old : ℕ) → read_cfg words info 0 type01_cpr old ones ≡ (0, pcie_unknown_response)
unfolding read_cfg read_cfg_width config_base find_ecam get_info cfg_addr load
ones-read old = refl

port0-address : config_address one_region 0 ≡ some 0x40000000
unfolding config_address locate cfg_addr
port0-address = refl

region-found : last_ecam words info (get_info words info info_num_ecam 0) 0 ≡ some 0
unfolding last_ecam get_info
region-found = refl

end_bus : get_info words info info_end_bus 0 ≡ 255
unfolding get_info
end_bus = refl

increment_bdf_next_example :
    (bdf_seg (increment_bdf words info 0x031F07) ≡ 0)
    × (position (increment_bdf words info 0x031F07) ≡ 0x3FF + 1)
    × (is_invalid (increment_bdf words info 0x031F07) ≡ false)
increment_bdf_next_example =
    increment_bdf_next words info 0x031F07 0 region-found refl (rw end_bus (omega arith))
      (rw end_bus (omega arith))

second_segment : get_info words info info_segment (0 + 1) ≡ 0
unfolding get_info
second_segment = refl

second_start : get_info words info info_start_bus (0 + 1) ≡ 0
unfolding get_info
second_start = refl

-- The port types of the two functions.
abbrev port : ℕ → ℕ
port d = if d == 0 then 16 else 1

port-Ends : Ends words info 4 7 space port 0
unfolding device_port_type pciecs_base find_capability walk port_type read_cfg read_cfg_width
    config_base find_ecam get_info cfg_addr load
port-Ends = refl

endpoint-Ends : Ends words info 4 7 space port 0x010000
unfolding device_port_type pciecs_base find_capability walk port_type read_cfg read_cfg_width
    config_base find_ecam get_info cfg_addr load
endpoint-Ends = refl

get_rootport_first_example :
    (r : Option ℕ) × Outcome (IsUpstream words info 4 7 space port 0x010000) (0x010000 ∷ 0 ∷ []) r
    × (get_rootport words info 4 7 0x010000 (0x010000 ∷ 0 ∷ []) space ≡ some (answer 0 r))
get_rootport_first_example =
    get_rootport_first words info 4 7 space port 0x010000 (0x010000 ∷ 0 ∷ []) endpoint-Ends
      (endpoint-Ends, (port-Ends, tt)) (omega arith) (omega arith) (omega arith) (omega arith)
