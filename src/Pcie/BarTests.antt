-- ===== src/Pcie/BarTests.antt =====
-- Concrete uses of the theorems on regions, base address registers, the scan of a bridge and the
-- check of register fields.
use Prim.Native.String.{String}
use riscv_server_soc_ts.Prelude.{
  ℕ, ◌≡◌, ◌⊎◌, arith, refl, Bool, false, ◌&&◌, ◌==◌, ◌!=◌, bit_xor, leb, if◌then◌else◌, Option,
  some,
}
use riscv_server_soc_ts.Bits.{field}
use riscv_server_soc_ts.Pcie.{InfoTable, bdf_seg, bdf_bus, get_info, load, info_num_ecam, info_ecam}
use riscv_server_soc_ts.Pcie.Tests.{
  Words, words, words-IsMemory, one_region, one_region-IsWellFormed,
}
use riscv_server_soc_ts.Pcie.Config.{read_cfg, read_cfg_width, config_base, find_ecam, cfg_addr}
use riscv_server_soc_ts.Pcie.Ecam.{config_address, locate}
use riscv_server_soc_ts.Pcie.Memory.{IsRegister}
use riscv_server_soc_ts.Pcie.Capability.{header}
use riscv_server_soc_ts.Pcie.Device.{reg, type1_pbn, function_header_type}
use riscv_server_soc_ts.Pcie.Regions.{type0_header, get_ecam_index, get_ecam_index_agrees}
use riscv_server_soc_ts.Pcie.Bars.{
  type01_bar, bar_mdt, bar_count, bar_loop, bar_address, get_mmio_bar, FirstBar, get_mmio_bar_first,
}
use riscv_server_soc_ts.Pcie.Bridge.{scan_bridge, scan_bridge_own}
use riscv_server_soc_ts.Pcie.Bitfields.{
  read_write, read_only, Attribute, BitfieldEntry, field_of, placed_mask, reg_mask, reg_shift,
  find_base,
}
use riscv_server_soc_ts.Pcie.Bitfields.Writable.{
  alter_plain, fixed_plain, Leaves, bitfield_check_alterable, bitfield_check_fixed,
}

abbrev info : Option InfoTable
info = some one_region

-- An endpoint on bus 1 with an I/O register, then a 64-bit memory register.
abbrev space : Words
space a =
    if a == 0x40100004
    then 0x00100006
    else if a == 0x40100010
    then 0x1001
    else if a == 0x40100014
    then 0x8000000C
    else if a == 0x40100018
    then 0x12
    else 0

abbrev fun : ℕ
fun = 0x010000

fun-type0 : function_header_type words info 4 7 fun space ≡ type0_header
unfolding function_header_type read_cfg read_cfg_width config_base find_ecam get_info cfg_addr load
fun-type0 = refl

regions : get_info words info info_num_ecam 0 ≡ 1
unfolding get_info
regions = refl

second_bar : get_mmio_bar words info 4 7 (λ b. false) (λ b e. 0) 9 fun 0 space ≡ some 0x1280000000
unfolding get_mmio_bar bar_loop bar_address function_header_type read_cfg read_cfg_width config_base
    find_ecam get_info cfg_addr load
second_bar = refl

get_ecam_index_agrees_example :
    let base =
      find_ecam words info (get_info words info info_num_ecam 0) 0 (bdf_bus fun) (bdf_seg fun) in
    ((k : ℕ) × (get_ecam_index words info 4 7 fun 9 space ≡ (0, k))
      × (base ≡ get_info words info info_ecam k))
    ⊎ ((get_ecam_index words info 4 7 fun 9 space ≡ (1, 9)) × (base ≡ 0))
get_ecam_index_agrees_example = get_ecam_index_agrees words info 4 7 fun 9 space fun-type0

get_mmio_bar_first_example :
    (found : ℕ) × (get_mmio_bar words info 4 7 (λ b. false) (λ b e. 0) 9 fun 0 space ≡ some found)
    × FirstBar words info 4 7 fun 0 0 (bar_count words info 4 7 fun space) space found
get_mmio_bar_first_example =
    get_mmio_bar_first words info 4 7 (λ b. false) (λ b e. 0) 9 fun 0 space refl

scan_bridge_own_example :
    let value = reg words info 4 7 fun type1_pbn space in
    scan_bridge words info 4 7 fun space ≡ (
      if function_header_type words info 4 7 fun space == type0_header
        && leb (field value 8 8) (field value 16 8)
        && bar_mdt (reg words info 4 7 fun type01_bar space) != 0
      then 1
      else 0)
scan_bridge_own_example = scan_bridge_own words info 4 7 fun space

-- The two enable bits of the command register, with an attribute.
abbrev enables : Attribute → BitfieldEntry
enables attr = record {
  reg_type = header;
  cap_id = 0;
  ecap_id = 0;
  reg_offset = 4;
  dev_port_bitmask = 0x1000;
  start = 1;
  end = 2;
  cfg_value = 3;
  attr = attr;
  err_str1 = "MSE value mismatch";
  err_str2 = "MSE attribute mismatch";
}

abbrev never : String → Bool
never text = false

fun-address : config_address one_region fun ≡ some 0x40100000
unfolding config_address locate cfg_addr
fun-address = refl

command-IsRegister : IsRegister 4
command-IsRegister = (omega arith, omega arith)

enables-found :
    (attr : Attribute)
    → find_base words info 4 7 never (enables attr) fun space header ≡ some (0, 0)
unfolding find_base
enables-found attr = refl

enables-expected :
    (attr : Attribute) → field_of (enables attr) (read_cfg words info fun 4 7 space).1 ≡ 3
unfolding field_of reg_mask reg_shift read_cfg read_cfg_width config_base find_ecam get_info
    cfg_addr load
enables-expected attr = refl

enables-mask : (attr : Attribute) → placed_mask (enables attr) ≡ 6
unfolding placed_mask reg_mask reg_shift
enables-mask attr = refl

bitfield_check_alterable_example :
    Leaves words words-IsMemory one_region one_region-IsWellFormed 4 7 never fun 0x40100000 4
      fun-address command-IsRegister
      (enables read_write)
      space
      0
      (read_cfg words info fun 4 7 space).1
bitfield_check_alterable_example =
    bitfield_check_alterable words words-IsMemory one_region one_region-IsWellFormed 4 7 never fun
      0x40100000 4 fun-address command-IsRegister (enables read_write) 0 space
      (enables-found read_write) refl (enables-expected read_write) alter_plain

bitfield_check_fixed_example :
    Leaves words words-IsMemory one_region one_region-IsWellFormed 4 7 never fun 0x40100000 4
      fun-address command-IsRegister
      (enables read_only)
      space
      1
      (bit_xor (read_cfg words info fun 4 7 space).1 (placed_mask (enables read_only)))
bitfield_check_fixed_example =
    bitfield_check_fixed words words-IsMemory one_region one_region-IsWellFormed 4 7 never fun
      0x40100000 4 fun-address command-IsRegister (enables read_only) 0 space
      (enables-found read_only) refl (enables-expected read_only) fixed_plain
      (λ none_set. omega (arith, enables-mask read_only)) refl
