-- ===== src/Iommu/AccessTests.antt =====
-- A use of the theorem on the registers of an IOMMU: a PCIe function whose first register is a 32-bit
-- memory BAR.
use riscv_server_soc_ts.Prelude.{
  ℕ, ◌%◌, ◌≡◌, refl, arith, sym, false, Option, some, [], ◌∷◌, ◌==◌, ≡→==, ≢→==, if◌then◌else◌,
}
use riscv_server_soc_ts.Bits.{u64_mod}
use riscv_server_soc_ts.Pcie.{Pal, InfoTable, get_info, load}
use riscv_server_soc_ts.Pcie.Config.{read_cfg, read_cfg_width, config_base, find_ecam, cfg_addr}
use riscv_server_soc_ts.Pcie.Device.{function_header_type}
use riscv_server_soc_ts.Pcie.Bars.{get_mmio_bar, bar_loop, bar_address}
use riscv_server_soc_ts.Iommu
use riscv_server_soc_ts.Iommu.{IommuEntry, IommuTable, bdf_of_rid}
use riscv_server_soc_ts.Iommu.Registers.{
  BarPal, iommu_bdf, is_refused, is_iommu, read_iommu_reg, write_iommu_reg,
}
use riscv_server_soc_ts.Iommu.Access.{IsBarMemory, IsRegisterAt, read_iommu_reg-write_iommu_reg}

abbrev Words : Type 0
Words = ℕ → ℕ

abbrev one_region : InfoTable
one_region =
    record { ecam_base = 0x40000000; segment_num = 0; start_bus_num = 0; end_bus_num = 255 } ∷ []

-- The configuration space and the BAR space.
abbrev Spaces : Type 0
Spaces = Words × Words

abbrev spaces : Pal Spaces
spaces = record {
  mmio_read = λ w a s. s.0 a;
  mmio_write = λ w a v s. ((λ b. if b == a then v else s.0 b), s.1);
  mcfg_ecam = 0x40000000;
  dsdt_ptr = 0;
  is_onchip_peripheral = λ bdf. 0;
  check_device_valid = λ bdf. 0;
}

abbrev bar_space : BarPal Spaces
bar_space = record {
  map_mmio = λ base length s. s;
  bar_mem_read = λ bdf a s. s.1 a;
  bar_mem_write = λ bdf a v s. (s.0, (λ b. if b == a then v else s.1 b));
  is_exerciser = λ bdf. false;
  exerciser_base = λ bdf ecam. 0;
}

abbrev info : Option InfoTable
info = some one_region

-- The configuration space is apart from the BAR space.
read_cfg-bar_mem_write :
    (bdf a value f offset old : ℕ) (s : Spaces)
    → read_cfg spaces info f offset old (bar_space.bar_mem_write bdf a value s)
      ≡ read_cfg spaces info f offset old s
unfolding read_cfg read_cfg_width load
read_cfg-bar_mem_write bdf a value f offset old s = refl

bar_space-IsBarMemory : IsBarMemory spaces bar_space info 0x80000000 0x80001000
bar_space-IsBarMemory = record {
  read_back = λ bdf a value s lo hi al lt. rw (≡→== a a refl) refl;
  read_other = λ bdf a a' value s lo hi lo' hi' al al' ne. rw (≢→== a' a (λ e. ne (sym e))) refl;
  header_kept =
      λ bdf a value f offset old s lo hi lt. read_cfg-bar_mem_write bdf a value f offset old s;
}

abbrev node : IommuEntry
node = record {
  device_type = 0;
  iommu_offset = 0;
  base_address = 0;
  flags = 1;
  pcie_seg = 0;
  pcie_bdf = 0x0100;
  pcie_rc_seg = 0;
  id_mapping_table = [];
}

abbrev table : IommuTable
table = some (node ∷ [])

abbrev start : Spaces
start = ((λ a. if a == 0x40100010 then 0x80000000 else 0), (λ a. 0))

register-IsRegisterAt :
    IsRegisterAt spaces bar_space info 0x80000000 0x80001000 bar_space-IsBarMemory 4 7 9 table 0 16
      0x80000000 start
unfolding is_refused is_iommu Iommu.get_info Iommu.entry_info iommu_bdf bdf_of_rid get_mmio_bar
    bar_loop bar_address function_header_type read_cfg read_cfg_width config_base find_ecam get_info
    cfg_addr load
register-IsRegisterAt = record {
  present = refl;
  iommu = refl;
  pcie = refl;
  plain = refl;
  place = refl;
  aligned = (refl, refl);
  inside = omega arith;
  window = (omega arith, omega arith);
}

read_iommu_reg-write_iommu_reg_example :
    (s' : Spaces) × (write_iommu_reg spaces bar_space info 4 7 9 table 0 16 2 0x123456789 start
      ≡ some s')
    × (read_iommu_reg spaces bar_space info 4 7 9 table 0 16 2 s'
        ≡ some (0x123456789 % u64_mod, s'))
read_iommu_reg-write_iommu_reg_example =
    read_iommu_reg-write_iommu_reg spaces bar_space info 0x80000000 0x80001000 bar_space-IsBarMemory
      4 7 9 table 0 16 0x80000000 0x123456789 start register-IsRegisterAt
