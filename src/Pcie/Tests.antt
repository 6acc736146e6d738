-- ===== src/Pcie/Tests.antt =====
-- Concrete uses of the theorems on the PCIe code, on a configuration space that is a map of words.
use riscv_server_soc_ts.Prelude.{
  ℕ, ◌≡◌, arith, refl, sym, ◌==◌, ≡→==, ≢→==, if◌then◌else◌, some, [], ◌∷◌,
}
use riscv_server_soc_ts.Pcie.{Pal, InfoTable, u32}
use riscv_server_soc_ts.Pcie.Config.{read_cfg, write_cfg, cfg_addr}
use riscv_server_soc_ts.Pcie.Ecam.{Accesses, config_address, locate, config-Accesses}
use riscv_server_soc_ts.Pcie.Isolation.{IsWellFormed, SameFunction}
use riscv_server_soc_ts.Pcie.Memory.{IsMemory, read_cfg-write_cfg_other}

-- The words of the address space.
abbrev pub Words : Type 0
Words = ℕ → ℕ

abbrev pub words : Pal Words
words = record {
  mmio_read = λ w a s. s a;
  mmio_write = λ w a v s b. if b == a then v else s b;
  mcfg_ecam = 0x40000000;
  dsdt_ptr = 0;
  is_onchip_peripheral = λ bdf. 0;
  check_device_valid = λ bdf. 0;
}

pub words-IsMemory : IsMemory words
words-IsMemory = record {
  read_back = λ a value s al lt. rw (≡→== a a refl) refl;
  read_other = λ a a' value s al al' ne. rw (≢→== a' a (λ e. ne (sym e))) refl;
}

-- One region, of segment 0 and all its buses.
abbrev pub one_region : InfoTable
one_region =
    record { ecam_base = 0x40000000; segment_num = 0; start_bus_num = 0; end_bus_num = 255 } ∷ []

pub one_region-IsWellFormed : IsWellFormed one_region
one_region-IsWellFormed = ((omega arith, omega arith, omega arith, omega arith), tt, tt)

-- Function 1 of device 2 on bus 3, and function 0 of the device.
abbrev fun1 : ℕ
fun1 = 0x030201

abbrev fun0 : ℕ
fun0 = 0x030200

fun1-address : config_address one_region fun1 ≡ some 0x40311000
unfolding config_address locate cfg_addr
fun1-address = refl

fun0-address : config_address one_region fun0 ≡ some 0x40310000
unfolding config_address locate cfg_addr
fun0-address = refl

fun1-fun0 : ¬ SameFunction fun1 fun0
fun1-fun0 (_, _, _, f) = absurd (ground arith)

abbrev zeros : Words
zeros a = 0

config-Accesses_example : Accesses words one_region u32 fun1 4 (config_address one_region fun1)
config-Accesses_example = config-Accesses words one_region u32 fun1 4

read_cfg-write_cfg_other_example :
    read_cfg words (some one_region) fun0 4 7 (write_cfg words (some one_region) fun1 4 6 zeros)
    ≡ read_cfg words (some one_region) fun0 4 7 zeros
read_cfg-write_cfg_other_example =
    read_cfg-write_cfg_other words words-IsMemory one_region one_region-IsWellFormed fun1 fun0 4 4 6
      7 zeros fun1-fun0 (omega arith, refl) (omega arith, refl)
