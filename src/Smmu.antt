-- ===== src/Smmu.antt =====
-- val/sys_arch_src/smmu_v3: the state of the driver of SMMUs of version 3 (smmu_v3.h), its registers
-- (smmu_reg.h), and what it uses of the platform.
pub mod Positions
pub mod Sync
pub mod Command
pub mod Issue
pub mod Invalidate
pub mod Event
pub mod Drain
pub mod Align
pub mod Config
pub mod Stream
pub mod Context
pub mod Master
pub mod Init
pub mod Reset
pub mod Buffers
pub mod Walk
pub mod Unmap
pub mod Masters
mod Tests
use riscv_server_soc_ts.Prelude.{
  ℕ, ◌+◌, ◌*◌, ◌-◌, ◌/◌, ◌%◌, ◌^◌, Bool, ◌==◌, if◌then◌else◌, bit_and, Option,
}
use riscv_server_soc_ts.Bits.{low_bits, field, u64_mod}

-- The platform calls of the driver on device states and memory. A read of a register is a step of the
-- device as well. An allocation gives the address, which is 0 for NULL.
pub record SmmuPal (S : Type 0) : Type 0 where
  pub mmio_read : ℕ → S → ℕ × S
  pub mmio_write : ℕ → ℕ → S → S
  pub mmio_write64 : ℕ → ℕ → S → S
  pub read64 : ℕ → S → ℕ
  pub write64 : ℕ → ℕ → S → S
  pub calloc : ℕ → ℕ → S → ℕ × S
  pub alloc : ℕ → S → ℕ × S
  pub free : ℕ → S → S
  pub virt_to_phys : ℕ → ℕ

-- BITFIELD_GET and BITFIELD_SET of the field from bit `lsb` to bit `msb`, and the mask of an address
-- field in its place.
abbrev pub bitfield_get : ℕ → ℕ → ℕ → ℕ
bitfield_get msb lsb value = field value lsb (msb + 1 - lsb)

abbrev pub bitfield_set : ℕ → ℕ → ℕ → ℕ
bitfield_set msb lsb value = low_bits value (msb + 1 - lsb) * 2 ^ lsb

abbrev pub in_place : ℕ → ℕ → ℕ → ℕ
in_place msb lsb value = field value lsb (msb + 1 - lsb) * 2 ^ lsb

-- `align_to_size`
unfoldable pub align_to_size : ℕ → ℕ → ℕ
align_to_size addr size =
    bit_and ((size - bit_and addr (size - 1) + addr) % u64_mod) (u64_mod - 1 - (size - 1))

-- smmu_queue_t
pub record Queue : Type 0 where
  pub prod : ℕ
  pub cons : ℕ
  pub log2nent : ℕ

-- smmu_cmd_queue_t and smmu_evnt_queue_t, which have the same members.
pub record QueueBuffer : Type 0 where
  pub queue : Queue
  pub base_ptr : ℕ
  pub base : ℕ
  pub base_phys : ℕ
  pub queue_base : ℕ
  pub entry_size : ℕ
  pub prod_reg : ℕ
  pub cons_reg : ℕ

-- smmu_strtab_l1_desc_t
pub record StrtabL1Desc : Type 0 where
  pub span : ℕ
  pub l2ptr : ℕ
  pub l2desc64 : ℕ
  pub l2desc_phys : ℕ

-- smmu_strtab_config_t: the array `l1_desc` is its address and its contents.
pub record StrtabConfig : Type 0 where
  pub strtab_ptr : ℕ
  pub strtab64 : ℕ
  pub strtab_phys : ℕ
  pub l1_desc : ℕ
  pub l1_descs : ℕ → StrtabL1Desc
  pub l1_ent_count : ℕ
  pub strtab_base : ℕ
  pub strtab_base_cfg : ℕ

-- smmu_dev_t, less `msi` and `msi_address`, which are not used.
pub record SmmuDev : Type 0 where
  pub base : ℕ
  pub page1_base : ℕ
  pub ias : ℕ
  pub oas : ℕ
  pub ssid_bits : ℕ
  pub sid_bits : ℕ
  pub cmdq : QueueBuffer
  pub evntq : QueueBuffer
  pub strtab_cfg : StrtabConfig
  pub st_level_2lvl : Bool
  pub cd2l : Bool
  pub hyp : Bool
  pub s1p : Bool
  pub s2p : Bool

-- An element of an array is replaced.
abbrev pub set_at {ℓ} : {A : Type ℓ} → ℕ → A → (ℕ → A) → ℕ → A
set_at i a f = λ j. if j == i then a else f j

-- The status -1 of the command functions.
abbrev pub minus_one : ℕ
minus_one = 0xFFFFFFFF

-- The offsets of the registers.
abbrev pub idr0_offset : ℕ
idr0_offset = 0x0

abbrev pub idr1_offset : ℕ
idr1_offset = 0x4

abbrev pub idr5_offset : ℕ
idr5_offset = 0x14

abbrev pub cr0_offset : ℕ
cr0_offset = 0x20

abbrev pub cr0ack_offset : ℕ
cr0ack_offset = 0x24

abbrev pub cr1_offset : ℕ
cr1_offset = 0x28

abbrev pub cr2_offset : ℕ
cr2_offset = 0x2C

abbrev pub gerror_offset : ℕ
gerror_offset = 0x60

abbrev pub gerrorn_offset : ℕ
gerrorn_offset = 0x64

abbrev pub strtab_base_offset : ℕ
strtab_base_offset = 0x80

abbrev pub strtab_base_cfg_offset : ℕ
strtab_base_cfg_offset = 0x88

abbrev pub cmdq_base_offset : ℕ
cmdq_base_offset = 0x90

abbrev pub cmdq_prod_offset : ℕ
cmdq_prod_offset = 0x98

abbrev pub cmdq_cons_offset : ℕ
cmdq_cons_offset = 0x9C

abbrev pub evntq_base_offset : ℕ
evntq_base_offset = 0xA0

abbrev pub evntq_prod_offset : ℕ
evntq_prod_offset = 0xA8

abbrev pub evntq_cons_offset : ℕ
evntq_cons_offset = 0xAC

abbrev pub strtab_split : ℕ
strtab_split = 8

-- The bytes of a stream table entry.
abbrev pub ste_bytes : ℕ
ste_bytes = 64
