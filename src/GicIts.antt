-- ===== src/GicIts.antt =====
-- The driver of the interrupt translation services (val/sys_arch_src/gic/its): its state, and the
-- platform calls that it makes.
pub mod Redistributor
pub mod Tables
pub mod Command
pub mod Lpi
pub mod Position
pub mod MaxLpi
mod Tests
use riscv_server_soc_ts.Prelude.{
  ℕ, ◌+◌, ◌*◌, ◌-◌, ◌/◌, ◌%◌, ◌^◌, Bool, ◌==◌, ◌!=◌, if◌then◌else◌, bit_and, bit_or,
}
use riscv_server_soc_ts.Bits.{low_bits, field, u32_mod, u64_mod}

-- The platform calls on device states and memory. A read of a register is a step of the device as
-- well. `aligned_alloc` takes the alignment and the size, `set` an address, a size and a value.
pub record ItsPal (S : Type 0) : Type 0 where
  pub mmio_read : ℕ → S → ℕ × S
  pub mmio_read64 : ℕ → S → ℕ × S
  pub mmio_write : ℕ → ℕ → S → S
  pub mmio_write8 : ℕ → ℕ → S → S
  pub mmio_write64 : ℕ → ℕ → S → S
  pub aligned_alloc : ℕ → ℕ → S → ℕ × S
  pub memory_set : ℕ → ℕ → ℕ → S → S
  pub barrier : S → S
  pub mpidr : ℕ

-- GIC_ITS_BLOCK
pub record ItsBlock : Type 0 where
  pub block_id : ℕ
  pub base : ℕ
  pub command_q_base : ℕ
  pub id_bits : ℕ
  pub itt_base : ℕ

-- GIC_ITS_INFO: the array is a function.
pub record GicItsInfo : Type 0 where
  pub gicd_base : ℕ
  pub gic_rd_base : ℕ
  pub gic_num_its : ℕ
  pub gic_its : ℕ → ItsBlock

-- The globals: `g_gic_its_info`, `g_cwriter_ptr` as a function, `g_its_setup_done` and `ConfigBase`.
pub record ItsState : Type 0 where
  pub info : GicItsInfo
  pub cwriter_ptr : ℕ → ℕ
  pub setup_done : Bool
  pub lpi_config_base : ℕ

abbrev pub set_at : {A : Type 0} → ℕ → A → (ℕ → A) → ℕ → A
set_at i x f j = if j == i then x else f j

abbrev pub with_block : ℕ → ItsBlock → ItsState → ItsState
with_block i b st = record st { info = record (st.info) { gic_its = set_at i b st.info.gic_its } }

-- An address is put in the bits from `lsb` to `msb` of a register that keeps its other bits.
unfoldable pub put_address : ℕ → ℕ → ℕ → ℕ → ℕ
put_address msb lsb address value =
    let mask = 2 ^ (msb + 1) - 2 ^ lsb in
    bit_or (bit_and value (u64_mod - 1 - mask)) (bit_and address mask)

unfoldable pub size_to_pages : ℕ → ℕ
size_to_pages size = size / 4096 + (if low_bits size 12 != 0 then 1 else 0)

abbrev pub pages_to_size : ℕ → ℕ
pages_to_size pages = pages * 4096 % u32_mod

abbrev pub num_pages_8 : ℕ
num_pages_8 = 8

-- NUM_PAGES_8 * SIZE_4KB
abbrev pub queue_bytes : ℕ
queue_bytes = 32768

abbrev pub size_64kb : ℕ
size_64kb = 0x10000

-- Offsets of registers.
abbrev pub gicd_typer : ℕ
gicd_typer = 4

abbrev pub gicr_ctlr : ℕ
gicr_ctlr = 0

abbrev pub gicr_typer : ℕ
gicr_typer = 8

abbrev pub gicr_propbaser : ℕ
gicr_propbaser = 0x70

abbrev pub gicr_pendbaser : ℕ
gicr_pendbaser = 0x78

abbrev pub gits_ctlr : ℕ
gits_ctlr = 0

abbrev pub gits_typer : ℕ
gits_typer = 8

abbrev pub gits_cbaser : ℕ
gits_cbaser = 0x80

abbrev pub gits_cwriter : ℕ
gits_cwriter = 0x88

abbrev pub gits_creadr : ℕ
gits_creadr = 0x90

abbrev pub gits_translater : ℕ
gits_translater = 0x10040

abbrev pub gits_baser : ℕ → ℕ
gits_baser n = 0x100 + 8 * n
