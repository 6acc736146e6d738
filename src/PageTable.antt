-- ===== src/PageTable.antt =====
-- val/src/acs_pgt.c and val/include/bsa_acs_pgt.h: translation tables in memory, filled level by level,
-- and the walk that reads the attributes of an address. What is printed is left out.
pub mod Granule
pub mod Fill
pub mod Create
pub mod Walk
pub mod Lookup
pub mod Pages
pub mod Attributes
pub mod RoundTrip
mod Tests
use riscv_server_soc_ts.Prelude.{
  ℕ, zero, suc, ◌+◌, ◌-◌, ◌*◌, ◌/◌, ◌%◌, ◌^◌, Bool, ◌==◌, if◌then◌else◌, bit_and, bit_or,
}
use riscv_server_soc_ts.Bits.{low_bits, add64, u64_mod}

-- The platform calls, over a type `S` of memory states: the 64-bit words, whole pages, and the two
-- translations of addresses. A page that cannot be allocated is 0.
pub record PagePal (S : Type 0) : Type 0 where
  pub read64 : ℕ → S → ℕ
  pub write64 : ℕ → ℕ → S → S
  pub alloc_page : S → ℕ × S
  pub free_page : ℕ → S → S
  pub clear_page : ℕ → ℕ → S → S
  pub phys_to_virt : ℕ → ℕ
  pub virt_to_phys : ℕ → ℕ
  pub memory_page_size : ℕ

-- acs_pgt_t, `is_values_init` and `offset`.
pub record PgtInfo : Type 0 where
  pub l0_index : ℕ
  pub l1_index : ℕ
  pub l2_index : ℕ
  pub l3_index : ℕ
  pub size_used : ℕ
  pub is_values_init : Bool
  pub offset : ℕ

-- tt_descriptor_t
pub record TtDescriptor : Type 0 where
  pub tt_base : ℕ
  pub input_base : ℕ
  pub input_top : ℕ
  pub output_base : ℕ
  pub level : ℕ
  pub size_log2 : ℕ
  pub nbits : ℕ

-- memory_region_descriptor_t
pub record MemRegion : Type 0 where
  pub physical_address : ℕ
  pub virtual_address : ℕ
  pub length : ℕ
  pub attributes : ℕ

-- pgt_descriptor_t, with the fields of PE_TCR_BF that the code reads.
pub record PgtDescriptor : Type 0 where
  pub pgt_base : ℕ
  pub ias : ℕ
  pub oas : ℕ
  pub tsz : ℕ
  pub tg_size_log2 : ℕ

-- PGT_ENTRY_PAGE_MASK | PGT_ENTRY_VALID_MASK, the same for a block and for a table.
abbrev pub page_entry : ℕ
page_entry = 3

abbrev pub block_entry : ℕ
block_entry = 1

abbrev pub table_entry : ℕ
table_entry = 3

abbrev pub is_pgt_entry_page : ℕ → Bool
is_pgt_entry_page value = low_bits value 2 == 3

abbrev pub is_pgt_entry_block : ℕ → Bool
is_pgt_entry_block value = low_bits value 2 == 1

-- `x & ~(uint64_t)(size - 1)`
abbrev pub align_down : ℕ → ℕ → ℕ
align_down x size = bit_and x (u64_mod - 1 - (size - 1))

-- PGT_DESC_ATTRIBUTES: the upper 12 bits and bits 2 to 11.
abbrev pub attributes_mask : ℕ
attributes_mask = (2 ^ 12 - 1) * 2 ^ 52 + (2 ^ 10 - 1) * 2 ^ 2

unfoldable pub desc_attributes : ℕ → ℕ
desc_attributes value = bit_and value attributes_mask

-- The address of `tt_base[index]`.
abbrev pub entry_at : ℕ → ℕ → ℕ
entry_at tt_base index = add64 tt_base (8 * index)
