-- ===== src/MemoryMap.antt =====
-- val/src/acs_memory.c: the table of memory regions (MEMORY_INFO_TABLE of
-- val/include/pal_interface.h), which ends in an entry of its own, and the searches in it.
pub mod Entry
pub mod Region
pub mod Highest
mod Tests
use riscv_server_soc_ts.Prelude.{
  ℕ, ◌+◌, ◌-◌, Bool, ◌&&◌, ◌||◌, ◌==◌, ltb, leb, if◌then◌else◌, Option, none, some, List, [], ◌∷◌,
  get_elem?,
}
use riscv_server_soc_ts.Bits.{add64}

-- MEM_INFO_TYPE_e, and MEMORY_INFO_e with the same values.
abbrev pub type_device : ℕ
type_device = 0x1000

abbrev pub type_normal : ℕ
type_normal = 0x1001

abbrev pub type_reserved : ℕ
type_reserved = 0x1002

abbrev pub type_not_populated : ℕ
type_not_populated = 0x1003

abbrev pub type_last_entry : ℕ
type_last_entry = 0x1004

-- MEM_INFO_BLOCK
pub record MemBlock : Type 0 where
  pub type : ℕ
  pub phy_addr : ℕ
  pub virt_addr : ℕ
  pub size : ℕ
  pub flags : ℕ

-- `info[]`, as far as it is allocated. `none`, below, is a read past its end.
abbrev pub MemTable : Type 0
MemTable = List MemBlock

abbrev pub is_last : MemBlock → Bool
is_last b = b.type == type_last_entry

abbrev pub not_found : ℕ
not_found = 0xFF

-- `val_memory_get_entry_index`, from entry `i` on.
unfoldable pub entry_index : MemTable → ℕ → ℕ → ℕ → Option ℕ
entry_index [] i type instance = none
entry_index (b ∷ bs) i type instance =
    let rest = entry_index bs (i + 1) type (if b.type == type then instance - 1 else instance) in
    if is_last b then some not_found else if b.type == type && instance == 0 then some i else rest

unfoldable pub get_entry_index : MemTable → ℕ → ℕ → Option ℕ
get_entry_index t type instance = entry_index t 0 type instance

-- The address, and what `*attr` holds after the call when it held `old` before.
unfoldable pub entry_addr : MemTable → ℕ → ℕ → Option (ℕ × ℕ)
entry_addr t old i = elim (get_elem? t i) [ none ↦ none | some b ↦ some (b.phy_addr, b.flags) ]

unfoldable pub get_addr : Option MemTable → ℕ → ℕ → ℕ → Option (ℕ × ℕ)
get_addr none mem_type instance old = some (0, old)
get_addr (some t) mem_type instance old =
    let index =
      if mem_type == type_device || mem_type == type_normal
      then get_entry_index t mem_type instance
      else some not_found in
    elim index [
      | none ↦ none
      | some i ↦ if i == not_found then some (0, old) else entry_addr t old i
    ]

-- `addr >= phy_addr && addr < phy_addr + size`
abbrev pub holds : ℕ → MemBlock → Bool
holds addr b = leb b.phy_addr addr && ltb addr (add64 b.phy_addr b.size)

-- The type of the address, and what `*attr` holds after the call.
unfoldable pub get_info : MemTable → ℕ → ℕ → Option (ℕ × ℕ)
get_info [] addr old = none
get_info (b ∷ bs) addr old =
    if is_last b
    then some (type_not_populated, old)
    else if holds addr b
    then some (b.type, b.flags)
    else get_info bs addr old

-- The loop of `val_get_max_memory`.
unfoldable pub max_loop : MemTable → ℕ → Option ℕ
max_loop [] addr = none
max_loop (b ∷ bs) addr =
    let rest = max_loop bs (if ltb addr b.phy_addr then add64 b.phy_addr b.size else addr) in
    if is_last b then some addr else rest

unfoldable pub get_max_memory : MemTable → Option ℕ
get_max_memory t = max_loop t 0
