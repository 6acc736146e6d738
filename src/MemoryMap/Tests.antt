-- ===== src/MemoryMap/Tests.antt =====
-- A device region and two regions of normal memory, the second of them adjacent to the first or not.
use riscv_server_soc_ts.Prelude.{ℕ, ◌≡◌, refl, arith, none, some, [], ◌∷◌, ◌++◌}
use riscv_server_soc_ts.MemoryMap.{
  MemBlock, MemTable, type_device, type_normal, type_last_entry, get_entry_index, entry_index,
  get_addr, entry_addr, get_info, get_max_memory, max_loop,
}
use riscv_server_soc_ts.MemoryMap.Highest.{IsHighest, get_max_memory-IsHighest}

abbrev block : ℕ → ℕ → ℕ → MemBlock
block type base size = record {
  type = type;
  phy_addr = base;
  virt_addr = base;
  size = size;
  flags = 3;
}

abbrev last : MemBlock
last = block type_last_entry 0 0

abbrev uart : MemBlock
uart = block type_device 0x10000000 0x1000

abbrev ram : MemBlock
ram = block type_normal 0x80000000 0x40000000

abbrev high_ram : MemBlock
high_ram = block type_normal 0x100000000 0x40000000

abbrev more_ram : MemBlock
more_ram = block type_normal 0xC0000000 0x40000000

abbrev regions : MemTable
regions = uart ∷ ram ∷ high_ram ∷ []

abbrev map : MemTable
map = regions ++ last ∷ []

second_ram : get_addr (some map) type_normal 1 0 ≡ some (0x100000000, 3)
unfolding get_addr get_entry_index entry_index entry_addr
second_ram = refl

no_device : get_addr (some map) type_device 1 0 ≡ some (0, 0)
unfolding get_addr get_entry_index entry_index entry_addr
no_device = refl

-- A table without its last entry is read past its end.
unterminated : get_info regions 0x10 0 ≡ none
unfolding get_info
unterminated = refl

adjacent_end : get_max_memory (uart ∷ ram ∷ more_ram ∷ last ∷ []) ≡ some 0xC0000000
unfolding get_max_memory max_loop
adjacent_end = refl

get_max_memory-IsHighest_example :
    (high : ℕ) × (get_max_memory map ≡ some high) × IsHighest high 0 regions
get_max_memory-IsHighest_example =
    get_max_memory-IsHighest last [] regions refl (omega arith) (omega arith) (omega arith)
