-- ===== src/PageTable/Fill.antt =====
-- `fill_translation_table` (val/src/acs_pgt.c): the loop over the addresses of one table, which calls
-- itself for the table below.
use riscv_server_soc_ts.Prelude.{
  ℕ, zero, suc, ◌+◌, ◌-◌, ◌*◌, ◌%◌, ◌^◌, Bool, true, false, ◌&&◌, ◌||◌, ◌==◌, ◌!=◌, ltb, leb,
  if◌then◌else◌, Option, none, some, bit_and, bit_or,
}
use riscv_server_soc_ts.Bits.{field, low_bits, add32, sub32, add64, u64_mod}
use riscv_server_soc_ts.Session.{acs_status_err}
use riscv_server_soc_ts.PageTable.{
  PagePal, PgtInfo, TtDescriptor, page_entry, block_entry, table_entry, is_pgt_entry_block,
  align_down, entry_at,
}
use riscv_server_soc_ts.PageTable.Granule.{
  setup_values, get_pgt_index, increment_pgt_index, get_entries_per_level, get_block_size,
}

abbrev pub sub64 : ℕ → ℕ → ℕ
sub64 a b = (a + u64_mod - b) % u64_mod

-- `page_size`, `bits_per_level` and `pgt_addr_mask`.
pub record Granule : Type 0 where
  pub page_size : ℕ
  pub bits_per_level : ℕ
  pub pgt_addr_mask : ℕ

-- The first statement of the function: the counters are set up once.
unfoldable pub initialised : PgtInfo → PgtInfo
initialised g = if g.is_values_init then g else record (setup_values g) { is_values_init = true }

abbrev pub block_size_of : TtDescriptor → ℕ
block_size_of tt = 2 ^ tt.size_log2

unfoldable pub table_index : TtDescriptor → ℕ → ℕ
table_index tt input = field input tt.size_log2 tt.nbits

unfoldable pub page_descriptor : ℕ → ℕ → ℕ → ℕ
page_descriptor page_size output attributes =
    bit_or (bit_or page_entry (align_down output page_size)) attributes

unfoldable pub block_descriptor : ℕ → ℕ → ℕ → ℕ
block_descriptor block_size output attributes =
    bit_or (bit_or block_entry (align_down output block_size)) attributes

-- May the addresses be described by a block descriptor?
unfoldable pub is_block_eligible : TtDescriptor → ℕ → ℕ → Bool
is_block_eligible tt input output =
    low_bits input tt.size_log2 == 0
    && low_bits output tt.size_log2 == 0
    && leb (sub64 (add64 input (block_size_of tt)) 1) tt.input_top

module _ {S : Type 0} (pal : PagePal S) (gr : Granule) where
  -- The table below: a page that is allocated and cleared, or the one that the entry points at. 0 is a
  -- page that could not be allocated.
  unfoldable pub next_table : ℕ → S → ℕ × S
  next_table entry s =
      let (page, s') = pal.alloc_page s in
      if entry == 0 || is_pgt_entry_block entry
      then (if page == 0 then (0, s') else (page, pal.clear_page page gr.page_size s'))
      else (pal.phys_to_virt (bit_and entry gr.pgt_addr_mask), s)

  -- `filled_tables * get_block_size (tt_desc.level + 1)`
  unfoldable pub next_offset : TtDescriptor → PgtInfo → ℕ
  next_offset tt g =
      get_pgt_index (add32 tt.level 1) g * get_block_size gr.page_size (add32 tt.level 1) % u64_mod

  unfoldable pub next_descriptor : TtDescriptor → ℕ → ℕ → ℕ → ℕ → TtDescriptor
  next_descriptor tt page input output offset =
      let max_allowed_mem = sub64 (sub64 (add64 input (block_size_of tt)) offset) 1 in
      record {
        tt_base = page;
        input_base = input;
        input_top = if ltb tt.input_top max_allowed_mem then tt.input_top else max_allowed_mem;
        output_base = output;
        level = add32 tt.level 1;
        size_log2 = sub32 tt.size_log2 gr.bits_per_level;
        nbits = gr.bits_per_level;
      }

  unfoldable pub count_up : TtDescriptor → PgtInfo → PgtInfo
  count_up tt g = increment_pgt_index tt.level (get_entries_per_level gr.page_size) g

  unfoldable pub table_descriptor : ℕ → ℕ
  table_descriptor page = bit_or table_entry (align_down (pal.virt_to_phys page) gr.page_size)

  -- The loop from an input and an output address on. Every round and every call for a table below
  -- takes one of the fuel, and `none` is a loop that has not ended when it is used up.
  unfoldable pub fill_loop : ℕ → TtDescriptor → ℕ → ℕ → ℕ → PgtInfo → S → Option (ℕ × PgtInfo × S)
  fill_loop zero tt attributes input output g s = none
  fill_loop (suc fuel) tt attributes input output g s =
      let entry = entry_at tt.tt_base (table_index tt input) in
      let block_size = block_size_of tt in
      let on_page =
        fill_loop fuel tt attributes (add64 input block_size) (add64 output block_size)
          (record (count_up tt g) { offset = 0 })
          (pal.write64 entry (page_descriptor gr.page_size output attributes) s) in
      let on_block =
        fill_loop fuel tt attributes (add64 input block_size) (add64 output block_size)
          (record (count_up tt g) { offset = 0 })
          (pal.write64 entry (block_descriptor block_size output attributes) s) in
      let (page, s') = next_table (pal.read64 entry s) s in
      let below = next_descriptor tt page input output (next_offset tt g) in
      let g' = count_up tt (record g { offset = next_offset tt g }) in
      let filled = fill_loop fuel below attributes input output g' s' in
      if leb tt.input_top input
      then some (0, g, s)
      else if tt.level == 3
      then on_page
      else if is_block_eligible tt input output
      then on_block
      else if page == 0
      then some (acs_status_err, g, s')
      else elim filled [
        | none ↦ none
        | some (status, g'', s'') ↦ elim (status != 0) [
          | true ↦ some (acs_status_err, g'', pal.free_page page s'')
          | false ↦
              fill_loop fuel tt attributes (add64 input (sub64 block_size g''.offset))
                (add64 output (sub64 block_size g''.offset)) g''
                (pal.write64 entry (table_descriptor page) s'')
        ]
      ]

  unfoldable pub fill_translation_table :
      ℕ → TtDescriptor → ℕ → PgtInfo → S → Option (ℕ × PgtInfo × S)
  fill_translation_table fuel tt attributes g s =
      fill_loop fuel tt attributes tt.input_base tt.output_base (initialised g) s
