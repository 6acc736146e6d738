-- ===== src/PageTable/Tests.antt =====
-- Memory as a map of words, with a last-level table of two pages at 0x8000.
use riscv_server_soc_ts.Prelude.{
  ℕ, ◌+◌, ◌≡◌, refl, inr, sym, arith, ◌&&◌, ◌==◌, ltb, leb, ≡→==, ≢→==, false, if◌then◌else◌, some,
  [], ◌∷◌,
}
use riscv_server_soc_ts.Bits.{bit}
use riscv_server_soc_ts.Bits.Laws.{all_below}
use riscv_server_soc_ts.PageTable.{
  desc_attributes, PagePal, PgtInfo, TtDescriptor, MemRegion, PgtDescriptor,
}
use riscv_server_soc_ts.PageTable.Granule.{log2_page_size, log2_loop}
use riscv_server_soc_ts.PageTable.Fill.{Granule, table_index, fill_translation_table}
use riscv_server_soc_ts.PageTable.Create.{pgt_create, pgt_create_first}
use riscv_server_soc_ts.PageTable.Pages.{
  IsPageMemory, IsLastLevel, Filled, fill_translation_table_pages,
}
use riscv_server_soc_ts.PageTable.Attributes.{ClearsLow}
use riscv_server_soc_ts.PageTable.Walk.{pgt_get_attributes}
use riscv_server_soc_ts.PageTable.Lookup.{
  answer, page_walk, IsDirected, pgt_get_attributes-page_walk,
}
use riscv_server_soc_ts.PageTable.RoundTrip.{
  IsRange, IsReader, pgt_get_attributes-fill_translation_table,
}

abbrev Words : Type 0
Words = ℕ → ℕ

abbrev words : PagePal Words
words = record {
  read64 = λ a s. s a;
  write64 = λ a v s b. if b == a then v else s b;
  alloc_page = λ s. (0x9000, s);
  free_page = λ a s. s;
  clear_page = λ a n s b. if leb a b && ltb b (a + n) then 0 else s b;
  phys_to_virt = λ a. a;
  virt_to_phys = λ a. a;
  memory_page_size = 0x1000;
}

words-IsPageMemory : IsPageMemory words
words-IsPageMemory = record {
  read_back = λ a value s al lt. rw (≡→== a a refl) refl;
  read_other = λ a b value s al al' ne. rw (≢→== b a (λ e. ne (sym e))) refl;
}

abbrev granule : Granule
granule = record { page_size = 0x1000; bits_per_level = 9; pgt_addr_mask = 0x1FF000 }

abbrev table : TtDescriptor
table = record {
  tt_base = 0x8000;
  input_base = 0x3000;
  input_top = 0x4FFF;
  output_base = 0x40000000;
  level = 3;
  size_log2 = 12;
  nbits = 9;
}

abbrev fresh : PgtInfo
fresh = record {
  l0_index = 0;
  l1_index = 0;
  l2_index = 0;
  l3_index = 0;
  size_used = 0;
  is_values_init = false;
  offset = 0;
}

abbrev zeros : Words
zeros a = 0

abbrev attributes : ℕ
attributes = 0x704

table-IsLastLevel : IsLastLevel words granule words-IsPageMemory table attributes
table-IsLastLevel = record { last = refl; aligned = refl; inside = omega arith; word = omega arith }

table-IsRange : IsRange words granule words-IsPageMemory table attributes table-IsLastLevel 2 3
unfolding table_index
table-IsRange = record {
  begins = refl;
  reaches = omega arith;
  ends = omega arith;
  input_fits = omega arith;
  output_fits = omega arith;
  room = omega arith;
}

-- A tree that is one table: 21 bits of input.
abbrev tree : PgtDescriptor
tree = record { pgt_base = 0x8000; ias = 21; oas = 48; tsz = 43; tg_size_log2 = 12 }

tree-IsReader : IsReader words granule words-IsPageMemory table attributes table-IsLastLevel tree
tree-IsReader = record {
  base = refl;
  present = omega arith;
  granule = refl;
  width = refl;
  sizes = (omega arith, omega arith);
  input_size = refl;
}

four_kb-ClearsLow : ClearsLow 0x1000
unfolding all_below bit
four_kb-ClearsLow = refl

four_kb : log2_page_size 0x1000 ≡ 12
unfolding log2_page_size log2_loop
four_kb = refl

fill_translation_table_pages_example :
    Filled words granule words-IsPageMemory table attributes 2
      (table_index table 0x3000)
      0x40000000
      zeros
      (fill_translation_table words granule 5 table attributes fresh zeros)
unfolding table_index
fill_translation_table_pages_example =
    fill_translation_table_pages words granule words-IsPageMemory table attributes table-IsLastLevel
      2 5 fresh zeros (omega arith) (omega arith) (omega arith) (omega arith) (omega arith)
      (omega arith)

pgt_get_attributes-fill_translation_table_example :
    (g' : PgtInfo) × (s' : Words) × (fill_translation_table words granule 5 table attributes fresh
        zeros
      ≡ some (0, g', s'))
    × (pgt_get_attributes words 1 tree 0x4008 9 s' ≡ some (0, attributes))
pgt_get_attributes-fill_translation_table_example =
    pgt_get_attributes-fill_translation_table words granule words-IsPageMemory table attributes
      table-IsLastLevel 2 5 3 1 8 9 tree fresh zeros table-IsRange tree-IsReader (omega arith)
      (omega arith) (omega arith) four_kb-ClearsLow refl

-- Four levels: 48 bits of input.
abbrev deep_tree : PgtDescriptor
deep_tree = record { pgt_base = 0x8000; ias = 48; oas = 48; tsz = 16; tg_size_log2 = 12 }

-- The way to the page of an address: a table at each of three levels, and the page.
abbrev deep : Words
deep a =
    if a == 0x8000
    then 0x9003
    else if a == 0x9020
    then 0xA003
    else if a == 0xA8D0
    then 0xB003
    else if a == 0xB2B0
    then 0x40000403
    else 0

deep-IsDirected : IsDirected words 48 12 3 0x123456789 0x8000 deep
deep-IsDirected = inr (refl, omega arith, inr (refl, omega arith, inr (refl, omega arith, tt)))

pgt_get_attributes-page_walk_example :
    pgt_get_attributes words 4 deep_tree 0x123456789 9 deep
    ≡ some (answer 9 (page_walk words 12 3 0x123456789 0x8000 deep))
pgt_get_attributes-page_walk_example =
    pgt_get_attributes-page_walk words 3 4 0x123456789 9 deep_tree deep (omega arith) (omega arith)
      (omega arith) (omega arith) refl (omega arith) (omega arith) deep-IsDirected

-- The page is found.
deep_page : page_walk words 12 3 0x123456789 0x8000 deep ≡ some 0x400
unfolding page_walk desc_attributes
deep_page = refl

abbrev region : ℕ → MemRegion
region base = record {
  physical_address = base;
  virtual_address = base;
  length = 0x1000;
  attributes = attributes;
}

abbrev end_region : MemRegion
end_region = record { physical_address = 0; virtual_address = 0; length = 0; attributes = 0 }

pgt_create_first_example :
    pgt_create words 9 (region 0x1000 ∷ region 0x5000 ∷ end_region ∷ []) tree fresh zeros
    ≡ pgt_create words 9 (region 0x1000 ∷ region 0x7000 ∷ end_region ∷ []) tree fresh zeros
pgt_create_first_example =
    pgt_create_first words 9 tree (region 0x1000) end_region (region 0x5000 ∷ [])
      (region 0x7000 ∷ []) fresh zeros (omega arith) (omega arith) refl (omega arith)
