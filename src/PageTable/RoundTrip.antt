-- ===== src/PageTable/RoundTrip.antt =====
-- A table of the last level that is filled and then read: the attributes of every page of the range.
use native.Mathlib.Nat.{add-mul-div_right, div-eq_of_lt, mod-add-div', mul-div_cancel, add-mul}
use riscv_server_soc_ts.Prelude.{
  ℕ, ◌+◌, ◌-◌, ◌*◌, ◌/◌, ◌%◌, ◌^◌, ◌≤◌, ◌<◌, ◌≡◌, ◌≢◌, sym, ap, ◌∙◌, arith, true, if◌then◌else◌,
  Option, some, bit_and,
}
use riscv_server_soc_ts.Bits.{field, sub32, u64_mod}
use riscv_server_soc_ts.Bits.Laws.{two_pow_pos}
use riscv_server_soc_ts.Session.{acs_status_err}
use riscv_server_soc_ts.PageTable.{
  PagePal, PgtInfo, TtDescriptor, PgtDescriptor, attributes_mask, entry_at, is_pgt_entry_page,
  desc_attributes,
}
use riscv_server_soc_ts.PageTable.Fill.{
  Granule, table_index, page_descriptor, fill_translation_table,
}
use riscv_server_soc_ts.PageTable.Pages.{
  IsPageMemory, IsLastLevel, page, entries, entry, place, fill_translation_table_pages,
}
use riscv_server_soc_ts.PageTable.Attributes.{
  ClearsLow, page_descriptor-is_page, desc_attributes-page_descriptor,
}
use riscv_server_soc_ts.PageTable.Walk.{level_walk, pgt_get_attributes, pgt_get_attributes_levels}

-- The number of the page of an address that lies `x` above a multiple of the page size.
page_number : (a k x b : ℕ) → x < b → (a * b + k * b + x) / b ≡ a + k
page_number a k x b h =
    let sum : a * b + k * b + x ≡ x + (a + k) * b = omega (arith, add-mul a k b) in
    rw (sum)
      (add-mul-div_right x (a + k) (omega arith) ∙ omega (arith, div-eq_of_lt {n = x} {m = b} h))

-- Its entry in a table of `m` entries that holds the whole range.
index_plain :
    (input a k x b m n : ℕ)
    → 0 < b
    → input ≡ a * b
    → k < n
    → x < b
    → input / b % m + n ≤ m
    → (input + k * b + x) / b % m ≡ input / b % m + k
index_plain input a k x b m n pos e lt inside room =
    let start : input / b ≡ a = ap (λ (y : ℕ). y / b) e ∙ mul-div_cancel a pos in
    let number : (input + k * b + x) / b ≡ a + k =
      ap (λ (y : ℕ). (y + k * b + x) / b) e ∙ page_number a k x b inside in
    let split = mod-add-div' a m in
    let same : input / b % m ≡ a % m = ap (λ (y : ℕ). y % m) start in
    let fits : a % m + k < m = omega arith in
    let parts : a + k ≡ a % m + k + a / m * m = omega arith in
    ap (λ (y : ℕ). y % m) number ∙ place (a + k) (a % m + k) (a / m) m parts fits ∙ omega arith

scaled : (k n b : ℕ) → k < n → k * b ≤ n * b
scaled k n b h = grind arith

-- What the last level makes of an entry.
abbrev answer : ℕ → ℕ → ℕ × ℕ
answer old value =
    if is_pgt_entry_page value then (0, desc_attributes value) else (acs_status_err, old)

answers :
    (old value : ℕ) {attributes : ℕ}
    → is_pgt_entry_page value ≡ true
    → desc_attributes value ≡ attributes
    → answer old value ≡ (0, attributes)
answers old value is_page found = rw (is_page) (ap (λ (w : ℕ). let r : ℕ × ℕ = (0, w) in r) found)

module _ {S : Type 0} (pal : PagePal S) (gr : Granule) (memory : IsPageMemory pal)
    (tt : TtDescriptor) (attributes : ℕ) (table : IsLastLevel pal gr memory tt attributes) where
  -- A range of `n` pages, from page `a` on, that fits into the table and below 2^52.
  pub record IsRange (n a : ℕ) : Type 0 where
    pub begins : tt.input_base ≡ a * page pal gr memory tt attributes
    pub reaches : tt.input_top ≤ tt.input_base + n * page pal gr memory tt attributes
    pub ends :
        tt.input_base + n * page pal gr memory tt attributes
        < tt.input_top + page pal gr memory tt attributes
    pub input_fits : tt.input_base + n * page pal gr memory tt attributes < u64_mod
    pub output_fits : tt.output_base + n * page pal gr memory tt attributes < 2 ^ 52
    pub room : table_index tt tt.input_base + n ≤ entries pal gr memory tt attributes

  -- A descriptor of a tree that is the table alone: its base is the table's, and the input size that of
  -- one level of the granule.
  pub record IsReader (d : PgtDescriptor) : Type 0 where
    pub base : pal.phys_to_virt d.pgt_base ≡ tt.tt_base
    pub present : d.pgt_base ≢ 0
    pub granule : d.tg_size_log2 ≡ tt.size_log2
    pub width : tt.nbits ≡ tt.size_log2 - 3
    pub sizes : (3 < tt.size_log2) × (tt.size_log2 < 32)
    pub input_size : sub32 64 d.tsz ≡ 1 * (d.tg_size_log2 - 3) + d.tg_size_log2

  index_of :
      (n a k x : ℕ)
      → IsRange n a
      → k < n
      → x < page pal gr memory tt attributes
      → field (tt.input_base + k * page pal gr memory tt attributes + x) tt.size_log2 tt.nbits
        ≡ table_index tt tt.input_base + k
  unfolding table_index
  index_of n a k x range lt inside =
      index_plain tt.input_base a k x (page pal gr memory tt attributes)
        (entries pal gr memory tt attributes) n (two_pow_pos tt.size_log2) range.begins lt inside
        range.room

  -- What the walk gives when the entry of the address holds a value.
  reads :
      (n a k x old : ℕ) (d : PgtDescriptor) (s : S)
      → IsRange n a
      → IsReader d
      → k < n
      → x < page pal gr memory tt attributes
      → (value : ℕ)
      → pal.read64 (entry pal gr memory tt attributes (table_index tt tt.input_base + k)) s ≡ value
      → pgt_get_attributes pal 1 d (tt.input_base + k * page pal gr memory tt attributes + x) old s
        ≡ some (answer old value)
  unfolding level_walk
  reads n a k x old d s range reader lt inside value e =
      let va = tt.input_base + k * page pal gr memory tt attributes + x in
      let p = d.tg_size_log2 in
      let r = table_index tt tt.input_base in
      let walk =
        pgt_get_attributes_levels pal 0 1 va old d s (omega arith) (omega arith)
          (omega (arith, reader.granule, reader.sizes))
          (omega (arith, reader.granule, reader.sizes)) reader.input_size reader.present in
      let index : field va p (p - 3) ≡ r + k =
        ap (λ (w : ℕ). field va w (w - 3)) reader.granule
        ∙ ap (λ (w : ℕ). field va tt.size_log2 w) (sym reader.width)
        ∙ index_of n a k x range lt inside in
      let room = range.room in
      let at : entry_at (pal.phys_to_virt d.pgt_base) (field va p (p - 3))
          ≡ entry pal gr memory tt attributes (r + k) =
        ap (λ (w : ℕ). entry_at w (field va p (p - 3))) reader.base
        ∙ ap (λ (w : ℕ). entry_at tt.tt_base w) index
        ∙ omega (arith, table.inside) in
      let loaded : pal.read64 (entry_at (pal.phys_to_virt d.pgt_base) (field va p (p - 3))) s
          ≡ value =
        ap (λ (w : ℕ). pal.read64 w s) at ∙ e in
      walk ∙ ap (λ (v : ℕ). let w : Option (ℕ × ℕ) = some (answer old v) in w) loaded

  -- A table of the last level that is filled for a range of pages is read again: the walk for an
  -- address in the range, by a descriptor whose tree is this table, gives the attributes that the range
  -- was filled with, for a page size of at least 4 KB and attributes in the bits for attributes.
  pub pgt_get_attributes-fill_translation_table :
      (n fuel a k x old : ℕ) (d : PgtDescriptor) (g : PgtInfo) (s : S)
      → IsRange n a
      → IsReader d
      → n < fuel
      → k < n
      → x < page pal gr memory tt attributes
      → ClearsLow gr.page_size
      → bit_and attributes attributes_mask ≡ attributes
      → (g' : PgtInfo) × (s' : S) × (fill_translation_table pal gr fuel tt attributes g s
          ≡ some (0, g', s'))
        × (pgt_get_attributes pal 1 d
              (tt.input_base + k * page pal gr memory tt attributes + x)
              old
              s'
            ≡ some (0, attributes))
  unfolding level_walk
  pgt_get_attributes-fill_translation_table n fuel a k x old d g s range reader f lt inside clears
        only =
      let b = page pal gr memory tt attributes in
      let (g', s', e, described, _) =
        fill_translation_table_pages pal gr memory tt attributes table n fuel g s f range.reaches
          range.ends range.input_fits (omega (arith, range.output_fits)) range.room in
      let r = table_index tt tt.input_base in
      let below = scaled k n b lt in
      let made = page_descriptor gr.page_size (tt.output_base + k * b) attributes in
      let read = reads n a k x old d s' range reader lt inside made (described k lt) in
      let found =
        desc_attributes-page_descriptor gr.page_size (tt.output_base + k * b) attributes clears
          (omega (arith, range.output_fits)) table.word only in
      let is_page = page_descriptor-is_page gr.page_size (tt.output_base + k * b) attributes in
      (
        g',
        s',
        e,
        read
            ∙ ap (λ (o : ℕ × ℕ). let w : Option (ℕ × ℕ) = some o in w)
                (answers old made is_page found),
      )
