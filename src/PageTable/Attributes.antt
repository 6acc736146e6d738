-- ===== src/PageTable/Attributes.antt =====
-- The attributes of a page descriptor are those that it was made with, and a walk of the last level
-- finds them.
use riscv_server_soc_ts.Prelude.{
  ℕ, zero, suc, ◌-◌, ◌^◌, ◌≤◌, ◌<◌, ◌≡◌, inl, inr, refl, ap, min, max, arith, Bool, true, false,
  ◌&&◌, ◌||◌, ◌==◌, ltb, leb, ==→≡, ≡→==, Bool-cases, if◌then◌else◌, bit_and, bit_or,
}
use riscv_server_soc_ts.Bits.{bit, u64_mod}
use riscv_server_soc_ts.Bits.Laws.{bit-bit_and, bit-bit_or, bit-le-one, all_below, all_below_sound}
use riscv_server_soc_ts.Bits.Masks.{bit_or-lt, bit_and-lt}
use riscv_server_soc_ts.Bits.Extension.{eq_of_bits, bit_above}
use riscv_server_soc_ts.PageTable.{
  attributes_mask, desc_attributes, page_entry, align_down, is_pgt_entry_page,
}
use riscv_server_soc_ts.PageTable.Fill.{page_descriptor}

-- Bits 2 to 11 and 52 to 63 are those of the attributes.
abbrev is_attribute_bit : ℕ → Bool
is_attribute_bit i = (leb 2 i && ltb i 12) || leb 52 i

mask_table :
    all_below 64 (λ i. bit i attributes_mask == (if is_attribute_bit i then 1 else 0)) ≡ true
unfolding all_below bit
mask_table = refl

mask_bit : (i : ℕ) → i < 64 → bit i attributes_mask ≡ (if is_attribute_bit i then 1 else 0)
mask_bit i h = ==→≡ _ _ (
    all_below_sound (λ i. bit i attributes_mask == (if is_attribute_bit i then 1 else 0)) 64
      mask_table h)

entry_table : all_below 64 (λ i. bit i page_entry == (if ltb i 2 then 1 else 0)) ≡ true
unfolding all_below bit
entry_table = refl

entry_bit : (i : ℕ) → i < 64 → bit i page_entry ≡ (if ltb i 2 then 1 else 0)
entry_bit i h =
    ==→≡ _ _
      (all_below_sound (λ i. bit i page_entry == (if ltb i 2 then 1 else 0)) 64 entry_table h)

below : (i n : ℕ) → ltb i n ≡ true → i < n
below i n h = ground arith

upper : (i : ℕ) → is_attribute_bit i ≡ true → ltb i 12 ≡ false → 52 ≤ i
upper i h k = ground arith

above_entry : (i : ℕ) → is_attribute_bit i ≡ true → ltb i 2 ≡ false
above_entry i h = ground arith

-- A page size of at least 4 KB clears the lowest 12 bits.
abbrev pub ClearsLow : ℕ → Type 0
ClearsLow page_size = all_below 12 (λ i. bit i (u64_mod - 1 - (page_size - 1)) == 0) ≡ true

module _ (page_size output attributes : ℕ) (clears : ClearsLow page_size) (fits : output < 2 ^ 52)
    (word : attributes < u64_mod) (only : bit_and attributes attributes_mask ≡ attributes) where
  attribute_bit_le : (i : ℕ) → bit i attributes ≤ bit i attributes_mask
  attribute_bit_le i =
      let both = ap (λ (x : ℕ). bit i x) only in
      omega (arith, bit-bit_and i attributes attributes_mask)

  output_bit :
      (i : ℕ) → i < 64 → is_attribute_bit i ≡ true → bit i (align_down output page_size) ≡ 0
  output_bit i h attribute =
      let both = bit-bit_and i output (u64_mod - 1 - (page_size - 1)) in
      elim (Bool-cases (ltb i 12)) [
        | inl low ↦
            let clear = ==→≡ _ _ (
              all_below_sound (λ i. bit i (u64_mod - 1 - (page_size - 1)) == 0) 12 clears
                (below i 12 low)) in
            omega (arith, both, clear)
        | inr high ↦
            let clear = bit_above 52 i output fits (upper i attribute high) in
            omega (arith, both, clear)
      ]

  descriptor-lt : page_descriptor page_size output attributes < 2 ^ 64
  unfolding page_descriptor
  descriptor-lt =
      bit_or-lt 64 _ attributes
        (bit_or-lt 64 page_entry _ (omega arith) (bit_and-lt 64 output _ (omega arith))) word

  descriptor_bit :
      (i : ℕ)
      → bit i (desc_attributes (page_descriptor page_size output attributes))
        ≡ min
            (max (max (bit i page_entry) (bit i (align_down output page_size))) (bit i attributes))
            (bit i attributes_mask)
  unfolding desc_attributes page_descriptor
  descriptor_bit i =
      rw
        (
          bit-bit_and i (bit_or (bit_or page_entry (align_down output page_size)) attributes)
              attributes_mask,
          bit-bit_or i (bit_or page_entry (align_down output page_size)) attributes,
          bit-bit_or i page_entry (align_down output page_size),
        )
        refl

  same_bit :
      (i : ℕ)
      → i < 64
      → bit i (desc_attributes (page_descriptor page_size output attributes)) ≡ bit i attributes
  same_bit i h = elim (Bool-cases (is_attribute_bit i)) [
    | inl attribute ↦
        let masked : bit i attributes_mask ≡ 1 = rw attribute at (mask_bit i h) in
        let low : bit i page_entry ≡ 0 = rw (above_entry i attribute) at (entry_bit i h) in
        omega
          (arith, descriptor_bit i, masked, low, output_bit i h attribute, bit-le-one i attributes)
    | inr other ↦
        let masked : bit i attributes_mask ≡ 0 = rw other at (mask_bit i h) in
        omega (arith, descriptor_bit i, masked, attribute_bit_le i)
  ]

  -- The attributes that are read from a page descriptor are those that it was made with, for a page
  -- size of at least 4 KB, an address below 2^52 and attributes in the bits for attributes.
  pub desc_attributes-page_descriptor :
      desc_attributes (page_descriptor page_size output attributes) ≡ attributes
  unfolding desc_attributes
  desc_attributes-page_descriptor =
      eq_of_bits 64 _ attributes (bit_and-lt 64 _ attributes_mask descriptor-lt) word same_bit

entry_low : (i : ℕ) → i < 2 → bit i page_entry ≡ 1
unfolding bit
entry_low zero h = refl
entry_low (suc zero) h = refl
entry_low (suc (suc i)) h = absurd (omega arith)

-- A page descriptor is one of a page.
pub page_descriptor-is_page :
    (page_size output attributes : ℕ)
    → is_pgt_entry_page (page_descriptor page_size output attributes) ≡ true
unfolding page_descriptor bit
page_descriptor-is_page page_size output attributes =
    let inner = bit_or page_entry (align_down output page_size) in
    let zero_bit = set_bit 0 (omega arith) in
    let one_bit = set_bit 1 (omega arith) in ≡→== _ _ (omega (arith, zero_bit, one_bit))
  where
    set_bit :
        (i : ℕ)
        → i < 2
        → bit i (bit_or (bit_or page_entry (align_down output page_size)) attributes) ≡ 1
    set_bit i h =
        let all = bit-bit_or i (bit_or page_entry (align_down output page_size)) attributes in
        let two = bit-bit_or i page_entry (align_down output page_size) in
        let entry : bit i page_entry ≡ 1 = entry_low i h in
        omega (
          arith,
          all,
          two,
          entry,
          bit-le-one i (align_down output page_size),
          bit-le-one i attributes,
        )
