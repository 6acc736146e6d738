-- ===== src/PageTable/Create.antt =====
-- `val_pgt_create` (val/src/acs_pgt.c): the tables for an array of memory regions.
use riscv_server_soc_ts.Prelude.{
  ℕ, ◌-◌, ◌*◌, ◌/◌, ◌%◌, ◌^◌, ◌≡◌, ◌≢◌, refl, ap, arith, Bool, true, false, ◌||◌, ◌==◌, ◌!=◌, ltb,
  leb, ≢→==, if◌then◌else◌, Option, none, some, bit_and, List, [], ◌∷◌, ◌++◌, length, All,
}
use riscv_server_soc_ts.Bits.{low_bits, add32, sub32, add64, u32_mod, u64_mod}
use riscv_server_soc_ts.Session.{acs_status_err}
use riscv_server_soc_ts.PageTable.{PagePal, PgtInfo, TtDescriptor, MemRegion, PgtDescriptor}
use riscv_server_soc_ts.PageTable.Granule.{log2_page_size}
use riscv_server_soc_ts.PageTable.Fill.{Granule, sub64, fill_translation_table}

-- `(ias - page_size_log2 + bits_per_level - 1)/bits_per_level`, in 32 bits.
unfoldable pub pgt_levels : ℕ → ℕ → ℕ → ℕ
pgt_levels ias page_size_log2 bits_per_level =
    sub32 (add32 (sub32 ias page_size_log2) bits_per_level) 1 / bits_per_level

-- `((0x1ull << (ias - page_size_log2)) - 1) << page_size_log2`
unfoldable pub addr_mask : ℕ → ℕ → ℕ
addr_mask ias page_size_log2 = (2 ^ sub32 ias page_size_log2 - 1) * 2 ^ page_size_log2 % u64_mod

module _ {S : Type 0} (pal : PagePal S) where
  unfoldable pub granule_of : ℕ → Granule
  granule_of ias =
      let page_size_log2 = log2_page_size pal.memory_page_size in
      record {
        page_size = pal.memory_page_size;
        bits_per_level = sub32 page_size_log2 3;
        pgt_addr_mask = addr_mask ias page_size_log2;
      }

  -- The first table: what `pgt_base` gives, or a page that is allocated and cleared. 0 is a page that
  -- could not be allocated.
  unfoldable pub first_table : PgtDescriptor → S → ℕ × S
  first_table d s =
      let (page, s') = pal.alloc_page s in
      if d.pgt_base == 0
      then (if page == 0 then (0, s') else (page, pal.clear_page page pal.memory_page_size s'))
      else (d.pgt_base, s)

  -- An address that is not aligned, or a physical address out of range.
  unfoldable pub is_misplaced : PgtDescriptor → MemRegion → Bool
  is_misplaced d m =
      bit_and m.virtual_address (pal.memory_page_size - 1) != 0
      || bit_and m.physical_address (pal.memory_page_size - 1) != 0
      || leb (2 ^ d.oas) m.physical_address

  -- `mem_desc->virtual_address` with the bits above the input size taken off.
  unfoldable pub truncated : PgtDescriptor → MemRegion → MemRegion
  truncated d m = record m { virtual_address = low_bits m.virtual_address d.ias }

  unfoldable pub top_descriptor : PgtDescriptor → ℕ → MemRegion → TtDescriptor
  top_descriptor d tt_base m =
      let page_size_log2 = log2_page_size pal.memory_page_size in
      let bits_per_level = sub32 page_size_log2 3 in
      let levels = pgt_levels d.ias page_size_log2 bits_per_level in
      let num_pgt_levels = if ltb 4 levels then 4 else levels in
      let size_log2 = add32 (sub32 num_pgt_levels 1 * bits_per_level % u32_mod) page_size_log2 in
      record {
        tt_base = tt_base;
        input_base = low_bits m.virtual_address d.ias;
        input_top = sub64 (add64 (low_bits m.virtual_address d.ias) m.length) 1;
        output_base = low_bits m.physical_address d.oas;
        level = sub32 4 num_pgt_levels;
        size_log2 = size_log2;
        nbits = sub32 d.ias size_log2;
      }

  -- The loop over the array, with the entries from `mem_desc_iter` on. Its body reads the first region
  -- `m`, which the truncation changes. The entry of length 0 ends the array; `none` is a read past its
  -- end, or fuel that is used up.
  unfoldable pub create_loop :
      ℕ → PgtDescriptor → ℕ → List MemRegion → MemRegion → PgtInfo → S → Option (ℕ × PgtInfo × S)
  create_loop fuel d tt_base [] m g s = none
  create_loop fuel d tt_base (entry ∷ entries) m g s =
      let m' = truncated d m in
      let filled =
        fill_translation_table pal (granule_of d.ias) fuel (top_descriptor d tt_base m')
          m'.attributes g s in
      if entry.length == 0
      then some (0, g, s)
      else if is_misplaced d m
      then some (acs_status_err, g, s)
      else elim filled [
        | none ↦ none
        | some (status, g', s') ↦ elim (status != 0) [
          | true ↦ some (acs_status_err, g', pal.free_page tt_base s')
          | false ↦ create_loop fuel d tt_base entries m' g' s'
        ]
      ]

  -- The status and `pgt_base` after the call.
  unfoldable pub with_base : PgtDescriptor → ℕ → ℕ × PgtInfo × S → ℕ × ℕ × PgtInfo × S
  with_base d tt_base (status, g, s) =
      (status, if status == 0 then pal.virt_to_phys tt_base else d.pgt_base, g, s)

  unfoldable pub pgt_create :
      ℕ → List MemRegion → PgtDescriptor → PgtInfo → S → Option (ℕ × ℕ × PgtInfo × S)
  pgt_create fuel [] d g s = none
  pgt_create fuel (m ∷ ms) d g s =
      let (tt_base, s') = first_table d s in
      if tt_base == 0
      then some (acs_status_err, d.pgt_base, g, s')
      else elim (create_loop fuel d tt_base (m ∷ ms) m g s') [
        | none ↦ none
        | some r ↦ some (with_base d tt_base r)
      ]

  -- An entry that does not end the array.
  abbrev pub IsEntry : MemRegion → Type 0
  IsEntry m = m.length ≢ 0

  -- The lengths are not 0 at the same places.
  loop_same :
      (fuel : ℕ) (d : PgtDescriptor) (tt_base : ℕ) (xs ys : List MemRegion) (last : MemRegion)
      → All IsEntry xs
      → All IsEntry ys
      → length xs ≡ length ys
      → (m : MemRegion) (g : PgtInfo) (s : S)
      → create_loop fuel d tt_base (xs ++ last ∷ []) m g s
        ≡ create_loop fuel d tt_base (ys ++ last ∷ []) m g s
  unfolding create_loop
  loop_same fuel d tt_base [] [] last hx hy e m g s = refl
  loop_same fuel d tt_base [] (y ∷ ys) last hx hy e m g s = absurd (omega arith)
  loop_same fuel d tt_base (x ∷ xs) [] last hx hy e m g s = absurd (omega arith)
  loop_same fuel d tt_base (x ∷ xs) (y ∷ ys) last (x0, hx) (y0, hy) e m g s =
      let goes_on : (x.length == 0) ≡ false = ≢→== _ _ x0 in
      let goes_on' : (y.length == 0) ≡ false = ≢→== _ _ y0 in
      let m' = truncated d m in
      let filled =
        fill_translation_table pal (granule_of d.ias) fuel (top_descriptor d tt_base m')
          m'.attributes g s in
      let body = λ (k : MemRegion → PgtInfo → S → Option (ℕ × PgtInfo × S)).
        let o : Option (ℕ × PgtInfo × S) =
          if is_misplaced d m then some (acs_status_err, g, s) else elim filled [
            | none ↦ none
            | some (status, g', s') ↦ elim (status != 0) [
              | true ↦ some (acs_status_err, g', pal.free_page tt_base s')
              | false ↦ k m' g' s'
            ]
          ] in
        o in
      let shorter : length xs ≡ length ys = omega arith in
      let rests : (λ m g s. create_loop fuel d tt_base (xs ++ last ∷ []) m g s)
          ≡ (λ m g s. create_loop fuel d tt_base (ys ++ last ∷ []) m g s) =
        λ i m g s. loop_same fuel d tt_base xs ys last hx hy shorter m g s i in
      rw (goes_on, goes_on') (ap body rests)

  -- Only the first region of the array is ever read: two arrays with the same first region, the same
  -- number of further regions and the same end give the same tables, whatever the further regions are.
  pub pgt_create_first :
      (fuel : ℕ) (d : PgtDescriptor) (m last : MemRegion) (xs ys : List MemRegion) (g : PgtInfo)
      (s : S)
      → All IsEntry xs
      → All IsEntry ys
      → length xs ≡ length ys
      → IsEntry m
      → pgt_create fuel ((m ∷ xs) ++ last ∷ []) d g s
        ≡ pgt_create fuel ((m ∷ ys) ++ last ∷ []) d g s
  unfolding pgt_create
  pgt_create_first fuel d m last xs ys g s hx hy e m0 =
      let (tt_base, s') = first_table d s in
      let loops =
        loop_same fuel d tt_base (m ∷ xs) (m ∷ ys) last (m0, hx) (m0, hy) (omega arith) m g s' in
      rw (loops) refl
