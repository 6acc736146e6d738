-- ===== src/PageTable/Walk.antt =====
-- `val_pgt_get_attributes` and `val_pgt_destroy` (val/src/acs_pgt.c): the walk along the tables for one
-- address, and the walk that gives all pages of the tables back.
use native.Mathlib.Nat.{suc-mul, add-mul-div_right, div-eq_of_lt}
use riscv_server_soc_ts.Prelude.{
  ℕ, zero, suc, ◌+◌, ◌-◌, ◌*◌, ◌/◌, ◌%◌, ◌^◌, ◌≤◌, ◌<◌, ◌≡◌, ◌≢◌, refl, ap, ◌∙◌, arith, true, false,
  ◌==◌, ≡→==, ≢→==, Bool-cases, inl, inr, if◌then◌else◌, Option, none, some, bit_and,
}
use riscv_server_soc_ts.Bits.{field, add32, sub32, u32_mod}
use riscv_server_soc_ts.Session.{acs_status_err}
use riscv_server_soc_ts.PageTable.{
  PagePal, PgtDescriptor, is_pgt_entry_page, is_pgt_entry_block, desc_attributes, entry_at,
}
use riscv_server_soc_ts.PageTable.Granule.{log2_page_size}
use riscv_server_soc_ts.PageTable.Create.{pgt_levels, addr_mask}

-- The arithmetic of full levels: `n` levels of `p - 3` bits above a page of `p` bits.
bits_below :
    (n p : ℕ) → suc n ≤ 3 → 3 < p → p < 32 → sub32 (suc n * (p - 3) + p) (p - 3) ≡ n * (p - 3) + p
bits_below zero p m g w = omega arith
bits_below (suc zero) p m g w = omega arith
bits_below (suc (suc zero)) p m g w = omega arith
bits_below (suc (suc (suc n))) p m g w = absurd (omega arith)

levels_quotient : (n q : ℕ) → 0 < q → (suc n * q + q - 1) / q ≡ suc n
levels_quotient n q h =
    let sum : suc n * q + q - 1 ≡ q - 1 + suc n * q = omega (arith, suc-mul n q) in
    rw (sum) (
      add-mul-div_right (q - 1) (suc n) h
      ∙ omega (arith, div-eq_of_lt {n = q - 1} {m = q} (omega arith)))

product-small : (n q : ℕ) → n ≤ 4 → q < 32 → n * q < 1000
product-small zero q h k = omega arith
product-small (suc zero) q h k = omega arith
product-small (suc (suc zero)) q h k = omega arith
product-small (suc (suc (suc zero))) q h k = omega arith
product-small (suc (suc (suc (suc zero)))) q h k = omega arith
product-small (suc (suc (suc (suc (suc n))))) q h k = absurd (omega arith)

unwrapped :
    (x p q : ℕ)
    → x < 1000
    → p < 32
    → q < 32
    → 0 < q
    → sub32 (add32 (sub32 (x + p) p) q) 1 ≡ x + q - 1
unwrapped x p q h k m pos = omega arith

remaining_bits :
    (n q p : ℕ) → n ≤ 3 → q < 32 → p < 32 → add32 (sub32 (suc n) 1 * q % u32_mod) p ≡ n * q + p
remaining_bits n q p m k w =
    let one_less : sub32 (suc n) 1 ≡ n = omega arith in
    let small = product-small n q (omega arith) k in rw (one_less) (plain (n * q) small)
  where
    plain : (x : ℕ) → x < 1000 → add32 (x % u32_mod) p ≡ x + p
    plain x h = omega arith

top_bits : (n q p : ℕ) → n ≤ 3 → q < 32 → p < 32 → sub32 (suc n * q + p) (n * q + p) ≡ q
top_bits n q p m k w =
    let small = product-small n q (omega arith) k in rw (suc-mul n q) (plain (n * q) small)
  where
    plain : (x : ℕ) → x < 1000 → sub32 (x + q + p) (x + p) ≡ q
    plain x h = omega arith

full_levels :
    (n p ias : ℕ)
    → n ≤ 3
    → 3 < p
    → p < 32
    → ias ≡ suc n * (p - 3) + p
    → pgt_levels ias p (p - 3) ≡ suc n
unfolding pgt_levels
full_levels n p ias m g w e =
    let q = p - 3 in
    let plain = unwrapped (suc n * q) p q (product-small (suc n) q (omega arith) (omega arith)) in
    rw (e, plain (omega arith) (omega arith) (omega arith)) (levels_quotient n q (omega arith))

module _ {S : Type 0} (pal : PagePal S) where
  -- The `while (1)` loop: the status, and what `*attributes` holds after it when it held `old` before.
  -- `none` is a loop that has not ended when the fuel is used up.
  unfoldable pub walk_loop : ℕ → ℕ → ℕ → ℕ → ℕ → ℕ → ℕ → ℕ → ℕ → S → Option (ℕ × ℕ)
  walk_loop zero mask bits_per_level va old tt_base level bits_remaining bits_at_level s = none
  walk_loop (suc fuel) mask bits_per_level va old tt_base level bits_remaining bits_at_level s =
      let index = field va bits_remaining bits_at_level in
      let value = pal.read64 (entry_at (pal.phys_to_virt tt_base) index) s in
      let rest =
        walk_loop fuel mask bits_per_level va old (bit_and value mask) (add32 level 1)
          (sub32 bits_remaining bits_at_level) bits_per_level s in
      if level == 3
      then some
          (if is_pgt_entry_page value then (0, desc_attributes value) else (acs_status_err, old))
      else if is_pgt_entry_block value
      then some (0, desc_attributes value)
      else rest

  -- `attributes` is no NULL.
  unfoldable pub pgt_get_attributes : ℕ → PgtDescriptor → ℕ → ℕ → S → Option (ℕ × ℕ)
  pgt_get_attributes fuel d va old s =
      let ias = sub32 64 d.tsz in
      let bits_per_level = sub32 d.tg_size_log2 3 in
      let num_pgt_levels = pgt_levels ias d.tg_size_log2 bits_per_level in
      let bits_remaining =
        add32 (sub32 num_pgt_levels 1 * bits_per_level % u32_mod) d.tg_size_log2 in
      let walked =
        walk_loop fuel (addr_mask ias d.tg_size_log2) bits_per_level va old d.pgt_base
          (sub32 4 num_pgt_levels) bits_remaining (sub32 ias bits_remaining) s in
      if d.pgt_base == 0 then some (acs_status_err, old) else walked

  -- The loop over the entries of one table, with `n` left from `index` on; `free_below` gives back the
  -- table that an entry points at.
  unfoldable pub free_loop : (ℕ → S → S) → ℕ → ℕ → ℕ → ℕ → S → S
  free_loop free_below mask zero index tt_base s = s
  free_loop free_below mask (suc n) index tt_base s =
      let value = pal.read64 (entry_at tt_base index) s in
      let next = pal.phys_to_virt (bit_and value mask) in
      let freed = pal.free_page next (free_below next s) in
      free_loop free_below mask n (index + 1) tt_base (
        if value == 0
        then s
        else if is_pgt_entry_block value
        then s
        else if next == 0
        then s
        else freed)

  -- `free_translation_table`, by the number of levels below the table's own.
  unfoldable pub free_table : ℕ → ℕ → ℕ → ℕ → ℕ → S → S
  free_table mask bits_per_level zero tt_base bits_at_level s = s
  free_table mask bits_per_level (suc n) tt_base bits_at_level s =
      free_loop (λ next. free_table mask bits_per_level n next bits_per_level) mask
        (2 ^ bits_at_level) 0 tt_base s

  unfoldable pub pgt_destroy : PgtDescriptor → S → S
  pgt_destroy d s =
      let base = pal.phys_to_virt d.pgt_base in
      let page_size_log2 = log2_page_size pal.memory_page_size in
      let bits_per_level = sub32 page_size_log2 3 in
      let num_pgt_levels = pgt_levels d.ias page_size_log2 bits_per_level in
      let above = add32 (sub32 num_pgt_levels 1 * bits_per_level % u32_mod) page_size_log2 in
      let freed =
        free_table (addr_mask d.ias page_size_log2) bits_per_level (sub32 num_pgt_levels 1) base
          (sub32 d.ias above) s in
      if d.pgt_base == 0 then s else pal.free_page base freed

  -- The walk of the code, by the levels below a table: the index of a level has `bits_per_level` bits,
  -- above those of the levels below it and of the page. A descriptor above the last level that is no
  -- block is followed as a table, invalid ones too.
  unfoldable pub level_walk : ℕ → ℕ → ℕ → ℕ → ℕ → ℕ → S → ℕ × ℕ
  level_walk mask page_size_log2 zero va old tt_base s =
      let value =
        pal.read64
          (entry_at (pal.phys_to_virt tt_base) (field va page_size_log2 (page_size_log2 - 3))) s in
      if is_pgt_entry_page value then (0, desc_attributes value) else (acs_status_err, old)
  level_walk mask page_size_log2 (suc n) va old tt_base s =
      let bits_per_level = page_size_log2 - 3 in
      let index = field va (suc n * bits_per_level + page_size_log2) bits_per_level in
      let value = pal.read64 (entry_at (pal.phys_to_virt tt_base) index) s in
      let below = level_walk mask page_size_log2 n va old (bit_and value mask) s in
      if is_pgt_entry_block value then (0, desc_attributes value) else below

  -- From a level with `n` levels below it on, with the bits of a whole level at each.
  walk_loop-level_walk :
      (n fuel mask page_size_log2 va old tt_base level bits : ℕ) (s : S)
      → n < fuel
      → n ≤ 3
      → 3 < page_size_log2
      → page_size_log2 < 32
      → level + n ≡ 3
      → bits ≡ n * (page_size_log2 - 3) + page_size_log2
      → walk_loop fuel mask (page_size_log2 - 3) va old tt_base level bits (page_size_log2 - 3) s
        ≡ some (level_walk mask page_size_log2 n va old tt_base s)
  unfolding walk_loop level_walk
  walk_loop-level_walk n zero mask p va old tt_base level bits s f m g w l b = absurd (omega arith)
  walk_loop-level_walk zero (suc fuel) mask p va old tt_base level bits s f m g w l b =
      let last : (level == 3) ≡ true = ≡→== _ _ (omega arith) in
      let here : bits ≡ p = omega arith in rw (here, last) refl
  walk_loop-level_walk (suc n) (suc fuel) mask p va old tt_base level bits s f m g w l b =
      let above : (level == 3) ≡ false = ≢→== _ _ (omega arith) in
      let index = field va (suc n * (p - 3) + p) (p - 3) in
      let value = pal.read64 (entry_at (pal.phys_to_virt tt_base) index) s in
      elim (Bool-cases (is_pgt_entry_block value)) [
        | inl block ↦ rw (b, above, block) refl
        | inr other ↦
            let step =
              walk_loop-level_walk n fuel mask p va old (bit_and value mask) (add32 level 1)
                (sub32 (suc n * (p - 3) + p) (p - 3)) s (omega arith) (omega arith) g w
                (omega arith) (bits_below n p m g w) in
            rw (b, above, other) step
      ]

  -- Where the input size is that of one to four whole levels above the page, and the fuel exceeds the
  -- number of levels by one, the loop ends, and gives what the walk by levels gives: the attributes of
  -- the page or of the block on the way, or an error at an entry of the last level that is no page.
  pub pgt_get_attributes_levels :
      (n fuel va old : ℕ) (d : PgtDescriptor) (s : S)
      → n ≤ 3
      → n < fuel
      → 3 < d.tg_size_log2
      → d.tg_size_log2 < 32
      → sub32 64 d.tsz ≡ suc n * (d.tg_size_log2 - 3) + d.tg_size_log2
      → d.pgt_base ≢ 0
      → pgt_get_attributes fuel d va old s
        ≡ some (
            level_walk
              (addr_mask (sub32 64 d.tsz) d.tg_size_log2)
              d.tg_size_log2
              n
              va
              old
              d.pgt_base
              s)
  unfolding pgt_get_attributes
  pgt_get_attributes_levels n fuel va old d s m f g w e some_table =
      let p = d.tg_size_log2 in
      let ias = sub32 64 d.tsz in
      let present : (d.pgt_base == 0) ≡ false = ≢→== _ _ some_table in
      let bits : sub32 p 3 ≡ p - 3 = omega arith in
      let levels = full_levels n p ias m g w e in
      let remaining = remaining_bits n (p - 3) p m (omega arith) w in
      let top = top_bits n (p - 3) p m (omega arith) w in
      let top' : sub32 ias (n * (p - 3) + p) ≡ p - 3 =
        ap (λ (t : ℕ). sub32 t (n * (p - 3) + p)) e ∙ top in
      let walk =
        walk_loop-level_walk n fuel (addr_mask ias p) p va old d.pgt_base (sub32 4 (suc n))
          (n * (p - 3) + p) s f m g w (omega arith) refl in
      rw (present, bits, levels, remaining, top') walk
