-- ===== src/PageTable/Lookup.antt =====
-- `val_pgt_get_attributes` (val/src/acs_pgt.c) against the walk of the architecture, which faults at a
-- descriptor that is not valid.
use native.Mathlib.Nat.{
  mod-mod_of_dvd, mod-eq_of_lt, lt_of_mul-lt-mul_right, dvd-mul_right, pow-le-pow_right, mul-sub,
  mul_comm,
}
use riscv_server_soc_ts.Prelude.{
  ℕ, zero, suc, ◌+◌, ◌-◌, ◌*◌, ◌/◌, ◌%◌, ◌^◌, ◌≤◌, ◌<◌, ◌≡◌, ◌≢◌, ◌⊎◌, inl, inr, sym, subst, ap,
  ◌∙◌, arith, true, false, ◌==◌, leb, if◌then◌else◌, Option, none, some, bit_and,
}
use riscv_server_soc_ts.Bits.{field, low_bits, sub32, u64_mod}
use riscv_server_soc_ts.Bits.Round.{bit_and-field, two_pow-add}
use riscv_server_soc_ts.Session.{acs_status_err}
use riscv_server_soc_ts.PageTable.{
  PagePal, PgtDescriptor, is_pgt_entry_page, is_pgt_entry_block, desc_attributes, entry_at,
}
use riscv_server_soc_ts.PageTable.Create.{addr_mask}
use riscv_server_soc_ts.PageTable.Walk.{level_walk, pgt_get_attributes, pgt_get_attributes_levels}

-- The address of the table of the next level: bits `p` to 47 of a descriptor.
abbrev pub next_table : ℕ → ℕ → ℕ
next_table p value = field value p (48 - p) * 2 ^ p

-- The levels above the last one that may hold blocks: two with pages of 4 KB, else one.
abbrev pub block_levels : ℕ → ℕ
block_levels p = if p == 12 then 2 else 1

-- The status and `*attributes`, which held `old`, for the outcome of a walk.
abbrev pub answer : ℕ → Option ℕ → ℕ × ℕ
answer old none = (acs_status_err, old)
answer old (some attributes) = (0, attributes)

mask-field :
    (ias p value : ℕ)
    → p ≤ ias
    → ias ≤ 48
    → next_table p value < 2 ^ ias
    → bit_and value (addr_mask ias p) ≡ next_table p value
unfolding addr_mask
mask-field ias p value le top small =
    let n = ias - p in
    let join : p + n ≡ ias = omega arith in
    let part : 48 - p ≡ n + (48 - ias) = omega arith in
    let whole : 2 ^ ias ≡ 2 ^ p * 2 ^ n = ap (λ (k : ℕ). 2 ^ k) (sym join) ∙ two_pow-add p n in
    let wide : 2 ^ (48 - p) ≡ 2 ^ n * 2 ^ (48 - ias) =
      ap (λ (k : ℕ). 2 ^ k) part ∙ two_pow-add n (48 - ias) in
    let high = value / 2 ^ p % 2 ^ (48 - p) in
    let few : high < 2 ^ n =
      lt_of_mul-lt-mul_right (2 ^ p)
        (subst (λ (m : ℕ). high * 2 ^ p < m) (whole ∙ mul_comm (2 ^ p) (2 ^ n)) small) in
    let same : value / 2 ^ p % 2 ^ n ≡ high =
      sym (mod-mod_of_dvd (2 ^ n) (value / 2 ^ p) (dvd-mul_right (2 ^ n) (2 ^ (48 - ias))))
      ∙ ap (λ (m : ℕ). value / 2 ^ p % m % 2 ^ n) (sym wide)
      ∙ mod-eq_of_lt few in
    let bound : 2 ^ ias ≤ 2 ^ 48 = pow-le-pow_right {n = 2} (omega arith) {j = 48} top in
    let plain : sub32 ias p ≡ n = omega arith in
    let product : (2 ^ n - 1) * 2 ^ p ≡ 2 ^ ias - 2 ^ p =
      mul_comm (2 ^ n - 1) (2 ^ p) ∙ mul-sub (2 ^ p) (2 ^ n) 1 ∙ omega (arith, whole) in
    let mask : addr_mask ias p ≡ 2 ^ (p + n) - 2 ^ p =
      ap (λ (k : ℕ). (2 ^ k - 1) * 2 ^ p % u64_mod) plain
      ∙ ap (λ (m : ℕ). m % u64_mod) product
      ∙ mod-eq_of_lt (omega arith)
      ∙ ap (λ (k : ℕ). 2 ^ k - 2 ^ p) (sym join) in
    ap (λ (m : ℕ). bit_and value m) mask ∙ bit_and-field p n value ∙ ap (λ (m : ℕ). m * 2 ^ p) same

module _ {S : Type 0} (pal : PagePal S) where
  -- The descriptor of an address in a table with `n` levels below it.
  abbrev pub descriptor : ℕ → ℕ → ℕ → ℕ → S → ℕ
  descriptor p n va tt_base s =
      pal.read64 (entry_at (pal.phys_to_virt tt_base) (field va (n * (p - 3) + p) (p - 3))) s

  -- The walk of the architecture in a table with `n` levels below it, for pages of `p` bits: the
  -- attributes of the page or block, or a fault.
  unfoldable pub page_walk : ℕ → ℕ → ℕ → ℕ → S → Option ℕ
  page_walk p zero va tt_base s =
      let value = descriptor p 0 va tt_base s in
      if is_pgt_entry_page value then some (desc_attributes value) else none
  page_walk p (suc n) va tt_base s =
      let value = descriptor p (suc n) va tt_base s in
      let below = page_walk p n va (next_table p value) s in
      if is_pgt_entry_block value
      then (if leb (suc n) (block_levels p) then some (desc_attributes value) else none)
      else if low_bits value 2 == 3
      then below
      else none

  -- Above the last level the walk meets valid descriptors only: a block where there may be one, or a
  -- table that lies within the input size.
  abbrev pub IsDirected : ℕ → ℕ → ℕ → ℕ → ℕ → S → Type 0
  IsDirected ias p zero va tt_base s = Unit
  IsDirected ias p (suc n) va tt_base s =
      let value = descriptor p (suc n) va tt_base s in
      ((low_bits value 2 ≡ 1) × (suc n ≤ block_levels p))
      ⊎ ((low_bits value 2 ≡ 3)
          × (next_table p value < 2 ^ ias)
          × IsDirected ias p n va (next_table p value) s)

  level_walk-page_walk :
      (n ias p va old tt_base : ℕ) (s : S)
      → p ≤ ias
      → ias ≤ 48
      → IsDirected ias p n va tt_base s
      → level_walk pal (addr_mask ias p) p n va old tt_base s
        ≡ answer old (page_walk p n va tt_base s)
  unfolding level_walk page_walk
  level_walk-page_walk zero ias p va old tt_base s le top way =
      let plain : 0 * (p - 3) + p ≡ p = omega arith in
      let at = λ (w : ℕ). pal.read64 (entry_at (pal.phys_to_virt tt_base) (field va w (p - 3))) s in
      page_answer (at p) (descriptor p 0 va tt_base s) (ap at (sym plain))
    where
      page_answer :
          (value value' : ℕ)
          → value ≡ value'
          → (if is_pgt_entry_page value then (0, desc_attributes value) else (acs_status_err, old))
            ≡ answer old (if is_pgt_entry_page value' then some (desc_attributes value') else none)
      page_answer value value' e = rw (e) (ground arith)
  level_walk-page_walk (suc n) ias p va old tt_base s le top (inl (block, few)) = ground arith
  level_walk-page_walk (suc n) ias p va old tt_base s le top (inr (table, small, way)) =
      let value = descriptor p (suc n) va tt_base s in
      let mask = mask-field ias p value le top small in
      let rest = level_walk-page_walk n ias p va old (next_table p value) s le top way in
      let no_block : is_pgt_entry_block value ≡ false = ground arith in
      let is_table : (low_bits value 2 == 3) ≡ true = ground arith in
      rw (no_block, is_table, mask) rest

  -- For an input size of at most 48 bits, which is that of one to four whole levels above the page, and
  -- fuel for one level more: when the descriptors that the walk of the architecture meets above the
  -- last level are valid and lie within the input size, the loop ends with the outcome of that walk,
  -- the attributes of the page or block, or an error at an entry of the last level that is no page. An
  -- invalid descriptor above the last level is not noticed by the code.
  pub pgt_get_attributes-page_walk :
      (n fuel va old : ℕ) (d : PgtDescriptor) (s : S)
      → n ≤ 3
      → n < fuel
      → 3 < d.tg_size_log2
      → d.tg_size_log2 < 32
      → sub32 64 d.tsz ≡ suc n * (d.tg_size_log2 - 3) + d.tg_size_log2
      → sub32 64 d.tsz ≤ 48
      → d.pgt_base ≢ 0
      → IsDirected (sub32 64 d.tsz) d.tg_size_log2 n va d.pgt_base s
      → pgt_get_attributes pal fuel d va old s
        ≡ some (answer old (page_walk d.tg_size_log2 n va d.pgt_base s))
  pgt_get_attributes-page_walk n fuel va old d s m f g w e top present way =
      let above : d.tg_size_log2 ≤ sub32 64 d.tsz = omega arith in
      pgt_get_attributes_levels pal n fuel va old d s m f g w e present
      ∙ ap (λ (r : ℕ × ℕ). let o : Option (ℕ × ℕ) = some r in o)
          (level_walk-page_walk n (sub32 64 d.tsz) d.tg_size_log2 va old d.pgt_base s above top way)
