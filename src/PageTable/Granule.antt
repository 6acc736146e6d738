-- ===== src/PageTable/Granule.antt =====
-- The sizes that a granule gives (val/src/acs_pgt.c), and the counters of filled tables.
use native.Mathlib.Nat.{mul_assoc}
use riscv_server_soc_ts.Prelude.{
  ℕ, zero, suc, ◌+◌, ◌*◌, ◌/◌, ◌%◌, ◌^◌, ◌<◌, ◌≡◌, ap, ◌∙◌, arith, true, false, ◌||◌, ◌==◌, ≡→==,
  ≢→==, if◌then◌else◌,
}
use riscv_server_soc_ts.Bits.{add32, sub32, u32_mod}
use riscv_server_soc_ts.Bits.Laws.{two_pow-suc}
use riscv_server_soc_ts.PageTable.{PgtInfo}

abbrev pub page_size_4k : ℕ
page_size_4k = 0x1000

abbrev pub page_size_16k : ℕ
page_size_16k = 0x4000

abbrev pub page_size_64k : ℕ
page_size_64k = 0x10000

-- `setup_acs_pgt_values`
unfoldable pub setup_values : PgtInfo → PgtInfo
setup_values g = record g { l0_index = 0; l1_index = 0; l2_index = 0; l3_index = 0; size_used = 0 }

unfoldable pub get_pgt_index : ℕ → PgtInfo → ℕ
get_pgt_index level g =
    if level == 0
    then g.l0_index
    else if level == 1
    then g.l1_index
    else if level == 2
    then g.l2_index
    else if level == 3
    then g.l3_index
    else 0

-- Only level 3 counts up below its limit.
unfoldable pub increment_pgt_index : ℕ → ℕ → PgtInfo → PgtInfo
increment_pgt_index level max_index g =
    if level == 1
    then (if g.l1_index == sub32 max_index 1
        then record g { l1_index = 0; l0_index = add32 g.l0_index 1 }
        else g)
    else if level == 2
    then (if g.l2_index == sub32 max_index 1
        then record g { l2_index = 0; l1_index = add32 g.l1_index 1 }
        else g)
    else if level == 3
    then (if g.l3_index == sub32 max_index 1
        then record g { l3_index = 0; l2_index = add32 g.l2_index 1 }
        else record g { l3_index = add32 g.l3_index 1 })
    else g

unfoldable pub get_entries_per_level : ℕ → ℕ
get_entries_per_level page_size =
    if page_size == page_size_4k
    then 512
    else if page_size == page_size_16k
    then 2048
    else if page_size == page_size_64k
    then 8192
    else 0

-- The products are taken in 32 bits before they are widened.
unfoldable pub get_block_size : ℕ → ℕ → ℕ
unfolding get_entries_per_level
get_block_size page_size level =
    let entries = get_entries_per_level page_size in
    if level == 0
    then (if page_size == page_size_4k
        then page_size * entries * entries * entries % u32_mod
        else if page_size == page_size_16k
        then page_size * entries * entries * 2 % u32_mod
        else 0)
    else if level == 1
    then (if page_size == page_size_4k || page_size == page_size_16k
        then page_size * entries * entries % u32_mod
        else page_size * entries * 64 % u32_mod)
    else if level == 2
    then page_size * entries % u32_mod
    else if level == 3
    then page_size
    else 0

-- `log2_page_size`: the loop, with `bit` places shifted out. 64 rounds empty a 64-bit value.
unfoldable pub log2_loop : ℕ → ℕ → ℕ → ℕ
log2_loop zero size bit = 0
log2_loop (suc n) size bit =
    let rest = log2_loop n (size / 2) (bit + 1) in
    if size == 0 then 0 else if size % 2 == 1 then bit else rest

unfoldable pub log2_page_size : ℕ → ℕ
log2_page_size size = log2_loop 64 size 0

twice : (k odd : ℕ) → 2 ^ suc k * odd ≡ 2 * (2 ^ k * odd)
twice k odd = ap (λ (t : ℕ). t * odd) (two_pow-suc k) ∙ mul_assoc 2 (2 ^ k) odd

shifted_pos : (k odd : ℕ) → 0 < odd → 0 < 2 ^ k * odd
shifted_pos zero odd h = omega arith
shifted_pos (suc k) odd h = omega (arith, twice k odd, shifted_pos k odd h)

-- The loop finds the lowest bit that is set.
log2_loop_power : (k n odd bit : ℕ) → k < n → odd % 2 ≡ 1 → log2_loop n (2 ^ k * odd) bit ≡ k + bit
unfolding log2_loop
log2_loop_power k zero odd bit h o = absurd (omega arith)
log2_loop_power zero (suc n) odd bit h o =
    let one : 2 ^ 0 * odd ≡ odd = omega arith in
    let some_bit : (odd == 0) ≡ false = ≢→== _ _ (omega arith) in
    let last : (odd % 2 == 1) ≡ true = ≡→== _ _ o in rw (one, some_bit, last) (omega arith)
log2_loop_power (suc k) (suc n) odd bit h o =
    let rest = 2 ^ k * odd in
    let more = shifted_pos k odd (omega arith) in
    let some_bit : (2 * rest == 0) ≡ false = ≢→== _ _ (omega arith) in
    let even : (2 * rest % 2 == 1) ≡ false = ≢→== _ _ (omega arith) in
    let half : 2 * rest / 2 ≡ rest = omega arith in
    rw (twice k odd, some_bit, even, half)
      (log2_loop_power k n odd (bit + 1) (omega arith) o ∙ omega arith)

-- Of a number below 2^64 that is a power of two times an odd number the exponent is found; so the log2
-- of a page size that is a power of two is its exponent.
pub log2_page_size_power : (k odd : ℕ) → k < 64 → odd % 2 ≡ 1 → log2_page_size (2 ^ k * odd) ≡ k
unfolding log2_page_size
log2_page_size_power k odd h o = log2_loop_power k 64 odd 0 h o ∙ omega arith
