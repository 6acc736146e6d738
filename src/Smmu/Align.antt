-- ===== src/Smmu/Align.antt =====
-- `align_to_size` (val/sys_arch_src/smmu_v3/smmu_v3.c) by arithmetic.
use native.Mathlib.Nat.{mod-lt, mod-add-div', mod-eq_of_lt, add-mul, mul-div_cancel, mul-mod_left}
use riscv_server_soc_ts.Prelude.{ℕ, ◌+◌, ◌-◌, ◌*◌, ◌/◌, ◌%◌, ◌^◌, ◌≤◌, ◌<◌, ◌≡◌, ap, arith}
use riscv_server_soc_ts.Bits.{u64_mod}
use riscv_server_soc_ts.Bits.Laws.{two_pow_pos}
use riscv_server_soc_ts.Bits.Round.{bit_and-low, bit_and-high}
use riscv_server_soc_ts.Smmu.{align_to_size}

-- The next multiple of the size, which is past the address also where the address is a multiple.
pub align_to_size-next :
    (k n addr : ℕ)
    → k + n ≡ 64
    → addr + 2 ^ k < u64_mod
    → align_to_size addr (2 ^ k) ≡ (addr / 2 ^ k + 1) * 2 ^ k
unfolding align_to_size
align_to_size-next k n addr all fits =
    let size = 2 ^ k in
    let pos = two_pow_pos k in
    let low = mod-lt addr pos in
    let whole = mod-add-div' addr size in
    let more = add-mul (addr / size) 1 size in
    let once : 1 * size ≡ size = omega arith in
    let sum : size - addr % size + addr ≡ (addr / size + 1) * size = omega arith in
    let below : (addr / size + 1) * size < u64_mod = omega arith in
    let bits : 2 ^ (k + n) ≡ u64_mod = ap (λ (m : ℕ). 2 ^ m) all in
    let mask : u64_mod - 1 - (size - 1) ≡ 2 ^ (k + n) - 2 ^ k = omega arith in
    let below' : (addr / size + 1) * size < 2 ^ (k + n) = omega arith in
    rw (bit_and-low k addr, sum, mod-eq_of_lt below, mask, bit_and-high k n _ below')
      (ap (λ (m : ℕ). m * size) (mul-div_cancel (addr / size + 1) pos))

-- The aligned address is a multiple of the size, and the memory of that size from it on begins after
-- the address and ends within twice the size.
pub align_to_size_bounds :
    (k n addr : ℕ)
    → k + n ≡ 64
    → addr + 2 ^ k < u64_mod
    → (align_to_size addr (2 ^ k) % 2 ^ k ≡ 0)
      × (addr < align_to_size addr (2 ^ k))
      × (align_to_size addr (2 ^ k) ≤ addr + 2 ^ k)
align_to_size_bounds k n addr all fits =
    let size = 2 ^ k in
    let low = mod-lt addr (two_pow_pos k) in
    let whole = mod-add-div' addr size in
    let more = add-mul (addr / size) 1 size in
    let once : 1 * size ≡ size = omega arith in
    rw (align_to_size-next k n addr all fits)
      (mul-mod_left (addr / size + 1) size, omega arith, omega arith)
