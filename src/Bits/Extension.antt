-- ===== src/Bits/Extension.antt =====
-- Numbers that agree in every bit are equal, and a number has no bits from its width on.
use riscv_server_soc_ts.Prelude.{ℕ, zero, suc, ◌/◌, ◌%◌, ◌^◌, ◌≤◌, ◌<◌, ◌≡◌, refl, arith}
use riscv_server_soc_ts.Bits.{bit}
use riscv_server_soc_ts.Bits.Laws.{two_pow-suc}

pub eq_of_bits : (n a b : ℕ) → a < 2 ^ n → b < 2 ^ n → ((i : ℕ) → i < n → bit i a ≡ bit i b) → a ≡ b
unfolding bit
eq_of_bits zero a b p q same = omega arith
eq_of_bits (suc n) a b p q same =
    let lowest : a % 2 ≡ b % 2 = same 0 (omega arith) in
    let rest =
      eq_of_bits n (a / 2) (b / 2) (omega (arith, two_pow-suc n)) (omega (arith, two_pow-suc n))
        (λ i lt. same (suc i) (omega arith)) in
    omega arith

pub bit-zero : (i : ℕ) → bit i 0 ≡ 0
unfolding bit
bit-zero zero = refl
bit-zero (suc i) = bit-zero i

pub bit_above : (width i a : ℕ) → a < 2 ^ width → width ≤ i → bit i a ≡ 0
unfolding bit
bit_above zero i a h le = let nothing : a ≡ 0 = omega arith in rw (nothing) (bit-zero i)
bit_above (suc width) zero a h le = absurd (omega arith)
bit_above (suc width) (suc i) a h le =
    bit_above width i (a / 2) (omega (arith, two_pow-suc width)) (omega arith)
