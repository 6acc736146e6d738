-- ===== src/Bits/Toggle.antt =====
-- Exclusive or: its width, and that it changes a value unless the mask is 0.
use Prim.Native.Nat.{differ}
use riscv_server_soc_ts.Prelude.{
  ℕ, zero, suc, ◌+◌, ◌/◌, ◌%◌, ◌^◌, ◌≤◌, ◌<◌, ◌≡◌, refl, arith, bit_xor,
}
use riscv_server_soc_ts.Bits.{bit_xor_step}
use riscv_server_soc_ts.Bits.Laws.{two_pow-suc}

differ_digits : (a b : ℕ) → a < 2 → b < 2 → differ a b ≡ (a + b) % 2
differ_digits zero zero h k = refl
differ_digits zero (suc zero) h k = refl
differ_digits zero (suc (suc b)) h k = absurd (omega arith)
differ_digits (suc zero) zero h k = refl
differ_digits (suc zero) (suc zero) h k = refl
differ_digits (suc zero) (suc (suc b)) h k = absurd (omega arith)
differ_digits (suc (suc a)) b h k = absurd (omega arith)

lowest : (x y : ℕ) → differ (x % 2) (y % 2) ≡ (x + y) % 2
lowest x y = let digits = differ_digits (x % 2) (y % 2) (omega arith) (omega arith) in omega arith

pub bit_xor-lt : (n a b : ℕ) → a < 2 ^ n → b < 2 ^ n → bit_xor a b < 2 ^ n
bit_xor-lt zero a b p q =
    let nothing : a ≡ 0 = omega arith in
    let nothing' : b ≡ 0 = omega arith in rw (nothing, nothing') (omega arith)
bit_xor-lt (suc n) a b p q = omega (
  arith,
  two_pow-suc n,
  bit_xor_step a b,
  lowest a b,
  bit_xor-lt n (a / 2) (b / 2) (omega (arith, two_pow-suc n)) (omega (arith, two_pow-suc n)),
)

mask_is_zero : (n a m : ℕ) → m ≤ n → bit_xor a m ≡ a → m ≡ 0
mask_is_zero zero a m h e = omega arith
mask_is_zero (suc n) a m h e =
    let half : bit_xor (a / 2) (m / 2) ≡ a / 2 = omega (arith, bit_xor_step a m, lowest a m) in
    let upper : m / 2 ≤ n → m / 2 ≡ 0 = λ less. mask_is_zero n (a / 2) (m / 2) less half in
    let high = upper (omega arith) in omega (arith, bit_xor_step a m, lowest a m)

-- A value that its exclusive or with a mask leaves as it is: the mask is 0.
pub eq-zero_of_bit_xor : (a m : ℕ) → bit_xor a m ≡ a → m ≡ 0
eq-zero_of_bit_xor a m e = mask_is_zero m a m (omega arith) e
