-- ===== src/Bits/Masks.antt =====
-- One-bit masks: setting, clearing and testing a bit of a 32-bit value.
use riscv_server_soc_ts.Prelude.{
  ℕ, zero, suc, ◌*◌, ◌/◌, ◌%◌, ◌^◌, ◌≤◌, ◌<◌, ◌≡◌, refl, ◌∙◌, arith, bit_and, bit_or, true, ◌==◌,
  ==→≡, if◌then◌else◌,
}
use riscv_server_soc_ts.Bits.{bit, zero-bit_and, bit_and_step, bit_or_step}
use riscv_server_soc_ts.Bits.Laws.{
  bit-bit_and, bit-bit_or, bit-le-one, two_pow-suc, all_below, all_below_sound,
}

bit_and-nothing : (n : ℕ) {a : ℕ} → a ≤ n → bit_and a 0 ≡ 0
bit_and-nothing zero {a} h = let none_left : a ≡ 0 = omega arith in rw none_left (zero-bit_and 0)
bit_and-nothing (suc n) {a} h =
    let upper : bit_and (a / 2) 0 ≡ 0 = bit_and-nothing n (omega arith) in
    bit_and_step a 0 ∙ omega (arith, upper)

pub bit_and-zero : (a : ℕ) → bit_and a 0 ≡ 0
bit_and-zero a = bit_and-nothing a (omega arith)

bit-zero : (i : ℕ) → bit i 0 ≡ 0
unfolding bit
bit-zero zero = refl
bit-zero (suc i) = bit-zero i

-- The bit that a one-bit mask tests.
pub bit_and-two : (a : ℕ) → bit_and a 2 ≡ bit 1 a * 2
unfolding bit
bit_and-two a =
    let inner : bit_and (a / 2) 1 ≡ a / 2 % 2 =
      omega (arith, bit_and_step (a / 2) 1, bit_and-zero (a / 2 / 2)) in
    omega (arith, bit_and_step a 2)

bit-one : (k i : ℕ) → bit i (2 ^ k) ≡ (if i == k then 1 else 0)
unfolding bit
bit-one zero zero = refl
bit-one zero (suc i) = ground (arith, bit-zero i)
bit-one (suc k) zero = ground (arith, two_pow-suc k)
bit-one (suc k) (suc i) =
    let half : 2 ^ suc k / 2 ≡ 2 ^ k = omega (arith, two_pow-suc k) in
    rw half (ground (arith, bit-one k i))

-- Setting bit `k` leaves the other bits.
pub bit-set : (k i a : ℕ) → bit i (bit_or a (2 ^ k)) ≡ (if i == k then 1 else bit i a)
bit-set k i a = ground (arith, bit-bit_or i a (2 ^ k), bit-one k i, bit-le-one i a)

-- So does clearing one of the bits of the masks below.
pub bit-clear :
    (mask k i a : ℕ)
    → all_below 32 (λ j. bit j mask == (if j == k then 0 else 1)) ≡ true
    → i < 32
    → bit i (bit_and a mask) ≡ (if i == k then 0 else bit i a)
bit-clear mask k i a ok small =
    let ones =
      ==→≡ _ _ (all_below_sound (λ j. bit j mask == (if j == k then 0 else 1)) 32 ok small) in
    ground (arith, bit-bit_and i a mask, ones, bit-le-one i a)

-- The operations stay within a width.
pub bit_or-lt : (n a b : ℕ) → a < 2 ^ n → b < 2 ^ n → bit_or a b < 2 ^ n
bit_or-lt zero a b p q =
    let nothing : a ≡ 0 = omega arith in
    let nothing' : b ≡ 0 = omega arith in rw (nothing, nothing') (omega arith)
bit_or-lt (suc n) a b p q = omega (
  arith,
  two_pow-suc n,
  bit_or_step a b,
  bit_or-lt n (a / 2) (b / 2) (omega (arith, two_pow-suc n)) (omega (arith, two_pow-suc n)),
)

pub bit_and-lt : (n a b : ℕ) → a < 2 ^ n → bit_and a b < 2 ^ n
bit_and-lt zero a b p =
    let nothing : a ≡ 0 = omega arith in rw nothing (omega (arith, zero-bit_and b))
bit_and-lt (suc n) a b p = omega (
  arith,
  two_pow-suc n,
  bit_and_step a b,
  bit_and-lt n (a / 2) (b / 2) (omega (arith, two_pow-suc n)),
)
