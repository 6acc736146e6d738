-- ===== src/Bits.antt =====
-- Bitwise operations of C at variables: the digit laws of `bit_and`, `bit_or`, and the masks and
-- fields that the register code is written with.
pub mod Laws
pub mod Masks
pub mod Toggle
pub mod Extension
pub mod Round
use Prim.Native.Nat.{digits, bitwise, differ, bit_and-bitwise, bit_or-bitwise, bit_xor-bitwise}
use riscv_server_soc_ts.Prelude.{
  ℕ, zero, suc, ◌+◌, ◌-◌, ◌*◌, ◌/◌, ◌%◌, ◌^◌, ◌≤◌, min, max, ◌≡◌, refl, sym, subst, ap, ◌∙◌,
  ℕ_discrete, arith, bit_and, bit_or, bit_xor,
}

-- `x >> k`, `x & (2^k - 1)`, and `(x >> shift) & (2^width - 1)`.
abbrev pub shr : ℕ → ℕ → ℕ
shr x k = x / 2 ^ k

abbrev pub low_bits : ℕ → ℕ → ℕ
low_bits x k = x % 2 ^ k

abbrev pub field : ℕ → ℕ → ℕ → ℕ
field x shift width = x / 2 ^ shift % 2 ^ width

-- An operation on the digits of two numbers, with what it gives once the first has no digit left.
module _ (rest : ℕ → ℕ) (op : ℕ → ℕ → ℕ) where
  spare_round : (n a b : ℕ) → a ≤ n → digits rest op (suc n) a b ≡ digits rest op n a b
  spare_round zero zero b h = refl
  spare_round (suc n) zero b h = refl
  spare_round zero (suc a) b h = absurd (omega arith)
  spare_round (suc n) (suc a) b h =
      ap (λ (t : ℕ). t * 2 + op (suc a % 2) (b % 2))
        (spare_round n (suc a / 2) (b / 2) (omega arith))

  spare_rounds : (n a b : ℕ) → a ≤ n → digits rest op n a b ≡ bitwise rest op a b
  spare_rounds zero zero b h = refl
  spare_rounds zero (suc a) b h = absurd (omega arith)
  spare_rounds (suc n) a b h = elim (ℕ_discrete a (suc n)) [
    | yes all ↦ subst (λ m. digits rest op m a b ≡ bitwise rest op a b) all refl
    | no fewer ↦ spare_round n a b (omega arith) ∙ spare_rounds n a b (omega arith)
  ]

  lowest_digit :
      (a b : ℕ)
      → bitwise rest op (suc a) b ≡ bitwise rest op (suc a / 2) (b / 2) * 2 + op (suc a % 2) (b % 2)
  lowest_digit a b =
      ap (λ (t : ℕ). t * 2 + op (suc a % 2) (b % 2))
        (spare_rounds a (suc a / 2) (b / 2) (omega arith))

pub zero-bit_or : (b : ℕ) → bit_or 0 b ≡ b
zero-bit_or b = bit_or-bitwise 0 b

-- Both operations work from the lowest digit up.
pub bit_or_step : (x y : ℕ) → bit_or x y ≡ bit_or (x / 2) (y / 2) * 2 + max (x % 2) (y % 2)
bit_or_step (suc x) y =
    let upper = bit_or-bitwise (suc x / 2) (y / 2) in
    bit_or-bitwise (suc x) y
    ∙ lowest_digit (λ c. c) max x y
    ∙ ap (λ (t : ℕ). t * 2 + max (suc x % 2) (y % 2)) (sym upper)
bit_or_step zero y = let upper = zero-bit_or (y / 2) in zero-bit_or y ∙ omega (arith, upper)

pub zero-bit_and : (y : ℕ) → bit_and 0 y ≡ 0
zero-bit_and y = bit_and-bitwise 0 y

pub bit_and_step : (x y : ℕ) → bit_and x y ≡ bit_and (x / 2) (y / 2) * 2 + min (x % 2) (y % 2)
bit_and_step (suc x) y =
    let upper = bit_and-bitwise (suc x / 2) (y / 2) in
    bit_and-bitwise (suc x) y
    ∙ lowest_digit (λ _. zero) min x y
    ∙ ap (λ (t : ℕ). t * 2 + min (suc x % 2) (y % 2)) (sym upper)
bit_and_step zero y = let upper = zero-bit_and (y / 2) in zero-bit_and y ∙ omega (arith, upper)

pub bit_xor_step : (x y : ℕ) → bit_xor x y ≡ bit_xor (x / 2) (y / 2) * 2 + differ (x % 2) (y % 2)
bit_xor_step (suc x) y =
    let upper = bit_xor-bitwise (suc x / 2) (y / 2) in
    bit_xor-bitwise (suc x) y
    ∙ lowest_digit (λ c. c) differ x y
    ∙ ap (λ (t : ℕ). t * 2 + differ (suc x % 2) (y % 2)) (sym upper)
bit_xor_step zero y =
    let upper = bit_xor-bitwise 0 (y / 2) in bit_xor-bitwise 0 y ∙ omega (arith, upper)

-- Bit `i` of a number.
unfoldable pub bit : ℕ → ℕ → ℕ
bit zero x = x % 2
bit (suc i) x = bit i (x / 2)

-- 32-bit unsigned arithmetic of C.
abbrev pub u32_mod : ℕ
u32_mod = 2 ^ 32

abbrev pub u64_mod : ℕ
u64_mod = 2 ^ 64

abbrev pub add32 : ℕ → ℕ → ℕ
add32 a b = (a + b) % u32_mod

abbrev pub sub32 : ℕ → ℕ → ℕ
sub32 a b = (a + u32_mod - b) % u32_mod

abbrev pub shl32 : ℕ → ℕ → ℕ
shl32 a k = a * 2 ^ k % u32_mod

abbrev pub add64 : ℕ → ℕ → ℕ
add64 a b = (a + b) % u64_mod
