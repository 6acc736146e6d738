-- ===== src/Bits/Round.antt =====
-- Masks that round a number to a power of two.
use native.Mathlib.Nat.{
  div-div-eq-div-mul, mul_comm, mul_assoc, mod-lt, mod-add-div', add-mul-mod_self_right,
  mod-eq_of_lt, div-lt_iff_lt-mul,
}
use riscv_server_soc_ts.Prelude.{
  ℕ, zero, suc, ◌+◌, ◌-◌, ◌*◌, ◌/◌, ◌%◌, ◌^◌, ◌≤◌, ◌<◌, min, ◌≡◌, sym, subst, ap, ◌∙◌, arith,
  bit_and,
}
use riscv_server_soc_ts.Bits.{bit_and_step}
use riscv_server_soc_ts.Bits.Masks.{bit_and-zero}
use riscv_server_soc_ts.Bits.Laws.{two_pow-suc, two_pow_pos}

mod_double : (size x : ℕ) → 0 < size → x % (2 * size) ≡ x / 2 % size * 2 + x % 2
mod_double size x pos =
    let half = x / 2 in
    let low = mod-lt half pos in
    let whole : half ≡ half % size + half / size * size = sym (mod-add-div' half size) in
    let swap : half / size * (2 * size) ≡ half / size * size * 2 =
      ap (λ (y : ℕ). half / size * y) (mul_comm 2 size) ∙ sym (mul_assoc (half / size) size 2) in
    let regroup : x ≡ half % size * 2 + x % 2 + half / size * (2 * size) = omega arith in
    ap (λ (y : ℕ). y % (2 * size)) regroup
    ∙ add-mul-mod_self_right (half % size * 2 + x % 2) (half / size) (2 * size)
    ∙ mod-eq_of_lt (omega arith)

-- `x & (2^k - 1)`
pub bit_and-low : (k x : ℕ) → bit_and x (2 ^ k - 1) ≡ x % 2 ^ k
bit_and-low zero x = bit_and-zero x ∙ omega arith
bit_and-low (suc k) x =
    let pos = two_pow_pos k in
    let double = two_pow-suc k in
    let half : (2 ^ suc k - 1) / 2 ≡ 2 ^ k - 1 = omega arith in
    let odd : (2 ^ suc k - 1) % 2 ≡ 1 = omega arith in
    let step = bit_and_step x (2 ^ suc k - 1) in
    let inner = ap (λ (m : ℕ). bit_and (x / 2) m) half ∙ bit_and-low k (x / 2) in
    step
    ∙ parts _ _ _ _ inner odd (omega arith)
    ∙ sym (mod_double (2 ^ k) x pos)
    ∙ ap (λ (m : ℕ). x % m) (sym double)
  where
    parts : (a b c d : ℕ) → a ≡ b → c ≡ 1 → d ≤ 1 → a * 2 + min d c ≡ b * 2 + d
    parts a b c d e one le = omega arith

-- `y & (2^(k + n) - 2^k)`: the bits from `k` to `k + n - 1`, in their place
pub bit_and-field : (k n y : ℕ) → bit_and y (2 ^ (k + n) - 2 ^ k) ≡ y / 2 ^ k % 2 ^ n * 2 ^ k
bit_and-field zero n y =
    let plain : 0 + n ≡ n = omega arith in
    let whole : y / 2 ^ 0 ≡ y = omega arith in rw (plain, whole) (bit_and-low n y ∙ omega arith)
bit_and-field (suc k) n y =
    let step : suc k + n ≡ suc (k + n) = omega arith in
    let double = ap (λ (m : ℕ). 2 ^ m) step ∙ two_pow-suc (k + n) in
    let double' = two_pow-suc k in
    let half : (2 ^ (suc k + n) - 2 ^ suc k) / 2 ≡ 2 ^ (k + n) - 2 ^ k = omega arith in
    let even : (2 ^ (suc k + n) - 2 ^ suc k) % 2 ≡ 0 = omega arith in
    let inner = ap (λ (m : ℕ). bit_and (y / 2) m) half ∙ bit_and-field k n (y / 2) in
    let quotient : y / 2 / 2 ^ k ≡ y / 2 ^ suc k =
      div-div-eq-div-mul y 2 (2 ^ k) ∙ ap (λ (m : ℕ). y / m) (sym double') in
    let bits = y / 2 ^ suc k % 2 ^ n in
    let product : bits * 2 ^ k * 2 ≡ bits * 2 ^ suc k =
      mul_assoc bits (2 ^ k) 2 ∙ ap (λ (m : ℕ). bits * m) (mul_comm (2 ^ k) 2 ∙ sym double') in
    bit_and_step y (2 ^ (suc k + n) - 2 ^ suc k)
    ∙ even_parts _ _ _ _ inner even
    ∙ ap (λ (m : ℕ). m % 2 ^ n * 2 ^ k * 2) quotient
    ∙ product
  where
    even_parts : (a b c d : ℕ) → a ≡ b → c ≡ 0 → a * 2 + min d c ≡ b * 2
    even_parts a b c d e none_set = omega arith

pub two_pow-add : (k n : ℕ) → 2 ^ (k + n) ≡ 2 ^ k * 2 ^ n
two_pow-add k zero = let e : k + 0 ≡ k = omega arith in rw (e) (omega arith)
two_pow-add k (suc n) =
    let step : k + suc n ≡ suc (k + n) = omega arith in
    rw (step) (
      two_pow-suc (k + n)
      ∙ ap (λ (m : ℕ). 2 * m) (two_pow-add k n)
      ∙ sym (mul_assoc 2 (2 ^ k) (2 ^ n))
      ∙ ap (λ (m : ℕ). m * 2 ^ n) (mul_comm 2 (2 ^ k))
      ∙ mul_assoc (2 ^ k) 2 (2 ^ n)
      ∙ ap (λ (m : ℕ). 2 ^ k * m) (sym (two_pow-suc n)))

-- `y & ~(2^k - 1)` in `k + n` bits
pub bit_and-high :
    (k n y : ℕ) → y < 2 ^ (k + n) → bit_and y (2 ^ (k + n) - 2 ^ k) ≡ y / 2 ^ k * 2 ^ k
bit_and-high k n y h =
    let pos = two_pow_pos k in
    let within : y / 2 ^ k < 2 ^ n =
      (div-lt_iff_lt-mul pos).1
        (subst (λ m. y < m) (two_pow-add k n ∙ mul_comm (2 ^ k) (2 ^ n)) h) in
    bit_and-field k n y ∙ ap (λ (m : ℕ). m * 2 ^ k) (mod-eq_of_lt within)
