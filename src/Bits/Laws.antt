-- ===== src/Bits/Laws.antt =====
-- Bits of a conjunction and a disjunction, disjoint fields joined by `|`, and numbers told apart by
-- their bits.
use native.Mathlib.Nat.{pow-suc, mul_comm}
use riscv_server_soc_ts.Prelude.{
  ℕ, zero, suc, ◌+◌, ◌*◌, ◌/◌, ◌%◌, ◌^◌, ◌≤◌, ◌<◌, min, max, ◌≡◌, sym, ap, ◌∙◌, arith, bit_and,
  bit_or, Bool, true, false, Bool-cases, inl, inr, ℕ_discrete, if◌then◌else◌,
}
use riscv_server_soc_ts.Bits.{bit, bit_and_step, bit_or_step, zero-bit_or}

pub bit-bit_and : (i a b : ℕ) → bit i (bit_and a b) ≡ min (bit i a) (bit i b)
unfolding bit
bit-bit_and zero a b = omega (arith, bit_and_step a b)
bit-bit_and (suc i) a b =
    let halves : bit_and a b / 2 ≡ bit_and (a / 2) (b / 2) = omega (arith, bit_and_step a b) in
    rw halves (bit-bit_and i (a / 2) (b / 2))

pub bit-bit_or : (i a b : ℕ) → bit i (bit_or a b) ≡ max (bit i a) (bit i b)
unfolding bit
bit-bit_or zero a b = omega (arith, bit_or_step a b)
bit-bit_or (suc i) a b =
    let halves : bit_or a b / 2 ≡ bit_or (a / 2) (b / 2) = omega (arith, bit_or_step a b) in
    rw halves (bit-bit_or i (a / 2) (b / 2))

pub bit-le-one : (i a : ℕ) → bit i a ≤ 1
unfolding bit
bit-le-one zero a = omega arith
bit-le-one (suc i) a = bit-le-one i (a / 2)

pub two_pow-suc : (k : ℕ) → 2 ^ suc k ≡ 2 * 2 ^ k
two_pow-suc k = pow-suc 2 k ∙ mul_comm _ _

pub two_pow_pos : (k : ℕ) → 0 < 2 ^ k
two_pow_pos zero = omega arith
two_pow_pos (suc k) = omega (arith, two_pow-suc k, two_pow_pos k)

bit_or-nothing : (n : ℕ) {a : ℕ} → a ≤ n → bit_or a 0 ≡ a
bit_or-nothing zero {a} h = let none_left : a ≡ 0 = omega arith in rw none_left (zero-bit_or 0)
bit_or-nothing (suc n) {a} h =
    let upper : bit_or (a / 2) 0 ≡ a / 2 = bit_or-nothing n (omega arith) in
    bit_or_step a 0 ∙ omega (arith, upper)

pub bit_or-zero : (a : ℕ) → bit_or a 0 ≡ a
bit_or-zero a = bit_or-nothing a (omega arith)

bit_or_swap : (n x y : ℕ) → x ≤ n → bit_or x y ≡ bit_or y x
bit_or_swap zero x y h =
    let nothing : x ≡ 0 = omega arith in rw (nothing) (zero-bit_or y ∙ sym (bit_or-zero y))
bit_or_swap (suc n) x y h =
    omega (arith, bit_or_step x y, bit_or_step y x, bit_or_swap n (x / 2) (y / 2) (omega arith))

pub bit_or_comm : (x y : ℕ) → bit_or x y ≡ bit_or y x
bit_or_comm x y = bit_or_swap x x y (omega arith)

bit_or-double : (x b : ℕ) → bit_or (2 * x) b ≡ bit_or x (b / 2) * 2 + b % 2
bit_or-double x b =
    let half : 2 * x / 2 ≡ x = omega arith in
    let step : bit_or (2 * x) b ≡ bit_or x (b / 2) * 2 + max (2 * x % 2) (b % 2) =
      rw half at (bit_or_step (2 * x) b) in
    omega arith

-- A field below `2 ^ k` joined by `|` to a value shifted left by `k` is added to it.
pub bit_or-shifted : (k a b : ℕ) → b < 2 ^ k → bit_or (a * 2 ^ k) b ≡ a * 2 ^ k + b
bit_or-shifted zero a b h =
    let nothing : b ≡ 0 = omega arith in
    let same : a * 2 ^ 0 ≡ a = omega arith in rw (nothing, same) (bit_or-zero a ∙ omega arith)
bit_or-shifted (suc k) a b h =
    let twice : a * 2 ^ suc k ≡ 2 * (a * 2 ^ k) =
      omega (arith, ap (λ (t : ℕ). a * t) (two_pow-suc k)) in
    rw twice (
      omega (
        arith,
        bit_or-double (a * 2 ^ k) b,
        bit_or-shifted k a (b / 2) (omega (arith, two_pow-suc k)),
      ))

-- A test that holds at every number of a small range, by evaluation.
unfoldable pub all_below : ℕ → (ℕ → Bool) → Bool
all_below zero test = true
all_below (suc last) test = if test last then all_below last test else false

pub all_below_sound :
    (test : ℕ → Bool) (range : ℕ) {x : ℕ} → all_below range test ≡ true → x < range → test x ≡ true
unfolding all_below
all_below_sound test zero {x} every in_range = absurd (omega arith)
all_below_sound test (suc last) {x} every in_range = elim (Bool-cases (test last)) [
  | inr fails ↦ absurd (ground arith)
  | inl holds ↦ elim (ℕ_discrete x last) [
    | yes top ↦ rw top holds
    | no lower ↦ all_below_sound test last (rw holds at every) (omega arith)
  ]
]
