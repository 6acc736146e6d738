-- ===== src/Smmu/Positions.antt =====
-- The positions of a queue of val/sys_arch_src/smmu_v3/smmu_v3.c, with a wrap bit above the index,
-- against counters that run on.
use native.Mathlib.Nat.{
  mod-add-mod, mod-mod, mod-eq_of_lt, mod-eq-sub-mod, mod-lt, mod-add-div', add-mul, mul_assoc,
  add-mul-mod_self_right,
}
use riscv_server_soc_ts.Prelude.{
  ℕ, zero, suc, ◌+◌, ◌-◌, ◌*◌, ◌/◌, ◌%◌, ◌^◌, ◌≤◌, ◌<◌, ◌≡◌, ◌⊎◌, inl, inr, dec_lt, sym, ap, ◌∙◌,
  arith, Bool, ◌&&◌, ◌==◌, ◌!=◌,
}
use riscv_server_soc_ts.Bits.{low_bits, add32}
use riscv_server_soc_ts.Bits.Laws.{two_pow-suc, two_pow_pos}
use riscv_server_soc_ts.Smmu.{Queue}

-- `x & (1 << k)`
abbrev pub wrap_bit : ℕ → ℕ → ℕ
wrap_bit x k = x / 2 ^ k % 2 * 2 ^ k

unfoldable pub inc_prod : Queue → ℕ
inc_prod q = low_bits (add32 q.prod 1) (q.log2nent + 1)

unfoldable pub inc_cons : Queue → ℕ
inc_cons q = low_bits (add32 q.cons 1) (q.log2nent + 1)

unfoldable pub queue_full : Queue → Bool
queue_full q =
    low_bits q.prod q.log2nent == low_bits q.cons q.log2nent
    && wrap_bit q.prod q.log2nent != wrap_bit q.cons q.log2nent

unfoldable pub queue_empty : Queue → Bool
queue_empty q =
    low_bits q.prod q.log2nent == low_bits q.cons q.log2nent
    && wrap_bit q.prod q.log2nent == wrap_bit q.cons q.log2nent

-- A position stands for a counter: the lowest bits, up to the wrap bit, agree.
abbrev pub Stands : ℕ → ℕ → ℕ → Type 0
Stands log2nent position counter =
    low_bits position (log2nent + 1) ≡ low_bits counter (log2nent + 1)

bit_above_rest :
    (size r b h : ℕ) → r < size → b ≤ 1 → (r + (b + h * 2) * size) % (2 * size) ≡ r + b * size
bit_above_rest size r b h lt le =
    let regroup : r + (b + h * 2) * size ≡ r + b * size + h * (2 * size) =
      omega (arith, add-mul b (h * 2) size, mul_assoc h 2 size) in
    let fits : r + b * size < 2 * size = within b le in
    ap (λ (x : ℕ). x % (2 * size)) regroup
    ∙ add-mul-mod_self_right (r + b * size) h (2 * size)
    ∙ mod-eq_of_lt fits
  where
    within : (b : ℕ) → b ≤ 1 → r + b * size < 2 * size
    within zero h = omega arith
    within (suc zero) h = omega arith
    within (suc (suc b)) h = absurd (omega arith)

-- A number of the lowest bits is the index and the wrap bit above it.
low_bits-split : (n x : ℕ) → low_bits x (n + 1) ≡ low_bits x n + x / 2 ^ n % 2 * 2 ^ n
low_bits-split n x =
    let size = 2 ^ n in
    let q = x / size in
    let double : 2 ^ (n + 1) ≡ 2 * size = ap (λ (k : ℕ). 2 ^ k) (add_one n) ∙ two_pow-suc n in
    let halves : q ≡ q % 2 + q / 2 * 2 = omega arith in
    let whole : x ≡ x % size + (q % 2 + q / 2 * 2) * size =
      sym (mod-add-div' x size) ∙ ap (λ (k : ℕ). x % size + k * size) halves in
    let low = mod-lt x (two_pow_pos n) in
    rw (double) (
      ap (λ (k : ℕ). k % (2 * size)) whole
      ∙ bit_above_rest size (x % size) (q % 2) (q / 2) low (omega arith))
  where
    add_one : (n : ℕ) → n + 1 ≡ suc n
    add_one n = omega arith

-- A position is at the index of its counter.
pub Stands-index :
    (n position counter : ℕ) → Stands n position counter → low_bits position n ≡ low_bits counter n
Stands-index n position counter e =
    sym (index position) ∙ ap (λ (x : ℕ). x % 2 ^ n) e ∙ index counter
  where
    index : (x : ℕ) → low_bits x (n + 1) % 2 ^ n ≡ x % 2 ^ n
    index x =
        ap (λ (y : ℕ). y % 2 ^ n) (low_bits-split n x)
        ∙ add-mul-mod_self_right (x % 2 ^ n) (x / 2 ^ n % 2) (2 ^ n)
        ∙ mod-mod x (2 ^ n)

-- Two positions, of which the first is `d` entries ahead, at most a whole round: by their indices and
-- wrap bits.
round_cases :
    (size x : ℕ)
    → x < 2 * (2 * size)
    → (x % (2 * size) ≡ x) ⊎ ((2 * size ≤ x) × (x % (2 * size) ≡ x - 2 * size))
round_cases size x h = elim (dec_lt x (2 * size)) [
  | yes below ↦ inl (mod-eq_of_lt below)
  | no past ↦ inr (omega arith, mod-eq-sub-mod (omega arith) ∙ mod-eq_of_lt (omega arith))
]

abbrev IsJudged : (size i w j v d : ℕ) → Type 0
IsJudged size i w j v d =
    ((i == j && w * size == v * size) ≡ (d == 0)) × ((i == j && w * size != v * size) ≡ (d == size))

ahead :
    (size i w j v d : ℕ)
    → i < size
    → j < size
    → w ≤ 1
    → v ≤ 1
    → d ≤ size
    → (i + w * size ≡ j + v * size + d)
      ⊎ ((2 * size ≤ j + v * size + d) × (i + w * size ≡ j + v * size + d - 2 * size))
    → IsJudged size i w j v d
ahead size i zero j zero d hi hj hw hv hd e = (ground arith, ground arith)
ahead size i zero j (suc zero) d hi hj hw hv hd e = (ground arith, ground arith)
ahead size i (suc zero) j zero d hi hj hw hv hd e = (ground arith, ground arith)
ahead size i (suc zero) j (suc zero) d hi hj hw hv hd e = (ground arith, ground arith)
ahead size i (suc (suc w)) j v d hi hj hw hv hd e = absurd (omega arith)
ahead size i zero j (suc (suc v)) d hi hj hw hv hd e = absurd (omega arith)
ahead size i (suc zero) j (suc (suc v)) d hi hj hw hv hd e = absurd (omega arith)

same_test : (p c d e : ℕ) → p ≡ c + d → (d == e) ≡ (p == c + e)
same_test p c d e h = ground arith

same_start : (p c d : ℕ) → p ≡ c + d → (d == 0) ≡ (p == c)
same_start p c d h = ground arith

-- Where the positions of a queue of 2^n entries stand for the counters of the entries written and
-- read, and no more than 2^n entries are outstanding, the queue is empty exactly when the counters
-- agree, and full exactly when all its entries are outstanding.
pub queue_full-queue_empty :
    (q : Queue) (written read : ℕ)
    → Stands q.log2nent q.prod written
    → Stands q.log2nent q.cons read
    → read ≤ written
    → written ≤ read + 2 ^ q.log2nent
    → (queue_empty q ≡ (written == read)) × (queue_full q ≡ (written == read + 2 ^ q.log2nent))
unfolding queue_full queue_empty
queue_full-queue_empty q written read p c le room =
    let n = q.log2nent in
    let size = 2 ^ n in
    let d = written - read in
    let double : 2 ^ (n + 1) ≡ 2 * size = ap (λ (k : ℕ). 2 ^ k) (add_one n) ∙ two_pow-suc n in
    let positive = two_pow_pos n in
    let since : written ≡ read + d = omega arith in
    let split_p = sym (low_bits-split n q.prod) ∙ p in
    let split_c = sym (low_bits-split n q.cons) ∙ c in
    let moved : (written % 2 ^ (n + 1)) ≡ (read % 2 ^ (n + 1) + d) % 2 ^ (n + 1) =
      ap (λ (x : ℕ). x % 2 ^ (n + 1)) since ∙ sym (mod-add-mod read (2 ^ (n + 1)) d) in
    let start = low_bits q.cons n + q.cons / 2 ^ n % 2 * size in
    let placed : low_bits q.prod n + q.prod / 2 ^ n % 2 * size ≡ (start + d) % (2 * size) =
      split_p
      ∙ moved
      ∙ ap (λ (x : ℕ). (x + d) % 2 ^ (n + 1)) (sym split_c)
      ∙ ap (λ (m : ℕ). (start + d) % m) double in
    let bound = low_wrap n q.cons in
    let judged =
      ahead size (low_bits q.prod n) (q.prod / 2 ^ n % 2) (low_bits q.cons n) (q.cons / 2 ^ n % 2) d
        (mod-lt q.prod positive) (mod-lt q.cons positive) (omega arith) (omega arith) (omega arith)
        (settle size placed (round_cases size (start + d) (omega arith))) in
    (judged.0 ∙ same_start written read d since, judged.1 ∙ same_test written read d size since)
  where
    add_one : (n : ℕ) → n + 1 ≡ suc n
    add_one n = omega arith

    low_wrap : (n x : ℕ) → low_bits x n + x / 2 ^ n % 2 * 2 ^ n < 2 * 2 ^ n
    low_wrap n x =
        let double : 2 ^ (n + 1) ≡ 2 * 2 ^ n = ap (λ (k : ℕ). 2 ^ k) (add_one n) ∙ two_pow-suc n in
        let small = mod-lt x (two_pow_pos (n + 1)) in omega (arith, low_bits-split n x)

    settle :
        (size : ℕ) {a x : ℕ}
        → a ≡ x % (2 * size)
        → (x % (2 * size) ≡ x) ⊎ ((2 * size ≤ x) × (x % (2 * size) ≡ x - 2 * size))
        → (a ≡ x) ⊎ ((2 * size ≤ x) × (a ≡ x - 2 * size))
    settle size e (inl h) = inl (e ∙ h)
    settle size e (inr (le, h)) = inr (le, e ∙ h)

-- The next position stands for the next counter.
pub increased :
    (n position counter : ℕ)
    → position + 1 < 2 ^ 32
    → Stands n position counter
    → Stands n (low_bits (add32 position 1) (n + 1)) (counter + 1)
increased n position counter lt e =
    let size = 2 ^ (n + 1) in
    let plain : add32 position 1 ≡ position + 1 = mod-eq_of_lt lt in
    rw (plain) (
      mod-mod (position + 1) size
      ∙ sym (mod-add-mod position size 1)
      ∙ ap (λ (x : ℕ). (x + 1) % size) e
      ∙ mod-add-mod counter size 1)
