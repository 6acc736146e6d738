-- ===== src/GicIts/MaxLpi.antt =====
-- The highest interrupt that every translation service supports
-- (val/sys_arch_src/gic/its/bsa_gic_its.c).
use native.Mathlib.Nat.{pow-le-pow_right}
use riscv_server_soc_ts.Prelude.{
  ℕ, zero, suc, ◌+◌, ◌^◌, ◌≤◌, ◌<◌, ◌≡◌, ◌≢◌, refl, arith, true, subst, ap, ◌∙◌, Bool-cases, ltb,
  some, inl, inr, ◌⊎◌, if◌then◌else◌,
}
use riscv_server_soc_ts.Bits.Laws.{two_pow_pos}
use riscv_server_soc_ts.GicIts.{ItsBlock, GicItsInfo}
use riscv_server_soc_ts.GicIts.Lpi.{min_loop, get_max_lpi}

-- The least of `start` and the id bits of `n` services from `i` on.
abbrev pub IsLeastOf : ℕ → ℕ → (ℕ → ItsBlock) → ℕ → ℕ → Type 0
IsLeastOf n i its start least =
    (least ≤ start)
    × ((k : ℕ) → k < n → least ≤ (its (i + k)).id_bits)
    × ((least ≡ start) ⊎ ((k : ℕ) × (k < n) × (least ≡ (its (i + k)).id_bits)))

min_loop-IsLeastOf :
    (n i : ℕ) (its : ℕ → ItsBlock) (start : ℕ) → IsLeastOf n i its start (min_loop n i its start)
unfolding min_loop
min_loop-IsLeastOf zero i its start = (omega arith, λ k lt. absurd (omega arith), inl refl)
min_loop-IsLeastOf (suc n) i its start =
    let here = (its i).id_bits in
    let start' : ℕ = if ltb start here then start else here in
    let least = min_loop n (i + 1) its start' in
    let (below, all, attained) = min_loop-IsLeastOf n (i + 1) its start' in
    let low : (start' ≤ start) × (start' ≤ here) = (ground arith, ground arith) in
    let from : (start' ≡ start) ⊎ (start' ≡ here) = chosen start here in
    (omega (arith, low.0), each least here (omega (arith, low.1)) all, which least from attained)
  where
    bits_at : ℕ → ℕ
    bits_at k = (its k).id_bits

    chosen : (a b : ℕ) → ((if ltb a b then a else b) ≡ a) ⊎ ((if ltb a b then a else b) ≡ b)
    chosen a b = elim (Bool-cases (ltb a b)) [
      | inl e ↦ inl (rw (e) refl)
      | inr e ↦ inr (rw (e) refl)
    ]

    shifted : (k : ℕ) → i + 1 + k ≡ i + suc k
    shifted k = omega arith

    each :
        (least here : ℕ)
        → least ≤ (its i).id_bits
        → ((k : ℕ) → k < n → least ≤ (its (i + 1 + k)).id_bits)
        → (k : ℕ) → k < suc n
        → least ≤ (its (i + k)).id_bits
    each least here first rest zero lt = let e : i + 0 ≡ i = omega arith in rw (e) first
    each least here first rest (suc k) lt =
        subst (λ j. least ≤ (its j).id_bits) (shifted k) (rest k (omega arith))

    which :
        {start' : ℕ} (least : ℕ)
        → (start' ≡ start) ⊎ (start' ≡ (its i).id_bits)
        → (least ≡ start') ⊎ ((k : ℕ) × (k < n) × (least ≡ (its (i + 1 + k)).id_bits))
        → (least ≡ start) ⊎ ((k : ℕ) × (k < suc n) × (least ≡ (its (i + k)).id_bits))
    which least (inl e) (inl h) = inl (h ∙ e)
    which least (inr e) (inl h) =
        let z : i + 0 ≡ i = omega arith in inr (0, omega arith, rw (z) (h ∙ e))
    which least from (inr (k, lt, h)) =
        inr (suc k, omega arith, h ∙ ap (λ j. (its j).id_bits) (shifted k))

-- When the services are set up, there is at least one, and none has 31 or more id bits, the highest
-- interrupt fits the id bits of every service and is the highest that the one with the fewest has.
pub get_max_lpi-least :
    (info : GicItsInfo)
    → info.gic_num_its ≢ 0
    → ((k : ℕ) → k < info.gic_num_its → (info.gic_its k).id_bits ≤ 30)
    → let highest = get_max_lpi (some info) true in
      ((k : ℕ) → k < info.gic_num_its → highest < 2 ^ ((info.gic_its k).id_bits + 1))
      × ((k : ℕ) × (k < info.gic_num_its) × (highest + 1 ≡ 2 ^ ((info.gic_its k).id_bits + 1)))
unfolding get_max_lpi
get_max_lpi-least info some_its small =
    let its = info.gic_its in
    let least = min_loop info.gic_num_its 0 its 31 in
    let (below, all, attained) = min_loop-IsLeastOf info.gic_num_its 0 its 31 in
    let first : least ≤ (its 0).id_bits = all 0 (omega arith) in
    let few : (its 0).id_bits ≤ 30 = small 0 (omega arith) in
    let bounded : 2 ^ (least + 1) ≤ 2 ^ 31 =
      pow-le-pow_right {n = 2} (omega arith) {j = 31} (omega arith) in
    let positive : 0 < 2 ^ (least + 1) = two_pow_pos (least + 1) in
    let value : get_max_lpi (some info) true + 1 ≡ 2 ^ (least + 1) = ground arith in
    (
      λ k lt.
          let supported : least ≤ (its k).id_bits =
            subst (λ j. least ≤ (its j).id_bits) (plain k) (all k lt) in
          let fits : 2 ^ (least + 1) ≤ 2 ^ ((its k).id_bits + 1) =
            pow-le-pow_right {n = 2} (omega arith) (omega arith) in
          omega arith,
      elim attained [
        | inl none_has ↦ absurd (omega arith)
        | inr (k, lt, e) ↦
            (k, lt, value ∙ ap (λ (b : ℕ). 2 ^ (b + 1)) (e ∙ ap (λ j. (its j).id_bits) (plain k)))
      ],
    )
  where
    plain : (k : ℕ) → 0 + k ≡ k
    plain k = omega arith
