-- ===== src/Pcie/Bars.antt =====
-- `val_pcie_get_mmio_bar` (val/src/acs_pcie.c): the first base address register that is one of memory.
use riscv_server_soc_ts.Prelude.{
  ℕ, zero, suc, ◌+◌, ◌*◌, ◌^◌, ◌≤◌, ◌<◌, ◌≡◌, ◌≢◌, ◌⊎◌, inl, inr, arith, refl, sym, subst, ◌∙◌,
  Bool, true, false, ◌&&◌, ◌==◌, ==→≡, ==→≢, if◌then◌else◌, Bool-cases, Option, none, some,
}
use riscv_server_soc_ts.Bits.{field}
use riscv_server_soc_ts.Pcie.{Pal, InfoTable}
use riscv_server_soc_ts.Pcie.Device.{reg, function_header_type}
use riscv_server_soc_ts.Pcie.Regions.{type1_header, get_ecam_base}

-- The 64-bit variable behind `base`, by its two words.
abbrev pub two_words : ℕ → ℕ → ℕ
two_words low high = low + high * 2 ^ 32

abbrev pub type01_bar : ℕ
type01_bar = 0x10

abbrev pub type0_max_bars : ℕ
type0_max_bars = 6

abbrev pub type1_max_bars : ℕ
type1_max_bars = 2

-- `bar_low32bits >> BAR_MIT_SHIFT & BAR_MIT_MASK`: 0 for memory. `bar_mdt`: 2 for 64 bits.
abbrev pub bar_mit : ℕ → ℕ
bar_mit bar = field bar 0 1

abbrev pub bar_mdt : ℕ → ℕ
bar_mdt bar = field bar 1 2

module _ {S : Type 0} (pal : Pal S) (info : Option InfoTable) (fuel junk : ℕ) where
  abbrev pub bar : ℕ → ℕ → S → ℕ
  bar bdf index s = reg pal info fuel junk bdf (type01_bar + index * 4) s

  -- The address in the memory register `index`. `high` is the upper word of `*base` before, which
  -- stays for a register of neither 32 nor 64 bits.
  unfoldable pub bar_address : ℕ → ℕ → ℕ → S → ℕ
  bar_address bdf index high s =
      let low = bar bdf index s in
      two_words (field low 4 28 * 2 ^ 4)
        (if bar_mdt low == 2 then bar bdf (index + 1) s else if bar_mdt low == 0 then 0 else high)

  -- The `while` loop, with `n` registers left from `index` on.
  unfoldable pub bar_loop : ℕ → ℕ → ℕ → ℕ → S → ℕ
  bar_loop zero index bdf high s = 0
  bar_loop (suc n) index bdf high s =
      let rest = bar_loop n (index + 1) bdf high s in
      if bar_mit (bar bdf index s) == 0
      then bar_address bdf index high s
      else if function_header_type pal info fuel junk bdf s == type1_header
          && index + 1 == type1_max_bars
      then 0
      else rest

  -- `*base` after the call when its upper word held `high` before. For an exerciser it is what
  -- `exerciser_base` (`pal_exerciser_get_data`) leaves in `data.bar_space.base_addr`. `rounds` is for
  -- the search for its region, and `none` where that has not ended.
  unfoldable pub get_mmio_bar : (ℕ → Bool) → (ℕ → ℕ → ℕ) → ℕ → ℕ → ℕ → S → Option ℕ
  get_mmio_bar is_exerciser exerciser_base rounds bdf high s =
      if is_exerciser bdf
      then (elim (get_ecam_base pal info fuel junk rounds bdf s) [
        | none ↦ none
        | some ecam ↦ some (exerciser_base bdf ecam)
      ])
      else some (bar_loop type0_max_bars 0 bdf high s)

  -- The registers that a header has room for.
  abbrev pub bar_count : ℕ → S → ℕ
  bar_count bdf s =
      if function_header_type pal info fuel junk bdf s == type1_header
      then type1_max_bars
      else type0_max_bars

  -- None of the registers from `index` up to `end` is one of memory.
  abbrev pub NoMemory : ℕ → ℕ → ℕ → S → Type 0
  NoMemory bdf index end s = (j : ℕ) → index ≤ j → j < end → bar_mit (bar bdf j s) ≢ 0

  -- The address in the first memory register from `index` up to `end`, or 0.
  abbrev pub FirstBar : ℕ → ℕ → ℕ → ℕ → S → ℕ → Type 0
  FirstBar bdf high index end s found =
      ((k : ℕ) × (index ≤ k)
        × (k < end)
        × (bar_mit (bar bdf k s) ≡ 0)
        × NoMemory bdf index k s
        × (found ≡ bar_address bdf k high s))
      ⊎ (NoMemory bdf index end s × (found ≡ 0))

  NoMemory-more :
      (bdf index end : ℕ) (s : S)
      → bar_mit (bar bdf index s) ≢ 0
      → NoMemory bdf (index + 1) end s
      → NoMemory bdf index end s
  NoMemory-more bdf index end s other rest j le lt has = elim (Bool-cases (j == index)) [
    | inl same ↦
        let here = ==→≡ j index same in other (subst (λ k. bar_mit (bar bdf k s) ≡ 0) here has)
    | inr later ↦
        let apart = ==→≢ j index later in
        let after : index + 1 ≤ j = ground arith in rest j after lt has
  ]

  count_type0 :
      (bdf : ℕ) (s : S)
      → (function_header_type pal info fuel junk bdf s == type1_header) ≡ false
      → bar_count bdf s ≡ 6
  count_type0 bdf s e = rw (e) refl

  count_type1 :
      (bdf : ℕ) (s : S)
      → (function_header_type pal info fuel junk bdf s == type1_header) ≡ true
      → bar_count bdf s ≡ 2
  count_type1 bdf s e = rw (e) refl

  bar_count-le : (bdf : ℕ) (s : S) → bar_count bdf s ≤ 6
  bar_count-le bdf s = ground arith

  bar_count_pos : (bdf : ℕ) (s : S) → 0 < bar_count bdf s
  bar_count_pos bdf s = ground arith

  extend :
      (bdf high index end : ℕ) (s : S) (found : ℕ)
      → bar_mit (bar bdf index s) ≢ 0
      → FirstBar bdf high (index + 1) end s found
      → FirstBar bdf high index end s found
  extend bdf high index end s found other (inl (k, le, lt, has, none_before, e)) =
      inl (k, omega (arith, le), lt, has, NoMemory-more bdf index k s other none_before, e)
  extend bdf high index end s found other (inr (none_left, e)) =
      inr (NoMemory-more bdf index end s other none_left, e)

  bar_loop-FirstBar :
      (n index end bdf high : ℕ) (s : S)
      → bar_count bdf s ≡ end
      → (0 < n → index < end)
      → index + n ≡ type0_max_bars
      → FirstBar bdf high index end s (bar_loop n index bdf high s)
  unfolding bar_loop
  bar_loop-FirstBar zero index end bdf high s count left e =
      let few = bar_count-le bdf s in inr ((λ j le lt has. absurd (omega arith)), refl)
  bar_loop-FirstBar (suc n) index end bdf high s count left e =
      let inside = left (omega arith) in
      elim (Bool-cases (bar_mit (bar bdf index s) == 0)) [
        | inl here ↦ inl (
          index,
          omega arith,
          inside,
          ==→≡ _ _ here,
          (λ j le lt has. absurd (omega arith)),
          rw (here) refl,
        )
        | inr elsewhere ↦
            let other : bar_mit (bar bdf index s) ≢ 0 = ==→≢ _ _ elsewhere in
            let goes_on = λ (more : 0 < n → index + 1 < end).
              extend bdf high index end s _ other
                (bar_loop-FirstBar n (index + 1) end bdf high s count more (omega arith)) in
            elim (Bool-cases (function_header_type pal info fuel junk bdf s == type1_header)) [
              | inr type0 ↦
                  let six : end ≡ 6 = sym count ∙ count_type0 bdf s type0 in
                  rw (elsewhere, type0) (goes_on (λ more. omega arith))
              | inl type1 ↦
                  let two : end ≡ 2 = sym count ∙ count_type1 bdf s type1 in
                  elim (Bool-cases (index + 1 == type1_max_bars)) [
                    | inl last ↦
                        let at : index + 1 ≡ 2 = ==→≡ _ _ last in
                        rw (elsewhere, type1, last)
                          (inr (
                            NoMemory-more bdf index end s other
                                (λ j le lt has. absurd (omega arith)),
                            refl,
                          ))
                    | inr more ↦
                        let apart : index + 1 ≢ 2 = ==→≢ _ _ more in
                        rw (elsewhere, type1, more) (goes_on (λ left. omega arith))
                  ]
            ]
      ]

  -- For a function that is no exerciser the result is the address in the first memory register among
  -- those that its header has room for, 2 for Type 1 and 6 for the others, or 0 when none of them is
  -- one of memory.
  pub get_mmio_bar_first :
      (is_exerciser : ℕ → Bool) (exerciser_base : ℕ → ℕ → ℕ) (rounds bdf high : ℕ) (s : S)
      → is_exerciser bdf ≡ false
      → (found : ℕ) × (get_mmio_bar is_exerciser exerciser_base rounds bdf high s ≡ some found)
        × FirstBar bdf high 0 (bar_count bdf s) s found
  unfolding get_mmio_bar
  get_mmio_bar_first is_exerciser exerciser_base rounds bdf high s e = (
    bar_loop type0_max_bars 0 bdf high s,
    rw (e) refl,
    bar_loop-FirstBar type0_max_bars 0 (bar_count bdf s) bdf high s refl
        (λ more. bar_count_pos bdf s) (omega arith),
  )
