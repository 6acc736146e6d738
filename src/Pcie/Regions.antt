-- ===== src/Pcie/Regions.antt =====
-- `val_pcie_get_ecam_base` and `val_pcie_get_ecam_index` (val/src/acs_pcie.c): the region of a function
-- by its header, against the region that the accesses use.
use riscv_server_soc_ts.Prelude.{
  ℕ, zero, suc, ◌+◌, ◌%◌, ◌^◌, ◌≤◌, ◌<◌, ◌≡◌, ◌⊎◌, inl, inr, arith, refl, subst, Bool, true, false,
  ◌&&◌, ◌==◌, leb, ==→≡, ==→≢, ≡→==, if◌then◌else◌, Bool-cases, Option, none, some,
}
use riscv_server_soc_ts.Bits.{field}
use riscv_server_soc_ts.Pcie.{
  Pal, InfoTable, bdf_seg, bdf_bus, info_num_ecam, info_ecam, info_start_bus, info_end_bus,
  info_segment, get_info,
}
use riscv_server_soc_ts.Pcie.Config.{find_ecam}
use riscv_server_soc_ts.Pcie.Device.{reg, type1_pbn, function_header_type}

abbrev pub type0_header : ℕ
type0_header = 0

abbrev pub type1_header : ℕ
type1_header = 1

same_tests : (a b c d : Bool) → d ≡ true → (c && a && b && d) ≡ (a && b && c)
same_tests true true true d e = e
same_tests true true false d e = refl
same_tests true false true d e = refl
same_tests true false false d e = refl
same_tests false b true d e = refl
same_tests false b false d e = refl

module _ {S : Type 0} (pal : Pal S) (info : Option InfoTable) (fuel junk : ℕ) where
  abbrev seg_of : ℕ → ℕ
  seg_of i = get_info pal info info_segment i

  abbrev start_of : ℕ → ℕ
  start_of i = get_info pal info info_start_bus i

  abbrev end_bus_of : ℕ → ℕ
  end_bus_of i = get_info pal info info_end_bus i

  -- What both loops ask of a function in a region that it may lie in: a Type 0 header, or a Type 1
  -- header whose secondary and subordinate bus are buses of the region.
  unfoldable pub fits_region : ℕ → ℕ → S → Bool
  fits_region bdf i s =
      let below = reg pal info fuel junk bdf type1_pbn s in
      if function_header_type pal info fuel junk bdf s == type0_header
      then true
      else leb (start_of i) (field below 8 8) && leb (field below 16 8) (end_bus_of i)

  -- `ecam_index` has 8 bits. `none` is a loop that has not ended when the fuel is used up.
  unfoldable pub ecam_base_loop : ℕ → ℕ → ℕ → S → Option ℕ
  ecam_base_loop zero i bdf s = none
  ecam_base_loop (suc n) i bdf s =
      let rest = ecam_base_loop n ((i + 1) % 2 ^ 8) bdf s in
      if leb (get_info pal info info_num_ecam 0) i
      then some 0
      else if bdf_seg bdf == seg_of i && fits_region bdf i s
      then some (get_info pal info info_ecam i)
      else rest

  unfoldable pub get_ecam_base : ℕ → ℕ → S → Option ℕ
  get_ecam_base rounds bdf s = ecam_base_loop rounds 0 bdf s

  -- The loop of `val_pcie_get_ecam_index`, with `n` regions left from `i` on. `none` is a failure.
  unfoldable pub ecam_index_loop : ℕ → ℕ → ℕ → S → Option ℕ
  ecam_index_loop zero i bdf s = none
  ecam_index_loop (suc n) i bdf s =
      if bdf_seg bdf == seg_of i
        && leb (start_of i) (bdf_bus bdf)
        && leb (bdf_bus bdf) (end_bus_of i)
        && fits_region bdf i s
      then some i
      else ecam_index_loop n (i + 1) bdf s

  -- The status, and `*ecam_index` after the call when it held `old` before.
  unfoldable pub get_ecam_index : ℕ → ℕ → S → ℕ × ℕ
  get_ecam_index bdf old s = elim (ecam_index_loop (get_info pal info info_num_ecam 0) 0 bdf s) [
    | none ↦ (1, old)
    | some i ↦ (0, i)
  ]

  fits_type0 :
      (bdf i : ℕ) (s : S)
      → function_header_type pal info fuel junk bdf s ≡ type0_header
      → fits_region bdf i s ≡ true
  unfolding fits_region
  fits_type0 bdf i s e = rw (≡→== _ _ e) refl

  -- What the search for the index gives, beside the base that the accesses use.
  abbrev pub Agrees : ℕ → Option ℕ → Type 0
  Agrees base o =
      ((k : ℕ) × (o ≡ some k) × (base ≡ get_info pal info info_ecam k)) ⊎ ((o ≡ none) × (base ≡ 0))

  index_loop-Agrees :
      (n i bdf : ℕ) (s : S)
      → function_header_type pal info fuel junk bdf s ≡ type0_header
      → Agrees (find_ecam pal info n i (bdf_bus bdf) (bdf_seg bdf)) (ecam_index_loop n i bdf s)
  unfolding ecam_index_loop find_ecam
  index_loop-Agrees zero i bdf s e = inr (refl, refl)
  index_loop-Agrees (suc n) i bdf s e =
      let above = leb (start_of i) (bdf_bus bdf) in
      let below = leb (bdf_bus bdf) (end_bus_of i) in
      let same = bdf_seg bdf == seg_of i in
      let tests = same_tests above below same (fits_region bdf i s) (fits_type0 bdf i s e) in
      elim (Bool-cases (above && below && same)) [
        | inl here ↦ inl (i, rw (tests, here) refl, rw (here) refl)
        | inr elsewhere ↦ rw (tests, elsewhere) (index_loop-Agrees n (i + 1) bdf s e)
      ]

  -- For a function with a Type 0 header the search for the region's index gives the region whose base
  -- the configuration accesses use, or fails with nothing stored where they find no base.
  pub get_ecam_index_agrees :
      (bdf old : ℕ) (s : S)
      → function_header_type pal info fuel junk bdf s ≡ type0_header
      → let base =
          find_ecam pal info (get_info pal info info_num_ecam 0) 0 (bdf_bus bdf) (bdf_seg bdf) in
        ((k : ℕ) × (get_ecam_index bdf old s ≡ (0, k)) × (base ≡ get_info pal info info_ecam k))
        ⊎ ((get_ecam_index bdf old s ≡ (1, old)) × (base ≡ 0))
  unfolding get_ecam_index
  get_ecam_index_agrees bdf old s e =
      elim (index_loop-Agrees (get_info pal info info_num_ecam 0) 0 bdf s e) [
        | inl (k, found, base) ↦ inl (k, rw (found, get_ecam_index) refl, base)
        | inr (none_found, base) ↦ inr (rw (none_found, get_ecam_index) refl, base)
      ]

  -- The region has the segment of the function, and its header fits there.
  abbrev pub Matches : ℕ → ℕ → S → Type 0
  Matches bdf i s = (bdf_seg bdf ≡ seg_of i) × (fits_region bdf i s ≡ true)

  -- No region from `i` up to `end` matches.
  abbrev pub NoneMatches : ℕ → ℕ → ℕ → S → Type 0
  NoneMatches bdf i end s = (j : ℕ) → i ≤ j → j < end → ¬ Matches bdf j s

  none_more :
      (bdf i end : ℕ) (s : S)
      → ¬ Matches bdf i s
      → NoneMatches bdf (i + 1) end s
      → NoneMatches bdf i end s
  none_more bdf i end s other rest j le lt has = elim (Bool-cases (j == i)) [
    | inl same ↦ let here = ==→≡ j i same in other (subst (λ k. Matches bdf k s) here has)
    | inr later ↦
        let apart = ==→≢ j i later in let after : i + 1 ≤ j = ground arith in rest j after lt has
  ]

  -- The base of the first region from `i` on that matches, or 0.
  abbrev pub FirstBase : ℕ → ℕ → ℕ → S → Option ℕ → Type 0
  FirstBase bdf i num s o =
      ((k : ℕ) × (i ≤ k)
        × (k < num)
        × Matches bdf k s
        × NoneMatches bdf i k s
        × (o ≡ some (get_info pal info info_ecam k)))
      ⊎ (NoneMatches bdf i num s × (o ≡ some 0))

  unmatched :
      (bdf i : ℕ) (s : S)
      → (bdf_seg bdf == seg_of i && fits_region bdf i s) ≡ false
      → ¬ Matches bdf i s
  unmatched bdf i s e (segment, fits) = let same = ≡→== _ _ segment in cc (both _ _ same fits, e)
    where
      both : (a b : Bool) → a ≡ true → b ≡ true → (a && b) ≡ true
      both true b e f = f
      both false b e f = cc

  matched :
      (bdf i : ℕ) (s : S)
      → (bdf_seg bdf == seg_of i && fits_region bdf i s) ≡ true
      → Matches bdf i s
  matched bdf i s e = let (l, r) = parts _ _ e in (==→≡ _ _ l, r)
    where
      parts : (a b : Bool) → (a && b) ≡ true → (a ≡ true) × (b ≡ true)
      parts true b e = (refl, e)
      parts false b e = cc

  ecam_base_loop-FirstBase :
      (n i num bdf : ℕ) (s : S)
      → get_info pal info info_num_ecam 0 ≡ num
      → num < 2 ^ 8
      → i ≤ num
      → num < i + n
      → FirstBase bdf i num s (ecam_base_loop n i bdf s)
  unfolding ecam_base_loop
  ecam_base_loop-FirstBase zero i num bdf s regions small at enough = absurd (omega arith)
  ecam_base_loop-FirstBase (suc n) i num bdf s regions small at enough =
      elim (Bool-cases (leb num i)) [
        | inl past ↦
            let empty : num ≤ i = ground arith in
            inr ((λ j le lt has. absurd (omega arith)), rw (regions, past) refl)
        | inr more ↦ elim (Bool-cases (bdf_seg bdf == seg_of i && fits_region bdf i s)) [
          | inl here ↦ inl (
            i,
            omega arith,
            ground arith,
            matched bdf i s here,
            (λ j le lt has. absurd (omega arith)),
            rw (regions, more, here) refl,
          )
          | inr elsewhere ↦
              let other = unmatched bdf i s elsewhere in
              let inside : i < num = ground arith in
              let next : (i + 1) % 2 ^ 8 ≡ i + 1 = omega arith in
              rw (regions, more, elsewhere, next)
                (extend bdf i num s _ other (
                  ecam_base_loop-FirstBase n (i + 1) num bdf s regions small (omega arith)
                    (omega arith)))
        ]
      ]
    where
      extend :
          (bdf i num : ℕ) (s : S) (o : Option ℕ)
          → ¬ Matches bdf i s
          → FirstBase bdf (i + 1) num s o
          → FirstBase bdf i num s o
      extend bdf i num s o other (inl (k, le, lt, has, none_before, e)) =
          inl (k, omega (arith, le), lt, has, none_more bdf i k s other none_before, e)
      extend bdf i num s o other (inr (none_left, e)) =
          inr (none_more bdf i num s other none_left, e)

  -- With fewer than 256 regions the search ends within one round more than there are regions, in the
  -- base of the first region of the function's segment that its header fits, or in 0 when there is no
  -- such region.
  pub get_ecam_base_first :
      (rounds num bdf : ℕ) (s : S)
      → get_info pal info info_num_ecam 0 ≡ num
      → num < 2 ^ 8
      → num < rounds
      → FirstBase bdf 0 num s (get_ecam_base rounds bdf s)
  unfolding get_ecam_base
  get_ecam_base_first rounds num bdf s regions small enough =
      ecam_base_loop-FirstBase rounds 0 num bdf s regions small (omega arith) (omega arith)
