-- ===== src/Iovirt/Ranges.antt =====
-- The mappings of a node of val/src/acs_iovirt.c by arithmetic on their ranges: the first that covers
-- an id.
use riscv_server_soc_ts.Prelude.{
  ℕ, subst, ◌+◌, ◌-◌, ◌^◌, ◌≤◌, ◌<◌, ◌≡◌, refl, ap, ◌∙◌, arith, true, false, ◌&&◌, leb, none, some,
  List, [], ◌∷◌, ◌++◌, All,
}
use riscv_server_soc_ts.Bits.{add32, sub32}
use riscv_server_soc_ts.Iovirt.{NodeMap, first_map, map_id}

-- An id within the range of a mapping, both ends included.
abbrev pub Covers : NodeMap → ℕ → Type 0
Covers m id = (m.input_base ≤ id) × (id ≤ m.input_base + m.id_count)

-- No range of ids wraps around.
abbrev pub Fits : List NodeMap → Type 0
Fits = All (λ m. m.input_base + m.id_count < 2 ^ 32)

-- The first of a list of mappings that covers an id.
pub record IsFirstMap (id : ℕ) (maps : List NodeMap) (m : NodeMap) : Type 0 where
  pub before : List NodeMap
  pub after : List NodeMap
  pub split : maps ≡ before ++ m ∷ after
  pub passed : All (λ c. ¬ Covers c id) before
  pub here : Covers m id
  pub fits : Fits maps
  pub fits_out : m.output_base + m.id_count < 2 ^ 32

covers-yes :
    (base count id : ℕ)
    → base + count < 2 ^ 32
    → base ≤ id
    → id ≤ base + count
    → (leb base id && leb id (add32 base count)) ≡ true
covers-yes base count id fits low high =
    let e : add32 base count ≡ base + count = omega arith in rw (e) (ground arith)

covers-out :
    (base count id : ℕ)
    → base + count < 2 ^ 32
    → ¬ ((base ≤ id) × (id ≤ base + count))
    → (leb base id && leb id (add32 base count)) ≡ false
covers-out base count id fits out =
    let e : add32 base count ≡ base + count = omega arith in rw (e) (ground arith)

first_map-split :
    (id : ℕ) (before after : List NodeMap) (m : NodeMap)
    → All (λ c. ¬ Covers c id) before
    → Covers m id
    → Fits (before ++ m ∷ after)
    → first_map id (before ++ m ∷ after) ≡ some m
unfolding first_map
first_map-split id [] after m passed (low, high) (fit, fits) =
    rw (covers-yes m.input_base m.id_count id fit low high) refl
first_map-split id (c ∷ cs) after m (out, passed) here (fit, fits) =
    rw (covers-out c.input_base c.id_count id fit out)
      (first_map-split id cs after m passed here fits)

pub first_map-IsFirstMap :
    (id : ℕ) (maps : List NodeMap) (m : NodeMap) → IsFirstMap id maps m → first_map id maps ≡ some m
first_map-IsFirstMap id maps m f =
    ap (first_map id) f.split
    ∙ first_map-split id f.before f.after m f.passed f.here (subst Fits f.split f.fits)

pub first_map-none :
    (id : ℕ) (maps : List NodeMap)
    → All (λ c. ¬ Covers c id) maps
    → Fits maps
    → first_map id maps ≡ none
unfolding first_map
first_map-none id [] out fits = refl
first_map-none id (c ∷ cs) (out, rest) (fit, fits) =
    rw (covers-out c.input_base c.id_count id fit out) (first_map-none id cs rest fits)

pub first_map-taken :
    (id : ℕ) (maps : List NodeMap) (m : NodeMap)
    → IsFirstMap id maps m
    → (first_map id maps ≡ some m) × (map_id m id ≡ m.output_base + (id - m.input_base))
unfolding map_id
first_map-taken id maps m f = (
  first_map-IsFirstMap id maps m f,
  plain m.input_base m.id_count m.output_base f.here.0 f.here.1 f.fits_out
      (fits_here id f.before f.after m (subst Fits f.split f.fits)),
)
  where
    plain :
        (base count out : ℕ)
        → base ≤ id
        → id ≤ base + count
        → out + count < 2 ^ 32
        → base + count < 2 ^ 32
        → add32 (sub32 id base) out ≡ out + (id - base)
    plain base count out low high fits fits' = omega arith

    fits_here :
        (id : ℕ) (before after : List NodeMap) (m : NodeMap)
        → Fits (before ++ m ∷ after)
        → m.input_base + m.id_count < 2 ^ 32
    fits_here id [] after m (fit, fits) = fit
    fits_here id (c ∷ cs) after m (fit, fits) = fits_here id cs after m fits
