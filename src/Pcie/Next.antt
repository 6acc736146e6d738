-- ===== src/Pcie/Next.antt =====
-- The order of functions (val/src/acs_pcie.c): `val_pcie_increment_bdf` and
-- `val_pcie_increment_busdev`.
use riscv_server_soc_ts.Prelude.{
  ℕ, zero, suc, ◌+◌, ◌*◌, ◌-◌, ◌≤◌, ◌<◌, ◌≡◌, ◌⊎◌, inl, inr, refl, ap, ◌∙◌, arith, ltb, leb, ◌||◌,
  true, false, ◌==◌, ◌!=◌, if◌then◌else◌, Option, none, some, Bool-cases,
}
use riscv_server_soc_ts.Pcie.{
  Pal, InfoTable, get_info, info_num_ecam, info_start_bus, info_end_bus, info_segment, bdf_seg,
  bdf_bus, bdf_dev, bdf_func, create_bdf, max_dev, max_func,
}
use riscv_server_soc_ts.Pcie.Bdf.{create_bdf_fields}
use riscv_server_soc_ts.Pcie.Config.{is_invalid}

unfoldable pub increment_busdev : ℕ → ℕ
increment_busdev start_bdf =
    let seg = bdf_seg start_bdf in
    let bus = bdf_bus start_bdf in
    let dev = bdf_dev start_bdf in
    if dev != max_dev then create_bdf seg bus (dev + 1) 0 else create_bdf seg (bus + 1) 0 0

module _ {S : Type 0} (pal : Pal S) (info : Option InfoTable) where
  -- `while (ecam_cnt--)`: the last region of the segment.
  unfoldable pub last_ecam : ℕ → ℕ → Option ℕ
  last_ecam zero seg = none
  last_ecam (suc ecam_cnt) seg =
      if seg == get_info pal info info_segment ecam_cnt
      then some ecam_cnt
      else last_ecam ecam_cnt seg

  -- After the last function of the last bus: the start of the next region, or 0.
  unfoldable pub next_ecam : ℕ → ℕ
  next_ecam ecam_index =
      if ltb (ecam_index + 1) (get_info pal info info_num_ecam 0)
      then create_bdf (get_info pal info info_segment (ecam_index + 1))
          (get_info pal info info_start_bus (ecam_index + 1)) 0 0
      else 0

  unfoldable pub increment_bdf : ℕ → ℕ
  increment_bdf bdf =
      let seg = bdf_seg bdf in
      let bus = bdf_bus bdf in
      let dev = bdf_dev bdf in
      let func = bdf_func bdf in
      elim (last_ecam (get_info pal info info_num_ecam 0) seg) [
        | none ↦ 0
        | some ecam_index ↦
            if ltb func (max_func - 1)
            then create_bdf seg bus dev (func + 1)
            else if ltb dev (max_dev - 1)
            then create_bdf seg bus (dev + 1) 0
            else if ltb bus (get_info pal info info_end_bus ecam_index)
            then create_bdf seg (bus + 1) 0 0
            else next_ecam ecam_index
      ]

-- The place of a function on its segment, counting 8 functions to a device and 32 devices to a bus.
abbrev pub position : ℕ → ℕ
position bdf = bdf_bus bdf * 256 + bdf_dev bdf * 8 + bdf_func bdf

-- `next` is the function at a place of a segment.
abbrev IsAt : ℕ → ℕ → ℕ → Type 0
IsAt seg place next = (bdf_seg next ≡ seg) × (position next ≡ place) × (is_invalid next ≡ false)

create_bdf-IsAt :
    (seg bus dev func place : ℕ)
    → seg < 256
    → (bus < 256) × (dev < 32) × (func < 8)
    → bus * 256 + dev * 8 + func ≡ place
    → IsAt seg place (create_bdf seg bus dev func)
create_bdf-IsAt seg bus dev func place hs (hb, hd, hf) e =
    let (s, b, d, f, _) = create_bdf_fields seg bus dev func hs hb (omega arith) (omega arith) in
    at (create_bdf seg bus dev func) s b d f
  where
    at :
        (next : ℕ)
        → bdf_seg next ≡ seg
        → bdf_bus next ≡ bus
        → bdf_dev next ≡ dev
        → bdf_func next ≡ func
        → IsAt seg place next
    at next s b d f = rw (s, b, d, f) (refl, e, ground arith)

module _ (bus dev func end : ℕ) (valid : leb 256 bus || leb 32 dev || leb 8 func ≡ false) where
  fits : (bus < 256) × (dev < 32) × (func < 8)
  fits = ground arith

  -- The place of the next function, when the number of the function, the device or the bus is raised.
  raise_func :
      ltb func 7 ≡ true
      → ((bus < 256) × (dev < 32) × (func + 1 < 8))
        × (bus * 256 + dev * 8 + (func + 1) ≡ bus * 256 + dev * 8 + func + 1)
  raise_func h = ground arith

  raise_dev :
      ltb func 7 ≡ false
      → ltb dev 31 ≡ true
      → ((bus < 256) × (dev + 1 < 32) × (0 < 8))
        × (bus * 256 + (dev + 1) * 8 + 0 ≡ bus * 256 + dev * 8 + func + 1)
  raise_dev h k = ground arith

  raise_bus :
      ltb func 7 ≡ false
      → ltb dev 31 ≡ false
      → bus * 256 + dev * 8 + func < end * 256 + 255
      → end < 256
      → (ltb bus end ≡ true)
        × ((bus + 1 < 256) × (0 < 32) × (0 < 8))
        × ((bus + 1) * 256 + 0 * 8 + 0 ≡ bus * 256 + dev * 8 + func + 1)
  raise_bus h k left small = ground arith

ltb-lt : (a b : ℕ) → ltb a b ≡ true → a < b
ltb-lt a b h = ground arith

ltb-ge : (a b : ℕ) → ltb a b ≡ false → b ≤ a
ltb-ge a b h = ground arith

no_bus : (bus end : ℕ) → end ≤ bus → ltb bus end ≡ false
no_bus bus end h = ground arith

module _ {S : Type 0} (pal : Pal S) (info : Option InfoTable) (bdf i : ℕ)
    (found : last_ecam pal info (get_info pal info info_num_ecam 0) (bdf_seg bdf) ≡ some i)
    (valid : is_invalid bdf ≡ false) where
  -- While functions are left in the last region of a valid function's segment, of which the buses
  -- fit a byte, the next number is that of the next function: the same segment, one place further,
  -- and valid again.
  pub increment_bdf_next :
      (position bdf < get_info pal info info_end_bus i * 256 + 255)
      → get_info pal info info_end_bus i < 256
      → (bdf_seg (increment_bdf pal info bdf) ≡ bdf_seg bdf)
        × (position (increment_bdf pal info bdf) ≡ position bdf + 1)
        × (is_invalid (increment_bdf pal info bdf) ≡ false)
  unfolding increment_bdf
  increment_bdf_next left small =
      let seg = bdf_seg bdf in
      let bus = bdf_bus bdf in
      let dev = bdf_dev bdf in
      let func = bdf_func bdf in
      let last = get_info pal info info_end_bus i in
      let hs : seg < 256 = omega arith in
      elim (Bool-cases (ltb func 7)) [
        | inl f ↦
            let (fit, e) = raise_func bus dev func last valid f in
            rw (found, f, increment_bdf) (create_bdf-IsAt seg bus dev (func + 1) _ hs fit e)
        | inr f ↦ elim (Bool-cases (ltb dev 31)) [
          | inl d ↦
              let (fit, e) = raise_dev bus dev func last valid f d in
              rw (found, f, d, increment_bdf) (create_bdf-IsAt seg bus (dev + 1) 0 _ hs fit e)
          | inr d ↦
              let (b, fit, e) = raise_bus bus dev func last valid f d left small in
              rw (found, f, d, b, increment_bdf) (create_bdf-IsAt seg (bus + 1) 0 0 _ hs fit e)
        ]
      ]

  -- After the last function of that region comes the first function of the next region's first bus,
  -- or 0 when the table has no next region. (The next region's segment and bus fit their bytes.)
  pub increment_bdf_end :
      bdf_func bdf ≡ 7
      → bdf_dev bdf ≡ 31
      → get_info pal info info_end_bus i ≤ bdf_bus bdf
      → get_info pal info info_segment (i + 1) < 256
      → get_info pal info info_start_bus (i + 1) < 256
      → ((i + 1 < get_info pal info info_num_ecam 0)
          × (bdf_seg (increment_bdf pal info bdf) ≡ get_info pal info info_segment (i + 1))
          × (bdf_bus (increment_bdf pal info bdf) ≡ get_info pal info info_start_bus (i + 1))
          × (bdf_dev (increment_bdf pal info bdf) ≡ 0)
          × (bdf_func (increment_bdf pal info bdf) ≡ 0))
        ⊎ ((get_info pal info info_num_ecam 0 ≤ i + 1) × (increment_bdf pal info bdf ≡ 0))
  unfolding increment_bdf next_ecam
  increment_bdf_end f d over hs hb =
      let num = get_info pal info info_num_ecam 0 in
      let seg = get_info pal info info_segment (i + 1) in
      let bus = get_info pal info info_start_bus (i + 1) in
      let (s, b, dev, func, _) = create_bdf_fields seg bus 0 0 hs hb (omega arith) (omega arith) in
      let stop = no_bus (bdf_bus bdf) (get_info pal info info_end_bus i) over in
      elim (Bool-cases (ltb (i + 1) num)) [
        | inl more ↦
            let e : increment_bdf pal info bdf ≡ create_bdf seg bus 0 0 =
              rw (found, f, d, stop, more, increment_bdf, next_ecam) refl in
            inl (
              ltb-lt (i + 1) num more,
              ap (λ (x : ℕ). bdf_seg x) e ∙ s,
              ap (λ (x : ℕ). bdf_bus x) e ∙ b,
              ap (λ (x : ℕ). bdf_dev x) e ∙ dev,
              ap (λ (x : ℕ). bdf_func x) e ∙ func,
            )
        | inr last ↦
            inr
              (ltb-ge (i + 1) num last, rw (found, f, d, stop, last, increment_bdf, next_ecam) refl)
      ]

-- Of device 31 the increment of the device makes the number of a device 32, which every access to
-- the configuration space refuses.
pub increment_busdev_last :
    (seg bus func : ℕ)
    → seg < 256
    → bus < 256
    → func < 256
    → (bdf_bus (increment_busdev (create_bdf seg bus 31 func)) ≡ bus)
      × (bdf_dev (increment_busdev (create_bdf seg bus 31 func)) ≡ 32)
      × (is_invalid (increment_busdev (create_bdf seg bus 31 func)) ≡ true)
unfolding increment_busdev
increment_busdev_last seg bus func hs hb hf =
    let (s, b, d, f, _) = create_bdf_fields seg bus 31 func hs hb (omega arith) hf in
    let (s', b', d', f', _) = create_bdf_fields seg bus 32 0 hs hb (omega arith) (omega arith) in
    rw (s, b, d, b', d', f') (refl, refl, ground arith)
