-- ===== src/Pcie/Ecam.antt =====
-- The configuration access against an independent description: the first ECAM region of the table
-- that covers the bus and the segment.
use riscv_server_soc_ts.Prelude.{
  ℕ, zero, suc, ◌+◌, ◌<◌, ◌≡◌, inl, inr, refl, arith, Bool, ◌&&◌, ◌==◌, leb, if◌then◌else◌, Option,
  none, some, [], ◌∷◌, length, get_elem?, drop, Bool-cases,
}
use riscv_server_soc_ts.Bits.{add64}
use riscv_server_soc_ts.Pcie.{
  Width, Pal, load, store, bdf_seg, bdf_bus, pcie_no_mapping, InfoBlock, InfoTable, info_num_ecam,
  info_ecam, info_start_bus, info_end_bus, info_segment, get_info,
}
use riscv_server_soc_ts.Pcie.Config.{
  cfg_addr, is_invalid, find_ecam, config_base, read_cfg_width, write_cfg_width,
  get_bdf_config_addr,
}

abbrev pub covers : InfoBlock → ℕ → ℕ → Bool
covers b bus segment = leb b.start_bus_num bus && leb bus b.end_bus_num && segment == b.segment_num

unfoldable pub locate : InfoTable → ℕ → ℕ → Option InfoBlock
locate [] bus segment = none
locate (b ∷ bs) bus segment = if covers b bus segment then some b else locate bs bus segment

abbrev base_or_zero : Option InfoBlock → ℕ
base_or_zero none = 0
base_or_zero (some b) = b.ecam_base

-- Where a function's registers begin: at its 4 KB in the region that was located, if the function
-- number is valid and the region has a base.
unfoldable pub config_address : InfoTable → ℕ → Option ℕ
config_address table bdf =
    if is_invalid bdf
    then none
    else if base_or_zero (locate table (bdf_bus bdf) (bdf_seg bdf)) == 0
    then none
    else some (add64 (base_or_zero (locate table (bdf_bus bdf) (bdf_seg bdf))) (cfg_addr bdf))

drop_step :
    (t : InfoTable) (i : ℕ)
    → i < length t
    → (b : InfoBlock) × (get_elem? t i ≡ some b) × (drop i t ≡ b ∷ drop (i + 1) t)
drop_step [] i h = absurd (omega arith)
drop_step (b ∷ t) zero h = (b, refl, refl)
drop_step (b ∷ t) (suc i) h =
    let (c, e, d) = drop_step t i (omega arith) in
    let next : i + 1 ≡ suc i = omega arith in
    let over : suc i + 1 ≡ suc (suc i) = omega arith in (c, e, rw over (rw next at d))

drop_all : (t : InfoTable) (i : ℕ) → i ≡ length t → drop i t ≡ []
drop_all [] zero h = refl
drop_all [] (suc i) h = refl
drop_all (b ∷ t) zero h = absurd (omega arith)
drop_all (b ∷ t) (suc i) h = drop_all t i (omega arith)

module _ {S : Type 0} (pal : Pal S) where
  get_info-block :
      (t : InfoTable) (i : ℕ) (b : InfoBlock)
      → get_elem? t i ≡ some b
      → (get_info pal (some t) info_start_bus i ≡ b.start_bus_num)
        × (get_info pal (some t) info_end_bus i ≡ b.end_bus_num)
        × (get_info pal (some t) info_segment i ≡ b.segment_num)
        × (get_info pal (some t) info_ecam i ≡ b.ecam_base)
  unfolding get_info
  get_info-block t i b e = (rw (e, get_info), rw (e, get_info), rw (e, get_info), rw (e, get_info))

  get_info-count : (t : InfoTable) → get_info pal (some t) info_num_ecam 0 ≡ length t
  unfolding get_info
  get_info-count [] = refl
  get_info-count (b ∷ t) = refl

  find_ecam-locate :
      (t : InfoTable) (n i bus segment : ℕ)
      → i + n ≡ length t
      → find_ecam pal (some t) n i bus segment ≡ base_or_zero (locate (drop i t) bus segment)
  unfolding find_ecam locate
  find_ecam-locate t zero i bus segment h = rw (drop_all t i (omega arith)) refl
  find_ecam-locate t (suc n) i bus segment h =
      let (b, e, d) = drop_step t i (omega arith) in
      go b e d (find_ecam-locate t n (i + 1) bus segment (omega arith))
    where
      go :
          (b : InfoBlock)
          → get_elem? t i ≡ some b
          → drop i t ≡ b ∷ drop (i + 1) t
          → find_ecam pal (some t) n (i + 1) bus segment
            ≡ base_or_zero (locate (drop (i + 1) t) bus segment)
          → find_ecam pal (some t) (suc n) i bus segment
            ≡ base_or_zero (locate (drop i t) bus segment)
      go b e d ih =
          let (start, end, seg, base) = get_info-block t i b e in
          rw (d, start, end, seg, base)
            (elim (Bool-cases (covers b bus segment)) [
              | inl yes_covers ↦ rw yes_covers
              | inr not_covers ↦ rw not_covers ih
            ])

  pub config_base-config_address :
      (t : InfoTable) (bdf : ℕ) → config_base pal (some t) bdf ≡ config_address t bdf
  unfolding config_base config_address
  config_base-config_address t bdf =
      rw (
        get_info-count t,
        find_ecam-locate t (length t) 0 (bdf_bus bdf) (bdf_seg bdf) (omega arith),
      )

  -- What the accessors do at a register of a function, in terms of the address of its registers: a
  -- read without an address reports the missing mapping and leaves the caller's variable as it was,
  -- a write without one changes nothing, and with one they load and store there.
  abbrev pub Accesses : InfoTable → Width → ℕ → ℕ → Option ℕ → Type 0
  Accesses t width bdf offset none =
      ((old : ℕ) (s : S)
        → read_cfg_width pal (some t) width bdf offset old s ≡ (pcie_no_mapping, old))
      × ((value : ℕ) (s : S) → write_cfg_width pal (some t) width bdf offset value s ≡ s)
      × (get_bdf_config_addr pal (some t) bdf ≡ 0)
  Accesses t width bdf offset (some a) =
      ((old : ℕ) (s : S)
        → read_cfg_width pal (some t) width bdf offset old s
          ≡ (0, load pal width (add64 a offset) s))
      × ((value : ℕ) (s : S)
          → write_cfg_width pal (some t) width bdf offset value s
            ≡ store pal width (add64 a offset) value s)
      × (get_bdf_config_addr pal (some t) bdf ≡ a)

  -- For every table, function, width and register, the accessors load and store at the function's
  -- address in the first region of the table that covers its bus and segment; without one they report
  -- the missing mapping, leave the caller's variable and write nothing.
  pub config-Accesses :
      (t : InfoTable) (width : Width) (bdf offset : ℕ)
      → Accesses t width bdf offset (config_address t bdf)
  unfolding read_cfg_width write_cfg_width get_bdf_config_addr
  config-Accesses t width bdf offset = go (config_address t bdf) (config_base-config_address t bdf)
    where
      go : (a : Option ℕ) → config_base pal (some t) bdf ≡ a → Accesses t width bdf offset a
      go none e = (
        λ old s. rw (e, read_cfg_width),
        λ value s. rw (e, write_cfg_width),
        rw (e, get_bdf_config_addr),
      )
      go (some a) e = (
        λ old s. rw (e, read_cfg_width),
        λ value s. rw (e, write_cfg_width),
        rw (e, get_bdf_config_addr),
      )
