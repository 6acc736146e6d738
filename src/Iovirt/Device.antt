-- ===== src/Iovirt/Device.antt =====
-- `val_iovirt_get_device_info` (val/src/acs_iovirt.c) by arithmetic on the ranges of the mappings.
use riscv_server_soc_ts.Prelude.{
  ℕ, ◌+◌, ◌-◌, ◌≡◌, ◌⊎◌, refl, ap, ◌∙◌, arith, true, false, ◌&&◌, ◌==◌, Bool-cases, Option-cases,
  inl, inr, Option, none, some, List, [], ◌∷◌, ◌++◌, All, ≡→==,
}
use riscv_server_soc_ts.Session.{acs_status_err}
use riscv_server_soc_ts.Iovirt.{
  NodeMap, IovirtBlock, IovirtInfo, node_its_group, node_pci_root_complex, node_smmu, node_smmu_v3,
  is_smmu, is_complex, is_its, first_map, rc_loop, DeviceIds, its_of, id_word, route,
  get_device_info,
}
use riscv_server_soc_ts.Iovirt.Ranges.{
  Covers, Fits, IsFirstMap, first_map-IsFirstMap, first_map-none, first_map-taken,
}

-- A root complex of a segment, and one of which no mapping covers the id.
abbrev pub IsComplexOf : ℕ → IovirtBlock → Type 0
IsComplexOf segment b = (b.type ≡ node_pci_root_complex) × (b.segment ≡ segment)

abbrev pub IsSilent : ℕ → ℕ → IovirtBlock → Type 0
IsSilent rid segment b =
    (¬ IsComplexOf segment b) ⊎ (All (λ c. ¬ Covers c rid) b.data_map × Fits b.data_map)

-- The last root complex of the segment with a mapping that covers the id has it as its first.
pub record IsLastMap (rid segment : ℕ) (blocks : List IovirtBlock) (m : NodeMap) : Type 0 where
  pub before : List IovirtBlock
  pub after : List IovirtBlock
  pub complex : IovirtBlock
  pub split : blocks ≡ before ++ complex ∷ after
  pub of_segment : IsComplexOf segment complex
  pub first : IsFirstMap rid complex.data_map m
  pub later : All (IsSilent rid segment) after

module _ (rid segment : ℕ) where
  not_complex :
      (b : IovirtBlock) → ¬ IsComplexOf segment b → (is_complex b && b.segment == segment) ≡ false
  unfolding is_complex
  not_complex b h = ground arith

  is_complex_of :
      (b : IovirtBlock) → IsComplexOf segment b → (is_complex b && b.segment == segment) ≡ true
  unfolding is_complex
  is_complex_of b h = ground arith

  rc_loop-silent :
      (found : Option NodeMap) (bs : List IovirtBlock)
      → All (IsSilent rid segment) bs
      → rc_loop rid segment found bs ≡ found
  unfolding rc_loop
  rc_loop-silent found [] all = refl
  rc_loop-silent found (b ∷ bs) (inl other, all) =
      rw (not_complex b other) (rc_loop-silent found bs all)
  rc_loop-silent found (b ∷ bs) (inr (out, fits), all) =
      elim (Bool-cases (is_complex b && b.segment == segment)) [
        | inr other ↦ rw (other) (rc_loop-silent found bs all)
        | inl complex ↦
            rw (complex, first_map-none rid b.data_map out fits) (rc_loop-silent found bs all)
      ]

  rc_loop-last :
      (found : Option NodeMap) (before after : List IovirtBlock) (b : IovirtBlock) (m : NodeMap)
      → IsComplexOf segment b
      → first_map rid b.data_map ≡ some m
      → All (IsSilent rid segment) after
      → rc_loop rid segment found (before ++ b ∷ after) ≡ some m
  unfolding rc_loop
  rc_loop-last found [] after b m complex first later =
      rw (is_complex_of b complex, first) (rc_loop-silent (some m) after later)
  rc_loop-last found (c ∷ cs) after b m complex first later =
      elim (Bool-cases (is_complex c && c.segment == segment)) [
        | inr other ↦ rw (other) (rc_loop-last found cs after b m complex first later)
        | inl same ↦ elim (Option-cases (first_map rid c.data_map)) [
          | inl out ↦ rw (same, out) (rc_loop-last found cs after b m complex first later)
          | inr (k, taken) ↦
              rw (same, taken) (rc_loop-last (some k) cs after b m complex first later)
        ]
      ]

  rc_loop-IsLastMap :
      (blocks : List IovirtBlock) (m : NodeMap)
      → IsLastMap rid segment blocks m
      → rc_loop rid segment none blocks ≡ some m
  rc_loop-IsLastMap blocks m l =
      ap (rc_loop rid segment none) l.split
      ∙ rc_loop-last none l.before l.after l.complex m l.of_segment
          (first_map-IsFirstMap rid l.complex.data_map m l.first) l.later

  route-smmu :
      (t : IovirtInfo) (id : ℕ) (b : IovirtBlock) (old : DeviceIds) (m : NodeMap)
      → (b.type ≡ node_smmu) ⊎ (b.type ≡ node_smmu_v3)
      → IsFirstMap id b.data_map m
      → route t id b old ≡ (
        0,
        record {
          device_id = m.output_base + (id - m.input_base);
          stream_id = id;
          its_id = its_of (t.block_at m.output_ref);
        },
      )
  unfolding route
  route-smmu t id b old m kind first =
      let (taken, place) = first_map-taken id b.data_map m first in
      rw (not_its b kind, smmu b kind, taken, place) refl
    where
      not_its :
          (b : IovirtBlock) → (b.type ≡ node_smmu) ⊎ (b.type ≡ node_smmu_v3) → is_its b ≡ false
      not_its b kind = unfold is_its in ground arith

      smmu : (b : IovirtBlock) → (b.type ≡ node_smmu) ⊎ (b.type ≡ node_smmu_v3) → is_smmu b ≡ true
      smmu b kind = unfold is_smmu in ground arith

  -- The last root complex of the segment of which a mapping covers the id, and its first mapping that
  -- does, give the stream's id. Where that mapping refers to an SMMU with a mapping for the stream, the
  -- first such gives the device's id, the status is 0, and the group is read from what it refers to,
  -- as 0 where that is no ITS group. No range of ids involved wraps around.
  pub get_device_info_translates :
      (t : IovirtInfo) (m n : NodeMap) (old : DeviceIds)
      → IsLastMap rid segment t.blocks m
      → ((t.block_at m.output_ref).type ≡ node_smmu)
        ⊎ ((t.block_at m.output_ref).type ≡ node_smmu_v3)
      → IsFirstMap (m.output_base + (rid - m.input_base)) (t.block_at m.output_ref).data_map n
      → get_device_info (some t) rid segment old ≡ (
        0,
        record {
          device_id = n.output_base + (m.output_base + (rid - m.input_base) - n.input_base);
          stream_id = m.output_base + (rid - m.input_base);
          its_id = its_of (t.block_at n.output_ref);
        },
      )
  unfolding get_device_info
  get_device_info_translates t m n old last kind first =
      let (taken, place) = first_map-taken rid last.complex.data_map m last.first in
      rw (rc_loop-IsLastMap t.blocks m last, place, get_device_info)
        (route-smmu t (m.output_base + (rid - m.input_base)) (t.block_at m.output_ref) old n kind
          first)

  -- Where the mapping refers to an ITS group, the id it gives is the device's, the stream's is all ones,
  -- and the group's first word is its id. No range of ids involved wraps around.
  pub get_device_info_direct :
      (t : IovirtInfo) (m : NodeMap) (old : DeviceIds)
      → IsLastMap rid segment t.blocks m
      → (t.block_at m.output_ref).type ≡ node_its_group
      → get_device_info (some t) rid segment old ≡ (
        0,
        record {
          device_id = m.output_base + (rid - m.input_base);
          stream_id = 0xFFFFFFFF;
          its_id = id_word (t.block_at m.output_ref) 0;
        },
      )
  unfolding get_device_info route is_its
  get_device_info_direct t m old last kind =
      let (taken, place) = first_map-taken rid last.complex.data_map m last.first in
      rw (rc_loop-IsLastMap t.blocks m last, place, ≡→== _ _ kind, get_device_info) refl

  -- Where no mapping of a root complex of the segment covers the id, and no range wraps around, the
  -- call fails, and leaves what its pointers point at.
  pub get_device_info_silent :
      (t : IovirtInfo) (old : DeviceIds)
      → All (IsSilent rid segment) t.blocks
      → get_device_info (some t) rid segment old ≡ (acs_status_err, old)
  unfolding get_device_info
  get_device_info_silent t old all = rw (rc_loop-silent none t.blocks all, get_device_info) refl
