-- ===== src/Iovirt/Nodes.antt =====
-- The getters of val/src/acs_iovirt.c against the list of the nodes of a kind.
use riscv_server_soc_ts.Prelude.{
  ℕ, suc, ◌+◌, ◌-◌, ◌^◌, ◌≤◌, ◌<◌, ◌≡◌, ◌≢◌, refl, ap, ◌∙◌, arith, Bool, ◌==◌, ltb, ==→≡, ==→≢,
  Bool-cases, inl, inr, if◌then◌else◌, Option, none, some, List, [], ◌∷◌, get_elem?, length,
}
use riscv_server_soc_ts.Bits.{add32, sub32}
use riscv_server_soc_ts.Iovirt.{
  IovirtBlock, IovirtInfo, is_smmu, is_complex, node_loop, SmmuInfo, smmu_num_ctrl, smmu_ctrl_base,
  smmu_ctrl_arch_major_rev, smmu_iovirt_block, smmu_other, smmu_member, get_smmu_info, RcInfo,
  num_pcie_rc, rc_segment_num, rc_mem_attribute, rc_ats_attribute, rc_iovirt_block, rc_other,
  rc_member, get_pcie_rc_info,
}

-- The nodes of a kind, in the order of the table.
abbrev pub nodes : (IovirtBlock → Bool) → List IovirtBlock → List IovirtBlock
nodes is_node [] = []
nodes is_node (b ∷ bs) = let rest = nodes is_node bs in if is_node b then b ∷ rest else rest

-- A member of a node, and 0 without a node.
abbrev pub member_of : (IovirtBlock → ℕ) → Option IovirtBlock → ℕ
member_of member none = 0
member_of member (some b) = member b

past_end : (j index : ℕ) → j ≤ index → j < 2 ^ 32 → (if ltb (sub32 j 1) index then 0 else j) ≡ 0
past_end j index le lt = ground arith

module _ (is_node : IovirtBlock → Bool) (member : IovirtBlock → ℕ) (index : ℕ) where
  node_loop-nodes :
      (j : ℕ) (bs : List IovirtBlock)
      → j ≤ index
      → j + length bs < 2 ^ 32
      → node_loop is_node member index j bs
        ≡ member_of member (get_elem? (nodes is_node bs) (index - j))
  unfolding node_loop
  node_loop-nodes j [] le fits = past_end j index le (omega arith)
  node_loop-nodes j (b ∷ bs) le fits = elim (Bool-cases (is_node b)) [
    | inr other ↦ rw (other) (node_loop-nodes j bs le (omega arith))
    | inl node ↦ elim (Bool-cases (j == index)) [
      | inl here ↦
          let e = ==→≡ j index here in
          let first : index - j ≡ 0 = omega arith in rw (node, here, first) refl
      | inr later ↦
          let ne = ==→≢ j index later in
          let next : add32 j 1 ≡ j + 1 = omega arith in
          let down : index - j ≡ suc (index - (j + 1)) = omega arith in
          rw (node, later, next, down) (node_loop-nodes (j + 1) bs (omega arith) (omega arith))
    ]
  ]

table_loop :
    (is_node : IovirtBlock → Bool) (member : IovirtBlock → ℕ) (index : ℕ) (t : IovirtInfo)
    → length t.blocks < 2 ^ 32
    → node_loop is_node member index 0 t.blocks
      ≡ member_of member (get_elem? (nodes is_node t.blocks) index)
table_loop is_node member index t fits =
    let all : index - 0 ≡ index = omega arith in
    node_loop-nodes is_node member index 0 t.blocks (omega arith) (omega arith)
    ∙ ap (λ i. member_of member (get_elem? (nodes is_node t.blocks) i)) all

smmu-nodes :
    (t : IovirtInfo) (index : ℕ) (type : SmmuInfo)
    → length t.blocks < 2 ^ 32
    → type ≢ smmu_num_ctrl
    → get_smmu_info (some t) type index
      ≡ member_of (smmu_member type) (get_elem? (nodes is_smmu t.blocks) index)
unfolding get_smmu_info
smmu-nodes t index smmu_num_ctrl fits ne = absurd (ne refl)
smmu-nodes t index smmu_ctrl_base fits ne = table_loop is_smmu _ index t fits
smmu-nodes t index smmu_ctrl_arch_major_rev fits ne = table_loop is_smmu _ index t fits
smmu-nodes t index smmu_iovirt_block fits ne = table_loop is_smmu _ index t fits
smmu-nodes t index smmu_other fits ne = table_loop is_smmu _ index t fits

rc-nodes :
    (t : IovirtInfo) (index : ℕ) (type : RcInfo)
    → length t.blocks < 2 ^ 32
    → type ≢ num_pcie_rc
    → get_pcie_rc_info (some t) type index
      ≡ member_of (rc_member type) (get_elem? (nodes is_complex t.blocks) index)
unfolding get_pcie_rc_info
rc-nodes t index num_pcie_rc fits ne = absurd (ne refl)
rc-nodes t index rc_segment_num fits ne = table_loop is_complex _ index t fits
rc-nodes t index rc_mem_attribute fits ne = table_loop is_complex _ index t fits
rc-nodes t index rc_ats_attribute fits ne = table_loop is_complex _ index t fits
rc-nodes t index rc_iovirt_block fits ne = table_loop is_complex _ index t fits
rc-nodes t index rc_other fits ne = table_loop is_complex _ index t fits

-- Where the table has fewer than 2^32 blocks, both getters, apart from the requests for a number, give
-- the member of the SMMU or of the root complex at the index, counted among the nodes of its kind in
-- the order of the table, and 0 when there are not so many.
pub get_smmu_info-nodes :
    (t : IovirtInfo) (index : ℕ) (smmu : SmmuInfo) (rc : RcInfo)
    → length t.blocks < 2 ^ 32
    → smmu ≢ smmu_num_ctrl
    → rc ≢ num_pcie_rc
    → (get_smmu_info (some t) smmu index
        ≡ member_of (smmu_member smmu) (get_elem? (nodes is_smmu t.blocks) index))
      × (get_pcie_rc_info (some t) rc index
          ≡ member_of (rc_member rc) (get_elem? (nodes is_complex t.blocks) index))
get_smmu_info-nodes t index smmu rc fits ne ne' =
    (smmu-nodes t index smmu fits ne, rc-nodes t index rc fits ne')
