-- ===== src/Timer.antt =====
-- val/src/acs_timer.c: the table of timers (TIMER_INFO_TABLE of val/include/pal_interface.h), and the
-- place of a platform timer in it.
pub mod Places
mod Tests
use riscv_server_soc_ts.Prelude.{
  ℕ, true, false, zero, suc, ◌+◌, ◌-◌, ◌^◌, ◌==◌, ltb, if◌then◌else◌, Option, none, some, List, [],
  ◌∷◌, get_elem?,
}
use riscv_server_soc_ts.Bits.{low_bits, add32, field}

-- TIMER_INFO_HDR, less the fields that are not read.
pub record TimerHeader : Type 0 where
  pub ns_el1_timer_flag : ℕ
  pub el2_timer_flag : ℕ
  pub ns_el1_timer_gsiv : ℕ
  pub el2_timer_gsiv : ℕ
  pub virtual_timer_flag : ℕ
  pub virtual_timer_gsiv : ℕ
  pub el2_virt_timer_gsiv : ℕ
  pub num_platform_timer : ℕ
  pub sys_timer_status : ℕ
  pub time_base_frequency : ℕ

-- TIMER_INFO_GTBLOCK: the arrays are functions, also past their eight elements.
pub record GtBlock : Type 0 where
  pub timer_count : ℕ
  pub block_cntl_base : ℕ
  pub frame_num : ℕ → ℕ
  pub gt_cnt_base : ℕ → ℕ
  pub gsiv : ℕ → ℕ
  pub flags : ℕ → ℕ

-- TIMER_INFO_TABLE, with the list of its blocks.
pub record TimerInfo : Type 0 where
  pub header : TimerHeader
  pub gt_info : List GtBlock

-- The loop over the blocks, from block `block` on: the block and the index. `none` is a step past the
-- last block.
unfoldable pub entry_loop : ℕ → ℕ → List GtBlock → Option (ℕ × ℕ)
entry_loop instance_left block [] = none
entry_loop instance_left block (b ∷ bs) =
    let rest = entry_loop (instance_left - b.timer_count) (add32 block 1) bs in
    if ltb b.timer_count instance_left then rest else some (block, low_bits instance_left 32)

-- `*block` and `*index`, which held `old`.
unfoldable pub platform_timer_get_entry_index : TimerInfo → ℕ → ℕ → Option (ℕ × ℕ)
platform_timer_get_entry_index t timer old =
    let found = entry_loop timer 0 t.gt_info in
    if ltb t.header.num_platform_timer timer then some (0xFFFF, old) else found

-- TIMER_INFO_e, by its order; the last stands for the values that have no case.
pub data TimerRequest : Type 0 where
  timer_cntfreq timer_phy_el1_intid timer_phy_el1_flags : TimerRequest
  timer_vir_el1_intid timer_vir_el1_flags timer_phy_el2_intid : TimerRequest
  timer_phy_el2_flags timer_vir_el2_intid timer_num_platform_timers : TimerRequest
  timer_is_platform_timer_secure timer_sys_cntl_base timer_sys_cnt_base_n : TimerRequest
  timer_frame_num timer_sys_intid timer_sys_timer_status timer_other : TimerRequest

-- A member of the block of a timer, at the timer's index. `none` is a read past the last block.
unfoldable pub place_info : (GtBlock → ℕ → ℕ) → TimerInfo → ℕ → ℕ → Option ℕ
place_info member t timer junk = elim (platform_timer_get_entry_index t timer junk) [
  | none ↦ none
  | some (block, index) ↦ elim (block == 0xFFFF) [
    | true ↦ some 0
    | false ↦ elim (get_elem? t.gt_info block) [ none ↦ none | some b ↦ some (member b index) ]
  ]
]

unfoldable pub timer_get_info : Option TimerInfo → TimerRequest → ℕ → ℕ → Option ℕ
timer_get_info none request timer junk = some 0
timer_get_info (some t) timer_cntfreq timer junk = some t.header.time_base_frequency
timer_get_info (some t) timer_phy_el1_intid timer junk = some t.header.ns_el1_timer_gsiv
timer_get_info (some t) timer_phy_el1_flags timer junk = some t.header.ns_el1_timer_flag
timer_get_info (some t) timer_vir_el1_intid timer junk = some t.header.virtual_timer_gsiv
timer_get_info (some t) timer_vir_el1_flags timer junk = some t.header.virtual_timer_flag
timer_get_info (some t) timer_phy_el2_intid timer junk = some t.header.el2_timer_gsiv
timer_get_info (some t) timer_phy_el2_flags timer junk = some t.header.el2_timer_flag
timer_get_info (some t) timer_vir_el2_intid timer junk = some t.header.el2_virt_timer_gsiv
timer_get_info (some t) timer_num_platform_timers timer junk = some t.header.num_platform_timer
timer_get_info (some t) timer_is_platform_timer_secure timer junk =
    place_info (λ b i. field (b.flags i) 16 1) t timer junk
timer_get_info (some t) timer_sys_cntl_base timer junk =
    place_info (λ b i. b.block_cntl_base) t timer junk
timer_get_info (some t) timer_sys_cnt_base_n timer junk =
    place_info (λ b i. b.gt_cnt_base i) t timer junk
timer_get_info (some t) timer_frame_num timer junk = place_info (λ b i. b.frame_num i) t timer junk
timer_get_info (some t) timer_sys_intid timer junk = place_info (λ b i. b.gsiv i) t timer junk
timer_get_info (some t) timer_sys_timer_status timer junk = some t.header.sys_timer_status
timer_get_info (some t) timer_other timer junk = some 0
