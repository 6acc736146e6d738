-- ===== src/Timer/Tests.antt =====
-- A use of the theorem on platform timers: two blocks of two and three timers.
use riscv_server_soc_ts.Prelude.{ℕ, ◌≡◌, refl, arith, some, [], ◌∷◌}
use riscv_server_soc_ts.Timer.{GtBlock, TimerInfo, platform_timer_get_entry_index}
use riscv_server_soc_ts.Timer.Places.{Placed, platform_timer_get_entry_index-Placed}

abbrev timer_block : ℕ → GtBlock
timer_block count = record {
  timer_count = count;
  block_cntl_base = 0x2A810000;
  frame_num = λ i. i;
  gt_cnt_base = λ i. 0x2A820000;
  gsiv = λ i. 92;
  flags = λ i. 0;
}

abbrev two_blocks : TimerInfo
two_blocks = record {
  header = record {
    ns_el1_timer_flag = 0;
    el2_timer_flag = 0;
    ns_el1_timer_gsiv = 30;
    el2_timer_gsiv = 26;
    virtual_timer_flag = 0;
    virtual_timer_gsiv = 27;
    el2_virt_timer_gsiv = 28;
    num_platform_timer = 5;
    sys_timer_status = 1;
    time_base_frequency = 10000000;
  };
  gt_info = timer_block 2 ∷ timer_block 3 ∷ [];
}

platform_timer_get_entry_index-Placed_example :
    (place : ℕ × ℕ) × (platform_timer_get_entry_index two_blocks 2 7 ≡ some place)
    × Placed two_blocks.gt_info 2 place 0
platform_timer_get_entry_index-Placed_example =
    platform_timer_get_entry_index-Placed two_blocks 2 7 (omega arith) refl (omega arith)
      (omega arith) (omega arith)
