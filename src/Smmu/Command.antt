-- ===== src/Smmu/Command.antt =====
-- The command queue of val/sys_arch_src/smmu_v3/smmu_v3.c: commands are built, written to the slot at
-- the producer's position, and awaited.
use riscv_server_soc_ts.Prelude.{ℕ, zero, suc, ◌*◌, ◌==◌, if◌then◌else◌}
use riscv_server_soc_ts.Bits.{low_bits, add64}
use riscv_server_soc_ts.Smmu.{SmmuPal, SmmuDev, Queue, QueueBuffer, bitfield_set, minus_one}
use riscv_server_soc_ts.Smmu.Positions.{inc_prod, queue_full, queue_empty}

abbrev pub cmdq_op_cfgi_all : ℕ
cmdq_op_cfgi_all = 0x4

abbrev pub cmdq_op_tlbi_el2_all : ℕ
cmdq_op_tlbi_el2_all = 0x20

abbrev pub cmdq_op_tlbi_nsnh_all : ℕ
cmdq_op_tlbi_nsnh_all = 0x30

abbrev pub cmdq_op_cmd_sync : ℕ
cmdq_op_cmd_sync = 0x46

-- `smmu_cmdq_build_cmd`: the status and the two words of the command.
unfoldable pub build_cmd : ℕ → ℕ × ℕ × ℕ
build_cmd opcode =
    let op = bitfield_set 7 0 opcode in
    if opcode == cmdq_op_tlbi_el2_all
    then (0, op, 0)
    else if opcode == cmdq_op_tlbi_nsnh_all
    then (0, op, 0)
    else if opcode == cmdq_op_cmd_sync
    then (0, op, 0)
    else if opcode == cmdq_op_cfgi_all
    then (0, op, bitfield_set 4 0 31)
    else (minus_one, op, 0)

-- The loop that waits for room, on the positions that the driver holds.
unfoldable pub await_room : ℕ → Queue → ℕ
await_room zero q = zero
await_room (suc timeout) q =
    let rest = await_room timeout q in if queue_full q then rest else suc timeout

-- The address of the entry at a position.
abbrev pub slot : QueueBuffer → ℕ → ℕ
slot b position = add64 b.base (low_bits position b.queue.log2nent * b.entry_size)

module _ {S : Type 0} (pal : SmmuPal S) where
  -- `smmu_cmdq_write_cmd`: the status and the state. `timeout` stands for SMMU_CMDQ_POLL_TIMEOUT.
  unfoldable pub write_cmd : ℕ → QueueBuffer → ℕ → ℕ → S → ℕ × S
  write_cmd timeout cmdq word0 word1 s =
      let (prod, s') = pal.mmio_read cmdq.prod_reg s in
      let dst = slot cmdq prod in
      let written = pal.write64 (add64 dst 8) word1 (pal.write64 dst word0 s') in
      let next = inc_prod (record (cmdq.queue) { prod = prod; cons = 0 }) in
      if await_room timeout cmdq.queue == 0
      then (minus_one, s)
      else (0, pal.mmio_write cmdq.prod_reg next written)

  unfoldable pub issue_cmd : ℕ → QueueBuffer → ℕ → S → ℕ × S
  issue_cmd timeout cmdq opcode s =
      let (status, word0, word1) = build_cmd opcode in
      if status == 0 then write_cmd timeout cmdq word0 word1 s else (minus_one, s)

  -- The loop of `smmu_cmdq_poll_until_consumed`; what is left of `timeout` decides what is printed.
  unfoldable pub consumed_loop : ℕ → QueueBuffer → Queue → S → ℕ × S
  consumed_loop zero cmdq q s = (0, s)
  consumed_loop (suc timeout) cmdq q s =
      let (cons, s') = pal.mmio_read cmdq.cons_reg s in
      let rest = consumed_loop timeout cmdq (record q { cons = cons }) s' in
      if queue_empty q then (suc timeout, s) else rest

  unfoldable pub poll_until_consumed : ℕ → QueueBuffer → S → ℕ × S
  poll_until_consumed timeout cmdq s =
      let (prod, s') = pal.mmio_read cmdq.prod_reg s in
      let (cons, s'') = pal.mmio_read cmdq.cons_reg s' in
      consumed_loop timeout cmdq (record (cmdq.queue) { prod = prod; cons = cons }) s''

  -- `smmu_tlbi_cfgi`; the statuses of the commands are not looked at.
  unfoldable pub tlbi_cfgi : ℕ → SmmuDev → S → S
  tlbi_cfgi timeout smmu s =
      let configured = (issue_cmd timeout smmu.cmdq cmdq_op_cfgi_all s).1 in
      let hyp = (issue_cmd timeout smmu.cmdq cmdq_op_tlbi_el2_all configured).1 in
      let flushed =
        (issue_cmd timeout smmu.cmdq cmdq_op_tlbi_nsnh_all
          (if smmu.hyp then hyp else configured)).1 in
      let synced = (issue_cmd timeout smmu.cmdq cmdq_op_cmd_sync flushed).1 in
      (poll_until_consumed timeout smmu.cmdq synced).1
