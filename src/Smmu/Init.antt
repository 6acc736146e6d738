-- ===== src/Smmu/Init.antt =====
-- The start and the end of the driver (val/sys_arch_src/smmu_v3/smmu_v3.c): the features of an SMMU, its
-- queues, its reset, and the loops over the SMMUs of the platform.
use riscv_server_soc_ts.Prelude.{
  ℕ, zero, suc, ◌+◌, ◌*◌, ◌/◌, ◌%◌, ◌^◌, Bool, true, false, not, ◌||◌, ◌==◌, ◌!=◌, ltb, leb,
  if◌then◌else◌, none, some, List, [], ◌∷◌, get_elem?, bit_or, max,
}
use riscv_server_soc_ts.Bits.{add64, low_bits}
use riscv_server_soc_ts.Session.{acs_status_err}
use riscv_server_soc_ts.Iovirt.{
  IovirtTable, SmmuInfo, smmu_num_ctrl, smmu_ctrl_base, smmu_ctrl_arch_major_rev, get_smmu_info,
}
use riscv_server_soc_ts.Smmu
use riscv_server_soc_ts.Smmu.{
  SmmuPal, SmmuDev, Queue, QueueBuffer, StrtabConfig, align_to_size, bitfield_get, bitfield_set,
  in_place, set_at, strtab_split,
}
use riscv_server_soc_ts.Smmu.Sync.{reg_write_sync, dev_disable}
use riscv_server_soc_ts.Smmu.Command.{tlbi_cfgi}
use riscv_server_soc_ts.Smmu.Stream.{strtab_init, free_strtab, empty_desc}
use riscv_server_soc_ts.Smmu.Master.{Driver}

-- `smmu_oas`
abbrev pub smmu_oas : List ℕ
smmu_oas = 32 ∷ 36 ∷ 40 ∷ 42 ∷ 44 ∷ 48 ∷ 52 ∷ []

abbrev pub has_bit : ℕ → ℕ → Bool
has_bit value k = value / 2 ^ k % 2 == 1

-- The features of IDR0 are recorded, before the refusals; the flags are clear before.
unfoldable pub probe_idr0 : ℕ → SmmuDev → SmmuDev
probe_idr0 value smmu = record smmu {
  st_level_2lvl = smmu.st_level_2lvl || bitfield_get 28 27 value == 1;
  cd2l = smmu.cd2l || has_bit value 19;
  hyp = smmu.hyp || has_bit value 9;
  s1p = smmu.s1p || has_bit value 1;
  s2p = smmu.s2p || has_bit value 0;
}

-- The sizes of IDR1. `max_sid` is MAX_SID of the platform.
unfoldable pub probe_idr1 : ℕ → ℕ → SmmuDev → SmmuDev
probe_idr1 max_sid value smmu =
    let sid_bits =
      if ltb (bitfield_get 5 0 value) max_sid then bitfield_get 5 0 value else max_sid in
    record smmu {
      cmdq = record (smmu.cmdq) {
        queue = record (smmu.cmdq.queue) { log2nent = bitfield_get 25 21 value };
      };
      evntq = record (smmu.evntq) {
        queue = record (smmu.evntq.queue) { log2nent = bitfield_get 20 16 value };
      };
      sid_bits = sid_bits;
      ssid_bits = bitfield_get 10 6 value;
      st_level_2lvl = if leb sid_bits strtab_split then false else smmu.st_level_2lvl;
    }

unfoldable pub probe_idr5 : ℕ → SmmuDev → SmmuDev
probe_idr5 oas smmu = record smmu { oas = oas; ias = max smmu.ias oas }

module _ {S : Type 0} (pal : SmmuPal S) where
  -- The status, the device and the state.
  unfoldable pub smmu_probe : ℕ → SmmuDev → S → ℕ × SmmuDev × S
  smmu_probe max_sid smmu s =
      let (idr0, s1) = pal.mmio_read (add64 smmu.base Smmu.idr0_offset) s in
      let (idr1, s2) = pal.mmio_read (add64 smmu.base Smmu.idr1_offset) s1 in
      let (idr5, s3) = pal.mmio_read (add64 smmu.base Smmu.idr5_offset) s2 in
      let d0 = probe_idr0 idr0 smmu in
      let ttf = bitfield_get 3 2 idr0 in
      let d1 = if ttf == 3 then record d0 { ias = 40 } else d0 in
      let d2 = probe_idr1 max_sid idr1 d1 in
      let sized : ℕ × SmmuDev × S = elim (get_elem? smmu_oas (bitfield_get 2 0 idr5)) [
        | none ↦ (0, d2, s3)
        | some oas ↦ (1, probe_idr5 oas d2, s3)
      ] in
      if not (has_bit idr0 1 || has_bit idr0 0)
      then (0, d0, s1)
      else if not (ttf == 3 || ttf == 2)
      then (0, d0, s1)
      else if has_bit idr1 30 || has_bit idr1 29
      then (0, d1, s2)
      else sized

  -- What the initialisations of both queues have in common: `lowest` is the least size in bytes, and
  -- `copies` the number of blocks of the size that are allocated. The buffer and the state.
  unfoldable pub queue_init : ℕ → ℕ → ℕ → ℕ → ℕ → QueueBuffer → S → ℕ × QueueBuffer × S
  queue_init dwords lowest copies prod_reg cons_reg b s =
      let wanted = 2 ^ b.queue.log2nent * dwords * 8 in
      let size = if ltb wanted lowest then lowest else wanted in
      let (ptr, s') = pal.calloc copies size s in
      let base_phys = align_to_size (pal.virt_to_phys ptr) size in
      if ptr == 0 then (0, record b { base_ptr = 0 }, s') else (
        1,
        record {
          queue = record (b.queue) { prod = 0; cons = 0 };
          base_ptr = ptr;
          base = align_to_size ptr size;
          base_phys = base_phys;
          queue_base =
              bit_or (bit_or (2 ^ 62) (in_place 51 5 base_phys))
                (bitfield_set 4 0 b.queue.log2nent);
          entry_size = dwords * 8;
          prod_reg = prod_reg;
          cons_reg = cons_reg;
        },
        s',
      )

  unfoldable pub cmd_queue_init : SmmuDev → S → ℕ × SmmuDev × S
  cmd_queue_init smmu s =
      let (ret, cmdq, s') =
        queue_init 2 32 2 (add64 smmu.base Smmu.cmdq_prod_offset)
          (add64 smmu.base Smmu.cmdq_cons_offset) smmu.cmdq s in
      (ret, record smmu { cmdq = cmdq }, s')

  unfoldable pub evnt_queue_init : SmmuDev → S → ℕ × SmmuDev × S
  evnt_queue_init smmu s =
      let (ret, evntq, s') =
        queue_init 4 64 1 (add64 smmu.page1_base Smmu.evntq_prod_offset)
          (add64 smmu.page1_base Smmu.evntq_cons_offset) smmu.evntq s in
      (ret, record smmu { evntq = evntq }, s')

  -- CR1 has inner shareable tables and queues, cached write-back.
  unfoldable pub cr1_value : ℕ
  cr1_value =
      bit_or
        (bit_or
          (bit_or (bit_or (bit_or (bitfield_set 11 10 3) (bitfield_set 5 4 3)) (bitfield_set 7 6 1))
            (bitfield_set 1 0 1))
          (bitfield_set 9 8 1))
        (bitfield_set 3 2 1)

  -- The writes before the command queue is enabled, and those before the event queue is.
  unfoldable pub write_tables : SmmuDev → S → S
  write_tables smmu s =
      pal.mmio_write (add64 smmu.base Smmu.cmdq_cons_offset) smmu.cmdq.queue.cons (
        pal.mmio_write (add64 smmu.base Smmu.cmdq_prod_offset) smmu.cmdq.queue.prod (
          pal.mmio_write64 (add64 smmu.base Smmu.cmdq_base_offset) smmu.cmdq.queue_base (
            pal.mmio_write (add64 smmu.base Smmu.strtab_base_cfg_offset)
              smmu.strtab_cfg.strtab_base_cfg
              (pal.mmio_write64 (add64 smmu.base Smmu.strtab_base_offset)
                smmu.strtab_cfg.strtab_base
                (pal.mmio_write (add64 smmu.base Smmu.cr2_offset) 0
                  (pal.mmio_write (add64 smmu.base Smmu.cr1_offset) cr1_value s))))))

  unfoldable pub write_event_queue : SmmuDev → S → S
  write_event_queue smmu s =
      pal.mmio_write (add64 smmu.page1_base Smmu.evntq_cons_offset) smmu.evntq.queue.cons (
        pal.mmio_write (add64 smmu.page1_base Smmu.evntq_prod_offset) smmu.evntq.queue.prod
          (pal.mmio_write64 (add64 smmu.base Smmu.evntq_base_offset) smmu.evntq.queue_base s))

  -- A synchronised write of CR0; `ack` stands for the timeout of `smmu_reg_write_sync`.
  abbrev pub write_cr0 : ℕ → SmmuDev → ℕ → S → ℕ × S
  write_cr0 ack smmu value s =
      reg_write_sync pal ack smmu value Smmu.cr0_offset Smmu.cr0ack_offset s

  -- `smmu_reset`: CMDQEN is bit 3, EVNTQEN bit 2 and SMMUEN bit 0.
  unfoldable pub reset : ℕ → ℕ → SmmuDev → S → ℕ × S
  reset ack timeout smmu s =
      let (ret1, s1) = write_cr0 ack smmu 0 s in
      let (ret2, s2) = write_cr0 ack smmu 0x8 (write_tables smmu s1) in
      let (ret3, s3) =
        write_cr0 ack smmu 0xC (write_event_queue smmu (tlbi_cfgi pal timeout smmu s2)) in
      let (ret4, s4) = write_cr0 ack smmu 0xD s3 in
      if ret1 != 0
      then (ret1, s1)
      else if ret2 != 0
      then (ret2, s2)
      else if ret3 != 0
      then (ret3, s3)
      else if ret4 != 0
      then (ret4, s4)
      else (1, s4)

  unfoldable pub smmu_init : ℕ → ℕ → ℕ → SmmuDev → S → ℕ × SmmuDev × S
  smmu_init max_sid ack timeout smmu s =
      let (ret1, d1, s1) = smmu_probe max_sid smmu s in
      let (ret2, d2, s2) = cmd_queue_init d1 s1 in
      let (ret3, d3, s3) = evnt_queue_init d2 s2 in
      let (ret4, d4, s4) = strtab_init pal d3 s3 in
      let (ret5, s5) = reset ack timeout d4 s4 in
      if smmu.base == 0
      then (acs_status_err, smmu, s)
      else if ret1 == 0
      then (acs_status_err, d1, s1)
      else if ret2 == 0
      then (acs_status_err, d2, s2)
      else if ret3 == 0
      then (acs_status_err, d3, s3)
      else if ret4 == 0
      then (acs_status_err, d4, s4)
      else if ret5 == 0
      then (acs_status_err, d4, s5)
      else (0, d4, s5)

  -- The loop of `val_smmu_init` from SMMU `i` on, with `n` left.
  unfoldable pub init_loop :
      ℕ → ℕ → ℕ → IovirtTable → ℕ → ℕ → (ℕ → SmmuDev) → S → ℕ × (ℕ → SmmuDev) × S
  init_loop max_sid ack timeout table zero i devs s = (0, devs, s)
  init_loop max_sid ack timeout table (suc n) i devs s =
      let base = get_smmu_info table smmu_ctrl_base i in
      let (ret, smmu, s') =
        smmu_init max_sid ack timeout
          (record (devs i) { base = base; page1_base = add64 base 0x10000 }) s in
      let skipped = init_loop max_sid ack timeout table n (i + 1) devs s in
      let started = init_loop max_sid ack timeout table n (i + 1) (set_at i smmu devs) s' in
      if get_smmu_info table smmu_ctrl_arch_major_rev i != 3
      then skipped
      else if ret != 0
      then (acs_status_err, set_at i (record smmu { base = 0 }) devs, s')
      else started

  -- The loop of `val_smmu_stop`.
  unfoldable pub stop_loop : ℕ → ℕ → ℕ → (ℕ → SmmuDev) → S → S
  stop_loop ack zero i devs s = s
  stop_loop ack (suc n) i devs s =
      let smmu = devs i in
      let s1 = (dev_disable pal ack smmu s).1 in
      let s2 = if smmu.cmdq.base_ptr != 0 then pal.free smmu.cmdq.base_ptr s1 else s1 in
      let s3 = if smmu.evntq.base_ptr != 0 then pal.free smmu.evntq.base_ptr s2 else s2 in
      stop_loop ack n (i + 1) devs (if smmu.base == 0 then s else free_strtab pal smmu s3)

-- What `val_smmu_get_info` answers from the device; the rest is asked of the table.
pub data SmmuFeature : Type 0 where
  ssid_bits_info in_addr_size_info out_addr_size_info : SmmuFeature
  table_info : SmmuInfo → SmmuFeature

unfoldable pub feature_of : IovirtTable → ℕ → SmmuDev → SmmuFeature → ℕ
feature_of table i smmu ssid_bits_info = smmu.ssid_bits
feature_of table i smmu in_addr_size_info = smmu.ias
feature_of table i smmu out_addr_size_info = smmu.oas
feature_of table i smmu (table_info type) = get_smmu_info table type i

unfoldable pub smmu_get_info : IovirtTable → Driver → SmmuFeature → ℕ → ℕ
smmu_get_info table d type i = if leb d.num_smmus i then 0 else feature_of table i (d.devs i) type

-- The contents of memory that was cleared.
abbrev pub cleared_buffer : QueueBuffer
cleared_buffer = record {
  queue = record { prod = 0; cons = 0; log2nent = 0 };
  base_ptr = 0;
  base = 0;
  base_phys = 0;
  queue_base = 0;
  entry_size = 0;
  prod_reg = 0;
  cons_reg = 0;
}

abbrev pub cleared_dev : SmmuDev
cleared_dev = record {
  base = 0;
  page1_base = 0;
  ias = 0;
  oas = 0;
  ssid_bits = 0;
  sid_bits = 0;
  cmdq = cleared_buffer;
  evntq = cleared_buffer;
  strtab_cfg = record {
    strtab_ptr = 0;
    strtab64 = 0;
    strtab_phys = 0;
    l1_desc = 0;
    l1_descs = λ i. empty_desc;
    l1_ent_count = 0;
    strtab_base = 0;
    strtab_base_cfg = 0;
  };
  st_level_2lvl = false;
  cd2l = false;
  hyp = false;
  s1p = false;
  s2p = false;
}

module _ {S : Type 0} (pal : SmmuPal S) where
  -- `val_smmu_init`, of which a device takes 256 bytes.
  unfoldable pub driver_init : ℕ → ℕ → ℕ → IovirtTable → Driver → S → ℕ × Driver × S
  driver_init max_sid ack timeout table d s =
      let num = low_bits (get_smmu_info table smmu_num_ctrl 0) 32 in
      let (ptr, s') = pal.calloc num 256 s in
      let (ret, devs, s'') = init_loop pal max_sid ack timeout table num 0 (λ i. cleared_dev) s' in
      if num == 0
      then (acs_status_err, record d { num_smmus = num }, s)
      else if ptr == 0
      then (acs_status_err, record d { num_smmus = num; is_present = false }, s')
      else (
        ret,
        record d {
          num_smmus = num;
          is_present = true;
          devs = devs;
          array = d.array + 1;
          past = set_at d.array d.devs d.past;
        },
        s'',
      )
