-- ===== src/Smmu/Tests.antt =====
-- Uses of the theorems on SMMUs: a device of which the registers read what was written, with a memory
-- beside them.
use riscv_server_soc_ts.Prelude.{
  ℕ, ◌+◌, ◌*◌, ◌^◌, ◌≤◌, ◌<◌, ◌≡◌, ◌≢◌, refl, sym, arith, true, ◌==◌, ≡→==, ≢→==, ◌||◌, some, [],
  ◌∷◌, inr, if◌then◌else◌, length,
}
use riscv_server_soc_ts.Bits.{low_bits}
use riscv_server_soc_ts.Session.{acs_status_err}
use riscv_server_soc_ts.Smmu.{SmmuPal, SmmuDev, Queue, QueueBuffer}
use riscv_server_soc_ts.Smmu.Positions.{queue_full, queue_empty, queue_full-queue_empty}
use riscv_server_soc_ts.Smmu.Sync.{reg_write_sync, IsAnswered, reg_write_sync-IsAnswered}
use riscv_server_soc_ts.Smmu.Command.{tlbi_cfgi}
use riscv_server_soc_ts.Smmu.Issue.{IsCommandPort, IsCommandQueue, Holds}
use riscv_server_soc_ts.Smmu.Invalidate.{invalidation, tlbi_cfgi-Holds}
use riscv_server_soc_ts.Smmu.Event.{drain}
use riscv_server_soc_ts.Smmu.Drain.{IsQuiet, IsDrained, events_from, drain-IsDrained}
use riscv_server_soc_ts.Smmu.Stream.{get_ste_for_sid, strtab_init_level2}
use riscv_server_soc_ts.Smmu.Master.{
  cleared_master, find_master, MasterAttributes, MapDescriptor, Driver, smmu_map, smmu_unmap,
}
use riscv_server_soc_ts.Smmu.Masters.{
  streams, IsDistinct, loaded, mapped, unmapped, Runs-IsDistinct,
}
use riscv_server_soc_ts.Smmu.Init.{cmd_queue_init, evnt_queue_init, smmu_init, cleared_dev}
use riscv_server_soc_ts.Smmu.Reset.{probed, commanded, evented, tabled, smmu_init-status}
use riscv_server_soc_ts.Smmu.Buffers.{cmd_queue_init-evnt_queue_init}
use riscv_server_soc_ts.Smmu.Unmap.{IsQuietFree, smmu_unmap-walk_ste}
use riscv_server_soc_ts.Smmu.Walk.{
  base_word, cfg_word, IsTwoLevel, IsAllocated, walk_ste, strtab_init_level2-walk_ste,
}

abbrev Words : Type 0
Words = ℕ → ℕ

abbrev put : ℕ → ℕ → Words → Words
put a v w = λ b. if b == a then v else w b

-- The registers and the memory.
abbrev Device : Type 0
Device = Words × Words

abbrev device : SmmuPal Device
device = record {
  mmio_read = λ a s. (s.0 a, s);
  mmio_write = λ a v s. (put a v s.0, s.1);
  mmio_write64 = λ a v s. (put a v s.0, s.1);
  read64 = λ a s. s.1 a;
  write64 = λ a v s. (s.0, put a v s.1);
  calloc = λ n size s. (0x80000010, s);
  alloc = λ size s. (0x90000010, s);
  free = λ a s. s;
  virt_to_phys = λ a. a;
}

abbrev start : Device
start = ((λ a. 0), (λ a. a))

put_same : (a v : ℕ) (w : Words) → put a v w a ≡ v
put_same a v w = rw (≡→== a a refl) refl

put_other : (a b v : ℕ) (w : Words) → a ≢ b → put a v w b ≡ w b
put_other a b v w ne = rw (≢→== b a (λ e. ne (sym e))) refl

abbrev two_of_four : Queue
two_of_four = record { prod = 5; cons = 3; log2nent = 2 }

queue_full-queue_empty_example :
    (queue_empty two_of_four ≡ (5 == 3)) × (queue_full two_of_four ≡ (5 == 3 + 2 ^ 2))
queue_full-queue_empty_example =
    queue_full-queue_empty two_of_four 5 3 refl refl (omega arith) (omega arith)

abbrev buffer : QueueBuffer
buffer = record {
  queue = two_of_four;
  base_ptr = 0x80000010;
  base = 0x80000040;
  base_phys = 0x80000040;
  queue_base = 0;
  entry_size = 32;
  prod_reg = 0x2B4100A8;
  cons_reg = 0x2B4100AC;
}

abbrev commands : QueueBuffer
commands = record buffer { entry_size = 16; prod_reg = 0x2B400098; cons_reg = 0x2B40009C }

abbrev smmu : SmmuDev
smmu = record cleared_dev {
  base = 0x2B400000;
  page1_base = 0x2B410000;
  sid_bits = 16;
  cmdq = commands;
  evntq = buffer;
  hyp = true;
  st_level_2lvl = true;
  strtab_cfg = record (cleared_dev.strtab_cfg) {
    strtab64 = 0x88000000;
    strtab_phys = 0x88000000;
    strtab_base = base_word 0x88000000;
    strtab_base_cfg = cfg_word 16;
  };
}

reg_write_sync-IsAnswered_example :
    IsAnswered device 3 0x2B400024 1
      (device.mmio_write 0x2B400020 1 start)
      (reg_write_sync device 3 smmu 1 0x20 0x24 start)
reg_write_sync-IsAnswered_example = reg_write_sync-IsAnswered device 3 1 0x20 0x24 smmu start

commands-IsCommandPort : IsCommandPort device commands (λ s. s.0 0x2B400098)
commands-IsCommandPort = record {
  reads = λ s. refl;
  read_prod = λ reg s. refl;
  read_word = λ reg a s. refl;
  write_prod = λ v s lt. put_same 0x2B400098 v s.0;
  write_word = λ v a s. refl;
  store_prod = λ a v s. refl;
  store_word = λ a v s lt. put_same a v s.1;
  store_other = λ a b v s al bl ne. put_other a b v s.1 ne;
}

commands-IsCommandQueue : IsCommandQueue device commands
unfolding queue_full
commands-IsCommandQueue = record {
  entries = refl;
  aligned = refl;
  inside = omega arith;
  few = omega arith;
  room = refl;
}

tlbi_cfgi-Holds_example :
    Holds device commands (invalidation true) 0 (tlbi_cfgi device 1 smmu start)
    × ((tlbi_cfgi device 1 smmu start).0 0x2B400098 ≡ low_bits (0 + length (invalidation true)) 3)
tlbi_cfgi-Holds_example =
    tlbi_cfgi-Holds device smmu (λ s. s.0 0x2B400098) commands-IsCommandPort commands-IsCommandQueue
      0 0 start (omega arith) refl

buffer-IsQuiet : IsQuiet device 0x2B4100AC
buffer-IsQuiet = record { read_word = λ reg a s. refl; write_word = λ a v s. refl }

drain-IsDrained_example :
    (evntq : QueueBuffer) × (s : Device) × (drain device 3 buffer start
      ≡ some (events_from device buffer 3 2 start, evntq, s))
    × IsDrained device buffer evntq (3 + 2)
drain-IsDrained_example =
    drain-IsDrained device 2 3 3 buffer start buffer-IsQuiet (omega arith) (omega arith)
      (omega arith) (omega arith) refl refl

smmu_init-status_example : (smmu_init device 32 3 1 smmu start).0 ≡ (
    if smmu.base == 0
      || (probed device 32 smmu start).0 == 0
      || (commanded device 32 smmu start).0 == 0
      || (evented device 32 smmu start).0 == 0
      || (tabled device 32 smmu start).0 == 0
    then acs_status_err
    else 0)
smmu_init-status_example = smmu_init-status device 32 3 1 smmu start

cmd_queue_init-evnt_queue_init_example :
    ((cmd_queue_init device smmu start).1.cmdq.base + 2 ^ 2 * 16 ≤ 0x80000010 + 2 * 2 ^ (2 + 4))
    × (0x80000010 + 2 ^ (2 + 5) < (evnt_queue_init device smmu start).1.evntq.base + 2 ^ 2 * 32)
cmd_queue_init-evnt_queue_init_example =
    cmd_queue_init-evnt_queue_init device 2 2 smmu start start (omega arith) (omega arith)
      (omega arith) (omega arith) refl refl (omega arith) (omega arith) (omega arith) (omega arith)

smmu-IsTwoLevel : IsTwoLevel smmu
smmu-IsTwoLevel = record {
  two_level = refl;
  log2size = 16;
  small = omega arith;
  base = refl;
  cfg = refl;
  aligned = refl;
  low = omega arith;
}

start-IsAllocated : IsAllocated device smmu 700 start
start-IsAllocated = record {
  made = omega arith;
  low = omega arith;
  identity = refl;
  read_back = λ a value t al lt. put_same a value t.1;
}

strtab_init_level2-walk_ste_example :
    let (status, smmu', s') = strtab_init_level2 device smmu 700 start in
    (status ≡ 1) × (walk_ste device smmu'.strtab_cfg 700 s' ≡ some (get_ste_for_sid smmu' 700))
unfolding smmu-IsTwoLevel
strtab_init_level2-walk_ste_example =
    strtab_init_level2-walk_ste device smmu 700 start smmu-IsTwoLevel start-IsAllocated refl
      (omega arith)

abbrev served : SmmuDev
served = record smmu { s1p = true; s2p = true }

abbrev unused : Driver
unused = record {
  num_smmus = 1;
  is_present = true;
  devs = λ i. served;
  array = 1;
  past = λ n i. cleared_dev;
  masters = [];
}

abbrev attributes : ℕ → MasterAttributes
attributes sid = record {
  smmu_index = 0;
  streamid = sid;
  substreamid = 0;
  ssid_bits = 0;
  stage2 = true;
}

abbrev tables : MapDescriptor
tables = record {
  pgt_base = 0x90000000;
  mair = 0;
  ps = 2;
  tg = 0;
  sh = 3;
  orgn = 1;
  irgn = 1;
  tsz = 24;
  sl = 1;
}

-- Two streams are mapped, and the first is unmapped again.
abbrev first_mapped : ℕ × Driver × Device
first_mapped = smmu_map device 1 (attributes 700) tables unused start

abbrev second_mapped : ℕ × Driver × Device
second_mapped = smmu_map device 1 (attributes 701) tables first_mapped.1 first_mapped.2

Runs-IsDistinct_example :
    IsDistinct
      (streams (smmu_unmap device 1 (attributes 700) second_mapped.1 second_mapped.2).0.masters)
Runs-IsDistinct_example = Runs-IsDistinct device (
    unmapped 1 (attributes 700) (
      mapped 1 (attributes 701) tables
        (mapped 1 (attributes 700) tables (loaded unused start refl))))

-- Stream 3 has a master, and is unmapped.
abbrev mapped_three : Driver
mapped_three = record unused {
  masters = record cleared_master { smmu = some (1, 0); sid = 3 } ∷ [];
}

device-IsQuietFree : IsQuietFree device served (λ s. s.0 0x2B400098) commands-IsCommandPort
device-IsQuietFree = record { word = λ a b s. refl; producer = λ a s. refl }

served-IsTwoLevel : IsTwoLevel served
served-IsTwoLevel = record {
  two_level = refl;
  log2size = 16;
  small = omega arith;
  base = refl;
  cfg = refl;
  aligned = refl;
  low = omega arith;
}

smmu_unmap-walk_ste_example :
    walk_ste device served.strtab_cfg
      (2048 * 3)
      (smmu_unmap device 1 (attributes 3) mapped_three start).1
    ≡ some 0
unfolding find_master served-IsTwoLevel
smmu_unmap-walk_ste_example =
    smmu_unmap-walk_ste device served (λ s. s.0 0x2B400098) commands-IsCommandPort
      commands-IsCommandQueue device-IsQuietFree 0 0 0 (1, 0) (attributes 3) mapped_three
      (record cleared_master { smmu = some (1, 0); sid = 3 }) start refl refl refl (omega arith)
      served-IsTwoLevel (omega arith) refl (inr (omega arith))
