-- ===== src/GicIts/Tests.antt =====
-- Uses of the theorems on translation services: registers and memory that read what was written.
use riscv_server_soc_ts.Prelude.{
  ℕ, ◌+◌, ◌*◌, ◌%◌, ◌^◌, ◌≤◌, ◌<◌, ◌≡◌, refl, arith, true, ◌==◌, leb, some, if◌then◌else◌, [], ◌∷◌,
  List,
}
use riscv_server_soc_ts.Bits.{u32_mod}
use riscv_server_soc_ts.GicIts.{ItsPal, GicItsInfo, ItsState, queue_bytes}
use riscv_server_soc_ts.GicIts.Lpi.{get_max_lpi}
use riscv_server_soc_ts.GicIts.MaxLpi.{get_max_lpi-least}
use riscv_server_soc_ts.GicIts.Position.{Call, create, clear, run, run-position}

abbrev Device : Type 0
Device = ℕ → ℕ

abbrev put : ℕ → ℕ → Device → Device
put a v w = λ b. if b == a then v else w b

abbrev device : ItsPal Device
device = record {
  mmio_read = λ a s. (s a, s);
  mmio_read64 = λ a s. (s a, s);
  mmio_write = put;
  mmio_write8 = put;
  mmio_write64 = put;
  aligned_alloc = λ align size s. (0x80000000, s);
  memory_set = λ a size v s. s;
  barrier = λ s. s;
  mpidr = 0;
}

-- Two services, with 16 and 20 id bits.
abbrev services : GicItsInfo
services = record {
  gicd_base = 0x30000000;
  gic_rd_base = 0x30080000;
  gic_num_its = 2;
  gic_its = λ i. record {
    block_id = i;
    base = 0x30040000 + i * 0x20000;
    command_q_base = 0x90000000 + i * 0x10000;
    id_bits = if i == 0 then 16 else 20;
    itt_base = 0xA0000000;
  };
}

abbrev ready : ItsState
ready = record {
  info = services;
  cwriter_ptr = λ i. 0;
  setup_done = true;
  lpi_config_base = 0xB0000000;
}

abbrev calls : List Call
calls = create 0 8 0x203A 0x50 ∷ create 1 9 0x203B 0x60 ∷ clear 0 8 0x203A ∷ []

services-have : (k : ℕ) → (if k == 0 then 16 else 20) ≤ 30
services-have k = ground arith

get_max_lpi-least_example :
    let highest = get_max_lpi (some services) true in
    ((k : ℕ) → k < 2 → highest < 2 ^ ((if k == 0 then 16 else 20) + 1))
    × ((k : ℕ) × (k < 2) × (highest + 1 ≡ 2 ^ ((if k == 0 then 16 else 20) + 1)))
get_max_lpi-least_example = get_max_lpi-least services (omega arith) (λ k lt. services-have k)

run-position_example :
    let st' = (run device 3 calls ready (λ a. 0)).0 in
    (st'.cwriter_ptr 0 % u32_mod ≡ 32)
    × ((st'.info.gic_its 0).command_q_base ≡ 0x90000000)
    × (leb ((st'.cwriter_ptr 0 % u32_mod + 4) * 8) queue_bytes ≡ leb 36 4096)
run-position_example = run-position device 3 0 calls ready (λ a. 0) refl refl (omega arith)
