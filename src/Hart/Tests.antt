-- ===== src/Hart/Tests.antt =====
-- Two harts, and a firmware that first answers "already on".
use riscv_server_soc_ts.Prelude.{
  ℕ, ◌+◌, ◌%◌, ◌^◌, ◌≤◌, ◌≡◌, ◌≢◌, ◌⊎◌, refl, arith, [], ◌==◌, if◌then◌else◌,
}
use riscv_server_soc_ts.Bits.{low_bits, sub32}
use riscv_server_soc_ts.Session.{Session}
use riscv_server_soc_ts.Status.{result_fail, get_status}
use riscv_server_soc_ts.Hart.{
  HartEntry, HartTable, SmcArgs, psci_already_on, index_loop, get_index_mpid, get_mpid_index,
  execute_on_pe,
}
use riscv_server_soc_ts.Hart.Lookup.{IsWellFormed, get_index_mpid-get_mpid_index}
use riscv_server_soc_ts.Hart.Power.{calls, answer, IsRefused, execute_on_pe_settles}

abbrev entry : ℕ → HartEntry
entry i = record {
  hart_num = i;
  hart_id = 7 + i;
  acpi_processor_uid = i;
  ext_intc_id = 0;
  imsic_base = 0x28000000;
  imsic_size = 0x1000;
  mmu_type = 1;
}

abbrev two_harts : HartTable
two_harts = record { num_of_hart = 2; hart_info = entry }

abbrev idle : Session
idle = record {
  print_level = 3;
  override_skip = 1;
  skip_test_num = [];
  execute_tests = [];
  execute_modules = [];
  tests_total = 0;
  tests_pass = 0;
  tests_fail = 0;
  curr_module = 0;
  shared = λ _. record { data0 = 0; data1 = 0; status = 0 };
  console = [];
}

abbrev no_args : SmcArgs
no_args = record { arg0 = 0; arg1 = 0; arg2 = 0; arg3 = 0; arg4 = 0; arg5 = 0; arg6 = 0; arg7 = 0 }

-- A firmware that finds the hart on, and one that starts it.
abbrev busy : SmcArgs → Session → SmcArgs × Session
busy args s = (record args { arg0 = psci_already_on }, s)

second_hart : get_index_mpid two_harts 8 ≡ 1
unfolding get_index_mpid index_loop
second_hart = refl

unknown_hart : get_index_mpid two_harts 99 ≡ 0
unfolding get_index_mpid index_loop
unknown_hart = refl

two_harts-IsWellFormed : IsWellFormed two_harts
two_harts-IsWellFormed = record { numbered = λ i h. refl; distinct = λ i j h k e. omega arith }

get_index_mpid-get_mpid_index_example :
    (get_index_mpid two_harts (get_mpid_index two_harts 1 idle).0 ≡ 1)
    × ((get_mpid_index two_harts 1 idle).1 ≡ idle)
get_index_mpid-get_mpid_index_example =
    get_index_mpid-get_mpid_index two_harts 1 idle two_harts-IsWellFormed (omega arith)

execute_on_pe_settles_example :
    (n : ℕ) × (n ≤ 3)
    × IsRefused busy two_harts 1 0x8000 5 n no_args idle
    × ((answer busy two_harts 1 0x8000 5 n no_args idle ≢ psci_already_on) ⊎ (n ≡ 3))
    × ((execute_on_pe busy two_harts 3 1 0x8000 5 no_args idle).0
        ≡ (calls busy two_harts 1 0x8000 5 n no_args idle).0)
    × (get_status 1 (execute_on_pe busy two_harts 3 1 0x8000 5 no_args idle).1 ≡ (
        if answer busy two_harts 1 0x8000 5 n no_args idle == 0
        then get_status 1 (calls busy two_harts 1 0x8000 5 n no_args idle).1
        else result_fail 0
            (sub32 0x120 (low_bits (answer busy two_harts 1 0x8000 5 n no_args idle) 32))
          % 2 ^ 32))
execute_on_pe_settles_example =
    execute_on_pe_settles busy two_harts 1 0x8000 5 3 no_args idle (omega arith)
