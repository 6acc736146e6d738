-- ===== src/Infra/Tests.antt =====
-- Concrete uses of the theorems on the test flow.
use riscv_server_soc_ts.Prelude.{ℕ, ◌<◌, ◌≡◌, ◌↔◌, ◌⊎◌, inl, arith, refl, false, none, [], ◌∷◌, Any}
use riscv_server_soc_ts.Session.{Session, acs_status_pass, acs_status_skip}
use riscv_server_soc_ts.Status.{get_status}
use riscv_server_soc_ts.Infra.{
  has_selection, initialize_test, wait_for_test_completion, check_for_error,
}
use riscv_server_soc_ts.Infra.Start.{Selected, initialize_test_starts}
use riscv_server_soc_ts.Infra.Wait.{IsReported, Settles, Ended, wait_ends}
use riscv_server_soc_ts.Infra.Judge.{HasResult, Verdict, check_for_error_many}

-- A session of which the options skip test 5 and select test 803 and module 200.
abbrev selective : Session
selective = record {
  print_level = 1;
  override_skip = 1;
  skip_test_num = 5 ∷ [];
  execute_tests = 803 ∷ [];
  execute_modules = 200 ∷ [];
  tests_total = 1;
  tests_pass = 0;
  tests_fail = 0;
  curr_module = 1;
  shared = λ i. record { data0 = 0; data1 = 0; status = 0x40321000 };
  console = [];
}

initialize_test_starts_example :
    (((initialize_test 0 803 "Check ECAM" 2 selective).0 ≡ acs_status_pass) ↔ (
      ¬ Any (λ x. x ≡ 803) selective.skip_test_num
      × ((has_selection selective ≡ false) ⊎ Selected 803 selective)))
    × (((initialize_test 0 803 "Check ECAM" 2 selective).0 ≡ acs_status_pass)
        ⊎ ((initialize_test 0 803 "Check ECAM" 2 selective).0 ≡ acs_status_skip))
initialize_test_starts_example = initialize_test_starts 0 803 "Check ECAM" 2 selective (omega arith)

abbrev idle : Session → Session
idle s = s

idle-Settles : Settles idle
idle-Settles i s h = h

wait_ends_example :
    Ended idle 803 4 998 selective (wait_for_test_completion idle 803 4 1000 selective)
wait_ends_example =
    wait_ends idle idle-Settles 803 4 1000 selective (omega arith) (omega arith) (omega arith)
      (omega arith)

all-IsReported : (k : ℕ) → k < 4 → IsReported k selective
unfolding get_status
all-IsReported k h = refl

all_have_results : (k : ℕ) → k < 4 → HasResult k selective
unfolding get_status
all_have_results k h = inl refl

check_for_error_many_example : Verdict 4 selective (check_for_error 0 4 none selective)
check_for_error_many_example =
    check_for_error_many 0 4 none selective (omega arith) all_have_results
