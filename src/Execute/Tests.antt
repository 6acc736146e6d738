-- ===== src/Execute/Tests.antt =====
-- Concrete uses of the theorems on the executors.
use Prim.Native.String.{String}
use riscv_server_soc_ts.Prelude.{ℕ, zero, ◌≡◌, refl, true, false, [], List, arith}
use riscv_server_soc_ts.Session.{Session}
use riscv_server_soc_ts.Infra.{mentions, check_skip_module, count_modules, count_tests}
use riscv_server_soc_ts.Execute.{Target, begin}
use riscv_server_soc_ts.Execute.Verdict.{Ending, passed, failed, status_of, worst, Shown, AllEnd}
use riscv_server_soc_ts.Execute.All.{
  timer, wd, base, title, views, is_absent, execute_tests, IsDue, execute_tests_worst,
}

abbrev bare_metal : Target
bare_metal = record {
  sw_os = true;
  sw_hyp = false;
  sw_ps = false;
  build_sbsa = false;
  target_linux = false;
  enable_oob = false;
  target_emulation = false;
  wd_count = 0;
  bdf_table_list_flag = 0;
  num_ecam = 1;
  num_smmu = 0;
  ver_smmu = 0;
}

abbrev fresh : Session
fresh = record {
  print_level = 3;
  override_skip = 0;
  skip_test_num = [];
  execute_tests = [];
  execute_modules = [];
  tests_total = 0;
  tests_pass = 0;
  tests_fail = 0;
  curr_module = 0;
  shared = λ i. record { data0 = 0; data1 = 0; status = 0 };
  console = [];
}

-- Entries that fail when no module was entered, and pass otherwise.
ending : ℕ → Ending
ending zero = failed
ending _ = passed

abbrev entry : String → Session → ℕ × Session
entry test s = (status_of (ending s.curr_module), s)

entry-AllEnd : AllEnd entry
entry-AllEnd test s = (ending s.curr_module, refl)

timer-IsDue : IsDue bare_metal timer fresh
unfolding is_absent base mentions check_skip_module count_modules count_tests
timer-IsDue = (refl, refl, refl)

execute_tests_worst_example :
    (es : List Ending) × (u : Session) × Shown entry
      (views bare_metal timer)
      (begin (title timer).0 (title timer).1 fresh)
      es
      u
    × ((execute_tests entry bare_metal timer fresh).0 ≡ status_of (worst es))
execute_tests_worst_example =
    execute_tests_worst entry bare_metal timer fresh entry-AllEnd timer-IsDue

wd-not-IsDue : ¬ IsDue bare_metal wd fresh
unfolding is_absent
wd-not-IsDue (_, _, there) = absurd (ground arith)
