-- ===== src/Execute.antt =====
-- The executors of the test modules, `val_*_execute_tests` in val/src: what they share. Their test
-- entries (test_pool/) and what the platform says of itself are arguments.
pub mod Modules
pub mod Verdict
pub mod All
mod Tests
use Prim.Native.String.{String}
use riscv_server_soc_ts.Prelude.{ℕ, ◌^◌, Bool, ◌==◌, if◌then◌else◌, List, [], ◌∷◌, bit_or}
use riscv_server_soc_ts.Session.{
  Session, print, print_test_start, print_test_end, acs_print_err, acs_print_info, acs_status_pass,
  acs_status_skip,
}
use riscv_server_soc_ts.Infra.{mentions, check_skip_module}

-- What the executors ask of the target before they run tests: the software views, the build, and the
-- answers of the information tables.
pub record Target : Type 0 where
  pub sw_os : Bool
  pub sw_hyp : Bool
  pub sw_ps : Bool
  pub build_sbsa : Bool
  pub target_linux : Bool
  pub enable_oob : Bool
  pub target_emulation : Bool
  pub wd_count : ℕ
  pub bdf_table_list_flag : ℕ
  pub num_ecam : ℕ
  pub num_smmu : ℕ
  pub ver_smmu : ℕ

-- The tests under one `if (g_sw_view[...])`, with the line printed before them.
pub record View : Type 0 where
  pub shown : Bool
  pub heading : String
  pub tests : List String

-- The start of a module's tests, with its bit in `g_curr_module`.
abbrev pub begin : String → ℕ → Session → Session
begin name number s = record (print_test_start name s) { curr_module = 2 ^ number }

-- `entry` is a test's entry function, with `num_hart` given.
module _ (entry : String → Session → ℕ × Session) where
  -- A sequence of `status |= ..._entry(num_hart)`.
  unfoldable pub run_tests : List String → ℕ → Session → ℕ × Session
  run_tests [] status s = (status, s)
  run_tests (t ∷ ts) status s = run_tests ts (bit_or status (entry t s).0) (entry t s).1

  unfoldable pub run_views : List View → ℕ → Session → ℕ × Session
  run_views [] status s = (status, s)
  run_views (v ∷ vs) status s =
      let (status', s') = run_tests v.tests status (print acs_print_err v.heading 0 s) in
      if v.shown then run_views vs status' s' else run_views vs status s

  -- An executor from `val_print_test_start` on.
  unfoldable pub run_module : String → ℕ → String → List View → Session → ℕ × Session
  run_module name number end_name views s =
      let (status, s') = run_views views acs_status_pass (begin name number s) in
      (status, print_test_end status end_name s')

-- An executor's two first tests, before the rest of it.
unfoldable pub unless_skipped : ℕ → String → (Session → ℕ × Session) → Session → ℕ × Session
unless_skipped base text rest s =
    let skipped : ℕ × Session = (acs_status_skip, print acs_print_info text 0 s) in
    if mentions s.skip_test_num base
    then skipped
    else if check_skip_module base s == acs_status_pass
    then rest s
    else skipped
