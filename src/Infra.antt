-- ===== src/Infra.antt =====
-- val/src/acs_test_infra.c: which modules and tests a run executes, how a test starts, hands its
-- payload to the harts, waits for them and is judged.
pub mod Select
pub mod Start
pub mod Wait
pub mod Judge
mod Tests
use Prim.Native.String.{String}
use riscv_server_soc_ts.Prelude.{
  ℕ, zero, suc, ◌+◌, ◌-◌, ◌^◌, Bool, ◌&&◌, ◌||◌, ◌==◌, ◌!=◌, ltb, leb, if◌then◌else◌, Option, none,
  some, List, [], ◌∷◌,
}
use riscv_server_soc_ts.Bits.{add32, sub32}
use riscv_server_soc_ts.Session.{
  Session, SharedMem, print, update, acs_print_err, acs_print_test, acs_status_pass,
  acs_status_skip, acs_status_fail,
}
use riscv_server_soc_ts.Status.{
  result_pending, result_skip, result_fail, bsa_acs_start, report_status, set_status, get_status,
  is_result_pending, is_test_pass, is_test_skip, is_test_fail_skip,
}

-- A list option holds the number.
unfoldable pub mentions : List ℕ → ℕ → Bool
mentions [] n = Bool.false
mentions (x ∷ xs) n = x == n || mentions xs n

-- The counting loops over the `-m` and `-t` options in `val_check_skip_module`.
unfoldable pub count_modules : List ℕ → ℕ → ℕ → ℕ
count_modules [] base skip_module = skip_module
count_modules (m ∷ ms) base skip_module =
    count_modules ms base (if m == base then add32 skip_module 1 else skip_module)

unfoldable pub count_tests : List ℕ → ℕ → ℕ → ℕ
count_tests [] base skip_module = skip_module
count_tests (t ∷ ts) base skip_module =
    count_tests ts base (if ltb (sub32 t base) 100 then add32 skip_module 1 else skip_module)

-- `g_num_tests || g_num_modules`
abbrev given : List ℕ → Bool
given [] = Bool.false
given (_ ∷ _) = Bool.true

abbrev pub has_selection : Session → Bool
has_selection s = given s.execute_tests || given s.execute_modules

unfoldable pub check_skip_module : ℕ → Session → ℕ
check_skip_module module_base s =
    let in_modules = count_modules s.execute_modules module_base 0 in
    let skip_module = count_tests s.execute_tests module_base in_modules in
    if skip_module == 0 && has_selection s then acs_status_skip else acs_status_pass

-- `for (i = 0; i < num_hart; i++) val_set_status(i, status)`, from `i` on, `n` rounds.
unfoldable pub set_all : ℕ → ℕ → ℕ → Session → Session
set_all zero i status s = s
set_all (suc n) i status s = set_all n (i + 1) status (set_status i status s)

-- The two loops that count in `g_override_skip`.
unfoldable pub override_tests : List ℕ → ℕ → ℕ → ℕ
override_tests [] test_num override_skip = override_skip
override_tests (t ∷ ts) test_num override_skip =
    override_tests ts test_num (if test_num == t then add32 override_skip 1 else override_skip)

unfoldable pub override_modules : List ℕ → ℕ → ℕ → ℕ
override_modules [] test_num override_skip = override_skip
override_modules (m ∷ ms) test_num override_skip = override_modules ms test_num (
    if ltb 0 (sub32 test_num m) && ltb (sub32 test_num m) 100
    then add32 override_skip 1
    else override_skip)

-- `index` is the index of the running hart. The exception handler that is installed at the end is
-- not part of the session.
unfoldable pub initialize_test : ℕ → ℕ → String → ℕ → Session → ℕ × Session
initialize_test index test_num desc num_hart s =
    let pending = set_all num_hart 0 (result_pending test_num) (record s { override_skip = 0 }) in
    let override_skip =
      override_modules s.execute_modules test_num (override_tests s.execute_tests test_num 0) in
    let skipped = set_status index (result_skip test_num 0) pending in
    let selected = record pending { override_skip = 1 } in
    let printed = print acs_print_test desc 0 (print acs_print_err "%4d : " test_num selected) in
    let started = report_status 0 (bsa_acs_start test_num) none printed in
    if mentions s.skip_test_num test_num
    then (acs_status_skip, skipped)
    else if override_skip == 0 && has_selection s
    then (acs_status_skip, record skipped { override_skip = override_skip })
    else (acs_status_pass, record started { tests_total = add32 started.tests_total 1 })

-- `num_of_hart` is what `val_hart_get_num` returns.
unfoldable pub set_test_data : ℕ → ℕ → ℕ → ℕ → Session → Session
set_test_data num_of_hart index addr test_data s =
    if ltb num_of_hart index
    then print acs_print_err "\n Incorrect HART index = %d" index s
    else record s {
      shared = update s.shared index (record (s.shared index) { data0 = addr; data1 = test_data });
    }

-- `none` where nothing is stored through the two pointers.
unfoldable pub get_test_data : ℕ → ℕ → Session → Option (ℕ × ℕ) × Session
get_test_data num_of_hart index s =
    if ltb num_of_hart index
    then (none, print acs_print_err "\n Incorrect HART index = %d" index s)
    else (some ((s.shared index).data0, (s.shared index).data1), s)

-- What the other harts do to the session between two reads of a status.
module _ (others : Session → Session) where
  -- One round of the `for` loop in `val_wait_for_test_completion`: `j` is one more than the last
  -- index that was pending when it was read.
  unfoldable pub scan : ℕ → ℕ → ℕ → Session → ℕ × Session
  scan zero i j s = (j, s)
  scan (suc n) i j s =
      let s' = others s in
      scan n (i + 1) (if is_result_pending (get_status i s') then i + 1 else j) s'

  -- `rounds` is the number of rounds that `--timeout` lets through, `j` the `j` of the last round.
  unfoldable pub poll : ℕ → ℕ → ℕ → ℕ → Session → Session
  poll zero test_num num_hart j s = set_status (sub32 j 1) (result_fail test_num 0xF) s
  poll (suc rounds) test_num num_hart j s =
      let (j', s') = scan num_hart 0 0 s in
      let rest = poll rounds test_num num_hart j' s' in if j' == 0 then s' else rest

  -- `--timeout` wraps at 0.
  unfoldable pub wait_for_test_completion : ℕ → ℕ → ℕ → Session → Session
  wait_for_test_completion test_num num_hart timeout s =
      let waited = poll (sub32 timeout 1) test_num num_hart 0 s in
      if num_hart == 1 then s else waited

  -- `val_execute_on_pe` and the payload of the running hart are actions on the session.
  module _ (payload : Session → Session) (execute_on_pe : ℕ → Session → Session) where
    unfoldable pub dispatch : ℕ → ℕ → ℕ → Session → Session
    dispatch zero i my_index s = s
    dispatch (suc n) i my_index s =
        dispatch n (i + 1) my_index (if i != my_index then execute_on_pe i s else s)

    unfoldable pub run_test_payload : ℕ → ℕ → ℕ → ℕ → Session → Session
    run_test_payload my_index test_num num_hart timeout s =
        let own = payload s in
        let all =
          wait_for_test_completion test_num num_hart timeout (dispatch num_hart 0 my_index own) in
        if num_hart == 1 then own else all

-- The loop of `val_check_for_error`: the status that it ends on, and the index if it is a failure
-- or a skip. `status` is the one read last.
unfoldable pub first_error : ℕ → ℕ → ℕ → Session → ℕ × Option ℕ
first_error zero i status s = (status, none)
first_error (suc n) i status s =
    let value = get_status i s in
    let rest = first_error n (i + 1) value s in
    if is_test_fail_skip value then (value, some i) else rest

-- The end of `val_check_for_error`, the same for one hart and for many.
unfoldable pub judge : ℕ → Session → ℕ × Session
judge status s =
    if is_test_pass status
    then (acs_status_pass, record s { tests_pass = add32 s.tests_pass 1 })
    else if is_test_skip status
    then (acs_status_skip, s)
    else (acs_status_fail, record s { tests_fail = add32 s.tests_fail 1 })

unfoldable pub check_for_error : ℕ → ℕ → Option String → Session → ℕ × Session
check_for_error my_index num_hart ruleid s =
    let own = get_status my_index s in
    let (status, failed) = first_error num_hart 0 0 s in
    let reporter : ℕ = elim failed [ none ↦ my_index | some i ↦ i ] in
    if num_hart == 1
    then judge own (report_status my_index own ruleid s)
    else judge status (report_status reporter status ruleid s)
