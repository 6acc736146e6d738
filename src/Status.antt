-- ===== src/Status.antt =====
-- val/src/acs_status.c and the result codes of val/include/bsa_acs_common.h: how a hart's result is
-- packed into 32 bits, stored in the shared memory and reported.
pub mod Codec
pub mod Shared
use Prim.Native.String.{String}
use riscv_server_soc_ts.Prelude.{
  ℕ, ◌*◌, ◌/◌, ◌%◌, ◌^◌, Bool, ◌||◌, ◌==◌, if◌then◌else◌, Option, none, some, bit_or,
}
use riscv_server_soc_ts.Bits.{field, low_bits, shl32}
use riscv_server_soc_ts.Session.{
  Session, SharedMem, print, print_format, update, acs_print_err, acs_print_warn, acs_print_test,
  acs_print_debug, acs_print_info,
}

-- The states of a test: TEST_START_VAL and the others.
abbrev pub test_start_val : ℕ
test_start_val = 1

abbrev pub test_end_val : ℕ
test_end_val = 2

abbrev pub test_pass_val : ℕ
test_pass_val = 4

abbrev pub test_fail_val : ℕ
test_fail_val = 8

abbrev pub test_skip_val : ℕ
test_skip_val = 9

abbrev pub test_pending_val : ℕ
test_pending_val = 0xA

-- `((state) << STATE_BIT) | ((test_num) << TEST_NUM_BIT) | (status)`, in 32 bits.
unfoldable pub result : ℕ → ℕ → ℕ → ℕ
result state test_num status = bit_or (bit_or (shl32 state 28) (shl32 test_num 12)) status

unfoldable pub result_pass : ℕ → ℕ → ℕ
result_pass test_num status = result test_pass_val test_num status

unfoldable pub result_fail : ℕ → ℕ → ℕ
result_fail test_num status = result test_fail_val test_num status

unfoldable pub result_skip : ℕ → ℕ → ℕ
result_skip test_num status = result test_skip_val test_num status

unfoldable pub result_pending : ℕ → ℕ
result_pending test_num = bit_or (shl32 test_pending_val 28) (shl32 test_num 12)

unfoldable pub bsa_acs_start : ℕ → ℕ
bsa_acs_start test_num = bit_or (shl32 test_start_val 28) (shl32 test_num 12)

-- `(value >> STATE_BIT) & STATE_MASK`
abbrev pub state_of : ℕ → ℕ
state_of value = field value 28 4

abbrev pub is_test_start : ℕ → Bool
is_test_start value = state_of value == test_start_val

abbrev pub is_test_end : ℕ → Bool
is_test_end value = state_of value == test_end_val

abbrev pub is_result_pending : ℕ → Bool
is_result_pending value = state_of value == test_pending_val

abbrev pub is_test_pass : ℕ → Bool
is_test_pass value = state_of value == test_pass_val

abbrev pub is_test_fail : ℕ → Bool
is_test_fail value = state_of value == test_fail_val

abbrev pub is_test_skip : ℕ → Bool
is_test_skip value = state_of value == test_skip_val

abbrev pub is_test_fail_skip : ℕ → Bool
is_test_fail_skip value = is_test_fail value || is_test_skip value

-- The lines of a failed or skipped test that has a rule id.
unfoldable pub report_rule : ℕ → ℕ → String → Session → Session
report_rule level status ruleid s =
    print level "\n       Checkpoint -- %2d                      " (low_bits status 12)
      (print acs_print_debug ruleid 0 (print acs_print_debug "\n       " 0 s))

unfoldable pub report_rule? : ℕ → ℕ → Option String → Session → Session
report_rule? level status none s = s
report_rule? level status (some ruleid) s = report_rule level status ruleid s

-- `val_print (level, ruleid, 0)` of a rule id that may be NULL, which is passed on as the format.
unfoldable pub print_id : ℕ → Option String → Session → Session
print_id level ruleid s = print_format level ruleid 0 s

-- `val_report_status` past its first test, that no user option overrides the test.
unfoldable pub report_body : ℕ → ℕ → Option String → Session → Session
report_body index status ruleid s =
    let failed =
      if is_test_fail status
      then print acs_print_err "\n       Failed on HART - %4d" index s
      else s in
    if is_test_pass status
    then print acs_print_test "     : Result:  PASS\n" status (
        print acs_print_debug "\n                                  " 0
          (print_id acs_print_debug ruleid (print acs_print_debug "\n       " 0 failed)))
    else if is_test_fail status
    then print acs_print_err "     : Result:  FAIL\n" 0
        (report_rule? acs_print_err status ruleid failed)
    else if is_test_skip status
    then print acs_print_warn "     : Result:  SKIPPED\n" 0
        (report_rule? acs_print_warn status ruleid failed)
    else if is_test_start status
    then print acs_print_info "\n       START" status failed
    else if is_test_end status
    then print acs_print_info "       END\n\n" status failed
    else print acs_print_err ": Result:  %8x\n" status failed

unfoldable pub report_status : ℕ → ℕ → Option String → Session → Session
report_status index status ruleid s =
    if s.override_skip == 0 then s else report_body index status ruleid s

-- The cache maintenance around the accesses has no effect on the values.
unfoldable pub set_status : ℕ → ℕ → Session → Session
set_status index status s = record s {
  shared = update s.shared index (record (s.shared index) { status = status % 2 ^ 32 });
}

unfoldable pub get_status : ℕ → Session → ℕ
get_status index s = (s.shared index).status
