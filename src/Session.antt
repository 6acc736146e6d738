-- ===== src/Session.antt =====
-- The globals of the validation layer (val/include/bsa_acs_cfg.h, val/include/bsa_acs_val.h) that the
-- test flow reads and writes, and the console behind `val_print` (val/src/acs_test_infra.c).
use Prim.Native.String.{String}
use riscv_server_soc_ts.Prelude.{ℕ, List, ◌∷◌, leb, ◌==◌, if◌then◌else◌, Option, some}

-- VAL_SHARED_MEM_t: one slot per hart.
pub record SharedMem : Type 0 where
  pub data0 : ℕ
  pub data1 : ℕ
  pub status : ℕ

-- One call of the platform's print function: the format string, which may be NULL, and its argument.
pub record Printed : Type 0 where
  pub text : Option String
  pub arg : ℕ

-- The shared memory is addressed by slot, past the last allocated slot too, as the C code does. An
-- option list is the first `g_num_…` entries of its array. The console has its latest line first.
pub record Session : Type 0 where
  pub print_level : ℕ
  pub override_skip : ℕ
  pub skip_test_num : List ℕ
  pub execute_tests : List ℕ
  pub execute_modules : List ℕ
  pub tests_total : ℕ
  pub tests_pass : ℕ
  pub tests_fail : ℕ
  pub curr_module : ℕ
  pub shared : ℕ → SharedMem
  pub console : List Printed

abbrev pub acs_print_err : ℕ
acs_print_err = 5

abbrev pub acs_print_warn : ℕ
acs_print_warn = 4

abbrev pub acs_print_test : ℕ
acs_print_test = 3

abbrev pub acs_print_debug : ℕ
acs_print_debug = 2

abbrev pub acs_print_info : ℕ
acs_print_info = 1

abbrev pub acs_status_fail : ℕ
acs_status_fail = 0x90000000

abbrev pub acs_status_err : ℕ
acs_status_err = 0xEDCB1234

abbrev pub acs_status_skip : ℕ
acs_status_skip = 0x10000000

abbrev pub acs_status_pass : ℕ
acs_status_pass = 0

-- val_print: the platform's print function gets the pointer to the format as it is.
unfoldable pub print_format : ℕ → Option String → ℕ → Session → Session
print_format level string arg s =
    if leb s.print_level level
    then record s { console = record { text = string; arg = arg } ∷ s.console }
    else s

-- val_print of a format that is not NULL.
unfoldable pub print : ℕ → String → ℕ → Session → Session
print level string arg s = print_format level (some string) arg s

-- Writing one slot of the shared memory.
abbrev pub update : (ℕ → SharedMem) → ℕ → SharedMem → ℕ → SharedMem
update mem index slot i = if i == index then slot else mem i

-- val_print_test_start
unfoldable pub print_test_start : String → Session → Session
print_test_start name s =
    print acs_print_test " tests ***\n" 0
      (print acs_print_test name 0 (print acs_print_test "\n      *** Starting " 0 s))

-- val_print_test_end
unfoldable pub print_test_end : ℕ → String → Session → Session
print_test_end status name s =
    let head = print acs_print_test "\n      " 0 s in
    let body =
      if status == acs_status_pass
      then print acs_print_test " tests passed." 0
          (print acs_print_test name 0 (print acs_print_test "All " 0 head))
      else print acs_print_test " tests failed or were skipped." 0
          (print acs_print_test name 0 (print acs_print_test "One or more " 0 head)) in
    print acs_print_test "\n" 0 body
