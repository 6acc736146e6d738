-- ===== src/Infra/Select.antt =====
-- `val_check_skip_module` against what the options ask for.
use riscv_server_soc_ts.Prelude.{
  ℕ, ◌+◌, ◌^◌, ◌≤◌, ◌<◌, ◌≡◌, ◌⊎◌, arith, List, [], ◌∷◌, Any, length, ◌↔◌, true,
}
use riscv_server_soc_ts.Bits.{add32, sub32}
use riscv_server_soc_ts.Session.{Session, acs_status_skip, acs_status_pass}
use riscv_server_soc_ts.Infra.{count_modules, count_tests, has_selection, check_skip_module}

-- A test number lies in the hundred of a module, counted in 32 bits.
abbrev pub InModule : ℕ → ℕ → Type 0
InModule base test_num = sub32 test_num base < 100

-- The options name the module, or a test of it.
abbrev pub Wanted : ℕ → Session → Type 0
Wanted base s = Any (λ m. m ≡ base) s.execute_modules ⊎ Any (InModule base) s.execute_tests

count_modules_zero :
    (ms : List ℕ) (base acc : ℕ)
    → acc + length ms < 2 ^ 32
    → (count_modules ms base acc ≡ 0) ↔ ((acc ≡ 0) × ¬ Any (λ m. m ≡ base) ms)
unfolding count_modules
count_modules_zero [] base acc h = ground arith
count_modules_zero (m ∷ ms) base acc h = ground (
  arith,
  count_modules_zero ms base acc (omega arith),
  count_modules_zero ms base (add32 acc 1) (omega arith),
)

count_modules_le :
    (ms : List ℕ) (base acc : ℕ)
    → acc + length ms < 2 ^ 32
    → count_modules ms base acc ≤ acc + length ms
unfolding count_modules
count_modules_le [] base acc h = omega arith
count_modules_le (m ∷ ms) base acc h = ground (
  arith,
  count_modules_le ms base acc (omega arith),
  count_modules_le ms base (add32 acc 1) (omega arith),
)

count_tests_zero :
    (ts : List ℕ) (base acc : ℕ)
    → acc + length ts < 2 ^ 32
    → (count_tests ts base acc ≡ 0) ↔ ((acc ≡ 0) × ¬ Any (InModule base) ts)
unfolding count_tests
count_tests_zero [] base acc h = ground arith
count_tests_zero (t ∷ ts) base acc h = ground (
  arith,
  count_tests_zero ts base acc (omega arith),
  count_tests_zero ts base (add32 acc 1) (omega arith),
)

-- A module is skipped exactly when some selection option was given and none of them names the
-- module or a test of it; otherwise the check passes. (The option lists are those of a 32-bit count.)
pub check_skip_module_iff :
    (base : ℕ) (s : Session)
    → length s.execute_modules + length s.execute_tests < 2 ^ 32
    → ((check_skip_module base s ≡ acs_status_skip) ↔ ((has_selection s ≡ true) × ¬ Wanted base s))
      × ((check_skip_module base s ≡ acs_status_skip)
          ⊎ (check_skip_module base s ≡ acs_status_pass))
unfolding check_skip_module
check_skip_module_iff base s h = ground (
  arith,
  count_modules_zero s.execute_modules base 0 (omega arith),
  count_modules_le s.execute_modules base 0 (omega arith),
  count_tests_zero s.execute_tests base (count_modules s.execute_modules base 0)
      (omega (arith, count_modules_le s.execute_modules base 0 (omega arith))),
)
