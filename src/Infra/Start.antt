-- ===== src/Infra/Start.antt =====
-- `val_initialize_test`: when a test starts, and the state that it starts in or is skipped in.
use Prim.Native.String.{String}
use riscv_server_soc_ts.Prelude.{
  ℕ, zero, suc, ◌+◌, ◌%◌, ◌^◌, ◌≤◌, ◌<◌, ◌≡◌, ◌⊎◌, refl, ap, ◌∙◌, arith, ◌==◌, ltb, leb, ◌&&◌,
  if◌then◌else◌, List, [], ◌∷◌, Any, length, ◌↔◌, true, false, Bool, none,
}
use riscv_server_soc_ts.Bits.{add32, sub32}
use riscv_server_soc_ts.Session.{Session, print, acs_status_skip, acs_status_pass}
use riscv_server_soc_ts.Status.{
  result_pending, result_skip, bsa_acs_start, set_status, get_status, report_status,
}
use riscv_server_soc_ts.Status.Shared.{
  OnlyConsole, OnlyConsole-refl, OnlyConsole-trans, OnlyConsole-print, report_status-OnlyConsole,
  get_status-set_status,
}
use riscv_server_soc_ts.Infra.{
  mentions, set_all, override_tests, override_modules, has_selection, initialize_test,
}

-- The number is in the last 99 of the module that starts at `base`.
abbrev pub AfterBase : ℕ → ℕ → Type 0
AfterBase test_num base = (0 < sub32 test_num base) × (sub32 test_num base < 100)

-- The `-t` options name the test, or the `-m` options a module of it.
abbrev pub Selected : ℕ → Session → Type 0
Selected test_num s =
    Any (λ t. test_num ≡ t) s.execute_tests ⊎ Any (AfterBase test_num) s.execute_modules

mentions_iff : (xs : List ℕ) (n : ℕ) → (mentions xs n ≡ true) ↔ Any (λ x. x ≡ n) xs
unfolding mentions
mentions_iff [] n = ground arith
mentions_iff (x ∷ xs) n = ground (arith, mentions_iff xs n)

override_tests_pos :
    (ts : List ℕ) (n acc : ℕ)
    → acc + length ts < 2 ^ 32
    → ((0 < override_tests ts n acc) ↔ ((0 < acc) ⊎ Any (λ t. n ≡ t) ts))
      × (override_tests ts n acc ≤ acc + length ts)
unfolding override_tests
override_tests_pos [] n acc h = ground arith
override_tests_pos (t ∷ ts) n acc h = ground (
  arith,
  override_tests_pos ts n acc (omega arith),
  override_tests_pos ts n (add32 acc 1) (omega arith),
)

override_modules_pos :
    (ms : List ℕ) (n acc : ℕ)
    → acc + length ms < 2 ^ 32
    → (0 < override_modules ms n acc) ↔ ((0 < acc) ⊎ Any (AfterBase n) ms)
unfolding override_modules
override_modules_pos [] n acc h = ground arith
override_modules_pos (m ∷ ms) n acc h = ground (
  arith,
  override_modules_pos ms n acc (omega arith),
  override_modules_pos ms n (add32 acc 1) (omega arith),
)

pub set_all_status :
    (n i status : ℕ) (s : Session) (k : ℕ)
    → get_status k (set_all n i status s)
      ≡ (if leb i k && ltb k (i + n) then status % 2 ^ 32 else get_status k s)
unfolding set_all
set_all_status zero i status s k = ground arith
set_all_status (suc n) i status s k = ground (
  arith,
  set_all_status n (i + 1) status (set_status i status s) k,
  get_status-set_status i status s k,
)

-- What `set_all` leaves alone.
set_all_total :
    (n i status : ℕ) (s : Session)
    → ((set_all n i status s).tests_total ≡ s.tests_total)
      × ((set_all n i status s).override_skip ≡ s.override_skip)
unfolding set_all set_status
set_all_total zero i status s = (refl, refl)
set_all_total (suc n) i status s = set_all_total n (i + 1) status (set_status i status s)

-- The choice that the call makes, for what its two tests decide.
module _ (named selection : Bool) (count : ℕ) (Named Chosen : Type 0) (a b c : Session) where
  abbrev outcome : ℕ × Session
  outcome =
      if named
      then (acs_status_skip, a)
      else if count == 0 && selection
      then (acs_status_skip, b)
      else (acs_status_pass, c)

  outcome_iff :
      (named ≡ true) ↔ Named
      → (0 < count) ↔ Chosen
      → ((outcome.0 ≡ acs_status_pass) ↔ (¬ Named × ((selection ≡ false) ⊎ Chosen)))
        × ((outcome.0 ≡ acs_status_pass) ⊎ (outcome.0 ≡ acs_status_skip))
  outcome_iff hn hc = ground arith

  outcome_state :
      (P Q : Session → Type 0)
      → P c
      → Q a
      → Q b
      → (outcome.0 ≡ acs_status_pass → P outcome.1) × (outcome.0 ≡ acs_status_skip → Q outcome.1)
  outcome_state P Q pc qa qb = go named (count == 0 && selection)
    where
      go :
          (x y : Bool)
          → let r : ℕ × Session =
              if x
              then (acs_status_skip, a)
              else if y
              then (acs_status_skip, b)
              else (acs_status_pass, c) in
            (r.0 ≡ acs_status_pass → P r.1) × (r.0 ≡ acs_status_skip → Q r.1)
      go true y = (λ e. absurd (omega arith), λ e. qa)
      go false true = (λ e. absurd (omega arith), λ e. qb)
      go false false = (λ e. pc, λ e. absurd (omega arith))

counts_iff :
    (c d : ℕ) {T M : Type 0} → (0 < c) ↔ ((0 < 0) ⊎ T) → (0 < d) ↔ ((0 < c) ⊎ M) → (0 < d) ↔ (T ⊎ M)
counts_iff c d h k = ground arith

-- The test starts exactly when no skip option names it, and it is selected or nothing is; else the
-- call reports a skip. (The option lists are those of a 32-bit count.)
pub initialize_test_starts :
    (index test_num : ℕ) (desc : String) (num_hart : ℕ) (s : Session)
    → length s.execute_tests + length s.execute_modules < 2 ^ 32
    → (((initialize_test index test_num desc num_hart s).0 ≡ acs_status_pass) ↔ (
        ¬ Any (λ x. x ≡ test_num) s.skip_test_num
        × ((has_selection s ≡ false) ⊎ Selected test_num s)))
      × (((initialize_test index test_num desc num_hart s).0 ≡ acs_status_pass)
          ⊎ ((initialize_test index test_num desc num_hart s).0 ≡ acs_status_skip))
unfolding initialize_test
initialize_test_starts index test_num desc num_hart s h =
    let tests = override_tests_pos s.execute_tests test_num 0 (omega arith) in
    let modules =
      override_modules_pos s.execute_modules test_num (override_tests s.execute_tests test_num 0)
        (omega arith) in
    outcome_iff (mentions s.skip_test_num test_num) (has_selection s) _ _ (Selected test_num s) _ _
      _ (mentions_iff s.skip_test_num test_num) (counts_iff _ _ tests.0 modules)

-- Every hart that runs a started test is pending, every other slot keeps its status, and the test is
-- counted, with its report enabled.
abbrev pub Started : ℕ → ℕ → Session → Session → Type 0
Started test_num num_hart s t =
    ((k : ℕ)
      → get_status k t
        ≡ (if ltb k num_hart then result_pending test_num % 2 ^ 32 else get_status k s))
    × (t.tests_total ≡ add32 s.tests_total 1)
    × (t.override_skip ≡ 1)

-- The slot of the running hart holds a skip of the test, the other harts that would have run it are
-- pending, the other slots keep their status, and no test is counted.
abbrev pub Skipped : ℕ → ℕ → ℕ → Session → Session → Type 0
Skipped index test_num num_hart s t =
    ((k : ℕ)
      → get_status k t ≡ (
          if k == index
          then result_skip test_num 0 % 2 ^ 32
          else if ltb k num_hart
          then result_pending test_num % 2 ^ 32
          else get_status k s))
    × (t.tests_total ≡ s.tests_total)

-- A test that starts leaves each of its harts pending and every other slot as it was, and it is
-- counted once, with its report enabled. A test that is skipped leaves a skip in the slot of the
-- running hart, its other harts pending and every other slot as it was, and it is not counted.
pub initialize_test_state :
    (index test_num : ℕ) (desc : String) (num_hart : ℕ) (s : Session)
    → let (r, t) = initialize_test index test_num desc num_hart s in
      (r ≡ acs_status_pass → Started test_num num_hart s t)
      × (r ≡ acs_status_skip → Skipped index test_num num_hart s t)
unfolding initialize_test get_status set_status
initialize_test_state index test_num desc num_hart s =
    outcome_state (mentions s.skip_test_num test_num) (has_selection s) chosen (Unit {0}) (Unit {0})
      skip (record skip { override_skip = chosen })
      (record t { tests_total = add32 t.tests_total 1 }) (Started test_num num_hart s)
      (Skipped index test_num num_hart s)
      (started, ap (λ (t : ℕ). add32 t 1) total, ap (λ (t : Session). t.override_skip) frame.same)
      (skipped, skip_total) (skipped, skip_total)
  where
    chosen : ℕ
    chosen = override_modules s.execute_modules test_num (override_tests s.execute_tests test_num 0)

    pending : Session
    pending = set_all num_hart 0 (result_pending test_num) (record s { override_skip = 0 })

    kept : (pending.tests_total ≡ s.tests_total) × (pending.override_skip ≡ 0)
    kept = set_all_total num_hart 0 (result_pending test_num) (record s { override_skip = 0 })

    skip : Session
    skip = set_status index (result_skip test_num 0) pending

    selected : Session
    selected = record pending { override_skip = 1 }

    printed : Session
    printed = print 3 desc 0 (print 5 "%4d : " test_num selected)

    t : Session
    t = report_status 0 (bsa_acs_start test_num) none printed

    frame : OnlyConsole selected t
    frame =
        OnlyConsole-trans selected
          (OnlyConsole-print selected 3 desc 0
            (OnlyConsole-print selected 5 _ test_num (OnlyConsole-refl selected)))
          (report_status-OnlyConsole printed 0 (bsa_acs_start test_num) none)

    total : t.tests_total ≡ s.tests_total
    total = ap (λ (u : Session). u.tests_total) frame.same ∙ kept.0

    skip_total : skip.tests_total ≡ s.tests_total
    skip_total = kept.0

    pending_status :
        (k : ℕ)
        → get_status k pending
          ≡ (if ltb k num_hart then result_pending test_num % 2 ^ 32 else get_status k s)
    pending_status k = ground (
      arith,
      set_all_status num_hart 0 (result_pending test_num) (record s { override_skip = 0 }) k,
    )

    started :
        (k : ℕ)
        → get_status k t
          ≡ (if ltb k num_hart then result_pending test_num % 2 ^ 32 else get_status k s)
    started k = ap (get_status k) frame.same ∙ pending_status k

    skipped :
        (k : ℕ)
        → get_status k skip ≡ (
            if k == index
            then result_skip test_num 0 % 2 ^ 32
            else if ltb k num_hart
            then result_pending test_num % 2 ^ 32
            else get_status k s)
    skipped k =
        ground
          (arith, get_status-set_status index (result_skip test_num 0) pending k, pending_status k)
