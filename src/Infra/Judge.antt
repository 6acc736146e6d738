-- ===== src/Infra/Judge.antt =====
-- `val_check_for_error`: the verdict on a test, from the statuses of its harts.
use Prim.Native.String.{String}
use riscv_server_soc_ts.Prelude.{
  ℕ, zero, suc, ◌+◌, ◌-◌, ◌≤◌, ◌<◌, ◌≡◌, ◌⊎◌, inl, inr, refl, subst, ap, ◌∙◌, arith, ◌==◌,
  if◌then◌else◌, true, false, Bool-cases, ≢→==, Option, none, some, ℕ_discrete,
}
use riscv_server_soc_ts.Bits.{add32}
use riscv_server_soc_ts.Session.{Session, acs_status_pass, acs_status_skip, acs_status_fail}
use riscv_server_soc_ts.Status.{
  get_status, report_status, is_test_pass, is_test_fail, is_test_skip, is_test_fail_skip,
}
use riscv_server_soc_ts.Status.Shared.{OnlyConsole, report_status-OnlyConsole}
use riscv_server_soc_ts.Infra.{first_error, judge, check_for_error}

abbrev IsError : ℕ → Session → Type 0
IsError k s = is_test_fail_skip (get_status k s) ≡ true

abbrev IsClear : ℕ → Session → Type 0
IsClear k s = is_test_fail_skip (get_status k s) ≡ false

-- What the loop stops on: nothing, with the last status read, or the first failure or skip.
abbrev Stops : ℕ → ℕ → ℕ → Session → ℕ × Option ℕ → Type 0
Stops n i status s (v, f) =
    ((f ≡ none)
      × ((k : ℕ) → i ≤ k → k < i + n → IsClear k s)
      × (v ≡ (if n == 0 then status else get_status (i + n - 1) s)))
    ⊎ ((k : ℕ) × (f ≡ some k)
        × (i ≤ k)
        × (k < i + n)
        × (v ≡ get_status k s)
        × IsError k s
        × ((m : ℕ) → i ≤ m → m < k → IsClear m s))

first_error-Stops : (n i status : ℕ) (s : Session) → Stops n i status s (first_error n i status s)
unfolding first_error
first_error-Stops zero i status s = inl (refl, λ k p q. absurd (omega arith), refl)
first_error-Stops (suc n) i status s = elim (Bool-cases (is_test_fail_skip (get_status i s))) [
  | inl bad ↦
      rw bad (inr (i, refl, omega arith, omega arith, refl, bad, λ m p q. absurd (omega arith)))
  | inr good ↦ rw good (elim (first_error-Stops n (i + 1) (get_status i s) s) [
    | inl (f, clear, v) ↦ inl (f, widen good clear, v ∙ last n)
    | inr (k, f, p, q, v, bad, clear) ↦
        inr (k, f, omega arith, omega arith, v, bad, widen_below k good clear)
  ])
]
  where
    step : (m : ℕ) → IsClear i s → i ≤ m → ((i + 1 ≤ m) → IsClear m s) → IsClear m s
    step m good p later = elim (ℕ_discrete i m) [
      | yes same ↦ subst (λ x. IsClear x s) same good
      | no other ↦ later (omega arith)
    ]

    widen :
        IsClear i s
        → ((k : ℕ) → i + 1 ≤ k → k < i + 1 + n → IsClear k s)
        → (k : ℕ) → i ≤ k
        → k < i + suc n
        → IsClear k s
    widen good clear k p q = step k good p (λ p'. clear k p' (omega arith))

    widen_below :
        (k : ℕ)
        → IsClear i s
        → ((m : ℕ) → i + 1 ≤ m → m < k → IsClear m s)
        → (m : ℕ) → i ≤ m
        → m < k
        → IsClear m s
    widen_below k good clear m p q = step m good p (λ p'. clear m p' q)

    last :
        (n : ℕ)
        → (if n == 0 then get_status i s else get_status (i + 1 + n - 1) s)
          ≡ (if suc n == 0 then status else get_status (i + suc n - 1) s)
    last zero = ground arith
    last (suc n) = ground arith

-- What a verdict leaves in the counters: one more pass, one more failure, or neither for a skip.
abbrev pub Judged : ℕ → Session → ℕ × Session → Type 0
Judged status s (r, t) =
    ((is_test_pass status ≡ true)
      × (r ≡ acs_status_pass)
      × (t.tests_pass ≡ add32 s.tests_pass 1)
      × (t.tests_fail ≡ s.tests_fail))
    ⊎ ((is_test_skip status ≡ true)
        × (r ≡ acs_status_skip)
        × (t.tests_pass ≡ s.tests_pass)
        × (t.tests_fail ≡ s.tests_fail))
    ⊎ ((is_test_pass status ≡ false)
        × (is_test_skip status ≡ false)
        × (r ≡ acs_status_fail)
        × (t.tests_pass ≡ s.tests_pass)
        × (t.tests_fail ≡ add32 s.tests_fail 1))

judge-Judged : (status : ℕ) (s t : Session) → OnlyConsole s t → Judged status s (judge status t)
unfolding judge
judge-Judged status s t h =
    let p : t.tests_pass ≡ s.tests_pass = ap (λ (u : Session). u.tests_pass) h.same in
    let f : t.tests_fail ≡ s.tests_fail = ap (λ (u : Session). u.tests_fail) h.same in ground arith

-- A test of one hart is judged by the status of the running hart alone: a pass counts as a pass, a
-- skip counts as nothing, and any other status counts as a failure.
pub check_for_error_one :
    (my_index : ℕ) (ruleid : Option String) (s : Session)
    → Judged (get_status my_index s) s (check_for_error my_index 1 ruleid s)
unfolding check_for_error
check_for_error_one my_index ruleid s =
    judge-Judged (get_status my_index s) s _
      (report_status-OnlyConsole s my_index (get_status my_index s) ruleid)

-- Every hart of the test has a result.
abbrev pub HasResult : ℕ → Session → Type 0
HasResult k s = (is_test_pass (get_status k s) ≡ true) ⊎ IsError k s

-- The verdict on several harts is that of the first one that failed or skipped, and a pass where all
-- of them passed.
abbrev pub Verdict : ℕ → Session → ℕ × Session → Type 0
Verdict num_hart s (r, t) =
    ((r ≡ acs_status_pass)
      × ((k : ℕ) → k < num_hart → is_test_pass (get_status k s) ≡ true)
      × (t.tests_pass ≡ add32 s.tests_pass 1)
      × (t.tests_fail ≡ s.tests_fail))
    ⊎ ((k : ℕ) × (k < num_hart)
        × ((m : ℕ) → m < k → is_test_pass (get_status m s) ≡ true)
        × (((is_test_skip (get_status k s) ≡ true)
              × (r ≡ acs_status_skip)
              × (t.tests_pass ≡ s.tests_pass)
              × (t.tests_fail ≡ s.tests_fail))
            ⊎ ((is_test_fail (get_status k s) ≡ true)
                × (r ≡ acs_status_fail)
                × (t.tests_pass ≡ s.tests_pass)
                × (t.tests_fail ≡ add32 s.tests_fail 1))))

passed : (k : ℕ) (s : Session) → HasResult k s → IsClear k s → is_test_pass (get_status k s) ≡ true
passed k s h c = ground arith

module _ (num_hart : ℕ) (s : Session) (status : ℕ) (o : ℕ × Session) where
  pass-Verdict :
      Judged status s o
      → is_test_pass status ≡ true
      → ((k : ℕ) → k < num_hart → is_test_pass (get_status k s) ≡ true)
      → Verdict num_hart s o
  pass-Verdict (inl (_, r, p, f)) h all = inl (r, all, p, f)
  pass-Verdict (inr (inl (skip, _, _, _))) h all = absurd (ground arith)
  pass-Verdict (inr (inr (no_pass, _, _, _, _))) h all = cc

  error-Verdict :
      (k : ℕ)
      → k < num_hart
      → ((m : ℕ) → m < k → is_test_pass (get_status m s) ≡ true)
      → status ≡ get_status k s
      → IsError k s
      → Judged status s o
      → Verdict num_hart s o
  error-Verdict k lt before e bad (inl (pass, _, _, _)) = absurd (ground arith)
  error-Verdict k lt before e bad (inr (inl (skip, r, p, f))) =
      inr (k, lt, before, inl (ground arith, r, p, f))
  error-Verdict k lt before e bad (inr (inr (_, no_skip, r, p, f))) =
      inr (k, lt, before, inr (ground arith, r, p, f))

-- A test of several harts, all with a result, passes exactly when every hart passed; else the first
-- hart that failed or skipped decides between failure and skip, and the counters follow the verdict.
-- The comment of the code promises the last failed hart instead: a skip in front of a failure hides
-- it here.
pub check_for_error_many :
    (my_index num_hart : ℕ) (ruleid : Option String) (s : Session)
    → 1 < num_hart
    → ((k : ℕ) → k < num_hart → HasResult k s)
    → Verdict num_hart s (check_for_error my_index num_hart ruleid s)
unfolding check_for_error
check_for_error_many my_index num_hart ruleid s many results =
    rw (≢→== num_hart 1 (omega arith)) (elim (first_error-Stops num_hart 0 0 s) [
      | inl (_, clear, v) ↦
          let all = λ (k : ℕ) (lt : k < num_hart).
            passed k s (results k lt) (clear k (omega arith) (omega arith)) in
          let e : status ≡ get_status (num_hart - 1) s = ground arith in
          pass-Verdict num_hart s status out judged (rw e (all (num_hart - 1) (omega arith))) all
      | inr (k, _, _, lt, v, bad, clear) ↦
          error-Verdict num_hart s status out k (omega arith)
            (λ m p. passed m s (results m (omega arith)) (clear m (omega arith) p)) v bad judged
    ])
  where
    status : ℕ
    status = (first_error num_hart 0 0 s).0

    reporter : ℕ
    reporter = elim (first_error num_hart 0 0 s).1 [ none ↦ my_index | some i ↦ i ]

    out : ℕ × Session
    out = judge status (report_status reporter status ruleid s)

    judged : Judged status s out
    judged = judge-Judged status s _ (report_status-OnlyConsole s reporter status ruleid)
