-- ===== src/Execute/All.antt =====
-- What the executors have in common, over all of them.
use Prim.Native.String.{String}
use riscv_server_soc_ts.Prelude.{
  ℕ, ◌≡◌, ◌≢◌, refl, ap, ◌∙◌, ◌⊎◌, inl, inr, ◌==◌, Bool, true, false, not, ◌&&◌, ◌||◌, Bool-cases,
  ≢→==, if◌then◌else◌, List, arith, ℕ_discrete,
}
use riscv_server_soc_ts.Session.{
  Session, print, acs_print_info, acs_print_warn, acs_status_pass, acs_status_skip,
}
use riscv_server_soc_ts.Status.Shared.{OnlyConsole, OnlyConsole-refl, OnlyConsole-print}
use riscv_server_soc_ts.Infra.{mentions, check_skip_module}
use riscv_server_soc_ts.Execute.{Target, View, begin, unless_skipped, run_module}
use riscv_server_soc_ts.Execute.Modules.{
  hart_views, memory_views, iic_views, smmu_views, timer_views, wakeup_views, peripheral_views,
  wd_views, pcie_views, qos_views, mng_views, iommu_views, hart_execute_tests, memory_execute_tests,
  iic_execute_tests, smmu_execute_tests, timer_execute_tests, wakeup_execute_tests,
  peripheral_execute_tests, wd_execute_tests, pcie_execute_tests, qos_execute_tests,
  mng_execute_tests, iommu_execute_tests, no_smmu, no_watchdog, bad_hierarchy, no_ecam,
}
use riscv_server_soc_ts.Execute.Verdict.{Ending, status_of, worst, Shown, AllEnd, run_module-worst}

pub data TestModule : Type 0 where
  hart memory iic smmu timer wakeup peripheral wd pcie qos mng iommu : TestModule

unfoldable pub base : TestModule → ℕ
base hart = 0
base memory = 100
base iic = 200
base smmu = 300
base timer = 400
base wakeup = 500
base peripheral = 600
base wd = 700
base pcie = 800
base qos = 1000
base mng = 1100
base iommu = 1200

-- The name and the number that a module's tests start with.
unfoldable pub title : TestModule → String × ℕ
title hart = ("HART", 0)
title memory = ("Memory Map", 1)
title iic = ("IIC", 2)
title smmu = ("SMMU", 3)
title timer = ("Timer", 4)
title wakeup = ("Wakeup semantic", 5)
title peripheral = ("Peripheral", 6)
title wd = ("Watchdog", 7)
title pcie = ("PCIe", 8)
title qos = ("QoS", 0)
title mng = ("MNG", 0)
title iommu = ("IOMMU", 10)

module _ (t : Target) where
  unfoldable pub views : TestModule → List View
  views hart = hart_views t
  views memory = memory_views t
  views iic = iic_views t
  views smmu = smmu_views t
  views timer = timer_views t
  views wakeup = wakeup_views t
  views peripheral = peripheral_views t
  views wd = wd_views t
  views pcie = pcie_views t
  views qos = qos_views t
  views mng = mng_views t
  views iommu = iommu_views t

  -- The target has nothing that the module could test.
  unfoldable pub is_absent : TestModule → Bool
  is_absent smmu = t.num_smmu == 0
  is_absent wd = not t.build_sbsa && t.wd_count == 0
  is_absent pcie = t.bdf_table_list_flag == 1 || t.num_ecam == 0
  is_absent _ = false

  -- The options and the target leave the module to be run.
  abbrev pub IsDue : TestModule → Session → Type 0
  IsDue m s =
      (mentions s.skip_test_num (base m) ≡ false)
      × (check_skip_module (base m) s ≡ acs_status_pass)
      × (is_absent m ≡ false)

module _ (entry : String → Session → ℕ × Session) (t : Target) where
  unfoldable pub execute_tests : TestModule → Session → ℕ × Session
  execute_tests hart = hart_execute_tests entry t
  execute_tests memory = memory_execute_tests entry t
  execute_tests iic = iic_execute_tests entry t
  execute_tests smmu = smmu_execute_tests entry t
  execute_tests timer = timer_execute_tests entry t
  execute_tests wakeup = wakeup_execute_tests entry t
  execute_tests peripheral = peripheral_execute_tests entry t
  execute_tests wd = wd_execute_tests entry t
  execute_tests pcie = pcie_execute_tests entry t
  execute_tests qos = qos_execute_tests entry t
  execute_tests mng = mng_execute_tests entry t
  execute_tests iommu = iommu_execute_tests entry t

unless_due :
    (b : ℕ) (text : String) (rest : Session → ℕ × Session) (s : Session)
    → mentions s.skip_test_num b ≡ false
    → check_skip_module b s ≡ acs_status_pass
    → unless_skipped b text rest s ≡ rest s
unfolding unless_skipped
unless_due b text rest s unnamed wanted = rw (unnamed, wanted) refl

unless_not :
    (b : ℕ) (text : String) (rest : Session → ℕ × Session) (s : Session)
    → (mentions s.skip_test_num b ≡ true) ⊎ (check_skip_module b s ≢ acs_status_pass)
    → unless_skipped b text rest s ≡ (acs_status_skip, print acs_print_info text 0 s)
unfolding unless_skipped
unless_not b text rest s (inl named) = rw named refl
unless_not b text rest s (inr unwanted) =
    rw (≢→== (check_skip_module b s) acs_status_pass unwanted)
      (if-same (mentions s.skip_test_num b))
  where
    if-same : (c : Bool) {r : ℕ × Session} → (if c then r else r) ≡ r
    if-same true = refl
    if-same false = refl

or_true : (b c : Bool) → b ≡ false → b || c ≡ true → c ≡ true
or_true b c g h = ground arith

or_false : (b c : Bool) → b || c ≡ false → (b ≡ false) × (c ≡ false)
or_false b c h = ground arith

module _ (entry : String → Session → ℕ × Session) (t : Target) where
  due_worst :
      (views : List View) (name : String) (number : ℕ) (end_name : String) (b : ℕ) (text : String)
      (rest : Session → ℕ × Session) (s : Session)
      → AllEnd entry
      → mentions s.skip_test_num b ≡ false
      → check_skip_module b s ≡ acs_status_pass
      → rest s ≡ run_module entry name number end_name views s
      → (es : List Ending) × (u : Session) × Shown entry views (begin name number s) es u
        × ((unless_skipped b text rest s).0 ≡ status_of (worst es))
  due_worst vs name number end_name b text rest s ends unnamed wanted here =
      let (es, u, run, e) = run_module-worst entry ends vs s name number end_name in
      (es, u, run, ap (λ (r : ℕ × Session). r.0) (unless_due _ _ _ s unnamed wanted ∙ here ∙ e))

  -- A module that is due runs every test of the views shown, in order, and its status is that of the
  -- worst of them: failed if one failed, else skipped if one was skipped, else passed. (Each test ends
  -- in one of the three.)
  pub execute_tests_worst :
      (m : TestModule) (s : Session)
      → AllEnd entry
      → IsDue t m s
      → (es : List Ending) × (u : Session) × Shown entry
          (views t m)
          (begin (title m).0 (title m).1 s)
          es
          u
        × ((execute_tests entry t m s).0 ≡ status_of (worst es))
  unfolding execute_tests views title is_absent base hart_execute_tests memory_execute_tests
      iic_execute_tests smmu_execute_tests timer_execute_tests wakeup_execute_tests
      peripheral_execute_tests wd_execute_tests pcie_execute_tests qos_execute_tests
      mng_execute_tests iommu_execute_tests
  execute_tests_worst hart s ends (unnamed, wanted, _) =
      due_worst (hart_views t) "HART" 0 "HART" _ _ _ s ends unnamed wanted refl
  execute_tests_worst memory s ends (unnamed, wanted, _) =
      due_worst (memory_views t) "Memory Map" 1 "Memory" _ _ _ s ends unnamed wanted refl
  execute_tests_worst iic s ends (unnamed, wanted, _) =
      due_worst (iic_views t) "IIC" 2 "IIC" _ _ _ s ends unnamed wanted refl
  execute_tests_worst smmu s ends (unnamed, wanted, there) =
      due_worst (smmu_views t) "SMMU" 3 "SMMU" _ _ _ s ends unnamed wanted (rw there refl)
  execute_tests_worst timer s ends (unnamed, wanted, _) =
      due_worst (timer_views t) "Timer" 4 "Timer" _ _ _ s ends unnamed wanted refl
  execute_tests_worst wakeup s ends (unnamed, wanted, _) =
      due_worst (wakeup_views t) "Wakeup semantic" 5 "Wakeup" _ _ _ s ends unnamed wanted refl
  execute_tests_worst peripheral s ends (unnamed, wanted, _) =
      due_worst (peripheral_views t) "Peripheral" 6 "Peripheral" _ _ _ s ends unnamed wanted refl
  execute_tests_worst wd s ends (unnamed, wanted, there) =
      due_worst (wd_views t) "Watchdog" 7 "Watchdog" _ _ _ s ends unnamed wanted (rw there refl)
  execute_tests_worst pcie s ends (unnamed, wanted, there) =
      due_worst (pcie_views t) "PCIe" 8 "PCIe" _ _ _ s ends unnamed wanted (
        let (listed, mapped) = or_false (t.bdf_table_list_flag == 1) (t.num_ecam == 0) there in
        rw (listed, mapped) refl)
  execute_tests_worst qos s ends (unnamed, wanted, _) =
      due_worst (qos_views t) "QoS" 0 "QoS" _ _ _ s ends unnamed wanted refl
  execute_tests_worst mng s ends (unnamed, wanted, _) =
      due_worst (mng_views t) "MNG" 0 "MNG" _ _ _ s ends unnamed wanted refl
  execute_tests_worst iommu s ends (unnamed, wanted, _) =
      due_worst (iommu_views t) "IOMMU" 10 "IOMMU" _ _ _ s ends unnamed wanted refl

  skip_now :
      (b : ℕ) (text : String) (rest : Session → ℕ × Session) (s : Session)
      → (mentions s.skip_test_num b ≡ true) ⊎ (check_skip_module b s ≢ acs_status_pass)
      → ((unless_skipped b text rest s).0 ≡ acs_status_skip)
        × OnlyConsole s (unless_skipped b text rest s).1
  skip_now b text rest s h =
      rw (unless_not b text rest s h)
        (refl, OnlyConsole-print s acs_print_info text 0 (OnlyConsole-refl s))

  left_out :
      (m : TestModule) (s : Session)
      → (mentions s.skip_test_num (base m) ≡ true)
        ⊎ (check_skip_module (base m) s ≢ acs_status_pass)
      → ((execute_tests entry t m s).0 ≡ acs_status_skip)
        × OnlyConsole s (execute_tests entry t m s).1
  unfolding execute_tests base hart_execute_tests memory_execute_tests iic_execute_tests
      smmu_execute_tests timer_execute_tests wakeup_execute_tests peripheral_execute_tests
      wd_execute_tests pcie_execute_tests qos_execute_tests mng_execute_tests iommu_execute_tests
  left_out hart s h = skip_now _ _ _ s h
  left_out memory s h = skip_now _ _ _ s h
  left_out iic s h = skip_now _ _ _ s h
  left_out smmu s h = skip_now _ _ _ s h
  left_out timer s h = skip_now _ _ _ s h
  left_out wakeup s h = skip_now _ _ _ s h
  left_out peripheral s h = skip_now _ _ _ s h
  left_out wd s h = skip_now _ _ _ s h
  left_out pcie s h = skip_now _ _ _ s h
  left_out qos s h = skip_now _ _ _ s h
  left_out mng s h = skip_now _ _ _ s h
  left_out iommu s h = skip_now _ _ _ s h

  absent_now :
      (b : ℕ) (text reason : String) (rest : Session → ℕ × Session) (s : Session)
      → mentions s.skip_test_num b ≡ false
      → check_skip_module b s ≡ acs_status_pass
      → rest s ≡ (acs_status_skip, print acs_print_warn reason 0 s)
      → ((unless_skipped b text rest s).0 ≡ acs_status_skip)
        × OnlyConsole s (unless_skipped b text rest s).1
  absent_now b text reason rest s unnamed wanted here =
      rw (unless_due b text rest s unnamed wanted ∙ here)
        (refl, OnlyConsole-print s acs_print_warn reason 0 (OnlyConsole-refl s))

  nothing_there :
      (m : TestModule) (s : Session)
      → mentions s.skip_test_num (base m) ≡ false
      → check_skip_module (base m) s ≡ acs_status_pass
      → is_absent t m ≡ true
      → ((execute_tests entry t m s).0 ≡ acs_status_skip)
        × OnlyConsole s (execute_tests entry t m s).1
  unfolding execute_tests base is_absent hart_execute_tests memory_execute_tests iic_execute_tests
      smmu_execute_tests timer_execute_tests wakeup_execute_tests peripheral_execute_tests
      wd_execute_tests pcie_execute_tests qos_execute_tests mng_execute_tests iommu_execute_tests
  nothing_there hart s unnamed wanted gone = absurd (ground arith)
  nothing_there memory s unnamed wanted gone = absurd (ground arith)
  nothing_there iic s unnamed wanted gone = absurd (ground arith)
  nothing_there smmu s unnamed wanted gone =
      absent_now _ _ no_smmu _ s unnamed wanted (rw gone refl)
  nothing_there timer s unnamed wanted gone = absurd (ground arith)
  nothing_there wakeup s unnamed wanted gone = absurd (ground arith)
  nothing_there peripheral s unnamed wanted gone = absurd (ground arith)
  nothing_there wd s unnamed wanted gone =
      absent_now _ _ no_watchdog _ s unnamed wanted (rw gone refl)
  nothing_there pcie s unnamed wanted gone = elim (Bool-cases (t.bdf_table_list_flag == 1)) [
    | inl listed ↦ absent_now _ _ bad_hierarchy _ s unnamed wanted (rw listed refl)
    | inr unlisted ↦
        absent_now _ _ no_ecam _ s unnamed wanted
          (rw (unlisted, or_true _ (t.num_ecam == 0) unlisted gone) refl)
  ]
  nothing_there qos s unnamed wanted gone = absurd (ground arith)
  nothing_there mng s unnamed wanted gone = absurd (ground arith)
  nothing_there iommu s unnamed wanted gone = absurd (ground arith)

  -- A module that is not due is skipped: the status is the one for a skip, and nothing is changed but
  -- the console.
  pub execute_tests_skips :
      (m : TestModule) (s : Session)
      → ¬ IsDue t m s
      → ((execute_tests entry t m s).0 ≡ acs_status_skip)
        × OnlyConsole s (execute_tests entry t m s).1
  execute_tests_skips m s h = elim (Bool-cases (mentions s.skip_test_num (base m))) [
    | inl named ↦ left_out m s (inl named)
    | inr unnamed ↦ elim (ℕ_discrete (check_skip_module (base m) s) acs_status_pass) [
      | no unwanted ↦ left_out m s (inr unwanted)
      | yes wanted ↦ elim (Bool-cases (is_absent t m)) [
        | inl gone ↦ nothing_there m s unnamed wanted gone
        | inr there ↦ absurd (h (unnamed, wanted, there))
      ]
    ]
  ]
