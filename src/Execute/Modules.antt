-- ===== src/Execute/Modules.antt =====
-- The executors of the modules: val/src/acs_hart.c, acs_memory.c, acs_gic.c, acs_smmu.c, acs_timer.c,
-- acs_wakeup.c, acs_peripherals.c, acs_wd.c, acs_pcie.c, acs_qos.c, acs_mng.c and acs_iommu.c.
use Prim.Native.String.{String}
use riscv_server_soc_ts.Prelude.{ℕ, Bool, not, ◌&&◌, ◌||◌, ◌==◌, if◌then◌else◌, List, [], ◌∷◌, ◌++◌}
use riscv_server_soc_ts.Session.{Session, print, acs_print_warn, acs_status_skip}
use riscv_server_soc_ts.Execute.{Target, View, run_module, unless_skipped}

abbrev os_view : Target → List String → View
os_view t tests = record { shown = t.sw_os; heading = "\nOperating System View:\n"; tests = tests }

abbrev hyp_view : Target → List String → View
hyp_view t tests = record { shown = t.sw_hyp; heading = "\nHypervisor View:\n"; tests = tests }

abbrev ps_view : Target → List String → View
ps_view t tests = record { shown = t.sw_ps; heading = "\nPlatform Security View:\n"; tests = tests }

-- The lines under an `#if`.
abbrev when : Bool → List String → List String
when b tests = if b then tests else []

-- The tests of each module.
abbrev pub hart_views : Target → List View
hart_views t = os_view t ("os_c001" ∷ []) ∷ hyp_view t [] ∷ ps_view t [] ∷ []

abbrev pub memory_views : Target → List View
memory_views t =
    let full = t.enable_oob || t.target_emulation in
    os_view t (
      when full ("os_m001" ∷ [])
      ++ when (not t.target_linux) ("os_m002" ∷ "os_m003" ∷ [])
      ++ when (t.target_linux || full) ("os_m004" ∷ []))
    ∷ []

abbrev pub iic_views : Target → List View
iic_views t = os_view t ("os_i001" ∷ "os_i002" ∷ "os_i003" ∷ "os_i004" ∷ "os_i005" ∷ []) ∷ []

abbrev pub smmu_views : Target → List View
smmu_views t =
    os_view t ("os_i001" ∷ "os_i002" ∷ "os_i003" ∷ "os_i004" ∷ [])
    ∷ hyp_view t ("hyp_i002" ∷ when (t.ver_smmu == 2) ("hyp_i003" ∷ []) ++ "hyp_i004" ∷ [])
    ∷ []

abbrev pub timer_views : Target → List View
timer_views t = os_view t ("os_t001" ∷ "os_t002" ∷ []) ∷ []

abbrev pub wakeup_views : Target → List View
wakeup_views t = os_view t ("os_u001" ∷ []) ∷ []

abbrev pub peripheral_views : Target → List View
peripheral_views t =
    os_view t (
      when (not t.target_linux) ("os_d001" ∷ "os_d002" ∷ "os_d003" ∷ "os_d005" ∷ [])
      ++ when (t.target_linux || t.enable_oob || t.target_emulation) ("os_d004" ∷ []))
    ∷ []

abbrev pub wd_views : Target → List View
wd_views t = os_view t ("os_w001" ∷ "os_w002" ∷ []) ∷ []

abbrev pub pcie_views : Target → List View
pcie_views t =
    os_view t (
      "os_p001" ∷ "os_p002" ∷ "os_p003" ∷ "os_p004" ∷ "os_p005" ∷ "os_p006" ∷ "os_p007" ∷ "os_p008"
      ∷ "os_p009" ∷ "os_p010" ∷ "os_p011" ∷ "os_p012" ∷ "os_p013" ∷ "os_p014" ∷ "os_p015"
      ∷ "os_p016" ∷ "os_p017" ∷ "os_p018" ∷ "os_p019" ∷ "os_p020" ∷ "os_p021" ∷ "os_p022"
      ∷ "os_p023" ∷ "os_p024" ∷ "os_p025" ∷ [])
    ∷ []

abbrev pub qos_views : Target → List View
qos_views t = os_view t ("os_q001" ∷ []) ∷ hyp_view t [] ∷ ps_view t [] ∷ []

abbrev pub mng_views : Target → List View
mng_views t = os_view t ("os_m001" ∷ "os_m002" ∷ []) ∷ hyp_view t [] ∷ ps_view t [] ∷ []

abbrev pub iommu_views : Target → List View
iommu_views t =
    os_view t (
      "os_iom001" ∷ "os_iom002" ∷ "os_iom003" ∷ "os_iom004" ∷ "os_iom005" ∷ "os_iom008"
      ∷ "os_iom011" ∷ "os_iom013" ∷ "os_iom014" ∷ "os_iom017" ∷ "os_iom019" ∷ "os_iom022"
      ∷ "os_iom024" ∷ "os_iom026" ∷ [])
    ∷ []

-- A module's tests are not run on a target without the part they are about.
abbrev absent : String → Session → ℕ × Session
absent text s = (acs_status_skip, print acs_print_warn text 0 s)

abbrev pub no_smmu : String
no_smmu = "\n       No SMMU Controller Found, Skipping SMMU tests...\n"

abbrev pub no_watchdog : String
no_watchdog = "\n       No Watchdog Found, Skipping Watchdog tests...\n"

abbrev pub bad_hierarchy : String
bad_hierarchy =
    "\n     *** Created device list with valid bdf doesn't match                     with the platform pcie device hierarchy, Skipping PCIE tests ***\n"

abbrev pub no_ecam : String
no_ecam = "\n      *** No ECAM region found, Skipping PCIE tests ***\n"

module _ (entry : String → Session → ℕ × Session) (t : Target) where
  unfoldable pub hart_execute_tests : Session → ℕ × Session
  hart_execute_tests s =
      unless_skipped 0 "\n       USER Override - Skipping all HART tests\n"
        (run_module entry "HART" 0 "HART" (hart_views t)) s

  unfoldable pub memory_execute_tests : Session → ℕ × Session
  memory_execute_tests s =
      unless_skipped 100 "\n       USER Override - Skipping all Memory tests\n"
        (run_module entry "Memory Map" 1 "Memory" (memory_views t)) s

  unfoldable pub iic_execute_tests : Session → ℕ × Session
  iic_execute_tests s =
      unless_skipped 200 "\n       USER Override - Skipping all IIC tests\n"
        (run_module entry "IIC" 2 "IIC" (iic_views t)) s

  unfoldable pub smmu_execute_tests : Session → ℕ × Session
  smmu_execute_tests s =
      unless_skipped 300 "\n       USER Override - Skipping all SMMU tests\n"
        (λ u.
          if t.num_smmu == 0
          then absent no_smmu u
          else run_module entry "SMMU" 3 "SMMU" (smmu_views t) u)
        s

  unfoldable pub timer_execute_tests : Session → ℕ × Session
  timer_execute_tests s =
      unless_skipped 400 "\n       USER Override - Skipping all Timer tests\n"
        (run_module entry "Timer" 4 "Timer" (timer_views t)) s

  unfoldable pub wakeup_execute_tests : Session → ℕ × Session
  wakeup_execute_tests s =
      unless_skipped 500 "\n       USER Override - Skipping all Wakeup tests\n"
        (run_module entry "Wakeup semantic" 5 "Wakeup" (wakeup_views t)) s

  unfoldable pub peripheral_execute_tests : Session → ℕ × Session
  peripheral_execute_tests s =
      unless_skipped 600 "\n       USER Override - Skipping all Peripheral tests\n"
        (run_module entry "Peripheral" 6 "Peripheral" (peripheral_views t)) s

  unfoldable pub wd_execute_tests : Session → ℕ × Session
  wd_execute_tests s =
      unless_skipped 700 "\n       USER Override - Skipping all Watchdog tests\n"
        (λ u.
          if not t.build_sbsa && t.wd_count == 0
          then absent no_watchdog u
          else run_module entry "Watchdog" 7 "Watchdog" (wd_views t) u)
        s

  unfoldable pub pcie_execute_tests : Session → ℕ × Session
  pcie_execute_tests s =
      unless_skipped 800 "\n       USER Override - Skipping all PCIe tests\n"
        (λ u.
          if t.bdf_table_list_flag == 1
          then absent bad_hierarchy u
          else if t.num_ecam == 0
          then absent no_ecam u
          else run_module entry "PCIe" 8 "PCIe" (pcie_views t) u)
        s

  -- The module number is that of the hart module.
  unfoldable pub qos_execute_tests : Session → ℕ × Session
  qos_execute_tests s =
      unless_skipped 1000 "\n       USER Override - Skipping all QoS tests\n"
        (run_module entry "QoS" 0 "QoS" (qos_views t)) s

  -- The entries have the names of two of the memory module's.
  unfoldable pub mng_execute_tests : Session → ℕ × Session
  mng_execute_tests s =
      unless_skipped 1100 "\n       USER Override - Skipping all MNG tests\n"
        (run_module entry "MNG" 0 "MNG" (mng_views t)) s

  unfoldable pub iommu_execute_tests : Session → ℕ × Session
  iommu_execute_tests s =
      unless_skipped 1200 "\n       USER Override - Skipping all IOMMU tests\n"
        (run_module entry "IOMMU" 10 "IOMMU" (iommu_views t)) s
