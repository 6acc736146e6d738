-- ===== src/Smmu/Reset.antt =====
-- What the start of an SMMU (val/sys_arch_src/smmu_v3/smmu_v3.c) makes of its reset.
use riscv_server_soc_ts.Prelude.{ℕ, ◌≡◌, ◌≢◌, arith, ◌||◌, ◌==◌, if◌then◌else◌}
use riscv_server_soc_ts.Session.{acs_status_err}
use riscv_server_soc_ts.Smmu.{SmmuPal, SmmuDev}
use riscv_server_soc_ts.Smmu.Stream.{strtab_init}
use riscv_server_soc_ts.Smmu.Init.{smmu_probe, cmd_queue_init, evnt_queue_init, reset, smmu_init}

module _ {S : Type 0} (pal : SmmuPal S) where
  -- The devices after the steps before the reset.
  abbrev pub probed : ℕ → SmmuDev → S → ℕ × SmmuDev × S
  probed max_sid smmu s = smmu_probe pal max_sid smmu s

  abbrev pub commanded : ℕ → SmmuDev → S → ℕ × SmmuDev × S
  commanded max_sid smmu s = let (ret, d, s') = probed max_sid smmu s in cmd_queue_init pal d s'

  abbrev pub evented : ℕ → SmmuDev → S → ℕ × SmmuDev × S
  evented max_sid smmu s = let (ret, d, s') = commanded max_sid smmu s in evnt_queue_init pal d s'

  abbrev pub tabled : ℕ → SmmuDev → S → ℕ × SmmuDev × S
  tabled max_sid smmu s = let (ret, d, s') = evented max_sid smmu s in strtab_init pal d s'

  reset-nonzero : (ack timeout : ℕ) (smmu : SmmuDev) (s : S) → (reset pal ack timeout smmu s).0 ≢ 0
  unfolding reset
  reset-nonzero ack timeout smmu s = ground arith

  -- The status of the start of an SMMU is an error exactly when the SMMU has no base, its features are
  -- refused, or the command queue, the event queue or the stream table could not be made. Whether
  -- the reset was acknowledged makes no difference.
  pub smmu_init-status :
      (max_sid ack timeout : ℕ) (smmu : SmmuDev) (s : S)
      → (smmu_init pal max_sid ack timeout smmu s).0 ≡ (
          if smmu.base == 0
            || (probed max_sid smmu s).0 == 0
            || (commanded max_sid smmu s).0 == 0
            || (evented max_sid smmu s).0 == 0
            || (tabled max_sid smmu s).0 == 0
          then acs_status_err
          else 0)
  unfolding smmu_init
  smmu_init-status max_sid ack timeout smmu s =
      let (_, d, s') = tabled max_sid smmu s in
      let ne = reset-nonzero ack timeout d s' in ground arith
