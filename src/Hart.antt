-- ===== src/Hart.antt =====
-- val/src/acs_hart_infra.c: the table of harts (HART_INFO_TABLE of val/include/pal_interface.h), the
-- lookups in it, and the call of the firmware that starts a payload on another hart.
pub mod Lookup
pub mod Power
mod Tests
use Prim.Native.String.{String}
use riscv_server_soc_ts.Prelude.{
  ℕ, zero, suc, ◌+◌, ◌-◌, ◌^◌, ◌==◌, ltb, if◌then◌else◌, Option, none, some,
}
use riscv_server_soc_ts.Bits.{low_bits, sub32}
use riscv_server_soc_ts.Session.{
  Session, print, acs_print_err, acs_print_warn, acs_print_test, acs_print_debug, acs_print_info,
  acs_status_err, acs_status_pass,
}
use riscv_server_soc_ts.Status.{result_fail, report_status, set_status}
use riscv_server_soc_ts.Infra.{set_test_data}

-- HART_INFO_ENTRY, without the text of the ISA.
pub record HartEntry : Type 0 where
  pub hart_num : ℕ
  pub hart_id : ℕ
  pub acpi_processor_uid : ℕ
  pub ext_intc_id : ℕ
  pub imsic_base : ℕ
  pub imsic_size : ℕ
  pub mmu_type : ℕ

-- HART_INFO_TABLE. The array is addressed by index, past its last entry too, as the C code does.
pub record HartTable : Type 0 where
  pub num_of_hart : ℕ
  pub hart_info : ℕ → HartEntry

-- `g_hart_info_table` is `none` for NULL.
unfoldable pub hart_get_num : Option HartTable → ℕ
hart_get_num none = 0
hart_get_num (some t) = t.num_of_hart

unfoldable pub get_mpid_index : HartTable → ℕ → Session → ℕ × Session
get_mpid_index t index s =
    if ltb t.num_of_hart index
    then (0xFFFFFF, report_status index (result_fail 0 0xFF) none s)
    else ((t.hart_info index).hart_id, s)

-- The `while` loop of `val_hart_get_index_mpid`, with `i` entries left from `entry` on.
unfoldable pub index_loop : HartTable → ℕ → ℕ → ℕ → ℕ
index_loop t hart_id zero entry = 0
index_loop t hart_id (suc i) entry =
    if (t.hart_info entry).hart_id == hart_id
    then (t.hart_info entry).hart_num
    else index_loop t hart_id i (entry + 1)

unfoldable pub get_index_mpid : HartTable → ℕ → ℕ
get_index_mpid t hart_id = index_loop t hart_id t.num_of_hart 0

-- CONDUIT_SMC and the others.
pub data Conduit : Type 0 where
  conduit_smc conduit_hvc conduit_sbi conduit_unknown conduit_none : Conduit

-- gPsciConduit, g_hart_info_table, g_primary_hart_index, with the session that is printed to.
pub record HartGlobals : Type 0 where
  pub psci_conduit : Conduit
  pub hart_info_table : Option HartTable
  pub primary_hart_index : ℕ
  pub session : Session

unfoldable pub use_conduit : Conduit → Session → Conduit × Session
use_conduit conduit_unknown s =
    (conduit_sbi, print acs_print_warn " FADT not found, assuming SBI as PSCI conduit\n" 0 s)
use_conduit conduit_none s = (
  conduit_smc,
  print acs_print_warn
      " PSCI not supported, assuming SBI as conduit for tests\n Multi-HART and wakeup tests likely to fail\n"
      0 s,
)
use_conduit conduit_hvc s = (conduit_hvc, print acs_print_info " Using HVC as PSCI conduit\n" 0 s)
use_conduit conduit_smc s = (conduit_smc, print acs_print_info " Using SMC as PSCI conduit\n" 0 s)
use_conduit conduit_sbi s = (conduit_sbi, print acs_print_info " Using SMC as PSCI conduit\n" 0 s)

-- `conduit` is what the platform answers, `fill` its filling of the table, `hart_id` the id of the
-- running hart (`val_hart_get_mpid`).
module _ (conduit : Conduit) (fill : HartTable → HartTable) (hart_id : ℕ) where
  create_filled : HartTable → HartGlobals → ℕ × HartGlobals
  create_filled t g =
      let stored = record g {
        hart_info_table = some t;
        session =
            print acs_print_test " HART_INFO: Number of HART detected       : %4d\n" t.num_of_hart
              g.session;
      } in
      let index = get_index_mpid t hart_id in
      if t.num_of_hart == 0
      then (
        acs_status_err,
        record stored {
          session =
              print acs_print_err "\n *** CRITICAL ERROR: Num HART is 0x0 ***\n" 0 stored.session;
        },
      )
      else (
        acs_status_pass,
        record stored {
          primary_hart_index = index;
          session =
              print acs_print_debug " HART_INFO: Primary HART index       : %4d\n" index
                stored.session;
        },
      )

  unfoldable pub create_info_table : Option HartTable → HartGlobals → ℕ × HartGlobals
  unfolding create_filled
  create_info_table table g =
      let (used, s) = use_conduit conduit g.session in
      let g' = record g {
        psci_conduit = used;
        session = print acs_print_info " Creating HART INFO table\n" 0 s;
      } in
      elim table [
        | none ↦ (
          acs_status_err,
          record g' {
            session =
                print acs_print_err "Input memory for HART Info table cannot be NULL\n" 0
                  g'.session;
          },
        )
        | some t ↦ create_filled (fill t) g'
      ]

-- ARM_SMC_ARGS
pub record SmcArgs : Type 0 where
  pub arg0 : ℕ
  pub arg1 : ℕ
  pub arg2 : ℕ
  pub arg3 : ℕ
  pub arg4 : ℕ
  pub arg5 : ℕ
  pub arg6 : ℕ
  pub arg7 : ℕ

abbrev pub psci_cpu_on : ℕ
psci_cpu_on = 0xc4000003

-- `(uint64_t)ARM_SMC_PSCI_RET_ALREADY_ON`
abbrev pub psci_already_on : ℕ
psci_already_on = 2 ^ 64 - 4

-- The answer of the firmware as text and as the status of the hart.
unfoldable pub conclude : ℕ → SmcArgs → Session → Session
conclude index args s =
    let code = result_fail 0 (sub32 0x120 (low_bits args.arg0 32)) in
    if args.arg0 == psci_already_on
    then set_status index code (print acs_print_err "\n       PSCI_CPU_ON: cpu already on" 0 s)
    else if args.arg0 == 0
    then print acs_print_info "\n       PSCI_CPU_ON: success" 0 s
    else set_status index code (print acs_print_err "\n       PSCI_CPU_ON: failure[%d]" args.arg0 s)

-- `val_execute_on_pe` for a hart of the table. `execute_payload` is the platform call that hands the
-- arguments to the firmware: it gives back the arguments, with the answer in the first, and the
-- session as the harts leave it.
module _ (execute_payload : SmcArgs → Session → SmcArgs × Session) (t : HartTable) where
  -- One round of the `do` loop.
  unfoldable pub attempt : ℕ → ℕ → ℕ → SmcArgs → Session → SmcArgs × Session
  attempt index payload test_input args s =
      let (hart_id, s') = get_mpid_index t index s in
      execute_payload (record args { arg0 = psci_cpu_on; arg1 = hart_id })
        (set_test_data t.num_of_hart index payload test_input s')

  -- What follows the first `timeout + 1` rounds at most: `while (... && timeout--)`.
  unfoldable pub attempts : ℕ → ℕ → ℕ → ℕ → SmcArgs → Session → SmcArgs × Session
  attempts zero index payload test_input args s = attempt index payload test_input args s
  attempts (suc timeout) index payload test_input args s =
      let (args', s') = attempt index payload test_input args s in
      let rest = attempts timeout index payload test_input args' s' in
      if args'.arg0 == psci_already_on then rest else (args', s')

  -- `timeout` is TIMEOUT_LARGE. `g_smc_args` goes in and comes out.
  unfoldable pub execute_on_pe : ℕ → ℕ → ℕ → ℕ → SmcArgs → Session → SmcArgs × Session
  execute_on_pe timeout index payload test_input args s =
      let (args', s') = attempts timeout index payload test_input args s in
      if ltb t.num_of_hart index
      then (
        args,
        report_status index (result_fail 0 0xFF) none
            (print acs_print_err "Input Index exceeds Num of HART %x\n" index s),
      )
      else (args', conclude index args' s')
