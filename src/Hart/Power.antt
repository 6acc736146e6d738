-- ===== src/Hart/Power.antt =====
-- `val_execute_on_pe`: the first answer of the firmware other than "already on" decides, and there
-- are at most TIMEOUT_LARGE + 1 calls.
use riscv_server_soc_ts.Prelude.{
  ℕ, zero, suc, ◌^◌, ◌%◌, ◌<◌, ◌≤◌, ◌≡◌, ◌≢◌, ◌⊎◌, inl, inr, arith, refl, ◌==◌, ==→≡, ==→≢,
  Bool-cases, false, ltb, if◌then◌else◌,
}
use riscv_server_soc_ts.Bits.{low_bits, sub32}
use riscv_server_soc_ts.Session.{Session, print, print_format}
use riscv_server_soc_ts.Status.{result_fail, get_status, set_status}
use riscv_server_soc_ts.Hart.{
  HartTable, SmcArgs, psci_already_on, attempt, attempts, conclude, execute_on_pe,
}

module _ (execute_payload : SmcArgs → Session → SmcArgs × Session) (t : HartTable)
    (index payload test_input : ℕ) where
  -- The arguments and the session after `n + 1` calls of the firmware.
  abbrev pub calls : ℕ → SmcArgs → Session → SmcArgs × Session
  calls zero args s = attempt execute_payload t index payload test_input args s
  calls (suc n) args s =
      let (args', s') = attempt execute_payload t index payload test_input args s in
      calls n args' s'

  -- What the firmware answers to call `n`, from 0 on.
  abbrev pub answer : ℕ → SmcArgs → Session → ℕ
  answer n args s = (calls n args s).0.arg0

  -- Every call before call `n` was answered by "already on".
  abbrev pub IsRefused : ℕ → SmcArgs → Session → Type 0
  IsRefused n args s = (j : ℕ) → j < n → answer j args s ≡ psci_already_on

  -- The attempts end with the first answer other than "already on", or after `timeout + 1` of them.
  attempts_end :
      (timeout : ℕ) (args : SmcArgs) (s : Session)
      → (n : ℕ) × (n ≤ timeout)
        × (attempts execute_payload t timeout index payload test_input args s ≡ calls n args s)
        × IsRefused n args s
        × ((answer n args s ≢ psci_already_on) ⊎ (n ≡ timeout))
  unfolding attempts
  attempts_end zero args s = (0, omega arith, refl, λ j lt. absurd (omega arith), inr refl)
  attempts_end (suc timeout) args s =
      let next = attempt execute_payload t index payload test_input args s in
      elim (Bool-cases (next.0.arg0 == psci_already_on)) [
        | inr other ↦
            (0, omega arith, rw (other), λ j lt. absurd (omega arith), inl (==→≢ _ _ other))
        | inl on ↦
            let (n, le, e, refused, ends) = attempts_end timeout next.0 next.1 in
            (
              suc n,
              omega arith,
              rw (on) e,
              λ j lt. refused_before j n (==→≡ _ _ on) refused lt,
              elim ends [ inl other ↦ inl other | inr all ↦ inr (omega arith) ],
            )
      ]
    where
      refused_before :
          (j n : ℕ)
          → answer 0 args s ≡ psci_already_on
          → IsRefused n (calls 0 args s).0 (calls 0 args s).1
          → j < suc n
          → answer j args s ≡ psci_already_on
      refused_before zero n now later lt = now
      refused_before (suc j) n now later lt = later j (omega arith)

  conclude_status :
      (args : SmcArgs) (s : Session)
      → get_status index (conclude index args s) ≡ (
          if args.arg0 == 0
          then get_status index s
          else result_fail 0 (sub32 0x120 (low_bits args.arg0 32)) % 2 ^ 32)
  unfolding conclude get_status set_status print print_format
  conclude_status args s = ground arith

  -- For a hart of the table, or the index after the last one, the call of the firmware is repeated
  -- until it answers something other than "already on", at most `timeout + 1` times. The last answer
  -- decides: 0 leaves the hart's status as it is, and any other answer makes it a failure whose
  -- checkpoint is 0x120 less the answer.
  pub execute_on_pe_settles :
      (timeout : ℕ) (args : SmcArgs) (s : Session)
      → index ≤ t.num_of_hart
      → (n : ℕ) × (n ≤ timeout)
        × IsRefused n args s
        × ((answer n args s ≢ psci_already_on) ⊎ (n ≡ timeout))
        × ((execute_on_pe execute_payload t timeout index payload test_input args s).0
            ≡ (calls n args s).0)
        × (get_status index
              (execute_on_pe execute_payload t timeout index payload test_input args s).1
            ≡ (if answer n args s == 0
                then get_status index (calls n args s).1
                else result_fail 0 (sub32 0x120 (low_bits (answer n args s) 32)) % 2 ^ 32))
  unfolding execute_on_pe
  execute_on_pe_settles timeout args s h =
      let (n, le, e, refused, ends) = attempts_end timeout args s in
      let inside : ltb t.num_of_hart index ≡ false = ground arith in
      let final = calls n args s in
      (n, le, refused, ends, rw (inside, e), rw (inside, e) (conclude_status final.0 final.1))
