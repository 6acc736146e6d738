-- ===== src/Smmu/Sync.antt =====
-- `smmu_reg_write_sync`, `smmu_dev_disable` and `smmu_set_state` of
-- val/sys_arch_src/smmu_v3/smmu_v3.c: a register is written, and its acknowledgement awaited.
use riscv_server_soc_ts.Prelude.{
  ℕ, zero, suc, ◌<◌, ◌≡◌, ◌≢◌, ◌⊎◌, inl, inr, refl, arith, Bool, true, false, ◌==◌, ==→≡, ==→≢,
  ≢→==, Bool-cases, leb, if◌then◌else◌, bit_and, bit_or,
}
use riscv_server_soc_ts.Bits.{add64, bit}
use riscv_server_soc_ts.Bits.Masks.{bit-set, bit-clear}
use riscv_server_soc_ts.Bits.Laws.{all_below}
use riscv_server_soc_ts.Smmu.{SmmuPal, SmmuDev, cr0_offset, cr0ack_offset}

module _ {S : Type 0} (pal : SmmuPal S) where
  -- The `while (timeout--)` loop.
  unfoldable pub ack_loop : ℕ → ℕ → ℕ → S → ℕ × S
  ack_loop zero ack value s = (1, s)
  ack_loop (suc timeout) ack value s =
      let (reg, s') = pal.mmio_read ack s in
      let rest = ack_loop timeout ack value s' in if reg == value then (0, s') else rest

  -- `timeout` stands for 0x1000000.
  unfoldable pub reg_write_sync : ℕ → SmmuDev → ℕ → ℕ → ℕ → S → ℕ × S
  reg_write_sync timeout smmu value reg_off ack_off s =
      ack_loop timeout (add64 smmu.base ack_off) value
        (pal.mmio_write (add64 smmu.base reg_off) value s)

  unfoldable pub dev_disable : ℕ → SmmuDev → S → ℕ × S
  dev_disable timeout smmu s = reg_write_sync timeout smmu 0 cr0_offset cr0ack_offset s

  -- CR0_SMMUEN is bit 0.
  unfoldable pub enabled_cr0 : Bool → ℕ → ℕ
  enabled_cr0 en cr0_val = if en then bit_or cr0_val 1 else bit_and cr0_val 0xFFFFFFFE

  -- `smmu_set_state`, with `g_smmu` as a function.
  unfoldable pub set_state : ℕ → ℕ → (ℕ → SmmuDev) → ℕ → Bool → S → ℕ × S
  set_state timeout num_smmus g_smmu smmu_index en s =
      let smmu = g_smmu smmu_index in
      let (cr0_val, s') = pal.mmio_read (add64 smmu.base cr0_offset) s in
      let written =
        reg_write_sync timeout smmu (enabled_cr0 en cr0_val) cr0_offset cr0ack_offset s' in
      if leb num_smmus smmu_index then (1, s) else if smmu.base == 0 then (1, s) else written

  bit-enabled_cr0 :
      (en : Bool) (cr0_val i : ℕ)
      → i < 32
      → bit i (enabled_cr0 en cr0_val) ≡ (if i == 0 then (if en then 1 else 0) else bit i cr0_val)
  unfolding enabled_cr0 all_below bit
  bit-enabled_cr0 true cr0_val i lt = bit-set 0 i cr0_val
  bit-enabled_cr0 false cr0_val i lt = bit-clear 0xFFFFFFFE 0 i cr0_val refl lt

  -- The state after `n` reads of a register, and what read `n` gives, from 0 on.
  abbrev pub polled : ℕ → ℕ → S → S
  polled reg zero s = s
  polled reg (suc n) s = polled reg n (pal.mmio_read reg s).1

  abbrev pub ack_read : ℕ → ℕ → S → ℕ
  ack_read reg n s = (pal.mmio_read reg (polled reg n s)).0

  -- Read `n` is the first of `timeout` to give the value, or none of them does.
  abbrev pub IsAnswered : ℕ → ℕ → ℕ → S → ℕ × S → Type 0
  IsAnswered timeout ack value s r =
      ((n : ℕ) × (n < timeout)
        × ((j : ℕ) → j < n → ack_read ack j s ≢ value)
        × (ack_read ack n s ≡ value)
        × (r ≡ (0, polled ack (suc n) s)))
      ⊎ (((j : ℕ) → j < timeout → ack_read ack j s ≢ value) × (r ≡ (1, polled ack timeout s)))

  ack_loop-IsAnswered :
      (timeout ack value : ℕ) (s : S)
      → IsAnswered timeout ack value s (ack_loop timeout ack value s)
  unfolding ack_loop
  ack_loop-IsAnswered zero ack value s = inr (λ j lt. absurd (omega arith), refl)
  ack_loop-IsAnswered (suc timeout) ack value s =
      elim (Bool-cases ((pal.mmio_read ack s).0 == value)) [
        | inl now ↦ inl (0, omega arith, λ j lt. absurd (omega arith), ==→≡ _ _ now, rw (now) refl)
        | inr wait ↦ elim (ack_loop-IsAnswered timeout ack value (pal.mmio_read ack s).1) [
          | inl (n, lt, before, found, e) ↦
              inl (suc n, omega arith, further n (==→≢ _ _ wait) before, found, rw (wait) e)
          | inr (never, e) ↦ inr (further timeout (==→≢ _ _ wait) never, rw (wait) e)
        ]
      ]
    where
      further :
          (n : ℕ)
          → ack_read ack 0 s ≢ value
          → ((j : ℕ) → j < n → ack_read ack j (pal.mmio_read ack s).1 ≢ value)
          → (j : ℕ) → j < suc n
          → ack_read ack j s ≢ value
      further n first later zero lt = first
      further n first later (suc j) lt = later j (omega arith)

  -- A synchronised write writes the register once and then reads the acknowledgement, `timeout` times
  -- at most. It succeeds at the first read that gives the value written, and fails, with status 1,
  -- when no read does.
  pub reg_write_sync-IsAnswered :
      (timeout value reg_off ack_off : ℕ) (smmu : SmmuDev) (s : S)
      → IsAnswered timeout
          (add64 smmu.base ack_off)
          value
          (pal.mmio_write (add64 smmu.base reg_off) value s)
          (reg_write_sync timeout smmu value reg_off ack_off s)
  unfolding reg_write_sync
  reg_write_sync-IsAnswered timeout value reg_off ack_off smmu s =
      ack_loop-IsAnswered timeout (add64 smmu.base ack_off) value _

  -- For an SMMU of the table that has a base, one synchronised write of CR0 is made: it sets bit 0 to
  -- the state asked for, keeps bits 1 to 31 as they were read, and gives the status.
  pub set_state_one_bit :
      (timeout num_smmus smmu_index : ℕ) (g_smmu : ℕ → SmmuDev) (en : Bool) (s : S)
      → smmu_index < num_smmus
      → (g_smmu smmu_index).base ≢ 0
      → let cr0 = add64 (g_smmu smmu_index).base cr0_offset in
        let read = pal.mmio_read cr0 s in
        (value : ℕ) × ((i : ℕ)
          → i < 32
          → bit i value ≡ (if i == 0 then (if en then 1 else 0) else bit i read.0))
        × IsAnswered timeout
            (add64 (g_smmu smmu_index).base cr0ack_offset)
            value
            (pal.mmio_write cr0 value read.1)
            (set_state timeout num_smmus g_smmu smmu_index en s)
  unfolding set_state
  set_state_one_bit timeout num_smmus smmu_index g_smmu en s lt present =
      let smmu = g_smmu smmu_index in
      let read = pal.mmio_read (add64 smmu.base cr0_offset) s in
      let inside : leb num_smmus smmu_index ≡ false = ground arith in
      let based : (smmu.base == 0) ≡ false = ≢→== _ _ present in
      (
        enabled_cr0 en read.0,
        bit-enabled_cr0 en read.0,
        rw (inside, based)
            (reg_write_sync-IsAnswered timeout (enabled_cr0 en read.0) cr0_offset cr0ack_offset smmu
              read.1),
      )
