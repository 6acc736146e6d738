-- ===== src/Pcie/Command.antt =====
-- The switches of the command register, on a configuration space that keeps what is written to it.
use riscv_server_soc_ts.Prelude.{
  ℕ, ◌-◌, ◌^◌, ◌<◌, ◌≡◌, refl, sym, subst, ap, ◌∙◌, arith, bit_and, bit_or, ◌==◌, if◌then◌else◌,
  some, true,
}
use riscv_server_soc_ts.Bits.{bit, u32_mod}
use riscv_server_soc_ts.Bits.Laws.{all_below, bit-le-one}
use riscv_server_soc_ts.Bits.Masks.{bit-set, bit-clear, bit_and-two, bit_or-lt, bit_and-lt}
use riscv_server_soc_ts.Pcie.{Pal, InfoTable}
use riscv_server_soc_ts.Pcie.Config.{write_cfg}
use riscv_server_soc_ts.Pcie.Ecam.{config_address}
use riscv_server_soc_ts.Pcie.Isolation.{IsWellFormed}
use riscv_server_soc_ts.Pcie.Memory.{IsMemory, config_reads, read_cfg-write_cfg}
use riscv_server_soc_ts.Pcie.Device.{
  type01_cr, reg, set_mask, clear_mask, enable_bme, disable_bme, enable_msa, disable_msa,
  is_msa_enabled,
}

-- What a read of a function that is mapped leaves fits 32 bits.
reg-lt :
    {S : Type 0} (pal : Pal S) (t : InfoTable) (fuel junk bdf offset : ℕ) (s : S) {a : ℕ}
    → config_address t bdf ≡ some a
    → reg pal (some t) fuel junk bdf offset s < u32_mod
reg-lt pal t fuel junk bdf offset s {a} e =
    subst (λ (r : ℕ × ℕ). r.1 < u32_mod) (sym (config_reads pal t bdf offset junk s a e))
      (omega arith)

module _ {S : Type 0} (pal : Pal S) (memory : IsMemory pal) (t : InfoTable) (wf : IsWellFormed t)
    (fuel junk bdf : ℕ) {a : ℕ} (e : config_address t bdf ≡ some a) (s : S) where
  abbrev cr : S → ℕ
  cr u = reg pal (some t) fuel junk bdf type01_cr u

  read_command :
      (value : ℕ) → value < 2 ^ 32 → cr (write_cfg pal (some t) bdf type01_cr value s) ≡ value
  read_command value small =
      let back =
        read_cfg-write_cfg pal memory t wf bdf type01_cr value junk s e (omega arith, refl) in
      ap (λ (r : ℕ × ℕ). r.1) back ∙ omega arith

  small_cr : cr s < u32_mod
  small_cr = reg-lt pal t fuel junk bdf type01_cr s e

  after_set :
      (k i : ℕ)
      → 2 ^ k < 2 ^ 32
      → bit i (cr (write_cfg pal (some t) bdf type01_cr (set_mask (cr s) (2 ^ k)) s))
        ≡ (if i == k then 1 else bit i (cr s))
  unfolding set_mask
  after_set k i small =
      ap (bit i) (read_command (bit_or (cr s) (2 ^ k)) (bit_or-lt 32 (cr s) (2 ^ k) small_cr small))
      ∙ bit-set k i (cr s)

  after_clear :
      (k i : ℕ)
      → all_below 32 (λ j. bit j (u32_mod - 1 - 2 ^ k) == (if j == k then 0 else 1)) ≡ true
      → i < 32
      → bit i (cr (write_cfg pal (some t) bdf type01_cr (clear_mask (cr s) (2 ^ k)) s))
        ≡ (if i == k then 0 else bit i (cr s))
  unfolding clear_mask
  after_clear k i ok small =
      let mask = u32_mod - 1 - 2 ^ k in
      ap (bit i) (read_command (bit_and (cr s) mask) (bit_and-lt 32 (cr s) mask small_cr))
      ∙ bit-clear mask k i (cr s) ok small

  -- Of a mapped function on registers that behave as memory, each of the four switches of the command
  -- register sets or clears its own bit, and leaves the 31 others.
  pub switches_one_bit :
      (i : ℕ)
      → i < 32
      → (bit i (cr (enable_bme pal (some t) fuel junk bdf s))
          ≡ (if i == 2 then 1 else bit i (cr s)))
        × (bit i (cr (disable_bme pal (some t) fuel junk bdf s))
            ≡ (if i == 2 then 0 else bit i (cr s)))
        × (bit i (cr (enable_msa pal (some t) fuel junk bdf s))
            ≡ (if i == 1 then 1 else bit i (cr s)))
        × (bit i (cr (disable_msa pal (some t) fuel junk bdf s))
            ≡ (if i == 1 then 0 else bit i (cr s)))
  unfolding enable_bme disable_bme enable_msa disable_msa bit all_below
  switches_one_bit i small = (
    after_set 2 i (omega arith),
    after_clear 2 i refl small,
    after_set 1 i (omega arith),
    after_clear 1 i refl small,
  )

  msa_test : (u : S) → is_msa_enabled pal (some t) fuel junk bdf u ≡ 1 - bit 1 (cr u)
  unfolding is_msa_enabled
  msa_test u = ground (arith, bit_and-two (cr u), bit-le-one 1 (cr u))

  -- The test of the memory space switch answers 0 after it is switched on, and 1 after it is switched
  -- off, and the bus master switch does not change the answer. (The function is mapped, and its
  -- registers behave as memory.)
  pub is_msa_enabled_after :
      (is_msa_enabled pal (some t) fuel junk bdf (enable_msa pal (some t) fuel junk bdf s) ≡ 0)
      × (is_msa_enabled pal (some t) fuel junk bdf (disable_msa pal (some t) fuel junk bdf s) ≡ 1)
      × (is_msa_enabled pal (some t) fuel junk bdf (enable_bme pal (some t) fuel junk bdf s)
          ≡ is_msa_enabled pal (some t) fuel junk bdf s)
      × (is_msa_enabled pal (some t) fuel junk bdf (disable_bme pal (some t) fuel junk bdf s)
          ≡ is_msa_enabled pal (some t) fuel junk bdf s)
  is_msa_enabled_after =
      let (set_bme, clear_bme, set_msa, clear_msa) = switches_one_bit 1 (omega arith) in
      (
        msa_test _ ∙ ap (λ (b : ℕ). 1 - b) set_msa,
        msa_test _ ∙ ap (λ (b : ℕ). 1 - b) clear_msa,
        msa_test _ ∙ ap (λ (b : ℕ). 1 - b) set_bme ∙ sym (msa_test s),
        msa_test _ ∙ ap (λ (b : ℕ). 1 - b) clear_bme ∙ sym (msa_test s),
      )
