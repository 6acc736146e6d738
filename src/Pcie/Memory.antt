-- ===== src/Pcie/Memory.antt =====
-- Configuration registers that keep what is written to them: a write is read back, and reaches no
-- register of another function.
use riscv_server_soc_ts.Prelude.{
  ℕ, ◌+◌, ◌*◌, ◌%◌, ◌^◌, ◌<◌, ◌≡◌, ◌≢◌, inl, inr, ap, arith, none, some, Option-cases,
}
use riscv_server_soc_ts.Bits.{add64}
use riscv_server_soc_ts.Pcie.{
  u32, Pal, load, store, bdf_bus, bdf_dev, bdf_func, InfoBlock, InfoTable, pcie_no_mapping,
}
use riscv_server_soc_ts.Pcie.Config.{read_cfg, write_cfg, read_cfg_width}
use riscv_server_soc_ts.Pcie.Ecam.{config_address, config_base-config_address}
use riscv_server_soc_ts.Pcie.Isolation.{
  IsWellFormed, SameFunction, Placed, config_address-Placed, Placed-add64, registers_distinct,
}

-- Aligned 32-bit registers that behave as memory words: a write is read back, and no other word
-- changes.
pub record IsMemory {S : Type 0} (pal : Pal S) : Type 0 where
  pub read_back :
      (a value : ℕ) (s : S)
      → a % 4 ≡ 0
      → value < 2 ^ 32
      → pal.mmio_read u32 a (pal.mmio_write u32 a value s) ≡ value
  pub read_other :
      (a a' value : ℕ) (s : S)
      → a % 4 ≡ 0
      → a' % 4 ≡ 0
      → a ≢ a'
      → pal.mmio_read u32 a' (pal.mmio_write u32 a value s) ≡ pal.mmio_read u32 a' s

abbrev pub IsRegister : ℕ → Type 0
IsRegister offset = (offset < 4096) × (offset % 4 ≡ 0)

Placed-aligned :
    {t : InfoTable} {bdf a : ℕ} (offset : ℕ)
    → Placed t bdf a
    → IsRegister offset
    → add64 a offset % 4 ≡ 0
Placed-aligned {bdf} {a} offset p (h, four) =
    aligned (bdf_bus bdf) (bdf_dev bdf) (bdf_func bdf) p.region p.found.0.3 p.address
      (Placed-add64 offset p h)
  where
    aligned :
        (bus dev func : ℕ) (b : InfoBlock)
        → b.ecam_base % 4 ≡ 0
        → a ≡ b.ecam_base + bus * 2 ^ 20 + dev * 2 ^ 15 + func * 2 ^ 12
        → add64 a offset ≡ a + offset
        → add64 a offset % 4 ≡ 0
    aligned bus dev func b base e plain = omega arith

module _ {S : Type 0} (pal : Pal S) (t : InfoTable) (bdf offset : ℕ) where
  config_writes :
      (value : ℕ) (s : S) (a : ℕ)
      → config_address t bdf ≡ some a
      → write_cfg pal (some t) bdf offset value s
        ≡ pal.mmio_write u32 (add64 a offset) (value % 2 ^ 32) s
  unfolding write_cfg store
  config_writes value s a e = rw (config_base-config_address pal t bdf, e, write_cfg)

  pub config_reads :
      (old : ℕ) (s : S) (a : ℕ)
      → config_address t bdf ≡ some a
      → read_cfg pal (some t) bdf offset old s ≡ (0, pal.mmio_read u32 (add64 a offset) s % 2 ^ 32)
  unfolding read_cfg read_cfg_width load
  config_reads old s a e = rw (config_base-config_address pal t bdf, e, read_cfg_width)

  config_unmapped :
      (value : ℕ) (s : S)
      → config_address t bdf ≡ none
      → write_cfg pal (some t) bdf offset value s ≡ s
  unfolding write_cfg
  config_unmapped value s e = rw (config_base-config_address pal t bdf, e, write_cfg)

  config_fails :
      (old : ℕ) (s : S)
      → config_address t bdf ≡ none
      → read_cfg pal (some t) bdf offset old s ≡ (pcie_no_mapping, old)
  unfolding read_cfg read_cfg_width
  config_fails old s e = rw (config_base-config_address pal t bdf, e, read_cfg_width)

module _ {S : Type 0} (pal : Pal S) (memory : IsMemory pal) (t : InfoTable)
    (wf : IsWellFormed t) where
  -- On registers that behave as memory, with a well-formed table of regions, a value written to a
  -- register of a function that is mapped is read back from it, in 32 bits.
  pub read_cfg-write_cfg :
      (f offset value old : ℕ) (s : S) {a : ℕ}
      → config_address t f ≡ some a
      → IsRegister offset
      → read_cfg pal (some t) f offset old (write_cfg pal (some t) f offset value s)
        ≡ (0, value % 2 ^ 32)
  read_cfg-write_cfg f offset value old s {a} e r =
      let at = add64 a offset in
      let written = config_writes pal t f offset value s a e in
      let reading =
        config_reads pal t f offset old (pal.mmio_write u32 at (value % 2 ^ 32) s) a e in
      let aligned = Placed-aligned offset (config_address-Placed t f a wf e) r in
      let back = memory.read_back at (value % 2 ^ 32) s aligned (omega arith) in
      rw (written, reading, back) (ap (λ (v : ℕ). let p : ℕ × ℕ = (0, v) in p) (omega arith))

  -- On registers that behave as memory, with a well-formed table of regions, a write to a register of
  -- one function, mapped or not, changes nothing that is read from the registers of another function.
  pub read_cfg-write_cfg_other :
      (f g offset offset' value old : ℕ) (s : S)
      → ¬ SameFunction f g
      → IsRegister offset
      → IsRegister offset'
      → read_cfg pal (some t) g offset' old (write_cfg pal (some t) f offset value s)
        ≡ read_cfg pal (some t) g offset' old s
  read_cfg-write_cfg_other f g offset offset' value old s other r r' =
      elim (Option-cases (config_address t f)) [
        | inl e ↦ rw (config_unmapped pal t f offset value s e)
        | inr (a, e) ↦ elim (Option-cases (config_address t g)) [
          | inl e' ↦
              rw (config_fails pal t g offset' old _ e', config_fails pal t g offset' old s e')
          | inr (a', e') ↦
              let aligned = Placed-aligned offset (config_address-Placed t f a wf e) r in
              let aligned' = Placed-aligned offset' (config_address-Placed t g a' wf e') r' in
              let (apart, _) =
                registers_distinct t f g a a' offset offset' wf e e' other r.0 r'.0 in
              let kept = memory.read_other _ _ (value % 2 ^ 32) s aligned aligned' apart in
              rw (
                config_writes pal t f offset value s a e,
                config_reads pal t g offset' old _ a' e',
                config_reads pal t g offset' old s a' e',
                kept,
              )
        ]
      ]
