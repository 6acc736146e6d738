-- ===== src/Pcie/Bitfields/Writable.antt =====
-- The check of one field on a register that keeps what is written to it.
use Prim.Native.String.{String}
use riscv_server_soc_ts.Prelude.{
  ℕ, ◌-◌, ◌^◌, ◌<◌, ◌≡◌, ◌≢◌, arith, refl, ap, ◌∙◌, Bool, true, false, ◌!=◌, if◌then◌else◌, Option,
  some, bit_xor,
}
use riscv_server_soc_ts.Bits.{add32}
use riscv_server_soc_ts.Bits.Toggle.{bit_xor-lt, eq-zero_of_bit_xor}
use riscv_server_soc_ts.Pcie.{Pal, InfoTable}
use riscv_server_soc_ts.Pcie.Config.{read_cfg, write_cfg}
use riscv_server_soc_ts.Pcie.Ecam.{config_address}
use riscv_server_soc_ts.Pcie.Isolation.{IsWellFormed}
use riscv_server_soc_ts.Pcie.Memory.{IsMemory, IsRegister, read_cfg-write_cfg, config_reads}
use riscv_server_soc_ts.Pcie.Bitfields.{
  Attribute, hw_init, read_only, sticky_ro, read_write, sticky_rw, BitfieldEntry, alignment,
  placed_mask, field_of, write_read, try_attribute, judge_attribute, check_at, find_base,
  bitfield_check,
}

-- The attributes of fields that software may alter, and of those that it may not.
pub data IsAlterable : Attribute → Type 0 where
  alter_plain : IsAlterable read_write
  alter_sticky : IsAlterable sticky_rw

pub data IsFixed : Attribute → Type 0 where
  fixed_init : IsFixed hw_init
  fixed_plain : IsFixed read_only
  fixed_sticky : IsFixed sticky_ro

-- The register that an entry speaks of, in the structure at `cap_base`.
abbrev pub register_of : BitfieldEntry → ℕ → ℕ
register_of e cap_base = add32 cap_base (e.reg_offset - alignment e)

placed_mask-lt : (e : BitfieldEntry) → placed_mask e < 2 ^ 32
unfolding placed_mask
placed_mask-lt e = omega arith

differs : (x y : ℕ) → x ≢ y → (x != y) ≡ true
differs x y h = ground arith

-- The function is mapped at `a`, and its register at `at` is one of plain memory.
module _ {S : Type 0} (pal : Pal S) (memory : IsMemory pal) (t : InfoTable) (wf : IsWellFormed t)
    (fuel junk : ℕ) (is_warning : String → Bool) (bdf a at : ℕ)
    (mapped : config_address t bdf ≡ some a) (register : IsRegister at) where
  abbrev contents : ℕ → S → ℕ
  contents old s = (read_cfg pal (some t) bdf at old s).1

  contents-lt : (old : ℕ) (s : S) → contents old s < 2 ^ 32
  contents-lt old s =
      let read = ap (λ (r : ℕ × ℕ). r.1) (config_reads pal t bdf at old s a mapped) in omega arith

  write_read_lem :
      (value old : ℕ) (s : S)
      → value < 2 ^ 32
      → write_read pal (some t) bdf at value old s ≡ (value, write_cfg pal (some t) bdf at value s)
  unfolding write_read
  write_read_lem value old s h =
      let s' = write_cfg pal (some t) bdf at value s in
      let back = read_cfg-write_cfg pal memory t wf bdf at value old s mapped register in
      let kept : (read_cfg pal (some t) bdf at old s').1 ≡ value =
        ap (λ (r : ℕ × ℕ). r.1) back ∙ omega arith in
      ap (λ (v : ℕ). let r : ℕ × S = (v, s') in r) kept

  -- What the register holds when the check begins, and the state once it is written back.
  abbrev pub held : S → ℕ
  held s = contents junk s

  abbrev written : S → S
  written s = write_cfg pal (some t) bdf at (held s) s

  -- The check once the field has the expected value.
  check_expected :
      (e : BitfieldEntry) (cap_base : ℕ) (s : S)
      → register_of e cap_base ≡ at
      → field_of e (held s) ≡ e.cfg_value
      → check_at pal (some t) fuel junk is_warning e bdf cap_base s
        ≡ judge_attribute pal
            (some t)
            fuel
            junk
            is_warning
            e
            (written s)
            (try_attribute pal (some t) e bdf at (held s) (written s) e.attr)
  unfolding check_at
  check_expected e cap_base s place expected =
      let read = write_read_lem (held s) (held s) s (contents-lt junk s) in
      let fits : (field_of e (held s) != e.cfg_value) ≡ false = ground arith in
      rw (place, read, fits) refl

  abbrev toggled : BitfieldEntry → S → ℕ
  toggled e s = bit_xor (held s) (placed_mask e)

  toggled-lt : (e : BitfieldEntry) (s : S) → toggled e s < 2 ^ 32
  toggled-lt e s = bit_xor-lt 32 (held s) (placed_mask e) (contents-lt junk s) (placed_mask-lt e)

  read_after_write :
      (value old : ℕ) (s : S)
      → value < 2 ^ 32
      → read_cfg pal (some t) bdf at old (write_cfg pal (some t) bdf at value s) ≡ (0, value)
  read_after_write value old s h =
      read_cfg-write_cfg pal memory t wf bdf at value old s mapped register
      ∙ ap (λ (v : ℕ). let r : ℕ × ℕ = (0, v) in r) (omega arith)

  restored : BitfieldEntry → S → S
  restored e s =
      write_cfg pal (some t) bdf at (held s)
        (write_cfg pal (some t) bdf at (toggled e s) (written s))

  try_alterable :
      (e : BitfieldEntry) (s : S) (attr : Attribute)
      → IsAlterable attr
      → try_attribute pal (some t) e bdf at (held s) (written s) attr
        ≡ some (toggled e s, toggled e s, restored e s)
  unfolding try_attribute restored
  try_alterable e s attr alter_plain =
      rw (write_read_lem (toggled e s) (held s) (written s) (toggled-lt e s)) refl
  try_alterable e s attr alter_sticky =
      rw (write_read_lem (toggled e s) (held s) (written s) (toggled-lt e s)) refl

  try_fixed :
      (e : BitfieldEntry) (s : S) (attr : Attribute)
      → IsFixed attr
      → try_attribute pal (some t) e bdf at (held s) (written s) attr
        ≡ some (toggled e s, held s, write_cfg pal (some t) bdf at (toggled e s) (written s))
  unfolding try_attribute
  try_fixed e s attr fixed_init =
      rw (write_read_lem (toggled e s) (toggled e s) (written s) (toggled-lt e s)) refl
  try_fixed e s attr fixed_plain =
      rw (write_read_lem (toggled e s) (toggled e s) (written s) (toggled-lt e s)) refl
  try_fixed e s attr fixed_sticky =
      rw (write_read_lem (toggled e s) (toggled e s) (written s) (toggled-lt e s)) refl

  -- The outcome of a check, and that the register holds a value after it.
  abbrev pub Leaves : BitfieldEntry → S → ℕ → ℕ → Type 0
  Leaves e s status value =
      (s' : S) × (bitfield_check pal (some t) fuel junk is_warning e bdf s ≡ some (status, s'))
      × (read_cfg pal (some t) bdf at junk s' ≡ (0, value))

  module _ (e : BitfieldEntry) (cap_base : ℕ) (s : S) where
    -- The check, once the place, the value and the outcome of the switch over attributes are known.
    check_found :
        (overwrite value status : ℕ) (s' : S)
        → find_base pal (some t) fuel junk is_warning e bdf s e.reg_type ≡ some (0, cap_base)
        → register_of e cap_base ≡ at
        → field_of e (held s) ≡ e.cfg_value
        → try_attribute pal (some t) e bdf at (held s) (written s) e.attr
          ≡ some (overwrite, value, s')
        → (if overwrite != value then (if is_warning e.err_str2 then 0 else 1) else 0) ≡ status
        → bitfield_check pal (some t) fuel junk is_warning e bdf s ≡ some (status, s')
    unfolding bitfield_check judge_attribute
    check_found overwrite value status s' found place expected tried outcome =
        let judged = judge_attribute pal (some t) fuel junk is_warning e (written s) in
        let at_base = check_expected e cap_base s place expected ∙ ap judged tried in
        rw (found, bitfield_check)
          (ap (λ (r : ℕ × S). let o : Option (ℕ × S) = some r in o) at_base
            ∙ ap (λ (n : ℕ). let o : Option (ℕ × S) = some (n, s') in o) outcome)

    -- A field that software may alter passes on a register that keeps what is written to it, once its
    -- value is the expected one, and the register holds afterwards what it held before.
    pub bitfield_check_alterable :
        find_base pal (some t) fuel junk is_warning e bdf s e.reg_type ≡ some (0, cap_base)
        → register_of e cap_base ≡ at
        → field_of e (held s) ≡ e.cfg_value
        → IsAlterable e.attr
        → Leaves e s 0 (held s)
    unfolding restored
    bitfield_check_alterable found place expected attr =
        let same : (toggled e s != toggled e s) ≡ false = ground arith in
        (
          restored e s,
          check_found (toggled e s) (toggled e s) 0 (restored e s) found place expected
              (try_alterable e s e.attr attr) (rw (same) refl),
          read_after_write (held s) junk _ (contents-lt junk s),
        )

    -- A field that software may not alter is reported as a failure by a check on a register that keeps
    -- what is written to it, when its value is the expected one, it has some bit in the register and
    -- its second error text is no warning. The register holds afterwards the field's bits toggled.
    pub bitfield_check_fixed :
        find_base pal (some t) fuel junk is_warning e bdf s e.reg_type ≡ some (0, cap_base)
        → register_of e cap_base ≡ at
        → field_of e (held s) ≡ e.cfg_value
        → IsFixed e.attr
        → placed_mask e ≢ 0
        → is_warning e.err_str2 ≡ false
        → Leaves e s 1 (bit_xor (held s) (placed_mask e))
    bitfield_check_fixed found place expected attr some_bit no_warning =
        let changed : (toggled e s != held s) ≡ true =
          differs (toggled e s) (held s)
            (λ same. some_bit (eq-zero_of_bit_xor (held s) (placed_mask e) same)) in
        (
          write_cfg pal (some t) bdf at (toggled e s) (written s),
          check_found (toggled e s) (held s) 1 _ found place expected (try_fixed e s e.attr attr)
              (rw (changed, no_warning) refl),
          read_after_write (toggled e s) junk _ (toggled-lt e s),
        )
