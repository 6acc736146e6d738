-- ===== src/Smmu/Walk.antt =====
-- The stream tables of val/sys_arch_src/smmu_v3/smmu_v3.c as the SMMU reads them: the entry that it
-- finds for a stream is the one that the driver writes.
use native.Mathlib.Nat.{mod-eq_of_lt, pow-le-pow_right}
use riscv_server_soc_ts.Prelude.{
  ℕ, ◌+◌, ◌-◌, ◌*◌, ◌/◌, ◌%◌, ◌^◌, ◌≤◌, ◌<◌, ◌≡◌, ◌≢◌, refl, sym, ap, ◌∙◌, arith, true, false, ◌&&◌,
  ◌==◌, ≡→==, ≢→==, ltb, leb, if◌then◌else◌, Option, none, some, bit_or,
}
use riscv_server_soc_ts.Bits.{add64, shr, low_bits, u64_mod}
use riscv_server_soc_ts.Bits.Laws.{bit_or-shifted, bit_or_comm, all_below, all_below_sound}
use riscv_server_soc_ts.Smmu.{
  SmmuPal, SmmuDev, StrtabConfig, StrtabL1Desc, align_to_size, bitfield_get, bitfield_set, in_place,
  set_at, strtab_split, ste_bytes,
}
use riscv_server_soc_ts.Smmu.Align.{align_to_size_bounds}
use riscv_server_soc_ts.Smmu.Stream.{
  l2_bytes, level1_word, get_ste_for_sid, strtab_init_level2, abort_loop,
}

-- The words of the base registers: the address, and the format, the size and the split.
abbrev pub base_word : ℕ → ℕ
base_word table = bit_or (in_place 51 6 table) (2 ^ 62)

abbrev pub cfg_word : ℕ → ℕ
cfg_word log2size =
    bit_or (bit_or (bitfield_set 17 16 1) (bitfield_set 5 0 log2size))
      (bitfield_set 10 6 strtab_split)

-- A table of two levels at an address of 52 bits that is a multiple of 64, with equal virtual and
-- physical addresses, of which the base registers have been worked out.
pub record IsTwoLevel (smmu : SmmuDev) : Type 0 where
  pub two_level : smmu.st_level_2lvl ≡ true
  pub log2size : ℕ
  pub small : log2size ≤ 32
  pub base : smmu.strtab_cfg.strtab_base ≡ base_word smmu.strtab_cfg.strtab64
  pub cfg : smmu.strtab_cfg.strtab_base_cfg ≡ cfg_word log2size
  pub aligned : smmu.strtab_cfg.strtab64 % 64 ≡ 0
  pub low : smmu.strtab_cfg.strtab64 < 2 ^ 52

in_place_low : (p : ℕ) → p % 64 ≡ 0 → p < 2 ^ 52 → in_place 51 6 p ≡ p
in_place_low p al lt = omega arith

pub base_word-in_place : (p : ℕ) → p % 64 ≡ 0 → p < 2 ^ 52 → in_place 51 6 (base_word p) ≡ p
base_word-in_place p al lt =
    let sum : bit_or (1 * 2 ^ 62) p ≡ 1 * 2 ^ 62 + p = bit_or-shifted 62 1 p (omega arith) in
    rw (in_place_low p al lt, bit_or_comm p (2 ^ 62), sum) (omega arith)

cfg_table :
    all_below 64 (λ l.
      (bitfield_get 17 16 (cfg_word l) == 1 && bitfield_get 10 6 (cfg_word l) == 8)
      && bitfield_get 5 0 (cfg_word l) == l)
    ≡ true
unfolding all_below
cfg_table = refl

each : (a b c x y z : ℕ) → ((a == x && b == y) && c == z) ≡ true → (a ≡ x) × (b ≡ y) × (c ≡ z)
each a b c x y z h = (ground arith, ground arith, ground arith)

pub cfg_word-fields :
    (l : ℕ)
    → l ≤ 32
    → (bitfield_get 17 16 (cfg_word l) ≡ 1)
      × (bitfield_get 10 6 (cfg_word l) ≡ 8)
      × (bitfield_get 5 0 (cfg_word l) ≡ l)
cfg_word-fields l h =
    let below : l < 64 = omega arith in
    each _ _ _ 1 8 l (
      all_below_sound
        (λ l.
          (bitfield_get 17 16 (cfg_word l) == 1 && bitfield_get 10 6 (cfg_word l) == 8)
          && bitfield_get 5 0 (cfg_word l) == l)
        64 cfg_table below)

-- A descriptor with a span of 9: the span and the address are read back.
level1_word-fields :
    (d : StrtabL1Desc)
    → d.span ≡ 9
    → d.l2desc_phys % 64 ≡ 0
    → d.l2desc_phys < 2 ^ 52
    → (level1_word d ≡ d.l2desc_phys + 9)
      × (bitfield_get 4 0 (d.l2desc_phys + 9) ≡ 9)
      × (in_place 51 6 (d.l2desc_phys + 9) ≡ d.l2desc_phys)
unfolding level1_word
level1_word-fields d e al lt =
    let p = d.l2desc_phys in
    let whole : p / 64 * 2 ^ 6 ≡ p = omega arith in
    let sum = bit_or-shifted 6 (p / 64) 9 (omega arith) in
    (
      rw (e, in_place_low p al lt, bit_or_comm 9 p)
          (ap (λ (x : ℕ). bit_or x 9) (sym whole) ∙ sum ∙ omega arith),
      omega arith,
      omega arith,
    )

module _ {S : Type 0} (pal : SmmuPal S) where
  -- The SMMU's own look-up of a stream's entry: a stream past the size of the table has none, and in a
  -- table of two levels the descriptor of the first has the address of a table and its span, of which
  -- 0 marks the descriptor as invalid.
  unfoldable pub walk_ste : StrtabConfig → ℕ → S → Option ℕ
  walk_ste cfg sid s =
      let base = in_place 51 6 cfg.strtab_base in
      let split = bitfield_get 10 6 cfg.strtab_base_cfg in
      let desc = pal.read64 (base + shr sid split * 8) s in
      let span = bitfield_get 4 0 desc in
      let index = low_bits sid split in
      if leb (2 ^ bitfield_get 5 0 cfg.strtab_base_cfg) sid
      then none
      else if bitfield_get 17 16 cfg.strtab_base_cfg == 1
      then (if span == 0
          then none
          else if ltb index (2 ^ (span - 1))
          then some (in_place 51 6 desc + index * ste_bytes)
          else none)
      else some (base + sid * ste_bytes)

  module _ (smmu : SmmuDev) (sid : ℕ) (s : S) where
    -- What the memory of a table of the second level is like.
    pub record IsAllocated : Type 0 where
      pub made : (pal.calloc 2 l2_bytes s).0 ≢ 0
      pub low : (pal.calloc 2 l2_bytes s).0 + 2 * l2_bytes ≤ 2 ^ 52
      pub identity : pal.virt_to_phys (pal.calloc 2 l2_bytes s).0 ≡ (pal.calloc 2 l2_bytes s).0
      pub read_back :
          (a value : ℕ) (t : S)
          → a % 8 ≡ 0
          → value < u64_mod
          → pal.read64 a (pal.write64 a value t) ≡ value

    abbrev ptr : ℕ
    ptr = (pal.calloc 2 l2_bytes s).0

    abbrev table : ℕ
    table = align_to_size ptr l2_bytes

    abbrev placed : StrtabL1Desc
    placed = record { span = 9; l2ptr = ptr; l2desc64 = table; l2desc_phys = table }

    abbrev mapped : SmmuDev
    mapped = record smmu {
      strtab_cfg = record (smmu.strtab_cfg) {
        l1_descs = set_at (shr sid strtab_split) placed smmu.strtab_cfg.l1_descs;
      };
    }

    abbrev filled : S
    filled =
        pal.write64 (add64 smmu.strtab_cfg.strtab64 (shr sid strtab_split * 8)) (level1_word placed)
          (abort_loop pal (2 ^ strtab_split) table (pal.calloc 2 l2_bytes s).1)

    init_level2-mapped :
        IsAllocated
        → (smmu.strtab_cfg.l1_descs (shr sid strtab_split)).l2ptr ≡ 0
        → strtab_init_level2 pal smmu sid s ≡ (1, mapped, filled)
    unfolding strtab_init_level2
    init_level2-mapped alloc fresh = rw (fresh, ≢→== _ _ alloc.made, alloc.identity) refl

    table_bounds : IsAllocated → (table % 64 ≡ 0) × (table + l2_bytes ≤ 2 ^ 52)
    table_bounds alloc =
        let low = alloc.low in
        let (al, above, below) = align_to_size_bounds 14 50 ptr refl (omega arith) in
        (omega arith, omega arith)

    get_ste-mapped :
        IsAllocated
        → smmu.st_level_2lvl ≡ true
        → get_ste_for_sid mapped sid ≡ table + low_bits sid strtab_split * ste_bytes
    unfolding get_ste_for_sid
    get_ste-mapped alloc two =
        let (al, room) = table_bounds alloc in
        let own : (shr sid strtab_split == shr sid strtab_split) ≡ true = ≡→== _ _ refl in
        rw (two, own) (mod-eq_of_lt (omega arith))

    read_level1 :
        IsTwoLevel smmu
        → IsAllocated
        → sid < 2 ^ 32
        → pal.read64 (smmu.strtab_cfg.strtab64 + shr sid strtab_split * 8) filled ≡ table + 9
    read_level1 two alloc lt =
        let base = smmu.strtab_cfg.strtab64 in
        let low = two.low in
        let al = two.aligned in
        let (tal, room) = table_bounds alloc in
        let word = (level1_word-fields placed refl tal (omega arith)).0 in
        let plain : add64 base (shr sid strtab_split * 8) ≡ base + shr sid strtab_split * 8 =
          mod-eq_of_lt (omega arith) in
        ap (λ (a : ℕ). pal.read64 a filled) (sym plain)
        ∙ alloc.read_back (add64 base (shr sid strtab_split * 8)) (level1_word placed) _
            (omega arith) (omega arith)
        ∙ word

    in_word : (two : IsTwoLevel smmu) → sid < 2 ^ two.log2size → sid < 2 ^ 32
    in_word two lt =
        let most : 2 ^ two.log2size ≤ 2 ^ 32 = pow-le-pow_right (omega arith) two.small in
        omega arith

    walk-mapped :
        (two : IsTwoLevel smmu)
        → IsAllocated
        → sid < 2 ^ two.log2size
        → walk_ste mapped.strtab_cfg sid filled
          ≡ some (table + low_bits sid strtab_split * ste_bytes)
    unfolding walk_ste
    walk-mapped two alloc lt =
        let base = ap (in_place 51 6) two.base ∙ base_word-in_place _ two.aligned two.low in
        let (format, split, size) = cfg_word-fields two.log2size two.small in
        let split' = ap (bitfield_get 10 6) two.cfg ∙ split in
        let format' = ap (bitfield_get 17 16) two.cfg ∙ format in
        let size' = ap (bitfield_get 5 0) two.cfg ∙ size in
        let inside : leb (2 ^ two.log2size) sid ≡ false = ground arith in
        let (tal, room) = table_bounds alloc in
        let (_, span, place) = level1_word-fields placed refl tal (omega arith) in
        let within : ltb (low_bits sid 8) (2 ^ 8) ≡ true = ground arith in
        rw
          (
            size',
            inside,
            format',
            base,
            split',
            read_level1 two alloc (in_word two lt),
            span,
            place,
            within,
          )
          refl

    -- When a stream within the size of a table of two levels is mapped first, and the memory for its table of the second
    -- level is allocated within the first 52 bits, at equal addresses, the SMMU finds for the
    -- stream the entry that the driver works out.
    pub strtab_init_level2-walk_ste :
        (two : IsTwoLevel smmu)
        → IsAllocated
        → (smmu.strtab_cfg.l1_descs (shr sid strtab_split)).l2ptr ≡ 0
        → sid < 2 ^ two.log2size
        → let (status, smmu', s') = strtab_init_level2 pal smmu sid s in
          (status ≡ 1) × (walk_ste smmu'.strtab_cfg sid s' ≡ some (get_ste_for_sid smmu' sid))
    strtab_init_level2-walk_ste two alloc fresh lt = rw (init_level2-mapped alloc fresh) (
      refl,
      walk-mapped two alloc lt
          ∙ ap (λ (a : ℕ). let o : Option ℕ = some a in o)
              (sym (get_ste-mapped alloc two.two_level)),
    )
