-- ===== src/Iommu/Access.antt =====
-- What is written to a register of an IOMMU that is a PCIe function is read back from it.
use riscv_server_soc_ts.Prelude.{
  ℕ, zero, suc, ◌+◌, ◌*◌, ◌/◌, ◌%◌, ◌^◌, ◌≤◌, ◌<◌, ◌≡◌, ◌≢◌, arith, refl, ap, ◌∙◌, true, false,
  ◌==◌, ≢→==, Option, some, bit_or,
}
use riscv_server_soc_ts.Bits.{low_bits, field, add64, u64_mod}
use riscv_server_soc_ts.Bits.Laws.{bit_or-shifted}
use riscv_server_soc_ts.Pcie.{Pal, InfoTable}
use riscv_server_soc_ts.Pcie.Config.{read_cfg}
use riscv_server_soc_ts.Pcie.Device.{function_header_type}
use riscv_server_soc_ts.Pcie.Bars.{bar, bar_address, bar_loop, get_mmio_bar}
use riscv_server_soc_ts.Iommu.{IommuTable, get_info, info_flags}
use riscv_server_soc_ts.Iommu.Registers.{
  BarPal, iommu_bdf, bar_base, is_refused, is_iommu, read_bar, write_bar, read_iommu_reg,
  write_iommu_reg,
}

-- The BAR space from `lo` to below `hi` behaves as memory by aligned 32-bit words, and no write to it
-- changes the header of a function. A platform that reads and writes it as it does its other memory has
-- this property for a window apart from the ECAM regions.
pub record IsBarMemory {S : Type 0} (pal : Pal S) (bars : BarPal S) (info : Option InfoTable)
    (lo hi : ℕ) : Type 0 where
  pub read_back :
      (bdf a value : ℕ) (s : S)
      → lo ≤ a
      → a < hi
      → a % 4 ≡ 0
      → value < 2 ^ 32
      → bars.bar_mem_read bdf a (bars.bar_mem_write bdf a value s) ≡ value
  pub read_other :
      (bdf a a' value : ℕ) (s : S)
      → lo ≤ a
      → a < hi
      → lo ≤ a'
      → a' < hi
      → a % 4 ≡ 0
      → a' % 4 ≡ 0
      → a ≢ a'
      → bars.bar_mem_read bdf a' (bars.bar_mem_write bdf a value s) ≡ bars.bar_mem_read bdf a' s
  pub header_kept :
      (bdf a value bdf' offset old : ℕ) (s : S)
      → lo ≤ a
      → a < hi
      → offset < 64
      → read_cfg pal info bdf' offset old (bars.bar_mem_write bdf a value s)
        ≡ read_cfg pal info bdf' offset old s

-- Two states with the same headers have the same BARs.
module _ {S : Type 0} (pal : Pal S) (info : Option InfoTable) (fuel junk : ℕ) (s s' : S)
    (same : (bdf offset old : ℕ)
      → offset < 64
      → read_cfg pal info bdf offset old s ≡ read_cfg pal info bdf offset old s') where
  bar_same :
      (bdf index : ℕ)
      → index < 12
      → bar pal info fuel junk bdf index s ≡ bar pal info fuel junk bdf index s'
  bar_same bdf index lt = ap (λ (r : ℕ × ℕ). r.1) (same bdf (0x10 + index * 4) junk (omega arith))

  header_same :
      (bdf : ℕ)
      → function_header_type pal info fuel junk bdf s
        ≡ function_header_type pal info fuel junk bdf s'
  unfolding function_header_type
  header_same bdf = ap (λ (r : ℕ × ℕ). field (field r.1 16 8) 0 7) (same bdf 0xc junk (omega arith))

  address_same :
      (bdf index high : ℕ)
      → index < 11
      → bar_address pal info fuel junk bdf index high s
        ≡ bar_address pal info fuel junk bdf index high s'
  unfolding bar_address
  address_same bdf index high lt =
      rw (bar_same bdf index (omega arith), bar_same bdf (index + 1) (omega arith)) refl

  bar_loop_same :
      (n index bdf high : ℕ)
      → index + n ≤ 6
      → bar_loop pal info fuel junk n index bdf high s
        ≡ bar_loop pal info fuel junk n index bdf high s'
  unfolding bar_loop
  bar_loop_same zero index bdf high le = refl
  bar_loop_same (suc n) index bdf high le =
      rw
        (
          bar_same bdf index (omega arith),
          address_same bdf index high (omega arith),
          header_same bdf,
          bar_loop_same n (index + 1) bdf high (omega arith),
        )
        refl

join_words :
    (value : ℕ)
    → bit_or (value / 2 ^ 32 % 2 ^ 32 % 2 ^ 32 * 2 ^ 32) (value % 2 ^ 32 % 2 ^ 32) ≡ value % u64_mod
join_words value =
    bit_or-shifted 32 (value / 2 ^ 32 % 2 ^ 32 % 2 ^ 32) (value % 2 ^ 32 % 2 ^ 32) (omega arith)
    ∙ omega arith

module _ {S : Type 0} (pal : Pal S) (bars : BarPal S) (info : Option InfoTable) (lo hi : ℕ)
    (memory : IsBarMemory pal bars info lo hi) (fuel junk rounds : ℕ) (table : IommuTable) where
  -- A write in the BAR space leaves the base of the IOMMU's registers.
  base_kept :
      (index a value : ℕ) (s : S)
      → bars.is_exerciser (iommu_bdf table index) ≡ false
      → lo ≤ a
      → a < hi
      → bar_base pal bars info fuel junk rounds table index
          (bars.bar_mem_write (iommu_bdf table index) a value s)
        ≡ bar_base pal bars info fuel junk rounds table index s
  unfolding get_mmio_bar
  base_kept index a value s plain above below =
      let bdf = iommu_bdf table index in
      let after = bars.bar_mem_write bdf a value s in
      let loops =
        bar_loop_same pal info fuel junk after s
          (λ f offset old lt. memory.header_kept bdf a value f offset old s above below lt) 6 0 bdf
          0 (omega arith) in
      rw (plain) (ap (λ (v : ℕ). let o : Option ℕ = some v in o) loops)

  -- An IOMMU that is a PCIe function and no exerciser, with its registers at `base`, and an aligned
  -- register of it in the range of the two functions and in the window of BAR space.
  pub record IsRegisterAt (index offset base : ℕ) (s : S) : Type 0 where
    pub present : is_refused pal bars info fuel junk rounds table offset 2 ≡ false
    pub iommu : is_iommu pal bars info fuel junk rounds table index ≡ true
    pub pcie : low_bits (get_info table index info_flags) 1 ≡ 1
    pub plain : bars.is_exerciser (iommu_bdf table index) ≡ false
    pub place : bar_base pal bars info fuel junk rounds table index s ≡ some base
    pub aligned : (base % 4 ≡ 0) × (offset % 4 ≡ 0)
    pub inside : base + offset + 4 < u64_mod
    pub window : (lo ≤ base + offset) × (base + offset + 4 < hi)

  writes :
      (index offset base value : ℕ) (s : S)
      → IsRegisterAt index offset base s
      → write_iommu_reg pal bars info fuel junk rounds table index offset 2 value s
        ≡ some (write_bar pal bars info fuel junk rounds table index offset 2 base value s)
  unfolding write_iommu_reg
  writes index offset base value s r =
      let function : (low_bits (get_info table index info_flags) 1 == 0) ≡ false =
        ≢→== _ _ (omega (arith, r.pcie)) in
      rw (r.present, r.iommu, function, r.place, write_iommu_reg) refl

  reads :
      (index offset base : ℕ) (s : S)
      → IsRegisterAt index offset base s
      → read_iommu_reg pal bars info fuel junk rounds table index offset 2 s
        ≡ some (read_bar pal bars info fuel junk rounds table index offset 2 base s, s)
  unfolding read_iommu_reg
  reads index offset base s r =
      let function : (low_bits (get_info table index info_flags) 1 == 0) ≡ false =
        ≢→== _ _ (omega (arith, r.pcie)) in
      rw (r.present, r.iommu, function, r.place, read_iommu_reg) refl

  -- The two words that a write of two words leaves, and that it leaves the register where it is.
  module _ (index offset base value : ℕ) (s : S) (r : IsRegisterAt index offset base s) where
    abbrev after_write : S
    after_write = write_bar pal bars info fuel junk rounds table index offset 2 base value s

    still_there : IsRegisterAt index offset base after_write
    unfolding write_bar
    still_there =
        let low_at : add64 base offset ≡ base + offset = omega (arith, r.inside) in
        let high_at : add64 base (offset + 4) ≡ base + offset + 4 = omega (arith, r.inside) in
        let (above, below) = r.window in
        record {
          present = r.present;
          iommu = r.iommu;
          pcie = r.pcie;
          plain = r.plain;
          place =
              base_kept index _ _ _ r.plain (omega arith) (omega arith)
              ∙ base_kept index _ _ _ r.plain (omega arith) (omega arith)
              ∙ r.place;
          aligned = r.aligned;
          inside = r.inside;
          window = r.window;
        }

    words_read :
        read_bar pal bars info fuel junk rounds table index offset 2 base after_write
        ≡ value % u64_mod
    unfolding read_bar write_bar
    words_read =
        let bdf = iommu_bdf table index in
        let low_at : add64 base offset ≡ base + offset = omega (arith, r.inside) in
        let high_at : add64 base (offset + 4) ≡ base + offset + 4 = omega (arith, r.inside) in
        let (four, four') = r.aligned in
        let (above, below) = r.window in
        let low = value % 2 ^ 32 in
        let high = value / 2 ^ 32 % 2 ^ 32 in
        let kept =
          memory.read_other bdf (base + offset + 4) (base + offset) high
            (bars.bar_mem_write bdf (base + offset) low s) (omega arith) (omega arith) (omega arith)
            (omega arith) (omega arith) (omega arith) (omega arith) in
        let back =
          memory.read_back bdf (base + offset) low s (omega arith) (omega arith) (omega arith)
            (omega arith) in
        let back' =
          memory.read_back bdf (base + offset + 4) high
            (bars.bar_mem_write bdf (base + offset) low s) (omega arith) (omega arith) (omega arith)
            (omega arith) in
        rw (low_at, high_at, kept, back, back') (join_words value)

  -- A value of two words that is written to an aligned register of an IOMMU that is a PCIe function is
  -- read back from it in 64 bits, when the register lies in a window of BAR space that behaves as
  -- memory and in which writes change no header of a function.
  pub read_iommu_reg-write_iommu_reg :
      (index offset base value : ℕ) (s : S)
      → IsRegisterAt index offset base s
      → (s' : S) × (write_iommu_reg pal bars info fuel junk rounds table index offset 2 value s
          ≡ some s')
        × (read_iommu_reg pal bars info fuel junk rounds table index offset 2 s'
            ≡ some (value % u64_mod, s'))
  read_iommu_reg-write_iommu_reg index offset base value s r =
      let s' = write_bar pal bars info fuel junk rounds table index offset 2 base value s in
      (
        s',
        writes index offset base value s r,
        reads index offset base s' (still_there index offset base value s r)
            ∙ ap (λ (v : ℕ). let o : Option (ℕ × S) = some (v, s') in o)
                (words_read index offset base value s r),
      )
