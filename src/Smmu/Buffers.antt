-- ===== src/Smmu/Buffers.antt =====
-- Where the queues of val/sys_arch_src/smmu_v3/smmu_v3.c lie in the memory allocated for them.
use riscv_server_soc_ts.Prelude.{
  ℕ, zero, suc, ◌+◌, ◌-◌, ◌*◌, ◌^◌, ◌≤◌, ◌<◌, ◌≡◌, ◌≢◌, ap, ◌∙◌, arith, false, ≢→==, ltb,
}
use riscv_server_soc_ts.Bits.{u64_mod}
use riscv_server_soc_ts.Bits.Laws.{two_pow-suc, two_pow_pos}
use riscv_server_soc_ts.Smmu.{SmmuPal, SmmuDev, QueueBuffer}
use riscv_server_soc_ts.Smmu.Align.{align_to_size_bounds}
use riscv_server_soc_ts.Smmu.Init.{queue_init, cmd_queue_init, evnt_queue_init}

two_pow-add_four : (n : ℕ) → 2 ^ (n + 4) ≡ 2 ^ n * 16
two_pow-add_four n =
    let four : n + 4 ≡ suc (suc (suc (suc n))) = omega arith in
    ap (λ (k : ℕ). 2 ^ k) four
    ∙ omega (
      arith,
      two_pow-suc n,
      two_pow-suc (suc n),
      two_pow-suc (suc (suc n)),
      two_pow-suc (suc (suc (suc n))),
    )

two_pow-add_five : (n : ℕ) → 2 ^ (n + 5) ≡ 2 ^ n * 32
two_pow-add_five n =
    let five : n + 5 ≡ suc (n + 4) = omega arith in
    ap (λ (k : ℕ). 2 ^ k) five ∙ omega (arith, two_pow-suc (n + 4), two_pow-add_four n)

-- A queue of at least 32 bytes is not enlarged.
two_pow_two : (n : ℕ) → 0 < n → 2 ≤ 2 ^ n
two_pow_two zero h = absurd (omega arith)
two_pow_two (suc n) h = omega (arith, two_pow-suc n, two_pow_pos n)

module _ {S : Type 0} (pal : SmmuPal S) where
  queue_init-base :
      (dwords lowest copies prod_reg cons_reg k m : ℕ) (b : QueueBuffer) (s : S)
      → 2 ^ b.queue.log2nent * dwords * 8 ≡ 2 ^ k
      → lowest ≤ 2 ^ k
      → k + m ≡ 64
      → (pal.calloc copies (2 ^ k) s).0 ≢ 0
      → (pal.calloc copies (2 ^ k) s).0 + 2 ^ k < u64_mod
      → ((pal.calloc copies (2 ^ k) s).0
          < (queue_init pal dwords lowest copies prod_reg cons_reg b s).1.base)
        × ((queue_init pal dwords lowest copies prod_reg cons_reg b s).1.base
            ≤ (pal.calloc copies (2 ^ k) s).0 + 2 ^ k)
  unfolding queue_init
  queue_init-base dwords lowest copies prod_reg cons_reg k m b s size least all ne fits =
      let plain : ltb (2 ^ k) lowest ≡ false = ground arith in
      let made = ≢→== _ _ ne in
      let (_, above, below) = align_to_size_bounds k m (pal.calloc copies (2 ^ k) s).0 all fits in
      rw (size, plain, made) (above, below)

  -- For queues of 2 to 2^19 entries, of which the memory is allocated and does not reach the end of the
  -- address space, the command queue ends within the two blocks of its size that are allocated for
  -- it. The event queue, with one block, always ends past the end of its memory.
  pub cmd_queue_init-evnt_queue_init :
      (n m : ℕ) (smmu : SmmuDev) (s s' : S)
      → 0 < n
      → n ≤ 19
      → 0 < m
      → m ≤ 19
      → smmu.cmdq.queue.log2nent ≡ n
      → smmu.evntq.queue.log2nent ≡ m
      → let cmd = (pal.calloc 2 (2 ^ (n + 4)) s).0 in
        let evnt = (pal.calloc 1 (2 ^ (m + 5)) s').0 in
        cmd ≢ 0
        → evnt ≢ 0
        → cmd + 2 ^ (n + 4) < u64_mod
        → evnt + 2 ^ (m + 5) < u64_mod
        → ((cmd_queue_init pal smmu s).1.cmdq.base + 2 ^ n * 16 ≤ cmd + 2 * 2 ^ (n + 4))
          × (evnt + 2 ^ (m + 5) < (evnt_queue_init pal smmu s').1.evntq.base + 2 ^ m * 32)
  unfolding cmd_queue_init evnt_queue_init
  cmd_queue_init-evnt_queue_init n m smmu s s' pn ln pm lm cn cm some_cmd some_evnt fits fits' =
      let size = two_pow-add_four n in
      let size' = two_pow-add_five m in
      let least : 32 ≤ 2 ^ (n + 4) = omega (arith, two_pow_two n pn) in
      let least' : 64 ≤ 2 ^ (m + 5) = omega (arith, two_pow_two m pm) in
      let here = ap (λ (x : ℕ). 2 ^ x * 2 * 8) cn in
      let here' = ap (λ (x : ℕ). 2 ^ x * 4 * 8) cm in
      let wanted : 2 ^ n * 2 * 8 ≡ 2 ^ (n + 4) = omega arith in
      let wanted' : 2 ^ m * 4 * 8 ≡ 2 ^ (m + 5) = omega arith in
      let inside : (cmd_queue_init pal smmu s).1.cmdq.base
          ≤ (pal.calloc 2 (2 ^ (n + 4)) s).0 + 2 ^ (n + 4) =
        (queue_init-base 2 32 2 _ _ (n + 4) (60 - n) smmu.cmdq s (here ∙ wanted) least (omega arith)
          some_cmd fits).1 in
      let past : (pal.calloc 1 (2 ^ (m + 5)) s').0 < (evnt_queue_init pal smmu s').1.evntq.base =
        (queue_init-base 4 64 1 _ _ (m + 5) (59 - m) smmu.evntq s' (here' ∙ wanted') least'
          (omega arith) some_evnt fits').0 in
      (omega arith, omega arith)
