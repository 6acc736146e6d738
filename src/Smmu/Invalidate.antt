-- ===== src/Smmu/Invalidate.antt =====
-- `smmu_tlbi_cfgi` (val/sys_arch_src/smmu_v3/smmu_v3.c): what an invalidation leaves in the command queue.
use riscv_server_soc_ts.Prelude.{
  ℕ, zero, suc, ◌+◌, ◌*◌, ◌%◌, ◌^◌, ◌≤◌, ◌<◌, ◌≡◌, ◌⊎◌, refl, ◌∙◌, arith, Bool, true, false,
  Bool-cases, inl, inr, if◌then◌else◌, List, [], ◌∷◌, length, All,
}
use riscv_server_soc_ts.Bits.{low_bits}
use riscv_server_soc_ts.Smmu.{SmmuPal, SmmuDev, Queue}
use riscv_server_soc_ts.Smmu.Positions.{queue_empty}
use riscv_server_soc_ts.Smmu.Command.{
  build_cmd, tlbi_cfgi, poll_until_consumed, consumed_loop, cmdq_op_cfgi_all, cmdq_op_tlbi_el2_all,
  cmdq_op_tlbi_nsnh_all, cmdq_op_cmd_sync,
}
use riscv_server_soc_ts.Smmu.Issue.{
  IsCommandPort, IsCommandQueue, IsCommand, Holds, issue_all, issue_all-Holds, issue_all-outside,
}

-- The commands of `smmu_tlbi_cfgi`, in order.
abbrev pub invalidation : Bool → List ℕ
invalidation hyp =
    let rest = cmdq_op_tlbi_nsnh_all ∷ cmdq_op_cmd_sync ∷ [] in
    cmdq_op_cfgi_all ∷ (if hyp then cmdq_op_tlbi_el2_all ∷ rest else rest)

module _ {S : Type 0} (pal : SmmuPal S) (smmu : SmmuDev) (prod : S → ℕ)
    (port : IsCommandPort pal smmu.cmdq prod) (queue : IsCommandQueue pal smmu.cmdq) where
  consumed_loop-kept :
      (timeout : ℕ) (q : Queue) (s : S)
      → (prod (consumed_loop pal timeout smmu.cmdq q s).1 ≡ prod s)
        × ((a : ℕ) → pal.read64 a (consumed_loop pal timeout smmu.cmdq q s).1 ≡ pal.read64 a s)
  unfolding consumed_loop
  consumed_loop-kept zero q s = (refl, λ a. refl)
  consumed_loop-kept (suc timeout) q s = elim (Bool-cases (queue_empty q)) [
    | inl done ↦ rw (done) (refl, λ a. refl)
    | inr wait ↦
        let later = consumed_loop-kept timeout _ (pal.mmio_read smmu.cmdq.cons_reg s).1 in
        rw (wait) (later.0 ∙ port.read_prod _ s, λ a. later.1 a ∙ port.read_word _ a s)
  ]

  Holds-same :
      (ops : List ℕ) (w : ℕ) (s s' : S)
      → ((a : ℕ) → pal.read64 a s' ≡ pal.read64 a s)
      → Holds pal smmu.cmdq ops w s
      → Holds pal smmu.cmdq ops w s'
  Holds-same [] w s s' same h = tt
  Holds-same (op ∷ ops) w s s' same (a, b, rest) =
      (same _ ∙ a, same _ ∙ b, Holds-same ops (w + 1) s s' same rest)

  poll_until_consumed-kept :
      (timeout : ℕ) (s : S)
      → (prod (poll_until_consumed pal timeout smmu.cmdq s).1 ≡ prod s)
        × ((a : ℕ) → pal.read64 a (poll_until_consumed pal timeout smmu.cmdq s).1 ≡ pal.read64 a s)
  unfolding poll_until_consumed
  poll_until_consumed-kept timeout s =
      let later = consumed_loop-kept timeout _ _ in
      (
        later.0 ∙ port.read_prod _ _ ∙ port.read_prod _ s,
        λ a. later.1 a ∙ port.read_word _ a _ ∙ port.read_word _ a s,
      )

  invalidation_fits : (hyp : Bool) (n : ℕ) → 4 ≤ 2 ^ n → length (invalidation hyp) ≤ 2 ^ n
  invalidation_fits true n h = h
  invalidation_fits false n h = omega arith

  commands : (hyp : Bool) → All (IsCommand pal smmu.cmdq prod port queue) (invalidation hyp)
  unfolding build_cmd
  commands true = (
    (refl, omega arith, omega arith),
    (
      (refl, omega arith, omega arith),
      ((refl, omega arith, omega arith), ((refl, omega arith, omega arith), tt)),
    ),
  )
  commands false = (
    (refl, omega arith, omega arith),
    ((refl, omega arith, omega arith), ((refl, omega arith, omega arith), tt)),
  )

  tlbi_cfgi-issue_all :
      (timeout : ℕ) (s : S)
      → tlbi_cfgi pal timeout smmu s
        ≡ (poll_until_consumed pal timeout smmu.cmdq
            (issue_all pal smmu.cmdq timeout (invalidation smmu.hyp) s)).1
  unfolding tlbi_cfgi issue_all
  tlbi_cfgi-issue_all timeout s = elim (Bool-cases smmu.hyp) [
    | inl yes_hyp ↦ rw (yes_hyp) refl
    | inr no_hyp ↦ rw (no_hyp) refl
  ]

  -- On a command queue of four entries at least, with its registers and its memory, an invalidation
  -- writes its commands in order into the entries from the producer's on, from which that of the
  -- hypervisor is left out on an SMMU without one, and moves the producer past them. Whether the entries
  -- have been consumed is not looked at.
  pub tlbi_cfgi-Holds :
      (timeout w : ℕ) (s : S)
      → 4 ≤ 2 ^ smmu.cmdq.queue.log2nent
      → prod s ≡ low_bits w (smmu.cmdq.queue.log2nent + 1)
      → Holds pal smmu.cmdq (invalidation smmu.hyp) w (tlbi_cfgi pal (suc timeout) smmu s)
        × (prod (tlbi_cfgi pal (suc timeout) smmu s)
            ≡ low_bits (w + length (invalidation smmu.hyp)) (smmu.cmdq.queue.log2nent + 1))
  tlbi_cfgi-Holds timeout w s room at =
      let issued =
        issue_all-Holds pal smmu.cmdq prod port queue timeout (invalidation smmu.hyp) w s
          (commands smmu.hyp) at (invalidation_fits smmu.hyp _ room) in
      let kept = poll_until_consumed-kept (suc timeout) _ in
      rw (tlbi_cfgi-issue_all (suc timeout) s)
        (Holds-same (invalidation smmu.hyp) w _ _ kept.1 issued.0, kept.0 ∙ issued.1)

  -- An invalidation keeps what lies outside of the command queue.
  pub tlbi_cfgi-outside :
      (timeout w b : ℕ) (s : S)
      → prod s ≡ low_bits w (smmu.cmdq.queue.log2nent + 1)
      → b % 8 ≡ 0
      → (b < smmu.cmdq.base) ⊎ (smmu.cmdq.base + 2 ^ smmu.cmdq.queue.log2nent * 16 ≤ b)
      → pal.read64 b (tlbi_cfgi pal (suc timeout) smmu s) ≡ pal.read64 b s
  tlbi_cfgi-outside timeout w b s at al out =
      let commanded =
        issue_all-outside pal smmu.cmdq prod port queue timeout (invalidation smmu.hyp) w b s
          (commands smmu.hyp) at al out in
      rw (tlbi_cfgi-issue_all (suc timeout) s)
        ((poll_until_consumed-kept (suc timeout) _).1 b ∙ commanded)
