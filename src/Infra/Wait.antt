-- ===== src/Infra/Wait.antt =====
-- `val_wait_for_test_completion`: the wait ends with every hart reported, or fails a hart.
use riscv_server_soc_ts.Prelude.{
  ℕ, zero, suc, ◌+◌, ◌-◌, ◌^◌, ◌≤◌, ◌<◌, ◌≡◌, ◌≢◌, ◌⊎◌, inl, inr, refl, ℕ_discrete, subst, ◌∙◌,
  arith, sym, Bool, ◌==◌, if◌then◌else◌, true, false, Bool-cases, ==→≡, ==→≢, ≢→==,
}
use riscv_server_soc_ts.Bits.{sub32}
use riscv_server_soc_ts.Session.{Session}
use riscv_server_soc_ts.Status.{result_fail, set_status, is_result_pending, get_status}
use riscv_server_soc_ts.Infra.{scan, poll, wait_for_test_completion}

abbrev pub IsReported : ℕ → Session → Type 0
IsReported i s = is_result_pending (get_status i s) ≡ false

-- The other harts report once: they never turn a reported status back to pending.
abbrev pub Settles : (Session → Session) → Type 0
Settles others = (i : ℕ) (s : Session) → IsReported i s → IsReported i (others s)

module _ (others : Session → Session) where
  -- The session after the other harts had their turn before each of `n` reads of a status, and after
  -- `m` rounds of `n` reads.
  abbrev pub passed : ℕ → Session → Session
  passed zero s = s
  passed (suc n) s = passed n (others s)

  abbrev pub rounds_passed : ℕ → ℕ → Session → Session
  rounds_passed n zero s = s
  rounds_passed n (suc m) s = rounds_passed n m (passed n s)

  -- The status that a round of reads that begins in `s` sees of hart `k`.
  abbrev pub seen : ℕ → Session → ℕ
  seen k s = get_status k (passed (suc k) s)

  -- The round of reads that begins in `s` sees hart `i` pending and no hart after it.
  abbrev pub IsLastPending : ℕ → ℕ → Session → Type 0
  IsLastPending num_hart i s =
      (i < num_hart)
      × (is_result_pending (seen i s) ≡ true)
      × ((k : ℕ) → i < k → k < num_hart → is_result_pending (seen k s) ≡ false)

  -- Either some round, not after the last of `suc rounds`, leaves every hart of the test reported; or
  -- the hart that the last round sees pending last is failed with checkpoint 0xF.
  abbrev pub Ended : ℕ → ℕ → ℕ → Session → Session → Type 0
  Ended test_num num_hart rounds s t =
      ((m : ℕ) × (m ≤ rounds)
        × (t ≡ rounds_passed num_hart (suc m) s)
        × ((i : ℕ) → i < num_hart → IsReported i t))
      ⊎ ((i : ℕ) × IsLastPending num_hart i (rounds_passed num_hart rounds s)
          × (t ≡ set_status i (result_fail test_num 0xF) (rounds_passed num_hart (suc rounds) s)))

  abbrev next_j : ℕ → ℕ → Session → ℕ
  next_j i j s = if is_result_pending (get_status i s) then i + 1 else j

  scan-passed : (n i j : ℕ) (s : Session) → (scan others n i j s).1 ≡ passed n s
  unfolding scan
  scan-passed zero i j s = refl
  scan-passed (suc n) i j s = scan-passed n (i + 1) (next_j i j (others s)) (others s)

  -- The read of hart `i + k` in a round that begins with hart `i`.
  abbrev IsPendingAt : ℕ → ℕ → Session → Bool → Type 0
  IsPendingAt i k s b = is_result_pending (get_status (i + k) (passed (suc k) s)) ≡ b

  abbrev IsLast : ℕ → ℕ → ℕ → Session → ℕ → Type 0
  IsLast n i j s r =
      ((r ≡ j) × ((k : ℕ) → k < n → IsPendingAt i k s false))
      ⊎ ((k : ℕ) × (k < n)
          × (r ≡ i + k + 1)
          × IsPendingAt i k s true
          × ((m : ℕ) → k < m → m < n → IsPendingAt i m s false))

  shift :
      (i k : ℕ) (s : Session) (b : Bool)
      → IsPendingAt (i + 1) k (others s) b
      → IsPendingAt i (suc k) s b
  shift i k s b h =
      let e : i + 1 + k ≡ i + suc k = omega arith in
      subst (λ x. is_result_pending (get_status x (passed (suc k) (others s))) ≡ b) e h

  first :
      (i : ℕ) (s : Session) (b : Bool)
      → is_result_pending (get_status i (others s)) ≡ b
      → IsPendingAt i 0 s b
  first i s b h =
      let e : i ≡ i + 0 = omega arith in
      subst (λ x. is_result_pending (get_status x (others s)) ≡ b) e h

  scan-IsLast : (n i j : ℕ) (s : Session) → IsLast n i j s (scan others n i j s).0
  unfolding scan
  scan-IsLast zero i j s = inl (refl, λ k lt. absurd (omega arith))
  scan-IsLast (suc n) i j s = elim (Bool-cases (is_result_pending (get_status i (others s)))) [
    | inl now ↦ elim (scan-IsLast n (i + 1) (next_j i j (others s)) (others s)) [
      | inl (e, all) ↦ inr (0, omega arith, e ∙ pending now, first i s true now, after_first all)
      | inr (k, lt, e, h, later) ↦
          inr (suc k, omega arith, e ∙ omega arith, shift i k s true h, after k later)
    ]
    | inr now ↦ elim (scan-IsLast n (i + 1) (next_j i j (others s)) (others s)) [
      | inl (e, all) ↦ inl (e ∙ reported now, everywhere now all)
      | inr (k, lt, e, h, later) ↦
          inr (suc k, omega arith, e ∙ omega arith, shift i k s true h, after k later)
    ]
  ]
    where
      pending :
          is_result_pending (get_status i (others s)) ≡ true → next_j i j (others s) ≡ i + 0 + 1
      pending h = ground arith

      reported : is_result_pending (get_status i (others s)) ≡ false → next_j i j (others s) ≡ j
      reported h = ground arith

      after_first :
          ((k : ℕ) → k < n → IsPendingAt (i + 1) k (others s) false)
          → (m : ℕ) → 0 < m
          → m < suc n
          → IsPendingAt i m s false
      after_first all zero pos lt = absurd (omega arith)
      after_first all (suc m) pos lt = shift i m s false (all m (omega arith))

      after :
          (k : ℕ)
          → ((m : ℕ) → k < m → m < n → IsPendingAt (i + 1) m (others s) false)
          → (m : ℕ) → suc k < m
          → m < suc n
          → IsPendingAt i m s false
      after k all zero above lt = absurd (omega arith)
      after k all (suc m) above lt = shift i m s false (all m (omega arith) (omega arith))

      everywhere :
          is_result_pending (get_status i (others s)) ≡ false
          → ((k : ℕ) → k < n → IsPendingAt (i + 1) k (others s) false)
          → (k : ℕ) → k < suc n
          → IsPendingAt i k s false
      everywhere now all zero lt = first i s false now
      everywhere now all (suc k) lt = shift i k s false (all k (omega arith))

  -- A round of all harts that comes to `j`, which is not 0.
  scan-IsLastPending :
      (num_hart : ℕ) (s : Session)
      → (scan others num_hart 0 0 s).0 ≢ 0
      → IsLastPending num_hart ((scan others num_hart 0 0 s).0 - 1) s
  scan-IsLastPending num_hart s ne = elim (scan-IsLast num_hart 0 0 s) [
    | inl (e, _) ↦ absurd (ne e)
    | inr (k, lt, e, h, later) ↦
        let own : 0 + k ≡ k = omega arith in
        let place : k ≡ (scan others num_hart 0 0 s).0 - 1 = omega arith in
        subst (λ i. IsLastPending num_hart i s) place
          (
            lt,
            subst (λ x. is_result_pending (get_status x (passed (suc k) s)) ≡ true) own h,
            λ m above below.
                subst (λ x. is_result_pending (get_status x (passed (suc m) s)) ≡ false) (plain m)
                  (later m above below),
          )
  ]
    where
      plain : (m : ℕ) → 0 + m ≡ m
      plain m = omega arith

  module _ (settles : Settles others) where
    scan-IsReported :
        (n i j : ℕ) (s : Session) (k : ℕ) → IsReported k s → IsReported k (scan others n i j s).1
    unfolding scan
    scan-IsReported zero i j s k h = h
    scan-IsReported (suc n) i j s k h = scan-IsReported n (i + 1) _ (others s) k (settles k s h)

    scan_zero :
        (n i j : ℕ) (s : Session)
        → (scan others n i j s).0 ≡ 0
        → (j ≡ 0) × ((k : ℕ) → i ≤ k → k < i + n → IsReported k (scan others n i j s).1)
    unfolding scan
    scan_zero zero i j s e = (e, λ k p q. absurd (omega arith))
    scan_zero (suc n) i j s e =
        let s' = others s in
        let ih = scan_zero n (i + 1) (next_j i j s') s' e in
        elim (Bool-cases (is_result_pending (get_status i s'))) [
          | inl b ↦ absurd (pending_zero b ih.0)
          | inr b ↦
              let later = scan-IsReported n (i + 1) (next_j i j s') s' i b in
              (
                reported_zero b ih.0,
                λ k p q. elim (ℕ_discrete i k) [
                  | yes same ↦ subst (λ x. IsReported x (scan others (suc n) i j s).1) same later
                  | no other ↦ ih.1 k (omega arith) (omega arith)
                ],
              )
        ]
      where
        pending_zero :
            is_result_pending (get_status i (others s)) ≡ true → next_j i j (others s) ≡ 0 → ⊥
        pending_zero b = ground arith

        reported_zero :
            is_result_pending (get_status i (others s)) ≡ false → next_j i j (others s) ≡ 0 → j ≡ 0
        reported_zero b = ground arith

    all-IsReported :
        (num_hart : ℕ) (s : Session)
        → (scan others num_hart 0 0 s).0 ≡ 0
        → (i : ℕ) → i < num_hart
        → IsReported i (passed num_hart s)
    all-IsReported num_hart s e i lt =
        subst (λ u. IsReported i u) (scan-passed num_hart 0 0 s)
          ((scan_zero num_hart 0 0 s e).1 i (omega arith) (omega arith))

    clear-Ended :
        (rounds test_num num_hart : ℕ) (s : Session)
        → (scan others num_hart 0 0 s).0 ≡ 0
        → Ended test_num num_hart rounds s (scan others num_hart 0 0 s).1
    clear-Ended rounds test_num num_hart s e =
        let same = scan-passed num_hart 0 0 s in
        inl (
          0,
          omega arith,
          same,
          subst (λ u. (i : ℕ) → i < num_hart → IsReported i u) (sym same)
              (all-IsReported num_hart s e),
        )

    further-Ended :
        (rounds test_num num_hart : ℕ) (s t : Session)
        → Ended test_num num_hart rounds (passed num_hart s) t
        → Ended test_num num_hart (suc rounds) s t
    further-Ended rounds test_num num_hart s t (inl (m, lt, e, all)) =
        inl (suc m, omega arith, e, all)
    further-Ended rounds test_num num_hart s t (inr (i, pending, e)) = inr (i, pending, e)

    -- One round, and `rounds` more.
    poll-Ended :
        (rounds test_num num_hart j : ℕ) (s : Session)
        → num_hart < 2 ^ 32
        → Ended test_num num_hart rounds s (poll others (suc rounds) test_num num_hart j s)
    unfolding poll
    poll-Ended zero test_num num_hart j s small =
        let j' = (scan others num_hart 0 0 s).0 in
        elim (Bool-cases (j' == 0)) [
          | inl clear ↦ rw (clear) (clear-Ended 0 test_num num_hart s (==→≡ _ 0 clear))
          | inr waiting ↦
              let h = scan-IsLastPending num_hart s (==→≢ _ 0 waiting) in
              let lt = h.0 in
              let ne = ==→≢ _ 0 waiting in
              let last : sub32 j' 1 ≡ j' - 1 = omega arith in
              rw (waiting, scan-passed num_hart 0 0 s, last) (inr (j' - 1, h, refl))
        ]
    poll-Ended (suc rounds) test_num num_hart j s small =
        let j' = (scan others num_hart 0 0 s).0 in
        elim (Bool-cases (j' == 0)) [
          | inl clear ↦ rw (clear) (clear-Ended (suc rounds) test_num num_hart s (==→≡ _ 0 clear))
          | inr waiting ↦
              rw (waiting, scan-passed num_hart 0 0 s)
                (further-Ended rounds test_num num_hart s _
                  (poll-Ended rounds test_num num_hart j' (passed num_hart s) small))
        ]

    -- On a test of several harts, fewer than 2^32, that never turn a report back to pending, and
    -- with a timeout of at least two, the wait makes at most `timeout` - 1 rounds of reading every
    -- status. It ends either after a round that leaves every hart of the test reported, with nothing
    -- changed but by the harts themselves; or, after the last round, with the hart failed at
    -- checkpoint 0xF that this round saw pending and no hart after it, and with no other change.
    pub wait_ends :
        (test_num num_hart timeout : ℕ) (s : Session)
        → num_hart ≢ 1
        → num_hart < 2 ^ 32
        → 2 ≤ timeout
        → timeout < 2 ^ 32
        → Ended test_num num_hart
            (timeout - 2)
            s
            (wait_for_test_completion others test_num num_hart timeout s)
    unfolding wait_for_test_completion
    wait_ends test_num num_hart timeout s many small two top =
        let rounds : sub32 timeout 1 ≡ suc (timeout - 2) = omega arith in
        rw (≢→== num_hart 1 many, rounds) (poll-Ended (timeout - 2) test_num num_hart 0 s small)

    scan-reported :
        (n i : ℕ) (s : Session)
        → ((k : ℕ) → i ≤ k → k < i + n → IsReported k s)
        → (scan others n i 0 s).0 ≡ 0
    unfolding scan
    scan-reported zero i s h = refl
    scan-reported (suc n) i s h =
        rw (settles i s (h i (omega arith) (omega arith)), scan)
          (scan-reported n (i + 1) (others s)
            (λ k p q. settles k s (h k (omega arith) (omega arith))))

    poll-reported :
        (rounds test_num num_hart j : ℕ) (s : Session)
        → 0 < rounds
        → ((k : ℕ) → k < num_hart → IsReported k s)
        → poll others rounds test_num num_hart j s ≡ (scan others num_hart 0 0 s).1
    unfolding poll
    poll-reported zero test_num num_hart j s pos h = absurd (omega arith)
    poll-reported (suc rounds) test_num num_hart j s pos h =
        rw (scan-reported num_hart 0 s (λ k p q. h k (omega arith)))

    -- Where every hart has reported already, and the harts never turn a report back to pending, the
    -- wait of a test of several harts with a timeout of at least two rounds is one round of
    -- reading: it returns what the other harts left in that round, and fails nobody.
    pub wait_reported :
        (test_num num_hart timeout : ℕ) (s : Session)
        → num_hart ≢ 1
        → 2 ≤ timeout
        → timeout < 2 ^ 32
        → ((k : ℕ) → k < num_hart → IsReported k s)
        → wait_for_test_completion others test_num num_hart timeout s
          ≡ (scan others num_hart 0 0 s).1
    unfolding wait_for_test_completion
    wait_reported test_num num_hart timeout s many two top h =
        rw (≢→== num_hart 1 many)
          (poll-reported (sub32 timeout 1) test_num num_hart 0 s (omega arith) h)
