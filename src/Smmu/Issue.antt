-- ===== src/Smmu/Issue.antt =====
-- What a sequence of commands leaves in the command queue (val/sys_arch_src/smmu_v3/smmu_v3.c).
use native.Mathlib.Nat.{mod-add-mod, mod-mod, mod-eq_of_lt, mod-eq-sub-mod, mod-lt}
use riscv_server_soc_ts.Prelude.{
  ℕ, suc, ◌+◌, ◌-◌, ◌*◌, ◌%◌, ◌^◌, ◌≤◌, ◌<◌, ◌≡◌, ◌≢◌, refl, sym, ap, ◌∙◌, arith, false, ◌==◌, ≡→==,
  ≢→==, List, [], ◌∷◌, length, All, dec_lt, ◌⊎◌, inl, inr,
}
use riscv_server_soc_ts.Bits.{low_bits, add32, add64, u64_mod}
use riscv_server_soc_ts.Smmu.{SmmuPal, QueueBuffer}
use riscv_server_soc_ts.Bits.Laws.{two_pow_pos}
use riscv_server_soc_ts.Smmu.Positions.{inc_prod, queue_full, Stands, Stands-index, increased}
use riscv_server_soc_ts.Smmu.Command.{build_cmd, await_room, slot, write_cmd, issue_cmd}

-- Entries less than a round apart are different.
apart : (size w k : ℕ) → 0 < k → k < size → (w + k) % size ≢ w % size
apart size w k pos lt =
    let low = mod-lt w (positive size k lt) in
    elim (dec_lt (w % size + k) size) [
      | yes below ↦ omega (arith, mod-add-mod w size k, mod-eq_of_lt below)
      | no past ↦ omega (
        arith,
        mod-add-mod w size k,
        mod-eq-sub-mod {n = w % size + k} {m = size} (omega arith),
        mod-eq_of_lt {n = w % size + k - size} {m = size} (omega arith),
      )
    ]
  where
    positive : (size k : ℕ) → k < size → 0 < size
    positive size k h = omega arith

module _ {S : Type 0} (pal : SmmuPal S) (cmdq : QueueBuffer) where
  -- The producer's register and the memory of the queue: the register reads what was written to it,
  -- no read changes it or the memory, and aligned words of the memory are stored apart.
  pub record IsCommandPort (prod : S → ℕ) : Type 0 where
    pub reads : (s : S) → (pal.mmio_read cmdq.prod_reg s).0 ≡ prod s
    pub read_prod : (reg : ℕ) (s : S) → prod (pal.mmio_read reg s).1 ≡ prod s
    pub read_word : (reg a : ℕ) (s : S) → pal.read64 a (pal.mmio_read reg s).1 ≡ pal.read64 a s
    pub write_prod : (v : ℕ) (s : S) → v < 2 ^ 32 → prod (pal.mmio_write cmdq.prod_reg v s) ≡ v
    pub write_word :
        (v a : ℕ) (s : S) → pal.read64 a (pal.mmio_write cmdq.prod_reg v s) ≡ pal.read64 a s
    pub store_prod : (a v : ℕ) (s : S) → prod (pal.write64 a v s) ≡ prod s
    pub store_word : (a v : ℕ) (s : S) → v < u64_mod → pal.read64 a (pal.write64 a v s) ≡ v
    pub store_other :
        (a b v : ℕ) (s : S)
        → a % 8 ≡ 0
        → b % 8 ≡ 0
        → a ≢ b
        → pal.read64 b (pal.write64 a v s) ≡ pal.read64 b s

  -- The queue of the driver: its entries of 16 bytes lie within the address space, it has fewer than
  -- 2^31 of them, and its own positions leave room.
  pub record IsCommandQueue : Type 0 where
    pub entries : cmdq.entry_size ≡ 16
    pub aligned : cmdq.base % 8 ≡ 0
    pub inside : cmdq.base + 2 ^ cmdq.queue.log2nent * 16 ≤ u64_mod
    pub few : 2 ^ (cmdq.queue.log2nent + 1) < 2 ^ 32
    pub room : queue_full cmdq.queue ≡ false

  abbrev pub entry : ℕ → ℕ
  entry w = cmdq.base + w % 2 ^ cmdq.queue.log2nent * 16

  -- The commands stand in the entries from the one of counter `w` on.
  abbrev pub Holds : List ℕ → ℕ → S → Type 0
  Holds [] w s = Unit
  Holds (op ∷ ops) w s =
      (pal.read64 (entry w) s ≡ (build_cmd op).1)
      × (pal.read64 (entry w + 8) s ≡ (build_cmd op).2)
      × Holds ops (w + 1) s

  unfoldable pub issue_all : ℕ → List ℕ → S → S
  issue_all timeout [] s = s
  issue_all timeout (op ∷ ops) s = issue_all timeout ops (issue_cmd pal timeout cmdq op s).1

  module _ (prod : S → ℕ) (port : IsCommandPort prod) (queue : IsCommandQueue) where
    -- A command is issued from counter `w` on.
    record IsIssued (op w : ℕ) (s s' : S) : Type 0 where
      moved : prod s' ≡ low_bits (w + 1) (cmdq.queue.log2nent + 1)
      word0 : pal.read64 (entry w) s' ≡ (build_cmd op).1
      word1 : pal.read64 (entry w + 8) s' ≡ (build_cmd op).2
      kept : (b : ℕ) → b % 8 ≡ 0 → b ≢ entry w → b ≢ entry w + 8 → pal.read64 b s' ≡ pal.read64 b s

    await_room-eq : (timeout : ℕ) → await_room (suc timeout) cmdq.queue ≡ suc timeout
    unfolding await_room
    await_room-eq timeout = rw (queue.room) refl

    index_lt : (w : ℕ) → w % 2 ^ cmdq.queue.log2nent < 2 ^ cmdq.queue.log2nent
    index_lt w = mod-lt w (two_pow_pos cmdq.queue.log2nent)

    slot-entry :
        (position w : ℕ) → Stands cmdq.queue.log2nent position w → slot cmdq position ≡ entry w
    slot-entry position w st =
        let lt = index_lt w in
        let inside = queue.inside in
        rw (queue.entries, Stands-index cmdq.queue.log2nent position w st)
          (mod-eq_of_lt {n = entry w} {m = u64_mod} (omega arith))

    second_word : (w : ℕ) → add64 (entry w) 8 ≡ entry w + 8
    second_word w =
        let lt = index_lt w in
        let inside = queue.inside in mod-eq_of_lt {n = entry w + 8} {m = u64_mod} (omega arith)

    next_position :
        (position w : ℕ)
        → position ≡ low_bits w (cmdq.queue.log2nent + 1)
        → inc_prod (record (cmdq.queue) { prod = position; cons = 0 })
          ≡ low_bits (w + 1) (cmdq.queue.log2nent + 1)
    unfolding inc_prod
    next_position position w e =
        let n = cmdq.queue.log2nent in
        let small = mod-lt w (two_pow_pos (n + 1)) in
        let few = queue.few in
        sym (mod-mod (add32 position 1) (2 ^ (n + 1)))
        ∙ increased n position w (omega arith)
            (ap (λ (x : ℕ). low_bits x (n + 1)) e ∙ mod-mod w (2 ^ (n + 1)))

    stored : ℕ → ℕ → ℕ → S → S
    stored w word0 word1 s =
        pal.mmio_write cmdq.prod_reg (low_bits (w + 1) (cmdq.queue.log2nent + 1)) (
          pal.write64 (entry w + 8) word1
            (pal.write64 (entry w) word0 (pal.mmio_read cmdq.prod_reg s).1))

    write_cmd-stored :
        (timeout w word0 word1 : ℕ) (s : S)
        → prod s ≡ low_bits w (cmdq.queue.log2nent + 1)
        → write_cmd pal (suc timeout) cmdq word0 word1 s ≡ (0, stored w word0 word1 s)
    unfolding write_cmd stored
    write_cmd-stored timeout w word0 word1 s at =
        let read = port.reads s in
        let some_left : (suc timeout == 0) ≡ false = ≢→== _ _ (omega arith) in
        let position = (pal.mmio_read cmdq.prod_reg s).0 in
        let here = read ∙ at in
        let st : Stands cmdq.queue.log2nent position w =
          ap (λ (x : ℕ). low_bits x (cmdq.queue.log2nent + 1)) here
          ∙ mod-mod w (2 ^ (cmdq.queue.log2nent + 1)) in
        rw
          (
            await_room-eq timeout,
            next_position position w here,
            slot-entry position w st,
            second_word w,
            some_left,
          )
          refl

    aligned_entry : (w : ℕ) → (entry w % 8 ≡ 0) × ((entry w + 8) % 8 ≡ 0)
    aligned_entry w = let base = queue.aligned in (omega arith, omega arith)

    stored-IsIssued :
        (op w : ℕ) (s : S)
        → (build_cmd op).1 < u64_mod
        → (build_cmd op).2 < u64_mod
        → IsIssued op w s (stored w (build_cmd op).1 (build_cmd op).2 s)
    unfolding stored
    stored-IsIssued op w s f g =
        let (al, al') = aligned_entry w in
        let n = cmdq.queue.log2nent in
        let few = queue.few in
        let small = mod-lt (w + 1) (two_pow_pos (n + 1)) in
        record {
          moved = port.write_prod _ _ (omega arith);
          word0 =
              port.write_word _ _ _
              ∙ port.store_other _ _ _ _ al' al (omega arith)
              ∙ port.store_word _ _ _ f;
          word1 = port.write_word _ _ _ ∙ port.store_word _ _ _ g;
          kept = λ b alb ne ne'.
              port.write_word _ _ _
              ∙ port.store_other _ _ _ _ al' alb (λ e. ne' (sym e))
              ∙ port.store_other _ _ _ _ al alb (λ e. ne (sym e))
              ∙ port.read_word _ _ _;
        }

    -- A command that can be built, of two words.
    abbrev pub IsCommand : ℕ → Type 0
    IsCommand op =
        ((build_cmd op).0 ≡ 0) × ((build_cmd op).1 < u64_mod) × ((build_cmd op).2 < u64_mod)

    issue_cmd-IsIssued :
        (timeout op w : ℕ) (s : S)
        → IsCommand op
        → prod s ≡ low_bits w (cmdq.queue.log2nent + 1)
        → IsIssued op w s (issue_cmd pal (suc timeout) cmdq op s).1
    unfolding issue_cmd
    issue_cmd-IsIssued timeout op w s (ok, f, g) at =
        rw (≡→== _ _ ok, write_cmd-stored timeout w (build_cmd op).1 (build_cmd op).2 s at)
          (stored-IsIssued op w s f g)

    outside_entry :
        (w b : ℕ)
        → (b < cmdq.base) ⊎ (cmdq.base + 2 ^ cmdq.queue.log2nent * 16 ≤ b)
        → (b ≢ entry w) × (b ≢ entry w + 8)
    outside_entry w b (inl low) = (λ e. omega arith, λ e. omega arith)
    outside_entry w b (inr high) = let lt = index_lt w in (λ e. omega arith, λ e. omega arith)

    entries_apart :
        (w k : ℕ)
        → 0 < k
        → k < 2 ^ cmdq.queue.log2nent
        → (entry w ≢ entry (w + k))
          × (entry w ≢ entry (w + k) + 8)
          × (entry w + 8 ≢ entry (w + k))
          × (entry w + 8 ≢ entry (w + k) + 8)
    entries_apart w k pos lt =
        let ne = apart (2 ^ cmdq.queue.log2nent) w k pos lt in
        (λ e. ne (omega arith), λ e. ne (omega arith), λ e. ne (omega arith), λ e. ne (omega arith))

    -- What later commands leave of an entry `k` commands behind them.
    issue_all-kept :
        (timeout : ℕ) (ops : List ℕ) (w k : ℕ) (s : S)
        → All IsCommand ops
        → prod s ≡ low_bits (w + k) (cmdq.queue.log2nent + 1)
        → 0 < k
        → k + length ops ≤ 2 ^ cmdq.queue.log2nent
        → (pal.read64 (entry w) (issue_all (suc timeout) ops s) ≡ pal.read64 (entry w) s)
          × (pal.read64 (entry w + 8) (issue_all (suc timeout) ops s) ≡ pal.read64 (entry w + 8) s)
    unfolding issue_all
    issue_all-kept timeout [] w k s all at pos room = (refl, refl)
    issue_all-kept timeout (op ∷ ops) w k s (cmd, all) at pos room =
        let i = issue_cmd-IsIssued timeout op (w + k) s cmd at in
        let (al, al') = aligned_entry w in
        let (a, b, c, d) = entries_apart w k pos (omega arith) in
        let later =
          issue_all-kept timeout ops w (k + 1) _ all
            (i.moved ∙ ap (λ (x : ℕ). low_bits x (cmdq.queue.log2nent + 1)) (omega arith))
            (omega arith) (omega arith) in
        (later.0 ∙ i.kept _ al a b, later.1 ∙ i.kept _ al' c d)

    -- What lies outside of the queue is kept.
    pub issue_all-outside :
        (timeout : ℕ) (ops : List ℕ) (w b : ℕ) (s : S)
        → All IsCommand ops
        → prod s ≡ low_bits w (cmdq.queue.log2nent + 1)
        → b % 8 ≡ 0
        → (b < cmdq.base) ⊎ (cmdq.base + 2 ^ cmdq.queue.log2nent * 16 ≤ b)
        → pal.read64 b (issue_all (suc timeout) ops s) ≡ pal.read64 b s
    unfolding issue_all
    issue_all-outside timeout [] w b s all at al out = refl
    issue_all-outside timeout (op ∷ ops) w b s (cmd, all) at al out =
        let i = issue_cmd-IsIssued timeout op w s cmd at in
        let (apart0, apart1) = outside_entry w b out in
        issue_all-outside timeout ops (w + 1) b _ all i.moved al out ∙ i.kept b al apart0 apart1

    -- As many commands as fit the queue stand in its entries one after the other.
    pub issue_all-Holds :
        (timeout : ℕ) (ops : List ℕ) (w : ℕ) (s : S)
        → All IsCommand ops
        → prod s ≡ low_bits w (cmdq.queue.log2nent + 1)
        → length ops ≤ 2 ^ cmdq.queue.log2nent
        → Holds ops w (issue_all (suc timeout) ops s)
          × (prod (issue_all (suc timeout) ops s)
              ≡ low_bits (w + length ops) (cmdq.queue.log2nent + 1))
    unfolding issue_all
    issue_all-Holds timeout [] w s all at room =
        (tt, at ∙ ap (λ (x : ℕ). low_bits x (cmdq.queue.log2nent + 1)) (omega arith))
    issue_all-Holds timeout (op ∷ ops) w s (cmd, all) at room =
        let i = issue_cmd-IsIssued timeout op w s cmd at in
        let rest = issue_all-Holds timeout ops (w + 1) _ all i.moved (omega arith) in
        let kept = issue_all-kept timeout ops w 1 _ all i.moved (omega arith) (omega arith) in
        (
          (kept.0 ∙ i.word0, kept.1 ∙ i.word1, rest.0),
          rest.1 ∙ ap (λ (x : ℕ). low_bits x (cmdq.queue.log2nent + 1)) (omega arith),
        )
