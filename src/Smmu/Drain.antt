-- ===== src/Smmu/Drain.antt =====
-- The inner loop of `smmu_evtq_thread` (val/sys_arch_src/smmu_v3/smmu_v3.c): which events it removes.
use native.Mathlib.Nat.{mod-lt}
use riscv_server_soc_ts.Prelude.{
  ℕ, zero, suc, ◌+◌, ◌^◌, ◌≤◌, ◌<◌, ◌≡◌, refl, sym, ap, ◌∙◌, arith, true, false, ≡→==, ≢→==, Option,
  none, some, List, [], ◌∷◌,
}
use riscv_server_soc_ts.Bits.{low_bits, add32, add64}
use riscv_server_soc_ts.Bits.Laws.{two_pow_pos}
use riscv_server_soc_ts.Smmu.{SmmuPal, Queue, QueueBuffer}
use riscv_server_soc_ts.Smmu.Positions.{
  inc_cons, queue_empty, Stands, Stands-index, increased, queue_full-queue_empty,
}
use riscv_server_soc_ts.Smmu.Command.{slot}
use riscv_server_soc_ts.Smmu.Event.{Event, queue_read, queue_remove_raw, read_positions, drain}

module _ {S : Type 0} (pal : SmmuPal S) where
  -- Neither a read of a register nor the write of the consumer's position changes the memory.
  pub record IsQuiet (cons_reg : ℕ) : Type 0 where
    pub read_word : (reg a : ℕ) (s : S) → pal.read64 a (pal.mmio_read reg s).1 ≡ pal.read64 a s
    pub write_word : (a v : ℕ) (s : S) → pal.read64 a (pal.mmio_write cons_reg v s) ≡ pal.read64 a s

  -- The events in the `n` entries from the one of counter `w` on.
  abbrev pub event_at : QueueBuffer → ℕ → S → Event
  event_at evntq w s =
      let entry = slot evntq w in
      (
        pal.read64 entry s,
        pal.read64 (add64 entry 8) s,
        pal.read64 (add64 entry 16) s,
        pal.read64 (add64 entry 24) s,
      )

  abbrev pub events_from : QueueBuffer → ℕ → ℕ → S → List Event
  events_from evntq w zero s = []
  events_from evntq w (suc n) s = event_at evntq w s ∷ events_from evntq (w + 1) n s

  event_at-same :
      (evntq : QueueBuffer) (w : ℕ) (s s' : S)
      → ((a : ℕ) → pal.read64 a s' ≡ pal.read64 a s)
      → event_at evntq w s' ≡ event_at evntq w s
  event_at-same evntq w s s' same =
      rw
        (
          same (slot evntq w),
          same (add64 (slot evntq w) 8),
          same (add64 (slot evntq w) 16),
          same (add64 (slot evntq w) 24),
        )
        refl

  -- A queue that has been drained up to counter `written`.
  pub record IsDrained (evntq evntq' : QueueBuffer) (written : ℕ) : Type 0 where
    pub empty : queue_empty evntq'.queue ≡ true
    pub consumed : Stands evntq.queue.log2nent evntq'.queue.cons written
    pub produced : evntq'.queue.prod ≡ evntq.queue.prod

  abbrev advanced : QueueBuffer → QueueBuffer
  advanced evntq = record evntq { queue = record (evntq.queue) { cons = inc_cons evntq.queue } }

  -- The entries are those of the queue before an event was removed.
  events_from-advanced :
      (evntq : QueueBuffer) (n w : ℕ) (s s' : S)
      → ((a : ℕ) → pal.read64 a s' ≡ pal.read64 a s)
      → events_from (advanced evntq) w n s' ≡ events_from evntq w n s
  events_from-advanced evntq zero w s s' same = refl
  events_from-advanced evntq (suc n) w s s' same =
      cc (event_at-same evntq w s s' same, events_from-advanced evntq n (w + 1) s s' same)

  removed : QueueBuffer → S → S
  removed evntq s =
      read_positions pal (advanced evntq) (pal.mmio_write evntq.cons_reg (inc_cons evntq.queue) s)

  remove-some :
      (evntq : QueueBuffer) (w : ℕ) (s : S)
      → queue_empty evntq.queue ≡ false
      → Stands evntq.queue.log2nent evntq.queue.cons w
      → queue_remove_raw pal evntq s
        ≡ some (
          event_at evntq w s,
          advanced evntq,
          pal.mmio_write evntq.cons_reg (inc_cons evntq.queue) s,
        )
  unfolding queue_remove_raw queue_read
  remove-some evntq w s some_left st =
      rw (some_left, Stands-index evntq.queue.log2nent evntq.queue.cons w st) refl

  inc_cons-Stands :
      (q : Queue) (w : ℕ)
      → q.cons + 1 < 2 ^ 32
      → Stands q.log2nent q.cons w
      → Stands q.log2nent (inc_cons q) (w + 1)
  unfolding inc_cons
  inc_cons-Stands q w lt st = increased q.log2nent q.cons w lt st

  inc_cons-lt : (q : Queue) → 2 ^ (q.log2nent + 1) < 2 ^ 32 → inc_cons q + 1 < 2 ^ 32
  unfolding inc_cons
  inc_cons-lt q few =
      let small = mod-lt (add32 q.cons 1) (two_pow_pos (q.log2nent + 1)) in omega arith

  -- Where the positions of an event queue stand for the counters of the events written and read, of
  -- which no more are outstanding than the queue has entries, the inner loop ends after as many rounds
  -- as events are outstanding. It removes them all, in the order in which they were written, leaves
  -- the queue empty, and moves the consumer to the producer. The memory is only written by others
  -- before and after the loop.
  pub drain-IsDrained :
      (n fuel read : ℕ) (evntq : QueueBuffer) (s : S)
      → IsQuiet evntq.cons_reg
      → n < fuel
      → n ≤ 2 ^ evntq.queue.log2nent
      → 2 ^ (evntq.queue.log2nent + 1) < 2 ^ 32
      → evntq.queue.cons + 1 < 2 ^ 32
      → Stands evntq.queue.log2nent evntq.queue.prod (read + n)
      → Stands evntq.queue.log2nent evntq.queue.cons read
      → (evntq' : QueueBuffer) × (s' : S) × (drain pal fuel evntq s
          ≡ some (events_from evntq read n s, evntq', s'))
        × IsDrained evntq evntq' (read + n)
  unfolding drain removed
  drain-IsDrained n zero read evntq s quiet f room few small p c = absurd (omega arith)
  drain-IsDrained zero (suc fuel) read evntq s quiet f room few small p c =
      let judged =
        queue_full-queue_empty evntq.queue (read + 0) read p c (omega arith) (omega arith) in
      let empty = judged.0 ∙ ≡→== _ _ (omega arith) in
      let nothing : queue_remove_raw pal evntq s ≡ none =
        unfold queue_remove_raw in rw (empty) refl in
      let same : read ≡ read + 0 = omega arith in
      (
        evntq,
        s,
        rw (nothing, drain) refl,
        record {
          empty = empty;
          consumed = c ∙ ap (λ (x : ℕ). low_bits x (evntq.queue.log2nent + 1)) same;
          produced = refl;
        },
      )
  drain-IsDrained (suc n) (suc fuel) read evntq s quiet f room few small p c =
      let judged =
        queue_full-queue_empty evntq.queue (read + suc n) read p c (omega arith) (omega arith) in
      let some_left = judged.0 ∙ ≢→== _ _ (omega arith) in
      let further : read + suc n ≡ read + 1 + n = omega arith in
      let shift = ap (λ (x : ℕ). low_bits x (evntq.queue.log2nent + 1)) further in
      let (evntq', s', e, d) =
        drain-IsDrained n fuel (read + 1) (advanced evntq) (removed evntq s) quiet (omega arith)
          (omega arith) few (inc_cons-lt evntq.queue few) (p ∙ shift)
          (inc_cons-Stands evntq.queue read small c) in
      let same =
        events_from-advanced evntq n (read + 1) s (removed evntq s) (words evntq s quiet) in
      (
        evntq',
        s',
        rw
            (
              remove-some evntq read s some_left c,
              e
                  ∙ ap
                      (λ (es : List Event).
                        let o : Option (List Event × QueueBuffer × S) = some (es, evntq', s') in o)
                      same,
              drain,
            )
            refl,
        record { empty = d.empty; consumed = d.consumed ∙ sym shift; produced = d.produced },
      )
    where
      words :
          (evntq : QueueBuffer) (s : S)
          → IsQuiet evntq.cons_reg
          → (a : ℕ) → pal.read64 a (removed evntq s) ≡ pal.read64 a s
      words evntq s quiet a =
          unfold removed in (quiet.read_word _ a _ ∙ quiet.read_word _ a _ ∙ quiet.write_word a _ s)
