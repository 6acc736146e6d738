-- ===== src/Smmu/Event.antt =====
-- The event queue of val/sys_arch_src/smmu_v3/smmu_v3.c: events are removed at the consumer's position
-- until the queue is empty.
use riscv_server_soc_ts.Prelude.{
  ℕ, zero, suc, ◌*◌, ◌/◌, ◌%◌, ◌^◌, Bool, true, false, ◌==◌, ◌!=◌, ◌||◌, if◌then◌else◌, Option,
  none, some, List, [], ◌∷◌, ◌++◌, bit_or, bit_xor,
}
use riscv_server_soc_ts.Bits.{low_bits, add64}
use riscv_server_soc_ts.Smmu.{
  SmmuPal, SmmuDev, Queue, QueueBuffer, bitfield_get, gerror_offset, gerrorn_offset,
}
use riscv_server_soc_ts.Smmu.Positions.{inc_cons, queue_empty, wrap_bit}
use riscv_server_soc_ts.Smmu.Command.{slot}

-- The four words of an event.
abbrev pub Event : Type 0
Event = ℕ × ℕ × ℕ × ℕ

-- The EVT_ID_* that `smmu_handle_evt` has a case for.
abbrev pub known_events : List ℕ
known_events =
    0x01 ∷ 0x02 ∷ 0x03 ∷ 0x04 ∷ 0x05 ∷ 0x06 ∷ 0x07 ∷ 0x08 ∷ 0x09 ∷ 0x0A ∷ 0x0B ∷ 0x10 ∷ 0x11 ∷ 0x12
    ∷ 0x13 ∷ 0x20 ∷ 0x21 ∷ 0x24 ∷ 0x25 ∷ []

unfoldable pub is_among : ℕ → List ℕ → Bool
is_among id [] = false
is_among id (k ∷ ks) = id == k || is_among id ks

-- `smmu_handle_evt`, less what it prints.
unfoldable pub handle_evt : Event → ℕ
handle_evt event = if is_among (bitfield_get 7 0 event.0) known_events then 0 else 1

-- SMMU_QUEUE_OVF
abbrev pub queue_ovf : ℕ → ℕ
queue_ovf value = value / 2 ^ 31 % 2 * 2 ^ 31

module _ {S : Type 0} (pal : SmmuPal S) where
  unfoldable pub queue_read : QueueBuffer → S → Event
  queue_read evntq s =
      let entry = slot evntq evntq.queue.cons in
      (
        pal.read64 entry s,
        pal.read64 (add64 entry 8) s,
        pal.read64 (add64 entry 16) s,
        pal.read64 (add64 entry 24) s,
      )

  -- `smmu_queue_remove_raw`: nothing for status 1; else the event, the queue and the state.
  unfoldable pub queue_remove_raw : QueueBuffer → S → Option (Event × QueueBuffer × S)
  queue_remove_raw evntq s =
      let cons = inc_cons evntq.queue in
      if queue_empty evntq.queue
      then none
      else some (
        queue_read evntq s,
        record evntq { queue = record (evntq.queue) { cons = cons } },
        pal.mmio_write evntq.cons_reg cons s,
      )

  -- The result, the queue and the state.
  unfoldable pub sync_prod_in : QueueBuffer → S → ℕ × QueueBuffer × S
  sync_prod_in evntq s =
      let (prod, s') = pal.mmio_read evntq.prod_reg s in
      (
        if queue_ovf prod != queue_ovf evntq.queue.prod then 1 else 0,
        record evntq { queue = record (evntq.queue) { prod = prod } },
        s',
      )

  unfoldable pub gerror_check : SmmuDev → S → ℕ × S
  gerror_check smmu s =
      let (gerror, s') = pal.mmio_read (add64 smmu.base gerror_offset) s in
      let (gerrorn, s'') = pal.mmio_read (add64 smmu.base gerrorn_offset) s' in
      let active = bit_xor gerror gerrorn in
      if active / 2 ^ 5 % 2 == 1
      then (1, s'')
      else if active / 2 ^ 2 % 2 == 1
      then (1, s'')
      else (0, pal.mmio_write (add64 smmu.base gerrorn_offset) gerror s'')

  -- The two registers are read to be printed.
  abbrev pub read_positions : QueueBuffer → S → S
  read_positions evntq s = (pal.mmio_read evntq.cons_reg (pal.mmio_read evntq.prod_reg s).1).1

  -- The inner loop: the events that were removed, the queue and the state. `none` is a loop that has
  -- not ended when the fuel is used up, of which every event takes one.
  unfoldable pub drain : ℕ → QueueBuffer → S → Option (List Event × QueueBuffer × S)
  drain zero evntq s = none
  drain (suc fuel) evntq s = elim (queue_remove_raw evntq s) [
    | none ↦ some ([], evntq, s)
    | some (event, evntq', s') ↦ elim (drain fuel evntq' (read_positions evntq' s')) [
      | none ↦ none
      | some (events, evntq'', s'') ↦ some (event ∷ events, evntq'', s'')
    ]
  ]

  -- The outer loop, on fuel for its own rounds and for those of each inner loop.
  unfoldable pub thread_loop : ℕ → ℕ → QueueBuffer → S → Option (List Event × QueueBuffer × S)
  thread_loop zero inner evntq s = none
  thread_loop (suc fuel) inner evntq s = elim (drain inner evntq s) [
    | none ↦ none
    | some (events, evntq', s') ↦
        let (lost, evntq'', s'') = sync_prod_in evntq' s' in
        elim (queue_empty evntq''.queue) [
          | true ↦ some (events, evntq'', s'')
          | false ↦ elim (thread_loop fuel inner evntq'' s'') [
            | none ↦ none
            | some (more, evntq3, s3) ↦ some (events ++ more, evntq3, s3)
          ]
        ]
  ]

  -- The last statement of `smmu_evtq_thread`.
  unfoldable pub settled_cons : Queue → ℕ
  settled_cons q =
      bit_or (bit_or (queue_ovf q.prod) (wrap_bit q.cons q.log2nent)) (low_bits q.cons q.log2nent)

  unfoldable pub evtq_thread : ℕ → ℕ → SmmuDev → S → Option (List Event × SmmuDev × S)
  evtq_thread fuel inner smmu s =
      let (ret, s') = gerror_check smmu s in
      elim (ret != 0) [
        | true ↦ some ([], smmu, s')
        | false ↦ elim (thread_loop fuel inner smmu.evntq s') [
          | none ↦ none
          | some (events, evntq, s'') ↦
              let settled = record evntq {
                queue = record (evntq.queue) { cons = settled_cons evntq.queue };
              } in
              some (events, record smmu { evntq = settled }, read_positions evntq s'')
        ]
      ]
