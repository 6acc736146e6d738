-- ===== src/GicIts/Position.antt =====
-- The positions of the commands in the queues (val/sys_arch_src/gic/its/bsa_gic_its.c) after calls
-- that map interrupts and take mappings back.
use riscv_server_soc_ts.Prelude.{
  ℕ, zero, suc, ◌+◌, ◌*◌, ◌%◌, ◌^◌, ◌<◌, ◌≡◌, refl, arith, true, ◌==◌, subst, ◌∙◌, ==→≡, ap, leb,
  Bool-cases, inl, inr, if◌then◌else◌, List, [], ◌∷◌,
}
use riscv_server_soc_ts.Bits.{add32, u32_mod}
use riscv_server_soc_ts.GicIts.{ItsPal, ItsState, GicItsInfo, queue_bytes}
use riscv_server_soc_ts.GicIts.Command.{
  moved_on, write_words, write_mapd, write_mapc, write_mapi, write_inv, write_discard, write_sync,
}
use riscv_server_soc_ts.GicIts.Lpi.{create_lpi_map, clear_lpi_map}

-- A call, for a service, a device and an interrupt.
pub data Call : Type 0 where
  create : ℕ → ℕ → ℕ → ℕ → Call
  clear : ℕ → ℕ → ℕ → Call

-- The words that calls write to the queue of service `i`: five commands of four words for a mapping,
-- three for taking it back.
abbrev pub words : ℕ → List Call → ℕ
words i [] = 0
words i (create j d n p ∷ cs) = (if i == j then 20 else 0) + words i cs
words i (clear j d n ∷ cs) = (if i == j then 12 else 0) + words i cs

module _ {S : Type 0} (pal : ItsPal S) (timeout : ℕ) where
  abbrev pub call : Call → ItsState → S → ItsState × S
  call (create i d n p) st s = create_lpi_map pal timeout i d n p st s
  call (clear i d n) st s = clear_lpi_map pal timeout i d n st s

  abbrev pub run : List Call → ItsState → S → ItsState × S
  run [] st s = (st, s)
  run (c ∷ cs) st s = let (st', s') = call c st s in run cs st' s'

  -- What a call with `count` words leaves: the position of a service, and what stays as it was.
  abbrev IsMoved : ℕ → ℕ → ℕ → ItsState → ItsState → Type 0
  IsMoved i j count st st' =
      (st'.cwriter_ptr i % u32_mod ≡ (st.cwriter_ptr i + (if i == j then count else 0)) % u32_mod)
      × (st'.setup_done ≡ st.setup_done)
      × (st'.info ≡ st.info)

  moved_on-IsMoved :
      (i j count : ℕ) (st st' : ItsState)
      → IsMoved i j count st st'
      → IsMoved i j (count + 4) st (moved_on j st')
  moved_on-IsMoved i j count st st' (position, done, same) = (
    elim (Bool-cases (i == j)) [
      | inl e ↦
          let before : st'.cwriter_ptr i % u32_mod ≡ (st.cwriter_ptr i + count) % u32_mod =
            position ∙ rw (e) refl in
          let here : i ≡ j = ==→≡ _ _ e in
          rw (e) (
            subst
              (λ k.
                add32 (st'.cwriter_ptr k) 4 % u32_mod ≡ (st.cwriter_ptr i + (count + 4)) % u32_mod)
              here (omega arith))
      | inr e ↦ rw (e) (position ∙ rw (e) refl)
    ],
    done,
    same,
  )

  abbrev advances : ℕ → ℕ → ItsState → ItsState
  advances j zero st = st
  advances j (suc n) st = moved_on j (advances j n st)

  advances-IsMoved : (i j n : ℕ) (st : ItsState) → IsMoved i j (n * 4) st (advances j n st)
  advances-IsMoved i j zero st = (ground arith, refl, refl)
  advances-IsMoved i j (suc n) st =
      let more : n * 4 + 4 ≡ suc n * 4 = omega arith in
      let (position, done, same) =
        moved_on-IsMoved i j (n * 4) st (advances j n st) (advances-IsMoved i j n st) in
      (position ∙ ground arith, done, same)

  create_lpi_map-IsMoved :
      (i j d n p : ℕ) (st : ItsState) (s : S)
      → st.setup_done ≡ true
      → IsMoved i j 20 st (create_lpi_map pal timeout j d n p st s).0
  unfolding create_lpi_map write_words write_mapd write_mapc write_mapi write_inv write_sync
  create_lpi_map-IsMoved i j d n p st s h =
      let all = advances-IsMoved i j 5 st in rw (h) (all.0, refl, refl)

  clear_lpi_map-IsMoved :
      (i j d n : ℕ) (st : ItsState) (s : S)
      → st.setup_done ≡ true
      → IsMoved i j 12 st (clear_lpi_map pal timeout j d n st s).0
  unfolding clear_lpi_map write_words write_discard write_mapd write_sync
  clear_lpi_map-IsMoved i j d n st s h =
      let all = advances-IsMoved i j 3 st in rw (h) (all.0, refl, refl)

  run-IsMoved :
      (i : ℕ) (cs : List Call) (st : ItsState) (s : S)
      → st.setup_done ≡ true
      → let st' = (run cs st s).0 in
        (st'.cwriter_ptr i % u32_mod ≡ (st.cwriter_ptr i + words i cs) % u32_mod)
        × (st'.setup_done ≡ st.setup_done)
        × (st'.info ≡ st.info)
  run-IsMoved i [] st s h = (ground arith, refl, refl)
  run-IsMoved i (create j d n p ∷ cs) st s h =
      let (st1, s1) = create_lpi_map pal timeout j d n p st s in
      let (position, done, same) = create_lpi_map-IsMoved i j d n p st s h in
      let (position', done', same') = run-IsMoved i cs st1 s1 (done ∙ h) in
      (omega arith, done' ∙ done, same' ∙ same)
  run-IsMoved i (clear j d n ∷ cs) st s h =
      let (st1, s1) = clear_lpi_map pal timeout j d n st s in
      let (position, done, same) = clear_lpi_map-IsMoved i j d n st s h in
      let (position', done', same') = run-IsMoved i cs st1 s1 (done ∙ h) in
      (omega arith, done' ∙ done, same' ∙ same)

  -- After any calls on services that are set up, of which those for one service, at position 0
  -- before, write less than 2^29 words, its position is the number of these words, and its queue is
  -- where it was. The next command ends within the 32768 bytes of the queue exactly when these words
  -- and its own four are at most 4096: the positions do not wrap around.
  pub run-position :
      (i : ℕ) (cs : List Call) (st : ItsState) (s : S)
      → st.setup_done ≡ true
      → st.cwriter_ptr i ≡ 0
      → words i cs < 2 ^ 29
      → let st' = (run cs st s).0 in
        (st'.cwriter_ptr i % u32_mod ≡ words i cs)
        × ((st'.info.gic_its i).command_q_base ≡ (st.info.gic_its i).command_q_base)
        × (leb ((st'.cwriter_ptr i % u32_mod + 4) * 8) queue_bytes ≡ leb (words i cs + 4) 4096)
  run-position i cs st s h start small =
      let (position, done, same) = run-IsMoved i cs st s h in
      let exact : (run cs st s).0.cwriter_ptr i % u32_mod ≡ words i cs = omega arith in
      (exact, ap (λ (b : GicItsInfo). (b.gic_its i).command_q_base) same, rw (exact) (ground arith))
