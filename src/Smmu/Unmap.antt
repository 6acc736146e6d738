-- ===== src/Smmu/Unmap.antt =====
-- What `val_smmu_unmap` (val/sys_arch_src/smmu_v3/smmu_v3.c) leaves of a stream table of two levels.
use native.Mathlib.Nat.{mod-eq_of_lt, pow-le-pow_right}
use riscv_server_soc_ts.Prelude.{
  ℕ, zero, suc, ◌+◌, ◌*◌, ◌%◌, ◌^◌, ◌≤◌, ◌<◌, ◌≡◌, ◌⊎◌, refl, ap, ◌∙◌, arith, Bool, true, false,
  leb, ltb, ◌&&◌, ◌!=◌, if◌then◌else◌, some,
}
use riscv_server_soc_ts.Bits.{add64, shr, low_bits}
use riscv_server_soc_ts.Smmu.{SmmuPal, SmmuDev, bitfield_get, in_place}
use riscv_server_soc_ts.Smmu.Config.{Master, CdtabL1Desc, write_ste, write_abort_ste}
use riscv_server_soc_ts.Smmu.Stream.{linear_offset}
use riscv_server_soc_ts.Smmu.Context.{free_leaves, cdtab_free, l2_entry_count}
use riscv_server_soc_ts.Smmu.Command.{tlbi_cfgi}
use riscv_server_soc_ts.Smmu.Issue.{IsCommandPort, IsCommandQueue}
use riscv_server_soc_ts.Smmu.Invalidate.{tlbi_cfgi-outside}
use riscv_server_soc_ts.Smmu.Master.{
  MasterAttributes, Driver, dev_at, master_at, find_master, clear_ste, smmu_unmap,
}
use riscv_server_soc_ts.Smmu.Walk.{IsTwoLevel, base_word-in_place, cfg_word-fields, walk_ste}

module _ {S : Type 0} (pal : SmmuPal S) (smmu : SmmuDev) (prod : S → ℕ)
    (port : IsCommandPort pal smmu.cmdq prod) where
  -- The release of memory changes no word of it, and not the producer's register.
  pub record IsQuietFree : Type 0 where
    pub word : (a b : ℕ) (s : S) → pal.read64 b (pal.free a s) ≡ pal.read64 b s
    pub producer : (a : ℕ) (s : S) → prod (pal.free a s) ≡ prod s

  -- A state from which the words and the producer of `s` are seen.
  abbrev Agrees : S → S → Type 0
  Agrees s t = ((b : ℕ) → pal.read64 b t ≡ pal.read64 b s) × (prod t ≡ prod s)

  module _ (quiet : IsQuietFree) where
    freed-Agrees : (a : ℕ) (s t : S) → Agrees s t → Agrees s (pal.free a t)
    freed-Agrees a s t (words, at) = (λ b. quiet.word a b t ∙ words b, quiet.producer a t ∙ at)

    when-Agrees : (c : Bool) (s t u : S) → Agrees s t → Agrees s u → Agrees s (if c then t else u)
    when-Agrees true s t u h k = h
    when-Agrees false s t u h k = k

    free_leaves-Agrees :
        (n i : ℕ) (descs : ℕ → CdtabL1Desc) (s t : S)
        → Agrees s t
        → Agrees s (free_leaves pal n i descs t)
    unfolding free_leaves
    free_leaves-Agrees zero i descs s t h = h
    free_leaves-Agrees (suc n) i descs s t h =
        free_leaves-Agrees n (i + 1) descs s _
          (when-Agrees ((descs i).l2ptr != 0) s _ _ (freed-Agrees _ s t h) h)

    cdtab_free-Agrees : (cd2l : Bool) (m : Master) (s : S) → Agrees s (cdtab_free pal cd2l m s).1
    unfolding cdtab_free
    cdtab_free-Agrees cd2l m s =
        let same : Agrees s s = (λ b. refl, refl) in
        freed-Agrees _ s _ (
          when-Agrees (cd2l && ltb l2_entry_count (2 ^ m.stage1_config.s1cdmax)) s _ _
            (freed-Agrees _ s _ (free_leaves-Agrees _ 0 _ s s same)) same)

  -- The first word of an entry that was cleared, and the producer's register.
  write_abort_ste-word :
      (ste : ℕ) (s : S)
      → ste % 8 ≡ 0
      → ste < 2 ^ 63
      → (pal.read64 ste (write_abort_ste pal ste s) ≡ 1)
        × (prod (write_abort_ste pal ste s) ≡ prod s)
  unfolding write_abort_ste
  write_abort_ste-word ste s al lt =
      let second : add64 ste 8 ≡ ste + 8 = mod-eq_of_lt (omega arith) in
      let third : add64 ste 16 ≡ ste + 16 = mod-eq_of_lt (omega arith) in
      (
        port.store_other (add64 ste 16) ste 0 _ (omega arith) al (omega arith)
            ∙ port.store_other (add64 ste 8) ste _ _ (omega arith) al (omega arith)
            ∙ port.store_word ste 1 s (omega arith),
        port.store_prod _ _ _ ∙ port.store_prod _ _ _ ∙ port.store_prod _ _ _,
      )

  -- The SMMU takes the address of an entry from a descriptor that reads 1 as 0.
  walk_ste-one :
      (sid : ℕ) (s : S)
      → (two : IsTwoLevel smmu) → 2048 * sid < 2 ^ two.log2size
      → pal.read64 (smmu.strtab_cfg.strtab64 + sid * 64) s ≡ 1
      → walk_ste pal smmu.strtab_cfg (2048 * sid) s ≡ some 0
  unfolding walk_ste
  walk_ste-one sid s two lt word =
      let base = ap (in_place 51 6) two.base ∙ base_word-in_place _ two.aligned two.low in
      let (format, split, size) = cfg_word-fields two.log2size two.small in
      let split' = ap (bitfield_get 10 6) two.cfg ∙ split in
      let format' = ap (bitfield_get 17 16) two.cfg ∙ format in
      let size' = ap (bitfield_get 5 0) two.cfg ∙ size in
      let inside : leb (2 ^ two.log2size) (2048 * sid) ≡ false = ground arith in
      let index : shr (2048 * sid) 8 * 8 ≡ sid * 64 = omega arith in
      let inner : low_bits (2048 * sid) 8 ≡ 0 = omega arith in
      rw (size', inside, format', base, split', index, inner, word) refl

  module _ (queue : IsCommandQueue pal smmu.cmdq) (quiet : IsQuietFree) where
    master_at-found :
        (sid i : ℕ) (d : Driver) (m : Master) (s : S)
        → find_master sid d.masters ≡ some (i, m)
        → master_at pal sid d s ≡ (some (i, m), d, s)
    unfolding master_at
    master_at-found sid i d m s found = rw (found, master_at) refl

    -- The call for a stream that has a master with an SMMU, within the stream ids of that SMMU.
    smmu_unmap-mapped :
        (timeout i : ℕ) (k : ℕ × ℕ) (a : MasterAttributes) (d : Driver) (m : Master) (s : S)
        → find_master a.streamid d.masters ≡ some (i, m)
        → m.smmu ≡ some k
        → dev_at d k ≡ smmu
        → a.streamid < 2 ^ smmu.sid_bits
        → (smmu_unmap pal timeout a d s).1
          ≡ tlbi_cfgi pal timeout smmu
              (cdtab_free pal smmu.cd2l m (clear_ste pal smmu a.streamid s)).1
    unfolding smmu_unmap cdtab_free
    smmu_unmap-mapped timeout i k a d m s found own same lt =
        let within : leb (2 ^ smmu.sid_bits) a.streamid ≡ false = ground arith in
        let at = master_at-found a.streamid i d m s found in
        rw (at, own, at, same, within, smmu_unmap) refl

    -- Unmapping stream `sid`, which has a master, on an SMMU with a table of two levels overwrites a
    -- descriptor of the first level: for stream 2048 * `sid`, when it is within the size of the table,
    -- the SMMU then looks for an entry at address 0. The command queue lies outside of the descriptor,
    -- and the release of memory changes none of it.
    pub smmu_unmap-walk_ste :
        (timeout w i : ℕ) (k : ℕ × ℕ) (a : MasterAttributes) (d : Driver) (m : Master) (s : S)
        → find_master a.streamid d.masters ≡ some (i, m)
        → m.smmu ≡ some k
        → dev_at d k ≡ smmu
        → a.streamid < 2 ^ smmu.sid_bits
        → (two : IsTwoLevel smmu) → 2048 * a.streamid < 2 ^ two.log2size
        → prod s ≡ low_bits w (smmu.cmdq.queue.log2nent + 1)
        → (smmu.strtab_cfg.strtab64 + a.streamid * 64 < smmu.cmdq.base)
          ⊎ (smmu.cmdq.base + 2 ^ smmu.cmdq.queue.log2nent * 16
              ≤ smmu.strtab_cfg.strtab64 + a.streamid * 64)
        → walk_ste pal smmu.strtab_cfg (2048 * a.streamid) (smmu_unmap pal (suc timeout) a d s).1
          ≡ some 0
    unfolding clear_ste write_ste
    smmu_unmap-walk_ste timeout w i k a d m s found own same lt two inside at out =
        let most : 2 ^ two.log2size ≤ 2 ^ 32 = pow-le-pow_right (omega arith) two.small in
        let small : a.streamid < 2 ^ 21 = omega arith in
        let sid = a.streamid in
        let place = smmu.strtab_cfg.strtab64 + sid * 64 in
        let low = two.low in
        let al = two.aligned in
        let here : add64 smmu.strtab_cfg.strtab64 (linear_offset sid) ≡ place =
          wrapped smmu.strtab_cfg.strtab64 sid low small in
        let cleared = write_abort_ste-word place s (omega arith) (omega arith) in
        let freed = cdtab_free-Agrees quiet smmu.cd2l m (write_abort_ste pal place s) in
        let flushed =
          tlbi_cfgi-outside pal smmu prod port queue timeout w place _ (freed.1 ∙ cleared.1 ∙ at)
            (omega arith) out in
        rw (smmu_unmap-mapped (suc timeout) i k a d m s found own same lt, here)
          (walk_ste-one sid _ two inside (flushed ∙ freed.0 place ∙ cleared.0))
      where
        wrapped :
            (table sid : ℕ)
            → table < 2 ^ 52
            → sid < 2 ^ 21
            → add64 table (linear_offset sid) ≡ table + sid * 64
        wrapped table sid low small = omega arith
