-- ===== src/Smmu/Masters.antt =====
-- The list of masters (val/sys_arch_src/smmu_v3/smmu_v3.c) through val_smmu_map and val_smmu_unmap.
use riscv_server_soc_ts.Prelude.{
  ℕ, zero, suc, ◌+◌, ◌≡◌, ◌≢◌, refl, sym, subst, ap, ◌∙◌, arith, Bool, true, false, if◌then◌else◌,
  ◌==◌, ==→≡, ==→≢, Bool-cases, inl, inr, Option, none, some, List, [], ◌∷◌, All, map, Option-cases,
}
use riscv_server_soc_ts.Bits.{low_bits}
use riscv_server_soc_ts.Smmu.{SmmuPal, SmmuDev}
use riscv_server_soc_ts.Smmu.Config.{Master, smmu_stage_s2}
use riscv_server_soc_ts.Smmu.Stream.{strtab_init_level2}
use riscv_server_soc_ts.Smmu.Context.{cdtab_alloc, cdtab_alloc_table, get_ctx_desc, write_ctx_desc}
use riscv_server_soc_ts.Iovirt.{IovirtTable}
use riscv_server_soc_ts.Smmu.Init.{driver_init}
use riscv_server_soc_ts.Smmu.Master.{
  MasterAttributes, MapDescriptor, Driver, cleared_master, find_master, replace, master_at, adopt,
  staged, set_stage1, set_stage2, cd2l_of, with_master, with_dev, map_master, smmu_map, smmu_unmap,
}

-- The stream of each master, in the order of the list.
abbrev pub streams : List Master → List ℕ
streams ms = map (λ (m : Master). m.sid) ms

-- No stream other than 0 occurs twice.
abbrev pub IsDistinct : List ℕ → Type 0
IsDistinct [] = Unit
IsDistinct (x ∷ xs) = (x ≢ 0 → All (λ y. y ≢ x) xs) × IsDistinct xs

-- What the search for a stream has found: no master has it, or the master found has it, and may be
-- replaced by another that has it.
abbrev pub IsFound : ℕ → List Master → Option (ℕ × Master) → Type 0
IsFound sid ms none = All (λ y. y ≢ sid) (streams ms)
IsFound sid ms (some (i, m)) =
    (m.sid ≡ sid) × ((m' : Master) → m'.sid ≡ sid → streams (replace i m' ms) ≡ streams ms)

find_master-IsFound : (sid : ℕ) (ms : List Master) → IsFound sid ms (find_master sid ms)
unfolding find_master replace
find_master-IsFound sid [] = tt
find_master-IsFound sid (k ∷ ms) = elim (Bool-cases (k.sid == sid)) [
  | inl e ↦ rw (e) (==→≡ _ _ e, λ m' h. ap (λ (x : ℕ). x ∷ streams ms) (h ∙ sym (==→≡ _ _ e)))
  | inr e ↦ rw (e) (later (==→≢ _ _ e) (find_master sid ms) (find_master-IsFound sid ms))
]
  where
    later :
        k.sid ≢ sid
        → (r : Option (ℕ × Master)) → IsFound sid ms r
        → IsFound sid (k ∷ ms) (elim r as (λ _. Option (ℕ × Master)) [
          | none ↦ none
          | some (i, found) ↦ some (i + 1, found)
        ])
    later ne none h = (ne, h)
    later ne (some (i, m)) (e, keeps) =
        let up : i + 1 ≡ suc i = omega arith in
        (e, λ m' h. rw (up) (ap (λ (xs : List ℕ). k.sid ∷ xs) (keeps m' h)))

clear-absent :
    (x i : ℕ) (ms : List Master)
    → x ≢ 0
    → All (λ y. y ≢ x) (streams ms)
    → All (λ y. y ≢ x) (streams (replace i cleared_master ms))
unfolding replace
clear-absent x i [] ne h = h
clear-absent x zero (m ∷ ms) ne h = ((λ e. ne (sym e)), h.1)
clear-absent x (suc i) (m ∷ ms) ne h = (h.0, clear-absent x i ms ne h.1)

clear-IsDistinct :
    (i : ℕ) (ms : List Master)
    → IsDistinct (streams ms)
    → IsDistinct (streams (replace i cleared_master ms))
unfolding replace
clear-IsDistinct i [] h = h
clear-IsDistinct zero (m ∷ ms) h = ((λ ne. absurd (ne refl)), h.1)
clear-IsDistinct (suc i) (m ∷ ms) h =
    ((λ ne. clear-absent m.sid i ms ne (h.0 ne)), clear-IsDistinct i ms h.1)

replace-replace :
    (i : ℕ) (m m' : Master) (ms : List Master) → replace i m' (replace i m ms) ≡ replace i m' ms
unfolding replace
replace-replace i m m' [] = refl
replace-replace zero m m' (k ∷ ms) = refl
replace-replace (suc i) m m' (k ∷ ms) = ap (λ (r : List Master). k ∷ r) (replace-replace i m m' ms)

module _ {S : Type 0} (pal : SmmuPal S) where
  -- None of the steps of stage 1 changes the stream of a master.
  cdtab_alloc_table-sid :
      (m : Master) (size : ℕ) (s : S) → (cdtab_alloc_table pal m size s).1.sid ≡ m.sid
  unfolding cdtab_alloc_table
  cdtab_alloc_table-sid m size s = ground arith

  cdtab_alloc-sid : (cd2l : Bool) (m : Master) (s : S) → (cdtab_alloc pal cd2l m s).1.sid ≡ m.sid
  unfolding cdtab_alloc
  cdtab_alloc-sid cd2l m s = grind (arith, cdtab_alloc_table-sid)

  get_ctx_desc-sid : (m : Master) (s : S) → (get_ctx_desc pal m s).1.sid ≡ m.sid
  unfolding get_ctx_desc
  get_ctx_desc-sid m s = ground arith

  write_ctx_desc-sid : (m : Master) (s : S) → (write_ctx_desc pal m s).1.sid ≡ m.sid
  unfolding write_ctx_desc
  write_ctx_desc-sid m s = let inner = get_ctx_desc-sid m s in ground arith

  set_stage1-sid :
      (p : MapDescriptor) (cd2l : Bool) (m : Master) (s : S)
      → (set_stage1 pal p cd2l m s).1.sid ≡ m.sid
  unfolding set_stage1
  set_stage1-sid p cd2l m s =
      let sized = record m {
        stage1_config = record (m.stage1_config) { s1cdmax = low_bits m.ssid_bits 8 };
      } in
      let made : (cdtab_alloc pal cd2l sized s).1.sid ≡ m.sid = cdtab_alloc-sid cd2l sized s in
      grind (arith, write_ctx_desc-sid)

  -- The list after the search for a stream: it is distinct, and stays so when the master found or
  -- added is replaced by one with that stream, as `adopt` makes it.
  abbrev IsReady : MasterAttributes → Option (ℕ × Master) → List Master → Type 0
  IsReady a none ms = IsDistinct (streams ms)
  IsReady a (some (i, old)) ms =
      IsDistinct (streams ms)
      × ((m : Master) → m.sid ≡ a.streamid → IsDistinct (streams (replace i m ms)))
      × ((array : ℕ) → (adopt pal array a old).sid ≡ a.streamid)

  adopt-sid :
      (array : ℕ) (a : MasterAttributes) (m : Master)
      → m.sid ≡ a.streamid
      → (adopt pal array a m).sid ≡ a.streamid
  unfolding adopt
  adopt-sid array a m h = grind arith

  master_at-IsReady :
      (a : MasterAttributes) (d : Driver) (s : S)
      → IsDistinct (streams d.masters)
      → IsReady a (master_at pal a.streamid d s).0 (master_at pal a.streamid d s).1.masters
  unfolding master_at adopt replace
  master_at-IsReady a d s h = go (find_master a.streamid d.masters) (find_master-IsFound _ _)
    where
      added :
          (no_node no_master : Bool) (s1 s2 s3 : S)
          → All (λ y. y ≢ a.streamid) (streams d.masters)
          → let at : Option (ℕ × Master) × Driver × S =
              if no_node then (none, d, s1) else if no_master then (none, d, s2) else (
                some (0, cleared_master),
                record d { masters = cleared_master ∷ d.masters },
                s3,
              ) in
            IsReady a at.0 at.1.masters
      added true b s1 s2 s3 absent = h
      added false true s1 s2 s3 absent = h
      added false false s1 s2 s3 absent = (
        ((λ ne. absurd (ne refl)), h),
        (λ m e. ((λ ne. subst (λ x. All (λ y. y ≢ x) (streams d.masters)) (sym e) absent), h)),
        λ array. refl,
      )

      go :
          (r : Option (ℕ × Master))
          → IsFound a.streamid d.masters r
          → let at = elim r as (λ _. Option (ℕ × Master) × Driver × S) [
            | some found ↦ (some found, d, s)
            | none ↦
                let (node, s') = pal.alloc 16 s in
                let (ptr, s'') = pal.calloc 1 136 s' in
                if node == 0
                then (none, d, s')
                else if ptr == 0
                then (none, d, pal.free node s'')
                else (
                  some (0, cleared_master),
                  record d { masters = cleared_master ∷ d.masters },
                  s'',
                )
          ] in
            IsReady a at.0 at.1.masters
      go (some (i, old)) (e, keeps) = (
        h,
        λ m k. subst (λ xs. IsDistinct xs) (sym (keeps m k)) h,
        λ array. adopt-sid array a old e,
      )
      go none absent = added ((pal.alloc 16 s).0 == 0) _ _ _ _ absent

  map_master-sid :
      (timeout : ℕ) (a : MasterAttributes) (p : MapDescriptor) (i : ℕ) (smmu : SmmuDev) (m : Master)
      (d : Driver) (s : S)
      → (m' : Master) × (m'.sid ≡ m.sid)
        × ((map_master pal timeout a p i smmu m d s).1.masters ≡ replace i m' d.masters)
  unfolding map_master set_stage2
  map_master-sid timeout a p i smmu m d s =
      let configured : Bool × Master × S = elim m.stage as (λ _. Bool × Master × S) [
        | smmu_stage_s2 ↦ (true, set_stage2 pal p m, s)
        | _ ↦ set_stage1 pal p (cd2l_of pal d m.smmu) m s
      ] in
      let kept : configured.1.sid ≡ m.sid = grind (arith, set_stage1-sid) in
      (configured.1, kept, ground arith)

  staged-sid :
      (a : MasterAttributes) (smmu : SmmuDev) (m m' : Master)
      → staged pal a smmu m ≡ some m'
      → m'.sid ≡ m.sid
  unfolding staged
  staged-sid a smmu m m' h = grind arith

  map_master-IsDistinct :
      (timeout : ℕ) (a : MasterAttributes) (p : MapDescriptor) (i : ℕ) (smmu : SmmuDev) (m : Master)
      (d : Driver) (s : S) (ms : List Master)
      → ((k : Master) → k.sid ≡ a.streamid → IsDistinct (streams (replace i k ms)))
      → m.sid ≡ a.streamid
      → d.masters ≡ replace i m ms
      → IsDistinct (streams (map_master pal timeout a p i smmu m d s).1.masters)
  map_master-IsDistinct timeout a p i smmu m d s ms keeps e l =
      let (m', e', l') = map_master-sid timeout a p i smmu m d s in
      let same = l' ∙ ap (λ (xs : List Master). replace i m' xs) l ∙ replace-replace i m m' ms in
      subst (λ (xs : List Master). IsDistinct (streams xs)) (sym same) (keeps m' (e' ∙ e))

  smmu_map-IsDistinct :
      (timeout : ℕ) (a : MasterAttributes) (p : MapDescriptor) (d : Driver) (s : S)
      → IsDistinct (streams d.masters)
      → IsDistinct (streams (smmu_map pal timeout a p d s).1.masters)
  unfolding smmu_map
  smmu_map-IsDistinct timeout a p d s h =
      let smmu = d.devs a.smmu_index in
      let (found, d1, s1) = master_at pal a.streamid d s in
      let ready = master_at-IsReady a d s h in
      elim (Option-cases found) [
        | inl e ↦
            let r : IsReady a none d1.masters = subst (λ f. IsReady a f d1.masters) e ready in
            rw (e) (grind arith)
        | inr ((i, old), e) ↦
            let (r, keeps, adopted) : IsReady a (some (i, old)) d1.masters =
              subst (λ f. IsReady a f d1.masters) e ready in
            let own = adopt pal d1.array a old in
            elim (Option-cases (staged pal a smmu own)) [
              | inl e' ↦ let k = keeps own (adopted d1.array) in rw (e, e') (grind arith)
              | inr (m', e') ↦
                  let sid : m'.sid ≡ a.streamid = staged-sid a smmu own m' e' ∙ adopted d1.array in
                  let k = keeps m' sid in
                  let (ret, smmu', s2) = strtab_init_level2 pal smmu m'.sid s1 in
                  let d2 = with_master d1 i m' in
                  let two =
                    map_master-IsDistinct timeout a p i smmu' m' (with_dev d2 a.smmu_index smmu') s2
                      d1.masters keeps sid refl in
                  let one =
                    map_master-IsDistinct timeout a p i smmu m' d2 s1 d1.masters keeps sid refl in
                  rw (e, e') (grind arith)
            ]
      ]

  smmu_unmap-IsDistinct :
      (timeout : ℕ) (a : MasterAttributes) (d : Driver) (s : S)
      → IsDistinct (streams d.masters)
      → IsDistinct (streams (smmu_unmap pal timeout a d s).0.masters)
  unfolding smmu_unmap
  smmu_unmap-IsDistinct timeout a d s h =
      let (found, d', s') = master_at pal a.streamid d s in
      let ready = weaken a found d'.masters (master_at-IsReady a d s h) in
      grind (arith, clear-IsDistinct)
    where
      weaken :
          (a : MasterAttributes) (r : Option (ℕ × Master)) (ms : List Master)
          → IsReady a r ms
          → IsDistinct (streams ms)
      weaken a none ms h = h
      weaken a (some (i, m)) ms h = h.0

  driver_init-masters :
      (max_sid ack timeout : ℕ) (table : IovirtTable) (d : Driver) (s : S)
      → (driver_init pal max_sid ack timeout table d s).1.masters ≡ d.masters
  unfolding driver_init
  driver_init-masters max_sid ack timeout table d s = ground arith

  -- The states of the driver and of the devices that calls lead to, from a driver without masters. In
  -- between the devices may change.
  pub data Runs : Driver → S → Type 0 where
    loaded : (d : Driver) (s : S) → d.masters ≡ [] → Runs d s
    elapsed : {d : Driver} {s : S} (s' : S) → Runs d s → Runs d s'
    set_up :
        {d : Driver} {s : S} (max_sid ack timeout : ℕ) (table : IovirtTable)
        → Runs d s
        → Runs
            (driver_init pal max_sid ack timeout table d s).1
            (driver_init pal max_sid ack timeout table d s).2
    mapped :
        {d : Driver} {s : S} (timeout : ℕ) (a : MasterAttributes) (p : MapDescriptor)
        → Runs d s
        → Runs (smmu_map pal timeout a p d s).1 (smmu_map pal timeout a p d s).2
    unmapped :
        {d : Driver} {s : S} (timeout : ℕ) (a : MasterAttributes)
        → Runs d s
        → Runs (smmu_unmap pal timeout a d s).0 (smmu_unmap pal timeout a d s).1

  -- However `val_smmu_init`, `val_smmu_map` and `val_smmu_unmap` are called, on whichever branches they
  -- end, no two masters of the list have the same stream, 0 excepted, which is that of the masters
  -- that were unmapped.
  pub Runs-IsDistinct : {d : Driver} {s : S} → Runs d s → IsDistinct (streams d.masters)
  Runs-IsDistinct (loaded d s h) = subst (λ (ms : List Master). IsDistinct (streams ms)) (sym h) tt
  Runs-IsDistinct (elapsed s' r) = Runs-IsDistinct r
  Runs-IsDistinct (set_up {d} {s} max_sid ack timeout table r) =
      subst (λ (ms : List Master). IsDistinct (streams ms))
        (sym (driver_init-masters max_sid ack timeout table d s)) (Runs-IsDistinct r)
  Runs-IsDistinct (mapped {d} {s} timeout a p r) =
      smmu_map-IsDistinct timeout a p d s (Runs-IsDistinct r)
  Runs-IsDistinct (unmapped {d} {s} timeout a r) =
      smmu_unmap-IsDistinct timeout a d s (Runs-IsDistinct r)
