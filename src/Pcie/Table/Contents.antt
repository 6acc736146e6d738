-- ===== src/Pcie/Table/Contents.antt =====
-- What the table of functions holds, and what a failed creation leaves behind.
use riscv_server_soc_ts.Prelude.{
  ℕ, suc, ◌+◌, ◌≡◌, ◌≢◌, refl, sym, ◌≤◌, ap, ◌∙◌, arith, ==→≡, ==→≢, leb, length, Bool, true, false,
  Bool-cases, ◌==◌, ◌!=◌, if◌then◌else◌, Option, none, some, List, [], ◌∷◌, ◌++◌, All, inl, inr,
}
use riscv_server_soc_ts.Pcie.{
  Pal, InfoTable, get_info, info_num_ecam, pcie_no_mapping, pcie_unknown_response,
}
use riscv_server_soc_ts.Pcie.Config.{read_cfg}
use riscv_server_soc_ts.Pcie.Device.{is_host_bridge, enable_bme, enable_msa}
use riscv_server_soc_ts.Pcie.Capability.{pcie_cap, find_capability}
use riscv_server_soc_ts.Pcie.Table.{
  Probe, unmapped, passed_over, recorded, probe_device, probe, record_functions, bdf_table_room,
  create_device_bdf_table,
}

append-one : (xs : List ℕ) (y : ℕ) (ys : List ℕ) → (xs ++ y ∷ []) ++ ys ≡ xs ++ y ∷ ys
append-one [] y ys = refl
append-one (x ∷ xs) y ys = ap (λ (r : List ℕ). x ∷ r) (append-one xs y ys)

append-none : (xs : List ℕ) → xs ≡ xs ++ []
append-none [] = refl
append-none (x ∷ xs) = ap (λ (r : List ℕ). x ∷ r) (append-none xs)

length-append_one : (xs : List ℕ) (y : ℕ) → length (xs ++ y ∷ []) ≡ length xs + 1
length-append_one [] y = refl
length-append_one (x ∷ xs) y = let rest = length-append_one xs y in omega arith

abbrev status_of : Option (ℕ × ℕ) → ℕ
status_of none = 0
status_of (some (status, offset)) = status

module _ {S : Type 0} (pal : Pal S) (info : Option InfoTable) (fuel junk : ℕ)
    (target_linux : Bool) where
  -- The devices when a function has been switched on.
  abbrev pub switched : ℕ → S → S
  switched bdf s =
      if target_linux
      then s
      else enable_msa pal info fuel junk bdf (enable_bme pal info fuel junk bdf s)

  -- A function that answers: its region is mapped, its vendor and device id are not all ones, and it is
  -- no host bridge.
  abbrev pub IsAnswering : ℕ → S → Type 0
  IsAnswering bdf s =
      ((read_cfg pal info bdf 0 junk s).0 ≢ pcie_no_mapping)
      × ((read_cfg pal info bdf 0 junk s).1 ≢ pcie_unknown_response)
      × (is_host_bridge pal info fuel junk bdf s ≡ 0)

  -- A function that is to be recorded, in the state in which it is reached: it answers, when it is
  -- switched on its PCI Express capability is found, and the platform calls it valid.
  abbrev pub IsDevice : ℕ → S → Type 0
  IsDevice bdf s =
      IsAnswering bdf s
      × ((offset : ℕ) × (find_capability pal info fuel junk bdf pcie_cap 0x10 junk (switched bdf s)
            ≡ some (0, offset)))
      × (pal.check_device_valid bdf ≡ 0)

  -- The search for the capability ends for the function, in every state of the devices.
  abbrev pub Ends : ℕ → Type 0
  Ends bdf =
      (s : S) → (r : ℕ × ℕ) × (find_capability pal info fuel junk bdf pcie_cap 0x10 junk s ≡ some r)

  -- The functions of a list that are to be recorded, each in the state in which it is reached, with
  -- the status and the last state: a function that answers leaves the state in which it is switched
  -- on, and one that is not mapped ends the loops with status 1.
  pub data Records : List ℕ → S → ℕ → List ℕ → S → Type 0 where
    all_seen : (s : S) → Records [] s 0 [] s
    no_mapping :
        (bdf : ℕ) (bdfs : List ℕ) (s : S)
        → (read_cfg pal info bdf 0 junk s).0 ≡ pcie_no_mapping
        → Records (bdf ∷ bdfs) s 1 [] s
    silent :
        {bdfs kept : List ℕ} {status : ℕ} {s s' : S} (bdf : ℕ)
        → (read_cfg pal info bdf 0 junk s).0 ≢ pcie_no_mapping
        → ¬ IsAnswering bdf s
        → Records bdfs s status kept s'
        → Records (bdf ∷ bdfs) s status kept s'
    not_device :
        {bdfs kept : List ℕ} {status : ℕ} {s s' : S} (bdf : ℕ)
        → IsAnswering bdf s
        → ¬ IsDevice bdf s
        → Records bdfs (switched bdf s) status kept s'
        → Records (bdf ∷ bdfs) s status kept s'
    device :
        {bdfs kept : List ℕ} {status : ℕ} {s s' : S} (bdf : ℕ)
        → IsDevice bdf s
        → Records bdfs (switched bdf s) status kept s'
        → Records (bdf ∷ bdfs) s status (bdf ∷ kept) s'

  -- What the body of the loops makes of a function.
  data Probed (bdf : ℕ) (s : S) : Option (Probe S) → Type 0 where
    as_unmapped :
        (read_cfg pal info bdf 0 junk s).0 ≡ pcie_no_mapping → Probed bdf s (some unmapped)
    as_silent :
        (read_cfg pal info bdf 0 junk s).0 ≢ pcie_no_mapping
        → ¬ IsAnswering bdf s
        → Probed bdf s (some (passed_over s))
    as_other :
        IsAnswering bdf s → ¬ IsDevice bdf s → Probed bdf s (some (passed_over (switched bdf s)))
    as_device : IsDevice bdf s → Probed bdf s (some (recorded (switched bdf s)))

  probe_device-Probed :
      (bdf : ℕ) (s : S)
      → Ends bdf
      → IsAnswering bdf s
      → Probed bdf s (probe_device pal info fuel junk target_linux bdf (switched bdf s))
  unfolding probe_device
  probe_device-Probed bdf s ends answers =
      let ((cap, offset), e) = ends (switched bdf s) in
      elim (Bool-cases (cap == 0)) [
        | inl found ↦ elim (Bool-cases (pal.check_device_valid bdf == 0)) [
          | inl valid ↦
              let none_missing : (cap != 0) ≡ false = ground arith in
              let good : (pal.check_device_valid bdf != 0) ≡ false = ground arith in
              let here : ◌≡◌ {A = Option (ℕ × ℕ)} (some (cap, offset)) (some (0, offset)) =
                ap (λ (c : ℕ). let o : Option (ℕ × ℕ) = some (c, offset) in o) (==→≡ _ _ found) in
              rw (e, none_missing, good, probe_device)
                (as_device (answers, (offset, e ∙ here), ==→≡ _ _ valid))
          | inr invalid ↦
              let none_missing : (cap != 0) ≡ false = ground arith in
              let bad : (pal.check_device_valid bdf != 0) ≡ true = ground arith in
              rw (e, none_missing, bad, probe_device) (as_other answers (λ d. ==→≢ _ _ invalid d.2))
        ]
        | inr missing ↦
            let lacking : (cap != 0) ≡ true = ground arith in
            rw (e, lacking, probe_device)
              (as_other answers (λ d. ==→≢ _ _ missing (ap status_of (sym e ∙ d.1.1))))
      ]

  probe-Probed :
      (bdf : ℕ) (s : S) → Ends bdf → Probed bdf s (probe pal info fuel junk target_linux bdf s)
  unfolding probe
  probe-Probed bdf s ends =
      let (status, reg_value) = read_cfg pal info bdf 0 junk s in
      elim (Bool-cases (status == pcie_no_mapping)) [
        | inl h ↦ rw (h, probe) (as_unmapped (==→≡ _ _ h))
        | inr h ↦ elim (Bool-cases (reg_value == pcie_unknown_response)) [
          | inl k ↦ rw (h, k, probe) (as_silent (==→≢ _ _ h) (λ a. a.1 (==→≡ _ _ k)))
          | inr k ↦ elim (Bool-cases (is_host_bridge pal info fuel junk bdf s == 0)) [
            | inr l ↦
                let l' : (is_host_bridge pal info fuel junk bdf s != 0) ≡ true = ground arith in
                rw (h, k, l', probe) (as_silent (==→≢ _ _ h) (λ a. ==→≢ _ _ l a.2))
            | inl l ↦
                let l' : (is_host_bridge pal info fuel junk bdf s != 0) ≡ false = ground arith in
                rw (h, k, l', probe)
                  (probe_device-Probed bdf s ends (==→≢ _ _ h, ==→≢ _ _ k, ==→≡ _ _ l))
          ]
        ]
      ]

  same_table :
      (status : ℕ) (s : S) {xs ys : List ℕ}
      → xs ≡ ys
      → ◌≡◌ {A = Option (ℕ × List ℕ × S)} (some (status, xs, s)) (some (status, ys, s))
  same_table status s h =
      ap (λ (t : List ℕ). let r : Option (ℕ × List ℕ × S) = some (status, t, s) in r) h

  -- The functions to be recorded, which are added to `table` if they fit.
  abbrev pub Adds : List ℕ → List ℕ → S → Type 0
  Adds bdfs table s =
      (status : ℕ) × (kept : List ℕ) × (s' : S) × Records bdfs s status kept s'
      × (record_functions pal info fuel junk target_linux bdfs table s ≡ (
          if leb (length table + length kept) bdf_table_room
          then some (status, table ++ kept, s')
          else none))

  ended :
      (table : List ℕ) (status : ℕ) (s : S)
      → length table ≤ bdf_table_room
      → ◌≡◌ {A = Option (ℕ × List ℕ × S)}
          (some (status, table, s))
          (if leb (length table + 0) bdf_table_room then some (status, table ++ [], s) else none)
  ended table status s h =
      let fits : leb (length table + 0) bdf_table_room ≡ true = ground arith in
      rw (fits) (same_table status s (append-none table))

  one_function :
      (bdf : ℕ) (bdfs table : List ℕ) (s : S) (o : Option (Probe S))
      → probe pal info fuel junk target_linux bdf s ≡ o
      → Probed bdf s o
      → length table ≤ bdf_table_room
      → ((t : List ℕ) (u : S) → length t ≤ bdf_table_room → Adds bdfs t u)
      → Adds (bdf ∷ bdfs) table s
  unfolding record_functions
  one_function bdf bdfs table s _ e (as_unmapped h) room rest =
      (1, [], s, no_mapping bdf bdfs s h, rw (e, record_functions) (ended table 1 s room))
  one_function bdf bdfs table s _ e (as_silent m h) room rest =
      let (status, kept, s', r, eq) = rest table s room in
      (status, kept, s', silent bdf m h r, rw (e, record_functions) eq)
  one_function bdf bdfs table s _ e (as_other a h) room rest =
      let (status, kept, s', r, eq) = rest table (switched bdf s) room in
      (status, kept, s', not_device bdf a h r, rw (e, record_functions) eq)
  one_function bdf bdfs table s _ e (as_device h) room rest =
      elim (Bool-cases (leb bdf_table_room (length table))) [
        | inl full ↦
            let (status, kept, s', r, eq) = rest [] (switched bdf s) (omega arith) in
            let over : leb (length table + suc (length kept)) bdf_table_room ≡ false =
              ground arith in
            (status, bdf ∷ kept, s', device bdf h r, rw (e, full, over, record_functions) refl)
        | inr free ↦
            let longer = length-append_one table bdf in
            let fits : length (table ++ bdf ∷ []) ≤ bdf_table_room = ground arith in
            let (status, kept, s', r, eq) = rest (table ++ bdf ∷ []) (switched bdf s) fits in
            let sum : length (table ++ bdf ∷ []) + length kept ≡ length table + suc (length kept) =
              omega arith in
            let same = append-one table bdf kept in
            let last : ◌≡◌ {A = Option (ℕ × List ℕ × S)}
                (if leb (length (table ++ bdf ∷ []) + length kept) bdf_table_room
                  then some (status, (table ++ bdf ∷ []) ++ kept, s')
                  else none)
                (if leb (length table + suc (length kept)) bdf_table_room
                  then some (status, table ++ bdf ∷ kept, s')
                  else none) =
              rw (sum, same) refl in
            (status, bdf ∷ kept, s', device bdf h r, rw (e, free, record_functions) (eq ∙ last))
      ]

  -- Over any list of functions, when the search for the capability ends for each, the loops end. They
  -- record exactly the functions that are mapped, answer with an id other than all ones, are no host
  -- bridges, have a PCI Express capability once they are switched on, and are valid for the platform;
  -- in the order of the list, up to the first function that is not mapped, which gives status 1 in
  -- place of 0. Where these do not fit the 1023 entries that the table has room for, the code writes
  -- past the table, and there is no result.
  pub record_functions-Adds :
      (bdfs table : List ℕ) (s : S)
      → All Ends bdfs
      → length table ≤ bdf_table_room
      → Adds bdfs table s
  unfolding record_functions
  record_functions-Adds [] table s ends room = (0, [], s, all_seen s, ended table 0 s room)
  record_functions-Adds (bdf ∷ bdfs) table s (now, later) room =
      one_function bdf bdfs table s _ refl (probe-Probed bdf s now) room
        (λ t u fits. record_functions-Adds bdfs t u later fits)

  -- A creation that fails because there is no region is reported as a success when it is called again,
  -- with an empty table.
  pub create_device_bdf_table_again :
      (allocated : Bool) (s : S)
      → get_info pal info info_num_ecam 0 ≡ 0
      → (create_device_bdf_table pal info fuel junk target_linux none true s ≡ some (1, some [], s))
        × (create_device_bdf_table pal info fuel junk target_linux (some []) allocated s
            ≡ some (0, some [], s))
  unfolding create_device_bdf_table
  create_device_bdf_table_again allocated s h = (rw (h, create_device_bdf_table) refl, refl)
